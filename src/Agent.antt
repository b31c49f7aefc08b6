-- ===== src/Agent.antt =====
-- backend/pkg/agent: the actor's event emission, its turn/step lifecycle and the model request's retries.
pub mod Lifecycle
pub mod Retry
