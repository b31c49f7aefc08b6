-- ===== src/Session.antt =====
-- backend/pkg/session: the event log's envelopes and the surface fold.
pub mod Json
pub mod Events
pub mod Messages
pub mod Surface
pub mod Manager
