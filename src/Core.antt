-- ===== src/Core.antt =====
-- backend/core: the services that plugins are given.
pub mod Permissions
pub mod Tasks
