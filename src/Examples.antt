-- ===== src/Examples.antt =====
-- The properties at concrete inputs: a small session log with one replacement, and one region of it
-- that is compacted.
pub mod Log
pub mod Surface
pub mod Compaction
pub mod Services
mod Stream
mod Agent
mod Team
mod Schedule
