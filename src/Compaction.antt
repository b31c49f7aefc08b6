-- ===== src/Compaction.antt =====
-- backend/pkg/compaction: condensing a span of the surface into one checkpoint message.
pub mod Pairing
pub mod Region
pub mod Entry
pub mod Transaction
