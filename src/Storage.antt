-- ===== src/Storage.antt =====
-- backend/pkg/storage: the in-memory ring of recent events and the append check of the SQLite store.
pub mod RingBuffer
pub mod Sqlite
