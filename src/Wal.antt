-- ===== src/Wal.antt =====
-- internal/database/wal: the rows of the write-ahead log, and the log's worker.
pub mod Row
pub mod Flush
pub mod Worker
pub mod FileLog
pub mod Restore
