-- ===== src/Logs.antt =====
-- internal/database/logs: reading rows from segments, and writing them to a target.
pub mod Reader
pub mod Writer
pub mod Segments
