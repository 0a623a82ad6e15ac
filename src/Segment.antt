-- ===== src/Segment.antt =====
-- internal/segment: the segment files of the log, and the index of its rows.
pub mod Index
pub mod Manager
pub mod Reading
pub mod Opening
