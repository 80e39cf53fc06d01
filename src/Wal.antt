-- ===== src/Wal.antt =====
-- internal/wal/wal.go: the write-ahead log in segment files, and what is proved of it.
pub mod Frames
pub mod Segments
pub mod Log
pub mod Reading
pub mod Tearing
pub mod Ending
pub mod Files
pub mod Soundness
pub mod Recovery
pub mod History
pub mod Sample
mod Examples
