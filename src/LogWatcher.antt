-- ===== src/LogWatcher.antt =====
-- internal/logwatcher: which containers are streamed, and how a broken stream is opened again.
pub mod Watcher
pub mod Stream
pub mod Filter
pub mod Lines
