-- ===== src/Journal.antt =====
-- src/journal: the log and its replay.
mod Tests
pub mod Tracker
pub mod Reader
pub mod Recovery
pub mod Manager
