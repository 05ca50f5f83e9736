-- ===== src/Api/Indexer.antt =====
-- apps/api/src/indexer: events of the contracts become rows of the database.
pub mod Jobs
pub mod Database
pub mod Worker
pub mod Cursor
pub mod Checkpoint
pub mod DeadLetters
pub mod Replays
