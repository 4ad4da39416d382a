-- ===== src/Indexer.antt =====
-- apps/indexer: the worker that turns the program's transactions into the stored feed.
mod Tests
pub mod Decode
pub mod Store
pub mod Retention
pub mod Notify
pub mod Reader
pub mod Stream
pub mod Poll
