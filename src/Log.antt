-- ===== src/Log.antt =====
-- The logger of libs/logger: lines are put together in a stream and written by a thread.
pub mod Async
pub mod File
pub mod Stream
