-- ===== src/Sync.antt =====
-- src/sync: a chained list with a counter, and the queue of messages between the threads.
pub mod Counted
pub mod Queue
mod Examples
