-- ===== src/Concurrency.antt =====
-- src/concurrency: the readers-writer lock, and the chunks of the thread pool.
pub mod FairMutex
pub mod Ranges
