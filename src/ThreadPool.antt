-- ===== src/ThreadPool.antt =====
-- src/ThreadPool: the queue of tasks and the pool of worker threads.
pub mod TaskQueue
pub mod Workers
pub mod Counts
pub mod Conserve
pub mod IoPool
