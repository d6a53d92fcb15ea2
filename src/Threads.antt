-- ===== src/Threads.antt =====
-- src/afb-thread.c: the pool of threads and its queue of jobs.
pub mod Queue
pub mod Pool
pub mod Timer
pub mod Groups
pub mod Order
pub mod Places
pub mod Invariant
pub mod Progress
