-- ===== src/WorkQueue.antt =====
-- The work queue of distributed execution, a2asrv/workqueue: leases on tasks and the semaphore.
pub mod Lease
pub mod Leases
pub mod Semaphore
pub mod InMemory
pub mod Tokens
pub mod Calls
pub mod Exclusive
pub mod Admission
pub mod Writes
