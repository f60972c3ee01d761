-- ===== src/TaskExec.antt =====
-- Task execution, internal/taskexec: the quota, the executions and cancelations of one process,
-- promises and subscriptions.
pub mod Limiter
pub mod Quota
pub mod Promise
pub mod LocalManager
pub mod Executions
pub mod Counting
pub mod Occupancy
pub mod Subscription
pub mod Streams
pub mod Distributed
pub mod Readers
pub mod Canceling
pub mod Canceled
