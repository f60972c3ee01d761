-- ===== src/TaskUpdate.antt =====
-- internal/taskupdate: the manager that turns an agent's events into stored task states.
pub mod Manager
pub mod Absorbing
pub mod Laws
pub mod Stored
pub mod Steady
pub mod Attempts
pub mod OverMemory
