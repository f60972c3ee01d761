-- ===== src/TaskStore.antt =====
-- a2asrv/taskstore: the interface of a task store, the metadata validator, and the in-memory store.
pub mod Api
pub mod Validator
pub mod InMemory
pub mod Versions
pub mod Runs
pub mod Order
pub mod Search
pub mod Token
pub mod Listing
pub mod Behind
pub mod Pages
pub mod Sorted
