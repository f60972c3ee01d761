-- ===== src/Events.antt =====
-- a2aevent/event.go: a task after an event.
-- The functions are pure in the source too: "the input task is never modified".
pub mod Apply
pub mod Artifacts
pub mod Chunks
pub mod History
pub mod Lifecycle
