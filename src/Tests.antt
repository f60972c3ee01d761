-- ===== src/Tests.antt =====
-- Concrete inputs at which the theorems are applied, and runs of the model.
mod Data
mod Events
mod Store
mod Update
mod Exec
mod Work
mod Wire
mod Server
mod Remote
mod Proto
mod Sse
mod Paths
