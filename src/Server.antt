-- ===== src/Server.antt =====
-- The request handler's side of an execution: a2asrv/agentexec.go with the loop of
-- internal/taskexec/execution_handler.go.
pub mod Processor
pub mod Loop
pub mod Join
pub mod Results
pub mod Applied
pub mod Sound
pub mod Runs
pub mod Context
pub mod Loading
pub mod Started
