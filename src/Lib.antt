-- ===== src/Lib.antt =====
-- a2a-go: a verification library of the Go SDK for the Agent2Agent protocol.
--
-- The server side of the SDK turns a request into the execution of an agent. The agent emits events
-- (a2a/core.go); the task-update manager (internal/taskupdate) applies each to the task that it holds
-- (a2aevent) and writes the outcome to the task store (a2asrv/taskstore) under the version that it has
-- read; the task-execution manager (internal/taskexec) lets one execution of a task run at a time,
-- within a quota, and hands the applied events to subscribers; in distributed mode leases and queues
-- (a2asrv/workqueue) decide which process works on a task; push configurations (a2asrv/push) say where
-- else to report. What the goroutines share is reached under a mutex or through a channel, one critical
-- section or one channel operation at a time, so that each operation here is a function from a state to
-- an outcome and a state, and an interleaving is a list or a relation of such steps; the work queue, whose calls take the leases and the
-- semaphore one after the other, has a step for each.
--
-- Files:
--   Base, Base/*        tests on numbers, lists and options, Go maps as association lists (Base/Maps),
--                       Go errors (Base/Errors), the `int` of Go (Base/Int)
--   Core                a2a/core.go: states, roles, messages, artifacts, tasks, events, constructors;
--                       Core/Exact says which metadata values structpb and encoding/json give back
--   Events/Apply        a2aevent/event.go: validateUpdate, ApplyShallowUpdate, ApplyUpdate, IsFinal;
--                       Events/Artifacts, Chunks, History and Lifecycle hold the
--                       theorems
--   TaskStore/Api       a2asrv/taskstore/api.go: versions, `After`, the interface `Store`
--   TaskStore/Validator a2asrv/taskstore/validator.go
--   TaskStore/InMemory  a2asrv/taskstore/inmemory.go: Create, Update, Get; Versions and Runs hold the
--                       theorems on them
--   TaskStore/Listing   inmemory.go: List with its filter, sort and pages; Order (strings.Compare),
--                       Search (sort.Search), Token (page tokens); Sorted, Behind and Pages hold the
--                       theorems
--   TaskUpdate/Manager  internal/taskupdate/manager.go; Absorbing, Attempts, Laws (what the
--                       store promises), Stored, Steady and OverMemory (over the in-memory store)
--                       hold the theorems
--   TaskExec/Limiter    internal/taskexec/limiter.go; theorems in Quota
--   TaskExec/Promise    internal/taskexec/promise.go
--   TaskExec/LocalManager  the critical sections of internal/taskexec/local_manager.go; Executions has
--                       the step relation over them, Counting and Occupancy the invariants
--   TaskExec/Subscription  internal/taskexec/subscription.go; theorems in Streams
--   WorkQueue/Lease     a2asrv/workqueue/lease.go; theorems in Leases
--   WorkQueue/Semaphore a2asrv/workqueue/semaphore.go and the handler of pushqueue.go
--   WorkQueue/InMemory  a2asrv/workqueue/inmemory.go over both; theorems in Tokens, Calls,
--                       Exclusive, Admission and Writes
--   TaskExec/Distributed  internal/taskexec/distributed_manager.go; theorems in Readers, Canceling and
--                       Canceled
--   Server/Processor    the processor of a2asrv/agentexec.go; Results, Applied and Sound hold lemmas
--   Server/Loop         internal/taskexec/execution_handler.go: processEvents and the join of the
--                       goroutines; theorems in Runs (with the processor and the task-update manager) and
--                       Join
--   Server/Context      CreateExecutor and loadExecutionContext of a2asrv/agentexec.go; theorems in Loading
--                       and Started
--   Proto/Structs       the protobuf messages; Proto/ToProto, FromProto, Requests and Sending are
--                       a2apb/v1/pbconv; theorems in RoundTrip, Events and RequestTrips
--   Push/Store          a2asrv/push/store.go; theorems in Configs
--   Wire/Events, Parts  the JSON wrappers of events and parts of a2a/core.go
--   Wire/Sse            internal/sse/sse.go; theorems in Stream
--   Wire/PathTemplate   the matching of internal/pathtemplate/pathtemplate.go; theorems in Paths
--   Tests/*             concrete inputs, runs of the model and the theorems applied to them
--
-- Conventions. A name is the source's, in lower case with underscores. A pointer or a map that may be
-- nil is an Option. A `(T, error)` is a Result; an error is a sentinel of the repository or a text, as
-- `errors.Is` sees it. A task's version is the 64 bits of an int64; a theorem that needs the counter not
-- to have run through says so. The time is a number of nanoseconds. Metadata is a finite tree, in
-- which a map or slice that contains itself ends in a reference back to it (Core, Value). What the
-- task-update manager and a cancelation read from a store without an error is a task, not nil.
--
-- Parameters, since their code is elsewhere: encoding/gob behind `utils.DeepCopy`, base64 and the time
-- format of page tokens (a codec with its laws in TaskStore/Token), `url.ParseRequestURI`, new IDs, the
-- store and the materializer that the task-update manager is given, structpb and timestamppb (their
-- laws in Proto/RoundTrip are for the values of Core/Exact), push senders, what the queues and the codec
-- of a distributed manager answer, the printing and parsing of JSON values in Wire/Parts (again for the
-- values of Core/Exact), `bufio.Scanner` under the server-sent events, the unescaping and splitting of
-- paths, and the comparison of pointers to values of size zero in WorkQueue/Lease.
--
-- Loops are structural recursion. The pages of a listing are followed with fuel, one request for each
-- entry and one more; the retries of a cancelation have the code's own
-- bound of ten attempts, and the binary search counts down the length of its interval.
--
-- Not modelled: transports and their encodings (JSON-RPC, REST, gRPC), the protobuf conversions of
-- agent cards and of version 0, the request handler, timers (inactivity, heartbeats), the client, agent
-- cards and their signatures, the event broker and the pull queues, the ACP integration, logging, and
-- the command line tools, examples and test programs.
pub mod Base
pub mod Core
pub mod Events
pub mod TaskStore
pub mod TaskUpdate
mod Tests
pub mod TaskExec
pub mod WorkQueue
pub mod Push
pub mod Wire
pub mod Server
pub mod Proto
