-- ===== src/TaskExec/Subscription.antt =====
-- The event streams of subscriptions, internal/taskexec/subscription.go. A stream is the list of
-- what it yields to a consumer that takes everything; a consumer that stops earlier has seen a
-- beginning of it, since every `yield` that returns false ends the function. What the store, the
-- queue and the promise answer is given: the store's one answer, the queue's answers in their
-- order, of which the last may be a read that never returns, and the promise's, if there is one.
use a2a_go.Base.{
  ℕ, String, Bool, true, false, not, ◌&&◌, Option, none, some, List, [], ◌∷◌, if◌then◌else◌, ◌==◌,
  Fault, Result, ok, err, other, task_not_found, queue_closed,
}
use a2a_go.Core.{Event, task, terminal}
use a2a_go.Events.Apply.{is_final}
use a2a_go.TaskStore.Api.{StoredTask, version_missing, after}

-- `eventqueue.Message`
pub record QueueMessage : Type 0 where
  pub event : Event
  pub task_version : ℕ
  pub protocol : String

-- what `yield` is called with: an event or nil, an error or nil
abbrev pub Yield : Type 0
Yield = Option Event × Option Fault

abbrev pub gives : Event → Yield
gives e = (some e, none)

abbrev fails : Fault → List Yield
fails e = (none, some e) ∷ []

-- `yield(s.execution.result.wait(ctx))`
abbrev pub promised : Option Yield → List Yield
promised none = []
promised (some y) = y ∷ []

-- `errors.Is(err, eventqueue.ErrQueueClosed)` and `errors.Is(err, a2a.ErrTaskNotFound)`
abbrev pub is_queue_closed : Fault → Bool
is_queue_closed queue_closed = true
is_queue_closed _ = false

abbrev pub is_not_found : Fault → Bool
is_not_found task_not_found = true
is_not_found _ = false

local_read : ℕ → Option Yield → List Yield → Result QueueMessage → List Yield
local_read emitted promise rest (err e) = if is_queue_closed e then promised promise else fails e
local_read emitted promise rest (ok msg) =
    if not (after msg.task_version emitted)
    then rest
    else gives msg.event ∷ (if is_final msg.event then [] else rest)

-- the loop of a local subscription
unfoldable pub local_loop : ℕ → Option Yield → List (Result QueueMessage) → List Yield
unfolding local_read
local_loop emitted promise [] = []
local_loop emitted promise (r ∷ reads) =
    let rest = local_loop emitted promise reads in local_read emitted promise rest r

local_snapshot : Result StoredTask → Option Yield → List (Result QueueMessage) → List Yield
local_snapshot (err e) promise reads =
    let rest = local_loop version_missing promise reads in if is_not_found e then rest else fails e
local_snapshot (ok stored) promise reads =
    let rest = local_loop stored.version promise reads in
    gives (task stored.task) ∷ (if terminal stored.task.status.state then [] else rest)

-- `localSubscription.Events`
unfoldable pub local_events :
    Bool → Bool → Result StoredTask → Option Yield → List (Result QueueMessage) → List Yield
unfolding local_snapshot
local_events true start_with_task stored promise reads =
    fails (other "subscription already consumed")
local_events false true stored promise reads = local_snapshot stored promise reads
local_events false false stored promise reads = local_loop version_missing promise reads

remote_read : ℕ → List Yield → Result QueueMessage → List Yield
remote_read snapshot_version rest (err e) = fails e
remote_read snapshot_version rest (ok msg) =
    if not (msg.task_version == version_missing) && not (after msg.task_version snapshot_version)
    then rest
    else gives msg.event ∷ (if is_final msg.event then [] else rest)

-- the loop of a remote subscription
unfoldable pub remote_loop : ℕ → List (Result QueueMessage) → List Yield
unfolding remote_read
remote_loop snapshot_version [] = []
remote_loop snapshot_version (r ∷ reads) =
    let rest = remote_loop snapshot_version reads in remote_read snapshot_version rest r

-- `cancel` with `cancelFromVersion`: the loop starts behind that version, or behind the snapshot
abbrev loop_from : Option ℕ → ℕ → ℕ
loop_from none snapshot = snapshot
loop_from (some from_version) snapshot = from_version

-- whether the snapshot is shown
shows : Option ℕ → Bool → Bool
shows none terminal_now = true
shows (some from_version) terminal_now = terminal_now

remote_snapshot : Option ℕ → Result StoredTask → List (Result QueueMessage) → List Yield
unfolding shows
remote_snapshot cancel (err e) reads =
    let rest = remote_loop (loop_from cancel version_missing) reads in
    if is_not_found e then rest else fails e
remote_snapshot cancel (ok stored) reads =
    let rest = remote_loop (loop_from cancel stored.version) reads in
    if shows cancel (terminal stored.task.status.state)
    then gives (task stored.task) ∷ (if terminal stored.task.status.state then [] else rest)
    else rest

-- `remoteSubscription.Events`; `cancel` is the version that `newRemoteCancelSubscription` was given
unfoldable pub remote_events :
    Bool → Option ℕ → Result StoredTask → List (Result QueueMessage) → List Yield
unfolding remote_snapshot
remote_events true cancel stored reads = fails (other "subscription already consumed")
remote_events false cancel stored reads = remote_snapshot cancel stored reads
