-- ===== src/TaskExec/Streams.antt =====
-- What a subscriber sees, internal/taskexec/subscription.go.
use a2a_go.Base.{
  ℕ, ◌+◌, ◌-◌, ◌≤◌, ◌<◌, Bool, true, false, Option, none, some, List, [], ◌∷◌, map, length, drop,
  drop_all, ltb, ◌==◌, if◌then◌else◌, ◌≡◌, inl, inr, refl, arith, Bool-cases, Result, ok, err, suc,
}
use a2a_go.Core.{task, terminal}
use a2a_go.Events.Apply.{is_final}
use a2a_go.TaskStore.Api.{StoredTask, version_missing, after}
use a2a_go.TaskExec.Subscription.{
  QueueMessage, Yield, gives, promised, is_queue_closed, local_loop, local_events, remote_loop,
  remote_events,
}

-- The messages of the versions that follow one another, from the one behind `v` on.
abbrev IsConsecutive : ℕ → List QueueMessage → Type 0
IsConsecutive v [] = Unit
IsConsecutive v (m ∷ ms) = (m.task_version ≡ v + 1) × IsConsecutive (v + 1) ms

-- The events up to the first final one, which is the last, or all.
unfoldable pub until_final : List QueueMessage → List Yield
until_final [] = []
until_final (m ∷ ms) =
    let rest = until_final ms in gives m.event ∷ (if is_final m.event then [] else rest)

-- messages that are all newer are all seen
local_loop_newer :
    (v w : ℕ) (promise : Option Yield) (ms : List QueueMessage)
    → v ≤ w
    → w + length ms < 9223372036854775808
    → IsConsecutive w ms
    → local_loop v promise (map ok ms) ≡ until_final ms
unfolding local_loop until_final after
local_loop_newer v w promise [] le room c = refl
local_loop_newer v w promise (m ∷ ms) le room c =
    let newer : after m.task_version v ≡ true = ground arith in
    rw newer (rw (local_loop_newer v (w + 1) promise ms (omega arith) (omega arith) c.1) refl)

local_loop_join :
    (v w : ℕ) (promise : Option Yield) (ms : List QueueMessage)
    → w ≤ v
    → v + length ms < 9223372036854775808
    → IsConsecutive w ms
    → local_loop v promise (map ok ms) ≡ until_final (drop (v - w) ms)
unfolding local_loop until_final after
local_loop_join v w promise [] le room c =
    let left : List QueueMessage = [] in rw (drop_all (v - w) left (omega arith)) refl
local_loop_join v w promise (m ∷ ms) le room c = elim (Bool-cases (ltb w v)) [
  | inl older ↦
      let old : after m.task_version v ≡ false = ground arith in
      let n : v - w ≡ suc (v - (w + 1)) = ground arith in
      rw (old, n) (local_loop_join v (w + 1) promise ms (ground arith) (omega arith) c.1)
  | inr here ↦
      let n : v - w ≡ 0 = ground arith in
      rw n (local_loop_newer v w promise (m ∷ ms) (ground arith) (ground arith) c)
]

-- what ends a stream: a final event or an error
abbrev pub ends : Yield → Bool
ends (none, _) = true
ends (some e, none) = is_final e
ends (some e, some _) = true

abbrev pub StopsAtEnd : List Yield → Type 0
StopsAtEnd [] = Unit
StopsAtEnd (y ∷ ys) = ((ends y ≡ true) → ys ≡ []) × StopsAtEnd ys

promised-StopsAtEnd : (promise : Option Yield) → StopsAtEnd (promised promise)
promised-StopsAtEnd none = tt
promised-StopsAtEnd (some y) = (λ _. refl, tt)

-- In the stream of a local subscription behind its snapshot nothing follows a final event or an
-- error, whatever the queue and the promise answer.
pub local_loop-StopsAtEnd :
    (v : ℕ) (promise : Option Yield) (reads : List (Result QueueMessage))
    → StopsAtEnd (local_loop v promise reads)
unfolding local_loop
local_loop-StopsAtEnd v promise [] = tt
local_loop-StopsAtEnd v promise (err e ∷ reads) = elim (Bool-cases (is_queue_closed e)) [
  | inl p ↦ rw p (promised-StopsAtEnd promise)
  | inr p ↦ rw p (λ _. refl, tt)
]
local_loop-StopsAtEnd v promise (ok msg ∷ reads) = elim (Bool-cases (after msg.task_version v)) [
  | inr p ↦ rw p (local_loop-StopsAtEnd v promise reads)
  | inl p ↦ elim (Bool-cases (is_final msg.event)) [
    | inl q ↦ rw (p, q) (λ _. refl, tt)
    | inr q ↦ rw (p, q) (λ h. absurd (ground arith), local_loop-StopsAtEnd v promise reads)
  ]
]

-- A subscriber that resubscribes, first to the broadcast and then to the store, sees the stored task
-- and then each later event once and in order, up to the first final one: what the queue holds from
-- before the stored version is skipped, and nothing after it is missing.
pub local_events_join :
    (stored : StoredTask) (w : ℕ) (promise : Option Yield) (ms : List QueueMessage)
    → w ≤ stored.version
    → stored.version + length ms < 9223372036854775808
    → IsConsecutive w ms
    → local_events false true (ok stored) promise (map ok ms)
      ≡ gives (task stored.task)
        ∷ (if terminal stored.task.status.state
            then []
            else until_final (drop (stored.version - w) ms))
unfolding local_events
local_events_join stored w promise ms le room c =
    rw (local_loop_join stored.version w promise ms le room c) refl

remote_loop-local_loop :
    (v w : ℕ) (ms : List QueueMessage)
    → IsConsecutive w ms
    → remote_loop v (map ok ms) ≡ local_loop v none (map ok ms)
unfolding remote_loop local_loop
remote_loop-local_loop v w [] c = refl
remote_loop-local_loop v w (m ∷ ms) c =
    let present : (m.task_version == version_missing) ≡ false = ground arith in
    rw (present, remote_loop-local_loop v (w + 1) ms c.1) refl

-- A remote subscriber of a cancelation is shown each event behind the version that was stored when
-- the cancelation was asked for, once and in order, up to the first final one, and before them the
-- stored task only if it is terminal, which then is all. The versions follow one another from `w` on,
-- which is at most the stored one, and stay below 2 ^ 63.
pub remote_events_cancel :
    (stored : StoredTask) (from_version w : ℕ) (ms : List QueueMessage)
    → w ≤ from_version
    → from_version + length ms < 9223372036854775808
    → IsConsecutive w ms
    → remote_events false (some from_version) (ok stored) (map ok ms) ≡ (
        if terminal stored.task.status.state
        then gives (task stored.task) ∷ []
        else until_final (drop (from_version - w) ms))
unfolding remote_events
remote_events_cancel stored from_version w ms le room c =
    rw
      (remote_loop-local_loop from_version w ms c, local_loop_join from_version w none ms le room c)
      (elim (Bool-cases (terminal stored.task.status.state)) [
        | inl e ↦ rw e refl
        | inr e ↦ rw e refl
      ])
