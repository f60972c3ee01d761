-- ===== src/TaskExec/Canceling.antt =====
-- How a cancelation of the distributed manager ends, internal/taskexec/distributed_manager.go with the
-- subscription of subscription.go.
use a2a_go.Base.{
  ℕ, String, Bool, true, false, not, ◌&&◌, some, List, [], ◌∷◌, if◌then◌else◌, str_eq, ◌==◌, any,
  ◌||◌, ◌≡◌, ◌⊎◌, inl, inr, refl, arith, Bool-cases, Fault, Result, Result-cases, ok, err, other,
  task_not_cancelable,
}
use a2a_go.Core.{Task, Event, message, task, status_update, artifact_update, terminal, is_canceled}
use a2a_go.Events.Apply.{is_final}
use a2a_go.TaskStore.Api.{StoredTask, version_missing, after}
use a2a_go.TaskExec.Subscription.{
  QueueMessage, Yield, gives, is_not_found, remote_events, remote_loop,
}
use a2a_go.TaskExec.Distributed.{
  opens, closes, writes, cancel_payload, CancelAnswers, cancel, follow, StreamEnd, waits,
  is_lease_taken, followed,
}

-- Whether the reader's answer ends the cancelation: an error, or a final event that is newer than the
-- task was before the payload was written, or that has no version.
abbrev pub ends_stream : ℕ → Result QueueMessage → Bool
ends_stream from_version (err f) = true
ends_stream from_version (ok msg) =
    is_final msg.event
    && ((msg.task_version == version_missing) || after msg.task_version from_version)

abbrev pub waiting : StreamEnd → Bool
waiting waits = true
waiting _ = false

final_ends :
    (e : Event) (ys : List Yield) → is_final e ≡ true → waiting (follow (gives e ∷ ys)) ≡ false
unfolding follow
final_ends (message x) ys h = rw h refl
final_ends (task x) ys h = rw h refl
final_ends (status_update x) ys h = rw h refl
final_ends (artifact_update x) ys h = rw h refl

other_goes_on :
    (e : Event) (ys : List Yield) → is_final e ≡ false → follow (gives e ∷ ys) ≡ follow ys
unfolding follow
other_goes_on e ys h = rw h refl

seen : ℕ → QueueMessage → Bool
seen v msg = (msg.task_version == version_missing) || after msg.task_version v

skipped :
    (v : ℕ) (msg : QueueMessage) (reads : List (Result QueueMessage))
    → remote_loop v (ok msg ∷ reads) ≡ (
        if seen v msg
        then gives msg.event ∷ (if is_final msg.event then [] else remote_loop v reads)
        else remote_loop v reads)
unfolding remote_loop seen
skipped v msg reads = elim (Bool-cases (msg.task_version == version_missing)) [
  | inl e ↦ rw e refl
  | inr e ↦ elim (Bool-cases (after msg.task_version v)) [
    | inl f ↦ rw (e, f) refl
    | inr f ↦ rw (e, f) refl
  ]
]

remote_loop-ends :
    (from_version : ℕ) (reads : List (Result QueueMessage))
    → any (ends_stream from_version) reads ≡ true
    → waiting (follow (remote_loop from_version reads)) ≡ false
unfolding any seen
remote_loop-ends v [] h = absurd (ground arith)
remote_loop-ends v (err f ∷ reads) h = unfold remote_loop follow in refl
remote_loop-ends v (ok msg ∷ reads) h =
    rw (skipped v msg reads) (elim (Bool-cases (is_final msg.event)) [
      | inl e ↦ elim (Bool-cases (seen v msg)) [
        | inl f ↦ rw f (final_ends msg.event _ e)
        | inr f ↦ rw f (remote_loop-ends v reads (ground arith))
      ]
      | inr e ↦
          let rest = remote_loop-ends v reads (ground arith) in
          elim (Bool-cases (seen v msg)) [
            | inl f ↦ rw (f, e, other_goes_on msg.event (remote_loop v reads) e) rest
            | inr f ↦ rw f rest
          ]
    ])

pub remote_events-ends :
    (v : ℕ) (snapshot : Result StoredTask) (reads : List (Result QueueMessage))
    → any (ends_stream v) reads ≡ true
    → waiting (follow (remote_events false (some v) snapshot reads)) ≡ false
unfolding remote_events
remote_events-ends v (err f) reads h = elim (Bool-cases (is_not_found f)) [
  | inl e ↦ rw e (remote_loop-ends v reads h)
  | inr e ↦ rw e (unfold follow in refl)
]
remote_events-ends v (ok st) reads h = elim (Bool-cases (terminal st.task.status.state)) [
  | inl e ↦ rw e (final_ends (task st.task) [] (unfold is_final in ground arith))
  | inr e ↦ rw e (remote_loop-ends v reads h)
]

-- the work queue refuses the payload, or answers for another task
abbrev pub refused : String → Result String → Bool
refused id (err f) = not (is_lease_taken f)
refused id (ok used) = not (str_eq used id)

-- how far `Cancel` comes
abbrev pub Goes : String → CancelAnswers → Type 0
Goes id a =
    ((r : Result Task) × (cancel id a ≡ (some r, []))
      × ((t : Task) → r ≡ ok t → is_canceled t.status.state ≡ true))
    ⊎ (((f : Fault) × (cancel id a ≡ (some (err f), opens 0 id ∷ closes 0 ∷ [])))
        ⊎ (((f : Fault) × (refused id a.written ≡ true)
              × (cancel id a ≡ (some (err f), opens 0 id ∷ writes (cancel_payload id) ∷ [])))
            ⊎ ((st : StoredTask) × (a.stored ≡ ok st)
                × (refused id a.written ≡ false)
                × (cancel id a
                    ≡ followed a (opens 0 id ∷ writes (cancel_payload id) ∷ [])
                        (follow (remote_events false (some st.version) a.snapshot a.reads))))))

pub goes : (id : String) (a : CancelAnswers) → Goes id a
unfolding cancel
goes id a = elim (Result-cases a.stored) [
  | inl (f, p) ↦ inl (err f, rw p refl, λ t h. absurd (ground arith))
  | inr (st, p) ↦ elim (Bool-cases (is_canceled st.task.status.state)) [
    | inl c ↦ inl (ok st.task, rw (p, c) refl, λ t h. ground arith)
    | inr c ↦ elim (Bool-cases (terminal st.task.status.state)) [
      | inl d ↦ inl (err task_not_cancelable, rw (p, c, d) refl, λ t h. absurd (ground arith))
      | inr d ↦ elim (Result-cases a.reader) [
        | inl (f, q) ↦ inl (err f, rw (p, c, d, q) refl, λ t h. absurd (ground arith))
        | inr (u, q) ↦ elim (Result-cases a.encoded) [
          | inl (f, z) ↦ inr (inl (f, rw (p, c, d, q, z) refl))
          | inr (v, z) ↦ elim (Result-cases a.written) [
            | inl (f, y) ↦ elim (Bool-cases (is_lease_taken f)) [
              | inl e ↦ inr (inr (inr (st, p, rw (y, e) refl, rw (p, c, d, q, z, y, e) refl)))
              | inr e ↦ inr (inr (inl (f, rw (y, e) refl, rw (p, c, d, q, z, y, e) refl)))
            ]
            | inr (used, y) ↦ elim (Bool-cases (str_eq used id)) [
              | inl e ↦ inr (inr (inr (st, p, rw (y, e) refl, rw (p, c, d, q, z, y, e) refl)))
              | inr e ↦ inr (
                  inr (
                    inl (
                      other "bug: work-queue task id override is only allowed for executions",
                      rw (y, e) refl,
                      rw (p, c, d, q, z, y, e) refl,
                    )))
            ]
          ]
        ]
      ]
    ]
  ]
]
