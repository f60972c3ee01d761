-- ===== src/WorkQueue/Writes.antt =====
-- When the in-memory work queue takes a payload, a2asrv/workqueue/inmemory.go.
use a2a_go.Base.{
  ℕ, ◌+◌, ◌<◌, pos, Bool, true, false, Option, none, some, List, [], length, ltb, All, ◌≡◌, ◌↔◌,
  inl, inr, refl, sym, subst, arith, Bool-cases, Result-cases, ok,
}
use a2a_go.Base.Maps.{lookup}
use a2a_go.WorkQueue.Lease.{Payload, is_execute, Lease, new_lease, acquire}
use a2a_go.WorkQueue.Leases.{IsFree, acquire_iff, acquire_ok}
use a2a_go.WorkQueue.Semaphore.{try_acquire}
use a2a_go.WorkQueue.InMemory.{
  handling, InMemoryQueue, QueueStep, new_queue, acquire_lease, write, steps,
}
use a2a_go.WorkQueue.Calls.{running, running_of-leases_of}
use a2a_go.WorkQueue.Tokens.{tokens, to_list}
use a2a_go.WorkQueue.Exclusive.{AreHeld, IsConsistent, steps-IsConsistent, new_queue-IsConsistent}
use a2a_go.WorkQueue.Admission.{IsCounted, steps-IsCounted, new_queue-IsCounted}

module _ {Pointer : Type 0} where
  -- No other goroutine is inside of `Write` or between the two deferred calls: whoever holds a lease is
  -- with its handler, and who has released it has released the semaphore.
  abbrev pub IsQuiet : InMemoryQueue Pointer → Type 0
  IsQuiet q = All (λ c. c.stage ≡ handling) q.calls × (q.ended ≡ 0)

  -- no handler runs that excludes the payload
  abbrev pub IsIdle : Payload → List (Lease Pointer) → Type 0
  IsIdle p running =
      (tokens false p.task_id running ≡ [])
      × ((is_execute p ≡ true) → tokens true p.task_id running ≡ [])

  empty_iff : (o : Option Pointer) (l : List Pointer) → l ≡ to_list o → (l ≡ []) ↔ (o ≡ none)
  empty_iff none l h = (λ e. refl, λ e. h)
  empty_iff (some t) l h = (λ e. absurd (ground arith), λ e. absurd (ground arith))

  IsIdle-IsFree :
      (p : Payload) (q : InMemoryQueue Pointer)
      → IsConsistent q
      → IsQuiet q
      → IsIdle p (running q) ↔ IsFree p q.leases
  IsIdle-IsFree p q c quiet =
      let held = subst (AreHeld q.leases) (sym (running_of-leases_of q.calls quiet.0)) c in
      let cancels =
        empty_iff (lookup p.task_id q.leases.cancelations) (tokens false p.task_id (running q))
          (held false p.task_id) in
      let executes =
        empty_iff (lookup p.task_id q.leases.executions) (tokens true p.task_id (running q))
          (held true p.task_id) in
      (
        (λ i. (cancels.0 i.0, λ e. executes.0 (i.1 e))),
        (λ f. (cancels.1 f.0, λ e. executes.1 (f.1 e))),
      )

  write_iff :
      (same : Pointer → Pointer → Bool) (limit : ℕ) (p : Payload) (token : Pointer)
      (q : InMemoryQueue Pointer)
      → IsCounted limit q
      → ((write same p token q).0 ≡ ok p.task_id) ↔ (
          ((acquire p token q.leases).0 ≡ ok (new_lease p token))
          × (length (running q) + q.ended < limit))
  unfolding write acquire_lease try_acquire
  write_iff same limit p token q c =
      let counted = c.counted in
      elim (Result-cases (acquire p token q.leases).0) [
        | inl (f, h) ↦ rw h (λ e. absurd (ground arith), λ e. absurd (ground arith))
        | inr (l, h) ↦
            let (is, after) = acquire_ok p token q.leases l h in
            elim (Bool-cases (ltb (length (running q) + q.ended) limit)) [
              | inl e ↦ rw (h, counted, e, is) (λ x. (refl, ground arith), λ x. refl)
              | inr e ↦
                  rw (h, counted, e, is) (λ x. absurd (ground arith), λ x. absurd (ground arith))
            ]
      ]

  -- Whatever interleaving of writes and handlers has come before, once no other goroutine is inside of
  -- `Write` or between its deferred calls, a `Write` that runs alone takes its payload exactly when fewer
  -- handlers run than the positive limit and none that excludes it: a cancelation of its task, and for
  -- an execution an execution of its task. So what has returned, or was refused, never stands in the way.
  pub write_accepted :
      (same : Pointer → Pointer → Bool) (limit : ℕ) (xs : List (QueueStep Pointer)) (p : Payload)
      (token : Pointer)
      → ((t : Pointer) → same t t ≡ true)
      → 0 < limit
      → IsQuiet (steps same xs (new_queue (pos limit)))
      → let q = steps same xs (new_queue (pos limit)) in
        ((write same p token q).0 ≡ ok p.task_id)
        ↔ (IsIdle p (running q) × (length (running q) < limit))
  write_accepted same limit xs p token reflexive h quiet =
      let q = steps same xs (new_queue (pos limit)) in
      let counted =
        steps-IsCounted same limit xs (new_queue (pos limit)) (new_queue-IsCounted limit h) in
      let consistent =
        steps-IsConsistent same reflexive xs (new_queue (pos limit))
          (new_queue-IsConsistent (pos limit)) in
      let taken = write_iff same limit p token q counted in
      let free = IsIdle-IsFree p q consistent quiet in
      let given = (acquire_iff p token q.leases).0 in
      let done = quiet.1 in
      (
        (λ e. let (a, room) = taken.0 e in (free.1 (given.1 a), omega (arith, done, room))),
        (λ (i, room). taken.1 (given.0 (free.0 i), omega (arith, done, room))),
      )
