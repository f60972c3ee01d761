-- ===== src/WorkQueue/Admission.antt =====
-- How many handlers the in-memory work queue runs at once, a2asrv/workqueue/inmemory.go.
use a2a_go.Base.{
  ℕ, zero, suc, ◌+◌, ◌-◌, ◌≤◌, ◌<◌, pos, String, Bool, true, Option, some, List, [], ◌∷◌, get_elem?,
  length, ltb, ◌≡◌, inl, inr, refl, sym, subst, ap, ◌∙◌, arith, Bool-cases, Option-cases,
  Result-cases,
}
use a2a_go.Base.Maps.{lookup}
use a2a_go.WorkQueue.Lease.{Payload, token_map, acquire}
use a2a_go.WorkQueue.Semaphore.{Semaphore, new_semaphore, try_acquire}
use a2a_go.WorkQueue.Semaphore
use a2a_go.WorkQueue.InMemory.{
  refused, handling, InMemoryQueue, QueueStep, new_queue, set_stage, acquire_lease, ask, give_up,
  finish, free, step, steps,
}
use a2a_go.WorkQueue.Calls.{
  running_of, running, Stage-cases, free-cases, length-set_stage, length-remove_at, tokens-running,
}
use a2a_go.WorkQueue.Tokens.{tokens, to_list}
use a2a_go.WorkQueue.Exclusive.{steps-IsConsistent, new_queue-IsConsistent}

module _ {Pointer : Type 0} where
  -- the semaphore counts the handlers that run and those that have ended and not released it
  pub record IsCounted (limit : ℕ) (q : InMemoryQueue Pointer) : Type 0 where
    pub counted : q.quota ≡ some (record { capacity = limit; used = length (running q) + q.ended })
    pub bounded : length (running q) + q.ended ≤ limit

  recount :
      (limit : ℕ) (q : InMemoryQueue Pointer) (n : ℕ)
      → n ≡ length (running q) + q.ended
      → q.quota ≡ some (record { capacity = limit; used = n })
      → n ≤ limit
      → IsCounted limit q
  recount limit q n is counted bounded = record {
    counted = counted ∙ ap (λ m. some (record { capacity = limit; used = m })) is;
    bounded = subst (λ m. m ≤ limit) is bounded;
  }

  acquire_lease-IsCounted :
      (limit : ℕ) (p : Payload) (token : Pointer) (q : InMemoryQueue Pointer)
      → IsCounted limit q
      → IsCounted limit (acquire_lease p token q).1
  unfolding acquire_lease
  acquire_lease-IsCounted limit p token q c = elim (Result-cases (acquire p token q.leases).0) [
    | inl (f, h) ↦ rw h (record { counted = c.counted; bounded = c.bounded })
    | inr (l, h) ↦ rw h (record { counted = c.counted; bounded = c.bounded })
  ]

  ask-IsCounted :
      (limit i : ℕ) (q : InMemoryQueue Pointer) → IsCounted limit q → IsCounted limit (ask i q)
  unfolding ask try_acquire
  ask-IsCounted limit i q c = elim (Option-cases (get_elem? q.calls i)) [
    | inl n ↦ rw n c
    | inr (x, n) ↦
        let counted = c.counted in
        let bounded = c.bounded in
        elim (Stage-cases x.stage) [
          | inl k ↦ elim (Bool-cases (ltb (length (running q) + q.ended) limit)) [
            | inl e ↦
                let more = length-set_stage q.calls i x handling n in
                let one_more : suc (length (running q) + q.ended)
                    ≡ length (running_of (set_stage i handling q.calls)) + q.ended =
                  ground arith in
                rw (n, k, counted, e)
                  (recount limit _ (suc (length (running q) + q.ended)) one_more (ground arith)
                    (ground arith))
            | inr e ↦
                let more = length-set_stage q.calls i x refused n in
                let same_many : length (running q) + q.ended
                    ≡ length (running_of (set_stage i refused q.calls)) + q.ended =
                  ground arith in
                rw (n, k, counted, e)
                  (recount limit _ (length (running q) + q.ended) same_many refl bounded)
          ]
          | inr (inl k) ↦ rw (n, k) c
          | inr (inr k) ↦ rw (n, k) c
        ]
  ]

  free-IsCounted :
      (limit : ℕ) (q : InMemoryQueue Pointer) → IsCounted limit q → IsCounted limit (free q)
  unfolding Semaphore.release
  free-IsCounted limit q c = elim (free-cases q) [
    | inl is ↦ subst (IsCounted limit) (sym is) c
    | inr (n, s, e, r, is) ↦
        let counted = c.counted in
        let bounded = c.bounded in
        let some_used : ltb 0 (length (running q) + q.ended) ≡ true = ground arith in
        let given : Semaphore.release q.quota
            ≡ some (some (record { capacity = limit; used = length (running q) + q.ended - 1 })) =
          rw (counted, some_used) refl in
        let after : s
            ≡ some (record { capacity = limit; used = length (running q) + q.ended - 1 }) =
          ground arith in
        subst (IsCounted limit) (sym is) (
          recount limit (record q { quota = s; ended = n }) (length (running q) + q.ended - 1)
            (omega (arith, e)) after (omega (arith, bounded)))
  ]

  module _ (same : Pointer → Pointer → Bool) where
    give_up-IsCounted :
        (limit i : ℕ) (q : InMemoryQueue Pointer)
        → IsCounted limit q
        → IsCounted limit (give_up same i q)
    unfolding give_up
    give_up-IsCounted limit i q c = elim (Option-cases (get_elem? q.calls i)) [
      | inl n ↦ rw n c
      | inr (x, n) ↦ elim (Stage-cases x.stage) [
        | inl k ↦ rw (n, k) c
        | inr (inl k) ↦
            let left = length-remove_at q.calls i x n in
            rw (n, k)
              (recount limit _ (length (running q) + q.ended) (ground arith) c.counted c.bounded)
        | inr (inr k) ↦ rw (n, k) c
      ]
    ]

    finish-IsCounted :
        (limit i : ℕ) (q : InMemoryQueue Pointer)
        → IsCounted limit q
        → IsCounted limit (finish same i q)
    unfolding finish
    finish-IsCounted limit i q c = elim (Option-cases (get_elem? q.calls i)) [
      | inl n ↦ rw n c
      | inr (x, n) ↦ elim (Stage-cases x.stage) [
        | inl k ↦ rw (n, k) c
        | inr (inl k) ↦ rw (n, k) c
        | inr (inr k) ↦
            let left = length-remove_at q.calls i x n in
            rw (n, k)
              (recount limit _ (length (running q) + q.ended) (ground arith) c.counted c.bounded)
      ]
    ]

    pub steps-IsCounted :
        (limit : ℕ) (xs : List (QueueStep Pointer)) (q : InMemoryQueue Pointer)
        → IsCounted limit q
        → IsCounted limit (steps same xs q)
    unfolding steps step
    steps-IsCounted limit [] q c = c
    steps-IsCounted limit (QueueStep.acquires p token ∷ xs) q c =
        steps-IsCounted limit xs (acquire_lease p token q).1
          (acquire_lease-IsCounted limit p token q c)
    steps-IsCounted limit (QueueStep.asks i ∷ xs) q c =
        steps-IsCounted limit xs (ask i q) (ask-IsCounted limit i q c)
    steps-IsCounted limit (QueueStep.gives_up i ∷ xs) q c =
        steps-IsCounted limit xs (give_up same i q) (give_up-IsCounted limit i q c)
    steps-IsCounted limit (QueueStep.returns i ∷ xs) q c =
        steps-IsCounted limit xs (finish same i q) (finish-IsCounted limit i q c)
    steps-IsCounted limit (QueueStep.frees ∷ xs) q c =
        steps-IsCounted limit xs (free q) (free-IsCounted limit q c)

  pub new_queue-IsCounted : (limit : ℕ) → 0 < limit → IsCounted limit (new_queue (pos limit))
  unfolding new_queue new_semaphore
  new_queue-IsCounted zero h = absurd (omega arith)
  new_queue-IsCounted (suc n) h = record { counted = refl; bounded = omega arith }

  -- In every interleaving of the steps of any number of writes and handlers, at most as many handlers
  -- run as the positive limit says, and for one task at most one that executes it and one that cancels
  -- it. The pointers' comparison is reflexive.
  pub steps_exclusive :
      (same : Pointer → Pointer → Bool) (limit : ℕ) (xs : List (QueueStep Pointer))
      (executing : Bool) (tid : String)
      → ((t : Pointer) → same t t ≡ true)
      → 0 < limit
      → let q = steps same xs (new_queue (pos limit)) in
        (length (running q) ≤ limit) × (length (tokens executing tid (running q)) ≤ 1)
  steps_exclusive same limit xs executing tid reflexive h =
      let q = steps same xs (new_queue (pos limit)) in
      let counted =
        steps-IsCounted same limit xs (new_queue (pos limit)) (new_queue-IsCounted limit h) in
      let bounded = counted.bounded in
      let all =
        steps-IsConsistent same reflexive xs (new_queue (pos limit))
          (new_queue-IsConsistent (pos limit)) executing tid in
      let held = tokens-running executing tid q.calls in
      (
        omega (arith, bounded),
        elim (Option-cases (lookup tid (token_map executing q.leases))) [
          | inl n ↦
              let none_held =
                ap (λ (l : List Pointer). length l)
                  (all ∙ ap (λ (o : Option Pointer). to_list o) n) in
              ground arith
          | inr (t, n) ↦
              let one_held =
                ap (λ (l : List Pointer). length l)
                  (all ∙ ap (λ (o : Option Pointer). to_list o) n) in
              ground arith
        ],
      )
