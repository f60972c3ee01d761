-- ===== src/WorkQueue/Exclusive.antt =====
-- Which leases are held in the in-memory work queue, a2asrv/workqueue/inmemory.go.
use a2a_go.Base.{
  ℕ, ℤ, String, Bool, true, false, none, some, List, [], ◌∷◌, get_elem?, ◌≡◌, inl, inr, refl, sym,
  ap, ◌∙◌, subst, Bool-cases, Option-cases, Result-cases, ok,
}
use a2a_go.Base.Maps.{lookup}
use a2a_go.WorkQueue.Lease.{
  Payload, is_execute, LeaseManager, Lease, token_map, grant, new_lease, acquire, release,
}
use a2a_go.WorkQueue.Leases.{acquire_iff, acquire_ok, acquire_absent}
use a2a_go.WorkQueue.Semaphore.{try_acquire}
use a2a_go.WorkQueue.InMemory.{
  Stage, refused, handling, Call, InMemoryQueue, QueueStep, new_queue, remove_at, set_stage,
  acquire_lease, ask, give_up, finish, free, step, steps,
}
use a2a_go.WorkQueue.Calls.{
  leases_of, lease_at, Stage-cases, free-cases, leases_of-set_stage, leases_of-remove_at,
}
use a2a_go.WorkQueue.Tokens.{
  is_of, tokens, to_list, granted, lookup-release, tokens_nonempty, tokens-remove_at, tokens_single,
  of_same, of_self,
}

module _ {Pointer : Type 0} where
  -- The manager has the leases that the goroutines hold, one for each kind and task.
  abbrev pub AreHeld : LeaseManager Pointer → List (Lease Pointer) → Type 0
  AreHeld leases held =
      (executing : Bool) (tid : String)
      → tokens executing tid held ≡ to_list (lookup tid (token_map executing leases))

  abbrev pub IsConsistent : InMemoryQueue Pointer → Type 0
  IsConsistent q = AreHeld q.leases (leases_of q.calls)

  -- a goroutine's lease is the manager's
  held_lookup :
      (leases : LeaseManager Pointer) (held : List (Lease Pointer)) (i : ℕ) (l : Lease Pointer)
      → AreHeld leases held
      → get_elem? held i ≡ some l
      → lookup l.tid (token_map l.executing leases) ≡ some l.token
  held_lookup leases held i l c at =
      elim (Option-cases (lookup l.tid (token_map l.executing leases))) [
        | inl n ↦ absurd (
            tokens_nonempty held i l l.executing l.tid at (of_self l.executing l refl)
              (c l.executing l.tid ∙ rw n refl))
        | inr (t, n) ↦
            let is =
              tokens_single held i l l.executing l.tid t at (of_self l.executing l refl)
                (c l.executing l.tid ∙ rw n refl) in
            n ∙ ap (λ (u : Pointer). some u) is
      ]

  acquire-AreHeld :
      (p : Payload) (token : Pointer) (leases : LeaseManager Pointer) (held : List (Lease Pointer))
      → AreHeld leases held
      → (acquire p token leases).0 ≡ ok (new_lease p token)
      → AreHeld (grant (is_execute p) p.task_id token leases) (new_lease p token ∷ held)
  acquire-AreHeld p token leases held c given executing tid =
      let l = new_lease p token in
      let absent = acquire_absent p token leases given in
      let after = granted (is_execute p) p.task_id token leases executing tid in
      elim (Bool-cases (is_of executing tid l)) [
        | inl e ↦
            let (k, t) = of_same executing tid l e in
            let free : lookup tid (token_map executing leases) ≡ none =
              subst (λ (b : Bool). lookup tid (token_map b leases) ≡ none) k
                (subst (λ (j : String). lookup j (token_map (is_execute p) leases) ≡ none) t
                  absent) in
            let before : tokens executing tid held ≡ [] = c executing tid ∙ rw free refl in
            rw (after, e, before) refl
        | inr e ↦ rw (after, e) (c executing tid)
      ]

  acquire_lease-IsConsistent :
      (p : Payload) (token : Pointer) (q : InMemoryQueue Pointer)
      → IsConsistent q
      → IsConsistent (acquire_lease p token q).1
  unfolding acquire_lease
  acquire_lease-IsConsistent p token q c executing tid =
      elim (Result-cases (acquire p token q.leases).0) [
        | inl (f, h) ↦
            let unchanged = (acquire_iff p token q.leases).1 f h in
            rw (h, unchanged) (c executing tid)
        | inr (l, h) ↦
            let (is, after) = acquire_ok p token q.leases l h in
            rw (h, is, after)
              (acquire-AreHeld p token q.leases (leases_of q.calls) c (h ∙ rw is refl) executing
                tid)
      ]

  set_stage-IsConsistent :
      (i : ℕ) (s : Stage) (q : InMemoryQueue Pointer)
      → IsConsistent q
      → AreHeld q.leases (leases_of (set_stage i s q.calls))
  set_stage-IsConsistent i s q c =
      subst (AreHeld q.leases) (sym (leases_of-set_stage q.calls i s)) c

  ask-IsConsistent : (i : ℕ) (q : InMemoryQueue Pointer) → IsConsistent q → IsConsistent (ask i q)
  unfolding ask
  ask-IsConsistent i q c = elim (Option-cases (get_elem? q.calls i)) [
    | inl n ↦ rw n c
    | inr (x, n) ↦ elim (Stage-cases x.stage) [
      | inl k ↦ elim (Bool-cases (try_acquire q.quota).0) [
        | inl e ↦ rw (n, k, e) (set_stage-IsConsistent i handling q c)
        | inr e ↦ rw (n, k, e) (set_stage-IsConsistent i refused q c)
      ]
      | inr (inl k) ↦ rw (n, k) c
      | inr (inr k) ↦ rw (n, k) c
    ]
  ]

  free-IsConsistent : (q : InMemoryQueue Pointer) → IsConsistent q → IsConsistent (free q)
  free-IsConsistent q c = elim (free-cases q) [
    | inl is ↦ subst IsConsistent (sym is) c
    | inr (n, s, e, r, is) ↦ subst IsConsistent (sym is) c
  ]

  module _ (same : Pointer → Pointer → Bool) (reflexive : (t : Pointer) → same t t ≡ true) where
    release-AreHeld :
        (i : ℕ) (l : Lease Pointer) (leases : LeaseManager Pointer) (held : List (Lease Pointer))
        → AreHeld leases held
        → get_elem? held i ≡ some l
        → AreHeld (release same l leases) (remove_at i held)
    release-AreHeld i l leases held c at executing tid =
        let mine = held_lookup leases held i l c at in
        let after = lookup-release same l leases executing tid (reflexive l.token) mine in
        let left =
          tokens-remove_at held i l executing tid (lookup tid (token_map executing leases)) at
            (c executing tid) in
        left ∙ elim (Bool-cases (is_of executing tid l)) [
          | inl e ↦ rw (after, e) refl
          | inr e ↦ rw (after, e) refl
        ]

    drop-AreHeld :
        (i : ℕ) (x : Call Pointer) (q : InMemoryQueue Pointer)
        → IsConsistent q
        → get_elem? q.calls i ≡ some x
        → AreHeld (release same x.lease q.leases) (leases_of (remove_at i q.calls))
    drop-AreHeld i x q c at =
        subst (AreHeld (release same x.lease q.leases)) (sym (leases_of-remove_at q.calls i))
          (release-AreHeld i x.lease q.leases (leases_of q.calls) c (lease_at q.calls i x at))

    give_up-IsConsistent :
        (i : ℕ) (q : InMemoryQueue Pointer) → IsConsistent q → IsConsistent (give_up same i q)
    unfolding give_up
    give_up-IsConsistent i q c = elim (Option-cases (get_elem? q.calls i)) [
      | inl n ↦ rw n c
      | inr (x, n) ↦ elim (Stage-cases x.stage) [
        | inl k ↦ rw (n, k) c
        | inr (inl k) ↦ rw (n, k) (drop-AreHeld i x q c n)
        | inr (inr k) ↦ rw (n, k) c
      ]
    ]

    finish-IsConsistent :
        (i : ℕ) (q : InMemoryQueue Pointer) → IsConsistent q → IsConsistent (finish same i q)
    unfolding finish
    finish-IsConsistent i q c = elim (Option-cases (get_elem? q.calls i)) [
      | inl n ↦ rw n c
      | inr (x, n) ↦ elim (Stage-cases x.stage) [
        | inl k ↦ rw (n, k) c
        | inr (inl k) ↦ rw (n, k) c
        | inr (inr k) ↦ rw (n, k) (drop-AreHeld i x q c n)
      ]
    ]

    pub steps-IsConsistent :
        (xs : List (QueueStep Pointer)) (q : InMemoryQueue Pointer)
        → IsConsistent q
        → IsConsistent (steps same xs q)
    unfolding steps step
    steps-IsConsistent [] q c = c
    steps-IsConsistent (QueueStep.acquires p token ∷ xs) q c =
        steps-IsConsistent xs (acquire_lease p token q).1 (acquire_lease-IsConsistent p token q c)
    steps-IsConsistent (QueueStep.asks i ∷ xs) q c =
        steps-IsConsistent xs (ask i q) (ask-IsConsistent i q c)
    steps-IsConsistent (QueueStep.gives_up i ∷ xs) q c =
        steps-IsConsistent xs (give_up same i q) (give_up-IsConsistent i q c)
    steps-IsConsistent (QueueStep.returns i ∷ xs) q c =
        steps-IsConsistent xs (finish same i q) (finish-IsConsistent i q c)
    steps-IsConsistent (QueueStep.frees ∷ xs) q c =
        steps-IsConsistent xs (free q) (free-IsConsistent q c)

  pub new_queue-IsConsistent : (n : ℤ) → IsConsistent (new_queue n)
  unfolding new_queue lookup
  new_queue-IsConsistent n true tid = refl
  new_queue-IsConsistent n false tid = refl
