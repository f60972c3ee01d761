-- ===== src/WorkQueue/Calls.antt =====
-- The goroutines that hold a lease in the in-memory work queue, a2asrv/workqueue/inmemory.go, and those
-- of them whose handler runs.
use a2a_go.Base.{
  ℕ, zero, suc, ◌+◌, ◌≤◌, String, Bool, true, false, some, List, [], ◌∷◌, get_elem?, length, All,
  if◌then◌else◌, ◌≡◌, ◌⊎◌, inl, inr, refl, subst, ap, arith, Bool-cases, Option-cases,
}
use a2a_go.WorkQueue.Lease.{Lease}
use a2a_go.WorkQueue.Semaphore.{Semaphore}
use a2a_go.WorkQueue.Semaphore
use a2a_go.WorkQueue.InMemory.{
  Stage, asking, refused, handling, Call, InMemoryQueue, remove_at, set_stage, free, free_of,
}
use a2a_go.WorkQueue.Tokens.{is_of, tokens}

abbrev pub is_handling : Stage → Bool
is_handling asking = false
is_handling refused = false
is_handling handling = true

pub Stage-cases : (s : Stage) → (s ≡ asking) ⊎ ((s ≡ refused) ⊎ (s ≡ handling))
Stage-cases asking = inl refl
Stage-cases refused = inr (inl refl)
Stage-cases handling = inr (inr refl)

-- how many handlers run in a goroutine at this stage
abbrev pub counts : Stage → ℕ
counts s = if is_handling s then 1 else 0

module _ {Pointer : Type 0} where
  abbrev pub leases_of : List (Call Pointer) → List (Lease Pointer)
  leases_of [] = []
  leases_of (c ∷ calls) = c.lease ∷ leases_of calls

  -- the leases of the running handlers
  abbrev pub running_of : List (Call Pointer) → List (Lease Pointer)
  running_of [] = []
  running_of (c ∷ calls) =
      let rest = running_of calls in if is_handling c.stage then c.lease ∷ rest else rest

  abbrev pub running : InMemoryQueue Pointer → List (Lease Pointer)
  running q = running_of q.calls

  free_of-cases :
      (q : InMemoryQueue Pointer) (m : ℕ)
      → (free_of q m ≡ q)
        ⊎ ((n : ℕ) × (s : Semaphore) × (m ≡ suc n)
            × (Semaphore.release q.quota ≡ some s)
            × (free_of q m ≡ record q { quota = s; ended = n }))
  unfolding free_of
  free_of-cases q zero = inl refl
  free_of-cases q (suc n) = elim (Option-cases (Semaphore.release q.quota)) [
    | inl e ↦ inl (rw e refl)
    | inr (s, e) ↦ inr (n, s, refl, e, rw e refl)
  ]

  -- the second deferred call does nothing, or one that has ended releases the semaphore
  pub free-cases :
      (q : InMemoryQueue Pointer)
      → (free q ≡ q)
        ⊎ ((n : ℕ) × (s : Semaphore) × (q.ended ≡ suc n)
            × (Semaphore.release q.quota ≡ some s)
            × (free q ≡ record q { quota = s; ended = n }))
  unfolding free
  free-cases q = free_of-cases q q.ended

  pub lease_at :
      (calls : List (Call Pointer)) (i : ℕ) (c : Call Pointer)
      → get_elem? calls i ≡ some c
      → get_elem? (leases_of calls) i ≡ some c.lease
  lease_at [] i c at = absurd (ground arith)
  lease_at (d ∷ calls) zero c at = let is : d ≡ c = ground arith in ap (λ x. some x.lease) is
  lease_at (d ∷ calls) (suc i) c at = lease_at calls i c at

  pub leases_of-set_stage :
      (calls : List (Call Pointer)) (i : ℕ) (s : Stage)
      → leases_of (set_stage i s calls) ≡ leases_of calls
  unfolding set_stage
  leases_of-set_stage [] i s = refl
  leases_of-set_stage (c ∷ calls) zero s = refl
  leases_of-set_stage (c ∷ calls) (suc i) s = ap (λ l. c.lease ∷ l) (leases_of-set_stage calls i s)

  pub leases_of-remove_at :
      (calls : List (Call Pointer)) (i : ℕ)
      → leases_of (remove_at i calls) ≡ remove_at i (leases_of calls)
  unfolding remove_at
  leases_of-remove_at [] i = refl
  leases_of-remove_at (c ∷ calls) zero = refl
  leases_of-remove_at (c ∷ calls) (suc i) = ap (λ l. c.lease ∷ l) (leases_of-remove_at calls i)

  pub length-set_stage :
      (calls : List (Call Pointer)) (i : ℕ) (c : Call Pointer) (s : Stage)
      → get_elem? calls i ≡ some c
      → length (running_of (set_stage i s calls)) + counts c.stage
        ≡ length (running_of calls) + counts s
  unfolding set_stage
  length-set_stage [] i c s at = absurd (ground arith)
  length-set_stage (d ∷ calls) zero c s at =
      let is : d ≡ c = ground arith in
      subst
        (λ (x : Call Pointer).
          length (running_of (set_stage 0 s (d ∷ calls))) + counts x.stage
          ≡ length (running_of (d ∷ calls)) + counts s)
        is
        (elim (Bool-cases (is_handling s)) [
          | inl e ↦ elim (Bool-cases (is_handling d.stage)) [
            | inl f ↦ rw (e, f) refl
            | inr f ↦ rw (e, f) (omega arith)
          ]
          | inr e ↦ elim (Bool-cases (is_handling d.stage)) [
            | inl f ↦ rw (e, f) (omega arith)
            | inr f ↦ rw (e, f) refl
          ]
        ])
  length-set_stage (d ∷ calls) (suc i) c s at =
      let rest = length-set_stage calls i c s at in
      elim (Bool-cases (is_handling d.stage)) [
        | inl f ↦ rw f (omega (arith, rest))
        | inr f ↦ rw f rest
      ]

  pub length-remove_at :
      (calls : List (Call Pointer)) (i : ℕ) (c : Call Pointer)
      → get_elem? calls i ≡ some c
      → length (running_of (remove_at i calls)) + counts c.stage ≡ length (running_of calls)
  unfolding remove_at
  length-remove_at [] i c at = absurd (ground arith)
  length-remove_at (d ∷ calls) zero c at =
      let is : d ≡ c = ground arith in
      subst
        (λ (x : Call Pointer).
          length (running_of calls) + counts x.stage ≡ length (running_of (d ∷ calls)))
        is
        (elim (Bool-cases (is_handling d.stage)) [
          | inl f ↦ rw f (omega arith)
          | inr f ↦ rw f (omega arith)
        ])
  length-remove_at (d ∷ calls) (suc i) c at =
      let rest = length-remove_at calls i c at in
      elim (Bool-cases (is_handling d.stage)) [
        | inl f ↦ rw f (omega (arith, rest))
        | inr f ↦ rw f rest
      ]

  -- the running handlers hold some of the leases
  pub tokens-running :
      (executing : Bool) (tid : String) (calls : List (Call Pointer))
      → length (tokens executing tid (running_of calls))
        ≤ length (tokens executing tid (leases_of calls))
  tokens-running executing tid [] = omega arith
  tokens-running executing tid (c ∷ calls) =
      let rest = tokens-running executing tid calls in
      elim (Bool-cases (is_handling c.stage)) [
        | inl e ↦ elim (Bool-cases (is_of executing tid c.lease)) [
          | inl f ↦ rw (e, f) (omega (arith, rest))
          | inr f ↦ rw (e, f) rest
        ]
        | inr e ↦ elim (Bool-cases (is_of executing tid c.lease)) [
          | inl f ↦ rw (e, f) (omega (arith, rest))
          | inr f ↦ rw (e, f) rest
        ]
      ]

  -- when every goroutine is with its handler, the handlers hold all the leases
  pub running_of-leases_of :
      (calls : List (Call Pointer))
      → All (λ c. c.stage ≡ handling) calls
      → running_of calls ≡ leases_of calls
  running_of-leases_of [] h = refl
  running_of-leases_of (c ∷ calls) h =
      rw h.0 (ap (λ l. c.lease ∷ l) (running_of-leases_of calls h.1))
