-- ===== src/WorkQueue/InMemory.antt =====
-- The in-memory work queue, a2asrv/workqueue/inmemory.go, with the leases of lease.go and the semaphore
-- of semaphore.go.
--
-- The state is what the goroutines share, the leases and the semaphore, and how far each goroutine has
-- come. No lock spans two calls on them, so that each is a step: Acquire, tryAcquire and the Release
-- of a refused lease in `Write`, and the two deferred calls of a handler that has returned. The steps of
-- different goroutines interleave in any order. `same` compares pointers, as in Lease.
use a2a_go.Base.{
  ℕ, zero, suc, ◌+◌, ℤ, String, Bool, true, false, Option, none, some, List, [], ◌∷◌, get_elem?,
  if◌then◌else◌, Result, ok, err, concurrency_limit_exceeded,
}
use a2a_go.WorkQueue.Lease.{
  Payload, LeaseManager, Lease, new_in_memory_lease_manager, acquire, release,
}
use a2a_go.WorkQueue.Semaphore.{Semaphore, new_semaphore, try_acquire}
use a2a_go.WorkQueue.Semaphore

-- where a goroutine that holds a lease is: before tryAcquire, refused by it and before the lease's
-- Release, or with the handler
pub data Stage : Type 0 where
  asking refused handling : Stage

module _ (Pointer : Type 0) where
  pub record Call : Type 0 where
    pub lease : Lease Pointer
    pub stage : Stage

  -- `inMemoryQueue` with the goroutines that hold a lease, and the number of those that have released
  -- it and have the semaphore still
  pub record InMemoryQueue : Type 0 where
    pub leases : LeaseManager Pointer
    pub quota : Semaphore
    pub calls : List Call
    pub ended : ℕ

  pub data QueueStep : Type 0 where
    acquires : Payload → Pointer → QueueStep
    asks : ℕ → QueueStep
    gives_up : ℕ → QueueStep
    returns : ℕ → QueueStep
    frees : QueueStep

-- the list without one element
unfoldable pub remove_at {ℓ} : {A : Type ℓ} → ℕ → List A → List A
remove_at i [] = []
remove_at zero (l ∷ rest) = rest
remove_at (suc i) (l ∷ rest) = l ∷ remove_at i rest

module _ {Pointer : Type 0} where
  -- `NewInMemory` and `RegisterHandler`
  unfoldable pub new_queue : ℤ → InMemoryQueue Pointer
  new_queue max_executions = record {
    leases = new_in_memory_lease_manager;
    quota = new_semaphore max_executions;
    calls = [];
    ended = 0;
  }

  -- one call at another stage
  unfoldable pub set_stage : ℕ → Stage → List (Call Pointer) → List (Call Pointer)
  set_stage i s [] = []
  set_stage zero s (c ∷ rest) = record c { stage = s } ∷ rest
  set_stage (suc i) s (c ∷ rest) = c ∷ set_stage i s rest

  begun :
      InMemoryQueue Pointer
      → Result (Lease Pointer) × LeaseManager Pointer
      → Result (Lease Pointer) × InMemoryQueue Pointer
  begun q (err f, leases) = (err f, record q { leases = leases })
  begun q (ok l, leases) =
      (ok l, record q { leases = leases; calls = record { lease = l; stage = asking } ∷ q.calls })

  -- the Acquire of `Write`, with the pointer that the lease's allocation gives
  unfoldable pub acquire_lease :
      Payload → Pointer → InMemoryQueue Pointer → Result (Lease Pointer) × InMemoryQueue Pointer
  unfolding begun
  acquire_lease p token q = begun q (acquire p token q.leases)

  answered : ℕ → InMemoryQueue Pointer → Bool × Semaphore → InMemoryQueue Pointer
  unfolding set_stage
  answered i q (true, s) = record q { quota = s; calls = set_stage i handling q.calls }
  answered i q (false, s) = record q { quota = s; calls = set_stage i refused q.calls }

  ask_at : ℕ → InMemoryQueue Pointer → Stage → InMemoryQueue Pointer
  unfolding answered
  ask_at i q asking = answered i q (try_acquire q.quota)
  ask_at i q refused = q
  ask_at i q handling = q

  ask_of : ℕ → InMemoryQueue Pointer → Option (Call Pointer) → InMemoryQueue Pointer
  unfolding ask_at
  ask_of i q none = q
  ask_of i q (some c) = ask_at i q c.stage

  -- the tryAcquire of one call, which starts the handler when it succeeds
  unfoldable pub ask : ℕ → InMemoryQueue Pointer → InMemoryQueue Pointer
  unfolding ask_of
  ask i q = ask_of i q (get_elem? q.calls i)

  freed : InMemoryQueue Pointer → ℕ → Option Semaphore → InMemoryQueue Pointer
  freed q n none = q
  freed q n (some s) = record q { quota = s; ended = n }

  unfoldable pub free_of : InMemoryQueue Pointer → ℕ → InMemoryQueue Pointer
  unfolding freed
  free_of q zero = q
  free_of q (suc n) = freed q n (Semaphore.release q.quota)

  -- the second deferred call of a handler: its semaphore's release, which waits while it blocks
  unfoldable pub free : InMemoryQueue Pointer → InMemoryQueue Pointer
  unfolding free_of
  free q = free_of q q.ended

  module _ (same : Pointer → Pointer → Bool) where
    -- the lease of a call is released
    drop_lease : ℕ → InMemoryQueue Pointer → Lease Pointer → InMemoryQueue Pointer
    unfolding remove_at
    drop_lease i q l = record q { leases = release same l q.leases; calls = remove_at i q.calls }

    give_up_at : ℕ → InMemoryQueue Pointer → Lease Pointer → Stage → InMemoryQueue Pointer
    unfolding drop_lease
    give_up_at i q l asking = q
    give_up_at i q l refused = drop_lease i q l
    give_up_at i q l handling = q

    give_up_of : ℕ → InMemoryQueue Pointer → Option (Call Pointer) → InMemoryQueue Pointer
    unfolding give_up_at
    give_up_of i q none = q
    give_up_of i q (some c) = give_up_at i q c.lease c.stage

    -- the Release of one call that the semaphore has refused
    unfoldable pub give_up : ℕ → InMemoryQueue Pointer → InMemoryQueue Pointer
    unfolding give_up_of
    give_up i q = give_up_of i q (get_elem? q.calls i)

    finish_at : ℕ → InMemoryQueue Pointer → Lease Pointer → Stage → InMemoryQueue Pointer
    unfolding drop_lease
    finish_at i q l asking = q
    finish_at i q l refused = q
    finish_at i q l handling = record (drop_lease i q l) { ended = q.ended + 1 }

    finish_of : ℕ → InMemoryQueue Pointer → Option (Call Pointer) → InMemoryQueue Pointer
    unfolding finish_at
    finish_of i q none = q
    finish_of i q (some c) = finish_at i q c.lease c.stage

    -- a handler returns: the first deferred call, its lease's Release
    unfoldable pub finish : ℕ → InMemoryQueue Pointer → InMemoryQueue Pointer
    unfolding finish_of
    finish i q = finish_of i q (get_elem? q.calls i)

    write_of :
        Result (Lease Pointer) × InMemoryQueue Pointer → Result String × InMemoryQueue Pointer
    write_of (err f, q) = (err f, q)
    write_of (ok l, q) =
        if (try_acquire q.quota).0
        then (ok l.tid, ask 0 q)
        else (err concurrency_limit_exceeded, give_up 0 (ask 0 q))

    -- `Write`, when no other goroutine comes between its steps
    unfoldable pub write :
        Payload → Pointer → InMemoryQueue Pointer → Result String × InMemoryQueue Pointer
    unfolding write_of
    write p token q = write_of (acquire_lease p token q)

    unfoldable pub step : QueueStep Pointer → InMemoryQueue Pointer → InMemoryQueue Pointer
    step (acquires p token) q = (acquire_lease p token q).1
    step (asks i) q = ask i q
    step (gives_up i) q = give_up i q
    step (returns i) q = finish i q
    step frees q = free q

    unfoldable pub steps : List (QueueStep Pointer) → InMemoryQueue Pointer → InMemoryQueue Pointer
    steps [] q = q
    steps (x ∷ xs) q = steps xs (step x q)
