-- ===== src/WorkQueue/Semaphore.antt =====
-- The semaphore and the push queue's handler, a2asrv/workqueue/semaphore.go and pushqueue.go.
use a2a_go.Base.{
  ℕ, ◌+◌, ◌-◌, ◌≤◌, ◌<◌, zero, suc, Bool, true, false, Option, none, some, List, [], ◌∷◌, ◌≡◌, ◌↔◌,
  inl, inr, Bool-cases, refl, arith, if◌then◌else◌, ltb, ℤ, pos, negsuc,
}

-- The channel by its capacity and the number of values in it; no channel if there is no limit.
pub record Channel : Type 0 where
  pub capacity : ℕ
  pub used : ℕ

abbrev pub Semaphore : Type 0
Semaphore = Option Channel

unfoldable pub new_semaphore : ℤ → Semaphore
new_semaphore (pos zero) = none
new_semaphore (pos (suc n)) = some (record { capacity = suc n; used = 0 })
new_semaphore (negsuc n) = none

-- `acquire`: nothing while it blocks
unfoldable pub acquire : Semaphore → Option Semaphore
acquire none = some none
acquire (some ch) =
    if ltb ch.used ch.capacity
    then some (some (record { capacity = ch.capacity; used = ch.used + 1 }))
    else none

unfoldable pub try_acquire : Semaphore → Bool × Semaphore
try_acquire none = (true, none)
try_acquire (some ch) =
    if ltb ch.used ch.capacity
    then (true, some (record { capacity = ch.capacity; used = ch.used + 1 }))
    else (false, some ch)

-- `release`: nothing while it blocks
unfoldable pub release : Semaphore → Option Semaphore
release none = some none
release (some ch) =
    if ltb 0 ch.used
    then some (some (record { capacity = ch.capacity; used = ch.used - 1 }))
    else none

-- The handler of a push queue is called in a goroutine for each payload: the state is the semaphore
-- and the number of registered handlers that run.
pub data HandlerStep : Type 0 where
  arrives returns : HandlerStep

count_in : ℕ → Bool × Semaphore → Semaphore × ℕ
count_in running (true, s) = (s, running + 1)
count_in running (false, s) = (s, running)

count_out : Semaphore → ℕ → Option Semaphore → Semaphore × ℕ
count_out s running none = (s, suc running)
count_out s running (some t) = (t, running)

-- A payload arrives: it is refused with `ErrConcurrencyLimitExceeded` or handled. Or a handler
-- returns, and the deferred release is made.
unfoldable pub handle : HandlerStep → Semaphore × ℕ → Semaphore × ℕ
unfolding count_in count_out
handle arrives (s, running) = count_in running (try_acquire s)
handle returns (s, zero) = (s, zero)
handle returns (s, suc running) = count_out s running (release s)

unfoldable pub handle_all : List HandlerStep → Semaphore × ℕ → Semaphore × ℕ
handle_all [] state = state
handle_all (x ∷ xs) state = handle_all xs (handle x state)

full : ℕ → ℕ → Semaphore × ℕ
full limit n = (some (record { capacity = limit; used = n }), n)

handle-full :
    (x : HandlerStep) (limit n : ℕ)
    → n ≤ limit
    → (k : ℕ) × (handle x (full limit n) ≡ full limit k) × (k ≤ limit)
unfolding handle full try_acquire release
handle-full arrives limit n h = elim (Bool-cases (ltb n limit)) [
  | inl e ↦ (n + 1, rw e refl, ground arith)
  | inr e ↦ (n, rw e refl, h)
]
handle-full returns limit zero h = (0, refl, h)
handle-full returns limit (suc n) h =
    let e : ltb 0 (suc n) ≡ true = ground arith in
    let m : suc n - 1 ≡ n = omega arith in (n, rw (e, m) refl, omega arith)

handle_all-full :
    (xs : List HandlerStep) (limit n : ℕ)
    → n ≤ limit
    → (k : ℕ) × (handle_all xs (full limit n) ≡ full limit k) × (k ≤ limit)
unfolding handle_all
handle_all-full [] limit n h = (n, refl, h)
handle_all-full (x ∷ xs) limit n h =
    let (k, e, le) = handle-full x limit n h in rw e (handle_all-full xs limit k le)

-- In every order of arrivals and returns, a queue with a positive limit runs at most that many
-- handlers at once, and refuses a payload exactly while it runs that many.
pub handle_all_bounded :
    (limit : ℕ) (xs : List HandlerStep)
    → 0 < limit
    → let (s, running) = handle_all xs (new_semaphore (pos limit), 0) in
      (running ≤ limit) × (((try_acquire s).0 ≡ false) ↔ (running ≡ limit))
unfolding new_semaphore full try_acquire
handle_all_bounded zero xs h = absurd (omega arith)
handle_all_bounded (suc l) xs h =
    let (k, e, le) = handle_all-full xs (suc l) 0 (omega arith) in rw e (le, ground arith)
