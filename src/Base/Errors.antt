-- ===== src/Base/Errors.antt =====
-- Go's `(T, error)`. An error is seen through `errors.Is`: a sentinel value of the repository, or
-- another error by the constant part of its text. Wrapping with `%w` keeps the wrapped error.
use Prim.Native.String.{String}
use mathlib.Core.Path.{◌≡◌, refl}
use mathlib.Core.Logic.{◌⊎◌, inl, inr}

-- The sentinels of a2a/errors.go, a2asrv/taskstore, a2asrv/eventqueue and a2asrv/workqueue.
pub data Fault : Type 0 where
  task_not_found task_not_cancelable unsupported_operation : Fault
  invalid_agent_response invalid_params invalid_request : Fault
  parse_error unauthenticated internal_error : Fault
  task_already_exists concurrent_modification : Fault
  queue_closed inactivity_timeout : Fault
  lease_already_taken concurrency_limit_exceeded malformed_payload : Fault
  push_config_not_found : Fault
  context_done : Fault
  other : String → Fault

pub data Result {ℓ} (A : Type ℓ) : Type ℓ where
  ok : A → Result A
  err : Fault → Result A

infixl 5 ◌>>=◌
abbrev pub ◌>>=◌ {ℓ κ} : {S : Type ℓ} {T : Type κ} → Result S → (S → Result T) → Result T
err why >>= next = err why
ok got >>= next = next got

-- an error alone: go on if it is nil
infixl 5 ◌>>◌
abbrev pub ◌>>◌ {ℓ} : {T : Type ℓ} → Result (Unit {0}) → Result T → Result T
check >> rest = elim check [ ok _ ↦ rest | err why ↦ err why ]

pub Result-cases {ℓ} :
    {A : Type ℓ} (r : Result A) → ((e : Fault) × (r ≡ err e)) ⊎ ((a : A) × (r ≡ ok a))
Result-cases (err e) = inl (e, refl)
Result-cases (ok a) = inr (a, refl)
