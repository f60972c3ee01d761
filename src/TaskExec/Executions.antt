-- ===== src/TaskExec/Executions.antt =====
-- Every order of the manager's steps, internal/taskexec/local_manager.go: calls and goroutines of
-- any number, their critical sections one after another as the mutex makes them.
use a2a_go.Base.{
  String, Bool, Option, none, some, ◌≡◌, ◌↔◌, inl, inr, arith, Option-cases, Fault, Result-cases,
  ok, err,
}
use a2a_go.Base.Maps.{lookup, insert}
use a2a_go.TaskExec.Limiter.{ConcurrencyConfig, acquire_quota}
use a2a_go.TaskExec.Quota.{acquire_quota_failed}
use a2a_go.TaskExec.Promise.{Promise}
use a2a_go.TaskExec.LocalManager.{
  LocalExecution, LocalManager, new_local_manager, new_local_execution, create_execution,
  store_exiting, register_cancelation, cleanup_execution, end_cancelation,
}

-- One critical section. The goroutine of an execution cleans up after it once, and it is registered
-- until then; so with a cancelation.
pub data Step : LocalManager → LocalManager → Type 0 where
  executes :
      (tid : String) (scope : Option String) (m : LocalManager)
      → Step m (create_execution tid scope m).1
  handles_event :
      (tid : String) (exiting : Bool) (m : LocalManager) → Step m (store_exiting tid exiting m)
  ends :
      (tid : String) (e : LocalExecution) (m : LocalManager)
      → lookup tid m.executions ≡ some e
      → Step m (cleanup_execution e m).1
  cancels : (tid : String) (m : LocalManager) → Step m (register_cancelation tid m).1
  ends_cancel :
      (tid : String) (p : Promise) (m : LocalManager)
      → lookup tid m.cancelations ≡ some p
      → Step m (end_cancelation tid p m).1

pub data Reachable (config : ConcurrencyConfig) : LocalManager → Type 0 where
  begin : Reachable config (new_local_manager config)
  next : (m n : LocalManager) → Reachable config m → Step m n → Reachable config n

-- what a successful `createExecution` did
abbrev Started : String → Option String → LocalManager → LocalExecution → LocalManager → Type 0
Started tid scope m e m' =
    (lookup tid m.executions ≡ none)
    × (lookup tid m.cancelations ≡ none)
    × ((acquire_quota scope m.limiter).0 ≡ ok tt)
    × (e ≡ new_local_execution tid scope)
    × (m' ≡ record m {
      executions = insert tid (new_local_execution tid scope) m.executions;
      limiter = (acquire_quota scope m.limiter).1;
    })

pub create_execution_ok :
    (tid : String) (scope : Option String) (m : LocalManager) (e : LocalExecution)
    → (create_execution tid scope m).0 ≡ ok e
    → Started tid scope m e (create_execution tid scope m).1
unfolding create_execution
create_execution_ok tid scope m e h = elim (Option-cases (lookup tid m.executions)) [
  | inr (d, p) ↦ absurd (ground arith)
  | inl p ↦ elim (Option-cases (lookup tid m.cancelations)) [
    | inr (d, q) ↦ absurd (ground arith)
    | inl q ↦ elim (Result-cases (acquire_quota scope m.limiter).0) [
      | inl (f, r) ↦ absurd (ground arith)
      | inr (u, r) ↦ (p, q, r, ground arith, ground arith)
    ]
  ]
]

pub create_execution_failed :
    (tid : String) (scope : Option String) (m : LocalManager) (f : Fault)
    → (create_execution tid scope m).0 ≡ err f
    → (create_execution tid scope m).1 ≡ m
unfolding create_execution
create_execution_failed tid scope m f h = elim (Option-cases (lookup tid m.executions)) [
  | inr (d, p) ↦ ground arith
  | inl p ↦ elim (Option-cases (lookup tid m.cancelations)) [
    | inr (d, q) ↦ ground arith
    | inl q ↦ elim (Result-cases (acquire_quota scope m.limiter).0) [
      | inl (g, r) ↦ let same = acquire_quota_failed scope m.limiter g r in ground arith
      | inr (u, r) ↦ absurd (ground arith)
    ]
  ]
]

-- An execution starts exactly when its task is neither executed nor canceled at the time and the
-- limiter has quota for it; else nothing changes.
pub create_execution_iff :
    (tid : String) (scope : Option String) (m : LocalManager)
    → (((create_execution tid scope m).0 ≡ ok (new_local_execution tid scope)) ↔ (
        (lookup tid m.executions ≡ none)
        × (lookup tid m.cancelations ≡ none)
        × ((acquire_quota scope m.limiter).0 ≡ ok tt)))
      × (((f : Fault)
          → (create_execution tid scope m).0 ≡ err f
          → (create_execution tid scope m).1 ≡ m))
unfolding create_execution
create_execution_iff tid scope m = (
  (
    λ h. let (a, b, c, _, _) = create_execution_ok tid scope m _ h in (a, b, c),
    λ (a, b, c). ground arith,
  ),
  create_execution_failed tid scope m,
)
