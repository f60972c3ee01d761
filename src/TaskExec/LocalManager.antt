-- ===== src/TaskExec/LocalManager.antt =====
-- The manager of one process's executions, internal/taskexec/local_manager.go: what its calls and
-- its goroutines do under its mutex, each critical section being one step. What an execution does
-- between its steps is the agent's and the processor's. `scope` is the limiter's scope of the
-- context in which the execution was asked for.
use a2a_go.Base.{
  String, Bool, true, false, Option, none, some, [], Fault, Result, ok, err, unsupported_operation,
}
use a2a_go.Base.Maps.{GoMap, lookup, insert, remove}
use a2a_go.TaskExec.Limiter.{
  ConcurrencyConfig, ConcurrencyLimiter, new_concurrency_limiter, acquire_quota, release_quota,
}
use a2a_go.TaskExec.Promise.{Promise, new_promise, signal_done}

-- `localExecution`, less its pipe and what it takes from the manager
pub record LocalExecution : Type 0 where
  pub tid : String
  pub scope : Option String
  pub result : Promise
  pub exiting : Bool

pub record LocalManager : Type 0 where
  pub executions : GoMap LocalExecution
  pub cancelations : GoMap Promise
  pub limiter : ConcurrencyLimiter

unfoldable pub new_local_manager : ConcurrencyConfig → LocalManager
new_local_manager config = record {
  executions = [];
  cancelations = [];
  limiter = new_concurrency_limiter config;
}

abbrev pub new_local_execution : String → Option String → LocalExecution
new_local_execution tid scope = record {
  tid = tid;
  scope = scope;
  result = new_promise;
  exiting = false;
}

-- `ErrExecutionInProgress` and `ErrCancelationInProgress` both are unsupported operations.
start_with_quota :
    String
    → Option String
    → LocalManager
    → Result (Unit {0}) × ConcurrencyLimiter
    → Result LocalExecution × LocalManager
start_with_quota tid scope m (err e, l) =
    (err e, record { executions = m.executions; cancelations = m.cancelations; limiter = l })
start_with_quota tid scope m (ok _, l) = (
  ok (new_local_execution tid scope),
  record {
    executions = insert tid (new_local_execution tid scope) m.executions;
    cancelations = m.cancelations;
    limiter = l;
  },
)

start :
    String
    → Option String
    → LocalManager
    → Option LocalExecution
    → Option Promise
    → Result LocalExecution × LocalManager
unfolding start_with_quota
start tid scope m (some _) _ = (err unsupported_operation, m)
start tid scope m none (some _) = (err unsupported_operation, m)
start tid scope m none none = start_with_quota tid scope m (acquire_quota scope m.limiter)

-- `createExecution`
unfoldable pub create_execution :
    String → Option String → LocalManager → Result LocalExecution × LocalManager
unfolding start
create_execution tid scope m =
    start tid scope m (lookup tid m.executions) (lookup tid m.cancelations)

-- What `waitForExiting` decides before it waits.
pub data FollowUp : Type 0 where
  proceed : FollowUp
  refuse : Fault → FollowUp
  await : Promise → FollowUp

follow : Option LocalExecution → FollowUp
follow none = proceed
follow (some execution) = elim execution.exiting [
  | true ↦ await execution.result
  | false ↦ refuse unsupported_operation
]

unfoldable wait_for_exiting : String → LocalManager → FollowUp
unfolding follow
wait_for_exiting tid m = follow (lookup tid m.executions)

-- `execution.exiting.Store(exiting)` by the handler of the execution's events
store_found : String → Bool → LocalManager → Option LocalExecution → LocalManager
store_found tid exiting m none = m
store_found tid exiting m (some execution) = record {
  executions =
      insert tid
        (record {
          tid = execution.tid;
          scope = execution.scope;
          result = execution.result;
          exiting = exiting;
        })
        m.executions;
  cancelations = m.cancelations;
  limiter = m.limiter;
}

unfoldable pub store_exiting : String → Bool → LocalManager → LocalManager
unfolding store_found
store_exiting tid exiting m = store_found tid exiting m (lookup tid m.executions)

-- What `Cancel` does next: it waits for the cancelation that it found, or it starts its own, beside
-- an execution if there is one.
pub data CancelPath : Type 0 where
  waits_for_existing : CancelPath
  with_concurrent_run : LocalExecution → CancelPath
  alone : CancelPath

new_path : Option LocalExecution → CancelPath
new_path none = alone
new_path (some execution) = with_concurrent_run execution

register : String → LocalManager → Option Promise → CancelPath × LocalManager
unfolding new_path
register tid m (some _) = (waits_for_existing, m)
register tid m none = (
  new_path (lookup tid m.executions),
  record {
    executions = m.executions;
    cancelations = insert tid new_promise m.cancelations;
    limiter = m.limiter;
  },
)

-- `Cancel`, up to the wait for the result
unfoldable pub register_cancelation : String → LocalManager → CancelPath × LocalManager
unfolding register
register_cancelation tid m = register tid m (lookup tid m.cancelations)

-- `cleanupExecution`, its critical section; the first part is the promise that the waiting calls see
unfoldable pub cleanup_execution : LocalExecution → LocalManager → Promise × LocalManager
cleanup_execution execution m = (
  signal_done execution.result,
  record {
    executions = remove execution.tid m.executions;
    cancelations = m.cancelations;
    limiter = release_quota execution.scope m.limiter;
  },
)

-- the deferred end of `handleCancel` and of `handleCancelWithConcurrentRun`
unfoldable pub end_cancelation : String → Promise → LocalManager → Promise × LocalManager
end_cancelation tid result m = (
  signal_done result,
  record {
    executions = m.executions;
    cancelations = remove tid m.cancelations;
    limiter = m.limiter;
  },
)
