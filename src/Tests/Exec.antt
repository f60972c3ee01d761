-- ===== src/Tests/Exec.antt =====
-- Runs and instances for executions and subscriptions.
use a2a_go.Base.{
  String, ℤ, pos, true, false, none, some, [], ◌∷◌, map, length, ◌≡◌, ◌↔◌, refl, arith, Fault, ok,
  err,
}
use a2a_go.Base.Maps.{lookup, insert, remove}
use a2a_go.Core.{task, artifact_update, status_update}
use a2a_go.Events.Apply.{is_final}
use a2a_go.TaskStore.Api.{StoredTask}
use a2a_go.TaskExec.Limiter.{ConcurrencyConfig, active, acquire_quota}
use a2a_go.TaskExec.Quota.{Within}
use a2a_go.TaskExec.LocalManager.{
  LocalManager, LocalExecution, new_local_manager, new_local_execution, create_execution,
  cleanup_execution,
}
use a2a_go.TaskExec.Executions.{Reachable, begin, next, executes, ends, create_execution_iff}
use a2a_go.TaskExec.Counting.{in_scope}
use a2a_go.TaskExec.Occupancy.{executions-Within, idle_quota}
use a2a_go.TaskExec.Subscription.{QueueMessage, gives, local_events, remote_events}
use a2a_go.TaskExec.Streams.{until_final, local_events_join, remote_events_cancel}
use a2a_go.Tests.Data.{job, report_event, done_event}

abbrev one_each : ConcurrencyConfig
one_each = record { max_executions = pos 3; get_max_executions = some (λ _. pos 1) }

abbrev of_alice : LocalExecution
of_alice = new_local_execution "t1" (some "alice")

abbrev started : LocalManager
started = (create_execution "t1" (some "alice") (new_local_manager one_each)).1

abbrev ended : LocalManager
ended = (cleanup_execution of_alice started).1

started-Reachable : Reachable one_each started
started-Reachable =
    next (new_local_manager one_each) started begin
      (executes "t1" (some "alice") (new_local_manager one_each))

started_registered : lookup "t1" started.executions ≡ some of_alice
unfolding lookup create_execution acquire_quota new_local_manager insert active
started_registered = refl

ended-Reachable : Reachable one_each ended
ended-Reachable =
    next started ended started-Reachable (ends "t1" of_alice started started_registered)

-- the second execution of one scope is refused
alice_again : (create_execution "t2" (some "alice") started).1 ≡ started
unfolding lookup create_execution acquire_quota new_local_manager insert active
alice_again = refl

executions-Within_example :
    Within (pos 3) (length started.executions)
    × ((get : String → ℤ) (scope : String)
        → one_each.get_max_executions ≡ some get
        → Within (get scope) (in_scope scope started.executions))
executions-Within_example = executions-Within one_each started started-Reachable

ended_idle : ended.executions ≡ []
unfolding lookup create_execution acquire_quota new_local_manager insert active cleanup_execution
    remove
ended_idle = refl

idle_quota_example :
    (ended.limiter.executions ≡ 0)
    × ((get : String → ℤ) (scope : String)
        → one_each.get_max_executions ≡ some get
        → active scope ended.limiter ≡ 0)
idle_quota_example = idle_quota one_each ended ended-Reachable ended_idle

create_execution_iff_example :
    (((create_execution "t2" (some "bob") started).0 ≡ ok (new_local_execution "t2" (some "bob")))
      ↔ ((lookup "t2" started.executions ≡ none)
          × (lookup "t2" started.cancelations ≡ none)
          × ((acquire_quota (some "bob") started.limiter).0 ≡ ok tt)))
    × ((f : Fault)
        → (create_execution "t2" (some "bob") started).0 ≡ err f
        → (create_execution "t2" (some "bob") started).1 ≡ started)
create_execution_iff_example = create_execution_iff "t2" (some "bob") started

abbrev second_report : QueueMessage
second_report = record { event = artifact_update report_event; task_version = 2; protocol = "1.0" }

abbrev third_report : QueueMessage
third_report = record { event = artifact_update report_event; task_version = 3; protocol = "1.0" }

abbrev last_report : QueueMessage
last_report = record { event = status_update done_event; task_version = 4; protocol = "1.0" }

abbrev job_at_2 : StoredTask
job_at_2 = record { task = job; version = 2; user = "alice" }

-- the message of version 2 is in the stored task, the last one ends the stream
local_events_join_example :
    local_events false true
      (ok job_at_2)
      none
      (map ok (second_report ∷ third_report ∷ last_report ∷ []))
    ≡ gives (task job) ∷ gives third_report.event ∷ gives last_report.event ∷ []
unfolding until_final is_final
local_events_join_example =
    local_events_join job_at_2 1 none (second_report ∷ third_report ∷ last_report ∷ [])
      (omega arith) (omega arith) (refl, (refl, (refl, tt)))

remote_events_cancel_example :
    remote_events false
      (some 3)
      (ok job_at_2)
      (map ok (second_report ∷ third_report ∷ last_report ∷ []))
    ≡ gives last_report.event ∷ []
unfolding until_final is_final
remote_events_cancel_example =
    remote_events_cancel job_at_2 3 1 (second_report ∷ third_report ∷ last_report ∷ [])
      (omega arith) (omega arith) (refl, (refl, (refl, tt)))
