-- ===== src/Tests/Server.antt =====
-- Runs and instances for the processor and the consumer's loop.
use a2a_go.Base.{Result, false, true, none, some, List, [], ◌∷◌, ◌≡◌, refl, arith, ok}
use a2a_go.Core.{Message, role_user, Task, status_update, artifact_update}
use a2a_go.TaskStore.InMemory.{Tasks, in_memory, get}
use a2a_go.TaskUpdate.OverMemory.{in_memory-IsStore, well_formed_good}
use a2a_go.TaskUpdate.Laws.{IsStore}
use a2a_go.TaskUpdate.Manager.{in_memory_snapshot}
use a2a_go.Events.Apply.{apply_history_update, is_final}
use a2a_go.TaskExec.Promise.{task_result}
use a2a_go.Server.Processor.{
  Setup, process_event, process_error, load_result, fail_task, send_push_notifications,
}
use a2a_go.Server.Loop.{Turn, Consumed, process_events}
use a2a_go.Server.Runs.{Stored}
use a2a_go.Server.Context.{
  ExecutionContext, Factory, resumed, create_executor, load_execution_context, resume,
  update_history, save_config,
}
use a2a_go.Server.Started.{processor_of, create_executor-process_events}
use a2a_go.TaskUpdate.Manager.{Manager, new_manager}
use a2a_go.Proto.Sending.{SendMessageRequest}
use a2a_go.Tests.Data.{job, asked, said, report, report_event, cancel_event, copy_all, alice}
use a2a_go.Tests.Update.{
  shallow, shallow-KeepsId, one_task, one_task-IsWellFormed, manager, store_runs,
}

abbrev setup : Setup (in_memory copy_all alice)
setup = record {
  deep_copy = copy_all;
  materializer = shallow;
  task_id = "t1";
  now = 9;
  push = none;
}

-- a report, and the end by cancelation
abbrev turns : List Turn
turns =
    record { read = ok (artifact_update report_event); is_init = false; broadcast = ok tt }
    ∷ record { read = ok (status_update cancel_event); is_init = false; broadcast = ok tt }
    ∷ []

unfoldable server_runs : Unit {0}
unfolding store_runs process_events process_event load_result fail_task send_push_notifications
    process_error
server_runs = tt

copy_all-faithful : (t u : Task) → copy_all t ≡ ok u → u ≡ t
copy_all-faithful t u h = ground arith

abbrev laws : IsStore (in_memory copy_all alice)
laws = in_memory-IsStore copy_all copy_all-faithful alice

abbrev factory : Factory
factory = record {
  task_retry_supported = false;
  new_context_id = "ctx9";
  save_push = none;
  is_nil_task = λ _. false;
}

abbrev more : Message
more = record (said "m9" "go on") { role = role_user }

abbrev request : SendMessageRequest
request = record { tenant = ""; config = none; message = some more; metadata = none }

-- the message is put into the history, and the manager starts from what was then stored
abbrev begun : Result (ExecutionContext × Manager) × Tasks
begun =
    create_executor (in_memory copy_all alice) shallow factory "t1" request more copy_all one_task

abbrev asked_job : Task
asked_job = record job { history = some asked ∷ some (said "m1" "on it") ∷ some more ∷ [] }

started :
    begun.0
    ≡ ok (
      resumed request more asked_job asked_job 2,
      record manager { tracked = some asked_job; version = 2 },
    )
unfolding server_runs create_executor load_execution_context resume update_history new_manager
    save_config get apply_history_update
started = refl

abbrev ended_job : Task
ended_job = record asked_job { artifacts = report ∷ []; status = cancel_event.status }

abbrev begun_run : Consumed Tasks
begun_run =
    process_events (in_memory copy_all alice)
      (processor_of (in_memory copy_all alice) setup (resumed request more asked_job asked_job 2))
      true turns (record manager { tracked = some asked_job; version = 2 }) begun.1

begun_run_stops : begun_run.returned ≡ some (some (task_result ended_job), none)
unfolding server_runs is_final in_memory_snapshot create_executor load_execution_context resume
    update_history new_manager save_config get apply_history_update
begun_run_stops = refl

create_executor-process_events_example :
    Stored (in_memory copy_all alice) setup begun_run.world ended_job
create_executor-process_events_example =
    create_executor-process_events (in_memory copy_all alice) setup laws shallow-KeepsId
      copy_all-faithful factory request more one_task (resumed request more asked_job asked_job 2)
      (record manager { tracked = some asked_job; version = 2 }) true turns ended_job none
      (well_formed_good copy_all copy_all-faithful alice one_task one_task-IsWellFormed) started
      begun_run_stops
