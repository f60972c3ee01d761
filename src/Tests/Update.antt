-- ===== src/Tests/Update.antt =====
-- Runs and instances for the task-update manager.
use a2a_go.Base.{any, true, false, Option, some, [], ◌∷◌, ◌≡◌, refl, arith, eq_iff, Result, ok, err}
use a2a_go.Base.Maps.{lookup, insert}
use a2a_go.Core.{Task, completed, working, status_update, artifact_update}
use a2a_go.Events.Apply.{
  merge_metadata, apply_shallow_update, apply_artifact_update, apply_status_update, validate_update,
  find_artifact, archive_status, status_message_in_history,
}
use a2a_go.Events.Lifecycle.{apply_shallow_update-keeps_identity}
use a2a_go.TaskStore.Validator.{
  validate_task, each, validate_meta, validate_parts, validate_message, validate_artifact,
}
use a2a_go.TaskStore.InMemory.{Tasks, in_memory, prepare, update}
use a2a_go.TaskStore.Runs.{IsWellFormed}
use a2a_go.TaskUpdate.Manager.{
  Materializer, Manager, apply, process, set_task_failed, update_status, update_status_from,
  validate,
}
use a2a_go.TaskUpdate.Absorbing.{terminal_absorbs}
use a2a_go.TaskUpdate.Laws.{KeepsId}
use a2a_go.TaskUpdate.Stored.{Held}
use a2a_go.TaskUpdate.OverMemory.{process-in_memory}
use a2a_go.Tests.Data.{job, info, report_event, cancel_event, copy_all, alice}

-- the materializer of the default configuration: `a2aevent.ApplyShallowUpdate`
unfoldable pub lift_task : Result Task → Result (Option Task)
lift_task (ok t) = ok (some t)
lift_task (err e) = err e

abbrev pub shallow : Materializer
shallow = record {
  apply_update = λ t e. lift_task (apply_shallow_update t e);
  returns_full_snapshot = true;
}

pub shallow-KeepsId : KeepsId shallow
unfolding lift_task
shallow-KeepsId t u e h =
    (apply_shallow_update-keeps_identity t u e (go (apply_shallow_update t e) h)).1
  where
    go : (r : Result Task) → lift_task r ≡ ok (some u) → r ≡ ok u
    go (ok x) k = cc
    go (err f) k = absurd (ground arith)

abbrev pub one_task : Tasks
one_task = ("t1", record { task = job; version = 1; user = "alice"; last_updated = 7 }) ∷ []

pub one_task-IsWellFormed : IsWellFormed one_task
unfolding lookup
one_task-IsWellFormed = record {
  distinct = (refl, tt);
  keyed = λ id a h. ground (arith, eq_iff "t1" id);
}

abbrev pub manager : Manager
manager = record {
  info = info;
  has_init_task = true;
  tracked = some job;
  state = working;
  version = 1;
}

abbrev ended : Manager
ended = record manager { state = completed }

unfoldable pub store_runs : Unit {0}
unfolding any merge_metadata process apply update_status update_status_from validate lift_task
    apply_shallow_update apply_artifact_update apply_status_update validate_update find_artifact
    archive_status status_message_in_history update prepare validate_task validate_message
    validate_parts validate_meta validate_artifact each lookup insert
store_runs = tt

report_saved :
    (process
      (in_memory copy_all alice)
      copy_all
      shallow
      manager
      (artifact_update report_event)
      false
      one_task).0
    ≡ ok 2
unfolding store_runs
report_saved = refl

cancel_saved :
    (update_status (in_memory copy_all alice) copy_all shallow manager cancel_event one_task).0
    ≡ ok 2
unfolding store_runs
cancel_saved = refl

process-in_memory_example :
    Held
      (in_memory copy_all alice)
      copy_all
      shallow
      (process
        (in_memory copy_all alice)
        copy_all
        shallow
        manager
        (artifact_update report_event)
        false
        one_task).1
      (process
        (in_memory copy_all alice)
        copy_all
        shallow
        manager
        (artifact_update report_event)
        false
        one_task).2
      2
process-in_memory_example =
    process-in_memory copy_all (λ t u h. ground arith) alice shallow manager
      (artifact_update report_event) false one_task 2 shallow-KeepsId one_task-IsWellFormed
      (λ t h. ground arith) refl (λ x h. ground arith) report_saved

terminal_absorbs_example :
    ((process
        (in_memory copy_all alice)
        copy_all
        shallow
        ended
        (status_update cancel_event)
        false
        one_task).1
      ≡ ended)
    × ((process
          (in_memory copy_all alice)
          copy_all
          shallow
          ended
          (status_update cancel_event)
          false
          one_task).2
        ≡ one_task)
    × ((set_task_failed (in_memory copy_all alice) copy_all shallow ended 3 one_task).1 ≡ ended)
    × ((set_task_failed (in_memory copy_all alice) copy_all shallow ended 3 one_task).2 ≡ one_task)
terminal_absorbs_example =
    terminal_absorbs (in_memory copy_all alice) copy_all shallow ended (status_update cancel_event)
      false 3 one_task refl
