-- ===== src/Server/Processor.antt =====
-- `processor` of a2asrv/agentexec.go: what an event of the agent makes of the task, the result of
-- the execution and the subscribers' event.
--
-- Of an error that wraps two, as `fmt.Errorf("%w: %w", ...)` does, the first one is kept.
use a2a_go.Base.{
  ℕ, String, Bool, not, Option, none, some, List, [], ◌∷◌, if◌then◌else◌, Fault, Result, ok, err,
  ◌>>=◌, ◌>>◌,
}
use a2a_go.Core.{Task, Message, Event, message, task, terminal}
use a2a_go.Events.Apply.{is_final}
use a2a_go.TaskStore.Api.{StoredTask, Store, version_missing}
use a2a_go.TaskUpdate.Manager.{
  Materializer, Manager, process, set_task_failed, in_memory_snapshot, is_concurrent_modification,
}
use a2a_go.TaskExec.Promise.{SendMessageResult, task_result, message_result}
use a2a_go.Push.Store.{PushConfig}

-- `taskexec.ProcessorResult`
pub record ProcessorResult : Type 0 where
  pub execution_result : Option SendMessageResult
  pub execution_failure_cause : Option Fault
  pub task_version : ℕ
  pub event_override : Option Event

abbrev pub going_on : ℕ → ProcessorResult
going_on v = record {
  execution_result = none;
  execution_failure_cause = none;
  task_version = v;
  event_override = none;
}

-- What the processor is made with: its store, `utils.DeepCopy`, the materializer, the task's ID, the
-- clock, and the push configurations and their sender if both are configured.
pub record Setup (store : Store) : Type 0 where
  pub deep_copy : Task → Result Task
  pub materializer : Materializer
  pub task_id : String
  pub now : ℕ
  pub push : Option (Result (List PushConfig) × (PushConfig → Event → Result (Unit {0})))

send_all : (PushConfig → Event → Result (Unit {0})) → Event → List PushConfig → Result (Unit {0})
send_all send e [] = ok tt
send_all send e (c ∷ configs) = let rest = send_all send e configs in send c e >> rest

push_to :
    Option (Result (List PushConfig) × (PushConfig → Event → Result (Unit {0})))
    → Event
    → Result (Unit {0})
unfolding send_all
push_to none e = ok tt
push_to (some (configs, send)) e = do l ← configs; send_all send e l

module _ (store : Store) (s : Setup store) where
  open store use {World}

  -- `sendPushNotifications`
  unfoldable pub send_push_notifications : Event → Result (Unit {0})
  unfolding push_to
  send_push_notifications e = push_to s.push e

  abbrev pub Processed : Type 0
  Processed = Result ProcessorResult × Manager × World

  abbrev pub loaded_of : Task → ℕ → ProcessorResult
  loaded_of t v = record (going_on v) { execution_result = some (task_result t) }

  read_back : Manager → Result StoredTask × World → Processed
  read_back m (err e, w) = (err e, m, w)
  read_back m (ok st, w) = (ok (loaded_of st.task st.version), m, w)

  load_from : Manager → Option (Task × ℕ) → World → Processed
  unfolding read_back
  load_from m (some (t, v)) w = (ok (loaded_of t v), m, w)
  load_from m none w = read_back m (store.get s.task_id w)

  -- `loadResult`
  unfoldable pub load_result : Manager → World → Processed
  unfolding load_from
  load_result m w = load_from m (in_memory_snapshot s.materializer m) w

  override : Fault → Processed → Processed
  override cause (err e, m, w) = (err e, m, w)
  override cause (ok r, m, w) = (
    ok (record r {
      event_override = elim r.execution_result [
        | none ↦ none
        | some (task_result t) ↦ some (task t)
        | some (message_result x) ↦ some (message x)
      ];
      execution_failure_cause = some cause;
    }),
    m,
    w,
  )

  after_failing : Fault → Result ℕ × Manager × World → Processed
  unfolding override
  after_failing cause (err e, m, w) = (err e, m, w)
  after_failing cause (ok v, m, w) = override cause (load_result m w)

  -- `setTaskFailed`
  unfoldable pub fail_task : Fault → Manager → World → Processed
  unfolding after_failing
  fail_task cause m w =
      after_failing cause (set_task_failed store s.deep_copy s.materializer m s.now w)

  -- the reload after a concurrent modification
  resolved : Fault → Manager → Result StoredTask × World → Processed
  resolved cause m (err e, w) = (err e, m, w)
  resolved cause m (ok st, w) = if not (terminal st.task.status.state) then (err cause, m, w) else (
    ok (record {
      execution_result = some (task_result st.task);
      execution_failure_cause = some cause;
      task_version = st.version;
      event_override = some (task st.task);
    }),
    m,
    w,
  )

  -- a message's result, after the push notifications
  answered : Message → Manager → World → Result (Unit {0}) → Processed
  answered x m w (err e) = (err e, m, w)
  answered x m w (ok _) =
      (ok (record (going_on version_missing) { execution_result = some (message_result x) }), m, w)

  -- another event's, after the push notifications
  notified : Event → ℕ → Manager → World → Result (Unit {0}) → Processed
  notified e v m w (err f) = fail_task f m w
  notified e v m w (ok _) = if not (is_final e) then (ok (going_on v), m, w) else load_result m w

  handled : Event → Result ℕ × Manager × World → Processed
  unfolding resolved answered notified
  handled e (err f, m, w) =
      if is_concurrent_modification f then resolved f m (store.get s.task_id w) else fail_task f m w
  handled (message x) (ok v, m, w) = answered x m w (send_push_notifications (message x))
  handled e (ok v, m, w) = notified e v m w (send_push_notifications e)

  -- `Process`; `is_init` says that the event is the very task that the manager was made from
  unfoldable pub process_event : Event → Bool → Manager → World → Processed
  unfolding handled
  process_event e is_init m w = handled e (process store s.deep_copy s.materializer m e is_init w)

  -- what `ProcessError` returns: the result of the execution or an error
  recovered : Processed → Result (Option SendMessageResult) × Manager × World
  recovered (err e, m, w) = (err e, m, w)
  recovered (ok r, m, w) = (ok r.execution_result, m, w)

  failed_first : Result ℕ × Manager × World → Result (Option SendMessageResult) × Manager × World
  unfolding recovered
  failed_first (err e, m, w) = (err e, m, w)
  failed_first (ok v, m, w) = recovered (load_result m w)

  -- `ProcessError`
  unfoldable pub process_error :
      Manager → World → Result (Option SendMessageResult) × Manager × World
  unfolding failed_first
  process_error m w = failed_first (set_task_failed store s.deep_copy s.materializer m s.now w)
