-- ===== src/TaskUpdate/Manager.antt =====
-- `Manager` of internal/taskupdate/manager.go, over a store and a materializer given by their
-- interfaces.
--
-- A method takes the manager and the store's world, and returns its result with both after it. The
-- manager compares the first task's pointer with an event's task; the event carries the answer.
use a2a_go.Base.{
  ℕ, zero, suc, String, Bool, true, false, not, ◌&&◌, ◌||◌, Option, none, some, if◌then◌else◌,
  str_eq, is_some, Fault, Result, ok, err, other, invalid_agent_response, concurrent_modification,
}
use a2a_go.Core.{
  TaskState, unspecified, failed, terminal, is_canceled, Task, TaskInfo, TaskStatusUpdateEvent,
  Event, message, task, status_update, artifact_update, task_info, new_status_update_event,
}
use a2a_go.TaskStore.Api.{StoredTask, Store, version_missing}
use a2a_go.Events.Apply.{is_empty}

-- `taskstore.UpdateMaterializer`; `none` is a nil task
pub record Materializer : Type 0 where
  pub apply_update : Task → Event → Result (Option Task)
  pub returns_full_snapshot : Bool

pub record Manager : Type 0 where
  pub info : TaskInfo
  pub has_init_task : Bool
  pub tracked : Option Task
  pub state : TaskState
  pub version : ℕ

-- `track`
abbrev pub track : Manager → Task → ℕ → TaskState → Manager
track m t v state = record m { tracked = some t; state = state; version = v }

-- `NewManager`, with a materializer that is set
unfoldable pub new_manager : (Task → Result Task) → TaskInfo → Option StoredTask → Result Manager
new_manager deep_copy info none = ok (record {
  info = info;
  has_init_task = false;
  tracked = none;
  state = unspecified;
  version = version_missing;
})
new_manager deep_copy info (some stored) = elim (deep_copy stored.task) [
  | err e ↦ err e
  | ok copy ↦ ok (record {
    info = info;
    has_init_task = true;
    tracked = some copy;
    state = copy.status.state;
    version = stored.version;
  })
]

-- `validate`: its error, if it has one
unfoldable pub validate : Manager → TaskInfo → Option String
validate m info =
    if not (str_eq m.info.task_id info.task_id)
    then some "task IDs don't match"
    else if not (str_eq m.info.context_id info.context_id)
    then some "context IDs don't match"
    else none

-- the state that `apply` tracks after an event
abbrev pub state_after : TaskState → Event → TaskState
state_after s (task v) = v.status.state
state_after s (status_update v) = v.status.state
state_after s _ = s

-- `InMemorySnapshot`
unfoldable pub in_memory_snapshot : Materializer → Manager → Option (Task × ℕ)
in_memory_snapshot mat m = elim m.tracked [
  | none ↦ none
  | some t ↦ if mat.returns_full_snapshot then some (t, m.version) else none
]

-- `errors.Is(err, taskstore.ErrConcurrentModification)`
abbrev pub is_concurrent_modification : Fault → Bool
is_concurrent_modification concurrent_modification = true
is_concurrent_modification _ = false

module _ (store : Store) (deep_copy : Task → Result Task) (mat : Materializer) where
  open store use {World}

  -- what a method returns: its result, the manager and the world after it
  abbrev pub Outcome : Type 0
  Outcome = Result ℕ × Manager × World

  saved : Manager → Event → Task → Result ℕ × World → Outcome
  saved m e t (err f, w) = (err f, m, w)
  saved m e t (ok v, w) = (ok v, track m t v (state_after m.state e), w)

  materialized : Manager → Event → Task → World → Result (Option Task) → Outcome
  unfolding saved
  materialized m e prev w (err f) = (err f, m, w)
  materialized m e prev w (ok none) = (err (other "bug: task materializer returned nil task"), m, w)
  materialized m e prev w (ok (some t)) =
      saved m e t (
        store.update (record { task = t; event = e; prev_task = prev; prev_version = m.version }) w)

  apply_tracked : Manager → Event → World → Option Task → Outcome
  unfolding materialized
  apply_tracked m e w none = (err invalid_agent_response, m, w)
  apply_tracked m e w (some prev) = materialized m e prev w (mat.apply_update prev e)

  -- `apply`
  unfoldable pub apply : Manager → Event → World → Outcome
  unfolding apply_tracked
  apply m e w = apply_tracked m e w m.tracked

  created : Manager → Task → Result ℕ × World → Outcome
  created m t (err f, w) = (err f, m, w)
  created m t (ok v, w) = (ok v, track m t v t.status.state, w)

  -- `create`
  unfoldable pub create : Manager → Task → World → Outcome
  unfolding created
  create m t w = elim (deep_copy t) [
    | err f ↦ (err f, m, w)
    | ok copy ↦ created m copy (store.create copy w)
  ]

  -- one round of the loop of `updateStatus` after a failed `apply`: done, or the manager and the
  -- world for the next round
  pub data Round : Type 0 where
    done : Outcome → Round
    again : Manager → World → Round

  reloaded : Manager → Result StoredTask × World → Round
  reloaded m (err f, w) = done (err f, m, w)
  reloaded m (ok stored, w) =
      let state = stored.task.status.state in
      let m' = track m stored.task stored.version state in
      if terminal state && not (is_canceled state)
      then done (err concurrent_modification, m, w)
      else if is_canceled state
      then done (ok stored.version, m', w)
      else again m' w

  round : TaskStatusUpdateEvent → Outcome → Round
  unfolding reloaded
  round e (ok v, m, w) = done (ok v, m, w)
  round e (err f, m, w) =
      if not (is_concurrent_modification f) || not (is_canceled e.status.state)
      then done (err f, m, w)
      else reloaded m (store.get e.task_id w)

  -- the loop of `updateStatus`, with the attempts that are left
  unfoldable pub update_status_from : ℕ → Manager → TaskStatusUpdateEvent → World → Outcome
  unfolding round
  update_status_from zero m e w = (err concurrent_modification, m, w)
  update_status_from (suc attempts) m e w = elim (round e (apply m (status_update e) w)) [
    | done r ↦ r
    | again m' w' ↦ update_status_from attempts m' e w'
  ]

  abbrev max_cancelation_attempts : ℕ
  max_cancelation_attempts = 10

  -- `updateStatus`
  unfoldable pub update_status : Manager → TaskStatusUpdateEvent → World → Outcome
  update_status = update_status_from max_cancelation_attempts

  checked : Manager → World → Option String → Outcome → Outcome
  checked m w (some text) k = (err (other text), m, w)
  checked m w none k = k

  -- the events that are no messages, in a state that is not terminal
  process_update : Manager → Event → World → Outcome
  unfolding checked
  process_update m (message _) w = (ok version_missing, m, w)
  process_update m (task v) w =
      let next = (if is_some m.tracked then apply m (task v) w else create m v w) in
      checked m w (validate m (task_info (task v))) next
  process_update m (artifact_update v) w =
      let next =
        (if is_empty v.artifact.parts
          then (err invalid_agent_response, m, w)
          else apply m (artifact_update v) w) in
      checked m w (validate m (task_info (artifact_update v))) next
  process_update m (status_update v) w =
      let next = update_status m v w in checked m w (validate m (task_info (status_update v))) next

  -- an event in a terminal state; `is_init` says that it is the very task that the manager was
  -- made from
  process_terminal : Manager → Event → Bool → World → Outcome
  process_terminal m (task _) is_init w =
      if m.has_init_task && is_init
      then (ok m.version, m, w)
      else (err invalid_agent_response, m, w)
  process_terminal m _ is_init w = (err invalid_agent_response, m, w)

  -- `Process`
  unfoldable pub process : Manager → Event → Bool → World → Outcome
  unfolding process_update process_terminal
  process m (message _) is_init w =
      if is_some m.tracked then (err invalid_agent_response, m, w) else (ok version_missing, m, w)
  process m e is_init w =
      if terminal m.state then process_terminal m e is_init w else process_update m e w

  -- `SetTaskFailed`; `now` is the clock of the event that it makes
  unfoldable pub set_task_failed : Manager → ℕ → World → Outcome
  set_task_failed m now w =
      if not (is_some m.tracked)
      then (err (other "execution failed before a task was created"), m, w)
      else if terminal m.state
      then (err (other "task can not be moved to failed state"), m, w)
      else apply m (status_update (new_status_update_event m.info failed none now)) w
