-- ===== src/Server/Context.antt =====
-- How an execution is set up: `CreateExecutor` and `loadExecutionContext` of a2asrv/agentexec.go.
--
-- Of the call context the model has nothing: its user, parameters and tenant do not reach the task. A nil
-- message in a stored history, on which the code would panic, counts as another message.
use a2a_go.Base.{
  ℕ, String, Bool, false, not, ◌&&◌, Option, none, some, any, if◌then◌else◌, str_eq, Result, ok,
  err, other, invalid_params, unsupported_operation, ◌>>=◌, ◌>>◌,
}
use a2a_go.Core.{Metadata, Task, Message, message, terminal}
use a2a_go.Events.Apply.{apply_shallow_update}
use a2a_go.TaskStore.Api.{StoredTask, Store}
use a2a_go.TaskUpdate.Manager.{Materializer, Manager, new_manager}
use a2a_go.TaskExec.Subscription.{is_not_found}
use a2a_go.Push.Store.{PushConfig}
use a2a_go.Proto.Sending.{SendMessageConfig, SendMessageRequest}

-- `executionContext` with its `ExecutorContext`: what the agent is given, and the task that the
-- task-update manager starts from
pub record ExecutionContext : Type 0 where
  pub message : Message
  pub stored_task : Option Task
  pub task_id : String
  pub context_id : String
  pub metadata : Metadata
  pub tenant : String
  pub task : Option StoredTask

-- What the factory is made with, as far as it is used here: whether executions may be retried, a new
-- context ID, how a push configuration is saved if push is configured, and which answers of the store
-- hold a nil task.
pub record Factory : Type 0 where
  pub task_retry_supported : Bool
  pub new_context_id : String
  pub save_push : Option (PushConfig → Result (Unit {0}))
  pub is_nil_task : StoredTask → Bool

-- `createNewExecutionContext`
unfoldable pub create_new_execution_context :
    Factory → String → SendMessageRequest → Message → ExecutionContext
create_new_execution_context f tid req m = record {
  message = m;
  stored_task = none;
  task_id = tid;
  context_id = if str_eq m.context_id "" then f.new_context_id else m.context_id;
  metadata = req.metadata;
  tenant = "";
  task = none;
}

-- the context of a task that is stored
abbrev pub resumed : SendMessageRequest → Message → Task → Task → ℕ → ExecutionContext
resumed req m stored tracked version = record {
  message = m;
  stored_task = some stored;
  task_id = stored.id;
  context_id = stored.context_id;
  metadata = req.metadata;
  tenant = req.tenant;
  task = some (record { task = tracked; version = version; user = "" });
}

-- whether the history has a message with this message's ID
abbrev pub in_history : Message → Task → Bool
in_history m t =
    any (λ (x : Option Message). elim x [ none ↦ false | some y ↦ str_eq y.id m.id ]) t.history

module _ (store : Store) (mat : Materializer) where
  open store use {World}

  written : Task → Result ℕ × World → Result (Task × ℕ) × World
  written t (err f, w) = (err f, w)
  written t (ok v, w) = (ok (t, v), w)

  -- `updateHistory`
  unfoldable pub update_history : Task → ℕ → Message → World → Result (Task × ℕ) × World
  unfolding written
  update_history t version m w = elim (mat.apply_update t (message m)) [
    | err f ↦ (err f, w)
    | ok none ↦ (err (other "bug: task materializer returned nil task for %T"), w)
    | ok (some u) ↦ written u (
        store.update (record { task = u; event = message m; prev_task = t; prev_version = version })
          w)
  ]

  module _ (f : Factory) (tid : String) (req : SendMessageRequest) (m : Message) where
    -- after the history was updated: the agent gets the whole task
    recorded : Task → Result (Task × ℕ) × World → Result ExecutionContext × World
    recorded t (err e, w) = (err e, w)
    recorded t (ok (u, v), w) =
        if mat.returns_full_snapshot
        then (ok (resumed req m u u v), w)
        else elim (apply_shallow_update t (message m)) [
          | err e ↦ (err e, w)
          | ok whole ↦ (ok (resumed req m whole u v), w)
        ]

    -- a stored task is continued
    unfoldable pub resume : StoredTask → World → Result ExecutionContext × World
    unfolding recorded
    resume st w =
        if not (str_eq m.task_id "") && not (str_eq m.task_id tid)
        then (err (other "bug: message task id different from executor task id"), w)
        else if f.is_nil_task st
        then (err (other "bug: nil task returned instead of ErrTaskNotFound"), w)
        else if not (str_eq m.context_id "") && not (str_eq m.context_id st.task.context_id)
        then (err invalid_params, w)
        else if terminal st.task.status.state
        then (err unsupported_operation, w)
        else if in_history m st.task
        then (ok (resumed req m st.task st.task st.version), w)
        else recorded st.task (update_history st.task st.version m w)

    loaded : Result StoredTask × World → Result ExecutionContext × World
    loaded (err e, w) =
        if str_eq m.task_id "" && is_not_found e
        then (ok (create_new_execution_context f tid req m), w)
        else (err e, w)
    loaded (ok st, w) = resume st w

    -- `loadExecutionContext`
    unfoldable pub load_execution_context : World → Result ExecutionContext × World
    unfolding loaded
    load_execution_context w =
        if str_eq m.task_id "" && not f.task_retry_supported
        then (ok (create_new_execution_context f tid req m), w)
        else loaded (store.get tid w)

    -- the push configuration of the request
    unfoldable pub save_config : Option SendMessageConfig → Result (Unit {0})
    save_config none = ok tt
    save_config (some c) = elim c.push_config [
      | none ↦ ok tt
      | some p ↦ elim f.save_push [
        | none ↦ err (other "push notification not supported")
        | some save ↦ save p
      ]
    ]

    managed :
        (Task → Result Task)
        → Result ExecutionContext × World
        → Result (ExecutionContext × Manager) × World
    unfolding save_config
    managed deep_copy (err e, w) = (err e, w)
    managed deep_copy (ok x, w) = (
      save_config req.config
          >> (new_manager deep_copy (record { task_id = x.task_id; context_id = x.context_id })
                x.task
              >>= (λ k. ok (x, k))),
      w,
    )

    -- `CreateExecutor`: the context for the agent, and the manager of the processor
    unfoldable pub create_executor :
        (Task → Result Task) → World → Result (ExecutionContext × Manager) × World
    unfolding managed
    create_executor deep_copy w = managed deep_copy (load_execution_context w)
