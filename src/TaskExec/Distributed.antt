-- ===== src/TaskExec/Distributed.antt =====
-- The manager that hands its work to a queue, internal/taskexec/distributed_manager.go.
--
-- What the store, the queue manager, the codec and the work queue answer is given. A call returns its
-- result and its trace: the readers that it opened and closed, and the payloads that it wrote, in
-- order. A reader is named by its place among those that the call opens.
use a2a_go.Base.{
  ℕ, String, Bool, true, false, not, ◌&&◌, Option, none, some, List, [], ◌∷◌, ◌++◌, if◌then◌else◌,
  str_eq, Fault, Result, ok, err, other, invalid_params, unsupported_operation, task_not_cancelable,
  lease_already_taken, task_not_found,
}
use a2a_go.Core.{Task, Message, Event, task, terminal, is_canceled}
use a2a_go.Events.Apply.{is_final}
use a2a_go.TaskStore.Api.{StoredTask}
use a2a_go.TaskExec.Promise.{task_result, convert_to_cancelation_result}
use a2a_go.TaskExec.Subscription.{QueueMessage, Yield, remote_events}
use a2a_go.WorkQueue.Lease.{Payload}
use a2a_go.Proto.Sending.{SendMessageRequest}

pub data Action : Type 0 where
  opens : ℕ → String → Action
  closes : ℕ → Action
  writes : Payload → Action

-- what the parts around answer to one `Execute`; `stored` holds none when the task in it is nil
pub record ExecuteAnswers : Type 0 where
  pub new_task_id : String
  pub stored : Result (Option StoredTask)
  pub encoded : Result (Unit {0})
  pub reader : Result (Unit {0})
  pub written : Result String
  pub second_reader : Result (Unit {0})

-- the remote subscription that `Execute` returns: its reader and its task ID
abbrev pub Executed : Type 0
Executed = Result (ℕ × String) × List Action

abbrev pub execute_payload : String → Payload
execute_payload id = record { type = "execute"; task_id = id }

abbrev pub cancel_payload : String → Payload
cancel_payload id = record { type = "cancel"; task_id = id }

overridden : Message → ExecuteAnswers → String → List Action → Executed
overridden m a id done =
    if not (str_eq m.task_id "")
    then (err (other "bug: work queue task id override only allowed for new tasks"), done)
    else elim a.second_reader [
      | err f ↦ (err f, done)
      | ok _ ↦ (ok (1, id), done ++ (opens 1 id ∷ []))
    ]

-- from the answer of the work queue on
unfoldable pub after_write :
    Message → ExecuteAnswers → String → Result String → List Action → Executed
unfolding overridden
after_write m a requested (err f) done = (err f, done ++ (closes 0 ∷ []))
after_write m a requested (ok id) done =
    if not (str_eq id requested)
    then overridden m a id (done ++ (closes 0 ∷ []))
    else (ok (0, id), done)

subscribed : Message → ExecuteAnswers → String → Executed
unfolding after_write
subscribed m a requested = elim a.encoded [
  | err f ↦ (err f, [])
  | ok _ ↦ elim a.reader [
    | err f ↦ (err f, [])
    | ok _ ↦
        after_write m a requested a.written
          (opens 0 requested ∷ writes (execute_payload requested) ∷ [])
  ]
]

continued : Message → ExecuteAnswers → Executed
unfolding subscribed
continued m a = elim a.stored [
  | err f ↦ (err f, [])
  | ok none ↦ (err task_not_found, [])
  | ok (some st) ↦
      if not (str_eq m.context_id "") && not (str_eq m.context_id st.task.context_id)
      then (err invalid_params, [])
      else if terminal st.task.status.state
      then (err unsupported_operation, [])
      else subscribed m a m.task_id
]

addressed : ExecuteAnswers → Message → Executed
unfolding continued subscribed
addressed a m = if str_eq m.task_id "" then subscribed m a a.new_task_id else continued m a

-- `Execute`
unfoldable pub execute : Option SendMessageRequest → ExecuteAnswers → Executed
unfolding addressed
execute none a = (err invalid_params, [])
execute (some req) a = elim req.message [ none ↦ (err invalid_params, []) | some m ↦ addressed a m ]

-- what the parts around answer to one `Cancel`; `snapshot` and `reads` are for its subscription
pub record CancelAnswers : Type 0 where
  pub stored : Result StoredTask
  pub reader : Result (Unit {0})
  pub encoded : Result (Unit {0})
  pub written : Result String
  pub snapshot : Result StoredTask
  pub reads : List (Result QueueMessage)
  pub stored_after : Result StoredTask

-- what ends the loop over the subscription's events: a task, or not, then perhaps an error
pub data StreamEnd : Type 0 where
  waits : StreamEnd
  ends_with : Task → StreamEnd
  breaks : Option Fault → StreamEnd

at_final : Event → StreamEnd
at_final (task t) = ends_with t
at_final e = breaks none

-- the loop; the events are over while the reader waits
unfoldable pub follow : List Yield → StreamEnd
unfolding at_final
follow [] = waits
follow ((e, some f) ∷ ys) = breaks (some f)
follow ((none, none) ∷ ys) = follow ys
follow ((some e, none) ∷ ys) = let rest = follow ys in if is_final e then at_final e else rest

-- what `Cancel` returns; nothing while it waits
abbrev pub Canceled : Type 0
Canceled = Option (Result Task) × List Action

reload : CancelAnswers → List Action → Canceled
reload a done = elim a.stored_after [
  | err f ↦ (some (err f), done)
  | ok st ↦ (some (convert_to_cancelation_result (some (task_result st.task)) none), done)
]

-- from the end of the subscription on
unfoldable pub followed : CancelAnswers → List Action → StreamEnd → Canceled
unfolding reload
followed a done waits = (none, done)
followed a done (ends_with t) =
    (some (convert_to_cancelation_result (some (task_result t)) none), done ++ (closes 0 ∷ []))
followed a done (breaks f) = reload a (done ++ (closes 0 ∷ []))

-- `errors.Is(err, workqueue.ErrLeaseAlreadyTaken)`
abbrev pub is_lease_taken : Fault → Bool
is_lease_taken lease_already_taken = true
is_lease_taken _ = false

observed : CancelAnswers → StoredTask → List Action → Canceled
unfolding followed
observed a st done =
    followed a done (follow (remote_events false (some st.version) a.snapshot a.reads))

-- after the payload was written
canceling : String → CancelAnswers → StoredTask → Result String → List Action → Canceled
unfolding observed
canceling id a st (err f) done =
    if is_lease_taken f then observed a st done else (some (err f), done)
canceling id a st (ok used) done =
    if not (str_eq used id)
    then (
      some (err (other "bug: work-queue task id override is only allowed for executions")),
      done,
    )
    else observed a st done

cancelable : String → CancelAnswers → StoredTask → Canceled
unfolding canceling
cancelable id a st = elim a.reader [
  | err f ↦ (some (err f), [])
  | ok _ ↦ elim a.encoded [
    | err f ↦ (some (err f), opens 0 id ∷ closes 0 ∷ [])
    | ok _ ↦ canceling id a st a.written (opens 0 id ∷ writes (cancel_payload id) ∷ [])
  ]
]

-- `Cancel` of the task with this ID
unfoldable pub cancel : String → CancelAnswers → Canceled
unfolding cancelable
cancel id a = elim a.stored [
  | err f ↦ (some (err f), [])
  | ok st ↦
      if is_canceled st.task.status.state
      then (some (ok st.task), [])
      else if terminal st.task.status.state
      then (some (err task_not_cancelable), [])
      else cancelable id a st
]
