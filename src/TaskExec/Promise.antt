-- ===== src/TaskExec/Promise.antt =====
-- Promises of executions and cancelations, internal/taskexec/promise.go.
use a2a_go.Base.{
  Bool, true, false, Option, none, some, if◌then◌else◌, Fault, Result, ok, err, task_not_cancelable,
}
use a2a_go.Core.{Task, Message, is_canceled}

-- `a2a.SendMessageResult`
pub data SendMessageResult : Type 0 where
  task_result : Task → SendMessageResult
  message_result : Message → SendMessageResult

-- `done` is whether the channel was closed.
pub record Promise : Type 0 where
  pub done : Bool
  pub value : Option SendMessageResult
  pub error : Option Fault

unfoldable pub new_promise : Promise
new_promise = record { done = false; value = none; error = none }

unfoldable set_value : Option SendMessageResult → Promise → Promise
set_value v p = record { done = p.done; value = v; error = p.error }

unfoldable set_error : Fault → Promise → Promise
set_error e p = record { done = p.done; value = p.value; error = some e }

unfoldable pub signal_done : Promise → Promise
signal_done p = record { done = true; value = p.value; error = p.error }

-- what `wait` returns in a context that is not done; nothing while it blocks
unfoldable wait : Promise → Option (Option SendMessageResult × Option Fault)
wait p = if p.done then some (p.value, p.error) else none

-- `convertToCancelationResult`
unfoldable pub convert_to_cancelation_result : Option SendMessageResult → Option Fault → Result Task
convert_to_cancelation_result result (some e) = err e
convert_to_cancelation_result (some (task_result t)) none =
    if is_canceled t.status.state then ok t else err task_not_cancelable
convert_to_cancelation_result (some (message_result m)) none = err task_not_cancelable
convert_to_cancelation_result none none = err task_not_cancelable
