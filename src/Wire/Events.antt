-- ===== src/Wire/Events.antt =====
-- `StreamResponse` and its wrapper `event`, a2a/core.go: which field of the JSON object an event
-- stands in. encoding/json prints and reads the wrapper field by field; a nil pointer is left out.
use a2a_go.Base.{
  ℕ, ◌+◌, Option, none, some, if◌then◌else◌, ◌==◌, ◌≡◌, ◌↔◌, arith, Result, ok, err, other,
}
use a2a_go.Core.{
  Message, Task, TaskStatusUpdateEvent, TaskArtifactUpdateEvent, Event, message, task,
  status_update, artifact_update,
}

-- `event`
pub record EventWrapper : Type 0 where
  pub message_field : Option Message
  pub task_field : Option Task
  pub status_update_field : Option TaskStatusUpdateEvent
  pub artifact_update_field : Option TaskArtifactUpdateEvent

abbrev empty_wrapper : EventWrapper
empty_wrapper = record {
  message_field = none;
  task_field = none;
  status_update_field = none;
  artifact_update_field = none;
}

-- `StreamResponse.MarshalJSON`; a response without an event is refused
unfoldable pub marshal_event : Option Event → Result EventWrapper
marshal_event none = err (other "unknown event type")
marshal_event (some (message m)) = ok (record empty_wrapper { message_field = some m })
marshal_event (some (task t)) = ok (record empty_wrapper { task_field = some t })
marshal_event (some (status_update e)) = ok (record empty_wrapper { status_update_field = some e })
marshal_event (some (artifact_update e)) =
    ok (record empty_wrapper { artifact_update_field = some e })

-- one of the tests for a field: the event so far and the number of fields found
abbrev choose {ℓ} : {A : Type ℓ} → (A → Event) → Option A → Option Event × ℕ → Option Event × ℕ
choose make none found = found
choose make (some a) (_, n) = (some (make a), n + 1)

counted : Option Event × ℕ → Result Event
counted (none, n) = err (other "unknown event type")
counted (some e, n) = if n == 1 then ok e else err (other "expected exactly one event type")

-- `StreamResponse.UnmarshalJSON`
unfoldable pub unmarshal_event : EventWrapper → Result Event
unfolding counted
unmarshal_event w = counted (
    choose artifact_update w.artifact_update_field (
      choose status_update w.status_update_field
        (choose task w.task_field (choose message w.message_field (none, 0)))))

-- A wrapper is read as an event exactly if it is what that event is written as: each event is read
-- back, and no wrapper with no field or with more than one is read.
pub unmarshal_event_iff :
    (w : EventWrapper) (e : Event) → (unmarshal_event w ≡ ok e) ↔ (marshal_event (some e) ≡ ok w)
unfolding unmarshal_event marshal_event
unmarshal_event_iff w (message m) = (λ h. ground arith, λ h. ground arith)
unmarshal_event_iff w (task t) = (λ h. ground arith, λ h. ground arith)
unmarshal_event_iff w (status_update s) = (λ h. ground arith, λ h. ground arith)
unmarshal_event_iff w (artifact_update a) = (λ h. ground arith, λ h. ground arith)
