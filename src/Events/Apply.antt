-- ===== src/Events/Apply.antt =====
-- The operations of a2aevent/event.go.
use a2a_go.Base.{
  String, Bool, true, false, not, ◌&&◌, Option, none, some, List, [], ◌∷◌, ◌++◌, if◌then◌else◌,
  str_eq, any, Result, ok, err, other, ◌>>=◌,
}
use a2a_go.Base.Maps.{copy_into}
use a2a_go.Core.{
  TaskState, input_required, terminal, is_user, Metadata, Message, Artifact, Task,
  TaskArtifactUpdateEvent, TaskStatusUpdateEvent, Event, message, task, status_update,
  artifact_update, task_info,
}

-- `slices.IndexFunc` and the element there: the first artifact with the ID
unfoldable pub find_artifact : String → List Artifact → Option Artifact
find_artifact id [] = none
find_artifact id (a ∷ as') = if str_eq a.id id then some a else find_artifact id as'

-- `task.Artifacts[updateIdx] = artifact`, at the first artifact with the ID
unfoldable pub replace_artifact : String → Artifact → List Artifact → List Artifact
replace_artifact id b [] = []
replace_artifact id b (a ∷ as') = if str_eq a.id id then b ∷ as' else a ∷ replace_artifact id b as'

-- a metadata map with the entries of another laid over it, if there is another
unfoldable pub merge_metadata : Metadata → Metadata → Metadata
merge_metadata old none = old
merge_metadata none (some new) = some (copy_into [] new)
merge_metadata (some old) (some new) = some (copy_into old new)

unfoldable pub append_artifact : Artifact → Artifact → Artifact
append_artifact old new = record old {
  metadata = merge_metadata old.metadata new.metadata;
  parts = old.parts ++ new.parts;
}

abbrev pub is_empty {ℓ} : {A : Type ℓ} → List A → Bool
is_empty [] = true
is_empty (_ ∷ _) = false

store_artifact : Task → Artifact → Bool → Option Artifact → Result Task
store_artifact src artifact true none = err (other "no artifact found for update")
store_artifact src artifact false none =
    ok (record src { artifacts = src.artifacts ++ artifact ∷ [] })
store_artifact src artifact false (some _) =
    ok (record src { artifacts = replace_artifact artifact.id artifact src.artifacts })
store_artifact src artifact true (some old) = ok (record src {
  artifacts = replace_artifact artifact.id (append_artifact old artifact) src.artifacts;
})

-- `applyShallowArtifactUpdate`
unfoldable pub apply_artifact_update : Task → TaskArtifactUpdateEvent → Result Task
unfolding store_artifact
apply_artifact_update src e =
    if is_empty e.artifact.parts
    then err (other "artifact cannot be empty")
    else store_artifact src e.artifact e.append (find_artifact e.artifact.id src.artifacts)

abbrev pub has_id : String → Option Message → Bool
has_id id none = false
has_id id (some m) = str_eq m.id id

-- `statusMessageInHistory`, for the task's status message
unfoldable pub status_message_in_history : List (Option Message) → Message → Bool
status_message_in_history history m = if str_eq m.id "" then false else any (has_id m.id) history

-- the history after the task's status message is moved into it
unfoldable pub archive_status : List (Option Message) → Option Message → List (Option Message)
archive_status history none = history
archive_status history (some m) =
    if status_message_in_history history m then history else history ++ some m ∷ []

-- `applyShallowStatusUpdate`
unfoldable pub apply_status_update : Task → TaskStatusUpdateEvent → Task
apply_status_update src e = record src {
  history = archive_status src.history src.status.message;
  metadata = merge_metadata src.metadata e.metadata;
  status = e.status;
}

-- `applyShallowHistoryUpdate`
unfoldable pub apply_history_update : Task → Message → Task
apply_history_update src m = record src {
  history = archive_status src.history src.status.message ++ some m ∷ [];
}

abbrev rejected_role : Event → Bool
rejected_role (message m) = not (is_user m.role)
rejected_role _ = false

abbrev may_omit_task_id : Event → Bool
may_omit_task_id (message m) = str_eq m.task_id ""
may_omit_task_id _ = false

abbrev may_omit_context_id : Event → Bool
may_omit_context_id (message m) = str_eq m.context_id ""
may_omit_context_id _ = false

-- `validateUpdate`: its error, if it has one
unfoldable pub validate_update : Task → Event → Option String
validate_update t e =
    if rejected_role e
    then some "only user messages can be applied to the task state"
    else if terminal t.status.state
    then some "task state updates are not allowed"
    else if not (str_eq t.id (task_info e).task_id) && not (may_omit_task_id e)
    then some "task IDs don't match"
    else if not (str_eq t.context_id (task_info e).context_id) && not (may_omit_context_id e)
    then some "context IDs don't match"
    else none

dispatch : Task → Event → Result Task
dispatch t (task v) = ok v
dispatch t (message m) = ok (apply_history_update t m)
dispatch t (artifact_update e) = apply_artifact_update t e
dispatch t (status_update e) = ok (apply_status_update t e)

after_validation : Task → Event → Option String → Result Task
unfolding dispatch
after_validation t e (some text) = err (other text)
after_validation t e none = dispatch t e

-- `ApplyShallowUpdate`
unfoldable pub apply_shallow_update : Task → Event → Result Task
unfolding after_validation
apply_shallow_update t e = after_validation t e (validate_update t e)

-- `ApplyUpdate`; `deep_copy` is `utils.DeepCopy`, a round trip through `encoding/gob`
unfoldable pub apply_update : (Task → Result Task) → Task → Event → Result Task
apply_update deep_copy t e = do u ← apply_shallow_update t e; deep_copy u

abbrev ends_turn : TaskState → Bool
ends_turn input_required = true
ends_turn s = terminal s

-- `IsFinal`
unfoldable pub is_final : Event → Bool
is_final (message _) = true
is_final (status_update e) = ends_turn e.status.state
is_final (task t) = ends_turn t.status.state
is_final (artifact_update _) = false
