-- ===== src/Core.antt =====
-- The data model of a2a/core.go: task states, roles, parts, messages, artifacts, tasks, events.
--
-- A string type with constants is a data type with a constructor for each constant. A slice is a
-- list, so a nil slice and an empty one are one value; a map that the code compares with nil is
-- an `Option`. An instant is the number of nanoseconds since a fixed epoch. Where the code looks
-- for a nil pointer the model has an `Option`, other pointers are their targets.
use a2a_go.Base.{ℕ, String, Bool, true, false, Option, none, some, List, [], if◌then◌else◌, str_eq}
use a2a_go.Base.Maps.{GoMap}
pub mod Exact

pub data TaskState : Type 0 where
  unspecified auth_required canceled completed failed : TaskState
  input_required rejected submitted working : TaskState

pub TaskState-discrete : Discrete TaskState
TaskState-discrete = hlevel

abbrev pub is_canceled : TaskState → Bool
is_canceled canceled = true
is_canceled _ = false

-- `ts.Terminal()`
abbrev pub terminal : TaskState → Bool
terminal completed = true
terminal canceled = true
terminal failed = true
terminal rejected = true
terminal _ = false

-- `string(ts)`
abbrev pub raw_string : TaskState → String
raw_string unspecified = ""
raw_string auth_required = "TASK_STATE_AUTH_REQUIRED"
raw_string canceled = "TASK_STATE_CANCELED"
raw_string completed = "TASK_STATE_COMPLETED"
raw_string failed = "TASK_STATE_FAILED"
raw_string input_required = "TASK_STATE_INPUT_REQUIRED"
raw_string rejected = "TASK_STATE_REJECTED"
raw_string submitted = "TASK_STATE_SUBMITTED"
raw_string working = "TASK_STATE_WORKING"

-- `ts.String()`, the text that `MarshalJSON` writes
unfoldable to_string : TaskState → String
to_string unspecified = "TASK_STATE_UNSPECIFIED"
to_string s = raw_string s

-- `TaskStateFromString`, by which `UnmarshalJSON` reads: the cases of the `switch` in order
unfoldable from_string : String → TaskState
from_string s =
    if str_eq s "TASK_STATE_SUBMITTED"
    then submitted
    else if str_eq s "TASK_STATE_WORKING"
    then working
    else if str_eq s "TASK_STATE_COMPLETED"
    then completed
    else if str_eq s "TASK_STATE_FAILED"
    then failed
    else if str_eq s "TASK_STATE_CANCELED"
    then canceled
    else if str_eq s "TASK_STATE_INPUT_REQUIRED"
    then input_required
    else if str_eq s "TASK_STATE_REJECTED"
    then rejected
    else if str_eq s "TASK_STATE_AUTH_REQUIRED"
    then auth_required
    else unspecified

-- A role read from JSON may be any text.
pub data MessageRole : Type 0 where
  role_unspecified role_agent role_user : MessageRole
  role_other : String → MessageRole

abbrev pub is_user : MessageRole → Bool
is_user role_user = true
is_user _ = false

-- A value of type `any` under a `map[string]any`. A number is its text as encoding/json prints it,
-- whatever its type; `opaque` is a value of a type that metadata may not hold, by its type's name. A map
-- or a slice that contains itself is unfolded until it comes back: `back n` is the map or slice that
-- stands `n` above the one that holds it.
mutual
  pub data Value : Type 0 where
    null : Value
    flag : Bool → Value
    number : String → Value
    text : String → Value
    arr : Values → Value
    obj : Fields → Value
    opaque : String → Value
    back : ℕ → Value

  pub data Values : Type 0 where
    nil : Values
    cons : Value → Values → Values

  pub data Fields : Type 0 where
    end : Fields
    field : String → Value → Fields → Fields

abbrev pub Metadata : Type 0
Metadata = Option (GoMap Value)

pub data PartContent : Type 0 where
  text_content : String → PartContent
  raw_content : List ℕ → PartContent
  data_content : Value → PartContent
  url_content : String → PartContent

pub record Part : Type 0 where
  pub content : Option PartContent
  pub filename : String
  pub media_type : String
  pub metadata : Metadata

pub record Message : Type 0 where
  pub id : String
  pub context_id : String
  pub extensions : List String
  pub metadata : Metadata
  pub parts : List Part
  pub reference_tasks : List String
  pub role : MessageRole
  pub task_id : String

pub record TaskStatus : Type 0 where
  pub message : Option Message
  pub state : TaskState
  pub timestamp : Option ℕ

pub record Artifact : Type 0 where
  pub id : String
  pub description : String
  pub extensions : List String
  pub metadata : Metadata
  pub name : String
  pub parts : List Part

-- `History` is a slice of pointers, and the code looks for nil ones.
pub record Task : Type 0 where
  pub id : String
  pub artifacts : List Artifact
  pub context_id : String
  pub history : List (Option Message)
  pub metadata : Metadata
  pub status : TaskStatus

pub record TaskArtifactUpdateEvent : Type 0 where
  pub append : Bool
  pub artifact : Artifact
  pub context_id : String
  pub last_chunk : Bool
  pub task_id : String
  pub metadata : Metadata

pub record TaskStatusUpdateEvent : Type 0 where
  pub context_id : String
  pub status : TaskStatus
  pub task_id : String
  pub metadata : Metadata

pub data Event : Type 0 where
  message : Message → Event
  task : Task → Event
  status_update : TaskStatusUpdateEvent → Event
  artifact_update : TaskArtifactUpdateEvent → Event

pub record TaskInfo : Type 0 where
  pub task_id : String
  pub context_id : String

-- `event.TaskInfo()`
abbrev pub task_info : Event → TaskInfo
task_info (message m) = record { task_id = m.task_id; context_id = m.context_id }
task_info (task t) = record { task_id = t.id; context_id = t.context_id }
task_info (status_update e) = record { task_id = e.task_id; context_id = e.context_id }
task_info (artifact_update e) = record { task_id = e.task_id; context_id = e.context_id }

-- `NewStatusUpdateEvent`; `now` is the truncated clock
unfoldable pub new_status_update_event :
    TaskInfo → TaskState → Option Message → ℕ → TaskStatusUpdateEvent
new_status_update_event info state msg now = record {
  context_id = info.context_id;
  status = record { message = msg; state = state; timestamp = some now };
  task_id = info.task_id;
  metadata = none;
}

-- `NewArtifactEvent`; `id` is the new artifact ID
unfoldable new_artifact_event : TaskInfo → String → List Part → TaskArtifactUpdateEvent
new_artifact_event info id parts = record {
  append = false;
  artifact = record {
    id = id;
    description = "";
    extensions = [];
    metadata = none;
    name = "";
    parts = parts;
  };
  context_id = info.context_id;
  last_chunk = false;
  task_id = info.task_id;
  metadata = none;
}

-- `NewArtifactUpdateEvent`
unfoldable pub new_artifact_update_event : TaskInfo → String → List Part → TaskArtifactUpdateEvent
new_artifact_update_event info id parts = record {
  append = true;
  artifact = record {
    id = id;
    description = "";
    extensions = [];
    metadata = none;
    name = "";
    parts = parts;
  };
  context_id = info.context_id;
  last_chunk = false;
  task_id = info.task_id;
  metadata = none;
}
