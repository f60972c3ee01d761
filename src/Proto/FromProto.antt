-- ===== src/Proto/FromProto.antt =====
-- From protobuf to the data model: a2apb/v1/pbconv/from_proto.go, the parts of an event.
--
-- A conversion of a pointer returns nil for nil: `unless_nil` of the conversion of its target, which is
-- what stands here.
use a2a_go.Base.{
  ℕ, Option, none, some, List, Result, ok, err, other, ◌>>=◌, ◌==◌, if◌then◌else◌, str_eq,
}
use a2a_go.Core.{
  Metadata, TaskState, unspecified, auth_required, canceled, completed, failed, input_required,
  rejected, submitted, working, MessageRole, role_unspecified, role_agent, role_user, PartContent,
  text_content, raw_content, data_content, url_content, Part, Message, TaskStatus, Artifact, Task,
  Event, message, task, status_update, artifact_update,
}
use a2a_go.TaskExec.Promise.{SendMessageResult, task_result, message_result}
use a2a_go.Proto.Structs.{
  ProtoLib, unless_nil, each_of, PbContent, pb_text, pb_raw, pb_data, pb_url, PbPart, PbMessage,
  PbTaskStatus, PbArtifact, PbTask, PbPayload, pb_message, pb_task, pb_status_update,
  pb_artifact_update,
}

-- `fromProtoRole`
unfoldable pub from_proto_role : ℕ → MessageRole
from_proto_role code =
    if code == 1 then role_user else if code == 2 then role_agent else role_unspecified

-- the generated table `TaskState_name`, each name as the state that it is the text of
abbrev state_name : ℕ → Option TaskState
state_name code =
    if code == 1
    then some submitted
    else if code == 2
    then some working
    else if code == 3
    then some completed
    else if code == 4
    then some failed
    else if code == 5
    then some canceled
    else if code == 6
    then some input_required
    else if code == 7
    then some rejected
    else if code == 8
    then some auth_required
    else none

-- `fromProtoTaskState`: 0 is TASK_STATE_UNSPECIFIED
unfoldable pub from_proto_task_state : ℕ → TaskState
from_proto_task_state code =
    if code == 0
    then unspecified
    else elim (state_name code) [ some state ↦ state | none ↦ unspecified ]

module _ (lib : ProtoLib) where
  open lib use {Struct}

  -- `fromProtoMap`
  unfoldable pub from_proto_map : Option Struct → Metadata
  from_proto_map none = none
  from_proto_map (some s) = some (lib.as_map s)

  -- the `switch` of `fromProtoPart`
  unfoldable pub from_proto_content : PbContent lib → PartContent
  from_proto_content (pb_text s) = text_content s
  from_proto_content (pb_raw bytes) = raw_content bytes
  from_proto_content (pb_data v) = data_content (lib.as_interface v)
  from_proto_content (pb_url u) = url_content u

  -- `fromProtoPart`
  unfoldable pub from_proto_part : PbPart lib → Result Part
  from_proto_part p = elim p.content [
    | none ↦ err (other "unsupported part type: %T")
    | some content ↦ ok (record {
      content = some (from_proto_content content);
      filename = p.filename;
      media_type = p.media_type;
      metadata = from_proto_map p.metadata;
    })
  ]

  -- `fromProtoParts`
  unfoldable pub from_proto_parts : List (PbPart lib) → Result (List Part)
  from_proto_parts parts = each_of from_proto_part parts

  -- the checks of `FromProtoMessage`, after the parts
  message_of : PbMessage lib → List Part → Result Message
  message_of p parts =
      if str_eq p.message_id ""
      then err (other "message id cannot be empty")
      else if p.role == 0
      then err (other "message role cannot be unspecified")
      else ok (record {
        id = p.message_id;
        context_id = p.context_id;
        extensions = p.extensions;
        metadata = from_proto_map p.metadata;
        parts = parts;
        reference_tasks = p.reference_task_ids;
        role = from_proto_role p.role;
        task_id = p.task_id;
      })

  -- `FromProtoMessage`
  unfoldable pub from_proto_message : PbMessage lib → Result Message
  unfolding message_of
  from_proto_message p = do parts ← from_proto_parts p.parts; message_of p parts

  -- `fromProtoMessages`
  unfoldable pub from_proto_messages :
      List (Option (PbMessage lib)) → Result (List (Option Message))
  from_proto_messages msgs = each_of (unless_nil from_proto_message) msgs

  -- `fromProtoTaskStatus`, of a pointer
  unfoldable pub from_proto_task_status : Option (PbTaskStatus lib) → Result TaskStatus
  from_proto_task_status none = err (other "invalid status")
  from_proto_task_status (some p) = do
    msg ← unless_nil from_proto_message p.message
    ok (record {
      message = msg;
      state = from_proto_task_state p.state;
      timestamp = elim p.timestamp [ none ↦ none | some t ↦ some (lib.as_time t) ];
    })

  -- the check of `fromProtoArtifact`, after the parts
  artifact_of : PbArtifact lib → List Part → Result Artifact
  artifact_of p parts =
      if str_eq p.artifact_id ""
      then err (other "artifact id cannot be empty")
      else ok (record {
        id = p.artifact_id;
        description = p.description;
        extensions = p.extensions;
        metadata = from_proto_map p.metadata;
        name = p.name;
        parts = parts;
      })

  -- `fromProtoArtifact`
  unfoldable pub from_proto_artifact : PbArtifact lib → Result Artifact
  unfolding artifact_of
  from_proto_artifact p = do parts ← from_proto_parts p.parts; artifact_of p parts

  -- `fromProtoArtifacts`
  unfoldable pub from_proto_artifacts : List (PbArtifact lib) → Result (List Artifact)
  from_proto_artifacts artifacts = each_of from_proto_artifact artifacts

  -- the conversions of a task after the check of its ID
  task_fields : PbTask lib → Result Task
  task_fields p = do
    status ← from_proto_task_status p.status
    artifacts ← from_proto_artifacts p.artifacts
    history ← from_proto_messages p.history
    ok (record {
      id = p.id;
      artifacts = artifacts;
      context_id = p.context_id;
      history = history;
      metadata = from_proto_map p.metadata;
      status = status;
    })

  -- `FromProtoTask`
  unfoldable pub from_proto_task : PbTask lib → Result Task
  unfolding task_fields
  from_proto_task p =
      if str_eq p.id "" then err (other "task id cannot be empty") else task_fields p

  -- `FromProtoSendMessageResponse`, of the payload
  unfoldable pub from_proto_send_message_response :
      Option (PbPayload lib) → Result SendMessageResult
  from_proto_send_message_response (some (pb_message p)) = do
    m ← from_proto_message p
    ok (message_result m)
  from_proto_send_message_response (some (pb_task p)) = do t ← from_proto_task p; ok (task_result t)
  from_proto_send_message_response _ =
      err (other "unsupported SendMessageResponse payload type: %T")

  -- `FromProtoStreamResponse`, of the payload
  unfoldable pub from_proto_stream_response : Option (PbPayload lib) → Result Event
  from_proto_stream_response none = err (other "unsupported StreamResponse payload type: %T")
  from_proto_stream_response (some (pb_message p)) = do m ← from_proto_message p; ok (message m)
  from_proto_stream_response (some (pb_task p)) = do t ← from_proto_task p; ok (task t)
  from_proto_stream_response (some (pb_status_update p)) = do
    status ← from_proto_task_status p.status
    ok (
        status_update (record {
          context_id = p.context_id;
          status = status;
          task_id = p.task_id;
          metadata = from_proto_map p.metadata;
        }))
  from_proto_stream_response (some (pb_artifact_update p)) = do
    artifact ← from_proto_artifact p.artifact
    ok (
        artifact_update (record {
          append = p.append;
          artifact = artifact;
          context_id = p.context_id;
          last_chunk = p.last_chunk;
          task_id = p.task_id;
          metadata = from_proto_map p.metadata;
        }))
