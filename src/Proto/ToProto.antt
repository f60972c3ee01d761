-- ===== src/Proto/ToProto.antt =====
-- From the data model to protobuf: a2apb/v1/pbconv/to_proto.go, the parts of an event.
--
-- A conversion of a pointer returns nil for nil: `unless_nil` of the conversion of its target, which is
-- what stands here.
use a2a_go.Base.{
  ℕ, String, Option, none, some, List, Result, ok, err, other, ◌>>=◌, if◌then◌else◌, str_eq,
}
use a2a_go.Core.{
  Value, Metadata, TaskState, raw_string, MessageRole, role_unspecified, role_agent, role_user,
  role_other, PartContent, text_content, raw_content, data_content, url_content, Part, Message,
  TaskStatus, Artifact, Task, Event, message, task, status_update, artifact_update,
}
use a2a_go.TaskExec.Promise.{SendMessageResult, task_result, message_result}
use a2a_go.Proto.Structs.{
  ProtoLib, unless_nil, each_of, PbContent, pb_text, pb_raw, pb_data, pb_url, PbPart, PbMessage,
  PbTaskStatus, PbArtifact, PbTask, PbPayload, pb_message, pb_task, pb_status_update,
  pb_artifact_update,
}

-- `toProtoRole`: the codes of ROLE_UNSPECIFIED, ROLE_USER and ROLE_AGENT are 0, 1 and 2
unfoldable pub to_proto_role : MessageRole → ℕ
to_proto_role role_user = 1
to_proto_role role_agent = 2
to_proto_role role_unspecified = 0
to_proto_role (role_other s) = 0

-- the generated table `TaskState_value`
abbrev state_value : String → Option ℕ
state_value s =
    if str_eq s "TASK_STATE_UNSPECIFIED"
    then some 0
    else if str_eq s "TASK_STATE_SUBMITTED"
    then some 1
    else if str_eq s "TASK_STATE_WORKING"
    then some 2
    else if str_eq s "TASK_STATE_COMPLETED"
    then some 3
    else if str_eq s "TASK_STATE_FAILED"
    then some 4
    else if str_eq s "TASK_STATE_CANCELED"
    then some 5
    else if str_eq s "TASK_STATE_INPUT_REQUIRED"
    then some 6
    else if str_eq s "TASK_STATE_REJECTED"
    then some 7
    else if str_eq s "TASK_STATE_AUTH_REQUIRED"
    then some 8
    else none

-- `toProtoTaskState`
unfoldable pub to_proto_task_state : TaskState → ℕ
to_proto_task_state state = elim (state_value (raw_string state)) [ some code ↦ code | none ↦ 0 ]

module _ (lib : ProtoLib) where
  open lib use {Struct, StructValue, Timestamp}

  -- `toProtoMap`
  unfoldable pub to_proto_map : Metadata → Result (Option Struct)
  to_proto_map meta = unless_nil lib.new_struct meta

  -- `toProtoDataPart`
  unfoldable pub to_proto_data_part : Value → Result (PbContent lib)
  to_proto_data_part v = do value ← lib.new_value v; ok (pb_data value)

  -- the `switch` of `toProtoPart`
  unfoldable pub to_proto_content : Option PartContent → Result (PbContent lib)
  to_proto_content (some (text_content s)) = ok (pb_text s)
  to_proto_content (some (raw_content bytes)) = ok (pb_raw bytes)
  to_proto_content (some (data_content v)) = to_proto_data_part v
  to_proto_content (some (url_content u)) = ok (pb_url u)
  to_proto_content none = err (other "unsupported part type: %T")

  -- `toProtoPart`
  unfoldable pub to_proto_part : Part → Result (PbPart lib)
  to_proto_part part = do
    meta ← to_proto_map part.metadata
    content ← to_proto_content part.content
    ok (record {
      content = some content;
      metadata = meta;
      filename = part.filename;
      media_type = part.media_type;
    })

  -- `toProtoParts`
  unfoldable pub to_proto_parts : List Part → Result (List (PbPart lib))
  to_proto_parts parts = each_of to_proto_part parts

  -- `toProtoMessage`
  unfoldable pub to_proto_message : Message → Result (PbMessage lib)
  to_proto_message msg = do
    parts ← to_proto_parts msg.parts
    meta ← to_proto_map msg.metadata
    ok (record {
      message_id = msg.id;
      context_id = msg.context_id;
      task_id = msg.task_id;
      role = to_proto_role msg.role;
      parts = parts;
      metadata = meta;
      extensions = msg.extensions;
      reference_task_ids = msg.reference_tasks;
    })

  -- `toProtoMessages`
  unfoldable pub to_proto_messages : List (Option Message) → Result (List (Option (PbMessage lib)))
  to_proto_messages msgs = each_of (unless_nil to_proto_message) msgs

  -- `toProtoTaskStatus`
  unfoldable pub to_proto_task_status : TaskStatus → Result (PbTaskStatus lib)
  to_proto_task_status status = do
    msg ← unless_nil to_proto_message status.message
    ok (record {
      state = to_proto_task_state status.state;
      message = msg;
      timestamp = elim status.timestamp [ none ↦ none | some t ↦ some (lib.new_timestamp t) ];
    })

  -- `toProtoArtifact`
  unfoldable pub to_proto_artifact : Artifact → Result (PbArtifact lib)
  to_proto_artifact artifact = do
    meta ← to_proto_map artifact.metadata
    parts ← to_proto_parts artifact.parts
    ok (record {
      artifact_id = artifact.id;
      name = artifact.name;
      description = artifact.description;
      parts = parts;
      metadata = meta;
      extensions = artifact.extensions;
    })

  -- `toProtoArtifacts`
  unfoldable pub to_proto_artifacts : List Artifact → Result (List (PbArtifact lib))
  to_proto_artifacts artifacts = each_of to_proto_artifact artifacts

  -- `ToProtoTask`
  unfoldable pub to_proto_task : Task → Result (PbTask lib)
  to_proto_task t = do
    status ← to_proto_task_status t.status
    artifacts ← to_proto_artifacts t.artifacts
    history ← to_proto_messages t.history
    meta ← to_proto_map t.metadata
    ok (record {
      id = t.id;
      context_id = t.context_id;
      status = some status;
      artifacts = artifacts;
      history = history;
      metadata = meta;
    })

  -- `ToProtoSendMessageResponse`
  unfoldable pub to_proto_send_message_response :
      SendMessageResult → Result (Option (PbPayload lib))
  to_proto_send_message_response (message_result m) = do
    p ← to_proto_message m
    ok (some (pb_message p))
  to_proto_send_message_response (task_result t) = do p ← to_proto_task t; ok (some (pb_task p))

  -- `ToProtoStreamResponse`
  unfoldable pub to_proto_stream_response : Event → Result (Option (PbPayload lib))
  to_proto_stream_response (message m) = do p ← to_proto_message m; ok (some (pb_message p))
  to_proto_stream_response (task t) = do p ← to_proto_task t; ok (some (pb_task p))
  to_proto_stream_response (status_update e) = do
    status ← to_proto_task_status e.status
    meta ← to_proto_map e.metadata
    ok (
        some (
          pb_status_update (record {
            task_id = e.task_id;
            context_id = e.context_id;
            status = some status;
            metadata = meta;
          })))
  to_proto_stream_response (artifact_update e) = do
    artifact ← to_proto_artifact e.artifact
    meta ← to_proto_map e.metadata
    ok (
        some (
          pb_artifact_update (record {
            task_id = e.task_id;
            context_id = e.context_id;
            artifact = artifact;
            append = e.append;
            last_chunk = e.last_chunk;
            metadata = meta;
          })))
