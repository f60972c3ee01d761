-- ===== src/Proto/Requests.antt =====
-- The requests of the protocol and their conversions, a2apb/v1/pbconv/to_proto.go and from_proto.go.
--
-- What stands here is the conversion of a request that is there; a nil one stays nil.
use a2a_go.Base.{
  ℕ, ℤ, pos, negsuc, ◌-◌, ◌%◌, String, Bool, Option, none, some, Result, ok, err, other, ◌>>=◌, ltb,
  if◌then◌else◌, str_eq, ◌==◌,
}
use a2a_go.Core.{Metadata, unspecified}
use a2a_go.TaskStore.Listing.{ListTasksRequest}
use a2a_go.Proto.Structs.{ProtoLib}
use a2a_go.Proto.ToProto.{to_proto_map, to_proto_task_state}
use a2a_go.Proto.FromProto.{from_proto_map, from_proto_task_state}

-- Go's `int32(x)` of an `int`, which keeps the lowest 32 bits; `2 ^ 32` is 4294967296
unfoldable pub to_int32 : ℤ → ℤ
to_int32 (pos n) =
    if ltb (n % 4294967296) 2147483648
    then pos (n % 4294967296)
    else negsuc (4294967295 - n % 4294967296)
to_int32 (negsuc n) =
    if ltb (n % 4294967296) 2147483648
    then negsuc (n % 4294967296)
    else pos (4294967295 - n % 4294967296)

-- a history length on its way in: a negative one is dropped
unfoldable pub kept_length : Option ℤ → Option ℤ
kept_length none = none
kept_length (some (pos n)) = some (pos n)
kept_length (some (negsuc n)) = none

-- a history length on its way out
abbrev pub sent_length : Option ℤ → Option ℤ
sent_length none = none
sent_length (some n) = some (to_int32 n)

pub record GetTaskRequest : Type 0 where
  pub tenant : String
  pub id : String
  pub history_length : Option ℤ

pub record PbGetTaskRequest : Type 0 where
  pub tenant : String
  pub id : String
  pub history_length : Option ℤ

pub record SubscribeToTaskRequest : Type 0 where
  pub tenant : String
  pub id : String

pub record PbSubscribeToTaskRequest : Type 0 where
  pub tenant : String
  pub id : String

-- `GetTaskPushConfigRequest` and `DeleteTaskPushConfigRequest` have the same fields
pub record PushConfigRequest : Type 0 where
  pub tenant : String
  pub task_id : String
  pub id : String

pub record PbPushConfigRequest : Type 0 where
  pub tenant : String
  pub task_id : String
  pub id : String

pub record ListTaskPushConfigRequest : Type 0 where
  pub tenant : String
  pub task_id : String
  pub page_size : ℤ
  pub page_token : String

pub record PbListPushConfigsRequest : Type 0 where
  pub tenant : String
  pub task_id : String
  pub page_size : ℤ
  pub page_token : String

pub record CancelTaskRequest : Type 0 where
  pub tenant : String
  pub id : String
  pub metadata : Metadata

-- `ToProtoGetTaskRequest`
unfoldable pub to_proto_get_task_request : GetTaskRequest → Result PbGetTaskRequest
to_proto_get_task_request req =
    ok
      (record { tenant = req.tenant; id = req.id; history_length = sent_length req.history_length })

-- `FromProtoGetTaskRequest`
unfoldable pub from_proto_get_task_request : PbGetTaskRequest → Result GetTaskRequest
from_proto_get_task_request req =
    if str_eq req.id ""
    then err (other "task id cannot be empty")
    else ok (record {
      tenant = req.tenant;
      id = req.id;
      history_length = kept_length req.history_length;
    })

-- `ToProtoSubscribeToTaskRequest`
unfoldable pub to_proto_subscribe_request : SubscribeToTaskRequest → Result PbSubscribeToTaskRequest
to_proto_subscribe_request req = ok (record { tenant = req.tenant; id = req.id })

-- `FromProtoSubscribeToTaskRequest`
unfoldable pub from_proto_subscribe_request :
    PbSubscribeToTaskRequest → Result SubscribeToTaskRequest
from_proto_subscribe_request req =
    if str_eq req.id ""
    then err (other "task id cannot be empty")
    else ok (record { tenant = req.tenant; id = req.id })

-- `ToProtoGetTaskPushConfigRequest`
unfoldable pub to_proto_get_push_request : PushConfigRequest → Result PbPushConfigRequest
to_proto_get_push_request req =
    ok (record { tenant = req.tenant; task_id = req.task_id; id = req.id })

-- `FromProtoGetTaskPushConfigRequest`
unfoldable pub from_proto_get_push_request : PbPushConfigRequest → Result PushConfigRequest
from_proto_get_push_request req =
    if str_eq req.task_id ""
    then err (other "task id cannot be empty")
    else if str_eq req.id ""
    then err (other "config id cannot be empty")
    else ok (record { tenant = req.tenant; task_id = req.task_id; id = req.id })

-- `ToProtoDeleteTaskPushConfigRequest`
unfoldable pub to_proto_delete_push_request : PushConfigRequest → Result PbPushConfigRequest
to_proto_delete_push_request req =
    ok (record { tenant = req.tenant; task_id = req.task_id; id = req.id })

-- `FromProtoDeleteTaskPushConfigRequest`
unfoldable pub from_proto_delete_push_request : PbPushConfigRequest → Result PushConfigRequest
from_proto_delete_push_request req =
    if str_eq req.task_id ""
    then err (other "task id cannot be empty")
    else if str_eq req.id ""
    then err (other "config id cannot be empty")
    else ok (record { tenant = req.tenant; task_id = req.task_id; id = req.id })

-- `ToProtoListTaskPushConfigRequest`
unfoldable pub to_proto_list_push_request :
    ListTaskPushConfigRequest → Result PbListPushConfigsRequest
to_proto_list_push_request req = ok (record {
  tenant = req.tenant;
  task_id = req.task_id;
  page_size = to_int32 req.page_size;
  page_token = req.page_token;
})

-- `FromProtoListTaskPushConfigRequest`
unfoldable pub from_proto_list_push_request :
    PbListPushConfigsRequest → Result ListTaskPushConfigRequest
from_proto_list_push_request req =
    if str_eq req.task_id ""
    then err (other "task id cannot be empty")
    else ok (record {
      tenant = req.tenant;
      task_id = req.task_id;
      page_size = req.page_size;
      page_token = req.page_token;
    })

module _ (lib : ProtoLib) where
  open lib use {Struct, Timestamp}

  pub record PbCancelTaskRequest : Type 0 where
    pub tenant : String
    pub id : String
    pub metadata : Option Struct

  -- an optional field that is not set has no value here; the getters give 0 or false for it
  pub record PbListTasksRequest : Type 0 where
    pub tenant : String
    pub context_id : String
    pub status : ℕ
    pub page_size : Option ℤ
    pub page_token : String
    pub history_length : Option ℤ
    pub status_timestamp_after : Option Timestamp
    pub include_artifacts : Option Bool

  -- `ToProtoCancelTaskRequest`
  unfoldable pub to_proto_cancel_request : CancelTaskRequest → Result PbCancelTaskRequest
  to_proto_cancel_request req = do
    meta ← to_proto_map lib req.metadata
    ok (record { tenant = req.tenant; id = req.id; metadata = meta })

  -- `FromProtoCancelTaskRequest`
  unfoldable pub from_proto_cancel_request : PbCancelTaskRequest → Result CancelTaskRequest
  from_proto_cancel_request req =
      if str_eq req.id ""
      then err (other "task id cannot be empty")
      else ok
          (record { tenant = req.tenant; id = req.id; metadata = from_proto_map lib req.metadata })

  -- `ToProtoListTasksRequest`
  unfoldable pub to_proto_list_tasks_request : ListTasksRequest → Result PbListTasksRequest
  to_proto_list_tasks_request req = ok (record {
    tenant = req.tenant;
    context_id = req.context_id;
    status = to_proto_task_state req.status;
    page_size = some (to_int32 req.page_size);
    page_token = req.page_token;
    history_length = sent_length req.history_length;
    status_timestamp_after = elim req.status_timestamp_after [
      | none ↦ none
      | some t ↦ some (lib.new_timestamp t)
    ];
    include_artifacts = some req.include_artifacts;
  })

  -- `FromProtoListTasksRequest`
  unfoldable pub from_proto_list_tasks_request : PbListTasksRequest → Result ListTasksRequest
  from_proto_list_tasks_request req = ok (record {
    tenant = req.tenant;
    context_id = req.context_id;
    status = if req.status == 0 then unspecified else from_proto_task_state req.status;
    page_size = elim req.page_size [ none ↦ pos 0 | some n ↦ n ];
    page_token = req.page_token;
    history_length = kept_length req.history_length;
    status_timestamp_after = elim req.status_timestamp_after [
      | none ↦ none
      | some t ↦ some (lib.as_time t)
    ];
    include_artifacts = elim req.include_artifacts [ none ↦ Bool.false | some b ↦ b ];
  })
