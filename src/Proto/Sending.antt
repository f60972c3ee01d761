-- ===== src/Proto/Sending.antt =====
-- The request to send a message and its configuration: a2apb/v1/pbconv/to_proto.go and from_proto.go.
use a2a_go.Base.{
  ℤ, String, Bool, Option, none, some, List, Result, ok, err, other, ◌>>=◌, if◌then◌else◌, str_eq,
}
use a2a_go.Core.{Metadata, Message}
use a2a_go.Push.Store.{PushAuthInfo, PushConfig}
use a2a_go.Proto.Structs.{ProtoLib, unless_nil, each_of, PbMessage}
use a2a_go.Proto.ToProto.{to_proto_map, to_proto_message}
use a2a_go.Proto.FromProto.{from_proto_map, from_proto_message}
use a2a_go.Proto.Requests.{kept_length, sent_length}

pub record PbAuthenticationInfo : Type 0 where
  pub scheme : String
  pub credentials : String

pub record PbPushConfig : Type 0 where
  pub tenant : String
  pub task_id : String
  pub id : String
  pub url : String
  pub token : String
  pub authentication : Option PbAuthenticationInfo

-- `a2a.SendMessageConfig`
pub record SendMessageConfig : Type 0 where
  pub accepted_output_modes : List String
  pub return_immediately : Bool
  pub history_length : Option ℤ
  pub push_config : Option PushConfig

pub record PbSendMessageConfig : Type 0 where
  pub accepted_output_modes : List String
  pub task_push_notification_config : Option PbPushConfig
  pub history_length : Option ℤ
  pub return_immediately : Bool

-- `a2a.SendMessageRequest`
pub record SendMessageRequest : Type 0 where
  pub tenant : String
  pub config : Option SendMessageConfig
  pub message : Option Message
  pub metadata : Metadata

-- `toProtoAuthenticationInfo`
unfoldable pub to_proto_auth : PushAuthInfo → Result PbAuthenticationInfo
to_proto_auth auth = ok (record { scheme = auth.scheme; credentials = auth.credentials })

-- `fromProtoAuthenticationInfo`
unfoldable pub from_proto_auth : PbAuthenticationInfo → Result PushAuthInfo
from_proto_auth p =
    if str_eq p.scheme ""
    then err (other "authentication scheme cannot be empty")
    else ok (record { credentials = p.credentials; scheme = p.scheme })

-- `ToProtoTaskPushConfig`
unfoldable pub to_proto_push_config : PushConfig → Result PbPushConfig
to_proto_push_config config = do
  auth ← unless_nil to_proto_auth config.auth
  ok (record {
    tenant = config.tenant;
    task_id = config.task_id;
    id = config.id;
    url = config.url;
    token = config.token;
    authentication = auth;
  })

-- the check of `FromProtoTaskPushConfig`, after the authentication
push_config_of : PbPushConfig → Option PushAuthInfo → Result PushConfig
push_config_of p auth =
    if str_eq p.url ""
    then err (other "url cannot be empty")
    else ok (record {
      tenant = p.tenant;
      id = p.id;
      task_id = p.task_id;
      auth = auth;
      token = p.token;
      url = p.url;
    })

-- `FromProtoTaskPushConfig`
unfoldable pub from_proto_push_config : PbPushConfig → Result PushConfig
unfolding push_config_of
from_proto_push_config p = do
  auth ← unless_nil from_proto_auth p.authentication
  push_config_of p auth

-- `toProtoSendMessageConfig`
unfoldable pub to_proto_send_config : SendMessageConfig → Result PbSendMessageConfig
to_proto_send_config config = do
  push ← unless_nil to_proto_push_config config.push_config
  ok (record {
    accepted_output_modes = config.accepted_output_modes;
    task_push_notification_config = push;
    history_length = sent_length config.history_length;
    return_immediately = config.return_immediately;
  })

-- `fromProtoSendMessageConfig`
unfoldable pub from_proto_send_config : PbSendMessageConfig → Result SendMessageConfig
from_proto_send_config p = do
  push ← unless_nil from_proto_push_config p.task_push_notification_config
  ok (record {
    accepted_output_modes = p.accepted_output_modes;
    return_immediately = p.return_immediately;
    history_length = kept_length p.history_length;
    push_config = push;
  })

-- the configurations and the token of the next page
pub record ListTaskPushConfigResponse : Type 0 where
  pub configs : List PushConfig
  pub next_page_token : String

pub record PbListPushConfigsResponse : Type 0 where
  pub configs : List PbPushConfig
  pub next_page_token : String

-- `ToProtoListTaskPushConfigResponse`
unfoldable pub to_proto_list_push_response :
    ListTaskPushConfigResponse → Result PbListPushConfigsResponse
to_proto_list_push_response r = do
  configs ← each_of to_proto_push_config r.configs
  ok (record { configs = configs; next_page_token = r.next_page_token })

-- `FromProtoListTaskPushConfigResponse`
unfoldable pub from_proto_list_push_response :
    PbListPushConfigsResponse → Result ListTaskPushConfigResponse
from_proto_list_push_response p = do
  configs ← each_of from_proto_push_config p.configs
  ok (record { configs = configs; next_page_token = p.next_page_token })

module _ (lib : ProtoLib) where
  open lib use {Struct}

  pub record PbSendMessageRequest : Type 0 where
    pub tenant : String
    pub message : Option (PbMessage lib)
    pub configuration : Option PbSendMessageConfig
    pub metadata : Option Struct

  -- `ToProtoSendMessageRequest`
  unfoldable pub to_proto_send_message_request : SendMessageRequest → Result PbSendMessageRequest
  to_proto_send_message_request req = do
    msg ← unless_nil (to_proto_message lib) req.message
    conf ← unless_nil to_proto_send_config req.config
    meta ← to_proto_map lib req.metadata
    ok (record { tenant = req.tenant; message = msg; configuration = conf; metadata = meta })

  -- the check and the rest of `FromProtoSendMessageRequest`, after the message
  request_of : PbSendMessageRequest → Option Message → Result SendMessageRequest
  request_of p none = err (other "message cannot be nil")
  request_of p (some msg) = do
    config ← unless_nil from_proto_send_config p.configuration
    ok (record {
      tenant = p.tenant;
      config = config;
      message = some msg;
      metadata = from_proto_map lib p.metadata;
    })

  -- `FromProtoSendMessageRequest`
  unfoldable pub from_proto_send_message_request : PbSendMessageRequest → Result SendMessageRequest
  unfolding request_of
  from_proto_send_message_request p = do
    msg ← unless_nil (from_proto_message lib) p.message
    request_of p msg
