-- ===== src/Proto/RequestTrips.antt =====
-- What a2apb/v1/pbconv/from_proto.go makes of the requests that to_proto.go wrote.
use a2a_go.Base.{
  ℕ, String, Bool, ℤ, pos, negsuc, ◌<◌, Option, none, some, ◌≡◌, ◌≢◌, ◌↔◌, inl, inr, refl, subst,
  arith, eq_iff, ◌==◌, if◌then◌else◌, Bool-cases, Result-cases, Option-cases, ok,
}
use a2a_go.Core.{Message, unspecified}
use a2a_go.Core.Exact.{MetadataExact}
use a2a_go.Push.Store.{PushAuthInfo, PushConfig}
use a2a_go.TaskStore.Listing.{ListTasksRequest}
use a2a_go.Proto.Structs.{ProtoLib, unless_nil}
use a2a_go.Proto.ToProto.{to_proto_map, to_proto_message, to_proto_task_state}
use a2a_go.Proto.FromProto.{from_proto_task_state}
use a2a_go.Proto.RoundTrip.{
  IsProtoLib, IsMessage, unless_nil-unless_nil, from_proto_task_state-to_proto_task_state,
  from_proto_map-to_proto_map, from_proto_message-to_proto_message,
}
use a2a_go.Proto.Requests.{
  to_int32, kept_length, sent_length, GetTaskRequest, PbGetTaskRequest, to_proto_get_task_request,
  from_proto_get_task_request, PbListTasksRequest, to_proto_list_tasks_request,
  from_proto_list_tasks_request,
}
use a2a_go.Proto.Sending.{
  PbAuthenticationInfo, PbPushConfig, SendMessageConfig, PbSendMessageConfig, SendMessageRequest,
  PbSendMessageRequest, to_proto_auth, from_proto_auth, to_proto_push_config,
  from_proto_push_config, to_proto_send_config, from_proto_send_config,
  to_proto_send_message_request, from_proto_send_message_request,
}

-- a number that 32 bits with a sign can hold
abbrev pub Fits : ℤ → Type 0
Fits (pos n) = n < 2147483648
Fits (negsuc n) = n < 2147483648

-- a history length that arrives: none, or one that is not negative and fits
abbrev pub Arrives : Option ℤ → Type 0
Arrives none = Unit
Arrives (some (pos n)) = n < 2147483648
Arrives (some (negsuc n)) = ⊥

to_int32-Fits : (z : ℤ) → Fits z → to_int32 z ≡ z
unfolding to_int32
to_int32-Fits (pos n) h = ground arith
to_int32-Fits (negsuc n) h = ground arith

kept_length-sent_length : (h : Option ℤ) → Arrives h → kept_length (sent_length h) ≡ h
unfolding kept_length
kept_length-sent_length none h = refl
kept_length-sent_length (some (pos n)) h = let is = to_int32-Fits (pos n) h in ground arith
kept_length-sent_length (some (negsuc n)) h = absurd h

kept_length-sent_length_only : (h : Option ℤ) → kept_length (sent_length h) ≡ h → Arrives h
unfolding kept_length to_int32
kept_length-sent_length_only none is = tt
kept_length-sent_length_only (some (pos n)) is = ground arith
kept_length-sent_length_only (some (negsuc n)) is = ground arith

-- A request for a task with an ID comes back as it was sent exactly when its history length is absent,
-- or not negative and below 2 ^ 31.
pub from_proto_get_task_request-to_proto_get_task_request :
    (req : GetTaskRequest) (p : PbGetTaskRequest)
    → req.id ≢ ""
    → to_proto_get_task_request req ≡ ok p
    → (from_proto_get_task_request p ≡ ok req) ↔ Arrives req.history_length
unfolding to_proto_get_task_request from_proto_get_task_request
from_proto_get_task_request-to_proto_get_task_request req p set h =
    let text = eq_iff req.id "" in
    let made : PbGetTaskRequest = record {
      tenant = req.tenant;
      id = req.id;
      history_length = sent_length req.history_length;
    } in
    let is : made ≡ p = ground arith in
    subst
      (λ (x : PbGetTaskRequest).
        (from_proto_get_task_request x ≡ ok req) ↔ Arrives req.history_length)
      is
      (
        (λ e. kept_length-sent_length_only req.history_length (ground arith)),
        (λ a. let kept = kept_length-sent_length req.history_length a in ground arith),
      )

-- what a push configuration must have for the other side to take it
abbrev pub IsAuth : Option PushAuthInfo → Type 0
IsAuth none = Unit
IsAuth (some a) = a.scheme ≢ ""

abbrev pub IsPushConfig : Option PushConfig → Type 0
IsPushConfig none = Unit
IsPushConfig (some c) = (c.url ≢ "") × IsAuth c.auth

abbrev pub IsSendConfig : Option SendMessageConfig → Type 0
IsSendConfig none = Unit
IsSendConfig (some c) = Arrives c.history_length × IsPushConfig c.push_config

auth_back :
    (a : PushAuthInfo) (p : PbAuthenticationInfo)
    → a.scheme ≢ ""
    → to_proto_auth a ≡ ok p
    → from_proto_auth p ≡ ok a
unfolding to_proto_auth from_proto_auth
auth_back a p set h =
    let text = eq_iff a.scheme "" in
    let made : PbAuthenticationInfo = record { scheme = a.scheme; credentials = a.credentials } in
    let is : made ≡ p = ground arith in
    subst (λ (x : PbAuthenticationInfo). from_proto_auth x ≡ ok a) is (ground arith)

-- A push configuration with an address, and a scheme if it has credentials, comes back as it was sent.
pub from_proto_push_config-to_proto_push_config :
    (c : PushConfig) (p : PbPushConfig)
    → c.url ≢ ""
    → IsAuth c.auth
    → to_proto_push_config c ≡ ok p
    → from_proto_push_config p ≡ ok c
unfolding to_proto_push_config from_proto_push_config
from_proto_push_config-to_proto_push_config c p set auth h =
    elim (Result-cases (unless_nil to_proto_auth c.auth)) [
      | inl (f, z) ↦ absurd (ground arith)
      | inr (a, z) ↦
          let back =
            unless_nil-unless_nil to_proto_auth from_proto_auth c.auth a
              (λ x y is g. auth_back x y (subst IsAuth is auth) g) z in
          let text = eq_iff c.url "" in
          let made : PbPushConfig = record {
            tenant = c.tenant;
            task_id = c.task_id;
            id = c.id;
            url = c.url;
            token = c.token;
            authentication = a;
          } in
          let is : made ≡ p = ground arith in
          subst (λ (x : PbPushConfig). from_proto_push_config x ≡ ok c) is (ground arith)
    ]

send_config_back :
    (c : SendMessageConfig) (p : PbSendMessageConfig)
    → Arrives c.history_length
    → IsPushConfig c.push_config
    → to_proto_send_config c ≡ ok p
    → from_proto_send_config p ≡ ok c
unfolding to_proto_send_config from_proto_send_config
send_config_back c p short push h =
    elim (Result-cases (unless_nil to_proto_push_config c.push_config)) [
      | inl (f, z) ↦ absurd (ground arith)
      | inr (a, z) ↦
          let back =
            unless_nil-unless_nil to_proto_push_config from_proto_push_config c.push_config a
              (λ x y is g.
                let (set, auth) = subst IsPushConfig is push in
                from_proto_push_config-to_proto_push_config x y set auth g)
              z in
          let kept = kept_length-sent_length c.history_length short in
          let made : PbSendMessageConfig = record {
            accepted_output_modes = c.accepted_output_modes;
            task_push_notification_config = a;
            history_length = sent_length c.history_length;
            return_immediately = c.return_immediately;
          } in
          let is : made ≡ p = ground arith in
          subst (λ (x : PbSendMessageConfig). from_proto_send_config x ≡ ok c) is (ground arith)
    ]

zero_state :
    (code : ℕ)
    → (if code == 0 then unspecified else from_proto_task_state code) ≡ from_proto_task_state code
unfolding from_proto_task_state
zero_state code = elim (Bool-cases (code == 0)) [ inl e ↦ ground arith | inr e ↦ rw e refl ]

module _ (lib : ProtoLib) (is_float64 : String → Bool) (laws : IsProtoLib lib is_float64) where
  -- A request to send a message is read back as it was sent, when the message has an ID and the role of
  -- a user or an agent, the history length is absent, or not negative and below 2 ^ 31, a push
  -- configuration has an address, and a scheme with its credentials, and the values of metadata and data
  -- parts have only float64 numbers and no bytes, structs or other types. Numbers are compared by their
  -- printed text.
  pub from_proto_send_message_request-to_proto_send_message_request :
      (req : SendMessageRequest) (m : Message) (p : PbSendMessageRequest lib)
      → req.message ≡ some m
      → IsMessage is_float64 m
      → MetadataExact is_float64 req.metadata
      → IsSendConfig req.config
      → to_proto_send_message_request lib req ≡ ok p
      → from_proto_send_message_request lib p ≡ ok req
  unfolding to_proto_send_message_request from_proto_send_message_request
  from_proto_send_message_request-to_proto_send_message_request req m p has good exact config h =
      elim (Result-cases (to_proto_message lib m)) [
        | inl (f, z) ↦ absurd (ground arith)
        | inr (q, z) ↦ elim (Result-cases (unless_nil to_proto_send_config req.config)) [
          | inl (f, y) ↦ absurd (ground arith)
          | inr (c, y) ↦ elim (Result-cases (to_proto_map lib req.metadata)) [
            | inl (f, x) ↦ absurd (ground arith)
            | inr (s, x) ↦
                let back = from_proto_message-to_proto_message lib is_float64 laws m q good z in
                let conf =
                  unless_nil-unless_nil to_proto_send_config from_proto_send_config req.config c
                    (λ a b is g.
                      let (short, push) = subst IsSendConfig is config in
                      send_config_back a b short push g)
                    y in
                let meta = from_proto_map-to_proto_map lib is_float64 laws req.metadata s exact x in
                let made : PbSendMessageRequest lib = record {
                  tenant = req.tenant;
                  message = some q;
                  configuration = c;
                  metadata = s;
                } in
                let is : made ≡ p = ground arith in
                subst
                  (λ (w : PbSendMessageRequest lib). from_proto_send_message_request lib w ≡ ok req)
                  is (ground arith)
          ]
        ]
      ]

  -- A request for a listing comes back as it was sent, when its page size fits in 32 bits and its
  -- history length is absent, or not negative and below 2 ^ 31.
  pub from_proto_list_tasks_request-to_proto_list_tasks_request :
      (req : ListTasksRequest) (p : PbListTasksRequest lib)
      → Fits req.page_size
      → Arrives req.history_length
      → to_proto_list_tasks_request lib req ≡ ok p
      → from_proto_list_tasks_request lib p ≡ ok req
  unfolding to_proto_list_tasks_request from_proto_list_tasks_request
  from_proto_list_tasks_request-to_proto_list_tasks_request req p size short h =
      let kept = kept_length-sent_length req.history_length short in
      let fits = to_int32-Fits req.page_size size in
      let state = from_proto_task_state-to_proto_task_state req.status in
      let zero_is = zero_state (to_proto_task_state req.status) in
      let made : PbListTasksRequest lib = record {
        tenant = req.tenant;
        context_id = req.context_id;
        status = to_proto_task_state req.status;
        page_size = some (to_int32 req.page_size);
        page_token = req.page_token;
        history_length = sent_length req.history_length;
        status_timestamp_after = elim req.status_timestamp_after [
          | none ↦ none
          | some t ↦ some (lib.new_timestamp t)
        ];
        include_artifacts = some req.include_artifacts;
      } in
      let is : made ≡ p = ground arith in
      subst (λ (x : PbListTasksRequest lib). from_proto_list_tasks_request lib x ≡ ok req) is
        (elim (Option-cases req.status_timestamp_after) [
          | inl unset ↦ ground arith
          | inr (at, set) ↦ let time = laws.as_time-new_timestamp at in ground arith
        ])
