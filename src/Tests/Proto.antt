-- ===== src/Tests/Proto.antt =====
-- Runs and instances for the conversions to and from protobuf.
use a2a_go.Base.{
  ℕ, pos, String, Bool, true, not, str_eq, if◌then◌else◌, ◌>>=◌, Result, other, Option, none, some,
  [], ◌∷◌, ◌≡◌, ◌↔◌, inl, inr, refl, arith, ok, err, eq_iff, ◌<◌,
}
use a2a_go.Base.Maps.{GoMap}
use a2a_go.Core.{
  Value, null, flag, number, text, arr, obj, opaque, back, Values, nil, cons, Fields, end, field,
  Metadata, Task, task,
}
use a2a_go.Core.Exact.{IsExact, AreExact, FieldsExact, MapExact}
use a2a_go.Proto.Structs.{ProtoLib, PbPayload, pb_text}
use a2a_go.Proto.ToProto.{
  to_proto_map, to_proto_content, to_proto_part, to_proto_parts, to_proto_message,
  to_proto_messages, to_proto_task_status, to_proto_task_state, to_proto_artifacts, to_proto_task,
  to_proto_stream_response, to_proto_role,
}
use a2a_go.Proto.FromProto.{from_proto_stream_response}
use a2a_go.Proto.RoundTrip.{IsProtoLib, IsEvent}
use a2a_go.Proto.Events.{from_proto_stream_response-to_proto_stream_response}
use a2a_go.Proto.Requests.{
  GetTaskRequest, PbGetTaskRequest, to_proto_get_task_request, from_proto_get_task_request,
  to_int32,
}
use a2a_go.Proto.Sending.{
  to_proto_send_config, to_proto_push_config, to_proto_auth, SendMessageRequest,
  PbSendMessageRequest, to_proto_send_message_request, from_proto_send_message_request,
}
use a2a_go.Proto.RequestTrips.{
  from_proto_get_task_request-to_proto_get_task_request,
  from_proto_send_message_request-to_proto_send_message_request,
}
use a2a_go.Tests.Data.{job, said}

-- a library that rounds one number, as a float64 does, and refuses what is not permitted
abbrev is_rounded : String → Bool
is_rounded s = not (str_eq s "9007199254740993")

unfoldable mutual
  convert : Value → Result Value
  convert null = ok null
  convert (flag b) = ok (flag b)
  convert (number s) = ok (number (if is_rounded s then s else "9007199254740992"))
  convert (text s) = ok (text s)
  convert (arr vs) = convert_all vs >>= λ us. ok (arr us)
  convert (obj fs) = convert_fields fs >>= λ gs. ok (obj gs)
  convert (opaque s) = err (other "proto: invalid type")
  convert (back n) = err (other "proto: invalid type")

  convert_all : Values → Result Values
  convert_all nil = ok nil
  convert_all (cons v vs) = convert v >>= λ u. convert_all vs >>= λ us. ok (cons u us)

  convert_fields : Fields → Result Fields
  convert_fields end = ok end
  convert_fields (field k v fs) = convert v >>= λ u. convert_fields fs >>= λ gs. ok (field k u gs)

mutual
  unfolding convert convert_all convert_fields

  convert_exact : (v : Value) → IsExact is_rounded v → convert v ≡ ok v
  convert_exact null x = refl
  convert_exact (flag b) x = refl
  convert_exact (number s) x = rw x refl
  convert_exact (text s) x = refl
  convert_exact (arr vs) x = rw (convert_all_exact vs x) refl
  convert_exact (obj fs) x = rw (convert_fields_exact fs x) refl
  convert_exact (opaque s) x = absurd x
  convert_exact (back n) x = absurd x

  convert_all_exact : (vs : Values) → AreExact is_rounded vs → convert_all vs ≡ ok vs
  convert_all_exact nil x = refl
  convert_all_exact (cons v vs) x = rw (convert_exact v x.0, convert_all_exact vs x.1) refl

  convert_fields_exact : (fs : Fields) → FieldsExact is_rounded fs → convert_fields fs ≡ ok fs
  convert_fields_exact end x = refl
  convert_fields_exact (field k v fs) x = rw (convert_exact v x.0, convert_fields_exact fs x.1) refl

unfoldable convert_map : GoMap Value → Result (GoMap Value)
convert_map [] = ok []
convert_map ((k, v) ∷ m) = convert v >>= λ u. convert_map m >>= λ l. ok ((k, u) ∷ l)

convert_map_exact : (m : GoMap Value) → MapExact is_rounded m → convert_map m ≡ ok m
unfolding convert_map
convert_map_exact [] x = refl
convert_map_exact ((k, v) ∷ m) x = rw (convert_exact v x.0, convert_map_exact m x.1) refl

abbrev plain : ProtoLib
plain = record {
  Struct = GoMap Value;
  StructValue = Value;
  Timestamp = ℕ;
  new_struct = convert_map;
  as_map = λ s. s;
  new_value = convert;
  as_interface = λ v. v;
  new_timestamp = λ t. t;
  as_time = λ t. t;
}

plain-IsProtoLib : IsProtoLib plain is_rounded
plain-IsProtoLib = record {
  as_map-new_struct = λ m s x h. let is = convert_map_exact m x in ground arith;
  as_interface-new_value = λ v p x h. let is = convert_exact v x in ground arith;
  as_time-new_timestamp = λ t. refl;
}

-- metadata with a number
abbrev budget : Metadata
budget = some (("budget", number "2") ∷ ("tags", arr (cons (text "x") nil)) ∷ [])

abbrev paid : Task
paid = record job { metadata = budget }

proto_runs : Unit {0}
unfolding convert convert_all convert_fields convert_map to_proto_map to_proto_content to_proto_part
    to_proto_parts to_proto_message to_proto_messages to_proto_task_status to_proto_task_state
    to_proto_artifacts to_proto_task to_proto_stream_response to_proto_role
proto_runs = tt

-- the payload that the sample task is sent as
sent : Option (PbPayload plain)
unfolding proto_runs
sent = elim (to_proto_stream_response plain (task paid)) [ ok p ↦ p | err f ↦ none ]

sent_is : to_proto_stream_response plain (task paid) ≡ ok sent
unfolding sent
sent_is = refl

paid-IsEvent : IsEvent is_rounded (task paid)
paid-IsEvent = record {
  id_set = λ h. ground (arith, eq_iff "t1" "");
  status_message = record {
    id_set = λ h. ground (arith, eq_iff "m1" "");
    role_known = inr refl;
    parts_exact = ((tt, tt), tt);
    metadata_exact = tt;
  };
  artifacts_good = tt;
  past_messages = (
    record {
      id_set = λ h. ground (arith, eq_iff "m0" "");
      role_known = inl refl;
      parts_exact = ((tt, tt), tt);
      metadata_exact = tt;
    },
    tt,
  );
  metadata_exact = (refl, ((tt, tt), tt));
}

from_proto_stream_response-to_proto_stream_response_example :
    from_proto_stream_response plain sent ≡ ok (task paid)
from_proto_stream_response-to_proto_stream_response_example =
    from_proto_stream_response-to_proto_stream_response plain is_rounded plain-IsProtoLib
      (task paid) sent paid-IsEvent sent_is

-- a history length that does not fit in 32 bits
abbrev long : GetTaskRequest
long = record { tenant = ""; id = "t1"; history_length = some (pos 4294967301) }

abbrev short : PbGetTaskRequest
short = record { tenant = ""; id = "t1"; history_length = some (pos 5) }

long_is_short : to_proto_get_task_request long ≡ ok short
unfolding to_proto_get_task_request to_int32
long_is_short = refl

from_proto_get_task_request-to_proto_get_task_request_example :
    (from_proto_get_task_request short ≡ ok long) ↔ (4294967301 < 2147483648)
from_proto_get_task_request-to_proto_get_task_request_example =
    from_proto_get_task_request-to_proto_get_task_request long short
      (λ h. ground (arith, eq_iff "t1" "")) long_is_short

abbrev request : SendMessageRequest
request = record {
  tenant = "acme";
  config = some (record {
    accepted_output_modes = "text/plain" ∷ [];
    return_immediately = true;
    history_length = some (pos 3);
    push_config = some (record {
      tenant = "acme";
      id = "p1";
      task_id = "t1";
      auth = some (record { credentials = "key"; scheme = "Bearer" });
      token = "";
      url = "https://example.com";
    });
  });
  message = some (said "m9" "go on");
  metadata = budget;
}

abbrev sent_request : PbSendMessageRequest plain
sent_request = record {
  tenant = "acme";
  message = some (record {
    message_id = "m9";
    context_id = "ctx";
    task_id = "t1";
    role = 2;
    parts =
        record { content = some (pb_text "go on"); metadata = none; filename = ""; media_type = "" }
        ∷ [];
    metadata = none;
    extensions = [];
    reference_task_ids = [];
  });
  configuration = some (record {
    accepted_output_modes = "text/plain" ∷ [];
    task_push_notification_config = some (record {
      tenant = "acme";
      task_id = "t1";
      id = "p1";
      url = "https://example.com";
      token = "";
      authentication = some (record { scheme = "Bearer"; credentials = "key" });
    });
    history_length = some (pos 3);
    return_immediately = true;
  });
  metadata = budget;
}

request_sent : to_proto_send_message_request plain request ≡ ok sent_request
unfolding proto_runs to_proto_send_message_request to_proto_send_config to_proto_push_config
    to_proto_auth to_int32
request_sent = refl

from_proto_send_message_request-to_proto_send_message_request_example :
    from_proto_send_message_request plain sent_request ≡ ok request
from_proto_send_message_request-to_proto_send_message_request_example =
    from_proto_send_message_request-to_proto_send_message_request plain is_rounded plain-IsProtoLib
      request (said "m9" "go on") sent_request refl
      (record {
        id_set = λ h. ground (arith, eq_iff "m9" "");
        role_known = inr refl;
        parts_exact = ((tt, tt), tt);
        metadata_exact = tt;
      })
      (refl, ((tt, tt), tt))
      (
        omega arith,
        (
          λ h. ground (arith, eq_iff "https://example.com" ""),
          λ h. ground (arith, eq_iff "Bearer" ""),
        ),
      )
      request_sent
