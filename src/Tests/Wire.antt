-- ===== src/Tests/Wire.antt =====
-- Instances for the JSON forms.
use a2a_go.Base.{
  String, Bool, true, false, ◌||◌, none, some, ◌≡◌, ◌↔◌, refl, if◌then◌else◌, str_eq, Result, ok,
  err, other,
}
use a2a_go.Core.{Value, null, flag, number, Part, data_content, task}
use a2a_go.Wire.Events.{EventWrapper, marshal_event, unmarshal_event, unmarshal_event_iff}
use a2a_go.Wire.Parts.{PartWrapper}
use a2a_go.Tests.Data.{job, text_part}

abbrev job_alone : EventWrapper
job_alone = record {
  message_field = none;
  task_field = some job;
  status_update_field = none;
  artifact_update_field = none;
}

unmarshal_event_iff_example :
    (unmarshal_event job_alone ≡ ok (task job)) ↔ (marshal_event (some (task job)) ≡ ok job_alone)
unmarshal_event_iff_example = unmarshal_event_iff job_alone (task job)

-- JSON for null, the truth values and two numbers, of which the second is no float64
abbrev large : String
large = "9007199254740993"

abbrev rounded : String
rounded = "9007199254740992"

abbrev is_one : String → Bool
is_one s = str_eq s "1"

print_small : Value → Result String
print_small null = ok "null"
print_small (flag true) = ok "true"
print_small (flag false) = ok "false"
print_small (number s) =
    if is_one s || str_eq s large then ok s else err (other "json: invalid number literal")
print_small _ = err (other "json: unsupported value")

parse_small : String → Result Value
parse_small s =
    if str_eq s "null"
    then ok null
    else if str_eq s "true"
    then ok (flag true)
    else if str_eq s "false"
    then ok (flag false)
    else if str_eq s "1"
    then ok (number s)
    else if str_eq s large
    then ok (number rounded)
    else err (other "invalid character")

large_is_rounded :
    (print_small (number large) ≡ ok large) × (parse_small large ≡ ok (number rounded))
unfolding print_small parse_small
large_is_rounded = (refl, refl)

abbrev one : Part
one = record (text_part "") { content = some (data_content (number "1")) }

abbrev one_wrapper : PartWrapper
one_wrapper = record {
  text = none;
  raw = none;
  data_text = "1";
  url = none;
  filename = "";
  media_type = "";
  metadata = none;
}
