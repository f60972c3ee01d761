-- ===== src/Tests/Data.antt =====
-- Sample tasks, events, callers and a sample page-token codec.

use text.Mathlib.TextLemmas.{cons≢nil}
use a2a_go.Base.{
  ℕ, zero, suc, String, false, Option, none, some, [], ◌∷◌, ◌≡◌, refl, ap, Result, ok,
}
use a2a_go.Core.{
  working, completed, canceled, role_agent, role_user, Part, text_content, Message, Artifact, Task,
  TaskInfo, TaskStatusUpdateEvent, TaskArtifactUpdateEvent,
}
use a2a_go.TaskStore.Token.{Codec, IsCodec, has_underscore}
use a2a_go.TaskStore.InMemory.{Caller, Entry}

abbrev pub text_part : String → Part
text_part s = record {
  content = some (text_content s);
  filename = "";
  media_type = "";
  metadata = none;
}

abbrev pub said : String → String → Message
said id body = record {
  id = id;
  context_id = "ctx";
  extensions = [];
  metadata = none;
  parts = text_part body ∷ [];
  reference_tasks = [];
  role = role_agent;
  task_id = "t1";
}

abbrev pub asked : Message
asked = record (said "m0" "hello") { role = role_user }

abbrev pub job : Task
job = record {
  id = "t1";
  artifacts = [];
  context_id = "ctx";
  history = some asked ∷ [];
  metadata = none;
  status = record { message = some (said "m1" "on it"); state = working; timestamp = some 5 };
}

abbrev pub info : TaskInfo
info = record { task_id = "t1"; context_id = "ctx" }

abbrev pub report : Artifact
report = record {
  id = "a1";
  description = "";
  extensions = [];
  metadata = none;
  name = "report";
  parts = text_part "one" ∷ [];
}

abbrev pub report_event : TaskArtifactUpdateEvent
report_event = record {
  append = false;
  artifact = report;
  context_id = "ctx";
  last_chunk = false;
  task_id = "t1";
  metadata = none;
}

abbrev pub reported : Task
reported = record job { artifacts = report ∷ [] }

abbrev pub done_event : TaskStatusUpdateEvent
done_event = record {
  context_id = "ctx";
  status = record { message = none; state = completed; timestamp = some 9 };
  task_id = "t1";
  metadata = none;
}

abbrev pub cancel_event : TaskStatusUpdateEvent
cancel_event = record done_event {
  status = record { message = none; state = canceled; timestamp = some 9 };
}

-- a copy that gives back what it copies
abbrev pub copy_all : Task → Result Task
copy_all t = ok t

abbrev pub alice : Caller
alice = record { user = ok "alice"; now = 7 }

abbrev pub bob : Caller
bob = record { user = ok "bob"; now = 8 }

abbrev pub entry_of : String → ℕ → Entry
entry_of id time = record {
  task = record job { id = id };
  version = 1;
  user = "alice";
  last_updated = time;
}

-- instants in unary, and a text made longer by one character
ticks : ℕ → String
ticks zero = ""
ticks (suc n) = String.◌∷◌ "a" (ticks n)

count_ticks : String → ℕ
count_ticks String.[] = 0
count_ticks (String.◌∷◌ c s) = suc (count_ticks s)

drop_first : String → Option String
drop_first String.[] = none
drop_first (String.◌∷◌ c s) = some s

pub sample_codec : Codec
sample_codec = record {
  encode = String.◌∷◌ "!";
  decode = drop_first;
  format_time = ticks;
  parse_time = λ s. some (count_ticks s);
}

ticks-plain : (n : ℕ) → has_underscore (ticks n) ≡ false
unfolding ticks
ticks-plain zero = refl
ticks-plain (suc n) = ticks-plain n

count-ticks : (n : ℕ) → count_ticks (ticks n) ≡ n
unfolding ticks count_ticks
count-ticks zero = refl
count-ticks (suc n) = ap suc (count-ticks n)

pub sample_codec-IsCodec : IsCodec sample_codec
unfolding sample_codec drop_first
sample_codec-IsCodec = record {
  decode-encode = λ s. refl;
  encode-ne-nil = λ s h e. cons≢nil e;
  parse-format = λ t. ap some (count-ticks t);
  format_plain = ticks-plain;
}
