-- ===== src/Tests/Store.antt =====
-- Runs and instances for the in-memory store and its listing.
use a2a_go.Base.{
  ◌≤◌, pos, String, true, none, some, List, [], ◌∷◌, ◌≡◌, ◌↔◌, refl, arith, eq_iff, if◌then◌else◌,
  Fault, ok, err, parse_error, Bool-cases, str_eq, inl, inr,
}
use a2a_go.Base.Maps.{lookup, insert}
use a2a_go.Core.{unspecified, status_update}
use a2a_go.TaskStore.Api.{UpdateRequest}
use a2a_go.TaskStore.Validator.{
  validate_task, each, validate_meta, validate_parts, validate_message, TaskPlain,
  validate_task_iff,
}
use a2a_go.TaskStore.InMemory.{Entry, Tasks, prepare, create, update, get}
use a2a_go.TaskStore.Versions.{update_once, shown, get-create}
use a2a_go.TaskStore.Runs.{
  updates, run, after_call, IsWellFormed, run_grows, after_call-IsWellFormed,
}
use a2a_go.TaskStore.Token.{
  has_underscore, encode_page_token, decode_page_token, decode-encode_page_token,
}
use a2a_go.TaskStore.Listing.{ListTasksRequest, sort_tasks, filter_tasks, apply_pagination}
use a2a_go.TaskStore.Pages.{pages, pages_complete, underscore_breaks_paging}
use a2a_go.TaskStore.Sorted.{NewestFirst, listing-NewestFirst}
use a2a_go.Tests.Data.{
  job, done_event, copy_all, alice, bob, entry_of, sample_codec, sample_codec-IsCodec,
}

abbrev job_entry : Entry
job_entry = record { task = job; version = 1; user = "alice"; last_updated = 7 }

abbrev one_task : Tasks
one_task = ("t1", job_entry) ∷ []

abbrev change : UpdateRequest
change = record { task = job; event = status_update done_event; prev_task = job; prev_version = 1 }

one_task-IsWellFormed : IsWellFormed one_task
unfolding lookup
one_task-IsWellFormed = record {
  distinct = (refl, tt);
  keyed = λ id a h. ground (arith, eq_iff "t1" id);
}

create_job : create copy_all alice job [] ≡ (ok 1, one_task)
unfolding create prepare validate_task validate_message validate_parts validate_meta each lookup
    insert
create_job = refl

update_job : (update copy_all alice change one_task).0 ≡ ok 2
unfolding update prepare validate_task validate_message validate_parts validate_meta each lookup
    insert
update_job = refl

update_once_example :
    (e : Fault) × ((update copy_all bob change (update copy_all alice change one_task).1).0 ≡ err e)
    × ((update copy_all bob change (update copy_all alice change one_task).1).1
        ≡ (update copy_all alice change one_task).1)
update_once_example =
    update_once copy_all alice bob change change one_task 2 update_job refl refl (omega arith)

run_grows_example :
    (b : Entry) × (lookup "t1" (run copy_all (updates alice change ∷ []) one_task) ≡ some b)
    × (b.user ≡ "alice")
    × (1 ≤ b.version)
    × ((b.version ≡ 1) → b ≡ job_entry)
run_grows_example =
    run_grows copy_all (updates alice change ∷ []) one_task "t1" job_entry (unfold lookup in refl)
      (omega arith)

after_call-IsWellFormed_example : IsWellFormed (after_call copy_all (updates alice change) one_task)
after_call-IsWellFormed_example =
    after_call-IsWellFormed copy_all (updates alice change) one_task (λ t u h. ground arith)
      one_task-IsWellFormed

get-create_example :
    get copy_all bob "t1" (create copy_all alice job []).1 ≡ shown copy_all bob job_entry
get-create_example =
    get-create copy_all alice bob job [] 1 "alice"
      (unfold create prepare validate_task validate_message validate_parts validate_meta each
          lookup in
        refl)
      refl refl

validate_task_iff_example : (validate_task job ≡ ok tt) ↔ TaskPlain job
validate_task_iff_example = validate_task_iff job

decode-encode_page_token_example :
    decode_page_token sample_codec (encode_page_token sample_codec 3 "a_b")
    ≡ (if has_underscore "a_b" then err parse_error else ok (3, "a_b"))
decode-encode_page_token_example =
    decode-encode_page_token sample_codec 3 "a_b" sample_codec-IsCodec

abbrev three : List Entry
three = entry_of "b" 9 ∷ entry_of "c" 4 ∷ entry_of "a" 4 ∷ []

pages_complete_example : pages sample_codec 2 4 "" three ≡ ok three
pages_complete_example =
    pages_complete sample_codec 2 three sample_codec-IsCodec (omega arith)
      ((refl, (refl, tt)), ((refl, tt), (tt, tt))) (refl, (refl, (refl, tt)))

underscore_breaks_paging_example :
    (next : String) × (apply_pagination sample_codec 1 "" (entry_of "x_y" 9 ∷ entry_of "c" 4 ∷ [])
      ≡ ok (entry_of "x_y" 9 ∷ [], next))
    × (apply_pagination sample_codec 1 next (entry_of "x_y" 9 ∷ entry_of "c" 4 ∷ [])
        ≡ err parse_error)
underscore_breaks_paging_example =
    underscore_breaks_paging sample_codec 1 (entry_of "x_y" 9 ∷ entry_of "c" 4 ∷ []) []
      (entry_of "c" 4 ∷ []) (entry_of "x_y" 9) sample_codec-IsCodec refl refl (λ h. cc) refl

abbrev any_task : ListTasksRequest
any_task = record {
  tenant = "";
  context_id = "";
  status = unspecified;
  page_size = pos 0;
  page_token = "";
  history_length = none;
  status_timestamp_after = none;
  include_artifacts = true;
}

-- two tasks of one instant
abbrev two_tasks : Tasks
two_tasks = ("t1", job_entry) ∷ ("t2", record job_entry { task = record job { id = "t2" } }) ∷ []

two_tasks-IsWellFormed : IsWellFormed two_tasks
unfolding lookup
two_tasks-IsWellFormed = record {
  distinct = (refl, (refl, tt));
  keyed = λ id a h. elim (Bool-cases (str_eq "t1" id)) [
    | inl e ↦ ground (arith, eq_iff "t1" id)
    | inr e ↦ ground (arith, eq_iff "t2" id)
  ];
}

listing-NewestFirst_example : NewestFirst (sort_tasks (filter_tasks two_tasks "alice" any_task))
listing-NewestFirst_example = listing-NewestFirst two_tasks "alice" any_task two_tasks-IsWellFormed
