-- ===== src/Tests/Events.antt =====
-- Runs and instances for the event functions.
use a2a_go.Base.{true, Option, some, List, [], ◌∷◌, ◌++◌, ◌≡◌, ◌≢◌, ◌≤◌, inr, refl, length, any, ok}
use a2a_go.Core.{Message, status_update, new_artifact_update_event}
use a2a_go.Events.Apply.{
  find_artifact, apply_artifact_update, apply_status_update, apply_shallow_update, validate_update,
  is_final, has_id,
}
use a2a_go.Events.Artifacts.{IsDistinct, apply_artifact_update-IsDistinct}
use a2a_go.Events.Chunks.{joined, apply_artifact_update-chunk}
use a2a_go.Events.History.{NoRepeat, apply_status_update-history}
use a2a_go.Events.Lifecycle.{apply_shallow_update-terminal-is_final}
use a2a_go.Tests.Data.{job, info, report_event, reported, done_event, text_part}

report_applied : apply_artifact_update job report_event ≡ ok reported
unfolding apply_artifact_update find_artifact
report_applied = refl

done_applied :
    apply_shallow_update job (status_update done_event) ≡ ok (apply_status_update job done_event)
unfolding apply_shallow_update validate_update
done_applied = refl

apply_artifact_update-IsDistinct_example : IsDistinct reported.artifacts
apply_artifact_update-IsDistinct_example =
    apply_artifact_update-IsDistinct job reported report_event report_applied tt

apply_artifact_update-chunk_example :
    apply_artifact_update reported (new_artifact_update_event info "a1" (text_part "two" ∷ []))
    ≡ apply_artifact_update job (joined report_event (text_part "two" ∷ []))
apply_artifact_update-chunk_example =
    apply_artifact_update-chunk job reported report_event info (text_part "two") [] report_applied

job-NoRepeat : NoRepeat job.history
unfolding any
job-NoRepeat = (inr refl, tt)

apply_status_update-history_example :
    ((ext : List (Option Message)) × ((apply_status_update job done_event).history
        ≡ job.history ++ ext)
      × (length ext ≤ 1))
    × ((m : Message)
        → job.status.message ≡ some m
        → m.id ≢ ""
        → any (has_id m.id) (apply_status_update job done_event).history ≡ true)
apply_status_update-history_example = apply_status_update-history job done_event

apply_shallow_update-terminal-is_final_example : is_final (status_update done_event) ≡ true
apply_shallow_update-terminal-is_final_example =
    apply_shallow_update-terminal-is_final job (apply_status_update job done_event)
      (status_update done_event) done_applied (unfold apply_status_update in refl)
