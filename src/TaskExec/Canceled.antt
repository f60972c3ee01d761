-- ===== src/TaskExec/Canceled.antt =====
-- What a cancelation of the distributed manager returns and leaves open, internal/taskexec/distributed_manager.go.
use a2a_go.Base.{
  String, Bool, true, false, ◌&&◌, some, List, [], ◌∷◌, if◌then◌else◌, is_some, any, ◌≡◌, inl, inr,
  refl, ap, sym, ◌∙◌, arith, Bool-cases, Result-cases, ok,
}
use a2a_go.Core.{Task, is_canceled}
use a2a_go.TaskStore.Api.{StoredTask}
use a2a_go.TaskExec.Promise.{convert_to_cancelation_result}
use a2a_go.TaskExec.Subscription.{remote_events}
use a2a_go.TaskExec.Distributed.{
  Action, opens, closes, writes, cancel_payload, CancelAnswers, Canceled, cancel, follow, StreamEnd,
  waits, ends_with, breaks, followed,
}
use a2a_go.TaskExec.Readers.{open_after}
use a2a_go.TaskExec.Canceling.{ends_stream, waiting, remote_events-ends, refused, goes}

-- whether a payload was written
abbrev pub has_written : List Action → Bool
has_written [] = false
has_written (writes p ∷ rest) = true
has_written (opens r id ∷ rest) = has_written rest
has_written (closes r ∷ rest) = has_written rest

-- the end of a cancelation from the end of its stream
followed_returns :
    (a : CancelAnswers) (done : List Action) (e : StreamEnd)
    → waiting e ≡ false
    → is_some (followed a done e).0 ≡ true
unfolding followed
followed_returns a done waits h = absurd (ground arith)
followed_returns a done (ends_with t) h = refl
followed_returns a done (breaks f) h = elim (Result-cases a.stored_after) [
  | inl (g, p) ↦ rw p refl
  | inr (st, p) ↦ rw p refl
]

followed_closes :
    (a : CancelAnswers) (id : String) (e : StreamEnd)
    → let x = followed a (opens 0 id ∷ writes (cancel_payload id) ∷ []) e in
      is_some x.0 ≡ true → (open_after [] x.1 ≡ []) × (has_written x.1 ≡ true)
unfolding followed open_after
followed_closes a id waits h = absurd (ground arith)
followed_closes a id (ends_with t) h = (refl, refl)
followed_closes a id (breaks f) h = elim (Result-cases a.stored_after) [
  | inl (g, p) ↦ rw p (refl, refl)
  | inr (st, p) ↦ rw p (refl, refl)
]

followed_canceled :
    (a : CancelAnswers) (done : List Action) (e : StreamEnd) (t : Task)
    → (followed a done e).0 ≡ some (ok t)
    → is_canceled t.status.state ≡ true
unfolding followed convert_to_cancelation_result
followed_canceled a done waits t h = absurd (ground arith)
followed_canceled a done (ends_with u) t h = elim (Bool-cases (is_canceled u.status.state)) [
  | inl e ↦ ground arith
  | inr e ↦ absurd (ground arith)
]
followed_canceled a done (breaks f) t h = elim (Result-cases a.stored_after) [
  | inl (g, p) ↦ absurd (ground arith)
  | inr (st, p) ↦ elim (Bool-cases (is_canceled st.task.status.state)) [
    | inl e ↦ ground arith
    | inr e ↦ absurd (ground arith)
  ]
]

-- `Cancel` returns no task but a canceled one.
pub cancel_only_canceled :
    (id : String) (a : CancelAnswers) (t : Task)
    → (cancel id a).0 ≡ some (ok t)
    → is_canceled t.status.state ≡ true
cancel_only_canceled id a t h = elim (goes id a) [
  | inl (r, is, canceled) ↦ canceled t (ground arith)
  | inr (inl (f, is)) ↦ absurd (ground arith)
  | inr (inr (inl (f, bad, is))) ↦ absurd (ground arith)
  | inr (inr (inr (st, p, fine, is))) ↦
      followed_canceled a _ _ t (ap (λ (x : Canceled). x.0) (sym is) ∙ h)
]

-- `Cancel` returns, once its reader has failed or has brought a final event that is newer than the task
-- was before the payload was written, whatever else it brought before.
pub cancel_returns :
    (id : String) (a : CancelAnswers)
    → ((st : StoredTask) → a.stored ≡ ok st → any (ends_stream st.version) a.reads ≡ true)
    → is_some (cancel id a).0 ≡ true
cancel_returns id a ends = elim (goes id a) [
  | inl (r, is, canceled) ↦ rw is refl
  | inr (inl (f, is)) ↦ rw is refl
  | inr (inr (inl (f, bad, is))) ↦ rw is refl
  | inr (inr (inr (st, p, fine, is))) ↦
      let over = remote_events-ends st.version a.snapshot a.reads (ends st p) in
      rw is (followed_returns a _ _ over)
]

-- When `Cancel` has returned, its reader is still open exactly if the payload was written and the work
-- queue refused it for another reason than a taken lease, or answered for another task.
pub cancel_readers :
    (id : String) (a : CancelAnswers)
    → is_some (cancel id a).0 ≡ true
    → open_after [] (cancel id a).1
      ≡ (if has_written (cancel id a).1 && refused id a.written then 0 ∷ [] else [])
cancel_readers id a over = elim (goes id a) [
  | inl (r, is, canceled) ↦ rw is (unfold open_after in refl)
  | inr (inl (f, is)) ↦ rw is (unfold open_after in refl)
  | inr (inr (inl (f, bad, is))) ↦ rw (is, bad) (unfold open_after in refl)
  | inr (inr (inr (st, p, fine, is))) ↦
      let (closed, wrote) =
        followed_closes a id (follow (remote_events false (some st.version) a.snapshot a.reads))
          (ap (λ (x : Canceled). is_some x.0) (sym is) ∙ over) in
      rw (is, fine, wrote) closed
]
