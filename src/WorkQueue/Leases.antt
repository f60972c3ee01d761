-- ===== src/WorkQueue/Leases.antt =====
-- Which leases exclude each other, and what a release gives back, a2asrv/workqueue/lease.go.
use a2a_go.Base.{
  String, Bool, true, false, none, some, if◌then◌else◌, str_eq, eq_iff, eq_refl, ◌≡◌, ◌↔◌, inl, inr,
  refl, ◌∙◌, arith, Bool-cases, Option-cases, Fault, ok, err,
}
use a2a_go.Base.Maps.{lookup, insert, remove, lookup-insert, lookup-insert_self, lookup-remove}
use a2a_go.WorkQueue.Lease.{
  Payload, is_execute, LeaseManager, Lease, token_map, with_token_map, grant, is_taken, new_lease,
  acquire, release,
}

module _ {Pointer : Type 0} where
  -- No lease of the payload's task that excludes the asked one is held: an execution excludes an
  -- execution, a cancelation excludes both.
  abbrev pub IsFree : Payload → LeaseManager Pointer → Type 0
  IsFree p q =
      (lookup p.task_id q.cancelations ≡ none)
      × ((is_execute p ≡ true) → lookup p.task_id q.executions ≡ none)

  -- A lease is given exactly when none is held that excludes it: for an execution neither an
  -- execution nor a cancelation of the task, for a cancelation no cancelation. The one that is
  -- refused changes nothing.
  pub acquire_iff :
      (p : Payload) (token : Pointer) (q : LeaseManager Pointer)
      → (IsFree p q ↔ ((acquire p token q).0 ≡ ok (new_lease p token)))
        × ((f : Fault) → (acquire p token q).0 ≡ err f → (acquire p token q).1 ≡ q)
  unfolding acquire
  acquire_iff p token q = (
    elim (Bool-cases (is_execute p)) [
      | inl e ↦ elim (Option-cases (lookup p.task_id q.cancelations)) [
        | inl c ↦ elim (Option-cases (lookup p.task_id q.executions)) [
          | inl x ↦ (λ h. rw (e, x, c) refl, λ h. (c, λ _. x))
          | inr (t, x) ↦ (λ h. absurd (ground (arith, h.1 e)), λ h. absurd (ground arith))
        ]
        | inr (t, c) ↦ (λ h. absurd (ground arith), λ h. absurd (ground arith))
      ]
      | inr e ↦ elim (Option-cases (lookup p.task_id q.cancelations)) [
        | inl c ↦ (λ h. rw (e, c) refl, λ h. (c, λ x. absurd (ground arith)))
        | inr (t, c) ↦ (λ h. absurd (ground arith), λ h. absurd (ground arith))
      ]
    ],
    λ f h. elim (Bool-cases (is_taken (is_execute p) p.task_id q)) [
      | inl e ↦ ground arith
      | inr e ↦ absurd (ground arith)
    ],
  )

  -- what a lease that was given holds
  pub acquire_ok :
      (p : Payload) (token : Pointer) (q : LeaseManager Pointer) (l : Lease Pointer)
      → (acquire p token q).0 ≡ ok l
      → (l ≡ new_lease p token) × ((acquire p token q).1 ≡ grant (is_execute p) p.task_id token q)
  unfolding acquire
  acquire_ok p token q l h = elim (Bool-cases (is_taken (is_execute p) p.task_id q)) [
    | inl e ↦ absurd (ground arith)
    | inr e ↦ (ground arith, ground arith)
  ]

  token_map-grant :
      (executing : Bool) (tid j : String) (token : Pointer) (q : LeaseManager Pointer)
      → lookup j (token_map executing (grant executing tid token q))
        ≡ (if str_eq tid j then some token else lookup j (token_map executing q))
  token_map-grant true tid j token q = lookup-insert tid j token q.executions
  token_map-grant false tid j token q = lookup-insert tid j token q.cancelations

  removed :
      (executing : Bool) (tid j : String) (q : LeaseManager Pointer)
      → lookup j
          (token_map executing (with_token_map executing (remove tid (token_map executing q)) q))
        ≡ (if str_eq tid j then none else lookup j (token_map executing q))
  removed true tid j q = lookup-remove tid j q.executions
  removed false tid j q = lookup-remove tid j q.cancelations

  lookup-release :
      (same : Pointer → Pointer → Bool) (l : Lease Pointer) (t : Pointer) (q : LeaseManager Pointer)
      → lookup l.tid (token_map l.executing q) ≡ some t
      → lookup l.tid (token_map l.executing (release same l q))
        ≡ (if same t l.token then none else some t)
  unfolding release
  lookup-release same l t q h = elim (Bool-cases (same t l.token)) [
    | inl e ↦ rw (h, e) (removed l.executing l.tid l.tid q ∙ rw (eq_refl l.tid) refl)
    | inr e ↦ rw (h, e) h
  ]

  -- A lease that is released once more, after the same kind of lease of the same task was given to
  -- another, takes that one away exactly if the pointers of the two tokens compare as equal.
  pub release_again :
      (same : Pointer → Pointer → Bool) (first : Lease Pointer) (p : Payload) (token : Pointer)
      (q : LeaseManager Pointer)
      → (acquire p token q).0 ≡ ok (new_lease p token)
      → first.tid ≡ p.task_id
      → first.executing ≡ is_execute p
      → lookup first.tid (token_map first.executing (release same first (acquire p token q).1))
        ≡ (if same token first.token then none else some token)
  release_again same first p token q given of_task of_kind =
      let stored : (acquire p token q).1 ≡ grant (is_execute p) p.task_id token q =
        (acquire_ok p token q _ given).1 in
      let held : lookup first.tid (token_map first.executing (acquire p token q).1) ≡ some token =
        rw (stored, of_task, of_kind)
          (token_map-grant (is_execute p) p.task_id p.task_id token q
            ∙ rw (eq_refl p.task_id) refl) in
      lookup-release same first token (acquire p token q).1 held

  pub acquire_absent :
      (p : Payload) (token : Pointer) (q : LeaseManager Pointer)
      → (acquire p token q).0 ≡ ok (new_lease p token)
      → lookup p.task_id (token_map (is_execute p) q) ≡ none
  acquire_absent p token q given =
      let (canceling, executing) = (acquire_iff p token q).0.1 given in
      elim (Bool-cases (is_execute p)) [ inl e ↦ rw e (executing e) | inr e ↦ rw e canceling ]

  release-grant :
      (same : Pointer → Pointer → Bool) (tid : String) (token : Pointer) (q : LeaseManager Pointer)
      (k executing : Bool) (j : String)
      → same token token ≡ true
      → lookup tid (token_map k q) ≡ none
      → lookup j (
          token_map executing (
            release same
              (record { tid = tid; executing = k; token = token })
              (grant k tid token q)))
        ≡ lookup j (token_map executing q)
  unfolding release
  release-grant same tid token q true true j r free =
      let stored = lookup-insert_self tid token q.executions in
      rw (stored, r)
        (lookup-remove tid j (insert tid token q.executions)
          ∙ ground (arith, lookup-insert tid j token q.executions, eq_iff tid j))
  release-grant same tid token q false false j r free =
      let stored = lookup-insert_self tid token q.cancelations in
      rw (stored, r)
        (lookup-remove tid j (insert tid token q.cancelations)
          ∙ ground (arith, lookup-insert tid j token q.cancelations, eq_iff tid j))
  release-grant same tid token q true false j r free =
      rw (lookup-insert_self tid token q.executions, r) refl
  release-grant same tid token q false true j r free =
      rw (lookup-insert_self tid token q.cancelations, r) refl

  -- What one lease took, its release gives back: the token maps read as before for every task.
  pub release-acquire :
      (same : Pointer → Pointer → Bool) (p : Payload) (token : Pointer) (q : LeaseManager Pointer)
      (executing : Bool) (j : String)
      → same token token ≡ true
      → (acquire p token q).0 ≡ ok (new_lease p token)
      → lookup j (token_map executing (release same (new_lease p token) (acquire p token q).1))
        ≡ lookup j (token_map executing q)
  release-acquire same p token q executing j r given = rw ((acquire_ok p token q _ given).1) (
      release-grant same p.task_id token q (is_execute p) executing j r
        (acquire_absent p token q given))
