-- ===== src/Server/Sound.antt =====
-- What every call of the processor of a2asrv/agentexec.go keeps, whether it succeeds or not.
use a2a_go.Base.{
  ℕ, Bool, true, ◌≡◌, ◌≢◌, inl, inr, ap, sym, ◌∙◌, subst, arith, Bool-cases, Option-cases, Fault,
  Result, Result-cases, ok, err,
}
use a2a_go.Core.{Task, Message, Event, message, task, status_update, artifact_update, TaskInfo}
use a2a_go.TaskStore.Api.{Store}
use a2a_go.TaskUpdate.Manager.{
  Manager, process, set_task_failed, in_memory_snapshot, is_concurrent_modification,
}
use a2a_go.TaskUpdate.Laws.{IsStore, IsTracking, KeepsId}
use a2a_go.TaskUpdate.Steady.{IsSteady, process-IsSteady, set_task_failed-IsSteady}
use a2a_go.Server.Processor.{
  Processed, Setup, send_push_notifications, load_result, fail_task, process_event,
}
use a2a_go.Server.Results.{copies}
use a2a_go.Server.Applied.{process_event-Ending, failing_event}

module _ (store : Store) (s : Setup store) (laws : IsStore store) (keeps : KeepsId s.materializer)
    (faithful : (t u : Task) → s.deep_copy t ≡ ok u → u ≡ t) where
  open store use {World}

  -- The manager is the one that was made for the processor's task, over a store in order.
  pub record IsSound (m : Manager) (w : World) : Type 0 where
    pub good : laws.Good w
    pub named : m.info.task_id ≡ s.task_id
    pub tracking : IsTracking m

  Ends : Processed store s → Type 0
  Ends out = IsSound out.1 out.2

  steady-IsSound :
      (m : Manager) (w : World) (o : Result ℕ × Manager × World)
      → IsSound m w
      → IsSteady store s.deep_copy s.materializer laws keeps
          (copies store s laws keeps faithful)
          m
          o
      → IsSound o.1 o.2
  steady-IsSound m w o sound steady = record {
    good = steady.good;
    named = ap (λ (i : TaskInfo). i.task_id) steady.same ∙ sound.named;
    tracking = steady.tracking;
  }

  read-IsSound : (m : Manager) (w : World) → IsSound m w → IsSound m (store.get s.task_id w).1
  read-IsSound m w sound = record {
    good = laws.good-get s.task_id w sound.good;
    named = sound.named;
    tracking = sound.tracking;
  }

  load_result-IsSound : (m : Manager) (w : World) → IsSound m w → Ends (load_result store s m w)
  unfolding load_result Ends
  load_result-IsSound m w sound =
      let out = load_result store s m w in
      elim (Option-cases (in_memory_snapshot s.materializer m)) [
        | inl p ↦ elim (Result-cases (store.get s.task_id w).0) [
          | inl (f, q) ↦
              let is : (out.0, m, (store.get s.task_id w).1) ≡ out = ground arith in
              subst Ends is (read-IsSound m w sound)
          | inr (st, q) ↦
              let is : (out.0, m, (store.get s.task_id w).1) ≡ out = ground arith in
              subst Ends is (read-IsSound m w sound)
        ]
        | inr (x, p) ↦ let is : (out.0, m, w) ≡ out = ground arith in subst Ends is sound
      ]

  failed-IsSound :
      (m : Manager) (w : World)
      → IsSound m w
      → let o = set_task_failed store s.deep_copy s.materializer m s.now w in IsSound o.1 o.2
  failed-IsSound m w sound =
      let o = set_task_failed store s.deep_copy s.materializer m s.now w in
      steady-IsSound m w o sound (
        set_task_failed-IsSteady store s.deep_copy s.materializer laws keeps
          (copies store s laws keeps faithful) m s.now w sound.good sound.tracking)

  fail_task-IsSound :
      (f : Fault) (m : Manager) (w : World) → IsSound m w → Ends (fail_task store s f m w)
  unfolding fail_task Ends
  fail_task-IsSound f m w sound =
      let out = fail_task store s f m w in
      let o = set_task_failed store s.deep_copy s.materializer m s.now w in
      let sound' = failed-IsSound m w sound in
      elim (Result-cases o.0) [
        | inl (g, p) ↦ let is : (out.0, o.1, o.2) ≡ out = ground arith in subst Ends is sound'
        | inr (v, p) ↦
            let l = load_result store s o.1 o.2 in
            let loaded = load_result-IsSound o.1 o.2 sound' in
            elim (Result-cases l.0) [
              | inl (g, q) ↦ let is : (out.0, l.1, l.2) ≡ out = ground arith in subst Ends is loaded
              | inr (r, q) ↦ let is : (out.0, l.1, l.2) ≡ out = ground arith in subst Ends is loaded
            ]
      ]

  -- an event that was applied or passed on
  accepted-IsSound :
      (e : Event) (is_init : Bool) (m : Manager) (w : World) (v : ℕ)
      → let o = process store s.deep_copy s.materializer m e is_init w in
        (o.0 ≡ ok v)
        → IsSound o.1 o.2
        → ((x : Message) → e ≢ message x)
        → Ends (process_event store s e is_init m w)
  unfolding Ends
  accepted-IsSound e is_init m w v h sound other_event =
      let o = process store s.deep_copy s.materializer m e is_init w in
      elim (process_event-Ending store s laws keeps faithful e is_init m w v other_event h) [
        | inl (f, is) ↦ subst Ends (sym is) (fail_task-IsSound f o.1 o.2 sound)
        | inr (inl is) ↦ subst Ends (sym is) sound
        | inr (inr is) ↦ subst Ends (sym is) (load_result-IsSound o.1 o.2 sound)
      ]

  passed_on :
      (x : Message) (is_init : Bool) (m : Manager) (w : World) (v : ℕ)
      → let o = process store s.deep_copy s.materializer m (message x) is_init w in
        (o.0 ≡ ok v)
        → let out = process_event store s (message x) is_init m w in (out.0, o.1, o.2) ≡ out
  unfolding process_event
  passed_on x is_init m w v h = elim (Result-cases (send_push_notifications store s (message x))) [
    | inl (f, p) ↦ ground arith
    | inr (u, p) ↦ ground arith
  ]

  accepted :
      (e : Event) (is_init : Bool) (m : Manager) (w : World) (v : ℕ)
      → let o = process store s.deep_copy s.materializer m e is_init w in
        (o.0 ≡ ok v) → IsSound o.1 o.2 → Ends (process_event store s e is_init m w)
  unfolding Ends
  accepted (message x) is_init m w v h sound = subst Ends (passed_on x is_init m w v h) sound
  accepted (task x) is_init m w v h sound =
      accepted-IsSound (task x) is_init m w v h sound (λ y n. cc)
  accepted (status_update x) is_init m w v h sound =
      accepted-IsSound (status_update x) is_init m w v h sound (λ y n. cc)
  accepted (artifact_update x) is_init m w v h sound =
      accepted-IsSound (artifact_update x) is_init m w v h sound (λ y n. cc)

  reloaded :
      (e : Event) (is_init : Bool) (m : Manager) (w : World) (f : Fault)
      → let o = process store s.deep_copy s.materializer m e is_init w in
        (o.0 ≡ err f)
        → (is_concurrent_modification f ≡ true)
        → let out = process_event store s e is_init m w in
          (out.0, o.1, (store.get s.task_id o.2).1) ≡ out
  unfolding process_event
  reloaded e is_init m w f h c =
      let o = process store s.deep_copy s.materializer m e is_init w in
      elim (Result-cases (store.get s.task_id o.2).0) [
        | inl (k, p) ↦ ground arith
        | inr (st, p) ↦ ground arith
      ]

  pub process_event-IsSound :
      (e : Event) (is_init : Bool) (m : Manager) (w : World)
      → IsSound m w
      → IsSound (process_event store s e is_init m w).1 (process_event store s e is_init m w).2
  unfolding Ends
  process_event-IsSound e is_init m w sound =
      let o = process store s.deep_copy s.materializer m e is_init w in
      let sound' = steady-IsSound m w o sound (
        process-IsSteady store s.deep_copy s.materializer laws keeps
          (copies store s laws keeps faithful) m e is_init w sound.good sound.tracking) in
      elim (Result-cases o.0) [
        | inl (f, h) ↦ elim (Bool-cases (is_concurrent_modification f)) [
          | inl c ↦ subst Ends (reloaded e is_init m w f h c) (read-IsSound o.1 o.2 sound')
          | inr c ↦
              subst Ends (sym (failing_event store s laws keeps faithful e is_init m w f h c))
                (fail_task-IsSound f o.1 o.2 sound')
        ]
        | inr (v, h) ↦ accepted e is_init m w v h sound'
      ]
