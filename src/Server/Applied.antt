-- ===== src/Server/Applied.antt =====
-- What one event leaves behind, and a whole run of the loop: a2asrv/agentexec.go and `processEvents` of
-- internal/taskexec/execution_handler.go.
use a2a_go.Base.{
  ℕ, Bool, true, false, none, some, ◌≡◌, ◌≢◌, ◌⊎◌, inl, inr, refl, ap, sym, ◌∙◌, subst, arith,
  Bool-cases, Fault, Result-cases, ok, err,
}
use a2a_go.Core.{
  Task, Message, Event, message, task, status_update, artifact_update, terminal, TaskInfo,
}
use a2a_go.Events.Apply.{is_final}
use a2a_go.TaskStore.Api.{StoredTask, Store}
use a2a_go.TaskUpdate.Manager.{Manager, process, is_concurrent_modification}
use a2a_go.TaskUpdate.Laws.{IsStore, KeepsId}
use a2a_go.TaskUpdate.Stored.{process-Held}
use a2a_go.TaskUpdate.Steady.{process-IsSteady}
use a2a_go.TaskExec.Promise.{task_result, message_result}
use a2a_go.Server.Processor.{
  ProcessorResult, Processed, going_on, Setup, send_push_notifications, load_result, fail_task,
  process_event,
}
use a2a_go.TaskUpdate.Absorbing.{terminal_absorbs}
use a2a_go.Server.Results.{
  IsReady, Shows, load_result-Shows, load_result_some, fail_task_some, Held-InStore, copies,
  fail_task-Shows,
}

module _ (store : Store) (s : Setup store) (laws : IsStore store) where
  open store use {World}

  module _ (keeps : KeepsId s.materializer)
      (faithful : (t u : Task) → s.deep_copy t ≡ ok u → u ≡ t) where
    -- what one processed event leaves
    pub record IsProcessed (r : ProcessorResult) (m : Manager) (w : World) : Type 0 where
      pub shows : Shows store s laws r w
      pub ready : r.execution_result ≡ none → IsReady store s laws m w

    -- how an event that was applied ends
    abbrev pub Ending : ℕ → Manager → World → Processed store s → Type 0
    Ending v m w out =
        ((f : Fault) × (out ≡ fail_task store s f m w))
        ⊎ ((out ≡ (ok (going_on v), m, w)) ⊎ (out ≡ load_result store s m w))

    pub process_event-Ending :
        (e : Event) (is_init : Bool) (m : Manager) (w : World) (v : ℕ)
        → ((x : Message) → e ≢ message x)
        → (process store s.deep_copy s.materializer m e is_init w).0 ≡ ok v
        → Ending v
            (process store s.deep_copy s.materializer m e is_init w).1
            (process store s.deep_copy s.materializer m e is_init w).2
            (process_event store s e is_init m w)
    unfolding process_event
    process_event-Ending (message x) is_init m w v other_event h = absurd (other_event x refl)
    process_event-Ending (task x) is_init m w v other_event h =
        elim (Result-cases (send_push_notifications store s (task x))) [
          | inl (f, p) ↦ inl (f, ground arith)
          | inr (u, p) ↦ elim (Bool-cases (is_final (task x))) [
            | inl z ↦ inr (inr (ground arith))
            | inr z ↦ inr (inl (ground arith))
          ]
        ]
    process_event-Ending (status_update x) is_init m w v other_event h =
        elim (Result-cases (send_push_notifications store s (status_update x))) [
          | inl (f, p) ↦ inl (f, ground arith)
          | inr (u, p) ↦ elim (Bool-cases (is_final (status_update x))) [
            | inl z ↦ inr (inr (ground arith))
            | inr z ↦ inr (inl (ground arith))
          ]
        ]
    process_event-Ending (artifact_update x) is_init m w v other_event h =
        elim (Result-cases (send_push_notifications store s (artifact_update x))) [
          | inl (f, p) ↦ inl (f, ground arith)
          | inr (u, p) ↦ elim (Bool-cases (is_final (artifact_update x))) [
            | inl z ↦ inr (inr (ground arith))
            | inr z ↦ inr (inl (ground arith))
          ]
        ]

    -- the manager after an event that was applied
    processed-IsReady :
        (e : Event) (is_init : Bool) (m : Manager) (w : World) (v : ℕ)
        → ((x : Message) → e ≢ message x)
        → IsReady store s laws m w
        → (process store s.deep_copy s.materializer m e is_init w).0 ≡ ok v
        → IsReady store s laws
            (process store s.deep_copy s.materializer m e is_init w).1
            (process store s.deep_copy s.materializer m e is_init w).2
    processed-IsReady e is_init m w v other_event ready h =
        let o = process store s.deep_copy s.materializer m e is_init w in
        elim (Bool-cases (terminal m.state)) [
          | inl over ↦
              let (same_m, same_w, _, _) =
                terminal_absorbs store s.deep_copy s.materializer m e is_init s.now w over in
              subst (λ (x : Manager). IsReady store s laws x o.2) (sym same_m)
                (subst (IsReady store s laws m) (sym same_w) ready)
          | inr live ↦
              let steady =
                process-IsSteady store s.deep_copy s.materializer laws keeps
                  (copies store s laws keeps faithful) m e is_init w ready.good ready.tracking in
              let named = ap (λ (i : TaskInfo). i.task_id) steady.same ∙ ready.named in
              let held =
                process-Held store s.deep_copy s.materializer laws keeps m e is_init w v faithful
                  ready.good ready.tracking live other_event h in
              record {
                good = steady.good;
                named = named;
                tracking = steady.tracking;
                synced = Held-InStore store s laws o.1 o.2 v held named;
              }
        ]

    applied-IsProcessed :
        (e : Event) (is_init : Bool) (m : Manager) (w : World) (v : ℕ) (r : ProcessorResult)
        → ((x : Message) → e ≢ message x)
        → IsReady store s laws m w
        → (process store s.deep_copy s.materializer m e is_init w).0 ≡ ok v
        → (process_event store s e is_init m w).0 ≡ ok r
        → IsProcessed r
            (process_event store s e is_init m w).1
            (process_event store s e is_init m w).2
    applied-IsProcessed e is_init m w v r other_event ready h g =
        let o = process store s.deep_copy s.materializer m e is_init w in
        let out = process_event store s e is_init m w in
        let next = processed-IsReady e is_init m w v other_event ready h in
        elim (process_event-Ending e is_init m w v other_event h) [
          | inl (f, is) ↦
              let done : (fail_task store s f o.1 o.2).0 ≡ ok r =
                ap (λ (x : Processed store s). x.0) (sym is) ∙ g in
              rw is (record {
                shows =
                    fail_task-Shows store s laws keeps faithful f o.1 o.2 r next.good next.named
                      next.tracking done;
                ready = λ n. absurd (fail_task_some store s laws keeps faithful f o.1 o.2 r done n);
              })
          | inr (inl is) ↦
              let done : going_on v ≡ r = ground arith in
              rw is (record { shows = λ t n. absurd (ground arith); ready = λ n. next })
          | inr (inr is) ↦
              let done : (load_result store s o.1 o.2).0 ≡ ok r =
                ap (λ (x : Processed store s). x.0) (sym is) ∙ g in
              rw is (record {
                shows = load_result-Shows store s laws o.1 o.2 r next done;
                ready = λ n. absurd (load_result_some store s laws keeps faithful o.1 o.2 r done n);
              })
        ]

    -- a conflict with another writer, which the reload resolves or not
    conflict_ending :
        (e : Event) (is_init : Bool) (m : Manager) (w : World) (f : Fault) (r : ProcessorResult)
        → (process store s.deep_copy s.materializer m e is_init w).0 ≡ err f
        → is_concurrent_modification f ≡ true
        → (process_event store s e is_init m w).0 ≡ ok r
        → let o = process store s.deep_copy s.materializer m e is_init w in
          (st : StoredTask) × ((store.get s.task_id o.2).0 ≡ ok st)
          × (r.execution_result ≡ some (task_result st.task))
          × (r.task_version ≡ st.version)
          × ((process_event store s e is_init m w).2 ≡ (store.get s.task_id o.2).1)
    unfolding process_event
    conflict_ending e is_init m w f r h c g =
        let o = process store s.deep_copy s.materializer m e is_init w in
        elim (Result-cases (store.get s.task_id o.2).0) [
          | inl (k, p) ↦ absurd (ground arith)
          | inr (st, p) ↦ elim (Bool-cases (terminal st.task.status.state)) [
            | inl z ↦ (st, p, ground arith, ground arith, ground arith)
            | inr z ↦ absurd (ground arith)
          ]
        ]

    pub failing_event :
        (e : Event) (is_init : Bool) (m : Manager) (w : World) (f : Fault)
        → (process store s.deep_copy s.materializer m e is_init w).0 ≡ err f
        → is_concurrent_modification f ≡ false
        → let o = process store s.deep_copy s.materializer m e is_init w in
          process_event store s e is_init m w ≡ fail_task store s f o.1 o.2
    unfolding process_event
    failing_event (message x) is_init m w f h c = ground arith
    failing_event (task x) is_init m w f h c = ground arith
    failing_event (status_update x) is_init m w f h c = ground arith
    failing_event (artifact_update x) is_init m w f h c = ground arith

    message_event :
        (x : Message) (is_init : Bool) (m : Manager) (w : World) (v : ℕ) (r : ProcessorResult)
        → (process store s.deep_copy s.materializer m (message x) is_init w).0 ≡ ok v
        → (process_event store s (message x) is_init m w).0 ≡ ok r
        → r.execution_result ≡ some (message_result x)
    unfolding process_event
    message_event x is_init m w v r h g =
        elim (Result-cases (send_push_notifications store s (message x))) [
          | inl (f, p) ↦ absurd (ground arith)
          | inr (u, p) ↦ ground arith
        ]

    -- an event that was applied or, for a message, passed on
    accepted-IsProcessed :
        (e : Event) (is_init : Bool) (m : Manager) (w : World) (v : ℕ) (r : ProcessorResult)
        → IsReady store s laws m w
        → (process store s.deep_copy s.materializer m e is_init w).0 ≡ ok v
        → (process_event store s e is_init m w).0 ≡ ok r
        → IsProcessed r
            (process_event store s e is_init m w).1
            (process_event store s e is_init m w).2
    accepted-IsProcessed (message x) is_init m w v r ready h g =
        let is = message_event x is_init m w v r h g in
        record { shows = λ t n. absurd (ground arith); ready = λ n. absurd (cc) }
    accepted-IsProcessed (task x) is_init m w v r ready h g =
        applied-IsProcessed (task x) is_init m w v r (λ y n. cc) ready h g
    accepted-IsProcessed (status_update x) is_init m w v r ready h g =
        applied-IsProcessed (status_update x) is_init m w v r (λ y n. cc) ready h g
    accepted-IsProcessed (artifact_update x) is_init m w v r ready h g =
        applied-IsProcessed (artifact_update x) is_init m w v r (λ y n. cc) ready h g

    -- What an event leaves, whatever it is and however it was processed: a task that is the result is
    -- the stored one, and without a result the next event finds the manager and the store in step.
    pub process_event-IsProcessed :
        (e : Event) (is_init : Bool) (m : Manager) (w : World) (r : ProcessorResult)
        → IsReady store s laws m w
        → (process_event store s e is_init m w).0 ≡ ok r
        → IsProcessed r
            (process_event store s e is_init m w).1
            (process_event store s e is_init m w).2
    process_event-IsProcessed e is_init m w r ready g =
        let o = process store s.deep_copy s.materializer m e is_init w in
        let steady =
          process-IsSteady store s.deep_copy s.materializer laws keeps
            (copies store s laws keeps faithful) m e is_init w ready.good ready.tracking in
        let named = ap (λ (i : TaskInfo). i.task_id) steady.same ∙ ready.named in
        elim (Result-cases o.0) [
          | inl (f, h) ↦ elim (Bool-cases (is_concurrent_modification f)) [
            | inl c ↦
                let (st, got, is, at, after_w) = conflict_ending e is_init m w f r h c g in
                let (again, _) = laws.get-get s.task_id o.2 st steady.good got in
                record {
                  shows = λ t n.
                      let same : st.task ≡ t = ground arith in rw after_w (st, again, same, sym at);
                  ready = λ n. absurd (ground arith);
                }
            | inr c ↦
                let is = failing_event e is_init m w f h c in
                let done : (fail_task store s f o.1 o.2).0 ≡ ok r =
                  ap (λ (x : Processed store s). x.0) (sym is) ∙ g in
                rw is (record {
                  shows =
                      fail_task-Shows store s laws keeps faithful f o.1 o.2 r steady.good named
                        steady.tracking done;
                  ready =
                      λ n. absurd (fail_task_some store s laws keeps faithful f o.1 o.2 r done n);
                })
          ]
          | inr (v, h) ↦ accepted-IsProcessed e is_init m w v r ready h g
        ]
