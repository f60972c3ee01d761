-- ===== src/Server/Loading.antt =====
-- The execution context that a2asrv/agentexec.go loads starts from the task that is stored.
use a2a_go.Base.{
  ℕ, String, not, ◌&&◌, some, str_eq, ◌≡◌, inl, inr, refl, ◌∙◌, subst, arith, Bool-cases,
  Option-cases, Fault, Result, Result-cases, ok, err,
}
use a2a_go.Core.{Task, Message, message, terminal}
use a2a_go.Events.Apply.{apply_shallow_update}
use a2a_go.Events.Lifecycle.{apply_shallow_update-keeps_identity}
use a2a_go.TaskStore.Api.{StoredTask, UpdateRequest, Store}
use a2a_go.TaskUpdate.Laws.{IsStore, KeepsId}
use a2a_go.TaskExec.Subscription.{is_not_found}
use a2a_go.Proto.Sending.{SendMessageRequest}
use a2a_go.Server.Processor.{Setup}
use a2a_go.Server.Results.{InStore}
use a2a_go.Server.Context.{
  ExecutionContext, Factory, create_new_execution_context, resumed, in_history, update_history,
  resume, load_execution_context,
}

module _ (store : Store) (s : Setup store) (laws : IsStore store) (keeps : KeepsId s.materializer)
    (faithful : (t u : Task) → s.deep_copy t ≡ ok u → u ≡ t) where
  open store use {World}

  -- The context is for the processor's task, and the task that it starts from is the stored one.
  pub record IsLoaded (x : ExecutionContext) (w : World) : Type 0 where
    pub good : laws.Good w
    pub named : x.task_id ≡ s.task_id
    pub fresh : (st : StoredTask) → x.task ≡ some st → InStore store s laws w st.task st.version

  abbrev pub Loads : Result ExecutionContext × World → Type 0
  Loads o = laws.Good o.1 × ((x : ExecutionContext) → o.0 ≡ ok x → IsLoaded x o.1)

  new-Loads :
      (f : Factory) (req : SendMessageRequest) (m : Message) (w : World)
      → laws.Good w
      → Loads (ok (create_new_execution_context f s.task_id req m), w)
  unfolding create_new_execution_context
  new-Loads f req m w good = (
    good,
    λ x h.
        let is : create_new_execution_context f s.task_id req m ≡ x = ground arith in
        subst (λ (y : ExecutionContext). IsLoaded y w) is
          (record { good = good; named = refl; fresh = λ st n. absurd (ground arith) }),
  )

  resumed-Loads :
      (req : SendMessageRequest) (m : Message) (whole t : Task) (v : ℕ) (w : World)
      → laws.Good w
      → whole.id ≡ s.task_id
      → InStore store s laws w t v
      → Loads (ok (resumed req m whole t v), w)
  resumed-Loads req m whole t v w good named (st, read, is, at) = (
    good,
    λ x h.
        let same : resumed req m whole t v ≡ x = ground arith in
        subst (λ (y : ExecutionContext). IsLoaded y w) same
          (record {
            good = good;
            named = named;
            fresh = λ u n. (st, read, is ∙ ground arith, at ∙ ground arith);
          }),
  )

  failed-Loads : (e : Fault) (w : World) → laws.Good w → Loads (err e, w)
  failed-Loads e w good = (good, λ x h. absurd (ground arith))

  abbrev history_request : Task → Task → ℕ → Message → UpdateRequest
  history_request t u version m = record {
    task = u;
    event = message m;
    prev_task = t;
    prev_version = version;
  }

  -- what a successful update of the history has done
  update_history_ok :
      (t u : Task) (version v : ℕ) (m : Message) (w : World)
      → (update_history store s.materializer t version m w).0 ≡ ok (u, v)
      → let r = history_request t u version m in
        (s.materializer.apply_update t (message m) ≡ ok (some u))
        × ((store.update r w).0 ≡ ok v)
        × ((update_history store s.materializer t version m w).1 ≡ (store.update r w).1)
  unfolding update_history
  update_history_ok t u version v m w h =
      elim (Result-cases (s.materializer.apply_update t (message m))) [
        | inl (f, p) ↦ absurd (ground arith)
        | inr (o, p) ↦ elim (Option-cases o) [
          | inl n ↦ absurd (ground arith)
          | inr (x, n) ↦
              let q = store.update (history_request t x version m) w in
              elim (Result-cases q.0) [
                | inl (f, z) ↦ absurd (ground arith)
                | inr (k, z) ↦
                    let same : x ≡ u = ground arith in
                    let at : k ≡ v = ground arith in
                    let after : (update_history store s.materializer t version m w).1 ≡ q.1 =
                      ground arith in
                    subst
                      (λ (y : Task).
                        let r = history_request t y version m in
                        (s.materializer.apply_update t (message m) ≡ ok (some y))
                        × ((store.update r w).0 ≡ ok v)
                        × ((update_history store s.materializer t version m w).1
                            ≡ (store.update r w).1))
                      same (ground arith, ground arith, after)
              ]
        ]
      ]

  update_history-InStore :
      (t u : Task) (version v : ℕ) (m : Message) (w : World)
      → t.id ≡ s.task_id
      → (update_history store s.materializer t version m w).0 ≡ ok (u, v)
      → (u.id ≡ s.task_id)
        × InStore store s laws (update_history store s.materializer t version m w).1 u v
  update_history-InStore t u version v m w named h =
      let r = history_request t u version m in
      let (made, wrote, after) = update_history_ok t u version v m w h in
      let (st, read, is, at) = laws.get-update r w v wrote in
      let id = keeps t u (message m) made ∙ named in
      (
        id,
        rw after (
          st,
          subst (λ (j : String). (store.get j (store.update r w).1).0 ≡ ok st) id read,
          is,
          at,
        ),
      )

  update_history-good :
      (t : Task) (version : ℕ) (m : Message) (w : World)
      → laws.Good w
      → laws.Good (update_history store s.materializer t version m w).1
  unfolding update_history
  update_history-good t version m w good =
      let out = update_history store s.materializer t version m w in
      elim (Result-cases (s.materializer.apply_update t (message m))) [
        | inl (f, p) ↦ let is : w ≡ out.1 = ground arith in subst laws.Good is good
        | inr (o, p) ↦ elim (Option-cases o) [
          | inl n ↦ let is : w ≡ out.1 = ground arith in subst laws.Good is good
          | inr (u, n) ↦
              let q = store.update (history_request t u version m) w in
              let kept = laws.good-update (history_request t u version m) w good in
              elim (Result-cases q.0) [
                | inl (f, z) ↦ let is : q.1 ≡ out.1 = ground arith in subst laws.Good is kept
                | inr (k, z) ↦ let is : q.1 ≡ out.1 = ground arith in subst laws.Good is kept
              ]
        ]
      ]

  resume-Loads :
      (f : Factory) (req : SendMessageRequest) (m : Message) (st : StoredTask) (w : World)
      → laws.Good w
      → st.task.id ≡ s.task_id
      → InStore store s laws w st.task st.version
      → Loads (resume store s.materializer f s.task_id req m st w)
  unfolding resume
  resume-Loads f req m st w good named stored =
      let out = resume store s.materializer f s.task_id req m st w in
      elim (Bool-cases (not (str_eq m.task_id "") && not (str_eq m.task_id s.task_id))) [
        | inl a ↦ rw a (failed-Loads _ w good)
        | inr a ↦ elim (Bool-cases (f.is_nil_task st)) [
          | inl z ↦ rw (a, z) (failed-Loads _ w good)
          | inr z ↦
              elim (Bool-cases
                (not (str_eq m.context_id "") && not (str_eq m.context_id st.task.context_id))) [
                  | inl b ↦ rw (a, z, b) (failed-Loads _ w good)
                  | inr b ↦ elim (Bool-cases (terminal st.task.status.state)) [
                    | inl c ↦ rw (a, z, b, c) (failed-Loads _ w good)
                    | inr c ↦ elim (Bool-cases (in_history m st.task)) [
                      | inl d ↦
                          rw (a, z, b, c, d)
                            (resumed-Loads req m st.task st.task st.version w good named stored)
                      | inr d ↦
                          let h = update_history store s.materializer st.task st.version m w in
                          let kept = update_history-good st.task st.version m w good in
                          elim (Result-cases h.0) [
                            | inl (e, p) ↦
                                let is : (err e, h.1) ≡ out = ground arith in
                                subst Loads is (failed-Loads e h.1 kept)
                            | inr ((u, v), p) ↦
                                let (id, after) =
                                  update_history-InStore st.task u st.version v m w named p in
                                elim (Bool-cases s.materializer.returns_full_snapshot) [
                                  | inl r ↦
                                      let is : (ok (resumed req m u u v), h.1) ≡ out =
                                        ground arith in
                                      subst Loads is (resumed-Loads req m u u v h.1 kept id after)
                                  | inr r ↦
                                      elim (Result-cases
                                        (apply_shallow_update st.task (message m))) [
                                          | inl (e, q) ↦
                                              let is : (err e, h.1) ≡ out = ground arith in
                                              subst Loads is (failed-Loads e h.1 kept)
                                          | inr (whole, q) ↦
                                              let (_, same, _) =
                                                apply_shallow_update-keeps_identity st.task whole
                                                  (message m) q in
                                              let is : (ok (resumed req m whole u v), h.1) ≡ out =
                                                ground arith in
                                              subst Loads is (
                                                resumed-Loads req m whole u v h.1 kept
                                                  (same ∙ named) after)
                                        ]
                                ]
                          ]
                    ]
                  ]
                ]
        ]
      ]

  pub load_execution_context-Loads :
      (f : Factory) (req : SendMessageRequest) (m : Message) (w : World)
      → laws.Good w
      → Loads (load_execution_context store s.materializer f s.task_id req m w)
  unfolding load_execution_context
  load_execution_context-Loads f req m w good =
      let out = load_execution_context store s.materializer f s.task_id req m w in
      let g = store.get s.task_id w in
      let read_good = laws.good-get s.task_id w good in
      elim (Bool-cases (str_eq m.task_id "" && not f.task_retry_supported)) [
        | inl a ↦ rw a (new-Loads f req m w good)
        | inr a ↦ elim (Result-cases g.0) [
          | inl (e, p) ↦ elim (Bool-cases (str_eq m.task_id "" && is_not_found e)) [
            | inl b ↦
                let is : (ok (create_new_execution_context f s.task_id req m), g.1) ≡ out =
                  ground arith in
                subst Loads is (new-Loads f req m g.1 read_good)
            | inr b ↦
                let is : (err e, g.1) ≡ out = ground arith in
                subst Loads is (failed-Loads e g.1 read_good)
          ]
          | inr (st, p) ↦
              let (again, id) = laws.get-get s.task_id w st good p in
              let is : resume store s.materializer f s.task_id req m st g.1 ≡ out = ground arith in
              subst Loads is (resume-Loads f req m st g.1 read_good id (st, again, refl, refl))
        ]
      ]
