-- ===== src/Server/Results.antt =====
-- A task that becomes the result of an execution is what the store then holds: a2asrv/agentexec.go over
-- internal/taskupdate/manager.go and any store with the laws of TaskUpdate/Laws.
use a2a_go.Base.{
  ℕ, String, none, some, ◌≡◌, ◌≢◌, inl, inr, ap, sym, ◌∙◌, subst, arith, Option-cases, Fault,
  Result, Result-cases, ok,
}
use a2a_go.Core.{Task, status_update, new_status_update_event, failed, TaskInfo}
use a2a_go.TaskStore.Api.{StoredTask, Store}
use a2a_go.TaskUpdate.Manager.{Manager, apply, set_task_failed, in_memory_snapshot}
use a2a_go.TaskUpdate.Laws.{IsStore, IsTracking, KeepsId}
use a2a_go.TaskUpdate.Stored.{Held, apply-Held}
use a2a_go.TaskUpdate.Steady.{set_task_failed-IsSteady}
use a2a_go.TaskExec.Promise.{task_result}
use a2a_go.Server.Processor.{ProcessorResult, Setup, load_result, fail_task}

module _ (store : Store) (s : Setup store) (laws : IsStore store) where
  open store use {World}

  -- the store has this task at this version
  abbrev pub InStore : World → Task → ℕ → Type 0
  InStore w t v =
      (st : StoredTask) × ((store.get s.task_id w).0 ≡ ok st) × (st.task ≡ t) × (st.version ≡ v)

  -- The manager was made for the processor's task, and what it tracks, if anything, is stored.
  pub record IsReady (m : Manager) (w : World) : Type 0 where
    pub good : laws.Good w
    pub named : m.info.task_id ≡ s.task_id
    pub tracking : IsTracking m
    pub synced : (t : Task) → m.tracked ≡ some t → InStore w t m.version

  -- a task that is a result is the stored one
  abbrev pub Shows : ProcessorResult → World → Type 0
  Shows r w = (t : Task) → r.execution_result ≡ some (task_result t) → InStore w t r.task_version

  pub load_result-Shows :
      (m : Manager) (w : World) (r : ProcessorResult)
      → IsReady m w
      → (load_result store s m w).0 ≡ ok r
      → Shows r (load_result store s m w).2
  unfolding load_result
  load_result-Shows m w r ready h t is = elim (Option-cases (in_memory_snapshot s.materializer m)) [
    | inl none_kept ↦ elim (Result-cases (store.get s.task_id w).0) [
      | inl (f, p) ↦ absurd (ground arith)
      | inr (st, p) ↦
          let (again, _) = laws.get-get s.task_id w st ready.good p in
          rw (none_kept, p) (st, again, ground arith, ground arith)
    ]
    | inr ((u, v), kept) ↦
        let held : m.tracked ≡ some u = unfold in_memory_snapshot in ground arith in
        let at : m.version ≡ v = unfold in_memory_snapshot in ground arith in
        let (st, read, task_is, version_is) = ready.synced u held in
        rw kept (st, read, task_is ∙ ground arith, version_is ∙ at ∙ ground arith)
  ]

  pub Held-InStore :
      (m : Manager) (w : World) (v : ℕ)
      → Held store s.deep_copy s.materializer m w v
      → m.info.task_id ≡ s.task_id
      → (t : Task) → m.tracked ≡ some t
      → InStore w t m.version
  Held-InStore m w v (u, st, tracks, at, _, read, is, under) named t h =
      let same : u ≡ t = cc in
      (
        st,
        subst (λ (id : String). (store.get id w).0 ≡ ok st) named read,
        is ∙ same,
        under ∙ sym at,
      )

  module _ (keeps : KeepsId s.materializer)
      (faithful : (t u : Task) → s.deep_copy t ≡ ok u → u ≡ t) where
    pub copies : (t u : Task) → s.deep_copy t ≡ ok u → u.id ≡ t.id
    copies t u h = ap (λ (x : Task). x.id) (faithful t u h)

    set_task_failed-Held :
        (m : Manager) (w : World) (v : ℕ)
        → IsTracking m
        → (set_task_failed store s.deep_copy s.materializer m s.now w).0 ≡ ok v
        → Held store s.deep_copy s.materializer
            (set_task_failed store s.deep_copy s.materializer m s.now w).1
            (set_task_failed store s.deep_copy s.materializer m s.now w).2
            v
    unfolding set_task_failed
    set_task_failed-Held m w v tracking h =
        let out = set_task_failed store s.deep_copy s.materializer m s.now w in
        let e = status_update (new_status_update_event m.info failed none s.now) in
        let a = apply store s.deep_copy s.materializer m e w in
        let is : a ≡ out = ground arith in
        let wrote : a.0 ≡ ok v = ap (λ (o : Result ℕ × Manager × World). o.0) is ∙ h in
        subst (λ (o : Result ℕ × Manager × World). Held store s.deep_copy s.materializer o.1 o.2 v)
          is (apply-Held store s.deep_copy s.materializer laws keeps m e w v tracking wrote)

    -- the manager after its task was marked as failed
    pub failed-IsReady :
        (m : Manager) (w : World) (v : ℕ)
        → laws.Good w
        → m.info.task_id ≡ s.task_id
        → IsTracking m
        → (set_task_failed store s.deep_copy s.materializer m s.now w).0 ≡ ok v
        → IsReady
            (set_task_failed store s.deep_copy s.materializer m s.now w).1
            (set_task_failed store s.deep_copy s.materializer m s.now w).2
    failed-IsReady m w v good named tracking h =
        let o = set_task_failed store s.deep_copy s.materializer m s.now w in
        let steady =
          set_task_failed-IsSteady store s.deep_copy s.materializer laws keeps copies m s.now w good
            tracking in
        let named' = ap (λ (i : TaskInfo). i.task_id) steady.same ∙ named in
        record {
          good = steady.good;
          named = named';
          tracking = steady.tracking;
          synced = Held-InStore o.1 o.2 v (set_task_failed-Held m w v tracking h) named';
        }

    pub load_result_some :
        (m : Manager) (w : World) (r : ProcessorResult)
        → (load_result store s m w).0 ≡ ok r
        → r.execution_result ≢ none
    unfolding load_result
    load_result_some m w r h is = elim (Option-cases (in_memory_snapshot s.materializer m)) [
      | inl p ↦ elim (Result-cases (store.get s.task_id w).0) [
        | inl (f, q) ↦ ground arith
        | inr (st, q) ↦ ground arith
      ]
      | inr (x, p) ↦ ground arith
    ]

    pub fail_task_some :
        (cause : Fault) (m : Manager) (w : World) (r : ProcessorResult)
        → (fail_task store s cause m w).0 ≡ ok r
        → r.execution_result ≢ none
    unfolding fail_task
    fail_task_some cause m w r h is =
        let o = set_task_failed store s.deep_copy s.materializer m s.now w in
        elim (Result-cases o.0) [
          | inl (f, p) ↦ ground arith
          | inr (v, p) ↦ elim (Result-cases (load_result store s o.1 o.2).0) [
            | inl (f, q) ↦ ground arith
            | inr (l, q) ↦ load_result_some o.1 o.2 l q (ground arith)
          ]
        ]

    pub fail_task-Shows :
        (cause : Fault) (m : Manager) (w : World) (r : ProcessorResult)
        → laws.Good w
        → m.info.task_id ≡ s.task_id
        → IsTracking m
        → (fail_task store s cause m w).0 ≡ ok r
        → Shows r (fail_task store s cause m w).2
    unfolding fail_task
    fail_task-Shows cause m w r good named tracking h =
        let o = set_task_failed store s.deep_copy s.materializer m s.now w in
        elim (Result-cases o.0) [
          | inl (f, p) ↦ absurd (ground arith)
          | inr (v, p) ↦
              let ready = failed-IsReady m w v good named tracking p in
              elim (Result-cases (load_result store s o.1 o.2).0) [
                | inl (f, q) ↦ absurd (ground arith)
                | inr (l, q) ↦ λ t is.
                    let (st, read, task_is, version_is) =
                      load_result-Shows o.1 o.2 l ready q t (ground arith) in
                    rw (p, q) (st, read, task_is, version_is ∙ ground arith)
              ]
        ]
