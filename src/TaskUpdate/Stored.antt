-- ===== src/TaskUpdate/Stored.antt =====
-- After the manager of internal/taskupdate reports a version, the store holds what it tracks.
use a2a_go.Base.{
  ℕ, zero, suc, String, Bool, false, some, ◌≡◌, ◌≢◌, ◌⊎◌, inl, inr, refl, ap, sym, ◌∙◌, subst,
  arith, eq_iff, is_some, Bool-cases, Option-cases, Result, Result-cases, ok,
}
use a2a_go.Core.{
  Message, terminal, Task, TaskArtifactUpdateEvent, TaskStatusUpdateEvent, Event, message, task,
  status_update, artifact_update,
}
use a2a_go.TaskStore.Api.{StoredTask, Store}
use a2a_go.TaskUpdate.Manager.{
  Materializer, Manager, track, apply, create, process, update_status, update_status_from, validate,
}
use a2a_go.TaskUpdate.Absorbing.{request, apply_ok, apply_failed, unroll}
use a2a_go.TaskUpdate.Laws.{IsStore, IsTracking, KeepsId}

module _ (store : Store) (deep_copy : Task → Result Task) (mat : Materializer) where
  open store use {World}

  -- the store has the tracked task at the tracked version
  abbrev pub Held : Manager → World → ℕ → Type 0
  Held m w v =
      (t : Task) × (st : StoredTask) × (m.tracked ≡ some t)
      × (m.version ≡ v)
      × (t.id ≡ m.info.task_id)
      × ((store.get m.info.task_id w).0 ≡ ok st)
      × (st.task ≡ t)
      × (st.version ≡ v)

  create_ok :
      (m : Manager) (t : Task) (w : World) (v : ℕ)
      → ((t u : Task) → deep_copy t ≡ ok u → u ≡ t)
      → (create store deep_copy mat m t w).0 ≡ ok v
      → ((store.create t w).0 ≡ ok v)
        × (create store deep_copy mat m t w
            ≡ (ok v, track m t v t.status.state, (store.create t w).1))
  unfolding create
  create_ok m t w v faithful h = elim (Result-cases (deep_copy t)) [
    | inl (f, p) ↦ absurd (ground arith)
    | inr (u, p) ↦
        let same : u ≡ t = faithful t u p in
        let copied : deep_copy t ≡ ok t = p ∙ ap ok same in (ground arith, ground arith)
  ]

  pub apply-good :
      (laws : IsStore store) (m : Manager) (e : Event) (w : World)
      → laws.Good w
      → laws.Good (apply store deep_copy mat m e w).2
  unfolding apply
  apply-good laws m e w good = elim (Option-cases m.tracked) [
    | inl p ↦ rw (p, apply) good
    | inr (prev, p) ↦ elim (Result-cases (mat.apply_update prev e)) [
      | inl (f, q) ↦ rw (p, q, apply) good
      | inr (o, q) ↦ elim (Option-cases o) [
        | inl z ↦ rw (p, q, z, apply) good
        | inr (t, z) ↦
            let next = laws.good-update (request store deep_copy mat m e prev t) w good in
            elim (Result-cases (store.update (request store deep_copy mat m e prev t) w).0) [
              | inl (f, y) ↦ subst laws.Good (ground arith) next
              | inr (u, y) ↦ subst laws.Good (ground arith) next
            ]
      ]
    ]
  ]

  module _ (m : Manager) where
    process_task :
        (t : Task) (is_init : Bool) (w : World) (v : ℕ)
        → terminal m.state ≡ false
        → (process store deep_copy mat m (task t) is_init w).0 ≡ ok v
        → (((apply store deep_copy mat m (task t) w).0 ≡ ok v)
            × (process store deep_copy mat m (task t) is_init w
                ≡ apply store deep_copy mat m (task t) w))
          ⊎ (((create store deep_copy mat m t w).0 ≡ ok v)
              × (t.id ≡ m.info.task_id)
              × (process store deep_copy mat m (task t) is_init w
                  ≡ create store deep_copy mat m t w))
    unfolding process validate
    process_task t is_init w v live h = elim (Bool-cases (is_some m.tracked)) [
      | inl p ↦ inl (ground arith, ground arith)
      | inr p ↦ inr (ground arith, ground (arith, eq_iff m.info.task_id t.id), ground arith)
    ]

    process_artifact :
        (t : TaskArtifactUpdateEvent) (is_init : Bool) (w : World) (v : ℕ)
        → terminal m.state ≡ false
        → (process store deep_copy mat m (artifact_update t) is_init w).0 ≡ ok v
        → ((apply store deep_copy mat m (artifact_update t) w).0 ≡ ok v)
          × (process store deep_copy mat m (artifact_update t) is_init w
              ≡ apply store deep_copy mat m (artifact_update t) w)
    unfolding process validate
    process_artifact t is_init w v live h = (ground arith, ground arith)

    process_status :
        (t : TaskStatusUpdateEvent) (is_init : Bool) (w : World) (v : ℕ)
        → terminal m.state ≡ false
        → (process store deep_copy mat m (status_update t) is_init w).0 ≡ ok v
        → ((update_status_from store deep_copy mat 10 m t w).0 ≡ ok v)
          × (t.task_id ≡ m.info.task_id)
          × (process store deep_copy mat m (status_update t) is_init w
              ≡ update_status_from store deep_copy mat 10 m t w)
    unfolding process validate update_status
    process_status t is_init w v live h =
        (ground arith, ground (arith, eq_iff m.info.task_id t.task_id), ground arith)

  module _ (laws : IsStore store) (keeps : KeepsId mat) where
    pub apply-Held :
        (m : Manager) (e : Event) (w : World) (v : ℕ)
        → IsTracking m
        → (apply store deep_copy mat m e w).0 ≡ ok v
        → Held (apply store deep_copy mat m e w).1 (apply store deep_copy mat m e w).2 v
    apply-Held m e w v tracking h =
        let (prev, t, was, made, wrote, after_m, after_w) =
          apply_ok store deep_copy mat m e w v h in
        let same : t.id ≡ m.info.task_id = keeps prev t e made ∙ tracking prev was in
        let (st, read, is, at) =
          laws.get-update (request store deep_copy mat m e prev t) w v wrote in
        rw (after_m, after_w)
          (
            t,
            st,
            refl,
            refl,
            same,
            ap
                  (λ (id : String).
                    (store.get id (store.update (request store deep_copy mat m e prev t) w).1).0)
                  (sym same)
                ∙ read,
            is,
            at,
          )

    pub update_status_from-Held :
        (n : ℕ) (m : Manager) (e : TaskStatusUpdateEvent) (w : World) (v : ℕ)
        → laws.Good w
        → IsTracking m
        → e.task_id ≡ m.info.task_id
        → (update_status_from store deep_copy mat n m e w).0 ≡ ok v
        → Held
            (update_status_from store deep_copy mat n m e w).1
            (update_status_from store deep_copy mat n m e w).2
            v
    update_status_from-Held zero m e w v good tracking same h =
        absurd (unfold update_status_from in ground arith)
    update_status_from-Held (suc n) m e w v good tracking same h =
        let a = apply store deep_copy mat m (status_update e) w in
        elim (unroll store deep_copy mat n m e w v h) [
          | inl (p, out) ↦ rw out (apply-Held m (status_update e) w v tracking p)
          | inr (f, stored, p, q, rest) ↦
              let kept : a.1 ≡ m = apply_failed store deep_copy mat m (status_update e) w f p in
              let good_a = apply-good laws m (status_update e) w good in
              let (again, named) = laws.get-get e.task_id a.2 stored good_a q in
              let w' = (store.get e.task_id a.2).1 in
              let m' = track a.1 stored.task stored.version stored.task.status.state in
              let same_m : e.task_id ≡ a.1.info.task_id =
                same ∙ ap (λ (k : Manager). k.info.task_id) (sym kept) in
              let named_m : stored.task.id ≡ a.1.info.task_id = named ∙ same_m in
              elim rest [
                | inl (z, out) ↦
                    rw (out, z)
                      (
                        stored.task,
                        stored,
                        refl,
                        refl,
                        named_m,
                        ap (λ (id : String). (store.get id w').0) (sym same_m) ∙ again,
                        refl,
                        refl,
                      )
                | inr out ↦ rw out (
                    update_status_from-Held n m' e w' v (laws.good-get e.task_id a.2 good_a)
                      (λ t k.
                        let loaded : stored.task ≡ t = cc in
                        ap (λ (x : Task). x.id) (sym loaded) ∙ named_m)
                      same_m (ap (λ (o : Result ℕ × Manager × World). o.0) (sym out) ∙ h))
              ]
        ]

    pub create-Held :
        (m : Manager) (t : Task) (w : World) (v : ℕ)
        → ((t u : Task) → deep_copy t ≡ ok u → u ≡ t)
        → t.id ≡ m.info.task_id
        → (create store deep_copy mat m t w).0 ≡ ok v
        → Held (create store deep_copy mat m t w).1 (create store deep_copy mat m t w).2 v
    create-Held m t w v faithful same h =
        let (wrote, out) = create_ok m t w v faithful h in
        let (st, read, is, at) = laws.get-create t w v wrote in
        rw out (
          t,
          st,
          refl,
          refl,
          same,
          ap (λ (id : String). (store.get id (store.create t w).1).0) (sym same) ∙ read,
          is,
          at,
        )

    -- When the manager reports a version for an event that is no message, in a state that was not
    -- terminal, the store holds the task that the manager then tracks, under this version.
    pub process-Held :
        (m : Manager) (e : Event) (is_init : Bool) (w : World) (v : ℕ)
        → ((t u : Task) → deep_copy t ≡ ok u → u ≡ t)
        → laws.Good w
        → IsTracking m
        → terminal m.state ≡ false
        → ((x : Message) → e ≢ message x)
        → (process store deep_copy mat m e is_init w).0 ≡ ok v
        → Held
            (process store deep_copy mat m e is_init w).1
            (process store deep_copy mat m e is_init w).2
            v
    process-Held m (message x) is_init w v faithful good tracking live other_event h =
        absurd (other_event x refl)
    process-Held m (task t) is_init w v faithful good tracking live other_event h =
        elim (process_task m t is_init w v live h) [
          | inl (p, out) ↦ rw out (apply-Held m (task t) w v tracking p)
          | inr (p, same, out) ↦ rw out (create-Held m t w v faithful same p)
        ]
    process-Held m (artifact_update t) is_init w v faithful good tracking live other_event h =
        let (p, out) = process_artifact m t is_init w v live h in
        rw out (apply-Held m (artifact_update t) w v tracking p)
    process-Held m (status_update t) is_init w v faithful good tracking live other_event h =
        let (p, same, out) = process_status m t is_init w v live h in
        rw out (update_status_from-Held 10 m t w v good tracking same p)
