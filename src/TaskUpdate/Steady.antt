-- ===== src/TaskUpdate/Steady.antt =====
-- What every call of the manager of internal/taskupdate keeps, whether it succeeds or not: the store's
-- own invariant, the task that it was made for, and that it tracks that task.
use a2a_go.Base.{
  ℕ, zero, suc, Bool, not, ◌||◌, concurrent_modification, none, ◌≡◌, inl, inr, refl, ap, sym, ◌∙◌,
  subst, arith, eq_iff, is_some, Bool-cases, Option-cases, Result, Result-cases, ok, err,
}
use a2a_go.Core.{
  terminal, is_canceled, Task, TaskInfo, TaskStatusUpdateEvent, Event, message, task, status_update,
  artifact_update, task_info, failed, new_status_update_event,
}
use a2a_go.Events.Apply.{is_empty}
use a2a_go.TaskStore.Api.{Store}
use a2a_go.TaskUpdate.Manager.{
  Materializer, Manager, track, apply, create, process, update_status, update_status_from, validate,
  set_task_failed, is_concurrent_modification,
}
use a2a_go.TaskUpdate.Absorbing.{apply_ok, apply_failed}
use a2a_go.TaskUpdate.Laws.{IsStore, IsTracking, KeepsId}
use a2a_go.TaskUpdate.Stored.{apply-good}

module _ (store : Store) (deep_copy : Task → Result Task) (mat : Materializer)
    (laws : IsStore store) (keeps : KeepsId mat)
    (copies : (t u : Task) → deep_copy t ≡ ok u → u.id ≡ t.id) where
  open store use {World}

  pub record IsSteady (m : Manager) (o : Result ℕ × Manager × World) : Type 0 where
    pub good : laws.Good o.2
    pub same : o.1.info ≡ m.info
    pub tracking : IsTracking o.1

  pub unchanged-IsSteady :
      (m : Manager) (w : World) (r : Result ℕ) → laws.Good w → IsTracking m → IsSteady m (r, m, w)
  unchanged-IsSteady m w r good tracking = record { good = good; same = refl; tracking = tracking }

  pub apply-IsSteady :
      (m : Manager) (e : Event) (w : World)
      → laws.Good w
      → IsTracking m
      → IsSteady m (apply store deep_copy mat m e w)
  apply-IsSteady m e w good tracking =
      let good' = apply-good store deep_copy mat laws m e w good in
      elim (Result-cases (apply store deep_copy mat m e w).0) [
        | inl (f, p) ↦
            let kept = apply_failed store deep_copy mat m e w f p in
            record {
              good = good';
              same = ap (λ (k : Manager). k.info) kept;
              tracking = subst IsTracking (sym kept) tracking;
            }
        | inr (v, p) ↦
            let (prev, t, was, made, wrote, after_m, after_w) =
              apply_ok store deep_copy mat m e w v p in
            record {
              good = good';
              same = ap (λ (k : Manager). k.info) after_m;
              tracking = subst IsTracking (sym after_m) (λ x h.
                  let is : t ≡ x = cc in
                  ap (λ (y : Task). y.id) (sym is) ∙ keeps prev t e made ∙ tracking prev was);
            }
      ]

  create-IsSteady :
      (m : Manager) (t : Task) (w : World)
      → t.id ≡ m.info.task_id
      → laws.Good w
      → IsTracking m
      → IsSteady m (create store deep_copy mat m t w)
  unfolding create
  create-IsSteady m t w same good tracking = elim (Result-cases (deep_copy t)) [
    | inl (f, p) ↦
        let out : create store deep_copy mat m t w ≡ (err f, m, w) = ground arith in
        subst (IsSteady m) (sym out) (unchanged-IsSteady m w (err f) good tracking)
    | inr (u, p) ↦
        let next = laws.good-create u w good in
        elim (Result-cases (store.create u w).0) [
          | inl (f, q) ↦
              let out : create store deep_copy mat m t w ≡ (err f, m, (store.create u w).1) =
                ground arith in
              subst (IsSteady m) (sym out) (unchanged-IsSteady m _ (err f) next tracking)
          | inr (v, q) ↦
              let out : create store deep_copy mat m t w
                  ≡ (ok v, track m u v u.status.state, (store.create u w).1) =
                ground arith in
              subst (IsSteady m) (sym out) (record {
                good = next;
                same = refl;
                tracking = λ x h.
                    let is : u ≡ x = cc in ap (λ (y : Task). y.id) (sym is) ∙ copies t u p ∙ same;
              })
        ]
  ]

  update_status_from-IsSteady :
      (n : ℕ) (m : Manager) (e : TaskStatusUpdateEvent) (w : World)
      → e.task_id ≡ m.info.task_id
      → laws.Good w
      → IsTracking m
      → IsSteady m (update_status_from store deep_copy mat n m e w)
  unfolding update_status_from
  update_status_from-IsSteady zero m e w same good tracking = unchanged-IsSteady m w _ good tracking
  update_status_from-IsSteady (suc n) m e w same good tracking =
      let a = apply store deep_copy mat m (status_update e) w in
      let steady = apply-IsSteady m (status_update e) w good tracking in
      let out = update_status_from store deep_copy mat (suc n) m e w in
      elim (Result-cases a.0) [
        | inr (v, p) ↦ let is : a ≡ out = ground arith in subst (IsSteady m) is steady
        | inl (f, p) ↦
            elim (Bool-cases
              (not (is_concurrent_modification f) || not (is_canceled e.status.state))) [
                | inl stop ↦ let is : a ≡ out = ground arith in subst (IsSteady m) is steady
                | inr go ↦
                    let got = store.get e.task_id a.2 in
                    let good' = laws.good-get e.task_id a.2 steady.good in
                    let stays : (r : Result ℕ) → IsSteady m (r, a.1, got.1) = λ r. record {
                      good = good';
                      same = steady.same;
                      tracking = steady.tracking;
                    } in
                    elim (Result-cases got.0) [
                      | inl (g, q) ↦
                          let is : (err g, a.1, got.1) ≡ out = ground arith in
                          subst (IsSteady m) is (stays (err g))
                      | inr (st, q) ↦
                          let m' = track a.1 st.task st.version st.task.status.state in
                          let (_, named) = laws.get-get e.task_id a.2 st steady.good q in
                          let same' : e.task_id ≡ m'.info.task_id =
                            same ∙ ap (λ (k : TaskInfo). k.task_id) (sym steady.same) in
                          let tracking' : IsTracking m' = λ x h.
                            let is : st.task ≡ x = cc in
                            ap (λ (y : Task). y.id) (sym is) ∙ named ∙ same' in
                          elim (Bool-cases (is_canceled st.task.status.state)) [
                            | inl c ↦
                                let is : (ok st.version, m', got.1) ≡ out = ground arith in
                                subst (IsSteady m) is (record {
                                  good = good';
                                  same = steady.same;
                                  tracking = tracking';
                                })
                            | inr c ↦ elim (Bool-cases (terminal st.task.status.state)) [
                              | inl z ↦
                                  let is : (err concurrent_modification, a.1, got.1) ≡ out =
                                    ground arith in
                                  subst (IsSteady m) is (stays (err concurrent_modification))
                              | inr z ↦
                                  let rest =
                                    update_status_from-IsSteady n m' e got.1 same' good'
                                      tracking' in
                                  let is : update_status_from store deep_copy mat n m' e got.1
                                      ≡ out =
                                    ground arith in
                                  subst (IsSteady m) is (record {
                                    good = rest.good;
                                    same = rest.same ∙ steady.same;
                                    tracking = rest.tracking;
                                  })
                            ]
                          ]
                    ]
              ]
      ]

  -- Whatever event is processed and however it ends, the store's invariant, the task that the manager
  -- was made for and its tracking of that task are kept.
  pub process-IsSteady :
      (m : Manager) (e : Event) (is_init : Bool) (w : World)
      → laws.Good w
      → IsTracking m
      → IsSteady m (process store deep_copy mat m e is_init w)
  unfolding process validate update_status
  process-IsSteady m (message x) is_init w good tracking =
      let out = process store deep_copy mat m (message x) is_init w in
      let is : (out.0, m, w) ≡ out = ground arith in
      subst (IsSteady m) is (unchanged-IsSteady m w out.0 good tracking)
  process-IsSteady m (task t) is_init w good tracking =
      let out = process store deep_copy mat m (task t) is_init w in
      elim (Bool-cases (terminal m.state)) [
        | inl live ↦
            let is : (out.0, m, w) ≡ out = ground arith in
            subst (IsSteady m) is (unchanged-IsSteady m w out.0 good tracking)
        | inr live ↦ elim (Option-cases (validate m (task_info (task t)))) [
          | inr (text, v) ↦
              let is : (out.0, m, w) ≡ out = ground arith in
              subst (IsSteady m) is (unchanged-IsSteady m w out.0 good tracking)
          | inl v ↦ elim (Bool-cases (is_some m.tracked)) [
            | inl old ↦
                let is : apply store deep_copy mat m (task t) w ≡ out = ground arith in
                subst (IsSteady m) is (apply-IsSteady m (task t) w good tracking)
            | inr new ↦
                let same : t.id ≡ m.info.task_id = ground (arith, eq_iff m.info.task_id t.id) in
                let is : create store deep_copy mat m t w ≡ out = ground arith in
                subst (IsSteady m) is (create-IsSteady m t w same good tracking)
          ]
        ]
      ]
  process-IsSteady m (artifact_update x) is_init w good tracking =
      let out = process store deep_copy mat m (artifact_update x) is_init w in
      elim (Bool-cases (terminal m.state || is_empty x.artifact.parts)) [
        | inl live ↦
            let is : (out.0, m, w) ≡ out = ground arith in
            subst (IsSteady m) is (unchanged-IsSteady m w out.0 good tracking)
        | inr live ↦ elim (Option-cases (validate m (task_info (artifact_update x)))) [
          | inr (text, v) ↦
              let is : (out.0, m, w) ≡ out = ground arith in
              subst (IsSteady m) is (unchanged-IsSteady m w out.0 good tracking)
          | inl v ↦
              let is : apply store deep_copy mat m (artifact_update x) w ≡ out = ground arith in
              subst (IsSteady m) is (apply-IsSteady m (artifact_update x) w good tracking)
        ]
      ]
  process-IsSteady m (status_update x) is_init w good tracking =
      let out = process store deep_copy mat m (status_update x) is_init w in
      elim (Bool-cases (terminal m.state)) [
        | inl live ↦
            let is : (out.0, m, w) ≡ out = ground arith in
            subst (IsSteady m) is (unchanged-IsSteady m w out.0 good tracking)
        | inr live ↦ elim (Option-cases (validate m (task_info (status_update x)))) [
          | inr (text, v) ↦
              let is : (out.0, m, w) ≡ out = ground arith in
              subst (IsSteady m) is (unchanged-IsSteady m w out.0 good tracking)
          | inl v ↦
              let same : x.task_id ≡ m.info.task_id =
                ground (arith, eq_iff m.info.task_id x.task_id) in
              let is : update_status_from store deep_copy mat 10 m x w ≡ out = ground arith in
              subst (IsSteady m) is (update_status_from-IsSteady 10 m x w same good tracking)
        ]
      ]

  pub set_task_failed-IsSteady :
      (m : Manager) (now : ℕ) (w : World)
      → laws.Good w
      → IsTracking m
      → IsSteady m (set_task_failed store deep_copy mat m now w)
  unfolding set_task_failed
  set_task_failed-IsSteady m now w good tracking =
      let out = set_task_failed store deep_copy mat m now w in
      let e = status_update (new_status_update_event m.info failed none now) in
      elim (Bool-cases (not (is_some m.tracked) || terminal m.state)) [
        | inl no_way ↦
            let is : (out.0, m, w) ≡ out = ground arith in
            subst (IsSteady m) is (unchanged-IsSteady m w out.0 good tracking)
        | inr way ↦
            let is : apply store deep_copy mat m e w ≡ out = ground arith in
            subst (IsSteady m) is (apply-IsSteady m e w good tracking)
      ]
