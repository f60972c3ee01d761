-- ===== src/TaskUpdate/Absorbing.antt =====
-- What the manager of internal/taskupdate leaves alone: terminal tasks, and everything after an error.
use a2a_go.Base.{
  ℕ, zero, suc, Bool, true, some, ◌≡◌, ◌⊎◌, inl, inr, arith, Bool-cases, Option-cases, Fault,
  Result, Result-cases, ok, err,
}
use a2a_go.Core.{
  TaskState, canceled, terminal, is_canceled, Task, TaskStatusUpdateEvent, Event, message, task,
  status_update, artifact_update,
}
use a2a_go.TaskStore.Api.{StoredTask, UpdateRequest, Store}
use a2a_go.TaskUpdate.Manager.{
  Materializer, Manager, track, state_after, apply, process, set_task_failed, update_status,
  update_status_from,
}

module _ (store : Store) (deep_copy : Task → Result Task) (mat : Materializer) where
  open store use {World}

  -- In a terminal state no event, message or not, changes the manager or reaches the store, and
  -- neither does the attempt to mark the task as failed.
  pub terminal_absorbs :
      (m : Manager) (e : Event) (is_init : Bool) (now : ℕ) (w : World)
      → terminal m.state ≡ true
      → ((process store deep_copy mat m e is_init w).1 ≡ m)
        × ((process store deep_copy mat m e is_init w).2 ≡ w)
        × ((set_task_failed store deep_copy mat m now w).1 ≡ m)
        × ((set_task_failed store deep_copy mat m now w).2 ≡ w)
  unfolding process set_task_failed
  terminal_absorbs m (message v) is_init now w h =
      (ground arith, ground arith, ground arith, ground arith)
  terminal_absorbs m (task v) is_init now w h =
      (ground arith, ground arith, ground arith, ground arith)
  terminal_absorbs m (status_update v) is_init now w h =
      (ground arith, ground arith, ground arith, ground arith)
  terminal_absorbs m (artifact_update v) is_init now w h =
      (ground arith, ground arith, ground arith, ground arith)

  pub apply_failed :
      (m : Manager) (e : Event) (w : World) (f : Fault)
      → (apply store deep_copy mat m e w).0 ≡ err f
      → (apply store deep_copy mat m e w).1 ≡ m
  unfolding apply
  apply_failed m e w f h = ground arith

  abbrev pub request : Manager → Event → Task → Task → UpdateRequest
  request m e prev t = record { task = t; event = e; prev_task = prev; prev_version = m.version }

  -- what a successful `apply` did
  abbrev Applied : Manager → Event → World → ℕ → Type 0
  Applied m e w v =
      (prev : Task) × (t : Task) × (m.tracked ≡ some prev)
      × (mat.apply_update prev e ≡ ok (some t))
      × ((store.update (request m e prev t) w).0 ≡ ok v)
      × ((apply store deep_copy mat m e w).1 ≡ track m t v (state_after m.state e))
      × ((apply store deep_copy mat m e w).2 ≡ (store.update (request m e prev t) w).1)

  pub apply_ok :
      (m : Manager) (e : Event) (w : World) (v : ℕ)
      → (apply store deep_copy mat m e w).0 ≡ ok v
      → Applied m e w v
  unfolding apply
  apply_ok m e w v h = elim (Option-cases m.tracked) [
    | inl p ↦ absurd (ground arith)
    | inr (prev, p) ↦ elim (Result-cases (mat.apply_update prev e)) [
      | inl (f, q) ↦ absurd (ground arith)
      | inr (o, q) ↦ elim (Option-cases o) [
        | inl z ↦ absurd (ground arith)
        | inr (t, z) ↦ elim (Result-cases (store.update (request m e prev t) w).0) [
          | inl (f, y) ↦ absurd (ground arith)
          | inr (u, y) ↦ (prev, t, p, ground arith, ground arith, ground arith, ground arith)
        ]
      ]
    ]
  ]

  is_canceled_sound : (s : TaskState) → is_canceled s ≡ true → s ≡ canceled
  is_canceled_sound s h = ground arith

  update_status_from-state :
      (n : ℕ) (m : Manager) (e : TaskStatusUpdateEvent) (w : World) (v : ℕ)
      → (update_status_from store deep_copy mat n m e w).0 ≡ ok v
      → (update_status_from store deep_copy mat n m e w).1.state ≡ e.status.state
  unfolding update_status_from
  update_status_from-state zero m e w v h = absurd (ground arith)
  update_status_from-state (suc n) m e w v h =
      let a = apply store deep_copy mat m (status_update e) w in
      elim (Result-cases a.0) [
        | inr (u, p) ↦
            let (_, _, _, _, _, after_a, _) = apply_ok m (status_update e) w u p in ground arith
        | inl (f, p) ↦ elim (Result-cases (store.get e.task_id a.2).0) [
          | inl (g, q) ↦ absurd (ground arith)
          | inr (stored, q) ↦
              let state = stored.task.status.state in
              elim (Bool-cases (is_canceled state)) [
                | inl c ↦ ground (arith, is_canceled_sound state, is_canceled_sound e.status.state)
                | inr c ↦ ground (
                  arith,
                  update_status_from-state n (track a.1 stored.task stored.version state) e
                      (store.get e.task_id a.2).1 v,
                )
              ]
        ]
      ]

  -- A status update that is reported as done has brought the manager to the event's state, whether
  -- it was written, written after retries, or, for a cancelation, found to be done by another.
  pub update_status-state :
      (m : Manager) (e : TaskStatusUpdateEvent) (w : World) (v : ℕ)
      → (update_status store deep_copy mat m e w).0 ≡ ok v
      → (update_status store deep_copy mat m e w).1.state ≡ e.status.state
  unfolding update_status
  update_status-state m e w v h = update_status_from-state 10 m e w v h

  -- how a status update that is reported as done got there: written at the first attempt, found
  -- canceled, or by the rest of the loop from the state that was loaded
  abbrev Unrolled : ℕ → Manager → TaskStatusUpdateEvent → World → ℕ → Type 0
  Unrolled n m e w v =
      let a = apply store deep_copy mat m (status_update e) w in
      let out = update_status_from store deep_copy mat (suc n) m e w in
      ((a.0 ≡ ok v) × (out ≡ a))
      ⊎ ((f : Fault) × (stored : StoredTask) × (a.0 ≡ err f)
          × ((store.get e.task_id a.2).0 ≡ ok stored)
          × (let m' = track a.1 stored.task stored.version stored.task.status.state in
              let w' = (store.get e.task_id a.2).1 in
              ((v ≡ stored.version) × (out ≡ (ok stored.version, m', w')))
              ⊎ (out ≡ update_status_from store deep_copy mat n m' e w')))

  pub unroll :
      (n : ℕ) (m : Manager) (e : TaskStatusUpdateEvent) (w : World) (v : ℕ)
      → (update_status_from store deep_copy mat (suc n) m e w).0 ≡ ok v
      → Unrolled n m e w v
  unfolding update_status_from
  unroll n m e w v h =
      let a = apply store deep_copy mat m (status_update e) w in
      elim (Result-cases a.0) [
        | inr (u, p) ↦ inl (ground arith, ground arith)
        | inl (f, p) ↦ elim (Result-cases (store.get e.task_id a.2).0) [
          | inl (g, q) ↦ absurd (ground arith)
          | inr (stored, q) ↦ elim (Bool-cases (is_canceled stored.task.status.state)) [
            | inl c ↦ inr (f, stored, p, q, inl (ground arith, ground arith))
            | inr c ↦ inr (f, stored, p, q, inr (ground arith))
          ]
        ]
      ]
