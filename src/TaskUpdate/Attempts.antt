-- ===== src/TaskUpdate/Attempts.antt =====
-- The loop of `updateStatus` in internal/taskupdate/manager.go.
use a2a_go.Base.{ℕ, zero, suc, ◌+◌, ◌≤◌, inl, inr, arith, Result, Result-cases}
use a2a_go.Core.{Task, TaskStatusUpdateEvent, Event, status_update}
use a2a_go.TaskStore.Api.{Store}
use a2a_go.TaskUpdate.Manager.{
  Materializer, Manager, track, apply, update_status, update_status_from,
}

-- the store with a count of its `Update` calls
abbrev pub counting : Store → Store
counting store = record {
  World = store.World × ℕ;
  create = λ t (w, n). ((store.create t w).0, ((store.create t w).1, n));
  update = λ r (w, n). ((store.update r w).0, ((store.update r w).1, suc n));
  get = λ id (w, n). ((store.get id w).0, ((store.get id w).1, n));
}

module _ (store : Store) (deep_copy : Task → Result Task) (mat : Materializer) where
  apply_count :
      (m : Manager) (e : Event) (w : store.World) (n : ℕ)
      → (apply (counting store) deep_copy mat m e (w, n)).2.1 ≤ suc n
  unfolding apply
  apply_count m e w n = ground arith

  update_status_from_count :
      (k : ℕ) (m : Manager) (e : TaskStatusUpdateEvent) (w : store.World) (n : ℕ)
      → (update_status_from (counting store) deep_copy mat k m e (w, n)).2.1 ≤ n + k
  unfolding update_status_from
  update_status_from_count zero m e w n = omega arith
  update_status_from_count (suc k) m e w n =
      let a = apply (counting store) deep_copy mat m (status_update e) (w, n) in
      let first = apply_count m (status_update e) w n in
      elim (Result-cases a.0) [
        | inr (u, p) ↦ ground arith
        | inl (f, p) ↦ elim (Result-cases (store.get e.task_id a.2.0).0) [
          | inl (g, q) ↦ ground arith
          | inr (stored, q) ↦ ground (
            arith,
            update_status_from_count k
                (track a.1 stored.task stored.version stored.task.status.state) e
                (store.get e.task_id a.2.0).1 a.2.1,
          )
        ]
      ]

  -- A status update makes at most ten calls of `Update`, whatever the store answers.
  pub update_status_count :
      (m : Manager) (e : TaskStatusUpdateEvent) (w : store.World) (n : ℕ)
      → (update_status (counting store) deep_copy mat m e (w, n)).2.1 ≤ n + 10
  unfolding update_status
  update_status_count m e w n = update_status_from_count 10 m e w n
