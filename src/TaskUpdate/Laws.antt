-- ===== src/TaskUpdate/Laws.antt =====
-- What the manager of internal/taskupdate relies on: the laws of its store, and a materializer
-- that keeps IDs.
use a2a_go.Base.{ℕ, String, some, ◌≡◌, ok}
use a2a_go.Core.{Task, Event}
use a2a_go.TaskStore.Api.{StoredTask, UpdateRequest, Store}
use a2a_go.TaskUpdate.Manager.{Materializer, Manager}

-- What the manager relies on: a store reads back what was last written, under the version that the
-- write returned. `Good` is the store's own invariant.
pub record IsStore (store : Store) : Type 1 where
  pub Good : store.World → Type 0
  pub good-create : (t : Task) (w : store.World) → Good w → Good (store.create t w).1
  pub good-update : (r : UpdateRequest) (w : store.World) → Good w → Good (store.update r w).1
  pub good-get : (id : String) (w : store.World) → Good w → Good (store.get id w).1
  pub get-create :
      (t : Task) (w : store.World) (v : ℕ)
      → (store.create t w).0 ≡ ok v
      → (st : StoredTask) × ((store.get t.id (store.create t w).1).0 ≡ ok st)
        × (st.task ≡ t)
        × (st.version ≡ v)
  pub get-update :
      (r : UpdateRequest) (w : store.World) (v : ℕ)
      → (store.update r w).0 ≡ ok v
      → (st : StoredTask) × ((store.get r.task.id (store.update r w).1).0 ≡ ok st)
        × (st.task ≡ r.task)
        × (st.version ≡ v)
  pub get-get :
      (id : String) (w : store.World) (st : StoredTask)
      → Good w
      → (store.get id w).0 ≡ ok st
      → ((store.get id (store.get id w).1).0 ≡ ok st) × (st.task.id ≡ id)

-- The task that the manager tracks is the one that it was made for.
abbrev pub IsTracking : Manager → Type 0
IsTracking m = (t : Task) → m.tracked ≡ some t → t.id ≡ m.info.task_id

-- A materializer changes no task's ID.
abbrev pub KeepsId : Materializer → Type 0
KeepsId mat = (t u : Task) (e : Event) → mat.apply_update t e ≡ ok (some u) → u.id ≡ t.id
