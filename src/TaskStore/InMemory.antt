-- ===== src/TaskStore/InMemory.antt =====
-- `Create`, `Update` and `Get` of the in-memory store, a2asrv/taskstore/inmemory.go. Each call runs
-- under the store's lock, so it is one step from a state to a state.
--
-- A caller is what the configured `Authenticator` says of the request's context, and the instant
-- that the `TimeProvider` gives. `deep_copy` is `utils.DeepCopy`, which goes through encoding/gob.
use a2a_go.Base.{
  ℕ, String, not, ◌&&◌, Option, none, some, if◌then◌else◌, ◌==◌, str_eq, Result, ok, err,
  task_not_found, task_already_exists, concurrent_modification, ◌>>=◌, ◌>>◌,
}
use a2a_go.Base.Maps.{GoMap, lookup, insert}
use a2a_go.Core.{Task}
use a2a_go.TaskStore.Api.{StoredTask, UpdateRequest, Store, version_missing, next_version}
use a2a_go.TaskStore.Validator.{validate_task}

pub record Caller : Type 0 where
  pub user : Result String
  pub now : ℕ

-- `storedTask`
pub record Entry : Type 0 where
  pub task : Task
  pub version : ℕ
  pub user : String
  pub last_updated : ℕ

-- `InMemory`, its map
abbrev pub Tasks : Type 0
Tasks = GoMap Entry

module _ (deep_copy : Task → Result Task) where
  -- the checks of `Create` and `Update` before the lock is taken: the user and the copy
  unfoldable pub prepare : Caller → Task → Result (String × Task)
  prepare c t = do validate_task t; user ← c.user; copy ← deep_copy t; ok (user, copy)

  create_locked : Caller → Task → Tasks → Option Entry → String × Task → Result ℕ × Tasks
  create_locked c t s (some _) _ = (err task_already_exists, s)
  create_locked c t s none (user, copy) =
      (ok 1, insert t.id (record { task = copy; version = 1; user = user; last_updated = c.now }) s)

  create_prepared : Caller → Task → Tasks → Result (String × Task) → Result ℕ × Tasks
  unfolding create_locked
  create_prepared c t s (err e) = (err e, s)
  create_prepared c t s (ok p) = create_locked c t s (lookup t.id s) p

  -- `Create`
  unfoldable pub create : Caller → Task → Tasks → Result ℕ × Tasks
  unfolding create_prepared
  create c t s = create_prepared c t s (prepare c t)

  update_locked : Caller → UpdateRequest → Tasks → Option Entry → String × Task → Result ℕ × Tasks
  update_locked c r s none _ = (err task_not_found, s)
  update_locked c r s (some stored) (user, copy) =
      if not (str_eq stored.user user)
      then (err task_not_found, s)
      else if not (r.prev_version == version_missing) && not (stored.version == r.prev_version)
      then (err concurrent_modification, s)
      else (
        ok (next_version stored.version),
        insert r.task.id
            (record {
              task = copy;
              version = next_version stored.version;
              user = stored.user;
              last_updated = c.now;
            })
            s,
      )

  update_prepared : Caller → UpdateRequest → Tasks → Result (String × Task) → Result ℕ × Tasks
  unfolding update_locked
  update_prepared c r s (err e) = (err e, s)
  update_prepared c r s (ok p) = update_locked c r s (lookup r.task.id s) p

  -- `Update`
  unfoldable pub update : Caller → UpdateRequest → Tasks → Result ℕ × Tasks
  unfolding update_prepared
  update c r s = update_prepared c r s (prepare c r.task)

  visible : Entry → String → Result StoredTask
  visible stored user = if not (str_eq stored.user user) then err task_not_found else do
    task ← deep_copy stored.task
    ok (record { task = task; version = stored.version; user = stored.user })

  get_found : Caller → Option Entry → Result StoredTask
  unfolding visible
  get_found c none = err task_not_found
  get_found c (some stored) = do user ← c.user; visible stored user

  -- `Get`
  unfoldable pub get : Caller → String → Tasks → Result StoredTask
  unfolding get_found
  get c id s = get_found c (lookup id s)

  -- The store as the interface, for one caller.
  abbrev pub in_memory : Caller → Store
  in_memory c = record {
    World = Tasks;
    create = create c;
    update = update c;
    get = λ id s. (get c id s, s);
  }
