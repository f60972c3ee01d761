-- ===== src/TaskStore/Versions.antt =====
-- What the in-memory store promises to its callers: versions, owners, what a read returns.
use a2a_go.Base.{
  ℕ, String, none, some, ◌≡◌, ◌≢◌, ◌⊎◌, inl, inr, ap, sym, ◌∙◌, arith, if◌then◌else◌, str_eq,
  eq_iff, eq_refl, Option-cases, Fault, Result, Result-cases, ok, err, task_not_found, ◌>>=◌,
}
use a2a_go.Base.Maps.{lookup, insert, lookup-insert}
use a2a_go.Core.{Task}
use a2a_go.TaskStore.Api.{StoredTask, UpdateRequest, version_missing, next_version}
use a2a_go.TaskStore.InMemory.{Caller, Entry, Tasks, prepare, create, update, get}

module _ (deep_copy : Task → Result Task) where
  prepare_inv :
      (c : Caller) (t : Task) (user : String) (copy : Task) (owner : String)
      → prepare deep_copy c t ≡ ok (user, copy)
      → c.user ≡ ok owner
      → deep_copy t ≡ ok t
      → (copy ≡ t) × (user ≡ owner)
  unfolding prepare
  prepare_inv c t user copy owner h who copied = ground arith

  pub prepare_copy :
      (c : Caller) (t : Task) (user : String) (copy : Task)
      → prepare deep_copy c t ≡ ok (user, copy)
      → deep_copy t ≡ ok copy
  unfolding prepare
  prepare_copy c t user copy h = ground arith

  pub prepare_user :
      (c : Caller) (t : Task) (user : String) (copy : Task)
      → prepare deep_copy c t ≡ ok (user, copy)
      → c.user ≡ ok user
  unfolding prepare
  prepare_user c t user copy h = ground arith

  -- what a successful `Create` did
  abbrev Created : Caller → Task → Tasks → ℕ → Tasks → Type 0
  Created c t s v s' =
      (user : String) × (copy : Task) × (prepare deep_copy c t ≡ ok (user, copy))
      × (lookup t.id s ≡ none)
      × (v ≡ 1)
      × (s'
          ≡ insert t.id (record { task = copy; version = 1; user = user; last_updated = c.now }) s)

  pub create_ok :
      (c : Caller) (t : Task) (s : Tasks) (v : ℕ)
      → (create deep_copy c t s).0 ≡ ok v
      → Created c t s v (create deep_copy c t s).1
  unfolding create
  create_ok c t s v h = elim (Result-cases (prepare deep_copy c t)) [
    | inl (e, p) ↦ absurd (ground arith)
    | inr ((user, copy), p) ↦ elim (Option-cases (lookup t.id s)) [
      | inl q ↦ (user, copy, p, q, ground arith, ground arith)
      | inr (a, q) ↦ absurd (ground arith)
    ]
  ]

  -- what a successful `Update` did
  abbrev Updated : Caller → UpdateRequest → Tasks → ℕ → Tasks → Type 0
  Updated c r s v s' =
      (stored : Entry) × (copy : Task) × (prepare deep_copy c r.task ≡ ok (stored.user, copy))
      × (lookup r.task.id s ≡ some stored)
      × ((r.prev_version ≡ version_missing) ⊎ (r.prev_version ≡ stored.version))
      × (v ≡ next_version stored.version)
      × (s'
          ≡ insert r.task.id
              (record {
                task = copy;
                version = next_version stored.version;
                user = stored.user;
                last_updated = c.now;
              })
              s)

  pub update_ok :
      (c : Caller) (r : UpdateRequest) (s : Tasks) (v : ℕ)
      → (update deep_copy c r s).0 ≡ ok v
      → Updated c r s v (update deep_copy c r s).1
  unfolding update
  update_ok c r s v h = elim (Result-cases (prepare deep_copy c r.task)) [
    | inl (e, p) ↦ absurd (ground arith)
    | inr ((user, copy), p) ↦ elim (Option-cases (lookup r.task.id s)) [
      | inl q ↦ absurd (ground arith)
      | inr (a, q) ↦
          (a, copy, ground (arith, eq_iff a.user user), q, ground arith, ground arith, ground arith)
    ]
  ]

  pub create_failed :
      (c : Caller) (t : Task) (s : Tasks) (e : Fault)
      → (create deep_copy c t s).0 ≡ err e
      → (create deep_copy c t s).1 ≡ s
  unfolding create
  create_failed c t s e h = ground arith

  pub update_failed :
      (c : Caller) (r : UpdateRequest) (s : Tasks) (e : Fault)
      → (update deep_copy c r s).0 ≡ err e
      → (update deep_copy c r s).1 ≡ s
  unfolding update
  update_failed c r s e h = ground arith

  -- no version wraps onto itself
  next-ne : (v : ℕ) → next_version v ≢ v
  next-ne v = omega arith

  -- after a successful update the task's version is the next one
  updated_version :
      (c : Caller) (q : UpdateRequest) (s : Tasks) (v : ℕ)
      → (update deep_copy c q s).0 ≡ ok v
      → q.prev_version ≢ version_missing
      → (new : Entry) × (lookup q.task.id (update deep_copy c q s).1 ≡ some new)
        × (new.version ≡ next_version q.prev_version)
  updated_version c q s v h some_prev =
      let (stored, copy, _, _, prev, _, after_q) = update_ok c q s v h in
      let new : Entry = record {
        task = copy;
        version = next_version stored.version;
        user = stored.user;
        last_updated = c.now;
      } in
      (
        new,
        ap (lookup q.task.id) after_q ∙ lookup-insert q.task.id q.task.id new s ∙ rw eq_refl,
        elim prev [ inl z ↦ absurd (some_prev z) | inr z ↦ ap next_version (sym z) ],
      )

  -- Of two updates that were made from one read of a task, at most one succeeds: after the first,
  -- the second fails, whoever calls, and the store stays as the first left it.
  pub update_once :
      (c d : Caller) (q r : UpdateRequest) (s : Tasks) (v : ℕ)
      → (update deep_copy c q s).0 ≡ ok v
      → r.task.id ≡ q.task.id
      → r.prev_version ≡ q.prev_version
      → q.prev_version ≢ version_missing
      → (e : Fault) × ((update deep_copy d r (update deep_copy c q s).1).0 ≡ err e)
        × ((update deep_copy d r (update deep_copy c q s).1).1 ≡ (update deep_copy c q s).1)
  update_once c d q r s v h same prev some_prev =
      let s' = (update deep_copy c q s).1 in
      elim (Result-cases (update deep_copy d r s').0) [
        | inl (e, p) ↦ (e, p, update_failed d r s' e p)
        | inr (w, p) ↦
            let (stored, _, _, found, prev_r, _, _) = update_ok d r s' w p in
            let (new, found_new, version_new) = updated_version c q s v h some_prev in
            absurd (
              let same_entry : some stored ≡ some new = sym found ∙ rw same found_new in
              ground (arith, next-ne q.prev_version))
      ]

  -- what `Get` says of an entry that the store has
  abbrev pub shown : Caller → Entry → Result StoredTask
  shown d a = do
    user ← d.user
    if str_eq a.user user
        then (ok (record { task = a.task; version = a.version; user = a.user }))
        else err task_not_found

  pub get_found_entry :
      (d : Caller) (id : String) (s : Tasks) (a : Entry)
      → lookup id s ≡ some a
      → deep_copy a.task ≡ ok a.task
      → get deep_copy d id s ≡ shown d a
  unfolding get
  get_found_entry d id s a h k = ground arith

  -- A task that was created is read back, at version 1, by the user that created it, and by every
  -- other user as a task that does not exist. `deep_copy` is to copy this task.
  pub get-create :
      (c d : Caller) (t : Task) (s : Tasks) (v : ℕ) (owner : String)
      → (create deep_copy c t s).0 ≡ ok v
      → c.user ≡ ok owner
      → deep_copy t ≡ ok t
      → get deep_copy d t.id (create deep_copy c t s).1
        ≡ shown d (record { task = t; version = 1; user = owner; last_updated = c.now })
  get-create c d t s v owner h who copied =
      let (user, copy, prepared, _, _, after_c) = create_ok c t s v h in
      let e : Entry = record { task = t; version = 1; user = owner; last_updated = c.now } in
      let (copy_is, user_is) = prepare_inv c t user copy owner prepared who copied in
      get_found_entry d t.id _ e
        (ap (lookup t.id) after_c ∙ lookup-insert t.id t.id _ s ∙ rw eq_refl (ground arith)) copied
