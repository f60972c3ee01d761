-- ===== src/TaskUpdate/OverMemory.antt =====
-- The manager of internal/taskupdate over the in-memory store of a2asrv/taskstore.
use a2a_go.Base.{
  ℕ, String, Bool, false, ◌≡◌, ◌≢◌, ap, sym, ◌∙◌, arith, eq_refl, Option-cases, inl, inr, Result,
  Result-cases, ok,
}
use a2a_go.Base.Maps.{lookup, insert, lookup-insert}
use a2a_go.Core.{Task, Event, Message, message, terminal}
use a2a_go.TaskStore.Api.{StoredTask, UpdateRequest, next_version}
use a2a_go.TaskStore.InMemory.{Caller, Entry, Tasks, in_memory, create, update, get}
use a2a_go.TaskStore.Versions.{
  create_ok, update_ok, prepare_copy, prepare_user, shown, get_found_entry,
}
use a2a_go.TaskStore.Runs.{IsWellFormed, creates, updates, after_call-IsWellFormed}
use a2a_go.TaskUpdate.Manager.{Materializer, Manager, process}
use a2a_go.TaskUpdate.Laws.{IsStore, IsTracking, KeepsId}
use a2a_go.TaskUpdate.Stored.{Held, process-Held}

module _ (deep_copy : Task → Result Task)
    (faithful : (t u : Task) → deep_copy t ≡ ok u → u ≡ t) where
  copies : (t u : Task) → deep_copy t ≡ ok u → u.id ≡ t.id
  copies t u h = ap (λ (x : Task). x.id) (faithful t u h)

  shown_self :
      (c : Caller) (a : Entry)
      → c.user ≡ ok a.user
      → shown deep_copy c a ≡ ok (record { task = a.task; version = a.version; user = a.user })
  shown_self c a h = ground (arith, eq_refl a.user)

  -- what a caller reads of an entry that it has just written
  get_written :
      (c : Caller) (id : String) (a : Entry) (s s' : Tasks)
      → s' ≡ insert id a s
      → c.user ≡ ok a.user
      → deep_copy a.task ≡ ok a.task
      → get deep_copy c id s' ≡ ok (record { task = a.task; version = a.version; user = a.user })
  get_written c id a s s' after_s who copied =
      get_found_entry deep_copy c id s' a
        (ap (lookup id) after_s ∙ lookup-insert id id a s ∙ rw eq_refl) copied
      ∙ shown_self c a who

  in_memory-get-create :
      (c : Caller) (t : Task) (s : Tasks) (v : ℕ)
      → (create deep_copy c t s).0 ≡ ok v
      → (st : StoredTask) × (get deep_copy c t.id (create deep_copy c t s).1 ≡ ok st)
        × (st.task ≡ t)
        × (st.version ≡ v)
  in_memory-get-create c t s v h =
      let (user, copy, prepared, _, one, after_c) = create_ok deep_copy c t s v h in
      let copied = prepare_copy deep_copy c t user copy prepared in
      let same = faithful t copy copied in
      (
        record { task = copy; version = 1; user = user },
        get_written c t.id (record { task = copy; version = 1; user = user; last_updated = c.now })
            s (create deep_copy c t s).1 after_c (prepare_user deep_copy c t user copy prepared)
            (ap deep_copy same ∙ copied),
        same,
        sym one,
      )

  in_memory-get-update :
      (c : Caller) (r : UpdateRequest) (s : Tasks) (v : ℕ)
      → (update deep_copy c r s).0 ≡ ok v
      → (st : StoredTask) × (get deep_copy c r.task.id (update deep_copy c r s).1 ≡ ok st)
        × (st.task ≡ r.task)
        × (st.version ≡ v)
  in_memory-get-update c r s v h =
      let (stored, copy, prepared, _, _, next, after_r) = update_ok deep_copy c r s v h in
      let copied = prepare_copy deep_copy c r.task stored.user copy prepared in
      let same = faithful r.task copy copied in
      let a : Entry = record {
        task = copy;
        version = next_version stored.version;
        user = stored.user;
        last_updated = c.now;
      } in
      (
        record { task = copy; version = next_version stored.version; user = stored.user },
        get_written c r.task.id a s (update deep_copy c r s).1 after_r
            (prepare_user deep_copy c r.task stored.user copy prepared)
            (ap deep_copy same ∙ copied),
        same,
        sym next,
      )

  get_id :
      (c : Caller) (id : String) (s : Tasks) (st : StoredTask)
      → IsWellFormed s
      → get deep_copy c id s ≡ ok st
      → st.task.id ≡ id
  unfolding get
  get_id c id s st w h = elim (Option-cases (lookup id s)) [
    | inl p ↦ absurd (ground arith)
    | inr (a, p) ↦ elim (Result-cases c.user) [
      | inl (f, q) ↦ absurd (ground arith)
      | inr (user, q) ↦ elim (Result-cases (deep_copy a.task)) [
        | inl (f, z) ↦ absurd (ground arith)
        | inr (u, z) ↦
            let made : st.task ≡ u = ground arith in
            ap (λ (t : Task). t.id) (made ∙ faithful a.task u z) ∙ w.keyed id a p
      ]
    ]
  ]

  -- The in-memory store, for one caller, is a store as the manager wants it.
  pub in_memory-IsStore : (c : Caller) → IsStore (in_memory deep_copy c)
  in_memory-IsStore c = record {
    Good = IsWellFormed;
    good-create = λ t s w. after_call-IsWellFormed deep_copy (creates c t) s copies w;
    good-update = λ r s w. after_call-IsWellFormed deep_copy (updates c r) s copies w;
    good-get = λ id s w. w;
    get-create = in_memory-get-create c;
    get-update = in_memory-get-update c;
    get-get = λ id s st w h. (h, get_id c id s st w h);
  }

  pub well_formed_good : (c : Caller) (s : Tasks) → IsWellFormed s → (in_memory-IsStore c).Good s
  unfolding in_memory-IsStore
  well_formed_good c s w = w

  -- Over a well formed in-memory store, when the manager reports a version for an event that is no
  -- message, in a state that was not terminal, its user reads back from the store the task that
  -- the manager then tracks, under this version. `deep_copy` is to return the task that it copies.
  pub process-in_memory :
      (c : Caller) (mat : Materializer) (m : Manager) (e : Event) (is_init : Bool) (s : Tasks)
      (v : ℕ)
      → KeepsId mat
      → IsWellFormed s
      → IsTracking m
      → terminal m.state ≡ false
      → ((x : Message) → e ≢ message x)
      → (process (in_memory deep_copy c) deep_copy mat m e is_init s).0 ≡ ok v
      → Held
          (in_memory deep_copy c)
          deep_copy
          mat
          (process (in_memory deep_copy c) deep_copy mat m e is_init s).1
          (process (in_memory deep_copy c) deep_copy mat m e is_init s).2
          v
  unfolding in_memory-IsStore
  process-in_memory c mat m e is_init s v keeps w tracking live other_event h =
      process-Held (in_memory deep_copy c) deep_copy mat (in_memory-IsStore c) keeps m e is_init s v
        faithful w tracking live other_event h
