-- ===== src/TaskStore/Runs.antt =====
-- What holds of the in-memory store over every sequence of writes, by any callers.
use a2a_go.Base.{
  ◌+◌, ◌≤◌, ◌<◌, String, some, List, [], ◌∷◌, length, ◌≡◌, ◌⊎◌, inl, inr, refl, ap, sym, ◌∙◌, arith,
  str_eq, eq_iff, Bool-cases, Result, Result-cases, ok,
}
use a2a_go.Base.Maps.{IsMap, lookup, insert, lookup-insert, IsMap-insert}
use a2a_go.Core.{Task}
use a2a_go.TaskStore.Api.{UpdateRequest, next_version}
use a2a_go.TaskStore.InMemory.{Caller, Entry, Tasks, create, update}
use a2a_go.TaskStore.Versions.{create_ok, update_ok, create_failed, update_failed, prepare_copy}

-- One call that may write.
pub data Call : Type 0 where
  creates : Caller → Task → Call
  updates : Caller → UpdateRequest → Call

-- No key stands twice, and every entry is stored under its task's ID.
pub record IsWellFormed (s : Tasks) : Type 0 where
  pub distinct : IsMap s
  pub keyed : (id : String) (a : Entry) → lookup id s ≡ some a → a.task.id ≡ id

module _ (deep_copy : Task → Result Task) where
  abbrev pub after_call : Call → Tasks → Tasks
  after_call (creates c t) s = (create deep_copy c t s).1
  after_call (updates c r) s = (update deep_copy c r s).1

  unfoldable pub run : List Call → Tasks → Tasks
  run [] s = s
  run (x ∷ xs) s = run xs (after_call x s)

  -- an entry after a call: untouched, or the next version for the same owner
  abbrev Grows : Entry → Entry → Type 0
  Grows a b = (b ≡ a) ⊎ ((b.version ≡ next_version a.version) × (b.user ≡ a.user))

  create_keeps :
      (c : Caller) (t : Task) (s : Tasks) (id : String) (a : Entry)
      → lookup id s ≡ some a
      → lookup id (create deep_copy c t s).1 ≡ some a
  create_keeps c t s id a h = elim (Result-cases (create deep_copy c t s).0) [
    | inl (e, p) ↦ rw (create_failed deep_copy c t s e p) h
    | inr (v, p) ↦
        let (user, copy, _, absent, _, after_c) = create_ok deep_copy c t s v p in
        ap (lookup id) after_c ∙ lookup-insert t.id id _ s ∙ ground (arith, eq_iff t.id id)
  ]

  update-Grows :
      (c : Caller) (r : UpdateRequest) (s : Tasks) (id : String) (a : Entry)
      → lookup id s ≡ some a
      → (b : Entry) × (lookup id (update deep_copy c r s).1 ≡ some b) × Grows a b
  update-Grows c r s id a h = elim (Result-cases (update deep_copy c r s).0) [
    | inl (e, p) ↦ (a, rw (update_failed deep_copy c r s e p) h, inl refl)
    | inr (v, p) ↦
        let (stored, copy, _, found, _, _, after_r) = update_ok deep_copy c r s v p in
        let new : Entry = record {
          task = copy;
          version = next_version stored.version;
          user = stored.user;
          last_updated = c.now;
        } in
        let read = ap (lookup id) after_r ∙ lookup-insert r.task.id id new s in
        elim (Bool-cases (str_eq r.task.id id)) [
          | inl e ↦ (new, read ∙ rw e, inr (ground (arith, eq_iff r.task.id id)))
          | inr e ↦ (a, read ∙ rw e h, inl refl)
        ]
  ]

  call-Grows :
      (x : Call) (s : Tasks) (id : String) (a : Entry)
      → lookup id s ≡ some a
      → (b : Entry) × (lookup id (after_call x s) ≡ some b) × Grows a b
  call-Grows (creates c t) s id a h = (a, create_keeps c t s id a h, inl refl)
  call-Grows (updates c r) s id a h = update-Grows c r s id a h

  -- Whatever calls are made, by whatever users, a stored task is never lost and never changes its
  -- owner, its version never falls, and while the version is the same so is the whole entry. The
  -- counter of 63 bits is to have room for the calls.
  pub run_grows :
      (calls : List Call) (s : Tasks) (id : String) (a : Entry)
      → lookup id s ≡ some a
      → a.version + length calls < 9223372036854775808
      → (b : Entry) × (lookup id (run calls s) ≡ some b)
        × (b.user ≡ a.user)
        × (a.version ≤ b.version)
        × ((b.version ≡ a.version) → b ≡ a)
  unfolding run
  run_grows [] s id a h room = (a, h, refl, omega arith, λ _. refl)
  run_grows (x ∷ xs) s id a h room =
      let (b, found, grows) = call-Grows x s id a h in
      elim grows [
        | inl same ↦ run_grows xs (after_call x s) id a (rw (← same) found) (omega arith)
        | inr (up, owner) ↦
            let (c, found_c, owner_c, le, _) =
              run_grows xs (after_call x s) id b found (omega arith) in
            (c, found_c, owner_c ∙ owner, omega arith, λ k. absurd (omega arith))
      ]

  insert-IsWellFormed :
      (s : Tasks) (id : String) (a : Entry)
      → a.task.id ≡ id
      → IsWellFormed s
      → IsWellFormed (insert id a s)
  insert-IsWellFormed s id a k w = record {
    distinct = IsMap-insert id a s w.distinct;
    keyed = λ j b h. elim (Bool-cases (str_eq id j)) [
      | inl e ↦ let p = lookup-insert id j a s in ground (arith, eq_iff id j)
      | inr e ↦ w.keyed j b (sym (lookup-insert id j a s ∙ rw e) ∙ h)
    ];
  }

  -- Every call keeps the store well formed, if a copy has the ID of its original.
  pub after_call-IsWellFormed :
      (x : Call) (s : Tasks)
      → ((t u : Task) → deep_copy t ≡ ok u → u.id ≡ t.id)
      → IsWellFormed s
      → IsWellFormed (after_call x s)
  after_call-IsWellFormed (creates c t) s copies w =
      elim (Result-cases (create deep_copy c t s).0) [
        | inl (e, p) ↦ rw (create_failed deep_copy c t s e p) w
        | inr (v, p) ↦
            let (user, copy, prepared, _, _, after_c) = create_ok deep_copy c t s v p in
            rw after_c (
              insert-IsWellFormed s t.id _
                (copies t copy (prepare_copy deep_copy c t user copy prepared)) w)
      ]
  after_call-IsWellFormed (updates c r) s copies w =
      elim (Result-cases (update deep_copy c r s).0) [
        | inl (e, p) ↦ rw (update_failed deep_copy c r s e p) w
        | inr (v, p) ↦
            let (stored, copy, prepared, _, _, _, after_r) = update_ok deep_copy c r s v p in
            rw after_r (
              insert-IsWellFormed s r.task.id _
                (copies r.task copy (prepare_copy deep_copy c r.task stored.user copy prepared)) w)
      ]
