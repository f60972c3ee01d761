-- ===== src/Push/Configs.antt =====
-- What the store of push configurations keeps and returns, a2asrv/push/store.go.
use a2a_go.Base.{
  ◌≤◌, String, Bool, Option, none, some, List, [], ◌∷◌, length, if◌then◌else◌, str_eq, eq_iff, ◌&&◌,
  not, is_some, leb, push_config_not_found, ◌≡◌, refl, ap, sym, subst, ◌∙◌, inl, inr, arith,
  Bool-cases, Option-cases, Result, ok, err, Result-cases,
}
use a2a_go.Base.Maps.{
  GoMap, IsMap, lookup, insert, remove, lookup-insert, lookup-remove, IsMap-insert, IsMap-remove,
  length-insert_new, length-insert_old, length-remove-le,
}
use a2a_go.Push.Store.{
  PushConfig, Configs, or_empty, identify, max_push_configs_per_task, validate_config, put, save,
  get, delete, delete_all,
}

-- what stands under a task and an ID
abbrev pub at : String → String → Configs → Option PushConfig
at task_id id s = lookup id (or_empty (lookup task_id s))

-- Every task's map is a map of at most fifty entries.
abbrev pub IsBounded : Configs → Type 0
IsBounded s =
    (task_id : String)
    → IsMap (or_empty (lookup task_id s))
      × (length (or_empty (lookup task_id s)) ≤ max_push_configs_per_task)

insert-IsBounded :
    (t : String) (m : GoMap PushConfig) (s : Configs)
    → IsMap m
    → length m ≤ max_push_configs_per_task
    → IsBounded s
    → IsBounded (insert t m s)
insert-IsBounded t m s u le b j = elim (Bool-cases (str_eq t j)) [
  | inl e ↦ rw (lookup-insert t j m s, e) (u, le)
  | inr e ↦ rw (lookup-insert t j m s, e) (b j)
]

at-insert :
    (t j i : String) (m : GoMap PushConfig) (s : Configs)
    → at j i (insert t m s) ≡ (if str_eq t j then lookup i m else at j i s)
at-insert t j i m s = elim (Bool-cases (str_eq t j)) [
  | inl e ↦ rw (lookup-insert t j m s, e) refl
  | inr e ↦ rw (lookup-insert t j m s, e) refl
]

module _ (deep_copy : PushConfig → Result PushConfig) where
  put-IsBounded :
      (t : String) (c : PushConfig) (s : Configs) → IsBounded s → IsBounded (put deep_copy t c s).1
  unfolding put
  put-IsBounded t c s b =
      let m : GoMap PushConfig = or_empty (lookup t s) in
      let (u, le) = b t in
      elim (Option-cases (lookup c.id m)) [
        | inr (d, p) ↦ rw p (
            insert-IsBounded t (insert c.id c m) s (IsMap-insert c.id c m u)
              (omega (arith, length-insert_old c.id c d m p)) b)
        | inl p ↦ elim (Bool-cases (leb max_push_configs_per_task (length m))) [
          | inl q ↦ rw (p, q) (insert-IsBounded t m s u le b)
          | inr q ↦
              rw (p, q)
                (insert-IsBounded t (insert c.id c m) s (IsMap-insert c.id c m u)
                  (ground (arith, length-insert_new c.id c m p)) b)
        ]
      ]

  -- what a successful write did
  put-at :
      (t : String) (c saved : PushConfig) (s : Configs) (j i : String)
      → (put deep_copy t c s).0 ≡ ok saved
      → at j i (put deep_copy t c s).1 ≡ (if str_eq t j && str_eq c.id i then some c else at j i s)
  unfolding put
  put-at t c saved s j i h =
      let m : GoMap PushConfig = or_empty (lookup t s) in
      elim (Bool-cases
        (not (is_some (lookup c.id m)) && leb max_push_configs_per_task (length m))) [
          | inl p ↦ absurd (ground arith)
          | inr p ↦ rw p (
              at-insert t j i (insert c.id c m) s ∙ elim (Bool-cases (str_eq t j)) [
                | inl e ↦
                    let same : t ≡ j = (eq_iff t j).0 e in
                    rw (e, lookup-insert c.id i c m)
                      (ap (λ x. if str_eq c.id i then some c else at x i s) same)
                | inr e ↦ rw e refl
              ])
        ]

  -- a copy is the same value
  abbrev Copies : Type 0
  Copies = (c : PushConfig) → deep_copy c ≡ ok c

  put_ok :
      (t : String) (c saved : PushConfig) (s : Configs)
      → Copies
      → (put deep_copy t c s).0 ≡ ok saved
      → saved ≡ c
  unfolding put
  put_ok t c saved s copies h = ground (arith, copies c)

  module _ (parses : String → Bool) where
    -- what a successful `Save` returned and wrote
    save_ok :
        (fresh t : String) (c saved : PushConfig) (s : Configs)
        → Copies
        → (save deep_copy parses fresh t (some c) s).0 ≡ ok saved
        → (saved ≡ record c { id = if str_eq c.id "" then fresh else c.id; task_id = t })
          × ((save deep_copy parses fresh t (some c) s).1 ≡ (put deep_copy t saved s).1)
          × ((put deep_copy t saved s).0 ≡ ok saved)
    unfolding save
    save_ok fresh t c saved s copies h = elim (Result-cases (validate_config parses c)) [
      | inl (e, p) ↦ absurd (ground arith)
      | inr (u, p) ↦
          let h' : (put deep_copy t (identify fresh t c) s).0 ≡ ok saved = rw (p, copies c) at h in
          let q : saved ≡ identify fresh t c = put_ok t (identify fresh t c) saved s copies h' in
          (q, rw (p, copies c, q) refl, subst (λ x. (put deep_copy t x s).0 ≡ ok saved) (sym q) h')
    ]

    -- A saved configuration is returned with the task's ID and its own ID, or the new one if it had
    -- none. It is what `Get` then gives under them, and under every other task or ID `Get` gives
    -- what it gave before.
    pub get-save :
        (fresh t j i : String) (c saved : PushConfig) (s : Configs)
        → Copies
        → (save deep_copy parses fresh t (some c) s).0 ≡ ok saved
        → (saved ≡ record c { id = if str_eq c.id "" then fresh else c.id; task_id = t })
          × (get deep_copy j i (save deep_copy parses fresh t (some c) s).1
              ≡ (if str_eq t j && str_eq saved.id i then ok saved else get deep_copy j i s))
    unfolding get
    get-save fresh t j i c saved s copies h =
        let (q, after, written) = save_ok fresh t c saved s copies h in
        (
          q,
          rw (after, put-at t saved saved s j i written)
              (elim (Bool-cases (str_eq t j && str_eq saved.id i)) [
                | inl e ↦ rw e (copies saved)
                | inr e ↦ rw e refl
              ]),
        )

    save-IsBounded :
        (fresh t : String) (c : Option PushConfig) (s : Configs)
        → IsBounded s
        → IsBounded (save deep_copy parses fresh t c s).1
    unfolding save
    save-IsBounded fresh t none s b = b
    save-IsBounded fresh t (some c) s b = elim (Result-cases (validate_config parses c)) [
      | inl (e, p) ↦ rw p b
      | inr (u, p) ↦ elim (Result-cases (deep_copy c)) [
        | inl (e, q) ↦ rw (p, q) b
        | inr (d, q) ↦ rw (p, q) (put-IsBounded t (identify fresh t d) s b)
      ]
    ]

-- What is deleted is no longer found, and every other configuration is found as before.
pub get-delete :
    (deep_copy : PushConfig → Result PushConfig) (t i j k : String) (s : Configs)
    → get deep_copy j k (delete t i s)
      ≡ (if str_eq t j && str_eq i k then err push_config_not_found else get deep_copy j k s)
unfolding get delete lookup
get-delete deep_copy t i j k s = elim (Option-cases (lookup t s)) [
  | inl p ↦ elim (Bool-cases (str_eq t j)) [
    | inl e ↦
        let absent : lookup j s ≡ none = subst (λ x. lookup x s ≡ none) ((eq_iff t j).0 e) p in
        rw (p, e, absent) (elim (Bool-cases (str_eq i k)) [ inl d ↦ rw d refl | inr d ↦ rw d refl ])
    | inr e ↦ rw (p, e) refl
  ]
  | inr (m, p) ↦ elim (Bool-cases (str_eq t j)) [
    | inl e ↦
        let found : lookup j s ≡ some m = subst (λ x. lookup x s ≡ some m) ((eq_iff t j).0 e) p in
        rw (p, lookup-insert t j (remove i m) s, e, found)
          (rw (lookup-remove i k m)
            (elim (Bool-cases (str_eq i k)) [ inl d ↦ rw d refl | inr d ↦ rw d refl ]))
    | inr e ↦ rw (p, lookup-insert t j (remove i m) s, e) refl
  ]
]

-- One call that may write.
pub data Write : Type 0 where
  saves : String → String → Option PushConfig → Write
  deletes : String → String → Write
  deletes_all : String → Write

module _ (deep_copy : PushConfig → Result PushConfig) (parses : String → Bool) where
  abbrev write : Write → Configs → Configs
  write (saves fresh t c) s = (save deep_copy parses fresh t c s).1
  write (deletes t i) s = delete t i s
  write (deletes_all t) s = delete_all t s

  unfoldable pub write_all : List Write → Configs → Configs
  write_all [] s = s
  write_all (x ∷ xs) s = write_all xs (write x s)

  write-IsBounded : (x : Write) (s : Configs) → IsBounded s → IsBounded (write x s)
  unfolding delete delete_all
  write-IsBounded (saves fresh t c) s b = save-IsBounded deep_copy parses fresh t c s b
  write-IsBounded (deletes t i) s b = elim (Option-cases (lookup t s)) [
    | inl p ↦ rw p b
    | inr (m, p) ↦ rw p (
        let (u, le) = rw p at (b t) in
        insert-IsBounded t (remove i m) s (IsMap-remove i m u)
          (omega (arith, le, length-remove-le i m)) b)
  ]
  write-IsBounded (deletes_all t) s b = λ j. elim (Bool-cases (str_eq t j)) [
    | inl e ↦ rw (lookup-remove t j s, e) (tt, omega arith)
    | inr e ↦ rw (lookup-remove t j s, e) (b j)
  ]

  -- Whatever is saved and deleted, no task ever has more than fifty configurations, and no two of
  -- one task have the same ID.
  pub write_all-IsBounded :
      (xs : List Write) (s : Configs) → IsBounded s → IsBounded (write_all xs s)
  unfolding write_all
  write_all-IsBounded [] s b = b
  write_all-IsBounded (x ∷ xs) s b = write_all-IsBounded xs (write x s) (write-IsBounded x s b)
