-- ===== src/WorkQueue/Tokens.antt =====
-- The tokens of the handlers that run, and the leases that are held, over a2asrv/workqueue/lease.go.
use a2a_go.Base.{
  ℕ, zero, suc, String, Bool, true, false, ◌&&◌, Option, none, some, List, [], ◌∷◌, get_elem?,
  str_eq, eq_iff, eq_refl, if◌then◌else◌, ◌≡◌, ◌≢◌, inl, inr, refl, sym, subst, arith, Bool-cases,
  Option-cases,
}
use a2a_go.Base.Maps.{lookup, remove, lookup-insert, lookup-remove}
use a2a_go.WorkQueue.Lease.{LeaseManager, Lease, token_map, with_token_map, grant, release}
use a2a_go.WorkQueue.InMemory.{remove_at}

abbrev pub same_kind : Bool → Bool → Bool
same_kind true b = b
same_kind false true = false
same_kind false false = true

module _ {Pointer : Type 0} where
  -- whether a lease is of this kind and of this task
  abbrev pub is_of : Bool → String → Lease Pointer → Bool
  is_of executing tid l = same_kind executing l.executing && str_eq l.tid tid

  -- the tokens of the running handlers of this kind for this task
  abbrev pub tokens : Bool → String → List (Lease Pointer) → List Pointer
  tokens executing tid [] = []
  tokens executing tid (l ∷ running) =
      let rest = tokens executing tid running in
      if is_of executing tid l then l.token ∷ rest else rest

  abbrev pub to_list : Option Pointer → List Pointer
  to_list none = []
  to_list (some t) = t ∷ []

  pub granted :
      (k : Bool) (of_task : String) (token : Pointer) (q : LeaseManager Pointer) (executing : Bool)
      (tid : String)
      → lookup tid (token_map executing (grant k of_task token q)) ≡ (
          if same_kind executing k && str_eq of_task tid
          then some token
          else lookup tid (token_map executing q))
  granted true of_task token q true tid = lookup-insert of_task tid token q.executions
  granted true of_task token q false tid = refl
  granted false of_task token q true tid = refl
  granted false of_task token q false tid = lookup-insert of_task tid token q.cancelations

  taken_back :
      (k : Bool) (of_task : String) (q : LeaseManager Pointer) (executing : Bool) (tid : String)
      → lookup tid (token_map executing (with_token_map k (remove of_task (token_map k q)) q)) ≡ (
          if same_kind executing k && str_eq of_task tid
          then none
          else lookup tid (token_map executing q))
  taken_back true of_task q true tid = lookup-remove of_task tid q.executions
  taken_back true of_task q false tid = refl
  taken_back false of_task q true tid = refl
  taken_back false of_task q false tid = lookup-remove of_task tid q.cancelations

  pub lookup-release :
      (same : Pointer → Pointer → Bool) (l : Lease Pointer) (q : LeaseManager Pointer)
      (executing : Bool) (tid : String)
      → same l.token l.token ≡ true
      → lookup l.tid (token_map l.executing q) ≡ some l.token
      → lookup tid (token_map executing (release same l q))
        ≡ (if is_of executing tid l then none else lookup tid (token_map executing q))
  unfolding release
  lookup-release same l q executing tid r held =
      rw (held, r) (taken_back l.executing l.tid q executing tid)

  pub tokens_nonempty :
      (running : List (Lease Pointer)) (i : ℕ) (l : Lease Pointer) (executing : Bool) (tid : String)
      → get_elem? running i ≡ some l
      → is_of executing tid l ≡ true
      → tokens executing tid running ≢ []
  tokens_nonempty [] i l executing tid at of none_left = absurd (ground arith)
  tokens_nonempty (x ∷ running) zero l executing tid at of none_left =
      let is : x ≡ l = ground arith in
      let of_x : is_of executing tid x ≡ true =
        subst (λ (y : Lease Pointer). is_of executing tid y ≡ true) (sym is) of in
      ground arith
  tokens_nonempty (x ∷ running) (suc i) l executing tid at of none_left =
      tokens_nonempty running i l executing tid at of (elim (Bool-cases (is_of executing tid x)) [
        | inl e ↦ absurd (ground arith)
        | inr e ↦ ground arith
      ])

  pub tokens-remove_at :
      (running : List (Lease Pointer)) (i : ℕ) (l : Lease Pointer) (executing : Bool) (tid : String)
      (o : Option Pointer)
      → get_elem? running i ≡ some l
      → tokens executing tid running ≡ to_list o
      → tokens executing tid (remove_at i running)
        ≡ (if is_of executing tid l then [] else to_list o)
  unfolding remove_at
  tokens-remove_at [] i l executing tid o at all = absurd (ground arith)
  tokens-remove_at (x ∷ running) zero l executing tid o at all =
      let is : x ≡ l = ground arith in
      subst
        (λ (y : Lease Pointer).
          tokens executing tid running ≡ (if is_of executing tid y then [] else to_list o))
        is
        (elim (Bool-cases (is_of executing tid x)) [
          | inl e ↦ elim (Option-cases o) [
            | inl n ↦ absurd (ground arith)
            | inr (t, n) ↦ ground arith
          ]
          | inr e ↦ ground arith
        ])
  tokens-remove_at (x ∷ running) (suc i) l executing tid o at all =
      elim (Bool-cases (is_of executing tid x)) [
        | inl e ↦ elim (Option-cases o) [
          | inl n ↦ absurd (ground arith)
          | inr (t, n) ↦
              let rest : tokens executing tid running ≡ [] = ground arith in
              let ih = tokens-remove_at running i l executing tid none at rest in
              elim (Bool-cases (is_of executing tid l)) [
                | inl f ↦ absurd (tokens_nonempty running i l executing tid at f rest)
                | inr f ↦ ground arith
              ]
        ]
        | inr e ↦
            let ih = tokens-remove_at running i l executing tid o at (ground arith) in ground arith
      ]

  pub tokens_single :
      (running : List (Lease Pointer)) (i : ℕ) (l : Lease Pointer) (executing : Bool) (tid : String)
      (t : Pointer)
      → get_elem? running i ≡ some l
      → is_of executing tid l ≡ true
      → tokens executing tid running ≡ t ∷ []
      → t ≡ l.token
  tokens_single [] i l executing tid t at of all = absurd (ground arith)
  tokens_single (x ∷ running) zero l executing tid t at of all =
      let is : x ≡ l = ground arith in
      let of_x : is_of executing tid x ≡ true =
        subst (λ (y : Lease Pointer). is_of executing tid y ≡ true) (sym is) of in
      let first : t ≡ x.token = ground arith in subst (λ (y : Lease Pointer). t ≡ y.token) is first
  tokens_single (x ∷ running) (suc i) l executing tid t at of all =
      elim (Bool-cases (is_of executing tid x)) [
        | inl e ↦ absurd (tokens_nonempty running i l executing tid at of (ground arith))
        | inr e ↦ tokens_single running i l executing tid t at of (ground arith)
      ]

  pub of_same :
      (executing : Bool) (tid : String) (l : Lease Pointer)
      → is_of executing tid l ≡ true
      → (l.executing ≡ executing) × (l.tid ≡ tid)
  of_same true tid l of = ground (arith, eq_iff l.tid tid)
  of_same false tid l of = elim (Bool-cases l.executing) [
    | inl e ↦ absurd (ground arith)
    | inr e ↦ ground (arith, eq_iff l.tid tid)
  ]

  pub of_self :
      (executing : Bool) (l : Lease Pointer)
      → l.executing ≡ executing
      → is_of executing l.tid l ≡ true
  of_self true l k = rw (k, eq_refl l.tid) refl
  of_self false l k = rw (k, eq_refl l.tid) refl
