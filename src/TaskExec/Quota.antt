-- ===== src/TaskExec/Quota.antt =====
-- What the limiter's two operations do to its counters.
use a2a_go.Base.{
  ℕ, ◌+◌, ◌-◌, ◌≤◌, ◌<◌, String, ℤ, pos, negsuc, Option, none, some, ◌≡◌, refl, sym, ap, subst, ◌∙◌,
  false, inl, inr, arith, if◌then◌else◌, str_eq, eq_iff, Option-cases, Bool-cases, Fault, ok, err,
}
use a2a_go.Base.Maps.{lookup-insert, lookup-remove}
use a2a_go.TaskExec.Limiter.{
  ConcurrencyConfig, ConcurrencyLimiter, is_reached, active, acquire_quota, release_quota,
}

-- what one execution started in a context adds to the count of a scope
abbrev pub share : String → Option String → ℕ
share scope none = 0
share scope (some s) = if str_eq s scope then 1 else 0

-- a limit that is positive is kept
abbrev pub Within : ℤ → ℕ → Type 0
Within (pos limit) n = 0 < limit → n ≤ limit
Within (negsuc _) n = Unit

pub record IsWithinLimits (l : ConcurrencyLimiter) : Type 0 where
  pub total : Within l.config.max_executions l.executions
  pub scoped :
      (get : String → ℤ) (scope : String)
      → l.config.get_max_executions ≡ some get
      → Within (get scope) (active scope l)

below : (limit : ℤ) (n : ℕ) → is_reached limit n ≡ false → Within limit (n + 1)
below (pos limit) n h = λ p. ground arith
below (negsuc _) n h = tt

fewer : (limit : ℤ) (n m : ℕ) → m ≤ n → Within limit n → Within limit m
fewer (pos limit) n m le h = λ p. ground (arith, h p)
fewer (negsuc _) n m le h = tt

pub acquire_quota-config :
    (scope : Option String) (l : ConcurrencyLimiter) → (acquire_quota scope l).1.config ≡ l.config
unfolding acquire_quota
acquire_quota-config none l = elim (Option-cases l.config.get_max_executions) [
  | inl g ↦ ground arith
  | inr (get, g) ↦ ground arith
]
acquire_quota-config (some s) l = elim (Option-cases l.config.get_max_executions) [
  | inl g ↦ ground arith
  | inr (get, g) ↦ ground arith
]

pub acquire_quota_failed :
    (scope : Option String) (l : ConcurrencyLimiter) (e : Fault)
    → (acquire_quota scope l).0 ≡ err e
    → (acquire_quota scope l).1 ≡ l
unfolding acquire_quota
acquire_quota_failed none l e h = elim (Option-cases l.config.get_max_executions) [
  | inl g ↦ ground arith
  | inr (get, g) ↦ ground arith
]
acquire_quota_failed (some s) l e h = elim (Option-cases l.config.get_max_executions) [
  | inl g ↦ ground arith
  | inr (get, g) ↦ ground arith
]

acquire_quota_room :
    (scope : Option String) (l : ConcurrencyLimiter)
    → (acquire_quota scope l).0 ≡ ok tt
    → is_reached l.config.max_executions l.executions ≡ false
unfolding acquire_quota
acquire_quota_room scope l h = ground arith

pub acquire_quota-executions :
    (scope : Option String) (l : ConcurrencyLimiter)
    → (acquire_quota scope l).0 ≡ ok tt
    → (acquire_quota scope l).1.executions ≡ l.executions + 1
unfolding acquire_quota
acquire_quota-executions none l h = elim (Option-cases l.config.get_max_executions) [
  | inl g ↦ ground arith
  | inr (get, g) ↦ ground arith
]
acquire_quota-executions (some s) l h = elim (Option-cases l.config.get_max_executions) [
  | inl g ↦ ground arith
  | inr (get, g) ↦ ground arith
]

pub acquire_quota-active :
    (scope : Option String) (l : ConcurrencyLimiter) (get : String → ℤ) (k : String)
    → l.config.get_max_executions ≡ some get
    → (acquire_quota scope l).0 ≡ ok tt
    → active k (acquire_quota scope l).1 ≡ active k l + share k scope
unfolding acquire_quota active
acquire_quota-active none l get k g h = ground arith
acquire_quota-active (some s) l get k g h =
    let n : ℕ = active s l in
    let m : ℕ = n + 1 in ground (arith, eq_iff s k, lookup-insert s k m l.executions_by_scope)

acquire_quota_scope_room :
    (s : String) (l : ConcurrencyLimiter) (get : String → ℤ)
    → l.config.get_max_executions ≡ some get
    → (acquire_quota (some s) l).0 ≡ ok tt
    → is_reached (get s) (active s l) ≡ false
unfolding acquire_quota
acquire_quota_scope_room s l get g h = ground arith

pub release_quota-active :
    (scope : Option String) (l : ConcurrencyLimiter) (get : String → ℤ) (k : String)
    → l.config.get_max_executions ≡ some get
    → active k (release_quota scope l) ≡ active k l - share k scope
unfolding release_quota active
release_quota-active none l get k g = ground arith
release_quota-active (some s) l get k g =
    let n : ℕ = active s l in
    let m : ℕ = n - 1 in
    ground (
      arith,
      eq_iff s k,
      lookup-insert s k m l.executions_by_scope,
      lookup-remove s k l.executions_by_scope,
    )

scope_room :
    (scope : Option String) (l : ConcurrencyLimiter) (get : String → ℤ) (k : String)
    → l.config.get_max_executions ≡ some get
    → (acquire_quota scope l).0 ≡ ok tt
    → Within (get k) (active k l)
    → Within (get k) (active k l + share k scope)
scope_room none l get k g h w = fewer (get k) (active k l) _ (omega arith) w
scope_room (some s) l get k g h w = elim (Bool-cases (str_eq s k)) [
  | inl e ↦
      let p : s ≡ k = (eq_iff s k).0 e in
      let room = acquire_quota_scope_room s l get g h in
      rw e
        (below (get k) (active k l) (subst (λ x. is_reached (get x) (active x l) ≡ false) p room))
  | inr e ↦ rw e (fewer (get k) (active k l) _ (omega arith) w)
]

pub acquire_quota-IsWithinLimits :
    (scope : Option String) (l : ConcurrencyLimiter)
    → (acquire_quota scope l).0 ≡ ok tt
    → IsWithinLimits l
    → IsWithinLimits (acquire_quota scope l).1
acquire_quota-IsWithinLimits scope l h w =
    let same = acquire_quota-config scope l in
    record {
      total =
          subst (λ c. Within c.max_executions (acquire_quota scope l).1.executions) (sym same)
            (subst (Within l.config.max_executions) (sym (acquire_quota-executions scope l h))
              (below l.config.max_executions l.executions (acquire_quota_room scope l h)));
      scoped = λ get k g.
          let g' : l.config.get_max_executions ≡ some get =
            ap (λ (c : ConcurrencyConfig). c.get_max_executions) (sym same) ∙ g in
          subst (Within (get k)) (sym (acquire_quota-active scope l get k g' h))
            (scope_room scope l get k g' h (w.scoped get k g'));
    }

pub release_quota-executions :
    (scope : Option String) (l : ConcurrencyLimiter)
    → (release_quota scope l).executions ≡ l.executions - 1
unfolding release_quota
release_quota-executions scope l = ground arith

pub release_quota-config :
    (scope : Option String) (l : ConcurrencyLimiter) → (release_quota scope l).config ≡ l.config
unfolding release_quota
release_quota-config scope l = refl

pub release_quota-IsWithinLimits :
    (scope : Option String) (l : ConcurrencyLimiter)
    → IsWithinLimits l
    → IsWithinLimits (release_quota scope l)
release_quota-IsWithinLimits scope l w =
    let same = release_quota-config scope l in
    record {
      total =
          subst (λ c. Within c.max_executions (release_quota scope l).executions) (sym same)
            (subst (Within l.config.max_executions) (sym (release_quota-executions scope l))
              (fewer l.config.max_executions l.executions _ (omega arith) w.total));
      scoped = λ get k g.
          let g' : l.config.get_max_executions ≡ some get =
            ap (λ (c : ConcurrencyConfig). c.get_max_executions) (sym same) ∙ g in
          subst (Within (get k)) (sym (release_quota-active scope l get k g'))
            (fewer (get k) (active k l) _ (omega arith) (w.scoped get k g'));
    }
