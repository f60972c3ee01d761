-- ===== src/TaskExec/Limiter.antt =====
-- The quota of concurrent executions: internal/taskexec/limiter.go, with the configuration of
-- a2asrv/limiter. A scope is what `limiter.ScopeFrom` finds in a context. A counter starts at 0 and
-- is lowered only where it is positive, so it is a natural number; a limit is an `int`.
use a2a_go.Base.{
  ℕ, ◌+◌, ◌-◌, String, ℤ, pos, negsuc, Bool, false, ◌&&◌, Option, none, some, [], if◌then◌else◌,
  ltb, leb, ◌==◌, Result, ok, err, other,
}
use a2a_go.Base.Maps.{GoMap, lookup, insert, remove}

pub record ConcurrencyConfig : Type 0 where
  pub max_executions : ℤ
  pub get_max_executions : Option (String → ℤ)

pub record ConcurrencyLimiter : Type 0 where
  pub config : ConcurrencyConfig
  pub executions : ℕ
  pub executions_by_scope : GoMap ℕ

abbrev pub new_concurrency_limiter : ConcurrencyConfig → ConcurrencyLimiter
new_concurrency_limiter config = record {
  config = config;
  executions = 0;
  executions_by_scope = [];
}

-- `limit > 0 && active >= limit`
abbrev pub is_reached : ℤ → ℕ → Bool
is_reached (pos limit) active = ltb 0 limit && leb limit active
is_reached (negsuc _) active = false

or_zero : Option ℕ → ℕ
or_zero none = 0
or_zero (some n) = n

-- `l.executionsByScope[scope]`
unfoldable pub active : String → ConcurrencyLimiter → ℕ
unfolding or_zero
active scope l = or_zero (lookup scope l.executions_by_scope)

abbrev with_counts : ConcurrencyLimiter → ℕ → GoMap ℕ → ConcurrencyLimiter
with_counts l n by_scope = record {
  config = l.config;
  executions = n;
  executions_by_scope = by_scope;
}

acquire_scope :
    Option String
    → Option (String → ℤ)
    → ConcurrencyLimiter
    → Result (Unit {0}) × ConcurrencyLimiter
acquire_scope scope none l = (ok tt, with_counts l (l.executions + 1) l.executions_by_scope)
acquire_scope none (some get) l = (ok tt, with_counts l (l.executions + 1) l.executions_by_scope)
acquire_scope (some scope) (some get) l =
    if is_reached (get scope) (active scope l)
    then (err (other "max scope concurrency limit reached"), l)
    else (
      ok tt,
      with_counts l (l.executions + 1) (insert scope (active scope l + 1) l.executions_by_scope),
    )

-- `acquireQuotaLocked`
unfoldable pub acquire_quota :
    Option String → ConcurrencyLimiter → Result (Unit {0}) × ConcurrencyLimiter
unfolding acquire_scope
acquire_quota scope l =
    if is_reached l.config.max_executions l.executions
    then (err (other "max concurrency limit reached"), l)
    else acquire_scope scope l.config.get_max_executions l

release_scope : Option String → Option (String → ℤ) → ConcurrencyLimiter → GoMap ℕ
release_scope scope none l = l.executions_by_scope
release_scope none (some get) l = l.executions_by_scope
release_scope (some scope) (some get) l =
    if active scope l == 1
    then remove scope l.executions_by_scope
    else if ltb 0 (active scope l)
    then insert scope (active scope l - 1) l.executions_by_scope
    else l.executions_by_scope

-- `releaseQuotaLocked`
unfoldable pub release_quota : Option String → ConcurrencyLimiter → ConcurrencyLimiter
unfolding release_scope
release_quota scope l =
    with_counts l (if ltb 0 l.executions then l.executions - 1 else l.executions)
      (release_scope scope l.config.get_max_executions l)
