-- ===== src/TaskExec/Counting.antt =====
-- How many of the executions of internal/taskexec/local_manager.go were asked for in a scope of
-- internal/taskexec/limiter.go.
use a2a_go.Base.{
  ℕ, ◌+◌, String, none, some, [], ◌∷◌, ◌≡◌, inl, inr, sym, ap, subst, ◌∙◌, arith, str_eq, eq_iff,
  Bool-cases,
}
use a2a_go.Base.Maps.{GoMap, IsMap, lookup, insert, remove, remove_absent}
use a2a_go.TaskExec.Quota.{share}
use a2a_go.TaskExec.LocalManager.{LocalExecution}

-- how many of the executions were asked for in a scope
unfoldable pub in_scope : String → GoMap LocalExecution → ℕ
in_scope scope [] = 0
in_scope scope ((_, e) ∷ m) = share scope e.scope + in_scope scope m

pub in_scope-insert_new :
    (k tid : String) (e : LocalExecution) (m : GoMap LocalExecution)
    → lookup tid m ≡ none
    → in_scope k (insert tid e m) ≡ in_scope k m + share k e.scope
unfolding in_scope lookup insert
in_scope-insert_new k tid e [] h = omega arith
in_scope-insert_new k tid e ((i, w) ∷ m) h = ground (arith, in_scope-insert_new k tid e m)

pub in_scope-insert_old :
    (k tid : String) (e d : LocalExecution) (m : GoMap LocalExecution)
    → lookup tid m ≡ some d
    → e.scope ≡ d.scope
    → in_scope k (insert tid e m) ≡ in_scope k m
unfolding in_scope lookup insert
in_scope-insert_old k tid e d [] h s = cc
in_scope-insert_old k tid e d ((i, w) ∷ m) h s = elim (Bool-cases (str_eq i tid)) [
  | inl p ↦
      let q : w ≡ d = ground arith in
      let same : share k w.scope ≡ share k e.scope = ap (share k) (ap (λ x. x.scope) q ∙ sym s) in
      rw p (omega (arith, same))
  | inr p ↦ ground (arith, in_scope-insert_old k tid e d m)
]

pub in_scope-remove :
    (k tid : String) (e : LocalExecution) (m : GoMap LocalExecution)
    → IsMap m
    → lookup tid m ≡ some e
    → in_scope k m ≡ share k e.scope + in_scope k (remove tid m)
unfolding in_scope lookup remove
in_scope-remove k tid e [] u h = cc
in_scope-remove k tid e ((i, w) ∷ m) u h = elim (Bool-cases (str_eq i tid)) [
  | inl p ↦
      let q : w ≡ e = ground arith in
      let here : i ≡ tid = (eq_iff i tid).0 p in
      let gone : remove tid m ≡ m = remove_absent tid m (subst (λ j. lookup j m ≡ none) here u.0) in
      rw p (rw gone (ap (λ (x : LocalExecution). share k x.scope + in_scope k m) q))
  | inr p ↦ ground (arith, in_scope-remove k tid e m u.1)
]
