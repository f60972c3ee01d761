-- ===== src/TaskExec/Occupancy.antt =====
-- How many executions run at once, internal/taskexec/local_manager.go and limiter.go, over every
-- order of the manager's steps.
use a2a_go.Base.{
  String, ℤ, pos, negsuc, Bool, Option, some, [], length, ◌≡◌, inl, inr, refl, sym, ap, subst, ◌∙◌,
  arith, eq_iff, Option-cases, Result-cases,
}
use a2a_go.Base.Maps.{
  IsMap, lookup, lookup-insert, lookup-remove, IsMap-insert, IsMap-remove, length-insert_new,
  length-insert_old, length-remove_old,
}
use a2a_go.TaskExec.Limiter.{ConcurrencyConfig, active}
use a2a_go.TaskExec.Quota.{
  Within, IsWithinLimits, acquire_quota-config, acquire_quota-executions, acquire_quota-active,
  acquire_quota-IsWithinLimits, release_quota-config, release_quota-executions,
  release_quota-active, release_quota-IsWithinLimits,
}
use a2a_go.TaskExec.Promise.{Promise}
use a2a_go.TaskExec.LocalManager.{
  LocalExecution, LocalManager, new_local_manager, new_local_execution, create_execution,
  store_exiting, register_cancelation, cleanup_execution, end_cancelation,
}
use a2a_go.TaskExec.Executions.{
  Step, executes, handles_event, ends, cancels, ends_cancel, Reachable, begin, next,
  create_execution_ok, create_execution_failed,
}
use a2a_go.TaskExec.Counting.{in_scope, in_scope-insert_new, in_scope-insert_old, in_scope-remove}

pub record IsConsistent (config : ConcurrencyConfig) (m : LocalManager) : Type 0 where
  pub distinct : IsMap m.executions
  pub keyed : (tid : String) (e : LocalExecution) → lookup tid m.executions ≡ some e → e.tid ≡ tid
  pub configured : m.limiter.config ≡ config
  pub counted : m.limiter.executions ≡ length m.executions
  pub scoped :
      (get : String → ℤ) (scope : String)
      → config.get_max_executions ≡ some get
      → active scope m.limiter ≡ in_scope scope m.executions
  pub limited : IsWithinLimits m.limiter

module _ (config : ConcurrencyConfig) where
  zero-Within : (limit : ℤ) → Within limit 0
  zero-Within (pos n) = λ p. omega arith
  zero-Within (negsuc n) = tt

  begin-IsConsistent : IsConsistent config (new_local_manager config)
  unfolding new_local_manager active in_scope lookup
  begin-IsConsistent = record {
    distinct = tt;
    keyed = λ tid e h. absurd (cc);
    configured = refl;
    counted = refl;
    scoped = λ get scope g. refl;
    limited = record {
      total = zero-Within config.max_executions;
      scoped = λ get scope g. zero-Within (get scope);
    };
  }

  executes-IsConsistent :
      (tid : String) (scope : Option String) (m : LocalManager)
      → IsConsistent config m
      → IsConsistent config (create_execution tid scope m).1
  executes-IsConsistent tid scope m c = elim (Result-cases (create_execution tid scope m).0) [
    | inl (f, p) ↦ rw (create_execution_failed tid scope m f p) c
    | inr (e, p) ↦
        let (absent, _, room, _, after) = create_execution_ok tid scope m e p in
        let new : LocalExecution = new_local_execution tid scope in
        rw after (record {
          distinct = IsMap-insert tid new m.executions c.distinct;
          keyed = λ j d q.
              let k = c.keyed j d in
              ground (arith, k, eq_iff tid j, lookup-insert tid j new m.executions);
          configured = acquire_quota-config scope m.limiter ∙ c.configured;
          counted = omega (
            arith,
            c.counted,
            acquire_quota-executions scope m.limiter room,
            length-insert_new tid new m.executions absent,
          );
          scoped = λ get k g.
              let here : m.limiter.config.get_max_executions ≡ some get =
                ap (λ (x : ConcurrencyConfig). x.get_max_executions) c.configured ∙ g in
              omega (
                arith,
                c.scoped get k g,
                acquire_quota-active scope m.limiter get k here room,
                in_scope-insert_new k tid new m.executions absent,
              );
          limited = acquire_quota-IsWithinLimits scope m.limiter room c.limited;
        })
  ]

  store_exiting-IsConsistent :
      (tid : String) (exiting : Bool) (m : LocalManager)
      → IsConsistent config m
      → IsConsistent config (store_exiting tid exiting m)
  unfolding store_exiting
  store_exiting-IsConsistent tid exiting m c = elim (Option-cases (lookup tid m.executions)) [
    | inl p ↦ rw p c
    | inr (e, p) ↦
        let new : LocalExecution = record e { exiting = exiting } in
        rw p (record {
          configured = c.configured;
          limited = c.limited;
          distinct = IsMap-insert tid new m.executions c.distinct;
          keyed = λ j d q.
              let k = c.keyed tid e p in
              let k' = c.keyed j d in
              ground (arith, k, k', eq_iff tid j, lookup-insert tid j new m.executions);
          counted = omega (arith, c.counted, length-insert_old tid new e m.executions p);
          scoped = λ get k g.
              c.scoped get k g ∙ sym (in_scope-insert_old k tid new e m.executions p refl);
        })
  ]

  cleanup_execution-IsConsistent :
      (tid : String) (e : LocalExecution) (m : LocalManager)
      → lookup tid m.executions ≡ some e
      → IsConsistent config m
      → IsConsistent config (cleanup_execution e m).1
  unfolding cleanup_execution
  cleanup_execution-IsConsistent tid e m h c =
      let at : e.tid ≡ tid = c.keyed tid e h in
      let h' : lookup e.tid m.executions ≡ some e = ap (λ t. lookup t m.executions) at ∙ h in
      record {
        distinct = IsMap-remove e.tid m.executions c.distinct;
        keyed = λ j d q. c.keyed j d (ground (arith, lookup-remove e.tid j m.executions));
        configured = release_quota-config e.scope m.limiter ∙ c.configured;
        counted = omega (
          arith,
          c.counted,
          release_quota-executions e.scope m.limiter,
          length-remove_old e.tid e m.executions c.distinct h',
        );
        scoped = λ get k g.
            let here : m.limiter.config.get_max_executions ≡ some get =
              ap (λ (x : ConcurrencyConfig). x.get_max_executions) c.configured ∙ g in
            omega (
              arith,
              c.scoped get k g,
              release_quota-active e.scope m.limiter get k here,
              in_scope-remove k e.tid e m.executions c.distinct h',
            );
        limited = release_quota-IsWithinLimits e.scope m.limiter c.limited;
      }

  register_cancelation-IsConsistent :
      (tid : String) (m : LocalManager)
      → IsConsistent config m
      → IsConsistent config (register_cancelation tid m).1
  unfolding register_cancelation
  register_cancelation-IsConsistent tid m c = elim (Option-cases (lookup tid m.cancelations)) [
    | inl p ↦ rw p (record {
      distinct = c.distinct;
      keyed = c.keyed;
      configured = c.configured;
      counted = c.counted;
      scoped = c.scoped;
      limited = c.limited;
    })
    | inr (e, p) ↦ rw p c
  ]

  end_cancelation-IsConsistent :
      (tid : String) (p : Promise) (m : LocalManager)
      → IsConsistent config m
      → IsConsistent config (end_cancelation tid p m).1
  unfolding end_cancelation
  end_cancelation-IsConsistent tid p m c = record {
    distinct = c.distinct;
    keyed = c.keyed;
    configured = c.configured;
    counted = c.counted;
    scoped = c.scoped;
    limited = c.limited;
  }

  Step-IsConsistent :
      (m n : LocalManager) → Step m n → IsConsistent config m → IsConsistent config n
  Step-IsConsistent m _ (executes tid scope _) c = executes-IsConsistent tid scope m c
  Step-IsConsistent m _ (handles_event tid b _) c = store_exiting-IsConsistent tid b m c
  Step-IsConsistent m _ (ends tid e _ h) c = cleanup_execution-IsConsistent tid e m h c
  Step-IsConsistent m _ (cancels tid _) c = register_cancelation-IsConsistent tid m c
  Step-IsConsistent m _ (ends_cancel tid p _ _) c = end_cancelation-IsConsistent tid p m c

  -- In every state that can be reached the executions are registered under their own IDs, and the
  -- limiter's counters say how many there are, in all and in each scope.
  Reachable-IsConsistent : (m : LocalManager) → Reachable config m → IsConsistent config m
  Reachable-IsConsistent _ begin = begin-IsConsistent
  Reachable-IsConsistent _ (next m n r s) = Step-IsConsistent m n s (Reachable-IsConsistent m r)

  -- In no order of calls, events and ends are there ever more executions than the limits permit,
  -- neither in all nor in one scope; a limit that is not positive is none.
  pub executions-Within :
      (m : LocalManager)
      → Reachable config m
      → Within config.max_executions (length m.executions)
        × ((get : String → ℤ) (scope : String)
            → config.get_max_executions ≡ some get
            → Within (get scope) (in_scope scope m.executions))
  executions-Within m r =
      let c = Reachable-IsConsistent m r in
      (
        subst (λ x. Within x.max_executions (length m.executions)) c.configured
            (subst (Within m.limiter.config.max_executions) c.counted c.limited.total),
        λ get scope g. subst (Within (get scope)) (c.scoped get scope g) (
            c.limited.scoped get scope
              (ap (λ (x : ConcurrencyConfig). x.get_max_executions) c.configured ∙ g)),
      )

  -- No quota is lost: when the last execution has ended, the counters stand at zero, in all and in
  -- each scope, whatever happened before.
  pub idle_quota :
      (m : LocalManager)
      → Reachable config m
      → m.executions ≡ []
      → (m.limiter.executions ≡ 0)
        × ((get : String → ℤ) (scope : String)
            → config.get_max_executions ≡ some get
            → active scope m.limiter ≡ 0)
  unfolding in_scope
  idle_quota m r none_left =
      let c = Reachable-IsConsistent m r in
      (
        c.counted ∙ ap length none_left,
        λ get scope g. c.scoped get scope g ∙ ap (in_scope scope) none_left,
      )
