-- ===== src/Events/Lifecycle.antt =====
-- Which events a2aevent/event.go accepts, and what an accepted event leaves as it was.
use a2a_go.Base.{true, false, none, ◌≡◌, ◌⊎◌, ◌↔◌, inl, inr, refl, arith, eq_iff, Option-cases, ok}
use a2a_go.Core.{
  terminal, MessageRole, role_user, is_user, Task, task_info, TaskArtifactUpdateEvent, Event, task,
  message, status_update, artifact_update,
}
use a2a_go.Events.Apply.{
  apply_status_update, apply_history_update, apply_artifact_update, apply_shallow_update,
  validate_update, is_final,
}

-- What an event has to satisfy for a task: said without the order of the code's tests.
abbrev pub Accepts : Task → Event → Type 0
Accepts t (message m) =
    (m.role ≡ role_user)
    × (terminal t.status.state ≡ false)
    × ((m.task_id ≡ t.id) ⊎ (m.task_id ≡ ""))
    × ((m.context_id ≡ t.context_id) ⊎ (m.context_id ≡ ""))
Accepts t e =
    (terminal t.status.state ≡ false)
    × ((task_info e).task_id ≡ t.id)
    × ((task_info e).context_id ≡ t.context_id)

is_user_sound : (r : MessageRole) → is_user r ≡ true → r ≡ role_user
is_user_sound r h = ground arith

-- `validateUpdate` finds no fault exactly in the events that the task accepts.
pub validate_update_iff : (t : Task) (e : Event) → (validate_update t e ≡ none) ↔ Accepts t e
unfolding validate_update
validate_update_iff t (message m) = (
  λ h. ground (
    arith,
    eq_iff t.id m.task_id,
    eq_iff t.context_id m.context_id,
    eq_iff m.task_id "",
    eq_iff m.context_id "",
  ),
  λ h. ground (
    arith,
    eq_iff t.id m.task_id,
    eq_iff t.context_id m.context_id,
    eq_iff m.task_id "",
    eq_iff m.context_id "",
  ),
)
validate_update_iff t (task v) = (
  λ h. ground (arith, eq_iff t.id v.id, eq_iff t.context_id v.context_id),
  λ h. ground (arith, eq_iff t.id v.id, eq_iff t.context_id v.context_id),
)
validate_update_iff t (status_update v) = (
  λ h. ground (arith, eq_iff t.id v.task_id, eq_iff t.context_id v.context_id),
  λ h. ground (arith, eq_iff t.id v.task_id, eq_iff t.context_id v.context_id),
)
validate_update_iff t (artifact_update v) = (
  λ h. ground (arith, eq_iff t.id v.task_id, eq_iff t.context_id v.context_id),
  λ h. ground (arith, eq_iff t.id v.task_id, eq_iff t.context_id v.context_id),
)

apply-Accepts : (t u : Task) (e : Event) → apply_shallow_update t e ≡ ok u → Accepts t e
unfolding apply_shallow_update
apply-Accepts t u e h = elim (Option-cases (validate_update t e)) [
  | inl p ↦ (validate_update_iff t e).0 p
  | inr (x, p) ↦ absurd (ground arith)
]

artifact-keeps :
    (t u : Task) (e : TaskArtifactUpdateEvent)
    → apply_artifact_update t e ≡ ok u
    → (u.id ≡ t.id)
      × (u.context_id ≡ t.context_id)
      × (u.status ≡ t.status)
      × (u.history ≡ t.history)
      × (u.metadata ≡ t.metadata)
unfolding apply_artifact_update
artifact-keeps t u e h = ground arith

not_terminal : (t : Task) (e : Event) → Accepts t e → terminal t.status.state ≡ false
not_terminal t (message m) a = a.1
not_terminal t (task v) a = a.0
not_terminal t (status_update v) a = a.0
not_terminal t (artifact_update v) a = a.0

-- An update that succeeds started from a task that was not terminal, and keeps the task's ID and
-- context.
pub apply_shallow_update-keeps_identity :
    (t u : Task) (e : Event)
    → apply_shallow_update t e ≡ ok u
    → (terminal t.status.state ≡ false) × (u.id ≡ t.id) × (u.context_id ≡ t.context_id)
unfolding apply_shallow_update apply_status_update apply_history_update
apply_shallow_update-keeps_identity t u e h =
    let a = apply-Accepts t u e h in (not_terminal t e a, (go e h a).0, (go e h a).1)
  where
    go :
        (e : Event)
        → apply_shallow_update t e ≡ ok u
        → Accepts t e
        → (u.id ≡ t.id) × (u.context_id ≡ t.context_id)
    go (message m) k a = ground (arith, (validate_update_iff t (message m)).1 a)
    go (task v) k a = ground (arith, (validate_update_iff t (task v)).1 a)
    go (status_update v) k a = ground (arith, (validate_update_iff t (status_update v)).1 a)
    go (artifact_update v) k a =
        ground (arith, (validate_update_iff t (artifact_update v)).1 a, artifact-keeps t u v)

-- An event that brings a task to a terminal state is final.
pub apply_shallow_update-terminal-is_final :
    (t u : Task) (e : Event)
    → apply_shallow_update t e ≡ ok u
    → terminal u.status.state ≡ true
    → is_final e ≡ true
unfolding apply_shallow_update apply_status_update is_final
apply_shallow_update-terminal-is_final t u (message m) h k = refl
apply_shallow_update-terminal-is_final t u (task v) h k =
    ground (arith, (validate_update_iff t (task v)).1 (apply-Accepts t u (task v) h))
apply_shallow_update-terminal-is_final t u (status_update v) h k =
    ground
      (arith, (validate_update_iff t (status_update v)).1 (apply-Accepts t u (status_update v) h))
apply_shallow_update-terminal-is_final t u (artifact_update v) h k =
    let a = apply-Accepts t u (artifact_update v) h in
    let c : apply_artifact_update t v ≡ ok u =
      ground (arith, (validate_update_iff t (artifact_update v)).1 a) in
    ground (arith, artifact-keeps t u v c, not_terminal t (artifact_update v) a)
