-- ===== src/Events/Artifacts.antt =====
-- What an artifact update of a2aevent/event.go does to the list of artifacts.
use a2a_go.Base.{
  String, false, none, some, List, [], ◌∷◌, ◌++◌, ◌≡◌, ◌≢◌, ◌⊎◌, inl, inr, refl, arith,
  if◌then◌else◌, str_eq, eq_iff, eq_refl, Bool-cases, Option-cases, ok,
}
use a2a_go.Core.{Artifact, Task, TaskArtifactUpdateEvent}
use a2a_go.Events.Apply.{find_artifact, replace_artifact, append_artifact, apply_artifact_update}

pub find-replace :
    (id j : String) (b : Artifact) (l : List Artifact)
    → b.id ≡ id
    → find_artifact j (replace_artifact id b l) ≡ (
        if str_eq id j
        then (elim (find_artifact j l) [ none ↦ none | some _ ↦ some b ])
        else find_artifact j l)
unfolding find_artifact replace_artifact
find-replace id j b [] h = ground arith
find-replace id j b (a ∷ l) h = ground (
  arith,
  find-replace id j b l h,
  eq_iff a.id id,
  eq_iff a.id j,
  eq_iff id j,
  eq_iff b.id j,
  eq_iff b.id id,
)

pub find-append :
    (j : String) (b : Artifact) (l : List Artifact)
    → find_artifact j (l ++ b ∷ []) ≡ elim (find_artifact j l) [
      | some a ↦ some a
      | none ↦ (if str_eq b.id j then some b else none)
    ]
unfolding find_artifact
find-append j b [] = refl
find-append j b (a ∷ l) = ground (arith, find-append j b l)

pub find_id :
    (id : String) (l : List Artifact) (a : Artifact) → find_artifact id l ≡ some a → a.id ≡ id
unfolding find_artifact
find_id id [] a h = cc
find_id id (b ∷ l) a h = ground (arith, eq_iff b.id id, find_id id l a)

-- what the update puts in the place of an artifact that the task has
abbrev pub chosen : TaskArtifactUpdateEvent → Artifact → Artifact
chosen e a = if e.append then append_artifact a e.artifact else e.artifact

abbrev pub added : Task → TaskArtifactUpdateEvent → Task
added t e = record t { artifacts = t.artifacts ++ e.artifact ∷ [] }

abbrev pub replaced : Task → TaskArtifactUpdateEvent → Artifact → Task
replaced t e a = record t { artifacts = replace_artifact e.artifact.id (chosen e a) t.artifacts }

abbrev pub Outcome : Task → Task → TaskArtifactUpdateEvent → Type 0
Outcome t u e =
    ((find_artifact e.artifact.id t.artifacts ≡ none) × (e.append ≡ false) × (u ≡ added t e))
    ⊎ ((a : Artifact) × (find_artifact e.artifact.id t.artifacts ≡ some a) × (u ≡ replaced t e a))

pub apply_outcome :
    (t u : Task) (e : TaskArtifactUpdateEvent) → apply_artifact_update t e ≡ ok u → Outcome t u e
unfolding apply_artifact_update
apply_outcome t u e h = elim (Option-cases (find_artifact e.artifact.id t.artifacts)) [
  | inl p ↦ inl (ground arith)
  | inr (a, p) ↦ inr (a, p, ground arith)
]

pub chosen_id :
    (e : TaskArtifactUpdateEvent) (a : Artifact)
    → a.id ≡ e.artifact.id
    → (chosen e a).id ≡ e.artifact.id
unfolding append_artifact
chosen_id e a h = ground arith

-- An update of one artifact leaves what is found under every other ID as it was.
pub apply_artifact_update-find_ne :
    (t u : Task) (e : TaskArtifactUpdateEvent) (j : String)
    → apply_artifact_update t e ≡ ok u
    → e.artifact.id ≢ j
    → find_artifact j u.artifacts ≡ find_artifact j t.artifacts
apply_artifact_update-find_ne t u e j h ne = elim (apply_outcome t u e h) [
  | inl (p, q, r) ↦
      rw r (ground (arith, eq_iff e.artifact.id j, find-append j e.artifact t.artifacts))
  | inr (a, p, r) ↦
      let same = chosen_id e a (find_id e.artifact.id t.artifacts a p) in
      rw r (
        ground (
          arith,
          eq_iff e.artifact.id j,
          find-replace e.artifact.id j (chosen e a) t.artifacts same,
        ))
]

-- After an update the task has an artifact under the event's ID: the event's own, or, when the
-- event appends, the one that the task had with the event's parts behind its parts.
pub apply_artifact_update-find_self :
    (t u : Task) (e : TaskArtifactUpdateEvent)
    → apply_artifact_update t e ≡ ok u
    → find_artifact e.artifact.id u.artifacts ≡ (elim (find_artifact e.artifact.id t.artifacts) [
      | none ↦ some e.artifact
      | some a ↦ some (if e.append then append_artifact a e.artifact else e.artifact)
    ])
apply_artifact_update-find_self t u e h = elim (apply_outcome t u e h) [
  | inl (p, q, r) ↦
      rw (r, p)
        (ground (arith, eq_refl e.artifact.id, find-append e.artifact.id e.artifact t.artifacts))
  | inr (a, p, r) ↦
      let same = chosen_id e a (find_id e.artifact.id t.artifacts a p) in
      rw (r, p)
        (rw (find-replace e.artifact.id e.artifact.id (chosen e a) t.artifacts same)
          (rw (eq_refl, p)))
]

-- No two artifacts have one ID.
abbrev pub IsDistinct : List Artifact → Type 0
IsDistinct [] = Unit
IsDistinct (a ∷ l) = (find_artifact a.id l ≡ none) × IsDistinct l

IsDistinct-append :
    (b : Artifact) (l : List Artifact)
    → find_artifact b.id l ≡ none
    → IsDistinct l
    → IsDistinct (l ++ b ∷ [])
unfolding find_artifact
IsDistinct-append b [] h d = (refl, tt)
IsDistinct-append b (a ∷ l) h d = (
  ground (arith, find-append a.id b l, eq_iff a.id b.id, eq_iff b.id a.id),
  IsDistinct-append b l (ground arith) d.1,
)

IsDistinct-replace :
    (id : String) (b : Artifact) (l : List Artifact)
    → b.id ≡ id
    → IsDistinct l
    → IsDistinct (replace_artifact id b l)
unfolding find_artifact replace_artifact
IsDistinct-replace id b [] h d = tt
IsDistinct-replace id b (a ∷ l) h d = elim (Bool-cases (str_eq a.id id)) [
  | inl e ↦ rw e (ground (arith, eq_iff a.id id), d.1)
  | inr e ↦ rw e (
    ground (arith, find-replace id a.id b l h, eq_iff a.id id, eq_iff id a.id),
    IsDistinct-replace id b l h d.1,
  )
]

-- An update keeps the artifact IDs distinct.
pub apply_artifact_update-IsDistinct :
    (t u : Task) (e : TaskArtifactUpdateEvent)
    → apply_artifact_update t e ≡ ok u
    → IsDistinct t.artifacts
    → IsDistinct u.artifacts
apply_artifact_update-IsDistinct t u e h d = elim (apply_outcome t u e h) [
  | inl (p, q, r) ↦ rw r (IsDistinct-append e.artifact t.artifacts p d)
  | inr (a, p, r) ↦
      let same = chosen_id e a (find_id e.artifact.id t.artifacts a p) in
      rw r (IsDistinct-replace e.artifact.id (chosen e a) t.artifacts same d)
]
