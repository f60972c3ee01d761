-- ===== src/Events/Chunks.antt =====
-- Artifact updates of a2aevent/event.go that follow one another: a repeated one, and an artifact
-- that is sent in chunks.
use a2a_go.Base.{
  String, false, none, some, List, [], ◌∷◌, ◌++◌, ◌≡◌, inl, inr, refl, ap, sym, arith, eq_iff,
  Bool-cases, ok,
}
use mathlib.Core.List.{append_assoc}
use a2a_go.Base.{◌∙◌}
use a2a_go.Core.{Artifact, Part, Task, TaskInfo, TaskArtifactUpdateEvent, new_artifact_update_event}
use a2a_go.Events.Apply.{
  find_artifact, replace_artifact, append_artifact, merge_metadata, apply_artifact_update,
}
use a2a_go.Events.Artifacts.{
  find_id, chosen, chosen_id, added, replaced, apply_outcome, apply_artifact_update-find_self,
}

replace_twice :
    (id : String) (b c : Artifact) (l : List Artifact)
    → b.id ≡ id
    → replace_artifact id c (replace_artifact id b l) ≡ replace_artifact id c l
unfolding replace_artifact
replace_twice id b c [] h = refl
replace_twice id b c (a ∷ l) h = ground (arith, eq_iff b.id id, replace_twice id b c l h)

replace-append :
    (id : String) (b c : Artifact) (l : List Artifact)
    → b.id ≡ id
    → find_artifact id l ≡ none
    → replace_artifact id c (l ++ b ∷ []) ≡ l ++ c ∷ []
unfolding replace_artifact find_artifact
replace-append id b c [] h n = ground (arith, eq_iff b.id id)
replace-append id b c (a ∷ l) h n = ground (arith, replace-append id b c l h)

apply_to_found :
    (t : Task) (e : TaskArtifactUpdateEvent) (a : Artifact) (p : Part) (ps : List Part)
    → find_artifact e.artifact.id t.artifacts ≡ some a
    → e.artifact.parts ≡ p ∷ ps
    → apply_artifact_update t e ≡ ok (replaced t e a)
unfolding apply_artifact_update
apply_to_found t e a p ps h k = ground arith

apply_to_missing :
    (t : Task) (e : TaskArtifactUpdateEvent) (p : Part) (ps : List Part)
    → find_artifact e.artifact.id t.artifacts ≡ none
    → e.append ≡ false
    → e.artifact.parts ≡ p ∷ ps
    → apply_artifact_update t e ≡ ok (added t e)
unfolding apply_artifact_update
apply_to_missing t e p ps h n k = ground arith

apply_nonempty :
    (t u : Task) (e : TaskArtifactUpdateEvent)
    → apply_artifact_update t e ≡ ok u
    → (p : Part) × (ps : List Part) × (e.artifact.parts ≡ p ∷ ps)
unfolding apply_artifact_update
apply_nonempty t u e h = go e.artifact.parts refl
  where
    go :
        (l : List Part)
        → e.artifact.parts ≡ l
        → (p : Part) × (ps : List Part) × (e.artifact.parts ≡ p ∷ ps)
    go [] k = absurd (ground arith)
    go (p ∷ ps) k = (p, ps, k)

-- one event that carries the parts of two
abbrev pub joined : TaskArtifactUpdateEvent → List Part → TaskArtifactUpdateEvent
joined e parts = record e { artifact = record e.artifact { parts = e.artifact.parts ++ parts } }

chosen-joined :
    (e : TaskArtifactUpdateEvent) (a : Artifact) (b : Artifact)
    → b.metadata ≡ none
    → append_artifact (chosen e a) b ≡ chosen (joined e b.parts) a
unfolding append_artifact merge_metadata
chosen-joined e a b h = elim (Bool-cases e.append) [
  | inl k ↦ ground (arith, append_assoc a.parts e.artifact.parts b.parts)
  | inr k ↦ ground arith
]

abbrev with_artifacts : Task → List Artifact → Task
with_artifacts t l = record t { artifacts = l }

-- A replacing update that is delivered twice leaves the task as it is after the first time.
pub apply_artifact_update_idem :
    (t u : Task) (e : TaskArtifactUpdateEvent)
    → apply_artifact_update t e ≡ ok u
    → e.append ≡ false
    → apply_artifact_update u e ≡ ok u
apply_artifact_update_idem t u e h n =
    let (p, ps, k) = apply_nonempty t u e h in
    let self = apply_artifact_update-find_self t u e h in
    elim (apply_outcome t u e h) [
      | inl (q, _, r) ↦
          apply_to_found u e e.artifact p ps (self ∙ ground arith) k
          ∙ ap ok (
              rw r (
                rw n (
                  ap (with_artifacts t)
                    (replace-append e.artifact.id e.artifact e.artifact t.artifacts refl q))))
      | inr (a, q, r) ↦
          apply_to_found u e e.artifact p ps (self ∙ ground arith) k
          ∙ ap ok (
              rw r (
                rw n (
                  ap (with_artifacts t)
                    (replace_twice e.artifact.id e.artifact e.artifact t.artifacts refl))))
    ]

module _ (t : Task) (e : TaskArtifactUpdateEvent) (b : Artifact) (plain : b.metadata ≡ none) where
  chunk_added :
      find_artifact e.artifact.id t.artifacts ≡ none
      → e.append ≡ false
      → with_artifacts t (
          replace_artifact e.artifact.id
            (append_artifact e.artifact b)
            (t.artifacts ++ e.artifact ∷ []))
        ≡ added t (joined e b.parts)
  unfolding append_artifact merge_metadata
  chunk_added z n =
      ap (with_artifacts t)
        (replace-append e.artifact.id e.artifact (append_artifact e.artifact b) t.artifacts refl z)
      ∙ rw plain

  chunk_replaced :
      (a : Artifact)
      → a.id ≡ e.artifact.id
      → with_artifacts t (
          replace_artifact e.artifact.id
            (append_artifact (chosen e a) b)
            (replace_artifact e.artifact.id (chosen e a) t.artifacts))
        ≡ replaced t (joined e b.parts) a
  chunk_replaced a h = ap (with_artifacts t) (
      replace_twice e.artifact.id (chosen e a) (append_artifact (chosen e a) b) t.artifacts
        (chosen_id e a h)
      ∙ ap (λ (c : Artifact). replace_artifact e.artifact.id c t.artifacts)
          (chosen-joined e a b plain))

-- To send an artifact and then a chunk made by `NewArtifactUpdateEvent` gives the task that one
-- event with all the parts gives.
pub apply_artifact_update-chunk :
    (t u : Task) (e : TaskArtifactUpdateEvent) (info : TaskInfo) (q : Part) (qs : List Part)
    → apply_artifact_update t e ≡ ok u
    → apply_artifact_update u (new_artifact_update_event info e.artifact.id (q ∷ qs))
      ≡ apply_artifact_update t (joined e (q ∷ qs))
unfolding new_artifact_update_event
apply_artifact_update-chunk t u e info q qs h =
    let (p, ps, k) = apply_nonempty t u e h in
    let self = apply_artifact_update-find_self t u e h in
    let f : TaskArtifactUpdateEvent = new_artifact_update_event info e.artifact.id (q ∷ qs) in
    let full : e.artifact.parts ++ q ∷ qs ≡ p ∷ (ps ++ q ∷ qs) =
      ap (λ (l : List Part). l ++ q ∷ qs) k in
    elim (apply_outcome t u e h) [
      | inl (z, n, r) ↦
          apply_to_found u f e.artifact q qs (self ∙ ground arith) refl
          ∙ ap ok (rw r (chunk_added t e f.artifact refl z n))
          ∙ sym (apply_to_missing t (joined e (q ∷ qs)) p (ps ++ q ∷ qs) z n full)
      | inr (a, z, r) ↦
          apply_to_found u f (chosen e a) q qs (self ∙ ground arith) refl
          ∙ ap ok
              (rw r (chunk_replaced t e f.artifact refl a (find_id e.artifact.id t.artifacts a z)))
          ∙ sym (apply_to_found t (joined e (q ∷ qs)) a p (ps ++ q ∷ qs) z full)
    ]
