-- ===== src/TaskStore/Validator.antt =====
-- a2asrv/taskstore/validator.go: which values a stored task's metadata may hold.
--
-- The source keeps the maps and slices that it is inside of in a set, and refuses one that it meets
-- again. Here a value that contains itself ends, where it comes back, in `back`.
use a2a_go.Base.{
  Option, none, some, List, [], ◌∷◌, ◌≡◌, ◌↔◌, refl, arith, All, Result, ok, err, other, ◌>>◌,
}
use a2a_go.Core.{
  Value, null, flag, number, text, arr, obj, opaque, back, Values, nil, cons, Fields, end, field,
  Metadata, Part, Message, Artifact, Task,
}

-- `validateMetaRecursive`
unfoldable mutual
  pub validate_value : Value → Result (Unit {0})
  validate_value null = ok tt
  validate_value (flag _) = ok tt
  validate_value (number _) = ok tt
  validate_value (text _) = ok tt
  validate_value (arr vs) = validate_values vs
  validate_value (obj fs) = validate_fields fs
  validate_value (opaque _) = err (other "is not permitted in Metadata")
  validate_value (back _) = err (other "circular reference in Metadata")

  pub validate_values : Values → Result (Unit {0})
  validate_values nil = ok tt
  validate_values (cons v vs) = validate_value v >> validate_values vs

  pub validate_fields : Fields → Result (Unit {0})
  validate_fields end = ok tt
  validate_fields (field _ v fs) = validate_value v >> validate_fields fs

-- a loop that stops at the first error
unfoldable pub each {ℓ} : {A : Type ℓ} → (A → Result (Unit {0})) → List A → Result (Unit {0})
each f [] = ok tt
each f (x ∷ xs) = f x >> each f xs

-- `validateMeta`
unfoldable pub validate_meta : Metadata → Result (Unit {0})
unfolding each
validate_meta none = ok tt
validate_meta (some m) = each (λ e. validate_value e.1) m

-- `validateParts`
unfoldable pub validate_parts : List Part → Result (Unit {0})
validate_parts ps = each (λ p. validate_meta p.metadata) ps

-- `validateMessage`
unfoldable pub validate_message : Option Message → Result (Unit {0})
validate_message none = ok tt
validate_message (some m) = validate_parts m.parts >> validate_meta m.metadata

-- `validateArtifact`
unfoldable pub validate_artifact : Artifact → Result (Unit {0})
validate_artifact a = validate_parts a.parts >> validate_meta a.metadata

-- `validateTask`
unfoldable pub validate_task : Task → Result (Unit {0})
validate_task t = do
  validate_message t.status.message
  each validate_message t.history
  each validate_artifact t.artifacts
  validate_meta t.metadata

-- The values that hold none of a type that is not permitted, and no map or slice that contains itself.
abbrev mutual
  IsPlain : Value → Type 0
  IsPlain null = Unit
  IsPlain (flag _) = Unit
  IsPlain (number _) = Unit
  IsPlain (text _) = Unit
  IsPlain (arr vs) = ArePlain vs
  IsPlain (obj fs) = FieldsPlain fs
  IsPlain (opaque _) = ⊥
  IsPlain (back _) = ⊥

  ArePlain : Values → Type 0
  ArePlain nil = Unit
  ArePlain (cons v vs) = IsPlain v × ArePlain vs

  FieldsPlain : Fields → Type 0
  FieldsPlain end = Unit
  FieldsPlain (field _ v fs) = IsPlain v × FieldsPlain fs

abbrev MetaPlain : Metadata → Type 0
MetaPlain none = Unit
MetaPlain (some m) = All (λ e. IsPlain e.1) m

abbrev PartsPlain : List Part → Type 0
PartsPlain = All (λ p. MetaPlain p.metadata)

abbrev MessagePlain : Option Message → Type 0
MessagePlain none = Unit
MessagePlain (some m) = PartsPlain m.parts × MetaPlain m.metadata

abbrev ArtifactPlain : Artifact → Type 0
ArtifactPlain a = PartsPlain a.parts × MetaPlain a.metadata

abbrev pub TaskPlain : Task → Type 0
TaskPlain t =
    MessagePlain t.status.message
    × All MessagePlain t.history
    × All ArtifactPlain t.artifacts
    × MetaPlain t.metadata

ok_tt : (r : Result (Unit {0})) {u : Unit {0}} → r ≡ ok u → r ≡ ok tt
ok_tt r h = ground arith

>>-eq-ok : (m k : Result (Unit {0})) → (m >> k) ≡ ok tt → (m ≡ ok tt) × (k ≡ ok tt)
>>-eq-ok (ok tt) k h = (refl, h)
>>-eq-ok (err e) k h = absurd (ground arith)

each_iff {ℓ} :
    {A : Type ℓ} (f : A → Result (Unit {0})) (P : A → Type 0)
    → ((a : A) → (f a ≡ ok tt) ↔ P a)
    → (l : List A) → (each f l ≡ ok tt) ↔ All P l
unfolding each
each_iff f P h [] = (λ _. tt, λ _. refl)
each_iff f P h (x ∷ l) = (
  λ e. let (a, b) = >>-eq-ok (f x) (each f l) e in ((h x).0 a, (each_iff f P h l).0 b),
  λ (p, q). rw ((h x).1 p) ((each_iff f P h l).1 q),
)

mutual
  unfolding validate_value validate_values validate_fields

  value_iff : (v : Value) → (validate_value v ≡ ok tt) ↔ IsPlain v
  value_iff null = (λ _. tt, λ _. refl)
  value_iff (flag _) = (λ _. tt, λ _. refl)
  value_iff (number _) = (λ _. tt, λ _. refl)
  value_iff (text _) = (λ _. tt, λ _. refl)
  value_iff (arr vs) = values_iff vs
  value_iff (obj fs) = fields_iff fs
  value_iff (opaque _) = (λ h. ground arith, λ h. absurd h)
  value_iff (back _) = (λ h. ground arith, λ h. absurd h)

  values_iff : (vs : Values) → (validate_values vs ≡ ok tt) ↔ ArePlain vs
  values_iff nil = (λ _. tt, λ _. refl)
  values_iff (cons v vs) = (
    λ e.
        let (a, b) = >>-eq-ok (validate_value v) (validate_values vs) e in
        ((value_iff v).0 a, (values_iff vs).0 b),
    λ (p, q). rw ((value_iff v).1 p) ((values_iff vs).1 q),
  )

  fields_iff : (fs : Fields) → (validate_fields fs ≡ ok tt) ↔ FieldsPlain fs
  fields_iff end = (λ _. tt, λ _. refl)
  fields_iff (field _ v fs) = (
    λ e.
        let (a, b) = >>-eq-ok (validate_value v) (validate_fields fs) e in
        ((value_iff v).0 a, (fields_iff fs).0 b),
    λ (p, q). rw ((value_iff v).1 p) ((fields_iff fs).1 q),
  )

meta_iff : (m : Metadata) → (validate_meta m ≡ ok tt) ↔ MetaPlain m
unfolding validate_meta
meta_iff none = (λ _. tt, λ _. refl)
meta_iff (some m) = each_iff (λ e. validate_value e.1) (λ e. IsPlain e.1) (λ e. value_iff e.1) m

-- two checks in a row
both_iff :
    (m k : Result (Unit {0})) (P Q : Type 0)
    → (m ≡ ok tt) ↔ P
    → (k ≡ ok tt) ↔ Q
    → ((m >> k) ≡ ok tt) ↔ (P × Q)
both_iff m k P Q p q =
    (λ e. let (a, b) = >>-eq-ok m k e in (p.0 a, q.0 b), λ (a, b). rw (p.1 a) (q.1 b))

parts_iff : (ps : List Part) → (validate_parts ps ≡ ok tt) ↔ PartsPlain ps
unfolding validate_parts
parts_iff ps =
    each_iff (λ p. validate_meta p.metadata) (λ p. MetaPlain p.metadata) (λ p. meta_iff p.metadata)
      ps

message_iff : (m : Option Message) → (validate_message m ≡ ok tt) ↔ MessagePlain m
unfolding validate_message
message_iff none = (λ _. tt, λ _. refl)
message_iff (some m) = both_iff _ _ _ _ (parts_iff m.parts) (meta_iff m.metadata)

artifact_iff : (a : Artifact) → (validate_artifact a ≡ ok tt) ↔ ArtifactPlain a
unfolding validate_artifact
artifact_iff a = both_iff _ _ _ _ (parts_iff a.parts) (meta_iff a.metadata)

-- A task passes the validator exactly when no metadata of its status message, its history, its
-- artifacts, their parts or itself holds, at any depth, a value of a type that is not permitted, or a
-- map or slice that contains itself.
pub validate_task_iff : (t : Task) → (validate_task t ≡ ok tt) ↔ TaskPlain t
unfolding validate_task
validate_task_iff t =
    let whole = both_iff (validate_message t.status.message) _ _ _ (message_iff t.status.message) (
      both_iff (each validate_message t.history) _ _ _
        (each_iff validate_message MessagePlain message_iff t.history)
        (both_iff (each validate_artifact t.artifacts) _ _ _
          (each_iff validate_artifact ArtifactPlain artifact_iff t.artifacts)
          (meta_iff t.metadata))) in
    (
      λ h. let (a, (b, (c, d))) = whole.0 h in (a, b, c, d),
      λ (a, b, c, d). whole.1 (a, (b, (c, d))),
    )
