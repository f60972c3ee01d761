-- ===== src/Proto/RoundTrip.antt =====
-- What a2apb/v1/pbconv/from_proto.go makes of what to_proto.go wrote.
use a2a_go.Base.{
  ℕ, String, Bool, Option, none, some, List, [], ◌∷◌, ◌≡◌, ◌≢◌, ◌⊎◌, inl, inr, refl, subst, ap,
  arith, eq_iff, All, Result, Result-cases, ok,
}
use a2a_go.Base.Maps.{GoMap}
use a2a_go.Core.Exact.{IsExact, MapExact, MetadataExact, ContentExact, PartExact}
use a2a_go.Core.{
  Value, Metadata, TaskState, role_agent, role_user, PartContent, text_content, raw_content,
  data_content, url_content, Part, Message, Artifact, Task, Event, message, task, status_update,
  artifact_update,
}
use a2a_go.Proto.Structs.{
  ProtoLib, unless_nil, each_of, PbContent, pb_text, pb_raw, pb_data, pb_url, PbPart, PbMessage,
}
use a2a_go.Proto.ToProto.{
  to_proto_role, to_proto_task_state, to_proto_map, to_proto_data_part, to_proto_content,
  to_proto_part, to_proto_parts, to_proto_message,
}
use a2a_go.Proto.FromProto.{
  from_proto_role, from_proto_task_state, from_proto_map, from_proto_content, from_proto_part,
  from_proto_parts, from_proto_message,
}

-- What structpb and timestamppb document: a value or a map that converts comes back, if its numbers are
-- float64 numbers and it holds no bytes, structs or other types, and so does an instant. The entries of
-- a map stand in one order.
pub record IsProtoLib (lib : ProtoLib) (is_float64 : String → Bool) : Type 0 where
  pub as_map-new_struct :
      (m : GoMap Value) (s : lib.Struct)
      → MapExact is_float64 m
      → lib.new_struct m ≡ ok s
      → lib.as_map s ≡ m
  pub as_interface-new_value :
      (v : Value) (p : lib.StructValue)
      → IsExact is_float64 v
      → lib.new_value v ≡ ok p
      → lib.as_interface p ≡ v
  pub as_time-new_timestamp : (t : ℕ) → lib.as_time (lib.new_timestamp t) ≡ t

-- every task state is a code of the protocol
pub from_proto_task_state-to_proto_task_state :
    (state : TaskState) → from_proto_task_state (to_proto_task_state state) ≡ state
unfolding from_proto_task_state to_proto_task_state
from_proto_task_state-to_proto_task_state TaskState.unspecified = refl
from_proto_task_state-to_proto_task_state TaskState.auth_required = refl
from_proto_task_state-to_proto_task_state TaskState.canceled = refl
from_proto_task_state-to_proto_task_state TaskState.completed = refl
from_proto_task_state-to_proto_task_state TaskState.failed = refl
from_proto_task_state-to_proto_task_state TaskState.input_required = refl
from_proto_task_state-to_proto_task_state TaskState.rejected = refl
from_proto_task_state-to_proto_task_state TaskState.submitted = refl
from_proto_task_state-to_proto_task_state TaskState.working = refl

-- What a message must have for the other side to take it and to read it as it was.
pub record IsMessage (is_float64 : String → Bool) (m : Message) : Type 0 where
  pub id_set : m.id ≢ ""
  pub role_known : (m.role ≡ role_user) ⊎ (m.role ≡ role_agent)
  pub parts_exact : All (PartExact is_float64) m.parts
  pub metadata_exact : MetadataExact is_float64 m.metadata

abbrev pub AreMessages : (String → Bool) → Option Message → Type 0
AreMessages is_float64 none = Unit
AreMessages is_float64 (some m) = IsMessage is_float64 m

pub record IsArtifact (is_float64 : String → Bool) (a : Artifact) : Type 0 where
  pub id_set : a.id ≢ ""
  pub parts_exact : All (PartExact is_float64) a.parts
  pub metadata_exact : MetadataExact is_float64 a.metadata

-- What a task must have.
pub record IsTask (is_float64 : String → Bool) (t : Task) : Type 0 where
  pub id_set : t.id ≢ ""
  pub status_message : AreMessages is_float64 t.status.message
  pub artifacts_good : All (IsArtifact is_float64) t.artifacts
  pub past_messages : All (AreMessages is_float64) t.history
  pub metadata_exact : MetadataExact is_float64 t.metadata

abbrev pub IsEvent : (String → Bool) → Event → Type 0
IsEvent is_float64 (message m) = IsMessage is_float64 m
IsEvent is_float64 (task t) = IsTask is_float64 t
IsEvent is_float64 (status_update e) =
    AreMessages is_float64 e.status.message × MetadataExact is_float64 e.metadata
IsEvent is_float64 (artifact_update e) =
    IsArtifact is_float64 e.artifact × MetadataExact is_float64 e.metadata

-- conversions of lists and of pointers
pub each_of-each_of {ℓ κ μ} :
    {A : Type ℓ} {B : Type κ} (to : A → Result B) (from : B → Result A) (P : A → Type μ)
    → ((a : A) (b : B) → P a → to a ≡ ok b → from b ≡ ok a)
    → (l : List A) (r : List B) → All P l
    → each_of to l ≡ ok r
    → each_of from r ≡ ok l
each_of-each_of to from P back [] [] all h = refl
each_of-each_of to from P back [] (b ∷ r) all h = absurd (ground arith)
each_of-each_of to from P back (a ∷ l) r (p, all) h = elim (Result-cases (to a)) [
  | inl (f, q) ↦ absurd (ground arith)
  | inr (b, q) ↦ elim (Result-cases (each_of to l)) [
    | inl (f, z) ↦ absurd (ground arith)
    | inr (bs, z) ↦
        let here = back a b p q in
        let rest = each_of-each_of to from P back l bs all z in
        let is : b ∷ bs ≡ r = ground arith in
        subst (λ (x : List _). each_of from x ≡ ok (a ∷ l)) is (ground arith)
  ]
]

pub unless_nil-unless_nil {ℓ κ} :
    {A : Type ℓ} {B : Type κ} (to : A → Result B) (from : B → Result A) (a : Option A)
    (b : Option B)
    → ((x : A) (y : B) → a ≡ some x → to x ≡ ok y → from y ≡ ok x)
    → unless_nil to a ≡ ok b
    → unless_nil from b ≡ ok a
unless_nil-unless_nil to from none none back h = refl
unless_nil-unless_nil to from none (some y) back h = absurd (ground arith)
unless_nil-unless_nil to from (some x) b back h = elim (Result-cases (to x)) [
  | inl (f, q) ↦ absurd (ground arith)
  | inr (y, q) ↦
      let here = back x y refl q in
      let is : some y ≡ b = ground arith in
      subst (λ (z : Option _). unless_nil from z ≡ ok (some x)) is (ground arith)
]

module _ (lib : ProtoLib) (is_float64 : String → Bool) (laws : IsProtoLib lib is_float64) where
  pub from_proto_map-to_proto_map :
      (m : Metadata) (s : Option lib.Struct)
      → MetadataExact is_float64 m
      → to_proto_map lib m ≡ ok s
      → from_proto_map lib s ≡ m
  unfolding to_proto_map from_proto_map
  from_proto_map-to_proto_map none none exact h = refl
  from_proto_map-to_proto_map none (some s) exact h = absurd (ground arith)
  from_proto_map-to_proto_map (some m) s exact h = elim (Result-cases (lib.new_struct m)) [
    | inl (f, q) ↦ absurd (ground arith)
    | inr (x, q) ↦ let back = laws.as_map-new_struct m x exact q in ground arith
  ]

  from_proto_content-to_proto_content :
      (c : Option PartContent) (p : PbContent lib)
      → ContentExact is_float64 c
      → to_proto_content lib c ≡ ok p
      → some (from_proto_content lib p) ≡ c
  unfolding to_proto_content from_proto_content to_proto_data_part
  from_proto_content-to_proto_content none p exact h = absurd (ground arith)
  from_proto_content-to_proto_content (some (text_content s)) p exact h =
      let is : pb_text s ≡ p = ground arith in
      subst (λ (x : PbContent lib). some (from_proto_content lib x) ≡ some (text_content s)) is refl
  from_proto_content-to_proto_content (some (raw_content s)) p exact h =
      let is : pb_raw s ≡ p = ground arith in
      subst (λ (x : PbContent lib). some (from_proto_content lib x) ≡ some (raw_content s)) is refl
  from_proto_content-to_proto_content (some (url_content s)) p exact h =
      let is : pb_url s ≡ p = ground arith in
      subst (λ (x : PbContent lib). some (from_proto_content lib x) ≡ some (url_content s)) is refl
  from_proto_content-to_proto_content (some (data_content v)) p exact h =
      elim (Result-cases (lib.new_value v)) [
        | inl (f, q) ↦ absurd (ground arith)
        | inr (x, q) ↦
            let is : pb_data x ≡ p = ground arith in
            subst (λ (y : PbContent lib). some (from_proto_content lib y) ≡ some (data_content v))
              is
              (ap (λ (w : Value). some (data_content w)) (laws.as_interface-new_value v x exact q))
      ]

  from_proto_part-to_proto_part :
      (p : Part) (q : PbPart lib)
      → PartExact is_float64 p
      → to_proto_part lib p ≡ ok q
      → from_proto_part lib q ≡ ok p
  unfolding to_proto_part from_proto_part
  from_proto_part-to_proto_part p q exact h = elim (Result-cases (to_proto_map lib p.metadata)) [
    | inl (f, z) ↦ absurd (ground arith)
    | inr (s, z) ↦ elim (Result-cases (to_proto_content lib p.content)) [
      | inl (f, y) ↦ absurd (ground arith)
      | inr (c, y) ↦
          let meta = from_proto_map-to_proto_map p.metadata s exact.1 z in
          let content = from_proto_content-to_proto_content p.content c exact.0 y in
          let made : PbPart lib = record {
            content = some c;
            metadata = s;
            filename = p.filename;
            media_type = p.media_type;
          } in
          let is : made ≡ q = ground arith in
          subst (λ (x : PbPart lib). from_proto_part lib x ≡ ok p) is (ground arith)
    ]
  ]

  pub from_proto_parts-to_proto_parts :
      (l : List Part) (r : List (PbPart lib))
      → All (PartExact is_float64) l
      → to_proto_parts lib l ≡ ok r
      → from_proto_parts lib r ≡ ok l
  unfolding to_proto_parts from_proto_parts
  from_proto_parts-to_proto_parts l r exact h =
      each_of-each_of (to_proto_part lib) (from_proto_part lib) (PartExact is_float64)
        from_proto_part-to_proto_part l r exact h

  pub from_proto_message-to_proto_message :
      (m : Message) (p : PbMessage lib)
      → IsMessage is_float64 m
      → to_proto_message lib m ≡ ok p
      → from_proto_message lib p ≡ ok m
  unfolding to_proto_message from_proto_message to_proto_role from_proto_role
  from_proto_message-to_proto_message m p good h =
      elim (Result-cases (to_proto_parts lib m.parts)) [
        | inl (f, z) ↦ absurd (ground arith)
        | inr (parts, z) ↦ elim (Result-cases (to_proto_map lib m.metadata)) [
          | inl (f, y) ↦ absurd (ground arith)
          | inr (s, y) ↦
              let meta = from_proto_map-to_proto_map m.metadata s good.metadata_exact y in
              let back = from_proto_parts-to_proto_parts m.parts parts good.parts_exact z in
              let made : PbMessage lib = record {
                message_id = m.id;
                context_id = m.context_id;
                task_id = m.task_id;
                role = to_proto_role m.role;
                parts = parts;
                metadata = s;
                extensions = m.extensions;
                reference_task_ids = m.reference_tasks;
              } in
              let is : made ≡ p = ground arith in
              let id_set = good.id_set in
              let text = eq_iff m.id "" in
              elim good.role_known [
                | inl user ↦
                    subst (λ (x : PbMessage lib). from_proto_message lib x ≡ ok m) is (ground arith)
                | inr agent ↦
                    subst (λ (x : PbMessage lib). from_proto_message lib x ≡ ok m) is (ground arith)
              ]
        ]
      ]
