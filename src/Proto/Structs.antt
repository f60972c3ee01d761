-- ===== src/Proto/Structs.antt =====
-- The protobuf messages of the protocol, as a2apb/v1/pbconv reads and writes them: one record for each
-- generated message, with the fields that the conversions use.
--
-- An enumeration is its code; a code below zero is one that no table has, like those past the table.
-- A repeated field of messages holds no nil. A message in a oneof is there.
use a2a_go.Base.{ℕ, String, Bool, Option, none, some, List, [], ◌∷◌, Result, ok, ◌>>=◌}
use a2a_go.Base.Maps.{GoMap}
use a2a_go.Core.{Value}

-- What the conversions call of structpb and timestamppb.
pub record ProtoLib : Type 1 where
  -- `structpb.Struct`, `structpb.Value` and `timestamppb.Timestamp`
  pub Struct : Type 0
  pub StructValue : Type 0
  pub Timestamp : Type 0
  pub new_struct : GoMap Value → Result Struct
  pub as_map : Struct → GoMap Value
  pub new_value : Value → Result StructValue
  pub as_interface : StructValue → Value
  pub new_timestamp : ℕ → Timestamp
  pub as_time : Timestamp → ℕ

-- a conversion of what a pointer points to: nil stays nil
abbrev pub unless_nil {ℓ κ} :
    {A : Type ℓ} {B : Type κ} → (A → Result B) → Option A → Result (Option B)
unless_nil convert none = ok none
unless_nil convert (some a) = convert a >>= (λ b. ok (some b))

-- a conversion of each element, which stops at the first error
abbrev pub each_of {ℓ κ} : {A : Type ℓ} {B : Type κ} → (A → Result B) → List A → Result (List B)
each_of convert [] = ok []
each_of convert (a ∷ rest) =
    let bs = each_of convert rest in convert a >>= (λ b. bs >>= (λ l. ok (b ∷ l)))

module _ (lib : ProtoLib) where
  open lib use {Struct, StructValue, Timestamp}

  pub data PbContent : Type 0 where
    pb_text : String → PbContent
    pb_raw : List ℕ → PbContent
    pb_data : StructValue → PbContent
    pb_url : String → PbContent

  pub record PbPart : Type 0 where
    pub content : Option PbContent
    pub metadata : Option Struct
    pub filename : String
    pub media_type : String

  pub record PbMessage : Type 0 where
    pub message_id : String
    pub context_id : String
    pub task_id : String
    pub role : ℕ
    pub parts : List PbPart
    pub metadata : Option Struct
    pub extensions : List String
    pub reference_task_ids : List String

  pub record PbTaskStatus : Type 0 where
    pub state : ℕ
    pub message : Option PbMessage
    pub timestamp : Option Timestamp

  pub record PbArtifact : Type 0 where
    pub artifact_id : String
    pub name : String
    pub description : String
    pub parts : List PbPart
    pub metadata : Option Struct
    pub extensions : List String

  pub record PbTask : Type 0 where
    pub id : String
    pub context_id : String
    pub status : Option PbTaskStatus
    pub artifacts : List PbArtifact
    pub history : List (Option PbMessage)
    pub metadata : Option Struct

  pub record PbStatusUpdate : Type 0 where
    pub task_id : String
    pub context_id : String
    pub status : Option PbTaskStatus
    pub metadata : Option Struct

  pub record PbArtifactUpdate : Type 0 where
    pub task_id : String
    pub context_id : String
    pub artifact : PbArtifact
    pub append : Bool
    pub last_chunk : Bool
    pub metadata : Option Struct

  -- the payload of a `SendMessageResponse` or a `StreamResponse`; the former has two of the cases
  pub data PbPayload : Type 0 where
    pb_message : PbMessage → PbPayload
    pb_task : PbTask → PbPayload
    pb_status_update : PbStatusUpdate → PbPayload
    pb_artifact_update : PbArtifactUpdate → PbPayload
