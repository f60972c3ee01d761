-- ===== src/Core/Exact.antt =====
-- The values of type `any` that survive a conversion to another form and back, as structpb and
-- encoding/json make it: both turn every number into a float64.
use a2a_go.Base.{String, Bool, true, Option, none, some, All, ◌≡◌}
use a2a_go.Base.Maps.{GoMap}
use a2a_go.Core.{
  Value, null, flag, number, text, arr, obj, opaque, back, Values, nil, cons, Fields, end, field,
  Metadata, PartContent, text_content, raw_content, data_content, url_content, Part,
}

-- Whether a number's text is one that a float64 is printed as: a number for which it is not comes back
-- as another, NaN as a text.
module _ (is_float64 : String → Bool) where
  -- A tree of permitted values whose numbers are float64 numbers: no bytes, structs or other types,
  -- and no map or slice that contains itself.
  abbrev mutual
    pub IsExact : Value → Type 0
    IsExact null = Unit
    IsExact (flag _) = Unit
    IsExact (number s) = is_float64 s ≡ true
    IsExact (text _) = Unit
    IsExact (arr vs) = AreExact vs
    IsExact (obj fs) = FieldsExact fs
    IsExact (opaque _) = ⊥
    IsExact (back _) = ⊥

    pub AreExact : Values → Type 0
    AreExact nil = Unit
    AreExact (cons v vs) = IsExact v × AreExact vs

    pub FieldsExact : Fields → Type 0
    FieldsExact end = Unit
    FieldsExact (field _ v fs) = IsExact v × FieldsExact fs

  abbrev pub MapExact : GoMap Value → Type 0
  MapExact m = All (λ e. IsExact e.1) m

  abbrev pub MetadataExact : Metadata → Type 0
  MetadataExact none = Unit
  MetadataExact (some m) = MapExact m

  abbrev pub ContentExact : Option PartContent → Type 0
  ContentExact none = Unit
  ContentExact (some (text_content _)) = Unit
  ContentExact (some (raw_content _)) = Unit
  ContentExact (some (data_content v)) = IsExact v
  ContentExact (some (url_content _)) = Unit

  abbrev pub PartExact : Part → Type 0
  PartExact p = ContentExact p.content × MetadataExact p.metadata
