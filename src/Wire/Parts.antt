-- ===== src/Wire/Parts.antt =====
-- `Part` and its wrapper `part`, a2a/core.go. The content of a data part is JSON text inside of it,
-- which encoding/json prints and reads: the parameters `print` and `parse`.
use a2a_go.Base.{
  ℕ, ◌+◌, String, Bool, true, false, Option, none, some, List, if◌then◌else◌, ◌==◌, ◌&&◌, ◌||◌, not,
  str_eq, ltb, ◌≡◌, Result, ok, err, other, ◌>>=◌,
}
use a2a_go.Core.{
  Part, PartContent, Value, Metadata, text_content, raw_content, data_content, url_content,
}
use a2a_go.Core.Exact.{IsExact}

-- `part`; `data_text` is the field `data`, which empty is left out
pub record PartWrapper : Type 0 where
  pub text : Option String
  pub raw : Option (List ℕ)
  pub data_text : String
  pub url : Option String
  pub filename : String
  pub media_type : String
  pub metadata : Metadata

abbrev bare : Part → PartWrapper
bare p = record {
  text = none;
  raw = none;
  data_text = "";
  url = none;
  filename = p.filename;
  media_type = p.media_type;
  metadata = p.metadata;
}

module _ (print : Value → Result String) where
  -- `Part.MarshalJSON`
  marshal_content : Part → Option PartContent → Result PartWrapper
  marshal_content p none = ok (bare p)
  marshal_content p (some (text_content s)) = ok (record (bare p) { text = some s })
  marshal_content p (some (raw_content bytes)) = ok (record (bare p) { raw = some bytes })
  marshal_content p (some (data_content v)) = do s ← print v; ok (record (bare p) { data_text = s })
  marshal_content p (some (url_content u)) =
      if str_eq u "" then ok (bare p) else ok (record (bare p) { url = some u })

  unfoldable pub marshal_part : Part → Result PartWrapper
  unfolding marshal_content
  marshal_part p = marshal_content p p.content

-- one of the tests for a field: the content so far and the number of fields found
abbrev choose {ℓ} :
    {A : Type ℓ} → (A → PartContent) → Option A → Option PartContent × ℕ → Option PartContent × ℕ
choose make none found = found
choose make (some a) (_, n) = (some (make a), n + 1)

abbrev not_empty : Option String → Option String
not_empty none = none
not_empty (some u) = if str_eq u "" then none else some u

-- the text, the bytes and the URL
abbrev found_fields : PartWrapper → Option PartContent × ℕ
found_fields w =
    choose url_content (not_empty w.url)
      (choose raw_content w.raw (choose text_content w.text (none, 0)))

module _ (parse : String → Result Value) where
  with_data : PartWrapper → Option PartContent × ℕ → Result (Option PartContent × ℕ)
  with_data w (c, n) =
      if not (str_eq w.data_text "") && (n == 0 || not (str_eq w.data_text "null"))
      then (parse w.data_text >>= λ v. ok (some (data_content v), n + 1))
      else ok (c, n)

  finished : PartWrapper → Option PartContent × ℕ → Result Part
  finished w (c, n) =
      if n == 0
      then err (other "unknown part content type")
      else if ltb 1 n
      then err (other "expected exactly one of text, raw, data, or url")
      else ok (record {
        content = c;
        filename = w.filename;
        media_type = w.media_type;
        metadata = w.metadata;
      })

  -- `Part.UnmarshalJSON`
  unfoldable pub unmarshal_part : PartWrapper → Result Part
  unfolding with_data finished
  unmarshal_part w = with_data w (found_fields w) >>= finished w

-- what a part may hold so that it can be read back: anything but no content and an empty URL
abbrev is_readable : Option PartContent → Bool
is_readable none = false
is_readable (some (url_content u)) = not (str_eq u "")
is_readable (some _) = true

-- What encoding/json documents: no value is printed as an empty text, and the text of a value whose
-- numbers are float64 numbers, and that holds no bytes, structs or other types, is read as that value.
pub record IsJson (is_float64 : String → Bool) (print : Value → Result String)
    (parse : String → Result Value) : Type 0 where
  pub print_nonempty : (v : Value) (s : String) → print v ≡ ok s → str_eq s "" ≡ false
  pub parse-print :
      (v : Value) (s : String) → IsExact is_float64 v → print v ≡ ok s → parse s ≡ ok v

module _ (is_float64 : String → Bool) (print : Value → Result String)
    (parse : String → Result Value) where
  refused : Result Part
  refused = err (other "unknown part content type")

  -- a part with another content
  abbrev with_content : Part → Option PartContent → Part
  with_content p c = record p { content = c }
