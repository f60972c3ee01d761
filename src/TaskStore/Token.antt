-- ===== src/TaskStore/Token.antt =====
-- Page tokens of a2asrv/taskstore/inmemory.go: an instant and a task ID in one text.
--
-- `encoding/base64` and the RFC 3339 layout of `time` are parameters.
use Prim.Native.Char.{Char, code}
use Prim.Native.String.{◌++◌ as text_append}
use text.Mathlib.TextLemmas.{nil-append, cons-append, append-ne-nil_of_right_ne-nil, cons≢nil}
use a2a_go.Base.{
  ℕ, String, Bool, true, false, ◌||◌, Option, none, some, List, [], ◌∷◌, ◌≡◌, ◌≢◌, inl, inr, refl,
  ap, sym, ◌∙◌, arith, if◌then◌else◌, ◌==◌, Bool-cases, Result, ok, err, parse_error,
}

pub record Codec : Type 0 where
  pub encode : String → String
  pub decode : String → Option String
  pub format_time : ℕ → String
  pub parse_time : String → Option ℕ

abbrev underscore : ℕ
underscore = 95

abbrev pub has_underscore : String → Bool
has_underscore String.[] = false
has_underscore (String.◌∷◌ c s) = code c == underscore || has_underscore s

-- a character put before the first segment
abbrev push : Char → List String → List String
push c [] = []
push c (w ∷ ws) = String.◌∷◌ c w ∷ ws

-- `strings.Split(s, "_")`
unfoldable pub split : String → List String
split String.[] = "" ∷ []
split (String.◌∷◌ c s) =
    let rest = split s in if code c == underscore then "" ∷ rest else push c rest

-- the text `<time>_<id>`
abbrev token_text : Codec → ℕ → String → String
token_text c time id = text_append (c.format_time time) (text_append "_" id)

-- `encodePageToken`
unfoldable pub encode_page_token : Codec → ℕ → String → String
encode_page_token c time id = c.encode (token_text c time id)

decode_parts : Codec → List String → Result (ℕ × String)
decode_parts c (time ∷ id ∷ []) = elim (c.parse_time time) [
  | none ↦ err parse_error
  | some t ↦ ok (t, id)
]
decode_parts c _ = err parse_error

-- `decodePageToken`
unfoldable pub decode_page_token : Codec → String → Result (ℕ × String)
unfolding decode_parts
decode_page_token c token = elim (c.decode token) [
  | none ↦ err parse_error
  | some s ↦ decode_parts c (split s)
]

-- What the code relies on: base64 is undone by its decoder and writes something for a text that is
-- not empty, and so is the layout of an instant, which has no underscore.
pub record IsCodec (c : Codec) : Type 0 where
  pub decode-encode : (s : String) → c.decode (c.encode s) ≡ some s
  pub encode-ne-nil : (s : String) → s ≢ "" → c.encode s ≢ ""
  pub parse-format : (t : ℕ) → c.parse_time (c.format_time t) ≡ some t
  pub format_plain : (t : ℕ) → has_underscore (c.format_time t) ≡ false

split_plain : (s : String) → has_underscore s ≡ false → split s ≡ s ∷ []
unfolding split
split_plain String.[] h = refl
split_plain (String.◌∷◌ c s) h = ground (arith, split_plain s)

abbrev underscore_char : Char
underscore_char = "_"

underscore-append : (b : String) → text_append "_" b ≡ String.◌∷◌ underscore_char b
underscore-append b =
    cons-append underscore_char "" b ∙ ap (String.◌∷◌ underscore_char) (nil-append b)

split-append :
    (a b : String)
    → has_underscore a ≡ false
    → split (text_append a (text_append "_" b)) ≡ a ∷ split b
unfolding split
split-append String.[] b h = rw (nil-append, underscore-append)
split-append (String.◌∷◌ c s) b h = rw cons-append (ground (arith, split-append s b))

split_any : (s : String) → (u : String) × (rest : List String) × (split s ≡ u ∷ rest)
unfolding split
split_any String.[] = ("", [], refl)
split_any (String.◌∷◌ c s) =
    let (u, rest, e) = split_any s in
    elim (Bool-cases (code c == underscore)) [
      | inl p ↦ ("", u ∷ rest, rw (p, e))
      | inr p ↦ (String.◌∷◌ c u, rest, rw (p, e))
    ]

split_two :
    (s : String)
    → has_underscore s ≡ true
    → (u v : String) × (rest : List String) × (split s ≡ u ∷ v ∷ rest)
unfolding split
split_two String.[] h = absurd (ground arith)
split_two (String.◌∷◌ c s) h = elim (Bool-cases (code c == underscore)) [
  | inl p ↦ let (u, rest, e) = split_any s in ("", u, rest, rw (p, e))
  | inr p ↦ let (u, v, rest, e) = split_two s (ground arith) in (String.◌∷◌ c u, v, rest, rw (p, e))
]

-- A token is read back as the instant and the ID that it was made from, unless the ID has an
-- underscore: such a token is refused.
pub decode-encode_page_token :
    (c : Codec) (t : ℕ) (id : String)
    → IsCodec c
    → decode_page_token c (encode_page_token c t id)
      ≡ (if has_underscore id then err parse_error else ok (t, id))
unfolding decode_page_token encode_page_token
decode-encode_page_token c t id h = elim (Bool-cases (has_underscore id)) [
  | inl p ↦
      let (u, v, rest, e) = split_two id p in
      ground (
        arith,
        h.decode-encode (token_text c t id),
        split-append (c.format_time t) id (h.format_plain t),
      )
  | inr p ↦ ground (
    arith,
    h.decode-encode (token_text c t id),
    split-append (c.format_time t) id (h.format_plain t),
    split_plain id p,
    h.parse-format t,
  )
]

-- A token is not the empty text, which stands for the first page.
pub encode_page_token-ne-nil :
    (c : Codec) (t : ℕ) (id : String) → IsCodec c → encode_page_token c t id ≢ ""
unfolding encode_page_token
encode_page_token-ne-nil c t id h = h.encode-ne-nil _ (
    append-ne-nil_of_right_ne-nil (c.format_time t)
      (λ e. cons≢nil (sym (underscore-append id) ∙ e)))
