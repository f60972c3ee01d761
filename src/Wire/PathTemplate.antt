-- ===== src/Wire/PathTemplate.antt =====
-- The matching of paths against templates, internal/pathtemplate/pathtemplate.go, on the segments of a path.
--
-- Splitting at slashes and joining are the standard library's; `unescape` is `url.PathUnescape`, and
-- `split` is `strings.Split(s, "/")`. What is captured is the list of its segments.
use a2a_go.Base.{
  ℕ, ◌==◌, String, Bool, true, false, not, ◌&&◌, Option, none, some, List, [], ◌∷◌, length, drop,
  if◌then◌else◌, str_eq, Result, ok, err,
}

-- `Template`
pub record Template : Type 0 where
  pub prefix : List String
  pub capture : List String
  pub suffix : List String

-- `MatchResult`, before the segments are joined
pub record MatchResult : Type 0 where
  pub captured : List String
  pub rest : List String

module _ (unescape : String → Result String) (split : String → List String) where
  -- a segment of the path as it is compared
  abbrev pub read_segment : Bool → String → Result String
  read_segment true s = unescape s
  read_segment false s = ok s

  matched_with : String → Result String → Option (List String) → Option (List String)
  matched_with t (err f) rest = none
  matched_with t (ok p) none = none
  matched_with t (ok p) (some ps) =
      if not (str_eq t "*") && not (str_eq t p) then none else some (p ∷ ps)

  -- `matchSegments`
  unfoldable pub match_segments : Bool → List String → List String → Option (List String)
  unfolding matched_with
  match_segments escaped [] segments = some []
  match_segments escaped (t ∷ ts) [] = none
  match_segments escaped (t ∷ ts) (s ∷ segments) =
      matched_with t (read_segment escaped s) (match_segments escaped ts segments)

  consumed : ℕ → Option (List String) → Option (List String × ℕ)
  consumed n none = none
  consumed n (some ps) = some (ps, n)

  decoded_segment : List String → Result String → Option (List String × ℕ)
  unfolding consumed
  decoded_segment capture (err f) = none
  decoded_segment capture (ok s) =
      if not (length (split s) == length capture)
      then none
      else consumed 1 (match_segments false capture (split s))

  one_segment : List String → List String → Option (List String × ℕ)
  unfolding decoded_segment
  one_segment capture [] = none
  one_segment capture (s ∷ segments) = decoded_segment capture (unescape s)

  -- `matchCapture`: what is captured, and how many segments it takes
  unfoldable pub match_capture : Bool → Bool → List String → List String → Option (List String × ℕ)
  unfolding one_segment consumed
  match_capture escaped true capture segments = one_segment capture segments
  match_capture escaped false capture segments =
      consumed (length capture) (match_segments escaped capture segments)

  match_suffix : Bool → List String → List String → List String → Option MatchResult
  match_suffix escaped suffix segments captured = elim (match_segments escaped suffix segments) [
    | none ↦ none
    | some _ ↦ some (record { captured = captured; rest = drop (length suffix) segments })
  ]

  match_rest : Bool → Bool → Template → List String → Option MatchResult
  unfolding match_suffix
  match_rest escaped single c segments = elim (match_capture escaped single c.capture segments) [
    | none ↦ none
    | some (captured, n) ↦ match_suffix escaped c.suffix (drop n segments) captured
  ]

  -- `match`
  unfoldable pub match_path : Bool → Bool → Template → List String → Option MatchResult
  unfolding match_rest
  match_path escaped single c segments = elim (match_segments escaped c.prefix segments) [
    | none ↦ none
    | some _ ↦ match_rest escaped single c (drop (length c.prefix) segments)
  ]

  -- `Match`, of the path's segments
  unfoldable pub match_plain : Template → List String → Option MatchResult
  match_plain c segments = match_path false false c segments

  -- `MatchEscaped`, of the path's segments: the single segment is tried first
  unfoldable pub match_escaped : Template → List String → Option MatchResult
  match_escaped c segments = elim (match_path true true c segments) [
    | some r ↦ some r
    | none ↦ match_path true false c segments
  ]
