-- ===== src/Tests/Sse.antt =====
-- A scanner of lines, and a run of the reader of server-sent events.
use a2a_go.Base.{
  ℕ, false, Option, none, List, [], ◌∷◌, ◌++◌, ◌<◌, length, if◌then◌else◌, ◌==◌, ◌≡◌, ◌≢◌, refl, ap,
  ◌∙◌, arith, map, All, inl, inr, Bool-cases, Fault,
}
use a2a_go.Wire.Sse.{newline, parse_data_stream}
use a2a_go.Wire.Stream.{
  IsLine, IsScanner, ends_in_return, Written, alive, block, body_of, IsSent,
  parse_data_stream-body_of,
}

push : ℕ → List (List ℕ) → List (List ℕ)
push x [] = (x ∷ []) ∷ []
push x (l ∷ ls) = (x ∷ l) ∷ ls

split : List ℕ → List (List ℕ)
unfolding push
split [] = []
split (x ∷ l) = let rest = split l in if x == newline then [] ∷ rest else push x rest

drop_return : List ℕ → List ℕ
drop_return [] = []
drop_return (x ∷ []) = if x == 13 then [] else x ∷ []
drop_return (x ∷ y ∷ l) = x ∷ drop_return (y ∷ l)

scan : List ℕ → List (List ℕ) × Option Fault
scan body = (map drop_return (split body), none)

split-line :
    (line rest : List ℕ)
    → All (λ (x : ℕ). x ≢ newline) line
    → split (line ++ (newline ∷ rest)) ≡ line ∷ split rest
unfolding split
split-line [] rest h = refl
split-line (x ∷ line) rest (ne, h) = elim (Bool-cases (x == newline)) [
  | inl e ↦ absurd (ground arith)
  | inr e ↦ rw (e, split-line line rest h) refl
]

drop_return-kept : (line : List ℕ) → ends_in_return line ≡ false → drop_return line ≡ line
unfolding drop_return
drop_return-kept [] h = refl
drop_return-kept (x ∷ []) h = rw h refl
drop_return-kept (x ∷ y ∷ line) h = ap (◌∷◌ x) (drop_return-kept (y ∷ line) h)

scan-IsScanner : IsScanner scan
unfolding scan split
scan-IsScanner = record {
  over = refl;
  line = λ line rest is.
      let cut = split-line line rest is.no_newline in
      let whole = drop_return-kept line is.no_return in
      ap (λ (l : List (List ℕ)). (map drop_return l, none)) cut
      ∙ ap (λ (l : List ℕ). (l ∷ map drop_return (split rest), none)) whole;
}

-- `{"a"}` behind a comment, and `{}`
abbrev sent : List Written
sent =
    alive
    ∷ block (49 ∷ []) (123 ∷ 34 ∷ 97 ∷ 34 ∷ 125 ∷ [])
    ∷ block (50 ∷ []) (32 ∷ 123 ∷ 125 ∷ [])
    ∷ []

plain-IsLine :
    (line : List ℕ)
    → All (λ (x : ℕ). x ≢ newline) line
    → ends_in_return line ≡ false
    → length line < 10485760
    → IsLine line
plain-IsLine line a b c = record { no_newline = a; no_return = b; short = c }

sent-IsSent : All IsSent sent
sent-IsSent = (
  tt,
  (
    (
      plain-IsLine _ (omega arith) refl (omega arith),
      plain-IsLine _ (omega arith) refl (omega arith),
      λ h. ground arith,
    ),
    (
      (
        plain-IsLine _ (omega arith) refl (omega arith),
        plain-IsLine _ (omega arith) refl (omega arith),
        λ h. ground arith,
      ),
      tt,
    ),
  ),
)

parse_data_stream-body_of_example :
    parse_data_stream scan (body_of sent)
    ≡ ((123 ∷ 34 ∷ 97 ∷ 34 ∷ 125 ∷ []) ∷ (32 ∷ 123 ∷ 125 ∷ []) ∷ [], none)
parse_data_stream-body_of_example = parse_data_stream-body_of scan scan-IsScanner sent sent-IsSent
