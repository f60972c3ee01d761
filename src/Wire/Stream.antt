-- ===== src/Wire/Stream.antt =====
-- What a reader of server-sent events makes of what was written, internal/sse/sse.go.
use mathlib.Core.List.{append_assoc}
use a2a_go.Base.{
  ℕ, ◌<◌, Bool, true, false, Option, none, List, [], ◌∷◌, ◌++◌, ◌==◌, ◌≡◌, ◌≢◌, refl, ap, ◌∙◌,
  arith, All, length, Fault,
}
use a2a_go.Wire.Sse.{
  newline, keep_alive, id_line, data_line, write_keep_alive, write_data, flush, read_lines,
  parse_data_stream,
}

-- whether the last byte is a carriage return, which the scanner drops
abbrev pub ends_in_return : List ℕ → Bool
ends_in_return [] = false
ends_in_return (x ∷ []) = x == 13
ends_in_return (x ∷ y ∷ line) = ends_in_return (y ∷ line)

-- a line that the scanner returns as it is: 10485760 is `MaxSSETokenSize`
pub record IsLine (line : List ℕ) : Type 0 where
  pub no_newline : All (λ (x : ℕ). x ≢ newline) line
  pub no_return : ends_in_return line ≡ false
  pub short : length line < 10485760

-- What `bufio.Scanner` documents of `ScanLines` with its buffer.
pub record IsScanner (scan : List ℕ → List (List ℕ) × Option Fault) : Type 0 where
  pub over : scan [] ≡ ([], none)
  pub line :
      (line rest : List ℕ)
      → IsLine line
      → scan (line ++ (newline ∷ rest)) ≡ (line ∷ (scan rest).0, (scan rest).1)

-- what a server writes
pub data Written : Type 0 where
  alive : Written
  block : List ℕ → List ℕ → Written

abbrev pub bytes_of : Written → List ℕ
bytes_of alive = write_keep_alive
bytes_of (block id d) = write_data id d

abbrev pub body_of : List Written → List ℕ
body_of [] = []
body_of (x ∷ xs) = bytes_of x ++ body_of xs

abbrev pub payloads : List Written → List (List ℕ)
payloads [] = []
payloads (alive ∷ xs) = payloads xs
payloads (block id d ∷ xs) = d ∷ payloads xs

-- a block whose lines are lines, and whose data is not empty
abbrev pub IsSent : Written → Type 0
IsSent alive = Unit
IsSent (block id d) = IsLine (id_line id) × IsLine (data_line d) × (d ≢ [])

lines_of : List Written → List (List ℕ)
lines_of [] = []
lines_of (alive ∷ xs) = keep_alive ∷ [] ∷ lines_of xs
lines_of (block id d ∷ xs) = id_line id ∷ data_line d ∷ [] ∷ lines_of xs

flush_one : (d : List ℕ) → d ≢ [] → flush d ≡ d ∷ []
flush_one [] h = absurd (h refl)
flush_one (x ∷ d) h = refl

read-lines_of :
    (first : Bool) (xs : List Written)
    → All IsSent xs
    → read_lines first [] (lines_of xs) none ≡ (payloads xs, none)
unfolding read_lines lines_of
read-lines_of first [] sent = refl
read-lines_of true (alive ∷ xs) sent = read-lines_of false xs sent.1
read-lines_of false (alive ∷ xs) sent = read-lines_of false xs sent.1
read-lines_of true (block id d ∷ xs) ((_, _, some_data), sent) =
    rw (flush_one d some_data, read-lines_of false xs sent) refl
read-lines_of false (block id d ∷ xs) ((_, _, some_data), sent) =
    rw (flush_one d some_data, read-lines_of false xs sent) refl

keep_alive-IsLine : IsLine keep_alive
keep_alive-IsLine = record { no_newline = omega arith; no_return = refl; short = omega arith }

empty-IsLine : IsLine []
empty-IsLine = record { no_newline = tt; no_return = refl; short = omega arith }

module _ (scan : List ℕ → List (List ℕ) × Option Fault) (laws : IsScanner scan) where
  -- a line and an empty one
  scan_pair :
      (line rest : List ℕ) (lines : List (List ℕ))
      → IsLine line
      → scan rest ≡ (lines, none)
      → scan (line ++ (newline ∷ newline ∷ rest)) ≡ (line ∷ [] ∷ lines, none)
  scan_pair line rest lines is h =
      laws.line line (newline ∷ rest) is ∙ rw (laws.line [] rest empty-IsLine, h) refl

  scan_body : (xs : List Written) → All IsSent xs → scan (body_of xs) ≡ (lines_of xs, none)
  unfolding lines_of write_keep_alive write_data
  scan_body [] sent = laws.over
  scan_body (alive ∷ xs) sent =
      scan_pair keep_alive (body_of xs) (lines_of xs) keep_alive-IsLine (scan_body xs sent.1)
  scan_body (block id d ∷ xs) ((of_id, of_data, some_data), sent) =
      let pair = scan_pair (data_line d) (body_of xs) (lines_of xs) of_data (scan_body xs sent) in
      ap scan (
        append_assoc (id_line id) (newline ∷ (data_line d ++ (newline ∷ newline ∷ []))) (body_of xs)
        ∙ ap (λ (l : List ℕ). id_line id ++ (newline ∷ l))
            (append_assoc (data_line d) (newline ∷ newline ∷ []) (body_of xs)))
      ∙ laws.line (id_line id) (data_line d ++ (newline ∷ newline ∷ body_of xs)) of_id
      ∙ rw pair refl

  -- A reader gets each block's data, unchanged and in order, and nothing else, whatever is written between
  -- the blocks to keep the connection alive: when no line has a newline, ends in a carriage return or
  -- is longer than the limit, and no data is empty.
  pub parse_data_stream-body_of :
      (xs : List Written)
      → All IsSent xs
      → parse_data_stream scan (body_of xs) ≡ (payloads xs, none)
  unfolding parse_data_stream
  parse_data_stream-body_of xs sent = rw (scan_body xs sent) (read-lines_of true xs sent)
