-- ===== src/Wire/Sse.antt =====
-- Server-sent events, internal/sse/sse.go: what `WriteData` and `WriteKeepAlive` write, and what
-- `ParseDataStream` yields.
--
-- A text is the list of its bytes. The lines come from a `bufio.Scanner`, which is a parameter: the lines of
-- a body, and its error at the end. A stream is what it yields to a consumer that takes everything.
use a2a_go.Base.{
  ℕ, Bool, true, false, Option, none, some, List, [], ◌∷◌, ◌++◌, if◌then◌else◌, ◌==◌, Fault,
}

abbrev pub newline : ℕ
newline = 10

-- `sseIDPrefix` with its space, and `sseDataPrefix`
abbrev pub id_prefix : List ℕ
id_prefix = 105 ∷ 100 ∷ 58 ∷ 32 ∷ []

abbrev pub data_prefix : List ℕ
data_prefix = 100 ∷ 97 ∷ 116 ∷ 97 ∷ 58 ∷ []

-- ": keep-alive"
abbrev pub keep_alive : List ℕ
keep_alive = 58 ∷ 32 ∷ 107 ∷ 101 ∷ 101 ∷ 112 ∷ 45 ∷ 97 ∷ 108 ∷ 105 ∷ 118 ∷ 101 ∷ []

abbrev pub id_line : List ℕ → List ℕ
id_line id = id_prefix ++ id

abbrev pub data_line : List ℕ → List ℕ
data_line d = data_prefix ++ (32 ∷ d)

-- `WriteKeepAlive`
unfoldable pub write_keep_alive : List ℕ
write_keep_alive = keep_alive ++ (newline ∷ newline ∷ [])

-- `WriteData`, with the new event ID
unfoldable pub write_data : List ℕ → List ℕ → List ℕ
write_data id d = id_line id ++ (newline ∷ (data_line d ++ (newline ∷ newline ∷ [])))

-- `bytes.HasPrefix` with what is behind the prefix
abbrev pub behind : List ℕ → List ℕ → Option (List ℕ)
behind [] line = some line
behind (p ∷ ps) [] = none
behind (p ∷ ps) (x ∷ line) = let rest = behind ps line in if p == x then rest else none

-- `bytes.TrimPrefix` of the byte order mark
abbrev pub trim_mark : List ℕ → List ℕ
trim_mark line = elim (behind (239 ∷ 187 ∷ 191 ∷ []) line) [ none ↦ line | some rest ↦ rest ]

abbrev pub drop_space : List ℕ → List ℕ
drop_space [] = []
drop_space (x ∷ d) = if x == 32 then d else x ∷ d

-- a data field behind those that the event has
abbrev pub add_field : List ℕ → List ℕ → List ℕ
add_field [] d = d
add_field (x ∷ event) d = x ∷ (event ++ (newline ∷ d))

-- `flush`: what is yielded
abbrev pub flush : List ℕ → List (List ℕ)
flush [] = []
flush (x ∷ event) = (x ∷ event) ∷ []

-- one line, without the mark: what is yielded, and the event behind it
abbrev pub after_line : List ℕ → List ℕ → List (List ℕ) × List ℕ
after_line event [] = (flush event, [])
after_line event (x ∷ line) = (
  [],
  elim (behind data_prefix (x ∷ line)) [ none ↦ event | some d ↦ add_field event (drop_space d) ],
)

-- the end of the stream
abbrev pub at_end : List ℕ → Option Fault → List (List ℕ) × Option Fault
at_end event (some f) = ([], some f)
at_end event none = (flush event, none)

-- the loop over the lines, with the error of the scanner
unfoldable pub read_lines :
    Bool → List ℕ → List (List ℕ) → Option Fault → List (List ℕ) × Option Fault
read_lines first event [] failure = at_end event failure
read_lines first event (line ∷ lines) failure =
    let (ys, e) = after_line event (if first then trim_mark line else line) in
    let (rest, f) = read_lines false e lines failure in (ys ++ rest, f)

-- `ParseDataStream`
unfoldable pub parse_data_stream :
    (List ℕ → List (List ℕ) × Option Fault) → List ℕ → List (List ℕ) × Option Fault
parse_data_stream scan body = let (lines, failure) = scan body in read_lines true [] lines failure
