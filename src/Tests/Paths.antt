-- ===== src/Tests/Paths.antt =====
-- A template that is matched.
use a2a_go.Base.{String, false, some, List, [], ◌∷◌, ◌≡◌, ◌↔◌, Result, ok}
use a2a_go.Wire.PathTemplate.{Template, MatchResult, match_plain}
use a2a_go.Wire.Paths.{IsMatch, match_plain_iff}

-- `/tasks/{*}/push`
abbrev push_path : Template
push_path = record { prefix = "tasks" ∷ []; capture = "*" ∷ []; suffix = "push" ∷ [] }

abbrev plain : String → Result String
plain s = ok s

abbrev whole : String → List String
whole s = s ∷ []

abbrev segments : List String
segments = "tasks" ∷ "t1" ∷ "push" ∷ "c1" ∷ []

abbrev found : MatchResult
found = record { captured = "t1" ∷ []; rest = "c1" ∷ [] }

match_plain_iff_example :
    (match_plain plain whole push_path segments ≡ some found)
    ↔ IsMatch plain whole false push_path segments found
match_plain_iff_example = match_plain_iff plain whole push_path segments found
