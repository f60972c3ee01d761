-- ===== src/Wire/Paths.antt =====
-- Which paths a template matches, internal/pathtemplate/pathtemplate.go.
use a2a_go.Base.{
  String, Bool, false, not, ◌&&◌, some, List, [], ◌∷◌, ◌++◌, length, drop, str_eq, eq_iff, ◌≡◌, ◌↔◌,
  ◌⊎◌, inl, inr, refl, ap, sym, ◌∙◌, subst, arith, Bool-cases, Option-cases, Result, Result-cases,
  ok,
}
use a2a_go.Wire.PathTemplate.{
  Template, MatchResult, read_segment, match_segments, match_capture, match_path, match_plain,
}

module _ (unescape : String → Result String) (split : String → List String) where
  -- The segments are as many as the template's, they read as the matched ones, and each is what the
  -- template has at its place, if that has not a star.
  abbrev pub Matches : Bool → List String → List String → List String → Type 0
  Matches escaped [] [] [] = Unit
  Matches escaped (t ∷ ts) (s ∷ ss) (p ∷ ps) =
      (read_segment unescape split escaped s ≡ ok p)
      × ((t ≡ "*") ⊎ (t ≡ p))
      × Matches escaped ts ss ps
  Matches _ _ _ _ = ⊥

  match_segments-Matches :
      (escaped : Bool) (ts segments ps : List String)
      → match_segments unescape split escaped ts segments ≡ some ps
      → (front : List String) × (segments ≡ front ++ drop (length ts) segments)
        × Matches escaped ts front ps
  unfolding match_segments
  match_segments-Matches escaped [] segments [] h = ([], refl, tt)
  match_segments-Matches escaped [] segments (p ∷ ps) h = absurd (ground arith)
  match_segments-Matches escaped (t ∷ ts) [] ps h = absurd (ground arith)
  match_segments-Matches escaped (t ∷ ts) (s ∷ segments) ps h =
      elim (Result-cases (read_segment unescape split escaped s)) [
        | inl (f, q) ↦ absurd (ground arith)
        | inr (p, q) ↦ elim (Option-cases (match_segments unescape split escaped ts segments)) [
          | inl n ↦ absurd (ground arith)
          | inr (rest, n) ↦ elim (Bool-cases (not (str_eq t "*") && not (str_eq t p))) [
            | inl e ↦ absurd (ground arith)
            | inr e ↦
                let (front, is, all) = match_segments-Matches escaped ts segments rest n in
                let same : p ∷ rest ≡ ps = ground arith in
                let fits : (t ≡ "*") ⊎ (t ≡ p) = elim (Bool-cases (str_eq t "*")) [
                  | inl star ↦ inl ((eq_iff t "*").0 star)
                  | inr other ↦ inr ((eq_iff t p).0 (ground arith))
                ] in
                (
                  s ∷ front,
                  ap (◌∷◌ s) is,
                  subst (Matches escaped (t ∷ ts) (s ∷ front)) same (q, fits, all),
                )
          ]
        ]
      ]

  Matches-match_segments :
      (escaped : Bool) (ts front ps rest : List String)
      → Matches escaped ts front ps
      → (match_segments unescape split escaped ts (front ++ rest) ≡ some ps)
        × (drop (length ts) (front ++ rest) ≡ rest)
  unfolding match_segments
  Matches-match_segments escaped [] [] [] rest h = (refl, refl)
  Matches-match_segments escaped [] [] (p ∷ ps) rest h = absurd h
  Matches-match_segments escaped [] (s ∷ front) ps rest h = absurd h
  Matches-match_segments escaped (t ∷ ts) [] ps rest h = absurd h
  Matches-match_segments escaped (t ∷ ts) (s ∷ front) [] rest h = absurd h
  Matches-match_segments escaped (t ∷ ts) (s ∷ front) (p ∷ ps) rest (q, fits, all) =
      let (is, left) = Matches-match_segments escaped ts front ps rest all in
      let star = eq_iff t "*" in let text = eq_iff t p in (ground arith, left)

  -- The path is a beginning that fits the prefix, a capture, an end that fits the suffix, and the rest.
  abbrev pub IsMatch : Bool → Template → List String → MatchResult → Type 0
  IsMatch escaped c segments r =
      (pre : List String) × (cap : List String) × (suf : List String) × (before : List String)
      × (behind : List String) × (segments ≡ pre ++ (cap ++ (suf ++ r.rest)))
      × Matches escaped c.prefix pre before
      × Matches escaped c.capture cap r.captured
      × Matches escaped c.suffix suf behind

  match_path-IsMatch :
      (escaped : Bool) (c : Template) (segments : List String) (r : MatchResult)
      → match_path unescape split escaped false c segments ≡ some r
      → IsMatch escaped c segments r
  unfolding match_path match_capture
  match_path-IsMatch escaped c segments r h =
      let second = drop (length c.prefix) segments in
      let third = drop (length c.capture) second in
      elim (Option-cases (match_segments unescape split escaped c.prefix segments)) [
        | inl n ↦ absurd (ground arith)
        | inr (before, n) ↦
            elim (Option-cases (match_segments unescape split escaped c.capture second)) [
              | inl k ↦ absurd (ground arith)
              | inr (captured, k) ↦
                  elim (Option-cases (match_segments unescape split escaped c.suffix third)) [
                    | inl z ↦ absurd (ground arith)
                    | inr (behind, z) ↦
                        let (pre, is1, fits1) =
                          match_segments-Matches escaped c.prefix segments before n in
                        let (cap, is2, fits2) =
                          match_segments-Matches escaped c.capture second captured k in
                        let (suf, is3, fits3) =
                          match_segments-Matches escaped c.suffix third behind z in
                        let made : MatchResult = record {
                          captured = captured;
                          rest = drop (length c.suffix) third;
                        } in
                        let same : made ≡ r = ground arith in
                        subst (IsMatch escaped c segments) same (
                          pre,
                          cap,
                          suf,
                          before,
                          behind,
                          is1
                              ∙ ap (λ (l : List String). pre ++ l)
                                  (is2 ∙ ap (λ (l : List String). cap ++ l) is3),
                          fits1,
                          fits2,
                          fits3,
                        )
                  ]
            ]
      ]

  IsMatch-match_path :
      (escaped : Bool) (c : Template) (segments : List String) (r : MatchResult)
      → IsMatch escaped c segments r
      → match_path unescape split escaped false c segments ≡ some r
  unfolding match_path match_capture
  IsMatch-match_path escaped c segments r (pre, cap, suf, before, behind, is, fits1, fits2, fits3) =
      let (m1, d1) =
        Matches-match_segments escaped c.prefix pre before (cap ++ (suf ++ r.rest)) fits1 in
      let (m2, d2) =
        Matches-match_segments escaped c.capture cap r.captured (suf ++ r.rest) fits2 in
      let (m3, d3) = Matches-match_segments escaped c.suffix suf behind r.rest fits3 in
      subst (λ (l : List String). match_path unescape split escaped false c l ≡ some r) (sym is)
        (ground arith)

  -- A path matches a template, with what is captured and what is left over, exactly when its segments are
  -- a beginning that fits the prefix, the captured ones, an end that fits the suffix, and what is left:
  -- a star fits every segment, another segment of the template only itself.
  pub match_plain_iff :
      (c : Template) (segments : List String) (r : MatchResult)
      → (match_plain unescape split c segments ≡ some r) ↔ IsMatch false c segments r
  unfolding match_plain
  match_plain_iff c segments r =
      (match_path-IsMatch false c segments r, IsMatch-match_path false c segments r)
