-- ===== src/Base/Maps.antt =====
-- Go maps with string keys, as association lists: the entries in the order in which one `range`
-- meets them. Nothing that is proved depends on that order but where it says so.
use Prim.Native.Nat.{◌+◌, ◌≤◌}
use Prim.Native.String.{String}
use mathlib.Core.Path.{◌≡◌, refl, ◌∙◌}
use mathlib.Core.Logic.{inl, inr}
use mathlib.Core.Option.{Option, none, some}
use mathlib.Core.List.{List, [], ◌∷◌}
use native.Mathlib.Omega.{arith}
use text.Mathlib.Text.{◌==◌ as str_eq}
use text.Mathlib.TextEquality.{eq_iff}
use text.Mathlib.TextPositions.{eq_refl}
use a2a_go.Base.Tests.{if◌then◌else◌, Bool-cases}
use a2a_go.Base.Lists.{length}

abbrev pub GoMap {ℓ} : Type ℓ → Type ℓ
GoMap V = List (String × V)

module _ {ℓ} {V : Type ℓ} where
  -- `m[k]` with its second result
  unfoldable pub lookup : String → GoMap V → Option V
  lookup k [] = none
  lookup k ((j, v) ∷ m) = if str_eq j k then some v else lookup k m

  -- `m[k] = v`
  unfoldable pub insert : String → V → GoMap V → GoMap V
  insert k v [] = (k, v) ∷ []
  insert k v ((j, w) ∷ m) = if str_eq j k then (k, v) ∷ m else (j, w) ∷ insert k v m

  -- `delete(m, k)`
  unfoldable pub remove : String → GoMap V → GoMap V
  remove k [] = []
  remove k ((j, v) ∷ m) = let rest = remove k m in if str_eq j k then rest else (j, v) ∷ rest

  -- `maps.Copy(dst, src)`
  unfoldable pub copy_into : GoMap V → GoMap V → GoMap V
  copy_into dst [] = dst
  copy_into dst ((k, v) ∷ src) = copy_into (insert k v dst) src

  -- No key stands twice, as in every Go map.
  abbrev pub IsMap : GoMap V → Type ℓ
  IsMap [] = Unit
  IsMap ((k, v) ∷ m) = (lookup k m ≡ none) × IsMap m

module _ {ℓ} {V : Type ℓ} where
  pub lookup-insert :
      (k j : String) (v : V) (m : GoMap V)
      → lookup j (insert k v m) ≡ (if str_eq k j then some v else lookup j m)
  unfolding insert lookup
  lookup-insert k j v [] = refl
  lookup-insert k j v ((first, w) ∷ rest) =
      let later : lookup j (insert k v rest) ≡ (if str_eq k j then some v else lookup j rest) =
        lookup-insert k j v rest in
      ground (arith, later, eq_iff first k, eq_iff first j, eq_iff k j)

  pub lookup-insert_self : (k : String) (v : V) (m : GoMap V) → lookup k (insert k v m) ≡ some v
  lookup-insert_self k v m = lookup-insert k k v m ∙ rw (eq_refl k) refl

  pub lookup-remove :
      (k j : String) (m : GoMap V)
      → lookup j (remove k m) ≡ (if str_eq k j then none else lookup j m)
  unfolding lookup remove
  lookup-remove k j [] = ground arith
  lookup-remove k j ((i, v) ∷ m) =
      ground (arith, lookup-remove k j m, eq_iff i k, eq_iff i j, eq_iff k j)

  pub IsMap-insert : (k : String) (v : V) (m : GoMap V) → IsMap m → IsMap (insert k v m)
  unfolding lookup insert
  IsMap-insert k v [] h = (refl, tt)
  IsMap-insert k v ((i, w) ∷ m) h = elim (Bool-cases (str_eq i k)) [
    | inl e ↦ rw e (let p : i ≡ k = (eq_iff i k).0 e in (rw (← p) h.0, h.1))
    | inr e ↦
        rw e (ground (arith, lookup-insert k i v m, eq_iff k i, eq_iff i k), IsMap-insert k v m h.1)
  ]

  pub IsMap-remove : (k : String) (m : GoMap V) → IsMap m → IsMap (remove k m)
  unfolding lookup remove
  IsMap-remove k [] h = tt
  IsMap-remove k ((i, w) ∷ m) h = elim (Bool-cases (str_eq i k)) [
    | inl e ↦ rw e (IsMap-remove k m h.1)
    | inr e ↦ rw e (ground (arith, lookup-remove k i m), IsMap-remove k m h.1)
  ]

  pub length-insert_new :
      (k : String) (v : V) (m : GoMap V) → lookup k m ≡ none → length (insert k v m) ≡ length m + 1
  unfolding lookup insert
  length-insert_new k v [] h = omega arith
  length-insert_new k v ((i, w) ∷ m) h = ground (arith, length-insert_new k v m)

  pub length-insert_old :
      (k : String) (v w : V) (m : GoMap V) → lookup k m ≡ some w → length (insert k v m) ≡ length m
  unfolding lookup insert
  length-insert_old k v w [] h = cc
  length-insert_old k v w ((i, u) ∷ m) h = ground (arith, length-insert_old k v w m)

  pub remove_absent : (k : String) (m : GoMap V) → lookup k m ≡ none → remove k m ≡ m
  unfolding lookup remove
  remove_absent k [] h = refl
  remove_absent k ((i, w) ∷ m) h = ground (arith, remove_absent k m)

  pub length-remove_old :
      (k : String) (v : V) (m : GoMap V)
      → IsMap m
      → lookup k m ≡ some v
      → length (remove k m) + 1 ≡ length m
  unfolding lookup remove
  length-remove_old k v [] h e = cc
  length-remove_old k v ((i, w) ∷ m) h e =
      ground (arith, eq_iff i k, length-remove_old k v m h.1, remove_absent k m)

  pub length-remove-le : (k : String) (m : GoMap V) → length (remove k m) ≤ length m
  unfolding remove
  length-remove-le k [] = omega arith
  length-remove-le k ((i, w) ∷ m) = ground (arith, length-remove-le k m)
