-- ===== src/TaskStore/Behind.antt =====
-- The entries behind a page token in an ordered list, a2asrv/taskstore/inmemory.go.

use a2a_go.Base.{
  ℕ, zero, suc, ◌≤◌, ◌<◌, true, false, List, [], ◌∷◌, ◌++◌, All, length, length-append, get_elem?,
  drop, ◌≡◌, refl, arith,
}
use a2a_go.TaskStore.InMemory.{Entry}
use a2a_go.TaskStore.Order.{compare_flip, text_lt_trans}
use a2a_go.TaskStore.Search.{search, search_lem}
use a2a_go.TaskStore.Listing.{before, behind}

-- Every entry stands before all that follow it.
abbrev pub IsOrdered : List Entry → Type 0
IsOrdered [] = Unit
IsOrdered (a ∷ l) = All (λ b. before a b ≡ true) l × IsOrdered l

pub before-asym : (a b : Entry) → before a b ≡ true → before b a ≡ false
before-asym a b h = ground (arith, compare_flip b.task.id a.task.id)

pub before_trans : (a b c : Entry) → before a b ≡ true → before b c ≡ true → before a c ≡ true
before_trans a b c h k = ground (arith, text_lt_trans c.task.id b.task.id a.task.id)

pub before_irrefl : (a : Entry) → before a a ≡ false
before_irrefl a = ground (arith, before-asym a a)

pub All_middle {ℓ} :
    {A : Type ℓ} (P : A → Type 0) (xs ys : List A) (x : A) → All P (xs ++ x ∷ ys) → P x
All_middle P [] ys x h = h.0
All_middle P (y ∷ xs) ys x h = All_middle P xs ys x h.1

module _ (x : Entry) where
  pub behind_rest :
      (ys : List Entry) (m : ℕ)
      → All (λ b. before x b ≡ true) ys
      → behind (x.last_updated, x.task.id) (get_elem? ys m) ≡ true
  behind_rest [] m h = refl
  behind_rest (y ∷ ys) zero h = h.0
  behind_rest (y ∷ ys) (suc m) h = behind_rest ys m h.1

  pub behind_low :
      (xs ys : List Entry) (m : ℕ)
      → IsOrdered (xs ++ x ∷ ys)
      → m < suc (length xs)
      → behind (x.last_updated, x.task.id) (get_elem? (xs ++ x ∷ ys) m) ≡ false
  behind_low [] ys zero h lt = before_irrefl x
  behind_low [] ys (suc m) h lt = absurd (omega arith)
  behind_low (y ∷ xs) ys zero h lt =
      before-asym y x (All_middle (λ b. before y b ≡ true) xs ys x h.0)
  behind_low (y ∷ xs) ys (suc m) h lt = behind_low xs ys m h.1 (omega arith)

  pub behind_high :
      (xs ys : List Entry) (m : ℕ)
      → IsOrdered (xs ++ x ∷ ys)
      → suc (length xs) ≤ m
      → behind (x.last_updated, x.task.id) (get_elem? (xs ++ x ∷ ys) m) ≡ true
  behind_high [] ys zero h le = absurd (omega arith)
  behind_high [] ys (suc m) h le = behind_rest ys m h.0
  behind_high (y ∷ xs) ys zero h le = absurd (omega arith)
  behind_high (y ∷ xs) ys (suc m) h le = behind_high xs ys m h.1 (omega arith)

  -- In an ordered list the search finds the place behind the cursor's entry.
  pub behind_split :
      (xs ys : List Entry)
      → IsOrdered (xs ++ x ∷ ys)
      → search
          (length (xs ++ x ∷ ys))
          (λ i. behind (x.last_updated, x.task.id) (get_elem? (xs ++ x ∷ ys) i))
        ≡ suc (length xs)
  behind_split xs ys h =
      search_lem _ (suc (length xs)) (length (xs ++ x ∷ ys)) (λ m lt. behind_low xs ys m h lt)
        (λ m le _. behind_high xs ys m h le) (omega (arith, length-append {0} xs (x ∷ ys)))

pub drop_behind {ℓ} :
    {A : Type ℓ} (xs ys : List A) (x : A) → drop (suc (length xs)) (xs ++ x ∷ ys) ≡ ys
drop_behind [] ys x = refl
drop_behind (y ∷ xs) ys x = drop_behind xs ys x
