-- ===== src/TaskStore/Sorted.antt =====
-- The listing of the in-memory store is in order.

use text.Mathlib.TextEquality.{path_by_compare}
use a2a_go.Base.{
  String, true, false, none, some, List, [], ◌∷◌, All, ◌≡◌, ◌≢◌, ◌⊎◌, ◌<◌, inl, inr, arith, eq_iff,
  eq_refl, Bool-cases,
}
use a2a_go.Base.Maps.{IsMap, lookup}
use a2a_go.TaskStore.InMemory.{Entry, Tasks}
use a2a_go.TaskStore.Order.{compare_flip, text_lt}
use a2a_go.TaskStore.Runs.{IsWellFormed}
use a2a_go.TaskStore.Listing.{
  ListTasksRequest, before, keeps, filter_tasks, sort_tasks, insert_sorted,
}
use a2a_go.TaskStore.Behind.{IsOrdered, before_trans}

before_total : (a b : Entry) → a.task.id ≢ b.task.id → before b a ≡ false → before a b ≡ true
before_total a b ne h =
    ground (arith, compare_flip b.task.id a.task.id, path_by_compare b.task.id a.task.id)

-- no two entries have one ID
abbrev DistinctIds : List Entry → Type 0
DistinctIds [] = Unit
DistinctIds (a ∷ l) = All (λ b. a.task.id ≢ b.task.id) l × DistinctIds l

insert_sorted-All {ℓ} :
    (P : Entry → Type ℓ) (a : Entry) (l : List Entry) → P a → All P l → All P (insert_sorted a l)
unfolding insert_sorted
insert_sorted-All P a [] h k = (h, tt)
insert_sorted-All P a (b ∷ l) h k = elim (Bool-cases (before b a)) [
  | inl e ↦ rw e (k.0, insert_sorted-All P a l h k.1)
  | inr e ↦ rw e (h, k)
]

All-map {ℓ} :
    {A : Type ℓ} (P Q : A → Type 0) (l : List A) → ((a : A) → P a → Q a) → All P l → All Q l
All-map P Q [] f h = tt
All-map P Q (x ∷ l) f h = (f x h.0, All-map P Q l f h.1)

insert_sorted-IsOrdered :
    (a : Entry) (l : List Entry)
    → All (λ b. a.task.id ≢ b.task.id) l
    → IsOrdered l
    → IsOrdered (insert_sorted a l)
unfolding insert_sorted
insert_sorted-IsOrdered a [] d o = (tt, tt)
insert_sorted-IsOrdered a (b ∷ l) d o = elim (Bool-cases (before b a)) [
  | inl e ↦
      rw e
        (insert_sorted-All (λ c. before b c ≡ true) a l e o.0, insert_sorted-IsOrdered a l d.1 o.1)
  | inr e ↦
      let first = before_total a b d.0 e in
      rw e (
        (
          first,
          All-map (λ c. before b c ≡ true) (λ c. before a c ≡ true) l
              (λ c k. before_trans a b c first k) o.0,
        ),
        o,
      )
]

sort_tasks-All {ℓ} : (P : Entry → Type ℓ) (l : List Entry) → All P l → All P (sort_tasks l)
unfolding sort_tasks
sort_tasks-All P [] h = tt
sort_tasks-All P (a ∷ l) h = insert_sorted-All P a (sort_tasks l) h.0 (sort_tasks-All P l h.1)

sort_tasks-IsOrdered : (l : List Entry) → DistinctIds l → IsOrdered (sort_tasks l)
unfolding sort_tasks
sort_tasks-IsOrdered [] d = tt
sort_tasks-IsOrdered (a ∷ l) d =
    insert_sorted-IsOrdered a (sort_tasks l) (sort_tasks-All (λ b. a.task.id ≢ b.task.id) l d.0)
      (sort_tasks-IsOrdered l d.1)

filter_tasks-absent :
    (s : Tasks) (user : String) (req : ListTasksRequest) (id : String)
    → All (λ p. p.1.task.id ≡ p.0) s
    → lookup id s ≡ none
    → All (λ b. id ≢ b.task.id) (filter_tasks s user req)
unfolding filter_tasks lookup
filter_tasks-absent [] user req id k h = tt
filter_tasks-absent ((j, e) ∷ s) user req id k h = elim (Bool-cases (keeps user req e)) [
  | inl p ↦
      rw p
        (λ same. ground (arith, eq_iff j id), filter_tasks-absent s user req id k.1 (ground arith))
  | inr p ↦ rw p (filter_tasks-absent s user req id k.1 (ground arith))
]

filter_tasks-DistinctIds :
    (s : Tasks) (user : String) (req : ListTasksRequest)
    → All (λ p. p.1.task.id ≡ p.0) s
    → IsMap s
    → DistinctIds (filter_tasks s user req)
unfolding filter_tasks
filter_tasks-DistinctIds [] user req k d = tt
filter_tasks-DistinctIds ((j, e) ∷ s) user req k d = elim (Bool-cases (keeps user req e)) [
  | inl p ↦ rw p (
    rw k.0 (filter_tasks-absent s user req j k.1 d.0),
    filter_tasks-DistinctIds s user req k.1 d.1,
  )
  | inr p ↦ rw p (filter_tasks-DistinctIds s user req k.1 d.1)
]

keyed_entries :
    (s : Tasks)
    → IsMap s
    → ((id : String) (a : Entry) → lookup id s ≡ some a → a.task.id ≡ id)
    → All (λ p. p.1.task.id ≡ p.0) s
unfolding lookup
keyed_entries [] d k = tt
keyed_entries ((j, e) ∷ s) d k = (
  k j e (ground (arith, eq_refl j)),
  keyed_entries s d.1 (λ id a h. k id a (ground (arith, eq_iff j id))),
)

-- One task was updated later than another or, at the same instant, has the greater ID.
abbrev pub IsNewer : Entry → Entry → Type 0
IsNewer a b =
    (b.last_updated < a.last_updated)
    ⊎ ((a.last_updated ≡ b.last_updated) × (text_lt b.task.id a.task.id ≡ true))

-- Every task is newer than all that follow it.
abbrev pub NewestFirst : List Entry → Type 0
NewestFirst [] = Unit
NewestFirst (a ∷ l) = All (λ b. IsNewer a b) l × NewestFirst l

before-IsNewer : (a b : Entry) → before a b ≡ true → IsNewer a b
before-IsNewer a b h = ground arith

IsOrdered-NewestFirst : (l : List Entry) → IsOrdered l → NewestFirst l
IsOrdered-NewestFirst [] o = tt
IsOrdered-NewestFirst (a ∷ l) o = (
  All-map (λ b. before a b ≡ true) (λ b. IsNewer a b) l (before-IsNewer a) o.0,
  IsOrdered-NewestFirst l o.1,
)

listing-IsOrdered :
    (s : Tasks) (user : String) (req : ListTasksRequest)
    → IsWellFormed s
    → IsOrdered (sort_tasks (filter_tasks s user req))
listing-IsOrdered s user req w =
    sort_tasks-IsOrdered (filter_tasks s user req)
      (filter_tasks-DistinctIds s user req (keyed_entries s w.distinct w.keyed) w.distinct)

-- What `List` sorts out of a well formed store has the newest task first, and among the tasks of one
-- instant the greater ID: each was updated later than all that follow it or has the greater ID.
pub listing-NewestFirst :
    (s : Tasks) (user : String) (req : ListTasksRequest)
    → IsWellFormed s
    → NewestFirst (sort_tasks (filter_tasks s user req))
listing-NewestFirst s user req w =
    IsOrdered-NewestFirst (sort_tasks (filter_tasks s user req)) (listing-IsOrdered s user req w)
