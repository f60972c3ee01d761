-- ===== src/TaskStore/Search.antt =====
-- `sort.Search` of Go's standard library, which a2asrv/taskstore/inmemory.go calls: a binary
-- search for the first index at which a test holds.
use native.Mathlib.Decide.{dec_le}
use a2a_go.Base.{
  ltb→lt, ℕ, zero, suc, ◌+◌, ◌/◌, ◌≤◌, ◌<◌, Bool, true, false, ◌≡◌, arith, inl, inr, if◌then◌else◌,
  ltb, Bool-cases,
}

-- `for i < j { h := (i+j)/2; if !f(h) { i = h + 1 } else { j = h } }`, on fuel
search_from : (ℕ → Bool) → ℕ → ℕ → ℕ → ℕ
search_from f zero i j = i
search_from f (suc fuel) i j =
    let h = (i + j) / 2 in
    let rest = search_from f fuel (if f h then i else h + 1) (if f h then h else j) in
    if ltb i j then rest else i

unfoldable pub search : ℕ → (ℕ → Bool) → ℕ
unfolding search_from
search n f = search_from f n 0 n

search_from_lem :
    (f : ℕ → Bool) (k fuel i j : ℕ)
    → ((m : ℕ) → m < k → f m ≡ false)
    → ((m : ℕ) → k ≤ m → m < j → f m ≡ true)
    → i ≤ k
    → k ≤ j
    → j ≤ i + fuel
    → search_from f fuel i j ≡ k
unfolding search_from
search_from_lem f k zero i j low high ik kj room = omega arith
search_from_lem f k (suc fuel) i j low high ik kj room = elim (Bool-cases (ltb i j)) [
  | inr done ↦ rw done (ground arith)
  | inl more ↦ rw more (
      let h = (i + j) / 2 in
      let ij = ltb→lt i j more in
      elim (dec_le k h) [
        | yes p ↦
            rw (high h p (omega arith)) (
              search_from_lem f k fuel i h low (λ m a b. high m a (omega arith)) ik p (omega arith))
        | no p ↦
            rw (low h (omega arith))
              (search_from_lem f k fuel (h + 1) j low high (omega arith) kj (omega arith))
      ])
]

-- The search finds the place where the test begins to hold.
pub search_lem :
    (f : ℕ → Bool) (k n : ℕ)
    → ((m : ℕ) → m < k → f m ≡ false)
    → ((m : ℕ) → k ≤ m → m < n → f m ≡ true)
    → k ≤ n
    → search n f ≡ k
unfolding search
search_lem f k n low high h = search_from_lem f k n 0 n low high (omega arith) h (omega arith)
