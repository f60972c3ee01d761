-- ===== src/TaskStore/Pages.antt =====
-- What a client sees that follows the page tokens of the in-memory store's listing.

use native.Mathlib.Decide.{dec_lt}
use mathlib.Core.List.{append_assoc}
use a2a_go.Base.{
  ℕ, zero, suc, ◌-◌, ◌<◌, String, true, false, some, List, [], ◌∷◌, ◌++◌, All, length,
  length-append, length-drop, get_elem?, take, drop, take-append-drop, ◌≡◌, ◌≢◌, refl, ap, sym, ◌∙◌,
  arith, if◌then◌else◌, str_eq, eq_iff, eq_refl, Result, ok, err, other, parse_error, ◌>>=◌,
}
use a2a_go.TaskStore.InMemory.{Entry}
use a2a_go.TaskStore.Token.{
  Codec, IsCodec, has_underscore, encode_page_token, decode-encode_page_token,
  encode_page_token-ne-nil,
}
use a2a_go.TaskStore.Listing.{from_token, cut_page, apply_pagination}
use a2a_go.TaskStore.Behind.{IsOrdered, behind_split, drop_behind, All_middle}

-- the list that a token made from one of its entries stands for
from_token_behind :
    (c : Codec) (xs ys : List Entry) (x : Entry)
    → IsCodec c
    → has_underscore x.task.id ≡ false
    → IsOrdered (xs ++ x ∷ ys)
    → from_token c (encode_page_token c x.last_updated x.task.id) (xs ++ x ∷ ys) ≡ ok ys
unfolding from_token
from_token_behind c xs ys x h plain ordered = ground (
  arith,
  eq_iff (encode_page_token c x.last_updated x.task.id) "",
  encode_page_token-ne-nil c x.last_updated x.task.id h,
  decode-encode_page_token c x.last_updated x.task.id h,
  behind_split x xs ys ordered,
  drop_behind xs ys x,
)

split_at {ℓ} :
    {A : Type ℓ} (k : ℕ) (l : List A)
    → k < length l
    → (e : A) × (get_elem? l k ≡ some e) × (l ≡ take k l ++ e ∷ drop (suc k) l)
split_at k [] h = absurd (omega arith)
split_at zero (x ∷ l) h = (x, refl, refl)
split_at (suc k) (x ∷ l) h =
    let (e, found, cut) = split_at k l (omega arith) in (e, found, ap (◌∷◌ x) cut)

-- A client that asks for a page, and then for the next one until there is none.
unfoldable pub pages : Codec → ℕ → ℕ → String → List Entry → Result (List Entry)
pages c size zero token l = err (other "out of fuel")
pages c size (suc fuel) token l = do
  (page, next) ← apply_pagination c size token l
  let rest = pages c size fuel next l
  if str_eq next "" then ok page else (do more ← rest; ok (page ++ more))

cut_last :
    (c : Codec) (size : ℕ) (ys : List Entry)
    → ¬ (size < length ys)
    → cut_page c size ys ≡ ok (ys, "")
unfolding cut_page
cut_last c size ys h = ground arith

get_middle {ℓ} :
    {A : Type ℓ} (xs ys : List A) (e : A) → get_elem? (xs ++ e ∷ ys) (length xs) ≡ some e
get_middle [] ys e = refl
get_middle (x ∷ xs) ys e = get_middle xs ys e

take_middle {ℓ} :
    {A : Type ℓ} (xs ys : List A) (e : A) → take (suc (length xs)) (xs ++ e ∷ ys) ≡ xs ++ e ∷ []
take_middle [] ys e = refl
take_middle (x ∷ xs) ys e = ap (◌∷◌ x) (take_middle xs ys e)

-- No ID in the list has an underscore.
abbrev PlainIds : List Entry → Type 0
PlainIds = All (λ e. has_underscore e.task.id ≡ false)

module _ (c : Codec) (size : ℕ) (codec : IsCodec c) (pos_size : 0 < size) where
  -- a page that is not the last one, and the entries that its token stands for
  page_step :
      (l xs ys : List Entry)
      → l ≡ xs ++ ys
      → IsOrdered l
      → PlainIds l
      → size < length ys
      → (next : String) × (cut_page c size ys ≡ ok (take size ys, next))
        × (next ≢ "")
        × (from_token c next l ≡ ok (drop size ys))
        × (l ≡ (xs ++ take size ys) ++ drop size ys)
  unfolding cut_page
  page_step l xs ys whole ordered plain more =
      let k = size - 1 in
      let sk : size ≡ suc k = omega arith in
      let (e, found, cut) = split_at k ys (omega arith) in
      let at : l ≡ (xs ++ take k ys) ++ e ∷ drop (suc k) ys =
        whole ∙ ap (λ (z : List Entry). xs ++ z) cut ∙ sym (append_assoc xs (take k ys) _) in
      let plain_e : has_underscore e.task.id ≡ false =
        All_middle (λ e. has_underscore e.task.id ≡ false) (xs ++ take k ys) _ e (rw at at plain) in
      let rest =
        from_token_behind c (xs ++ take k ys) (drop (suc k) ys) e codec plain_e
          (rw at at ordered) in
      (
        encode_page_token c e.last_updated e.task.id,
        ground (arith, found),
        encode_page_token-ne-nil c e.last_updated e.task.id codec,
        ap (from_token c (encode_page_token c e.last_updated e.task.id)) at
            ∙ rest
            ∙ ap (λ (n : ℕ). ok (drop n ys)) (sym sk),
        whole
            ∙ ap (λ (z : List Entry). xs ++ z) (sym (take-append-drop size ys))
            ∙ sym (append_assoc xs (take size ys) (drop size ys)),
      )

  pages_from :
      (fuel : ℕ) (token : String) (l xs ys : List Entry)
      → l ≡ xs ++ ys
      → from_token c token l ≡ ok ys
      → IsOrdered l
      → PlainIds l
      → length ys < fuel
      → pages c size fuel token l ≡ ok ys
  unfolding pages apply_pagination
  pages_from zero token l xs ys whole from ordered plain room = absurd (omega arith)
  pages_from (suc fuel) token l xs ys whole from ordered plain room =
      elim (dec_lt size (length ys)) [
        | yes more ↦
            let (next, cut, some_next, from_next, whole_next) =
              page_step l xs ys whole ordered plain more in
            let rest =
              pages_from fuel next l (xs ++ take size ys) (drop size ys) whole_next from_next
                ordered plain (omega (arith, length-drop {0} size ys)) in
            ground (arith, eq_iff next "", take-append-drop size ys)
        | no last ↦ ground (arith, cut_last c size ys last, eq_refl "")
      ]

-- Following the page tokens from the first page gives every entry of an ordered list once and in
-- order, whatever the size of a page, if no ID has an underscore; one request for each entry and
-- one more are enough.
pub pages_complete :
    (c : Codec) (size : ℕ) (l : List Entry)
    → IsCodec c
    → 0 < size
    → IsOrdered l
    → PlainIds l
    → pages c size (suc (length l)) "" l ≡ ok l
unfolding from_token
pages_complete c size l codec positive ordered plain =
    pages_from c size codec positive (suc (length l)) "" l [] l refl refl ordered plain
      (omega arith)

-- A page that ends at an ID with an underscore hands out a token that the store then refuses.
pub underscore_breaks_paging :
    (c : Codec) (size : ℕ) (l xs ys : List Entry) (e : Entry)
    → IsCodec c
    → l ≡ xs ++ e ∷ ys
    → size ≡ suc (length xs)
    → ys ≢ []
    → has_underscore e.task.id ≡ true
    → (next : String) × (apply_pagination c size "" l ≡ ok (xs ++ e ∷ [], next))
      × (apply_pagination c size next l ≡ err parse_error)
unfolding apply_pagination from_token cut_page
underscore_breaks_paging c size l xs ys e codec whole sized more under = (
  encode_page_token c e.last_updated e.task.id,
  ap (cut_page c size) whole
      ∙ ground (arith, length-append xs (e ∷ ys), get_middle xs ys e, take_middle xs ys e),
  ground (
    arith,
    eq_iff (encode_page_token c e.last_updated e.task.id) "",
    encode_page_token-ne-nil c e.last_updated e.task.id codec,
    decode-encode_page_token c e.last_updated e.task.id codec,
  ),
)
