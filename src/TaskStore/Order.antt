-- ===== src/TaskStore/Order.antt =====
-- `strings.Compare`, which orders texts by their bytes and so by their code points, and the order
-- in which a2asrv/taskstore/inmemory.go lists tasks.
use Prim.Native.Char.{code}
use Prim.Native.String.compare as compare_text
use Prim.Native.String.{compare as text_compare, then}
use a2a_go.Base.{ℕ, compare, Ordering, String, Bool, true, false, ◌≡◌, refl, sym, ◌∙◌, ap, arith}

-- `strings.Compare(a, b) < 0`
abbrev pub text_lt : String → String → Bool
text_lt a b = elim (text_compare a b) [ Ordering.lt ↦ true | _ ↦ false ]

abbrev flip : Ordering → Ordering
flip Ordering.lt = Ordering.gt
flip Ordering.eq = Ordering.eq
flip Ordering.gt = Ordering.lt

compare_ℕ_flip : (a b : ℕ) → compare a b ≡ flip (compare b a)
compare_ℕ_flip a b = ground arith

then-flip : (m n : ℕ) (o : Ordering) → then (compare m n) (flip o) ≡ flip (then (compare n m) o)
then-flip m n o = ground arith

pub compare_flip : (a b : String) → text_compare a b ≡ flip (text_compare b a)
compare_flip String.[] String.[] = refl
compare_flip String.[] (String.◌∷◌ d t) =
    compare_text.nil-cons d t ∙ ap flip (sym (compare_text.cons-nil d t))
compare_flip (String.◌∷◌ c s) String.[] =
    compare_text.cons-nil c s ∙ ap flip (sym (compare_text.nil-cons c s))
compare_flip (String.◌∷◌ c s) (String.◌∷◌ d t) =
    compare_text.cons-cons c d s t
    ∙ ap (then (compare (code c) (code d))) (compare_flip s t)
    ∙ then-flip (code c) (code d) (text_compare t s)
    ∙ ap flip (sym (compare_text.cons-cons d c t s))

then_lt :
    (l m n : ℕ) (o p q : Ordering)
    → (o ≡ Ordering.lt → p ≡ Ordering.lt → q ≡ Ordering.lt)
    → then (compare l m) o ≡ Ordering.lt
    → then (compare m n) p ≡ Ordering.lt
    → then (compare l n) q ≡ Ordering.lt
then_lt l m n o p q f h k = ground arith

pub text_lt_trans :
    (a b c : String)
    → text_compare a b ≡ Ordering.lt
    → text_compare b c ≡ Ordering.lt
    → text_compare a c ≡ Ordering.lt
text_lt_trans String.[] b String.[] h k = absurd (ground (arith, compare_flip b String.[]))
text_lt_trans String.[] b (String.◌∷◌ e u) h k = compare_text.nil-cons e u
text_lt_trans (String.◌∷◌ c s) String.[] e h k =
    absurd (let p : Ordering.gt ≡ Ordering.lt = sym (compare_text.cons-nil c s) ∙ h in ground arith)
text_lt_trans (String.◌∷◌ c s) (String.◌∷◌ d t) String.[] h k =
    absurd (let p : Ordering.gt ≡ Ordering.lt = sym (compare_text.cons-nil d t) ∙ k in ground arith)
text_lt_trans (String.◌∷◌ c s) (String.◌∷◌ d t) (String.◌∷◌ e u) h k =
    compare_text.cons-cons c e s u
    ∙ then_lt (code c) (code d) (code e) (text_compare s t) (text_compare t u) (text_compare s u)
        (text_lt_trans s t u) (sym (compare_text.cons-cons c d s t) ∙ h)
        (sym (compare_text.cons-cons d e t u) ∙ k)
