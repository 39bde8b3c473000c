-- ===== src/Normalize/Version/Order.antt =====
-- The laws of the order on versions.
use Prim.Native.Nat.{Ordering}
use Prim.Native.Nat.compare
use otscout.Prelude.{
  ℕ, ◌≡◌, refl, sym, ◌∙◌, ap, Option, none, some, List, [], ◌∷◌, arith, ◌↔◌, length, Text,
  text_eq_iff,
}
use otscout.Normalize.Version.{
  Token, number, alpha, text_compare, sign_of, compare_at, compare_loop, compare_tokens,
  compare_present, generic_compare, tokenize_version,
}

-- A result with its sides exchanged.
abbrev pub flip : Ordering → Ordering
flip Ordering.lt = Ordering.gt
flip Ordering.eq = Ordering.eq
flip Ordering.gt = Ordering.lt

abbrev pub flip_ok : Option Ordering → Option Ordering
flip_ok none = none
flip_ok (some o) = some (flip o)

pub sign_of_swap : (m n : ℕ) → sign_of n m ≡ flip (sign_of m n)
sign_of_swap m n = ground arith

pub text_compare_swap : (s t : Text) → text_compare t s ≡ flip (text_compare s t)
unfolding text_compare
text_compare_swap [] [] = refl
text_compare_swap [] (y ∷ t) = refl
text_compare_swap (x ∷ s) [] = refl
text_compare_swap (x ∷ s) (y ∷ t) = ground (arith, text_compare_swap s t)

pub text_compare_trans :
    (s t u : Text)
    → text_compare s t ≡ Ordering.lt
    → text_compare t u ≡ Ordering.lt
    → text_compare s u ≡ Ordering.lt
unfolding text_compare
text_compare_trans (x ∷ s) (y ∷ t) (z ∷ u) h k = ground (arith, text_compare_trans s t u)
text_compare_trans [] (y ∷ t) (z ∷ u) h k = refl
text_compare_trans _ _ _ h k = ground arith

pub text_compare-eq : (s t : Text) → (text_compare s t ≡ Ordering.eq) ↔ (s ≡ t)
unfolding text_compare
text_compare-eq (x ∷ s) (y ∷ t) = ground (arith, text_compare-eq s t)
text_compare-eq _ _ = ground arith

compare_at_swap :
    (x y : Token) (later : Option Ordering)
    → compare_at y x (flip_ok later) ≡ flip_ok (compare_at x y later)
unfolding compare_at
compare_at_swap (number m) (number n) later = ground (arith, sign_of_swap m n)
compare_at_swap (alpha s) (alpha t) later =
    ground (arith, text_compare_swap s t, text_eq_iff s t, text_eq_iff t s)
compare_at_swap (number m) (alpha t) later = refl
compare_at_swap (alpha s) (number n) later = refl

compare_loop_swap :
    (a b : List Token) (o : Ordering) → compare_loop b a (flip o) ≡ flip_ok (compare_loop a b o)
unfolding compare_loop
compare_loop_swap [] [] o = refl
compare_loop_swap [] (y ∷ b) o = refl
compare_loop_swap (x ∷ a) [] o = refl
compare_loop_swap (x ∷ a) (y ∷ b) o =
    ap (compare_at y x) (compare_loop_swap a b o) ∙ compare_at_swap x y (compare_loop a b o)

pub compare_tokens_swap : (a b : List Token) → compare_tokens b a ≡ flip_ok (compare_tokens a b)
unfolding compare_tokens
compare_tokens_swap a b =
    ap (compare_loop b a) (sign_of_swap (length a) (length b))
    ∙ compare_loop_swap a b (sign_of (length a) (length b))

compare_at_trans :
    (x y z : Token) (p q r : Option Ordering)
    → (p ≡ some Ordering.lt → q ≡ some Ordering.lt → r ≡ some Ordering.lt)
    → compare_at x y p ≡ some Ordering.lt
    → compare_at y z q ≡ some Ordering.lt
    → compare_at x z r ≡ some Ordering.lt
unfolding compare_at
compare_at_trans (number l) (number m) (number n) p q r f h k = ground (arith, f)
compare_at_trans (alpha s) (alpha t) (alpha u) p q r f h k = ground (
  arith,
  f,
  text_compare_trans s t u,
  text_compare-eq s u,
  text_eq_iff s t,
  text_eq_iff t u,
  text_eq_iff s u,
)
compare_at_trans (number l) (alpha t) z p q r f h k = ground arith
compare_at_trans (alpha s) (number m) z p q r f h k = ground arith
compare_at_trans x (number l) (alpha t) p q r f h k = ground arith
compare_at_trans x (alpha s) (number m) p q r f h k = ground arith

compare_loop-cons :
    (x y : Token) (a b : List Token)
    → compare_loop (x ∷ a) (y ∷ b) (sign_of (length (x ∷ a)) (length (y ∷ b)))
      ≡ compare_at x y (compare_loop a b (sign_of (length a) (length b)))
unfolding compare_loop
compare_loop-cons x y a b = rw compare.suc-suc refl

compare_loop_trans :
    (a b c : List Token)
    → compare_loop a b (sign_of (length a) (length b)) ≡ some Ordering.lt
    → compare_loop b c (sign_of (length b) (length c)) ≡ some Ordering.lt
    → compare_loop a c (sign_of (length a) (length c)) ≡ some Ordering.lt
unfolding compare_loop
compare_loop_trans [] [] c h k = k
compare_loop_trans [] (y ∷ b) [] h k = ground arith
compare_loop_trans [] (y ∷ b) (z ∷ c) h k = ground arith
compare_loop_trans (x ∷ a) [] c h k = ground arith
compare_loop_trans (x ∷ a) (y ∷ b) [] h k = ground arith
compare_loop_trans (x ∷ a) (y ∷ b) (z ∷ c) h k =
    compare_loop-cons x z a c
    ∙ compare_at_trans x y z _ _ _ (compare_loop_trans a b c) (sym (compare_loop-cons x y a b) ∙ h)
        (sym (compare_loop-cons y z b c) ∙ k)

compare_at-eq :
    (x y : Token) (later : Option Ordering)
    → compare_at x y later ≡ some Ordering.eq
    → (x ≡ y) × (later ≡ some Ordering.eq)
unfolding compare_at
compare_at-eq (number m) (number n) later h = ground arith
compare_at-eq (alpha s) (alpha t) later h = ground (arith, text_compare-eq s t, text_eq_iff s t)
compare_at-eq (number m) (alpha t) later h = ground arith
compare_at-eq (alpha s) (number n) later h = ground arith

compare_loop-eq :
    (a b : List Token) → compare_loop a b (sign_of (length a) (length b)) ≡ some Ordering.eq → a ≡ b
unfolding compare_loop
compare_loop-eq [] [] h = refl
compare_loop-eq [] (y ∷ b) h = ground arith
compare_loop-eq (x ∷ a) [] h = ground arith
compare_loop-eq (x ∷ a) (y ∷ b) h =
    let (same, rest) =
      compare_at-eq x y (compare_loop a b (sign_of (length a) (length b)))
        (sym (compare_loop-cons x y a b) ∙ h) in
    ground (arith, same, compare_loop-eq a b rest)

compare_present_swap : (a b : List Token) → compare_present b a ≡ flip_ok (compare_present a b)
unfolding compare_present
compare_present_swap [] [] = refl
compare_present_swap [] (y ∷ b) = refl
compare_present_swap (x ∷ a) [] = refl
compare_present_swap (x ∷ a) (y ∷ b) = compare_tokens_swap (x ∷ a) (y ∷ b)

pub compare_present_trans :
    (a b c : List Token)
    → compare_present a b ≡ some Ordering.lt
    → compare_present b c ≡ some Ordering.lt
    → compare_present a c ≡ some Ordering.lt
unfolding compare_present compare_tokens
compare_present_trans (x ∷ a) (y ∷ b) (z ∷ c) h k = compare_loop_trans (x ∷ a) (y ∷ b) (z ∷ c) h k
compare_present_trans [] b c h k = ground arith
compare_present_trans (x ∷ a) [] c h k = ground arith
compare_present_trans (x ∷ a) (y ∷ b) [] h k = ground arith

pub compare_present-eq : (a b : List Token) → compare_present a b ≡ some Ordering.eq → a ≡ b
unfolding compare_present compare_tokens
compare_present-eq (x ∷ a) (y ∷ b) h = compare_loop-eq (x ∷ a) (y ∷ b) h
compare_present-eq [] b h = ground arith
compare_present-eq (x ∷ a) [] h = ground arith

-- Exchanging two versions exchanges the result of the generic comparator, and two versions that
-- cannot be ordered cannot be ordered either way.
pub generic_compare_swap : (a b : Text) → generic_compare b a ≡ flip_ok (generic_compare a b)
unfolding generic_compare
generic_compare_swap a b = compare_present_swap (tokenize_version a) (tokenize_version b)

-- Where the generic comparator puts one version before a second and that before a third, it puts
-- the first before the third, and the two can be ordered.
pub generic_compare_trans :
    (a b c : Text)
    → generic_compare a b ≡ some Ordering.lt
    → generic_compare b c ≡ some Ordering.lt
    → generic_compare a c ≡ some Ordering.lt
unfolding generic_compare
generic_compare_trans a b c h k =
    compare_present_trans (tokenize_version a) (tokenize_version b) (tokenize_version c) h k

-- Versions that the generic comparator finds equal have the same tokens.
pub generic_compare-eq :
    (a b : Text) → generic_compare a b ≡ some Ordering.eq → tokenize_version a ≡ tokenize_version b
unfolding generic_compare
generic_compare-eq a b h = compare_present-eq (tokenize_version a) (tokenize_version b) h
