-- ===== src/Normalize/Schemes/Siemens.antt =====
-- The order that the Siemens comparator gives.
use Prim.Native.Nat.{Ordering}
use otscout.Prelude.{
  ℕ, ◌≡◌, refl, Bool, true, false, none, some, List, [], ◌∷◌, arith, length, Text, Option-cases,
  inl, inr,
}
use otscout.Normalize.Version.{
  Token, number, alpha, sign_of, compare_at, compare_loop, compare_tokens, compare_present,
  tokenize_version, generic_compare,
}
use otscout.Normalize.Version.Order.{generic_compare_trans}
use otscout.Normalize.Schemes.{
  then_by, SiemensVersion, order_parts, order_siemens, take_numbers, siemens_of,
  parse_siemens_version, siemens_compare,
}

-- What stands behind the parts, where the parts are equal in number.
abbrev counters : SiemensVersion → SiemensVersion → Ordering
counters a b = then_by (sign_of a.sp b.sp) (sign_of a.update b.update)

counters_trans :
    (a b c : SiemensVersion)
    → counters a b ≡ Ordering.lt
    → counters b c ≡ Ordering.lt
    → counters a c ≡ Ordering.lt
counters_trans a b c h k = ground arith

order_parts_trans :
    (a b c : List ℕ) (o p q : Ordering)
    → (o ≡ Ordering.lt → p ≡ Ordering.lt → q ≡ Ordering.lt)
    → order_parts a b (then_by (sign_of (length a) (length b)) o) ≡ Ordering.lt
    → order_parts b c (then_by (sign_of (length b) (length c)) p) ≡ Ordering.lt
    → order_parts a c (then_by (sign_of (length a) (length c)) q) ≡ Ordering.lt
unfolding order_parts
order_parts_trans [] [] [] o p q f h k = ground (arith, f)
order_parts_trans [] [] (z ∷ c) o p q f h k = ground arith
order_parts_trans [] (y ∷ b) [] o p q f h k = ground arith
order_parts_trans [] (y ∷ b) (z ∷ c) o p q f h k = ground arith
order_parts_trans (x ∷ a) [] c o p q f h k = ground arith
order_parts_trans (x ∷ a) (y ∷ b) [] o p q f h k = ground arith
order_parts_trans (x ∷ a) (y ∷ b) (z ∷ c) o p q f h k =
    ground (arith, order_parts_trans a b c o p q f)

order_siemens_trans :
    (a b c : SiemensVersion)
    → order_siemens a b ≡ Ordering.lt
    → order_siemens b c ≡ Ordering.lt
    → order_siemens a c ≡ Ordering.lt
unfolding order_siemens
order_siemens_trans a b c h k =
    order_parts_trans a.parts b.parts c.parts (counters a b) (counters b c) (counters a c)
      (counters_trans a b c) h k

abbrev starts_with_number : List Token → Bool
starts_with_number (number n ∷ ts) = true
starts_with_number _ = false

siemens_of-starts : (ts : List Token) → siemens_of ts ≡ none → starts_with_number ts ≡ false
unfolding siemens_of take_numbers
siemens_of-starts [] h = refl
siemens_of-starts (number n ∷ ts) h = ground arith
siemens_of-starts (alpha s ∷ ts) h = refl

some-starts :
    (ts : List Token) (v : SiemensVersion) → siemens_of ts ≡ some v → starts_with_number ts ≡ true
unfolding siemens_of take_numbers
some-starts [] v h = ground arith
some-starts (number n ∷ ts) v h = refl
some-starts (alpha s ∷ ts) v h = ground arith

compare_present-mixed :
    (a b : List Token)
    → starts_with_number a ≡ true
    → starts_with_number b ≡ false
    → (compare_present a b ≡ none) × (compare_present b a ≡ none)
unfolding compare_present compare_tokens compare_loop compare_at
compare_present-mixed (number n ∷ a) [] h k = (refl, refl)
compare_present-mixed (number n ∷ a) (alpha s ∷ b) h k = (refl, refl)
compare_present-mixed (number n ∷ a) (number m ∷ b) h k = ground arith
compare_present-mixed [] b h k = ground arith
compare_present-mixed (alpha s ∷ a) b h k = ground arith

-- A version of the scheme and one outside it cannot be ordered.
generic_compare-mixed :
    (a b : Text) (v : SiemensVersion)
    → parse_siemens_version a ≡ some v
    → parse_siemens_version b ≡ none
    → (generic_compare a b ≡ none) × (generic_compare b a ≡ none)
unfolding parse_siemens_version generic_compare
generic_compare-mixed a b v h k =
    let ta = tokenize_version a in
    let tb = tokenize_version b in
    compare_present-mixed ta tb (some-starts ta v h) (siemens_of-starts tb k)

-- Where the Siemens comparator puts one version before a second and that before a third, it puts
-- the first before the third, whether or not they follow the scheme.
pub siemens_compare_trans :
    (a b c : Text)
    → siemens_compare a b ≡ some Ordering.lt
    → siemens_compare b c ≡ some Ordering.lt
    → siemens_compare a c ≡ some Ordering.lt
unfolding siemens_compare
siemens_compare_trans a b c h k = elim (Option-cases (parse_siemens_version a)) [
  | inl no_a ↦ elim (Option-cases (parse_siemens_version b)) [
    | inl no_b ↦ elim (Option-cases (parse_siemens_version c)) [
      | inl no_c ↦ ground (arith, no_a, no_b, no_c, generic_compare_trans a b c)
      | inr (vc, is_c) ↦ ground (arith, no_a, no_b, is_c, generic_compare-mixed c b vc is_c no_b)
    ]
    | inr (vb, is_b) ↦ ground (arith, no_a, is_b, generic_compare-mixed b a vb is_b no_a)
  ]
  | inr (va, is_a) ↦ elim (Option-cases (parse_siemens_version b)) [
    | inl no_b ↦ ground (arith, is_a, no_b, generic_compare-mixed a b va is_a no_b)
    | inr (vb, is_b) ↦ elim (Option-cases (parse_siemens_version c)) [
      | inl no_c ↦ ground (arith, is_b, no_c, generic_compare-mixed b c vb is_b no_c)
      | inr (vc, is_c) ↦ ground (arith, is_a, is_b, is_c, order_siemens_trans va vb vc)
    ]
  ]
]
