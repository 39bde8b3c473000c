-- ===== src/Normalize/Schemes/Swap.antt =====
-- Exchanging the two versions that a comparator is given.
use Prim.Native.Nat.{Ordering}
use otscout.Prelude.{
  ℕ, ◌≡◌, refl, sym, ap, ◌∙◌, List, [], ◌∷◌, arith, length, Text, text_eq_iff, Option-cases, inl,
  inr,
}
use otscout.Normalize.Version.{sign_of}
use otscout.Normalize.Version.Order.{
  flip, flip_ok, sign_of_swap, text_compare_swap, generic_compare_swap,
}
use otscout.Normalize.Schemes.{
  then_by, AbbVersion, order_abb, parse_abb_version, abb_compare, SiemensVersion, order_parts,
  order_siemens, parse_siemens_version, siemens_compare, Scheme, generic, abb, siemens, rockwell,
  compare_versions,
}
use otscout.Normalize.Schemes.Rockwell.{rockwell_compare-generic}

pub then_by_swap :
    (o p o' p' : Ordering) → o' ≡ flip o → p' ≡ flip p → then_by o' p' ≡ flip (then_by o p)
then_by_swap o p o' p' h k = ground arith

order_abb_swap : (a b : AbbVersion) → order_abb b a ≡ flip (order_abb a b)
unfolding order_abb
order_abb_swap a b = ground (
  arith,
  sign_of_swap a.release b.release,
  sign_of_swap a.patch b.patch,
  text_compare_swap a.rev b.rev,
  text_eq_iff a.rev b.rev,
  text_eq_iff b.rev a.rev,
)

order_parts_swap :
    (a b : List ℕ) (o : Ordering) → order_parts b a (flip o) ≡ flip (order_parts a b o)
unfolding order_parts
order_parts_swap [] [] o = refl
order_parts_swap [] (n ∷ b) o = refl
order_parts_swap (m ∷ a) [] o = refl
order_parts_swap (m ∷ a) (n ∷ b) o =
    then_by_swap (sign_of m n) (order_parts a b o) _ _ (sign_of_swap m n) (order_parts_swap a b o)

order_siemens_swap : (a b : SiemensVersion) → order_siemens b a ≡ flip (order_siemens a b)
unfolding order_siemens
order_siemens_swap a b =
    let counters =
      then_by_swap (sign_of a.sp b.sp) (sign_of a.update b.update) _ _ (sign_of_swap a.sp b.sp)
        (sign_of_swap a.update b.update) in
    let lengths =
      then_by_swap (sign_of (length a.parts) (length b.parts))
        (then_by (sign_of a.sp b.sp) (sign_of a.update b.update)) _ _
        (sign_of_swap (length a.parts) (length b.parts)) counters in
    ap (order_parts b.parts a.parts) lengths ∙ order_parts_swap a.parts b.parts _

abb_compare_swap : (a b : Text) → abb_compare b a ≡ flip_ok (abb_compare a b)
unfolding abb_compare
abb_compare_swap a b = elim (Option-cases (parse_abb_version a)) [
  | inl no_a ↦ ground (arith, no_a, generic_compare_swap a b)
  | inr (va, is_a) ↦ elim (Option-cases (parse_abb_version b)) [
    | inl no_b ↦ ground (arith, no_b, generic_compare_swap a b)
    | inr (vb, is_b) ↦ ground (arith, is_a, is_b, order_abb_swap va vb)
  ]
]

siemens_compare_swap : (a b : Text) → siemens_compare b a ≡ flip_ok (siemens_compare a b)
unfolding siemens_compare
siemens_compare_swap a b = elim (Option-cases (parse_siemens_version a)) [
  | inl no_a ↦ ground (arith, no_a, generic_compare_swap a b)
  | inr (va, is_a) ↦ elim (Option-cases (parse_siemens_version b)) [
    | inl no_b ↦ ground (arith, no_b, generic_compare_swap a b)
    | inr (vb, is_b) ↦ ground (arith, is_a, is_b, order_siemens_swap va vb)
  ]
]

-- Whatever the scheme, exchanging two versions exchanges the result, and two versions that cannot
-- be ordered cannot be ordered either way.
pub compare_versions_swap :
    (s : Scheme) (a b : Text) → compare_versions s b a ≡ flip_ok (compare_versions s a b)
unfolding compare_versions
compare_versions_swap generic a b = generic_compare_swap a b
compare_versions_swap abb a b = abb_compare_swap a b
compare_versions_swap siemens a b = siemens_compare_swap a b
compare_versions_swap rockwell a b =
    rockwell_compare-generic b a
    ∙ generic_compare_swap a b
    ∙ sym (ap flip_ok (rockwell_compare-generic a b))
