-- ===== src/Normalize/Schemes/Abb.antt =====
-- The order that the ABB comparator gives.
use Prim.Native.Nat.{Ordering}
use otscout.Prelude.{◌≡◌, ◌≢◌, none, some, arith, Text, text_eq_iff, Option-cases, inl, inr}
use otscout.Normalize.Version.Order.{text_compare_trans, text_compare-eq}
use otscout.Normalize.Schemes.{AbbVersion, order_abb, parse_abb_version, abb_compare}

order_abb_trans :
    (a b c : AbbVersion)
    → order_abb a b ≡ Ordering.lt
    → order_abb b c ≡ Ordering.lt
    → order_abb a c ≡ Ordering.lt
unfolding order_abb
order_abb_trans a b c h k = ground (
  arith,
  text_compare_trans a.rev b.rev c.rev,
  text_compare-eq a.rev c.rev,
  text_eq_iff a.rev b.rev,
  text_eq_iff b.rev c.rev,
  text_eq_iff a.rev c.rev,
)

-- Of versions that all follow the scheme, where the ABB comparator puts one before a second and that
-- before a third, it puts the first before the third.
pub abb_compare_trans :
    (a b c : Text)
    → parse_abb_version a ≢ none
    → parse_abb_version b ≢ none
    → parse_abb_version c ≢ none
    → abb_compare a b ≡ some Ordering.lt
    → abb_compare b c ≡ some Ordering.lt
    → abb_compare a c ≡ some Ordering.lt
unfolding abb_compare
abb_compare_trans a b c p q r h k = elim (Option-cases (parse_abb_version a)) [
  | inl no_a ↦ absurd (p no_a)
  | inr (va, is_a) ↦ elim (Option-cases (parse_abb_version b)) [
    | inl no_b ↦ absurd (q no_b)
    | inr (vb, is_b) ↦ elim (Option-cases (parse_abb_version c)) [
      | inl no_c ↦ absurd (r no_c)
      | inr (vc, is_c) ↦ ground (arith, is_a, is_b, is_c, order_abb_trans va vb vc)
    ]
  ]
]
