-- ===== src/Tests/Versions.antt =====
-- Versions as the vendors write them, and the theorems on their order.
use Prim.Native.Nat.{Ordering}
use otscout.Prelude.{
  is_blank, drop_blank, ◌≡◌, ◌≢◌, refl, none, some, [], ◌∷◌, codes, arith, to_lower, space_width,
  has_prefix, text_eq, lower,
}
use otscout.Normalize.Version.{
  number, alpha, trim_left, trim_right, trim_space, drop_v, prepare, run_of, value_onto, atoi, scan,
  wanting, tokenize_version, text_compare, compare_at, compare_loop, compare_tokens,
  compare_present, generic_compare,
}
use otscout.Normalize.Schemes.Abb.{abb_compare_trans}
use otscout.Normalize.Version.Fuel.{scan-fuel}
use otscout.Normalize.Version.Order.{flip_ok, generic_compare_swap, generic_compare_trans}
use otscout.Normalize.Schemes.{
  take_r, take_rev, take_patch, abb_behind, abb_of, parse_abb_version, order_abb, abb_compare,
  take_numbers, set_counter, read_counters, siemens_of, parse_siemens_version, order_parts,
  order_siemens, siemens_compare, all_numbers, rockwell_compare, compare_versions, abb,
}
use otscout.Normalize.Schemes.Rockwell.{rockwell_compare-generic}
use otscout.Normalize.Schemes.Siemens.{siemens_compare_trans}
use otscout.Normalize.Schemes.Swap.{compare_versions_swap}

-- Opens all that a comparison computes with.
unfoldable evaluation : Unit {0}
unfolding drop_blank is_blank to_lower lower space_width has_prefix text_eq trim_left trim_right
    trim_space drop_v prepare run_of value_onto atoi scan tokenize_version text_compare compare_at
    compare_loop compare_tokens compare_present generic_compare take_r take_rev take_patch
    abb_behind abb_of parse_abb_version order_abb abb_compare take_numbers set_counter read_counters
    siemens_of parse_siemens_version order_parts order_siemens siemens_compare all_numbers
    rockwell_compare compare_versions
evaluation = tt

tokenize_version_runs :
    (tokenize_version (codes " V4.5 SP2")
      ≡ number 4 ∷ number 5 ∷ alpha (codes "sp") ∷ number 2 ∷ [])
    × (tokenize_version (codes "Version 20.011") ≡ number 20 ∷ number 11 ∷ [])
    × (tokenize_version (codes "9223372036854775808") ≡ [])
unfolding evaluation
tokenize_version_runs = (refl, refl, refl)

generic_compare_runs :
    (generic_compare (codes "V4.5") (codes "4.5.1") ≡ some Ordering.lt)
    × (generic_compare (codes "2.10") (codes "2.9") ≡ some Ordering.gt)
    × (generic_compare (codes "2.sp") (codes "2.9") ≡ none)
unfolding evaluation
generic_compare_runs = (refl, refl, refl)

scheme_runs :
    (siemens_compare (codes "V4.5 SP2 Update 3") (codes "V4.5 SP10") ≡ some Ordering.lt)
    × (abb_compare (codes "R15B_PC4") (codes "R15B") ≡ some Ordering.gt)
    × (abb_compare (codes "2.8.0") (codes "2.5.2") ≡ some Ordering.gt)
    × (rockwell_compare (codes "20.011") (codes "20.11") ≡ some Ordering.eq)
unfolding evaluation
scheme_runs = (refl, refl, refl, refl)

-- A version outside the scheme closes a circle with two that follow it.
abb_circle :
    (abb_compare (codes "R15_PC4") (codes "R15B") ≡ some Ordering.lt)
    × (abb_compare (codes "R15B") (codes "R15C1") ≡ some Ordering.lt)
    × (abb_compare (codes "R15C1") (codes "R15_PC4") ≡ some Ordering.lt)
unfolding evaluation
abb_circle = (refl, refl, refl)

scan-fuel_example : (scan 3 (codes "4.5") ≢ wanting) × (scan 3 (codes "4.5") ≡ scan 9 (codes "4.5"))
scan-fuel_example = scan-fuel 3 9 (codes "4.5") (omega arith) (omega arith)

generic_compare_swap_example :
    generic_compare (codes "4.5.1") (codes "V4.5")
    ≡ flip_ok (generic_compare (codes "V4.5") (codes "4.5.1"))
generic_compare_swap_example = generic_compare_swap (codes "V4.5") (codes "4.5.1")

compare_versions_swap_example :
    compare_versions abb (codes "R15B_PC4") (codes "R15B")
    ≡ flip_ok (compare_versions abb (codes "R15B") (codes "R15B_PC4"))
compare_versions_swap_example = compare_versions_swap abb (codes "R15B") (codes "R15B_PC4")

rockwell_compare-generic_example :
    rockwell_compare (codes "20.011") (codes "20.11")
    ≡ generic_compare (codes "20.011") (codes "20.11")
rockwell_compare-generic_example = rockwell_compare-generic (codes "20.011") (codes "20.11")

four_five : generic_compare (codes "4.5") (codes "4.5.1") ≡ some Ordering.lt
unfolding evaluation
four_five = refl

four_ten : generic_compare (codes "4.5.1") (codes "4.10") ≡ some Ordering.lt
unfolding evaluation
four_ten = refl

generic_compare_trans_example : generic_compare (codes "4.5") (codes "4.10") ≡ some Ordering.lt
generic_compare_trans_example =
    generic_compare_trans (codes "4.5") (codes "4.5.1") (codes "4.10") four_five four_ten

minor_eleven : generic_compare (codes "20.011") (codes "20.11") ≡ some Ordering.eq
unfolding evaluation
minor_eleven = refl

sp_two : siemens_compare (codes "V4.5") (codes "V4.5 SP2") ≡ some Ordering.lt
unfolding evaluation
sp_two = refl

update_three : siemens_compare (codes "V4.5 SP2") (codes "V4.5 SP2 Update 3") ≡ some Ordering.lt
unfolding evaluation
update_three = refl

siemens_compare_trans_example :
    siemens_compare (codes "V4.5") (codes "V4.5 SP2 Update 3") ≡ some Ordering.lt
siemens_compare_trans_example =
    siemens_compare_trans (codes "V4.5") (codes "V4.5 SP2") (codes "V4.5 SP2 Update 3") sp_two
      update_three

abb_scheme :
    (parse_abb_version (codes "R15A") ≢ none)
    × (parse_abb_version (codes "R15B") ≢ none)
    × (parse_abb_version (codes "R15B_PC4") ≢ none)
unfolding evaluation
abb_scheme = (λ h. cc, λ h. cc, λ h. cc)

abb_orders :
    (abb_compare (codes "R15A") (codes "R15B") ≡ some Ordering.lt)
    × (abb_compare (codes "R15B") (codes "R15B_PC4") ≡ some Ordering.lt)
unfolding evaluation
abb_orders = (refl, refl)

abb_compare_trans_example : abb_compare (codes "R15A") (codes "R15B_PC4") ≡ some Ordering.lt
abb_compare_trans_example =
    abb_compare_trans (codes "R15A") (codes "R15B") (codes "R15B_PC4") abb_scheme.0 abb_scheme.1
      abb_scheme.2 abb_orders.0 abb_orders.1
