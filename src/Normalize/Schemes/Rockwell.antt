-- ===== src/Normalize/Schemes/Rockwell.antt =====
-- The Rockwell comparator.
use otscout.Prelude.{◌≡◌, refl, none, List, [], ◌∷◌, arith, Text, if◌then◌else◌, ◌||◌, is_empty}
use otscout.Normalize.Version.{
  Token, compare_tokens, compare_present, tokenize_version, generic_compare,
}
use otscout.Normalize.Schemes.{rockwell_compare}

compare_present-guard :
    (a b : List Token)
    → compare_present a b ≡ (if is_empty a || is_empty b then none else compare_tokens a b)
unfolding compare_present
compare_present-guard [] b = refl
compare_present-guard (x ∷ a) [] = refl
compare_present-guard (x ∷ a) (y ∷ b) = refl

-- The Rockwell comparator gives what the generic one gives, on all versions.
pub rockwell_compare-generic : (a b : Text) → rockwell_compare a b ≡ generic_compare a b
unfolding rockwell_compare generic_compare
rockwell_compare-generic a b =
    ground (arith, compare_present-guard (tokenize_version a) (tokenize_version b))
