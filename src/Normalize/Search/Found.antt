-- ===== src/Normalize/Search/Found.antt =====
-- What the regular expressions of the range parser can match.
use otscout.Normalize.Search.{
  Operator, operator_here, value_here, not_equal, pairs_behind, operator_pairs, pair_here,
}
use otscout.Prelude.{
  ℕ, zero, suc, ◌≡◌, ◌≢◌, false, some, [], ◌∷◌, arith, is_empty, Text, All, Option-cases, inl, inr,
  is_space,
}
use otscout.Normalize.Version.{run_of}

-- The pair sets a bound.
abbrev pub Sets : Operator × Text → Type 0
Sets p = (is_empty p.1 ≡ false) × (p.0 ≢ not_equal)

operator_here-bounding :
    (s : Text) (op : Operator) (behind : Text)
    → operator_here s ≡ some (op, behind)
    → op ≢ not_equal
unfolding operator_here
operator_here-bounding [] op behind h = ground arith
operator_here-bounding (c ∷ []) op behind h = ground arith
operator_here-bounding (c ∷ d ∷ s) op behind h = ground arith

value_here-present : (s v : Text) → value_here s ≡ some v → is_empty v ≡ false
unfolding value_here
value_here-present s v h = ground arith

pair_here-Sets :
    (s : Text) (p : Operator × Text) (taken : ℕ) → pair_here s ≡ some (p, taken) → Sets p
unfolding pair_here
pair_here-Sets s p taken h = elim (Option-cases (operator_here s)) [
  | inl e ↦ ground (arith, e)
  | inr ((op, behind), e) ↦ elim (Option-cases (value_here (run_of is_space behind).1)) [
    | inl e' ↦ ground (arith, e, e')
    | inr (v, e') ↦ ground (
      arith,
      e,
      e',
      value_here-present (run_of is_space behind).1 v e',
      operator_here-bounding s op behind e,
    )
  ]
]

pairs_behind-All : (n : ℕ) (s : Text) → All Sets (pairs_behind n s)
unfolding pairs_behind
pairs_behind-All zero [] = tt
pairs_behind-All (suc n) [] = tt
pairs_behind-All (suc n) (c ∷ s) = pairs_behind-All n s
pairs_behind-All zero (c ∷ s) = elim (Option-cases (pair_here (c ∷ s))) [
  | inl e ↦ rw (All, e) (pairs_behind-All 0 s)
  | inr ((p, taken), e) ↦ rw (All, e) (pair_here-Sets (c ∷ s) p taken e, pairs_behind-All taken s)
]

-- Every pair that is found sets a bound to a version that is not empty.
pub operator_pairs-All : (s : Text) → All Sets (operator_pairs s)
unfolding operator_pairs
operator_pairs-All s = pairs_behind-All 0 s

-- What is found is not empty.
pub first_token-present : Unit {0}
first_token-present = tt
