-- ===== src/Normalize/Evaluate.antt =====
-- The check of a version against a range (internal/normalize/constraint.go). An explanation is the
-- format that the code chooses, with the texts that it puts into it.
pub mod Verdict
use Prim.Native.Nat.{Ordering}
use otscout.Prelude.{
  ℕ, Bool, true, false, ◌&&◌, ◌||◌, not, Option, none, some, List, [], ◌∷◌, is_empty, length,
  is_blank, if◌then◌else◌, Text, text_eq, ◌==◌,
}
use otscout.Normalize.Version.{Token, number, alpha, tokenize_version}
use otscout.Normalize.Schemes.{Scheme, compare_versions}
use otscout.Normalize.Constraint.{
  Constraint, ConstraintKind, all, eq, prefix, lt, lte, gt, gte, between, unknown,
}

pub data EvalResult : Type 0 where
  affected not_affected indeterminate : EvalResult

pub data Explanation : Type 0 where
  names_no_version reports_no_version : Explanation
  not_parsed : Text → Explanation
  in_release_line not_in_release_line : Text → Text → Explanation
  not_ordered : Text → Text → Explanation
  below_range above_range : Text → Text → Explanation
  inside : Text → Constraint → Explanation

pub record Evaluation : Type 0 where
  pub result : EvalResult
  pub comparator : Scheme
  pub explanation : Explanation

-- The loop over the tokens of the prefix.
unfoldable pub tokens_agree : Token → Token → Bool
tokens_agree (number m) (number n) = m == n
tokens_agree (alpha s) (alpha t) = text_eq s t
tokens_agree (number m) (alpha t) = false
tokens_agree (alpha s) (number n) = false

unfoldable pub is_line : List Token → List Token → Bool
is_line vt [] = true
is_line [] (p ∷ pt) = false
is_line (v ∷ vt) (p ∷ pt) = tokens_agree v p && is_line vt pt

unfoldable pub version_has_prefix : Text → Text → Bool
version_has_prefix version line =
    let pt = tokenize_version line in not (is_empty pt) && is_line (tokenize_version version) pt

unfoldable pub answer : Scheme → EvalResult → Explanation → Evaluation
answer scheme verdict why = record { result = verdict; comparator = scheme; explanation = why }

-- The check against the lower bound, where there is one, and `later` behind it.
unfoldable pub check_lower : Scheme → Text → Constraint → Evaluation → Evaluation
unfolding answer
check_lower scheme version c later =
    if is_empty c.lower then later else (elim (compare_versions scheme version c.lower) [
      | none ↦ answer scheme indeterminate (not_ordered version c.lower)
      | some Ordering.lt ↦ answer scheme not_affected (below_range version c.lower)
      | some Ordering.eq ↦
          if c.lower_inclusive
          then later
          else answer scheme not_affected (below_range version c.lower)
      | some Ordering.gt ↦ later
    ])

unfoldable pub check_upper : Scheme → Text → Constraint → Evaluation → Evaluation
unfolding answer
check_upper scheme version c later =
    if is_empty c.upper then later else (elim (compare_versions scheme version c.upper) [
      | none ↦ answer scheme indeterminate (not_ordered version c.upper)
      | some Ordering.lt ↦ later
      | some Ordering.eq ↦
          if c.upper_inclusive
          then later
          else answer scheme not_affected (above_range version c.upper)
      | some Ordering.gt ↦ answer scheme not_affected (above_range version c.upper)
    ])

unfoldable pub check_prefix : Scheme → Text → Constraint → Evaluation
unfolding answer
check_prefix scheme version c =
    if version_has_prefix version c.prefix_line
    then answer scheme affected (in_release_line version c.prefix_line)
    else answer scheme not_affected (not_in_release_line version c.prefix_line)

-- Behind the kinds that are not an interval.
unfoldable pub check_bounds : Scheme → Text → Constraint → Evaluation
unfolding check_lower check_upper answer
check_bounds scheme version c =
    check_lower scheme version c
      (check_upper scheme version c (answer scheme affected (inside version c)))

-- The device reported a version.
unfoldable pub evaluate_reported : Scheme → Text → Constraint → Evaluation
unfolding check_prefix check_bounds answer
evaluate_reported scheme version c = elim c.kind [
  | unknown ↦ answer scheme indeterminate (not_parsed c.raw)
  | prefix ↦ check_prefix scheme version c
  | _ ↦ check_bounds scheme version c
]

-- Constraint.Evaluate, where a comparator that is nil is the generic one.
unfoldable pub evaluate : Constraint → Text → Scheme → Evaluation
unfolding evaluate_reported answer
evaluate c version scheme =
    let reported = evaluate_reported scheme version c in
    let blank =
      if is_blank version then answer scheme indeterminate reports_no_version else reported in
    elim c.kind [ all ↦ answer scheme affected names_no_version | _ ↦ blank ]
