-- ===== src/Normalize/Constraint.antt =====
-- The parsed version range and its bounds (internal/normalize/constraint.go).
pub mod Kinds
use otscout.Prelude.{
  ◌≡◌, Bool, true, false, ◌&&◌, not, List, [], ◌∷◌, is_empty, if◌then◌else◌, Text, text_eq,
}
use otscout.Normalize.Search.{Operator, less, less_equal, greater, greater_equal, equal, not_equal}

pub data ConstraintKind : Type 0 where
  all eq prefix lt lte gt gte between unknown : ConstraintKind

-- A bound that is empty is not there.
pub record Constraint : Type 0 where
  pub raw : Text
  pub kind : ConstraintKind
  pub lower : Text
  pub lower_inclusive : Bool
  pub upper : Text
  pub upper_inclusive : Bool
  pub prefix_line : Text

unfoldable pub no_bounds : ConstraintKind → Constraint
no_bounds k = record {
  raw = [];
  kind = k;
  lower = [];
  lower_inclusive = false;
  upper = [];
  upper_inclusive = false;
  prefix_line = [];
}

unfoldable pub with_raw : Constraint → Text → Constraint
with_raw c text = record c { raw = text }

unfoldable pub of_prefix : Text → Constraint
unfolding no_bounds
of_prefix text = record (no_bounds prefix) { prefix_line = text }

unfoldable pub exactly : Text → Constraint
unfolding no_bounds
exactly v = record (no_bounds eq) {
  lower = v;
  lower_inclusive = true;
  upper = v;
  upper_inclusive = true;
}

-- An upper bound alone, and a lower bound alone.
unfoldable pub up_to : Text → Bool → Constraint
unfolding no_bounds
up_to v inclusive =
    let k = if inclusive then lte else lt in
    record (no_bounds k) { upper = v; upper_inclusive = inclusive }

unfoldable pub from : Text → Bool → Constraint
unfolding no_bounds
from v inclusive =
    let k = if inclusive then gte else gt in
    record (no_bounds k) { lower = v; lower_inclusive = inclusive }

unfoldable pub interval : Text → Bool → Text → Bool → Constraint
unfolding no_bounds
interval l l_inclusive u u_inclusive = record (no_bounds between) {
  lower = l;
  lower_inclusive = l_inclusive;
  upper = u;
  upper_inclusive = u_inclusive;
}

-- What one operator sets.
unfoldable pub set_bound : Operator → Text → Constraint → Constraint
set_bound less v c = record c { upper = v; upper_inclusive = false }
set_bound less_equal v c = record c { upper = v; upper_inclusive = true }
set_bound greater v c = record c { lower = v; lower_inclusive = false }
set_bound greater_equal v c = record c { lower = v; lower_inclusive = true }
set_bound equal v c = record c {
  lower = v;
  lower_inclusive = true;
  upper = v;
  upper_inclusive = true;
}
set_bound not_equal v c = c

unfoldable pub set_bounds : List (Operator × Text) → Constraint → Constraint
set_bounds [] c = c
set_bounds ((op, v) ∷ pairs) c = set_bounds pairs (set_bound op v c)

-- The switch over the bounds that are set.
unfoldable pub kind_of : Constraint → ConstraintKind
kind_of c =
    let has_lower = not (is_empty c.lower) in
    let has_upper = not (is_empty c.upper) in
    if has_lower && has_upper && text_eq c.lower c.upper && c.lower_inclusive && c.upper_inclusive
    then eq
    else if has_lower && has_upper
    then between
    else if has_upper && c.upper_inclusive
    then lte
    else if has_upper
    then lt
    else if has_lower && c.lower_inclusive
    then gte
    else if has_lower
    then gt
    else c.kind

unfoldable pub constraint_from_operators : Constraint → List (Operator × Text) → Constraint
unfolding set_bounds kind_of
constraint_from_operators c pairs =
    let bounded = set_bounds pairs c in record bounded { kind = kind_of bounded }
