-- ===== src/Normalize/Vers.antt =====
-- The package URL project's version range specifier (internal/normalize/vers.go).
pub mod Ranges
pub mod Printed
use otscout.Prelude.{
  ℕ, Bool, true, false, ◌&&◌, ◌||◌, not, Option, none, some, List, [], ◌∷◌, codes, length, drop,
  is_empty, if◌then◌else◌, Text, text_eq, has_prefix, ◌==◌,
}
use otscout.Normalize.Version.{trim_space, trim_prefix}
use otscout.Normalize.Search.{
  cut, Operator, less, less_equal, greater, greater_equal, equal, not_equal,
}
use otscout.Normalize.Constraint.{
  Constraint, all, unknown, no_bounds, exactly, up_to, from, interval,
}

abbrev pub vers_prefix : Text
vers_prefix = codes "vers:"

pub record VersConstraint : Type 0 where
  pub op : Operator
  pub version : Text

-- The operators in the order in which they are tried.
abbrev pub vers_operators : List (Text × Operator)
vers_operators =
    (codes "<=", less_equal)
    ∷ (codes ">=", greater_equal)
    ∷ (codes "!=", not_equal)
    ∷ (codes "<", less)
    ∷ (codes ">", greater)
    ∷ (codes "=", equal)
    ∷ []

-- What is behind an operator, which has to name a version.
unfoldable pub vers_value : Operator → Text → Option VersConstraint
vers_value operator behind =
    let v = trim_space behind in
    if is_empty v then none else some (record { op = operator; version = v })

-- The loop over the operators. A text with none of them means equality.
unfoldable pub try_operators : List (Text × Operator) → Text → Option VersConstraint
try_operators [] text = some (record { op = equal; version = text })
try_operators ((sign, operator) ∷ ops) text =
    let later = try_operators ops text in
    if has_prefix text sign then vers_value operator (drop (length sign) text) else later

unfoldable pub parse_vers_constraint : Text → Option VersConstraint
parse_vers_constraint raw =
    let text = trim_space raw in
    if is_empty text || text_eq text (codes "*") then none else try_operators vers_operators text

unfoldable pub vers_single : VersConstraint → Constraint
vers_single c = elim c.op [
  | equal ↦ exactly c.version
  | less ↦ up_to c.version false
  | less_equal ↦ up_to c.version true
  | greater ↦ from c.version false
  | greater_equal ↦ from c.version true
  | not_equal ↦ no_bounds unknown
]

abbrev pub is_vers_lower : Operator → Bool
is_vers_lower greater = true
is_vers_lower greater_equal = true
is_vers_lower _ = false

abbrev pub is_vers_upper : Operator → Bool
is_vers_upper less = true
is_vers_upper less_equal = true
is_vers_upper _ = false

abbrev pub is_inclusive : Operator → Bool
is_inclusive less_equal = true
is_inclusive greater_equal = true
is_inclusive _ = false

-- The end of versPair, once the two are told apart.
unfoldable pub join_bounds : VersConstraint → VersConstraint → Constraint
join_bounds lower upper =
    if is_vers_lower lower.op && is_vers_upper upper.op
    then interval lower.version (is_inclusive lower.op) upper.version (is_inclusive upper.op)
    else no_bounds unknown

unfoldable pub vers_pair : VersConstraint → VersConstraint → Constraint
unfolding join_bounds
vers_pair first second =
    if is_vers_upper first.op then join_bounds second first else join_bounds first second

-- strings.Split
abbrev pub onto_first : ℕ → List Text → List Text
onto_first c [] = (c ∷ []) ∷ []
onto_first c (part ∷ parts) = (c ∷ part) ∷ parts

unfoldable pub split_on : ℕ → Text → List Text
split_on sep [] = [] ∷ []
split_on sep (c ∷ s) =
    let parts = split_on sep s in if c == sep then [] ∷ parts else onto_first c parts

abbrev pub cons_parsed :
    Option VersConstraint → Option (List VersConstraint) → Option (List VersConstraint)
cons_parsed (some c) (some cs) = some (c ∷ cs)
cons_parsed _ _ = none

unfoldable pub parse_parts : List Text → Option (List VersConstraint)
parse_parts [] = some []
parse_parts (part ∷ parts) = cons_parsed (parse_vers_constraint part) (parse_parts parts)

-- The switch over how many constraints there are.
unfoldable pub vers_of : Option (List VersConstraint) → Constraint
vers_of (some (c ∷ [])) = vers_single c
vers_of (some (c ∷ d ∷ [])) = vers_pair c d
vers_of _ = no_bounds unknown

unfoldable pub vers_body : Text → Constraint
vers_body body =
    if is_empty body
    then no_bounds unknown
    else if text_eq body (codes "*")
    then no_bounds all
    else vers_of (parse_parts (split_on b'|' body))

-- `none` is a text that is not of this form at all.
unfoldable pub parse_vers : Text → Option Constraint
unfolding vers_body
parse_vers text =
    if has_prefix text vers_prefix
    then (elim (cut (drop (length vers_prefix) text) (codes "/")) [
      | none ↦ some (no_bounds unknown)
      | some (_, body) ↦ some (vers_body (trim_space body))
    ])
    else none
