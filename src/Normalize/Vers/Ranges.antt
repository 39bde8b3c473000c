-- ===== src/Normalize/Vers/Ranges.antt =====
-- The ranges that the specifier yields.
use otscout.Normalize.Version.{trim_space}
use otscout.Normalize.Constraint.{no_bounds, unknown}
use otscout.Normalize.Search.{
  Operator, less, cut, less_equal, greater, greater_equal, equal, not_equal,
}
use otscout.Normalize.Constraint.Kinds.{
  WellFormed, if-WellFormed, unknown-WellFormed, interval-WellFormed, all-WellFormed, FitsIf,
  up_to-WellFormed, from-WellFormed, exactly-WellFormed,
}
use otscout.Prelude.{
  is_empty, Text, List, All, ◌≡◌, false, some, arith, text_eq, ◌∷◌, [], drop, codes, length, inl,
  inr, Option, Bool-cases, none, true, refl, has_prefix,
}
use otscout.Normalize.Vers.{
  parse_vers, VersConstraint, vers_value, parse_vers_constraint, vers_single, vers_pair, vers_of,
  join_bounds, try_operators, vers_body, parse_parts, is_vers_upper, is_inclusive, vers_operators,
  split_on, cons_parsed, vers_prefix,
}

-- A constraint whose version is not empty.
abbrev pub Named : VersConstraint → Type 0
Named c = is_empty c.version ≡ false

vers_value-Named :
    (op : Operator) (s : Text) (c : VersConstraint) → vers_value op s ≡ some c → Named c
unfolding vers_value
vers_value-Named op s c h = ground arith

try_operators-Named :
    (ops : List (Text × Operator)) (text : Text) (c : VersConstraint)
    → is_empty text ≡ false
    → try_operators ops text ≡ some c
    → Named c
unfolding try_operators
try_operators-Named [] text c k h = ground arith
try_operators-Named ((sign, op) ∷ ops) text c k h =
    ground
      (arith, try_operators-Named ops text c k, vers_value-Named op (drop (length sign) text) c)

parse_vers_constraint-Named :
    (raw : Text) (c : VersConstraint) → parse_vers_constraint raw ≡ some c → Named c
unfolding parse_vers_constraint
parse_vers_constraint-Named raw c h =
    ground (arith, try_operators-Named vers_operators (trim_space raw) c)

abbrev NamedIf : Option (List VersConstraint) → Type 0
NamedIf none = Unit
NamedIf (some cs) = All Named cs

cons_parsed-NamedIf :
    (o : Option VersConstraint) (os : Option (List VersConstraint))
    → ((c : VersConstraint) → o ≡ some c → Named c)
    → NamedIf os
    → NamedIf (cons_parsed o os)
cons_parsed-NamedIf none os f h = tt
cons_parsed-NamedIf (some c) none f h = tt
cons_parsed-NamedIf (some c) (some cs) f h = (f c refl, h)

parse_parts-NamedIf : (parts : List Text) → NamedIf (parse_parts parts)
unfolding parse_parts
parse_parts-NamedIf [] = tt
parse_parts-NamedIf (part ∷ parts) =
    cons_parsed-NamedIf (parse_vers_constraint part) (parse_parts parts)
      (parse_vers_constraint-Named part) (parse_parts-NamedIf parts)

vers_single-WellFormed : (c : VersConstraint) → Named c → WellFormed (vers_single c)
unfolding vers_single
vers_single-WellFormed c h = elim c.op as (λ op. WellFormed (vers_single (record c { op = op }))) [
  | less ↦ up_to-WellFormed c.version false h
  | less_equal ↦ up_to-WellFormed c.version true h
  | greater ↦ from-WellFormed c.version false h
  | greater_equal ↦ from-WellFormed c.version true h
  | equal ↦ exactly-WellFormed c.version h
  | not_equal ↦ unknown-WellFormed
]

join_bounds-WellFormed : (l u : VersConstraint) → Named l → Named u → WellFormed (join_bounds l u)
unfolding join_bounds
join_bounds-WellFormed l u h k =
    if-WellFormed _ _ _
      (λ e. interval-WellFormed l.version (is_inclusive l.op) u.version (is_inclusive u.op) h k)
      unknown-WellFormed

vers_pair-WellFormed : (c d : VersConstraint) → Named c → Named d → WellFormed (vers_pair c d)
unfolding vers_pair
vers_pair-WellFormed c d h k =
    if-WellFormed (is_vers_upper c.op) _ _ (λ e. join_bounds-WellFormed d c k h)
      (join_bounds-WellFormed c d h k)

vers_of-WellFormed : (o : Option (List VersConstraint)) → NamedIf o → WellFormed (vers_of o)
unfolding vers_of
vers_of-WellFormed none h = unknown-WellFormed
vers_of-WellFormed (some []) h = unknown-WellFormed
vers_of-WellFormed (some (c ∷ [])) h = vers_single-WellFormed c h.0
vers_of-WellFormed (some (c ∷ d ∷ [])) h = vers_pair-WellFormed c d h.0 h.1.0
vers_of-WellFormed (some (c ∷ d ∷ e ∷ cs)) h = unknown-WellFormed

vers_body-WellFormed : (body : Text) → WellFormed (vers_body body)
unfolding vers_body
vers_body-WellFormed body =
    if-WellFormed (is_empty body) _ _ (λ e. unknown-WellFormed)
      (if-WellFormed (text_eq body (codes "*")) _ _ (λ e. all-WellFormed)
        (vers_of-WellFormed (parse_parts (split_on b'|' body))
          (parse_parts-NamedIf (split_on b'|' body))))

vers_text-FitsIf :
    (o : Option (Text × Text))
    → FitsIf (elim o [
      | none ↦ some (no_bounds unknown)
      | some (_, body) ↦ some (vers_body (trim_space body))
    ])
vers_text-FitsIf none = unknown-WellFormed
vers_text-FitsIf (some (scheme, body)) = vers_body-WellFormed (trim_space body)

-- What the specifier yields fits its kind.
pub parse_vers-FitsIf : (text : Text) → FitsIf (parse_vers text)
unfolding parse_vers
parse_vers-FitsIf text = elim (Bool-cases (has_prefix text vers_prefix)) [
  | inl e ↦ rw (FitsIf, e) (vers_text-FitsIf (cut (drop (length vers_prefix) text) (codes "/")))
  | inr e ↦ rw (FitsIf, e) tt
]
