-- ===== src/Normalize/Vers/Printed.antt =====
-- Ranges of the specifier as they are written, and that a constraint of them is read back.
pub mod Roundtrip
use otscout.Normalize.Search.{
  Operator, less, is_token_byte, less_equal, greater, greater_equal, equal, not_equal,
}
use otscout.Prelude.{
  is_space, drop_blank-narrow, is_blank, ◌<◌, Text, has_prefix, ◌≡◌, List, ◌++◌, All-map, is_empty,
  ℕ, All, All-append, codes, ◌∷◌, ap, false, arith, true, [], ◌∙◌, some, refl, text_eq,
}
use otscout.Normalize.Vers.{
  try_operators, vers_value, VersConstraint, vers_prefix, vers_operators, parse_vers_constraint,
}
use otscout.Normalize.Version.{trim_left, trim_right, trim_space}

-- The version is a run of the bytes of a token.
abbrev pub Plain : Text → Type 0
Plain s = All (λ (c : ℕ). is_token_byte c ≡ true) s

abbrev pub Printable : VersConstraint → Type 0
Printable c = (is_empty c.version ≡ false) × Plain c.version

unfoldable pub sign_text : Operator → Text
sign_text less = codes "<"
sign_text less_equal = codes "<="
sign_text greater = codes ">"
sign_text greater_equal = codes ">="
sign_text equal = codes "="
sign_text not_equal = codes "!="

unfoldable pub print_constraint : VersConstraint → Text
unfolding sign_text
print_constraint c = sign_text c.op ++ c.version

unfoldable pub print_parts : VersConstraint → List VersConstraint → Text
unfolding print_constraint
print_parts c [] = print_constraint c
print_parts c (d ∷ cs) = print_constraint c ++ b'|' ∷ print_parts d cs

-- A range of the specifier with one constraint or more.
unfoldable pub print_vers : Text → VersConstraint → List VersConstraint → Text
unfolding print_parts
print_vers scheme c cs = vers_prefix ++ scheme ++ b'/' ∷ print_parts c cs

-- The bytes of which a printed constraint is made.
abbrev pub Dense : Text → Type 0
Dense s = All (λ (c : ℕ). (is_space c ≡ false) × (c < 128)) s

trim_left-Dense : (s : Text) → Dense s → trim_left s ≡ s
unfolding trim_left
trim_left-Dense [] h = refl
trim_left-Dense (c ∷ s) h = drop_blank-narrow c s h.0.0 h.0.1

trim_right-Dense : (s : Text) → Dense s → trim_right s ≡ s
unfolding trim_right is_blank
trim_right-Dense [] h = refl
trim_right-Dense (c ∷ s) h =
    ground (arith, drop_blank-narrow c s h.0.0 h.0.1, trim_right-Dense s h.1)

pub trim_space-Dense : (s : Text) → Dense s → trim_space s ≡ s
unfolding trim_space
trim_space-Dense s h = ap trim_right (trim_left-Dense s h) ∙ trim_right-Dense s h

is_token_byte-space : (c : ℕ) → is_token_byte c ≡ true → (is_space c ≡ false) × (c < 128)
unfolding is_space
is_token_byte-space c h = ground (arith, h)

Plain-Dense : (s : Text) → Plain s → Dense s
Plain-Dense s h = All-map _ _ is_token_byte-space s h

pub sign_text-Dense : (op : Operator) → Dense (sign_text op)
unfolding sign_text is_space
sign_text-Dense less = ((refl, omega arith), tt)
sign_text-Dense less_equal = ((refl, omega arith), ((refl, omega arith), tt))
sign_text-Dense greater = ((refl, omega arith), tt)
sign_text-Dense greater_equal = ((refl, omega arith), ((refl, omega arith), tt))
sign_text-Dense equal = ((refl, omega arith), tt)
sign_text-Dense not_equal = ((refl, omega arith), ((refl, omega arith), tt))

pub print_constraint-Dense : (c : VersConstraint) → Printable c → Dense (print_constraint c)
unfolding print_constraint
print_constraint-Dense c h =
    All-append _ (sign_text c.op) c.version (sign_text-Dense c.op) (Plain-Dense c.version h.1)

vers_value-Plain :
    (op : Operator) (v : Text)
    → is_empty v ≡ false
    → Plain v
    → vers_value op v ≡ some (record { op = op; version = v })
unfolding vers_value
vers_value-Plain op v h k = rw (trim_space-Dense v (Plain-Dense v k), h) refl

try_operators-print :
    (op : Operator) (v : Text)
    → is_empty v ≡ false
    → Plain v
    → try_operators vers_operators (sign_text op ++ v) ≡ some (record { op = op; version = v })
unfolding try_operators sign_text has_prefix
try_operators-print op [] h k = ground (arith, h)
try_operators-print less (c ∷ v) h k = ground (arith, k, vers_value-Plain less (c ∷ v) h k)
try_operators-print less_equal (c ∷ v) h k = vers_value-Plain less_equal (c ∷ v) h k
try_operators-print greater (c ∷ v) h k = ground (arith, k, vers_value-Plain greater (c ∷ v) h k)
try_operators-print greater_equal (c ∷ v) h k = vers_value-Plain greater_equal (c ∷ v) h k
try_operators-print equal (c ∷ v) h k = vers_value-Plain equal (c ∷ v) h k
try_operators-print not_equal (c ∷ v) h k = vers_value-Plain not_equal (c ∷ v) h k

sign_text-shown : (op : Operator) (v : Text) → is_empty (sign_text op ++ v) ≡ false
unfolding sign_text
sign_text-shown less v = refl
sign_text-shown less_equal v = refl
sign_text-shown greater v = refl
sign_text-shown greater_equal v = refl
sign_text-shown equal v = refl
sign_text-shown not_equal v = refl

pub sign_text-wildcard :
    (op : Operator) (v : Text) → text_eq (sign_text op ++ v) (codes "*") ≡ false
unfolding sign_text text_eq
sign_text-wildcard less v = refl
sign_text-wildcard less_equal v = refl
sign_text-wildcard greater v = refl
sign_text-wildcard greater_equal v = refl
sign_text-wildcard equal v = refl
sign_text-wildcard not_equal v = refl

pub print_constraint-shown : (c : VersConstraint) → is_empty (print_constraint c) ≡ false
unfolding print_constraint
print_constraint-shown c = sign_text-shown c.op c.version

-- A constraint that is printed is read back.
pub parse_vers_constraint-print :
    (c : VersConstraint) → Printable c → parse_vers_constraint (print_constraint c) ≡ some c
unfolding parse_vers_constraint print_constraint
parse_vers_constraint-print c h =
    rw
      (
        trim_space-Dense (print_constraint c) (print_constraint-Dense c h),
        sign_text-shown c.op c.version,
        sign_text-wildcard c.op c.version,
      )
      (try_operators-print c.op c.version h.0 h.1)
