-- ===== src/Normalize/Vers/Printed/Roundtrip.antt =====
-- A range of the specifier that is printed is read back.
use otscout.Prelude.{
  ℕ, is_space, Text, has_prefix, text_eq, All, ◌≡◌, List, ◌++◌, codes, ◌∷◌, false, ◌==◌, is_empty,
  All-append, All-map, arith, refl, [], some, Bool, true, Bool-cases, inl, sym, ◌∙◌, ap, ==_iff,
  inr,
}
use otscout.Normalize.Vers.Printed.{
  print_parts, print_constraint, sign_text, print_vers, Printable, Plain, Dense,
  print_constraint-Dense, parse_vers_constraint-print, trim_space-Dense, sign_text-wildcard,
  print_constraint-shown,
}
use otscout.Normalize.Search.{
  cut, Operator, is_token_byte, less, less_equal, greater, greater_equal, equal, not_equal,
  starts_with,
}
use otscout.Normalize.Vers.{split_on, parse_parts, parse_vers, VersConstraint, vers_body, vers_of}

-- No byte of the text is `sep`.
abbrev Without : ℕ → Text → Type 0
Without sep s = All (λ (c : ℕ). (c == sep) ≡ false) s

cut-Without : (s t : Text) (sep : ℕ) → Without sep s → cut (s ++ sep ∷ t) (sep ∷ []) ≡ some (s, t)
unfolding cut has_prefix
cut-Without [] t sep h = ground arith
cut-Without (c ∷ s) t sep h = ground (arith, h.0, cut-Without s t sep h.1)

split_on-alone : (s : Text) (sep : ℕ) → Without sep s → split_on sep s ≡ s ∷ []
unfolding split_on
split_on-alone [] sep h = refl
split_on-alone (c ∷ s) sep h = rw (h.0, split_on-alone s sep h.1) refl

split_on-Without :
    (s t : Text) (sep : ℕ) → Without sep s → split_on sep (s ++ sep ∷ t) ≡ s ∷ split_on sep t
unfolding split_on
split_on-Without [] t sep h = ground arith
split_on-Without (c ∷ s) t sep h = rw (h.0, split_on-Without s t sep h.1) refl

other_byte :
    (sep : ℕ) → is_token_byte sep ≡ false → (c : ℕ) → is_token_byte c ≡ true → (c == sep) ≡ false
other_byte sep e c k = elim (Bool-cases (c == sep)) [
  | inl q ↦ absurd (ground (arith, sym k ∙ ap is_token_byte ((==_iff c sep).0 q) ∙ e))
  | inr q ↦ q
]

Plain-Without : (sep : ℕ) → is_token_byte sep ≡ false → (s : Text) → Plain s → Without sep s
Plain-Without sep e s h = All-map _ _ (other_byte sep e) s h

sign_text-Without : (op : Operator) → Without b'|' (sign_text op)
unfolding sign_text
sign_text-Without less = (refl, tt)
sign_text-Without less_equal = (refl, (refl, tt))
sign_text-Without greater = (refl, tt)
sign_text-Without greater_equal = (refl, (refl, tt))
sign_text-Without equal = (refl, tt)
sign_text-Without not_equal = (refl, (refl, tt))

print_constraint-Without : (c : VersConstraint) → Printable c → Without b'|' (print_constraint c)
unfolding print_constraint
print_constraint-Without c h =
    All-append _ (sign_text c.op) c.version (sign_text-Without c.op)
      (Plain-Without b'|' refl c.version h.1)

parse_parts-print :
    (c : VersConstraint) (cs : List VersConstraint)
    → All Printable (c ∷ cs)
    → parse_parts (split_on b'|' (print_parts c cs)) ≡ some (c ∷ cs)
unfolding parse_parts print_parts
parse_parts-print c [] h =
    rw
      (
        split_on-alone (print_constraint c) b'|' (print_constraint-Without c h.0),
        parse_vers_constraint-print c h.0,
      )
      refl
parse_parts-print c (d ∷ cs) h =
    rw
      (
        split_on-Without (print_constraint c) (print_parts d cs) b'|'
            (print_constraint-Without c h.0),
        parse_vers_constraint-print c h.0,
        parse_parts-print d cs h.1,
      )
      refl

print_parts-Dense :
    (c : VersConstraint) (cs : List VersConstraint)
    → All Printable (c ∷ cs)
    → Dense (print_parts c cs)
unfolding print_parts is_space
print_parts-Dense c [] h = print_constraint-Dense c h.0
print_parts-Dense c (d ∷ cs) h =
    All-append _ (print_constraint c) (b'|' ∷ print_parts d cs) (print_constraint-Dense c h.0)
      ((refl, omega arith), print_parts-Dense d cs h.1)

shown-append : (s t : Text) → is_empty s ≡ false → is_empty (s ++ t) ≡ false
shown-append [] t h = ground (arith, h)
shown-append (c ∷ s) t h = refl

print_parts-shown :
    (c : VersConstraint) (cs : List VersConstraint) → is_empty (print_parts c cs) ≡ false
unfolding print_parts
print_parts-shown c [] = print_constraint-shown c
print_parts-shown c (d ∷ cs) =
    shown-append (print_constraint c) (b'|' ∷ print_parts d cs) (print_constraint-shown c)

abbrev is_star : ℕ → Bool
is_star c = c == b'*'

other_start :
    (s t : Text)
    → is_empty s ≡ false
    → starts_with is_star s ≡ false
    → text_eq (s ++ t) (codes "*") ≡ false
unfolding text_eq
other_start [] t h k = ground (arith, h)
other_start (c ∷ s) t h k = rw k refl

sign_text-star : (op : Operator) (v : Text) → starts_with is_star (sign_text op ++ v) ≡ false
unfolding sign_text
sign_text-star less v = refl
sign_text-star less_equal v = refl
sign_text-star greater v = refl
sign_text-star greater_equal v = refl
sign_text-star equal v = refl
sign_text-star not_equal v = refl

print_parts-wildcard :
    (c : VersConstraint) (cs : List VersConstraint) → text_eq (print_parts c cs) (codes "*") ≡ false
unfolding print_parts print_constraint
print_parts-wildcard c [] = sign_text-wildcard c.op c.version
print_parts-wildcard c (d ∷ cs) =
    other_start (print_constraint c) (b'|' ∷ print_parts d cs) (print_constraint-shown c)
      (sign_text-star c.op c.version)

-- A range of the specifier that is printed is read back: the constraints in it, each with a version
-- that is a run of the bytes of a token, are those that the range is made of. The scheme is made of
-- such bytes as well.
pub parse_vers-print :
    (scheme : Text) (c : VersConstraint) (cs : List VersConstraint)
    → Plain scheme
    → All Printable (c ∷ cs)
    → parse_vers (print_vers scheme c cs) ≡ some (vers_of (some (c ∷ cs)))
unfolding parse_vers print_vers has_prefix vers_body
parse_vers-print scheme c cs h k =
    rw
      (
        cut-Without scheme (print_parts c cs) b'/' (Plain-Without b'/' refl scheme h),
        trim_space-Dense (print_parts c cs) (print_parts-Dense c cs k),
        print_parts-shown c cs,
        print_parts-wildcard c cs,
        parse_parts-print c cs k,
      )
      refl
