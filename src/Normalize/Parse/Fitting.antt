-- ===== src/Normalize/Parse/Fitting.antt =====
-- Every text parses to a range whose kind agrees with its bounds.
use otscout.Normalize.Search.Found.{Sets, operator_pairs-All}
use otscout.Normalize.Vers.Ranges.{parse_vers-FitsIf}
use otscout.Normalize.Vers.{parse_vers}
use otscout.Normalize.Version.{trim_prefix}
use otscout.Normalize.Search.{
  cut, first_token, last_token, version_tokens, strip_suffix, Operator, operator_pairs,
}
use otscout.Normalize.Constraint.Kinds.{
  WellFormed, unknown-WellFormed, up_to-WellFormed, from-WellFormed, if-WellFormed,
  exactly-WellFormed, all-WellFormed, of_prefix-WellFormed, constraint_from_operators-WellFormed,
  Fits-same, FitsIf, interval-WellFormed,
}
use otscout.Normalize.Constraint.{
  Constraint, interval, up_to, from, with_raw, of_prefix, no_bounds, unknown,
}
use otscout.Normalize.Parse.{
  release_line, prefix_by, range_of, version_before_phrase, version_by, version_after_phrase, found,
  or_else, bounded, range_by, bare_version, parse_without_version, parse_phrases,
  constraint_from_range_phrase, trim_dot, range_separators, upper_exclusive_after,
  lower_exclusive_after, upper_inclusive_after, upper_inclusive_before, lower_inclusive_before,
  parse_text, parse_words, parse_tokens, parse_operators, parse_constraint, wildcard_prefix,
  squeeze, wildcard_suffixes,
}
use otscout.Prelude.{
  Text, Option, ◌≡◌, List, some, is_empty, false, Option-cases, arith, none, text_eq, inl, inr, ◌∷◌,
  refl, ◌⊎◌, true, codes, [], All, text_eq_iff,
}

found-present : (s v : Text) → found s ≡ some v → is_empty v ≡ false
found-present [] v h = ground arith
found-present (c ∷ s) v h = ground arith

version_by-present :
    (side : Text → Text → Option Text)
    → ((text phrase v : Text) → side text phrase ≡ some v → is_empty v ≡ false)
    → (phrases : List Text) (text v : Text) → version_by side phrases text ≡ some v
    → is_empty v ≡ false
unfolding version_by
version_by-present side f [] text v h = ground arith
version_by-present side f (phrase ∷ phrases) text v h = elim (Option-cases (side text phrase)) [
  | inl e ↦ ground (arith, e, version_by-present side f phrases text v)
  | inr (w, e) ↦ ground (arith, e, f text phrase w)
]

version_after_phrase-present :
    (text phrase v : Text) → version_after_phrase text phrase ≡ some v → is_empty v ≡ false
unfolding version_after_phrase
version_after_phrase-present text phrase v h = elim (Option-cases (cut text phrase)) [
  | inl e ↦ ground (arith, e)
  | inr ((head, rest), e) ↦ ground (arith, e, found-present (first_token (version_tokens rest)) v)
]

version_before_phrase-present :
    (text phrase v : Text) → version_before_phrase text phrase ≡ some v → is_empty v ≡ false
unfolding version_before_phrase
version_before_phrase-present text phrase v h = elim (Option-cases (cut text phrase)) [
  | inl e ↦ ground (arith, e)
  | inr ((head, rest), e) ↦ ground (arith, e, found-present (last_token (version_tokens head)) v)
]

release_line-present : (head v : Text) → release_line head ≡ some v → is_empty v ≡ false
unfolding release_line
release_line-present head v h = ground arith

prefix_by-present :
    (suffixes : List Text) (text v : Text) → prefix_by suffixes text ≡ some v → is_empty v ≡ false
unfolding prefix_by
prefix_by-present [] text v h = ground arith
prefix_by-present (suffix ∷ suffixes) text v h = elim (Option-cases (strip_suffix text suffix)) [
  | inl e ↦ ground (arith, e, prefix_by-present suffixes text v)
  | inr (head, e) ↦ ground (arith, e, release_line-present (trim_dot head) v)
]

or_else-WellFormed :
    (o : Option Constraint) (later : Constraint)
    → FitsIf o
    → WellFormed later
    → WellFormed (or_else o later)
or_else-WellFormed none later f h = h
or_else-WellFormed (some c) later f h = f

bounded-WellFormed :
    (f : Text → Constraint) (o : Option Text)
    → ((v : Text) → is_empty v ≡ false → WellFormed (f v))
    → ((v : Text) → o ≡ some v → is_empty v ≡ false)
    → (later : Constraint) → WellFormed later
    → WellFormed (or_else (bounded f o) later)
bounded-WellFormed f none g p later h = h
bounded-WellFormed f (some v) g p later h = g v (p v refl)

range_of-cases :
    (left right : Text) (later : Option Constraint)
    → (range_of left right later ≡ later)
      ⊎ ((is_empty left ≡ false)
          × (is_empty right ≡ false)
          × (range_of left right later ≡ some (interval left true right true)))
unfolding range_of
range_of-cases left right later = ground arith

range_of-FitsIf :
    (left right : Text) (later : Option Constraint)
    → FitsIf later
    → FitsIf (range_of left right later)
range_of-FitsIf left right later f = elim (range_of-cases left right later) [
  | inl same ↦ rw same f
  | inr (h, k, is) ↦ rw is (interval-WellFormed left true right true h k)
]

range_by-FitsIf : (seps : List Text) (trimmed : Text) → FitsIf (range_by seps trimmed)
unfolding range_by
range_by-FitsIf [] trimmed = tt
range_by-FitsIf (sep ∷ seps) trimmed = elim (Option-cases (cut trimmed sep)) [
  | inl e ↦ rw (FitsIf, e) (range_by-FitsIf seps trimmed)
  | inr ((l, r), e) ↦
      rw (FitsIf, e) (range_of-FitsIf _ _ (range_by seps trimmed) (range_by-FitsIf seps trimmed))
]

bare_version-WellFormed :
    (tokens : List Text) (text : Text)
    → is_empty text ≡ false
    → WellFormed (bare_version tokens text)
unfolding bare_version
bare_version-WellFormed [] text h = unknown-WellFormed
bare_version-WellFormed (token ∷ next ∷ tokens) text h = unknown-WellFormed
bare_version-WellFormed (token ∷ []) text h =
    if-WellFormed (text_eq token text) _ _
      (λ e. exactly-WellFormed token (ground (arith, e, h, text_eq_iff token text)))
      unknown-WellFormed

parse_without_version-WellFormed : (text : Text) → WellFormed (parse_without_version text)
unfolding parse_without_version
parse_without_version-WellFormed text = if-WellFormed _ _ _ (λ e. all-WellFormed) unknown-WellFormed

parse_phrases-WellFormed :
    (tokens : List Text) (text : Text)
    → is_empty text ≡ false
    → WellFormed (parse_phrases tokens text)
unfolding parse_phrases constraint_from_range_phrase
parse_phrases-WellFormed tokens text h =
    or_else-WellFormed (constraint_from_range_phrase text) _
      (range_by-FitsIf range_separators (trim_prefix text (codes "between ")))
      (bounded-WellFormed (λ v. up_to v false) _ (λ v k. up_to-WellFormed v false k)
        (version_by-present version_after_phrase version_after_phrase-present upper_exclusive_after
          text)
        _
        (bounded-WellFormed (λ v. from v false) _ (λ v k. from-WellFormed v false k)
          (version_by-present version_after_phrase version_after_phrase-present
            lower_exclusive_after text)
          _
          (bounded-WellFormed (λ v. up_to v true) _ (λ v k. up_to-WellFormed v true k)
            (version_by-present version_after_phrase version_after_phrase-present
              upper_inclusive_after text)
            _
            (bounded-WellFormed (λ v. up_to v true) _ (λ v k. up_to-WellFormed v true k)
              (version_by-present version_before_phrase version_before_phrase-present
                upper_inclusive_before text)
              _
              (bounded-WellFormed (λ v. from v true) _ (λ v k. from-WellFormed v true k)
                (version_by-present version_before_phrase version_before_phrase-present
                  lower_inclusive_before text)
                _ (bare_version-WellFormed tokens text h))))))

parse_tokens-WellFormed :
    (tokens : List Text) (text : Text)
    → is_empty text ≡ false
    → WellFormed (parse_tokens tokens text)
unfolding parse_tokens
parse_tokens-WellFormed [] text h = parse_without_version-WellFormed text
parse_tokens-WellFormed (token ∷ tokens) text h = parse_phrases-WellFormed (token ∷ tokens) text h

parse_words-WellFormed : (text : Text) → is_empty text ≡ false → WellFormed (parse_words text)
unfolding parse_words wildcard_prefix
parse_words-WellFormed text h =
    bounded-WellFormed of_prefix (wildcard_prefix text) of_prefix-WellFormed
      (prefix_by-present wildcard_suffixes text) (parse_tokens (version_tokens text) text)
      (parse_tokens-WellFormed (version_tokens text) text h)

parse_operators-WellFormed :
    (pairs : List (Operator × Text)) (text : Text)
    → All Sets pairs
    → is_empty text ≡ false
    → WellFormed (parse_operators pairs text)
unfolding parse_operators
parse_operators-WellFormed [] text h k = parse_words-WellFormed text k
parse_operators-WellFormed (pair ∷ pairs) text h k =
    constraint_from_operators-WellFormed (no_bounds unknown) pair pairs h

parse_text-WellFormed : (text : Text) → WellFormed (parse_text text)
unfolding parse_text
parse_text-WellFormed [] = unknown-WellFormed
parse_text-WellFormed (c ∷ text) =
    or_else-WellFormed (parse_vers (c ∷ text)) _ (parse_vers-FitsIf (c ∷ text)) (
      parse_operators-WellFormed (operator_pairs (c ∷ text)) (c ∷ text)
        (operator_pairs-All (c ∷ text)) refl)

with_raw-WellFormed : (c : Constraint) (raw : Text) → WellFormed c → WellFormed (with_raw c raw)
unfolding with_raw
with_raw-WellFormed c raw h = record { fits = Fits-same c.kind c c.kind raw h.fits }

-- Every text parses to a range whose kind agrees with its bounds: a range of a kind has the bounds of
-- that kind, each of them a version that is not empty, and no other.
pub parse_constraint-WellFormed : (raw : Text) → WellFormed (parse_constraint raw)
unfolding parse_constraint
parse_constraint-WellFormed raw =
    with_raw-WellFormed (parse_text (squeeze raw)) raw (parse_text-WellFormed (squeeze raw))
