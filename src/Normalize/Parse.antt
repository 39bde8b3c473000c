-- ===== src/Normalize/Parse.antt =====
-- The parser of the version ranges that advisories write (internal/normalize/constraint.go).
pub mod Fitting
use Prim.Native.Nat.{Ordering}
use otscout.Prelude.{
  Bool, true, false, ◌&&◌, ◌||◌, Option, none, some, List, [], ◌∷◌, codes, drop, length, is_empty,
  if◌then◌else◌, Text, text_eq, to_lower, contains, has_byte, has_prefix,
}
use otscout.Protocol.Reader.{fields, join}
use otscout.Normalize.Version.{trim_space, trim_prefix, generic_compare}
use otscout.Normalize.Search.{
  Operator, cut, strip_suffix, has_digit, version_tokens, first_token, last_token, operator_pairs,
}
use otscout.Normalize.Constraint.{
  Constraint, all, unknown, no_bounds, with_raw, of_prefix, exactly, up_to, from, interval,
  constraint_from_operators,
}
use otscout.Normalize.Vers.{parse_vers}

-- The phrases with a version behind them or in front of them, and what such a version bounds.
abbrev pub upper_exclusive_after : List Text
upper_exclusive_after =
    codes "up to but not including"
    ∷ codes "all versions prior to"
    ∷ codes "all versions before"
    ∷ codes "all versions earlier than"
    ∷ codes "versions prior to"
    ∷ codes "versions before"
    ∷ codes "earlier than"
    ∷ codes "older than"
    ∷ codes "prior to"
    ∷ codes "before"
    ∷ []

abbrev pub upper_inclusive_after : List Text
upper_inclusive_after = codes "up to and including" ∷ codes "through" ∷ codes "up to" ∷ []

abbrev pub upper_inclusive_before : List Text
upper_inclusive_before =
    codes "and all prior versions"
    ∷ codes "and prior versions"
    ∷ codes "and earlier versions"
    ∷ codes "and prior"
    ∷ codes "and earlier"
    ∷ codes "and below"
    ∷ codes "and older"
    ∷ codes "or earlier"
    ∷ codes "or below"
    ∷ codes "or older"
    ∷ []

abbrev pub lower_exclusive_after : List Text
lower_exclusive_after =
    codes "all versions after"
    ∷ codes "versions after"
    ∷ codes "later than"
    ∷ codes "newer than"
    ∷ codes "after"
    ∷ []

abbrev pub lower_inclusive_before : List Text
lower_inclusive_before =
    codes "and later versions"
    ∷ codes "and newer versions"
    ∷ codes "and subsequent versions"
    ∷ codes "and later"
    ∷ codes "and above"
    ∷ codes "and newer"
    ∷ codes "and subsequent"
    ∷ codes "or later"
    ∷ codes "or above"
    ∷ codes "or newer"
    ∷ []

-- A version that is empty was not found.
abbrev pub found : Text → Option Text
found [] = none
found (c ∷ s) = some (c ∷ s)

unfoldable pub version_after_phrase : Text → Text → Option Text
version_after_phrase text phrase = elim (cut text phrase) [
  | none ↦ none
  | some (_, rest) ↦ found (first_token (version_tokens rest))
]

unfoldable pub version_before_phrase : Text → Text → Option Text
version_before_phrase text phrase = elim (cut text phrase) [
  | none ↦ none
  | some (head, _) ↦ found (last_token (version_tokens head))
]

-- The first phrase that has a version.
unfoldable pub version_by : (Text → Text → Option Text) → List Text → Text → Option Text
version_by side [] text = none
version_by side (phrase ∷ phrases) text =
    let later = version_by side phrases text in
    elim (side text phrase) [ none ↦ later | some version ↦ some version ]

abbrev pub wildcard_suffixes : List Text
wildcard_suffixes = codes ".x" ∷ codes ".*" ∷ codes "x" ∷ codes "*" ∷ []

-- strings.TrimSuffix(head, ".")
unfoldable pub trim_dot : Text → Text
trim_dot head = elim (strip_suffix head (codes ".")) [ none ↦ head | some s ↦ s ]

unfoldable pub release_line : Text → Option Text
release_line head =
    if is_empty head
    then none
    else if has_digit head
    then (if has_byte b' ' head then none else some head)
    else none

-- The first suffix that the text has decides.
unfoldable pub prefix_by : List Text → Text → Option Text
unfolding trim_dot release_line
prefix_by [] text = none
prefix_by (suffix ∷ suffixes) text =
    let later = prefix_by suffixes text in
    elim (strip_suffix text suffix) [ none ↦ later | some head ↦ release_line (trim_dot head) ]

unfoldable pub wildcard_prefix : Text → Option Text
wildcard_prefix text = prefix_by wildcard_suffixes text

abbrev pub range_separators : List Text
range_separators =
    codes " to "
    ∷ codes " through "
    ∷ codes " until "
    ∷ codes " and "
    ∷ codes " - "
    ∷ codes "-"
    ∷ []

-- One turn of the loop over the separators, and `later` where it continues.
unfoldable pub range_of : Text → Text → Option Constraint → Option Constraint
range_of left right later =
    if is_empty left || is_empty right || text_eq left right
    then later
    else (elim (generic_compare left right) [
      | some Ordering.lt ↦ some (interval left true right true)
      | some Ordering.eq ↦ later
      | some Ordering.gt ↦ later
      | none ↦ later
    ])

unfoldable pub range_by : List Text → Text → Option Constraint
unfolding range_of
range_by [] trimmed = none
range_by (sep ∷ seps) trimmed =
    let later = range_by seps trimmed in
    elim (cut trimmed sep) [
      | none ↦ later
      | some (left, right) ↦
          range_of (last_token (version_tokens left)) (first_token (version_tokens right)) later
    ]

unfoldable pub constraint_from_range_phrase : Text → Option Constraint
constraint_from_range_phrase text = range_by range_separators (trim_prefix text (codes "between "))

abbrev pub or_else : Option Constraint → Constraint → Constraint
or_else none later = later
or_else (some c) later = c

abbrev pub bounded : (Text → Constraint) → Option Text → Option Constraint
bounded f none = none
bounded f (some version) = some (f version)

-- A bare version, and otherwise a text that is not understood.
unfoldable pub bare_version : List Text → Text → Constraint
bare_version (token ∷ []) text = if text_eq token text then exactly token else no_bounds unknown
bare_version _ text = no_bounds unknown

-- The loops over the phrases, and what is behind them.
unfoldable pub parse_phrases : List Text → Text → Constraint
parse_phrases tokens text = or_else (constraint_from_range_phrase text) (
    or_else
      (bounded (λ v. up_to v false) (version_by version_after_phrase upper_exclusive_after text))
      (or_else
        (bounded (λ v. from v false) (version_by version_after_phrase lower_exclusive_after text))
        (or_else
          (bounded (λ v. up_to v true) (version_by version_after_phrase upper_inclusive_after text))
          (or_else
            (bounded (λ v. up_to v true)
              (version_by version_before_phrase upper_inclusive_before text))
            (or_else
              (bounded (λ v. from v true)
                (version_by version_before_phrase lower_inclusive_before text))
              (bare_version tokens text))))))

-- A text without a version names all of them, or nothing that is understood.
unfoldable pub parse_without_version : Text → Constraint
parse_without_version text =
    if contains text (codes "all versions")
      || text_eq text (codes "all")
      || text_eq text (codes "any")
      || text_eq text (codes "*")
    then no_bounds all
    else no_bounds unknown

unfoldable pub parse_tokens : List Text → Text → Constraint
parse_tokens [] text = parse_without_version text
parse_tokens (token ∷ tokens) text = parse_phrases (token ∷ tokens) text

-- Behind the specifier and the operators.
unfoldable pub parse_words : Text → Constraint
parse_words text =
    or_else (bounded of_prefix (wildcard_prefix text)) (parse_tokens (version_tokens text) text)

unfoldable pub parse_operators : List (Operator × Text) → Text → Constraint
parse_operators [] text = parse_words text
parse_operators (pair ∷ pairs) text = constraint_from_operators (no_bounds unknown) (pair ∷ pairs)

-- The text that is parsed: in lower case, with single spaces.
unfoldable pub squeeze : Text → Text
squeeze raw = join (fields (to_lower (trim_space raw)))

unfoldable pub parse_text : Text → Constraint
parse_text text =
    if is_empty text
    then no_bounds unknown
    else or_else (parse_vers text) (parse_operators (operator_pairs text) text)

unfoldable pub parse_constraint : Text → Constraint
parse_constraint raw = with_raw (parse_text (squeeze raw)) raw
