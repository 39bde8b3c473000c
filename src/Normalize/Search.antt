-- ===== src/Normalize/Search.antt =====
-- The searches of package strings and the two regular expressions of the range parser
-- (internal/normalize/constraint.go).
pub mod Found
use otscout.Prelude.{
  ℕ, zero, suc, ◌+◌, ◌-◌, Bool, true, false, ◌&&◌, ◌||◌, not, Option, none, some, List, [], ◌∷◌,
  ◌++◌, codes, length, drop, is_empty, if◌then◌else◌, Text, text_eq, has_prefix, is_space, ◌==◌,
}
use otscout.Normalize.Version.{is_digit, is_letter, run_of}

abbrev pub before_cut : ℕ → Option (Text × Text) → Option (Text × Text)
before_cut c none = none
before_cut c (some (left, right)) = some (c ∷ left, right)

-- strings.Cut: what is in front of the first `sep`, and what is behind it. It is none where
-- strings.Index is negative.
unfoldable pub cut : Text → Text → Option (Text × Text)
unfolding has_prefix
cut [] sep = if is_empty sep then some ([], []) else none
cut (c ∷ s) sep =
    let later = cut s sep in
    if has_prefix (c ∷ s) sep then some ([], drop (length sep) (c ∷ s)) else before_cut c later

abbrev pub onto_rest : ℕ → Option Text → Option Text
onto_rest c none = none
onto_rest c (some s) = some (c ∷ s)

-- strings.TrimSuffix where strings.HasSuffix holds
unfoldable pub strip_suffix : Text → Text → Option Text
unfolding text_eq
strip_suffix [] suffix = if is_empty suffix then some [] else none
strip_suffix (c ∷ s) suffix =
    let later = strip_suffix s suffix in
    if text_eq (c ∷ s) suffix then some [] else onto_rest c later

-- [0-9a-z._\-]
abbrev pub is_token_byte : ℕ → Bool
is_token_byte c = is_digit c || is_letter c || c == b'.' || c == b'_' || c == b'-'

abbrev pub starts_with : (ℕ → Bool) → Text → Bool
starts_with p [] = false
starts_with p (c ∷ s) = p c

unfoldable pub has_digit : Text → Bool
has_digit [] = false
has_digit (c ∷ s) = is_digit c || has_digit s

-- versionToken where a match starts here, [a-z]*[0-9][0-9a-z._\-]*. Fewer letters than all are
-- followed by a letter, so that the expression does not go back.
unfoldable pub token_here : Text → Option Text
unfolding run_of
token_here s =
    let (letters, behind) = run_of is_letter s in
    let (tail, _) = run_of is_token_byte behind in
    if starts_with is_digit behind then some (letters ++ tail) else none

-- FindAllString of versionToken, behind the next `n` bytes, which are of the last match.
unfoldable pub tokens_behind : ℕ → Text → List Text
tokens_behind n [] = []
tokens_behind (suc n) (c ∷ s) = tokens_behind n s
tokens_behind zero (c ∷ s) =
    let next = tokens_behind zero s in
    elim (token_here (c ∷ s)) [
      | none ↦ next
      | some token ↦ token ∷ tokens_behind (length token - 1) s
    ]

unfoldable pub version_tokens : Text → List Text
version_tokens text = tokens_behind 0 text

-- FindString of versionToken, where no match is the empty text.
unfoldable pub first_token : List Text → Text
first_token [] = []
first_token (token ∷ tokens) = token

-- matches[len(matches)-1], where there is one.
unfoldable pub last_token : List Text → Text
last_token [] = []
last_token (token ∷ []) = token
last_token (token ∷ next ∷ tokens) = last_token (next ∷ tokens)

pub data Operator : Type 0 where
  less less_equal greater greater_equal equal not_equal : Operator

-- (<=|>=|==|<|>|=), and what is behind it. A value does not start with =, so that a shorter operator
-- is not tried.
unfoldable pub operator_here : Text → Option (Operator × Text)
operator_here (c ∷ d ∷ s) =
    if d == b'='
    then if c == b'<'
      then some (less_equal, s)
      else if c == b'>'
      then some (greater_equal, s)
      else if c == b'='
      then some (equal, s)
      else none
    else if c == b'<'
    then some (less, d ∷ s)
    else if c == b'>'
    then some (greater, d ∷ s)
    else if c == b'='
    then some (equal, d ∷ s)
    else none
operator_here s = none

-- The value of operatorPair: all bytes of a token that are here, the first of them a letter or a
-- digit, and one of them a digit.
unfoldable pub value_here : Text → Option Text
unfolding run_of has_digit
value_here s =
    let (run, _) = run_of is_token_byte s in
    if starts_with is_digit run || (starts_with is_letter run && has_digit run)
    then some run
    else none

-- operatorPair where a match starts here, and how many bytes of it are behind the first.
unfoldable pub pair_here : Text → Option ((Operator × Text) × ℕ)
unfolding operator_here value_here run_of is_space
pair_here s = elim (operator_here s) [
  | none ↦ none
  | some (op, behind) ↦
      let (_, at_value) = run_of is_space behind in
      elim (value_here at_value) [
        | none ↦ none
        | some value ↦ some ((op, value), length s - length at_value + length value - 1)
      ]
]

-- FindAllStringSubmatch of operatorPair, as `tokens_behind` does it.
unfoldable pub pairs_behind : ℕ → Text → List (Operator × Text)
pairs_behind n [] = []
pairs_behind (suc n) (c ∷ s) = pairs_behind n s
pairs_behind zero (c ∷ s) =
    let next = pairs_behind zero s in
    elim (pair_here (c ∷ s)) [ none ↦ next | some (pair, taken) ↦ pair ∷ pairs_behind taken s ]

unfoldable pub operator_pairs : Text → List (Operator × Text)
operator_pairs text = pairs_behind 0 text
