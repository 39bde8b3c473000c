-- ===== src/Normalize/Version.antt =====
-- Firmware versions as tokens, and the generic comparator (internal/normalize/version.go). The
-- results -1, 0 and 1 of a comparison are an Ordering, and `none` is a result that is not ok.
pub mod Order
pub mod Fuel
use Prim.Native.Nat.{compare, Ordering}
use otscout.Prelude.{
  ℕ, zero, suc, ◌+◌, ◌*◌, ◌-◌, ◌^◌, Bool, true, false, ◌&&◌, ◌||◌, Option, none, some, List, [],
  ◌∷◌, codes, length, drop, is_empty, if◌then◌else◌, Text, text_eq, to_lower, has_prefix, is_blank,
  drop_blank, ltb, leb,
}

pub data Token : Type 0 where
  number : ℕ → Token
  alpha : Text → Token

abbrev pub is_digit : ℕ → Bool
is_digit c = leb b'0' c && leb c b'9'

abbrev pub is_letter : ℕ → Bool
is_letter c = leb b'a' c && leb c b'z'

-- strings.TrimSpace cuts the white space of Unicode at both ends.
unfoldable pub trim_left : Text → Text
unfolding drop_blank
trim_left s = drop_blank 0 s

unfoldable pub trim_right : Text → Text
unfolding is_blank
trim_right [] = []
trim_right (c ∷ s) = let rest = trim_right s in if is_blank (c ∷ s) then [] else c ∷ rest

unfoldable pub trim_space : Text → Text
unfolding trim_left trim_right
trim_space s = trim_right (trim_left s)

-- strings.TrimPrefix
abbrev pub trim_prefix : Text → Text → Text
trim_prefix s p = if has_prefix s p then drop (length p) s else s

-- The prefix v is dropped in front of a digit.
unfoldable pub drop_v : Text → Text
drop_v (c ∷ d ∷ s) =
    if (ltb c b'v' || ltb b'v' c) then c ∷ d ∷ s else if is_digit d then d ∷ s else c ∷ d ∷ s
drop_v s = s

-- What the tokenizer walks over.
unfoldable pub prepare : Text → Text
prepare version =
    drop_v (trim_space (trim_prefix (trim_space (to_lower version)) (codes "version ")))

-- The longest run in front of which `p` holds of every byte, and what is behind it.
unfoldable pub run_of : (ℕ → Bool) → Text → Text × Text
run_of p [] = ([], [])
run_of p (c ∷ s) = let (run, rest) = run_of p s in if p c then (c ∷ run, rest) else ([], c ∷ s)

-- The value of a run of digits, behind the digits that make `n`.
unfoldable pub value_onto : ℕ → Text → ℕ
value_onto n [] = n
value_onto n (c ∷ s) = value_onto (n * 10 + (c - b'0')) s

-- strconv.Atoi of a run of digits, which an int of 64 bits must hold.
unfoldable pub atoi : Text → Option ℕ
unfolding value_onto
atoi s = let n = value_onto 0 s in if ltb n (2 ^ 63) then some n else none

-- How the loop of the tokenizer ends: for want of fuel, by the nil that it returns for a number that
-- is too long, or with its tokens.
pub data Scanned : Type 0 where
  wanting too_long : Scanned
  scanned : List Token → Scanned

abbrev pub cons_to : Token → Scanned → Scanned
cons_to t wanting = wanting
cons_to t too_long = too_long
cons_to t (scanned ts) = scanned (t ∷ ts)

-- The loop of the tokenizer. Every turn takes a byte or more, so that as much fuel as there are
-- bytes is enough.
unfoldable pub scan : ℕ → Text → Scanned
scan zero [] = scanned []
scan zero (_ ∷ _) = wanting
scan (suc fuel) [] = scanned []
scan (suc fuel) (c ∷ s) =
    let (digits, behind) = run_of is_digit (c ∷ s) in
    let (letters, after) = run_of is_letter (c ∷ s) in
    let numbers = scan fuel behind in
    let words = scan fuel after in
    let rest = scan fuel s in
    if is_digit c
    then (elim (atoi digits) [ none ↦ too_long | some n ↦ cons_to (number n) numbers ])
    else if is_letter c
    then cons_to (alpha letters) words
    else rest

-- A nil slice and an empty one have the same length, which is all that is asked of them.
abbrev pub or_nil : Scanned → List Token
or_nil wanting = []
or_nil too_long = []
or_nil (scanned ts) = ts

unfoldable pub tokenize_version : Text → List Token
tokenize_version version = let s = prepare version in or_nil (scan (length s) s)

-- strings.Compare
unfoldable pub text_compare : Text → Text → Ordering
text_compare [] [] = Ordering.eq
text_compare [] (_ ∷ _) = Ordering.lt
text_compare (_ ∷ _) [] = Ordering.gt
text_compare (x ∷ s) (y ∷ t) =
    let rest = text_compare s t in
    elim (compare x y) [
      | Ordering.lt ↦ Ordering.lt
      | Ordering.eq ↦ rest
      | Ordering.gt ↦ Ordering.gt
    ]

-- sign(a - b)
abbrev pub sign_of : ℕ → ℕ → Ordering
sign_of a b = compare a b

-- The body of the loop over the tokens that both have, where `later` is what the rest of it returns.
unfoldable pub compare_at : Token → Token → Option Ordering → Option Ordering
compare_at (number m) (number n) later = elim (sign_of m n) [
  | Ordering.lt ↦ some Ordering.lt
  | Ordering.eq ↦ later
  | Ordering.gt ↦ some Ordering.gt
]
compare_at (alpha s) (alpha t) later = if text_eq s t then later else some (text_compare s t)
compare_at (number m) (alpha t) later = none
compare_at (alpha s) (number n) later = none

-- That loop, and `ended` behind it.
unfoldable pub compare_loop : List Token → List Token → Ordering → Option Ordering
compare_loop [] b ended = some ended
compare_loop (x ∷ a) [] ended = some ended
compare_loop (x ∷ a) (y ∷ b) ended = compare_at x y (compare_loop a b ended)

unfoldable pub compare_tokens : List Token → List Token → Option Ordering
compare_tokens a b = compare_loop a b (sign_of (length a) (length b))

-- The comparison of the tokens of two versions, where both have some.
unfoldable pub compare_present : List Token → List Token → Option Ordering
compare_present [] b = none
compare_present (x ∷ a) [] = none
compare_present (x ∷ a) (y ∷ b) = compare_tokens (x ∷ a) (y ∷ b)

-- genericComparator.Compare
unfoldable pub generic_compare : Text → Text → Option Ordering
generic_compare a b = compare_present (tokenize_version a) (tokenize_version b)
