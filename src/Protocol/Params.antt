-- ===== src/Protocol/Params.antt =====
-- The parameters of a request builder (Params of internal/protocol/registry.go), with what
-- strconv.ParseInt and hex.DecodeString make of their texts.
pub mod Bounds
use otscout.Prelude.{
  ℕ, zero, suc, ◌+◌, ◌*◌, ◌-◌, ◌^◌, ltb, leb, ◌==◌, Bool, true, false, not, ◌&&◌, ◌||◌, Option,
  none, some, List, [], ◌∷◌, codes, length, is_empty, if◌then◌else◌, Text, text_eq, lower, ◌⊎◌, inl,
  inr,
}
use otscout.Prelude.Int.{ℤ, pos, negsuc}
use otscout.Normalize.Version.{trim_space}

abbrev pub Params : Type 0
Params = List (Text × Text)

pub data BuildError : Type 0 where
  no_builder : BuildError
  -- the parameter that is not a number, is out of range, or is not in hexadecimal
  not_a_number : Text → BuildError
  out_of_range : Text → BuildError
  not_hex : BuildError
  -- the bytes that the context has
  wrong_length : ℕ → BuildError

-- p[name]
unfoldable pub lookup : Text → Params → Option Text
lookup name [] = none
lookup name ((k, v) ∷ p) = if text_eq k name then some v else lookup name p

-- The value of a digit, which is 36 and more where the byte is none.
unfoldable pub digit_value : ℕ → ℕ
digit_value c =
    if leb b'0' c && leb c b'9'
    then c - b'0'
    else if leb b'a' (lower c) && leb (lower c) b'z'
    then lower c - b'a' + 10
    else 36

-- The digits behind the base prefix: an underscore stands between two digits, or between the
-- prefix and a digit. `after` says whether one of these is right in front.
unfoldable pub digits_of : ℕ → Bool → ℕ → Text → Option ℕ
digits_of base after n [] = if after then some n else none
digits_of base after n (c ∷ s) =
    let more = digits_of base true (n * base + digit_value c) s in
    let behind = digits_of base false n s in
    if c == b'_'
    then if after then behind else none
    else if ltb (digit_value c) base
    then more
    else none

-- strconv.ParseUint with base 0, where the base is read off the prefix.
unfoldable pub parse_uint : Text → Option ℕ
parse_uint [] = none
parse_uint (c ∷ []) = digits_of 10 false 0 (c ∷ [])
parse_uint (c ∷ d ∷ []) =
    if c == b'0' then digits_of 8 true 0 (d ∷ []) else digits_of 10 false 0 (c ∷ d ∷ [])
parse_uint (c ∷ d ∷ e ∷ s) =
    if c == b'0'
    then (if lower d == b'b'
        then digits_of 2 true 0 (e ∷ s)
        else if lower d == b'o'
        then digits_of 8 true 0 (e ∷ s)
        else if lower d == b'x'
        then digits_of 16 true 0 (e ∷ s)
        else digits_of 8 true 0 (d ∷ e ∷ s))
    else digits_of 10 false 0 (c ∷ d ∷ e ∷ s)

abbrev signed : Bool → Option ℕ → Option ℤ
signed minus none = none
signed true (some zero) = some (pos 0)
signed true (some (suc n)) = if ltb n (2 ^ 31) then some (negsuc n) else none
signed false (some n) = if ltb n (2 ^ 31) then some (pos n) else none

-- strconv.ParseInt(s, 0, 32)
unfoldable pub parse_int : Text → Option ℤ
parse_int [] = none
parse_int (c ∷ s) =
    if c == b'+'
    then signed false (parse_uint s)
    else if c == b'-'
    then signed true (parse_uint s)
    else signed false (parse_uint (c ∷ s))

-- A value within 0 and `max`.
unfoldable pub within : Text → ℕ → ℤ → BuildError ⊎ ℕ
within name max (negsuc n) = inl (out_of_range name)
within name max (pos n) = if ltb max n then inl (out_of_range name) else inr n

-- Params.number
unfoldable pub number : Params → Text → ℕ → ℕ → BuildError ⊎ ℕ
unfolding within
number p name fallback max = elim (lookup name p) [
  | none ↦ inr fallback
  | some raw ↦ elim (parse_int (trim_space raw)) [
    | none ↦ inl (not_a_number name)
    | some value ↦ within name max value
  ]
]

-- strings.ReplaceAll(s, " ", "")
unfoldable pub no_spaces : Text → Text
no_spaces [] = []
no_spaces (c ∷ s) = let rest = no_spaces s in if c == b' ' then rest else c ∷ rest

-- hex.DecodeString
unfoldable pub decode_hex : Text → Option Text
decode_hex [] = some []
decode_hex (c ∷ []) = none
decode_hex (c ∷ d ∷ s) =
    let rest = decode_hex s in
    if ltb (digit_value c) 16 && ltb (digit_value d) 16
    then (elim rest [
      | none ↦ none
      | some bytes ↦ some ((digit_value c * 16 + digit_value d) ∷ bytes)
    ])
    else none

-- Eight bytes, or the error that says how many there are.
unfoldable pub eight : Text → BuildError ⊎ Text
eight bytes = if length bytes == 8 then inr bytes else inl (wrong_length (length bytes))

-- Params.senderContext
unfoldable pub sender_context : Params → BuildError ⊎ Text
unfolding eight
sender_context p = elim (lookup (codes "sender_context") p) [
  | none ↦ inr (0 ∷ 0 ∷ 0 ∷ 0 ∷ 0 ∷ 0 ∷ 0 ∷ 0 ∷ [])
  | some raw ↦ elim (decode_hex (no_spaces (trim_space raw))) [
    | none ↦ inl not_hex
    | some decoded ↦ eight decoded
  ]
]
