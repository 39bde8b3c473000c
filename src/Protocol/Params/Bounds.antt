-- ===== src/Protocol/Params/Bounds.antt =====
-- What the parameters of a builder are bounded by.
use otscout.Prelude.{ℕ, ◌≤◌, ◌≡◌, some, [], ◌∷◌, arith, codes, length, Text, inl, inr, Option-cases}
use otscout.Prelude.Int.{ℤ, pos, negsuc}
use otscout.Normalize.Version.{trim_space}
use otscout.Protocol.Octets.{Octets}
use otscout.Protocol.Params.{
  Params, number, within, lookup, parse_int, sender_context, decode_hex, no_spaces, eight,
}

within-le : (name : Text) (max : ℕ) (z : ℤ) (n : ℕ) → within name max z ≡ inr n → n ≤ max
unfolding within
within-le name max (pos m) n h = ground arith
within-le name max (negsuc m) n h = ground arith

-- A parameter that is read as a number fits its field, where the value that stands in for a missing
-- one does.
pub number-le :
    (p : Params) (name : Text) (fallback max n : ℕ)
    → fallback ≤ max
    → number p name fallback max ≡ inr n
    → n ≤ max
unfolding number
number-le p name fallback max n f h = elim (Option-cases (lookup name p)) [
  | inl missing ↦ ground arith
  | inr (raw, found) ↦ elim (Option-cases (parse_int (trim_space raw))) [
    | inl bad ↦ ground arith
    | inr (z, good) ↦ ground (arith, within-le name max z n)
  ]
]

decode_hex-Octets : (s bytes : Text) → decode_hex s ≡ some bytes → Octets bytes
unfolding decode_hex
decode_hex-Octets [] bytes h = ground arith
decode_hex-Octets (c ∷ []) bytes h = ground arith
decode_hex-Octets (c ∷ d ∷ s) bytes h = elim (Option-cases (decode_hex s)) [
  | inl bad ↦ ground arith
  | inr (rest, good) ↦ ground (arith, decode_hex-Octets s rest good)
]

eight-inr :
    (bytes context : Text) → eight bytes ≡ inr context → (context ≡ bytes) × (length context ≡ 8)
unfolding eight
eight-inr bytes context h = ground arith

pub sender_context-Octets :
    (p : Params) (context : Text)
    → sender_context p ≡ inr context
    → Octets context × (length context ≡ 8)
unfolding sender_context
sender_context-Octets p context h = elim (Option-cases (lookup (codes "sender_context") p)) [
  | inl missing ↦ ground arith
  | inr (raw, found) ↦ elim (Option-cases (decode_hex (no_spaces (trim_space raw)))) [
    | inl bad ↦ ground arith
    | inr (bytes, good) ↦
        ground (
          arith,
          eight-inr bytes context,
          decode_hex-Octets (no_spaces (trim_space raw)) bytes good,
        )
  ]
]
