-- ===== src/Prelude/Address.antt =====
-- Whether net.ParseIP of the standard library reads a text: dotted decimal IPv4, or IPv6 with an
-- ellipsis and an embedded IPv4 tail. A zone is refused.
use Prim.Native.Nat.{ℕ, zero, suc, ◌+◌, ◌-◌, ◌*◌}
use mathlib.Core.Bool.{Bool, true, false, not, ◌&&◌, ◌||◌}
use mathlib.Core.Option.{Option, none, some}
use mathlib.Core.List.{[], ◌∷◌}
use otscout.Prelude.Tests.{ltb, leb, ◌==◌, if◌then◌else◌}
use otscout.Prelude.Lists.{is_empty}
use otscout.Prelude.Bytes.{Text}

is_digit : ℕ → Bool
is_digit c = leb b'0' c && leb c b'9'

-- One octet of at most three digits with no leading zero, as the value so far and the digits read.
octets : ℕ → ℕ → ℕ → Text → Bool
unfolding is_digit
octets dots value digits [] = dots == 3 && not (digits == 0)
octets dots value digits (c ∷ s) =
    let next = octets (dots + 1) 0 0 s in
    let more = octets dots (value * 10 + (c - b'0')) (digits + 1) s in
    if c == b'.'
    then (not (digits == 0) && ltb dots 3) && next
    else (is_digit c && not (digits == 1 && value == 0) && leb (value * 10 + (c - b'0')) 255)
      && more

parse_ipv4 : Text → Bool
unfolding octets
parse_ipv4 s = octets 0 0 0 s

is_hex : ℕ → Bool
unfolding is_digit
is_hex c = is_digit c || leb b'a' c && leb c b'f' || leb b'A' c && leb c b'F'

-- The digits of a group and what follows them.
hex_run : Text → ℕ × Text
unfolding is_hex
hex_run [] = (0, [])
hex_run (c ∷ s) = let (n, rest) = hex_run s in if is_hex c then (n + 1, rest) else (0, c ∷ s)

-- The groups from the one whose bytes begin at `i`. The fuel is the number of groups and one more.
groups : ℕ → ℕ → Bool → Text → Bool
groups zero i ellipsis s = false
groups (suc fuel) i ellipsis s =
    let (n, rest) = hex_run s in
    elim rest [
      | [] ↦
          leb 1 n
          && leb n 4
          && leb (i + 2) 16
          && (i + 2 == 16 || ellipsis)
          && not (i + 2 == 16 && ellipsis)
      | c ∷ t ↦
          if not (leb 1 n && leb n 4 && leb (i + 2) 16)
          then false
          else if c == b'.'
          then parse_ipv4 s && leb (i + 4) 16 && (if ellipsis then ltb (i + 4) 16 else i == 12)
          else if not (c == b':')
          then false
          else elim t [
            | [] ↦ false
            | d ∷ u ↦
                let after = groups fuel (i + 2) ellipsis (d ∷ u) in
                let skipped = groups fuel (i + 2) true u in
                if not (d == b':')
                then ltb (i + 2) 16 && after
                else not ellipsis && ltb (i + 2) 16 && (is_empty u || skipped)
          ]
    ]

parse_ipv6 : Text → Bool
unfolding groups hex_run parse_ipv4
parse_ipv6 [] = false
parse_ipv6 (c ∷ []) = false
parse_ipv6 (c ∷ d ∷ s) =
    if c == b':' && d == b':' then is_empty s || groups 9 0 true s else groups 9 0 false (c ∷ d ∷ s)

-- The first '.' or ':' tells which of the two it is.
first_mark : Text → Option ℕ
first_mark [] = none
first_mark (c ∷ s) = let rest = first_mark s in if c == b'.' || c == b':' then some c else rest

unfoldable pub parse_ip : Text → Bool
unfolding first_mark parse_ipv4 parse_ipv6
parse_ip s = elim (first_mark s) [
  | none ↦ false
  | some c ↦ if c == b'.' then parse_ipv4 s else parse_ipv6 s
]
