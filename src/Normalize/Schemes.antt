-- ===== src/Normalize/Schemes.antt =====
-- The comparators of the vendors whose versions follow a scheme of their own
-- (internal/normalize/version.go). A version that is not valid in a scheme is `none`.
pub mod Swap
pub mod Siemens
pub mod Abb
pub mod Rockwell
use Prim.Native.Nat.{compare, Ordering}
use otscout.Prelude.{
  ℕ, Bool, true, false, not, ◌&&◌, ◌||◌, Option, none, some, List, [], ◌∷◌, ◌++◌, codes, length,
  is_empty, if◌then◌else◌, Text, text_eq,
}
use otscout.Normalize.Version.{
  Token, number, alpha, tokenize_version, text_compare, sign_of, compare_tokens, generic_compare,
}

-- if x != y { return the order of x and y }
abbrev pub then_by : Ordering → Ordering → Ordering
then_by Ordering.lt later = Ordering.lt
then_by Ordering.eq later = later
then_by Ordering.gt later = Ordering.gt

pub record AbbVersion : Type 0 where
  pub release : ℕ
  pub rev : Text
  pub patch : ℕ
  pub has_pc : Bool

-- The optional r in front, and whether it is there.
unfoldable pub take_r : List Token → Bool × List Token
take_r (alpha s ∷ ts) = if text_eq s (codes "r") then (true, ts) else (false, alpha s ∷ ts)
take_r ts = (false, ts)

-- The revision, which is empty where there is none.
unfoldable pub take_rev : List Token → Text × List Token
take_rev (alpha s ∷ ts) = if text_eq s (codes "pc") then ([], alpha s ∷ ts) else (s, ts)
take_rev ts = ([], ts)

-- The number of the patch collection, and whether there is one.
unfoldable pub take_patch : List Token → (ℕ × Bool) × List Token
take_patch (alpha s ∷ number n ∷ ts) =
    if text_eq s (codes "pc") then ((n, true), ts) else ((0, false), alpha s ∷ number n ∷ ts)
take_patch ts = ((0, false), ts)

-- Behind the release.
unfoldable pub abb_behind : Bool → ℕ → List Token → Option AbbVersion
abb_behind saw_r release ts =
    let (rev, ts') = take_rev ts in
    let (pc, ts'') = take_patch ts' in
    if not (is_empty ts'') || (not saw_r && is_empty rev)
    then none
    else some (record { release = release; rev = rev; patch = pc.0; has_pc = pc.1 })

unfoldable pub abb_of : Bool → List Token → Option AbbVersion
abb_of saw_r (number n ∷ ts) = abb_behind saw_r n ts
abb_of saw_r _ = none

unfoldable pub parse_abb_version : Text → Option AbbVersion
parse_abb_version version = let (saw_r, ts) = take_r (tokenize_version version) in abb_of saw_r ts

unfoldable pub order_abb : AbbVersion → AbbVersion → Ordering
order_abb a b =
    then_by (sign_of a.release b.release)
      (if text_eq a.rev b.rev then sign_of a.patch b.patch else text_compare a.rev b.rev)

-- abbComparator.Compare
unfoldable pub abb_compare : Text → Text → Option Ordering
abb_compare a b = elim (parse_abb_version a) [
  | none ↦ generic_compare a b
  | some va ↦ elim (parse_abb_version b) [
    | none ↦ generic_compare a b
    | some vb ↦ some (order_abb va vb)
  ]
]

pub record SiemensVersion : Type 0 where
  pub parts : List ℕ
  pub sp : ℕ
  pub update : ℕ

-- The numbers in front, and what is behind them.
unfoldable pub take_numbers : List Token → List ℕ × List Token
take_numbers [] = ([], [])
take_numbers (alpha s ∷ ts) = ([], alpha s ∷ ts)
take_numbers (number n ∷ ts) = let (ns, rest) = take_numbers ts in (n ∷ ns, rest)

-- What a label with its value sets.
unfoldable pub set_counter : Text → ℕ → SiemensVersion → SiemensVersion
set_counter label value v =
    if text_eq label (codes "sp") || text_eq label (codes "servicepack")
    then record v { sp = value }
    else if text_eq label (codes "update") || text_eq label (codes "upd")
    then record v { update = value }
    else v

-- The loop over the labels; one without a number sets its counter to zero.
unfoldable pub read_counters : List Token → SiemensVersion → SiemensVersion
read_counters [] v = v
read_counters (number n ∷ ts) v = read_counters ts v
read_counters (alpha s ∷ number n ∷ ts) v = read_counters ts (set_counter s n v)
read_counters (alpha s ∷ []) v = set_counter s 0 v
read_counters (alpha s ∷ alpha t ∷ ts) v = read_counters (alpha t ∷ ts) (set_counter s 0 v)

unfoldable pub siemens_of : List Token → Option SiemensVersion
siemens_of ts =
    let (parts, rest) = take_numbers ts in
    if is_empty parts
    then none
    else some (read_counters rest (record { parts = parts; sp = 0; update = 0 }))

unfoldable pub parse_siemens_version : Text → Option SiemensVersion
parse_siemens_version version = siemens_of (tokenize_version version)

-- The loop over the parts that both have, and `later` behind it.
unfoldable pub order_parts : List ℕ → List ℕ → Ordering → Ordering
order_parts [] b later = later
order_parts (m ∷ a) [] later = later
order_parts (m ∷ a) (n ∷ b) later = then_by (sign_of m n) (order_parts a b later)

unfoldable pub order_siemens : SiemensVersion → SiemensVersion → Ordering
order_siemens a b = order_parts a.parts b.parts (
    then_by (sign_of (length a.parts) (length b.parts))
      (then_by (sign_of a.sp b.sp) (sign_of a.update b.update)))

-- siemensComparator.Compare
unfoldable pub siemens_compare : Text → Text → Option Ordering
siemens_compare a b = elim (parse_siemens_version a) [
  | none ↦ generic_compare a b
  | some va ↦ elim (parse_siemens_version b) [
    | none ↦ generic_compare a b
    | some vb ↦ some (order_siemens va vb)
  ]
]

unfoldable pub all_numbers : List Token → Bool
all_numbers [] = true
all_numbers (number n ∷ ts) = all_numbers ts
all_numbers (alpha s ∷ ts) = false

-- rockwellComparator.Compare
unfoldable pub rockwell_compare : Text → Text → Option Ordering
rockwell_compare a b =
    let ta = tokenize_version a in
    let tb = tokenize_version b in
    if is_empty ta || is_empty tb
    then none
    else if all_numbers (ta ++ tb)
    then compare_tokens ta tb
    else generic_compare a b

pub data Scheme : Type 0 where
  generic abb siemens rockwell : Scheme

-- ComparatorFor
unfoldable pub comparator_for : Text → Scheme
comparator_for s =
    if text_eq s (codes "abb")
    then abb
    else if text_eq s (codes "siemens")
    then siemens
    else if text_eq s (codes "rockwell")
    then rockwell
    else generic

-- The method Compare of a comparator.
unfoldable pub compare_versions : Scheme → Text → Text → Option Ordering
compare_versions generic a b = generic_compare a b
compare_versions abb a b = abb_compare a b
compare_versions siemens a b = siemens_compare a b
compare_versions rockwell a b = rockwell_compare a b
