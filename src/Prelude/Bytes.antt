-- ===== src/Prelude/Bytes.antt =====
-- Go strings and byte slices as lists of bytes, with the functions of package strings that the
-- program calls. Letters outside ASCII are left as they are by the case folding.
use Prim.Native.Char.{code}
use Prim.Native.Nat.{ℕ, zero, suc, ◌+◌, ◌<◌}
use Prim.Native.String.{String}
use mathlib.Core.Path.{◌≡◌, refl}
use mathlib.Core.Logic.{◌↔◌}
use mathlib.Core.Bool.{Bool, true, false, ◌&&◌, ◌||◌}
use mathlib.Core.List.{List, [], ◌∷◌, map}
use native.Mathlib.Omega.{arith}
use otscout.Prelude.Tests.{leb, ◌==◌, if◌then◌else◌}
use otscout.Prelude.Lists.{is_empty}

abbrev pub Text : Type 0
Text = List ℕ

-- The bytes of a literal, all of which are ASCII here.
abbrev pub codes : String → Text
codes String.[] = []
codes (String.◌∷◌ c s) = code c ∷ codes s

-- s == t
unfoldable pub text_eq : Text → Text → Bool
text_eq [] [] = true
text_eq (x ∷ xs) (y ∷ ys) = x == y && text_eq xs ys
text_eq _ _ = false

pub text_eq_iff : (s t : Text) → (text_eq s t ≡ true) ↔ (s ≡ t)
unfolding text_eq
text_eq_iff (x ∷ s) (y ∷ t) = ground (arith, text_eq_iff s t)
text_eq_iff _ _ = ground arith

pub text_eq_refl : (s : Text) → text_eq s s ≡ true
text_eq_refl s = (text_eq_iff s s).1 refl

unfoldable pub lower : ℕ → ℕ
lower c = if leb b'A' c && leb c b'Z' then c + 32 else c

-- strings.ToLower
unfoldable pub to_lower : Text → Text
unfolding lower
to_lower s = map lower s

-- strings.EqualFold
unfoldable pub equal_fold : Text → Text → Bool
unfolding to_lower text_eq
equal_fold s t = text_eq (to_lower s) (to_lower t)

-- strings.HasPrefix
unfoldable pub has_prefix : Text → Text → Bool
has_prefix s [] = true
has_prefix [] (_ ∷ _) = false
has_prefix (x ∷ s) (y ∷ t) = x == y && has_prefix s t

-- strings.Contains
unfoldable pub contains : Text → Text → Bool
unfolding has_prefix
contains [] t = is_empty t
contains (x ∷ s) t = has_prefix (x ∷ s) t || contains s t

-- unicode.IsSpace of a byte of ASCII
unfoldable pub is_space : ℕ → Bool
is_space c = c == b' ' || leb b'\t' c && leb c b'\r'

-- The white space of Unicode that takes three bytes: U+1680, U+2000 to U+200A, U+2028, U+2029,
-- U+202F, U+205F and U+3000.
unfoldable pub is_wide_space : ℕ → ℕ → ℕ → Bool
is_wide_space c d e =
    c == 0xE1 && d == 0x9A && e == 0x80
    || c == 0xE2 && d == 0x80 && (leb 0x80 e && leb e 0x8A || e == 0xA8 || e == 0xA9 || e == 0xAF)
    || c == 0xE2 && d == 0x81 && e == 0x9F
    || c == 0xE3 && d == 0x80 && e == 0x80

-- How many bytes a white space takes that stands at the front of a text of UTF-8; 0 where there is
-- none. Those of two bytes are U+0085 and U+00A0.
unfoldable pub space_width : Text → ℕ
unfolding is_space is_wide_space
space_width [] = 0
space_width (c ∷ []) = if is_space c then 1 else 0
space_width (c ∷ d ∷ []) =
    if is_space c then 1 else if c == 0xC2 && (d == 0x85 || d == 0xA0) then 2 else 0
space_width (c ∷ d ∷ e ∷ s) =
    if is_space c
    then 1
    else if c == 0xC2 && (d == 0x85 || d == 0xA0)
    then 2
    else if is_wide_space c d e
    then 3
    else 0

space_width-narrow : (c : ℕ) (s : Text) → is_space c ≡ false → c < 128 → space_width (c ∷ s) ≡ 0
unfolding space_width is_wide_space
space_width-narrow c [] h k = ground arith
space_width-narrow c (d ∷ []) h k = ground arith
space_width-narrow c (d ∷ e ∷ s) h k = ground arith

-- A text behind n bytes of a white space, and behind all that follows it.
unfoldable pub drop_blank : ℕ → Text → Text
drop_blank n [] = []
drop_blank (suc n) (c ∷ s) = drop_blank n s
drop_blank zero (c ∷ s) = elim (space_width (c ∷ s)) [ zero ↦ c ∷ s | suc n ↦ drop_blank n s ]

pub drop_blank-narrow :
    (c : ℕ) (s : Text) → is_space c ≡ false → c < 128 → drop_blank 0 (c ∷ s) ≡ c ∷ s
unfolding drop_blank
drop_blank-narrow c s h k = ground (arith, space_width-narrow c s h k)

-- strings.TrimSpace(s) == ""
unfoldable pub is_blank : Text → Bool
unfolding drop_blank
is_blank s = is_empty (drop_blank 0 s)

-- strings.IndexByte(s, c) >= 0
unfoldable pub has_byte : ℕ → Text → Bool
has_byte c [] = false
has_byte c (x ∷ s) = x == c || has_byte c s
