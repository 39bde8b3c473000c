-- ===== src/Protocol/Reader.antt =====
-- The cursor that every decoder reads through, and the texts that a device sends
-- (internal/protocol/bytes.go).
pub mod Printable
use otscout.Prelude.{
  ℕ, ◌+◌, ◌-◌, ◌*◌, Bool, true, false, ◌&&◌, Option, none, some, List, [], ◌∷◌, ◌++◌, length, take,
  drop, get_or, if◌then◌else◌, Text, ltb, leb, ◌==◌, space_width, zero, suc,
}

pub record Reader : Type 0 where
  pub buf : Text
  pub pos : ℕ

abbrev pub new_reader : Text → Reader
new_reader buf = record { buf = buf; pos = 0 }

abbrev pub remaining : Reader → ℕ
remaining r = length r.buf - r.pos

abbrev pub has : ℕ → Reader → Bool
has n r = leb n (remaining r)

-- The byte so far behind the position.
abbrev pub ahead : ℕ → Reader → ℕ
ahead i r = get_or r.buf (r.pos + i) 0

-- r.pos += n
abbrev pub advance : ℕ → Reader → Reader
advance n r = record r { pos = r.pos + n }

unfoldable pub u8 : Reader → Option (ℕ × Reader)
u8 r = if has 1 r then some (ahead 0 r, advance 1 r) else none

unfoldable pub u16_be : Reader → Option (ℕ × Reader)
u16_be r = if has 2 r then some (ahead 0 r * 256 + ahead 1 r, advance 2 r) else none

unfoldable pub u16_le : Reader → Option (ℕ × Reader)
u16_le r = if has 2 r then some (ahead 1 r * 256 + ahead 0 r, advance 2 r) else none

unfoldable pub u32_le : Reader → Option (ℕ × Reader)
u32_le r =
    if has 4 r
    then some (((ahead 3 r * 256 + ahead 2 r) * 256 + ahead 1 r) * 256 + ahead 0 r, advance 4 r)
    else none

unfoldable pub u32_be : Reader → Option (ℕ × Reader)
u32_be r =
    if has 4 r
    then some (((ahead 0 r * 256 + ahead 1 r) * 256 + ahead 2 r) * 256 + ahead 3 r, advance 4 r)
    else none

-- The number is one that was read, so that it is not negative.
unfoldable pub bytes : ℕ → Reader → Option (Text × Reader)
bytes n r = if has n r then some (take n (drop r.pos r.buf), advance n r) else none

unfoldable pub skip : ℕ → Reader → Option Reader
skip n r = if has n r then some (advance n r) else none

unfoldable pub peek : Reader → Option ℕ
peek r = if has 1 r then some (ahead 0 r) else none

-- The loop of cleanASCII.
unfoldable pub visible : Text → Text
visible [] = []
visible (b ∷ raw) =
    let rest = visible raw in
    if b == 0 then rest else if leb 0x20 b && ltb b 0x7F then b ∷ rest else b' ' ∷ rest

abbrev pub cons_word : Text → List Text → List Text
cons_word [] ws = ws
cons_word (c ∷ w) ws = (c ∷ w) ∷ ws

-- Behind n bytes of a white space: the word at the front, which is empty in front of white space,
-- and the words behind it.
unfoldable pub split_words : ℕ → Text → Text × List Text
split_words n [] = ([], [])
split_words (suc n) (c ∷ s) = split_words n s
split_words zero (c ∷ s) = elim (space_width (c ∷ s)) [
  | zero ↦ let (w, ws) = split_words zero s in (c ∷ w, ws)
  | suc n ↦ let (w, ws) = split_words n s in ([], cons_word w ws)
]

-- strings.Fields
unfoldable pub fields : Text → List Text
unfolding split_words
fields s = let (w, ws) = split_words 0 s in cons_word w ws

-- strings.Join with a space
unfoldable pub join : List Text → Text
join [] = []
join (w ∷ []) = w
join (w ∷ v ∷ ws) = w ++ b' ' ∷ join (v ∷ ws)

-- cleanASCII
unfoldable pub clean_ascii : Text → Text
unfolding visible fields join
clean_ascii raw = join (fields (visible raw))

-- The loop of looksPrintable.
unfoldable pub count_printable : Text → ℕ
count_printable [] = 0
count_printable (b ∷ raw) =
    let rest = count_printable raw in if leb 0x20 b && ltb b 0x7F then rest + 1 else rest

-- looksPrintable
unfoldable pub looks_printable : Text → Bool
unfolding count_printable
looks_printable [] = false
looks_printable (b ∷ raw) = leb (length (b ∷ raw)) (count_printable (b ∷ raw) * 2)
