-- ===== src/Protocol/Octets.antt =====
-- Numbers as bytes, in either order (encoding/binary).
use otscout.Prelude.{ℕ, ◌/◌, ◌%◌, ◌<◌, [], ◌∷◌, All, Text}

-- byte(n)
abbrev pub byte : ℕ → ℕ
byte n = n % 256

-- binary.BigEndian.AppendUint16
abbrev pub u16_be : ℕ → Text
u16_be n = byte (n / 256) ∷ byte n ∷ []

-- binary.BigEndian.AppendUint32
abbrev pub u32_be : ℕ → Text
u32_be n = byte (n / 16777216) ∷ byte (n / 65536) ∷ byte (n / 256) ∷ byte n ∷ []

-- binary.LittleEndian.PutUint16
abbrev pub u16_le : ℕ → Text
u16_le n = byte n ∷ byte (n / 256) ∷ []

-- Every member is a byte.
abbrev pub Octets : Text → Type 0
Octets s = All (λ (b : ℕ). b < 256) s
