-- ===== src/Protocol/Observation.antt =====
-- What a decoder recovers from a response (internal/protocol/protocol.go). An error and a note are
-- the reason that their text gives.
use otscout.Prelude.{
  ℕ, zero, suc, ◌+◌, ◌-◌, ◌/◌, ◌%◌, List, [], ◌∷◌, ◌++◌, is_empty, if◌then◌else◌, Text, text_eq,
  ltb,
}
use otscout.Asset.Identity.{Identity, no_identity}

pub data DecodeError : Type 0 where
  not_this_protocol truncated : DecodeError
  -- the protocol, the code and what it means
  device_error : Text → ℕ → Text → DecodeError

pub data Note : Type 0 where
  -- the function that was refused and the exception
  refused : ℕ → ℕ → Note
  no_identification : ℕ → Note
  more_objects : ℕ → Note
  -- after so many of so many
  list_ended : ℕ → ℕ → Note
  no_length : ℕ → Note
  -- the object or item, and its length
  frame_ended : ℕ → ℕ → Note
  no_objects : Note
  -- the command and its name
  no_identity_data : ℕ → Text → Note
  no_items : Note
  not_identity : ℕ → Note
  -- the item and why
  unreadable : ℕ → DecodeError → Note
  unknown_vendor : ℕ → Note

pub record Observation : Type 0 where
  pub protocol : Text
  pub fields : List (Text × Text)
  pub identity : Identity
  pub notes : List Note
  -- empty where the protocol does not say
  pub role : Text

abbrev pub new_observation : Text → Observation
new_observation protocol = record {
  protocol = protocol;
  fields = [];
  identity = no_identity;
  notes = [];
  role = [];
}

-- o.Fields[key] = value
unfoldable pub put : Text → Text → List (Text × Text) → List (Text × Text)
put key value [] = (key, value) ∷ []
put key value ((k, v) ∷ m) = if text_eq k key then (k, value) ∷ m else (k, v) ∷ put key value m

-- Observation.set
unfoldable pub set : Text → Text → Observation → Observation
set key value o = if is_empty value then o else record o { fields = put key value o.fields }

-- Observation.note
abbrev pub note : Note → Observation → Observation
note n o = record o { notes = o.notes ++ n ∷ [] }

-- A hexadecimal digit, in lower case.
abbrev pub hex_digit : ℕ → ℕ
hex_digit d = if ltb d 10 then b'0' + d else b'a' + d - 10

-- fmt.Sprintf("0x%02x", n) of a byte
abbrev pub hex_byte : ℕ → Text
hex_byte n = b'0' ∷ b'x' ∷ hex_digit (n / 16) ∷ hex_digit (n % 16) ∷ []

-- A hexadecimal digit, in upper case.
abbrev pub hex_upper : ℕ → ℕ
hex_upper d = if ltb d 10 then b'0' + d else b'A' + d - 10

-- The last digits of a number, each written by `digit`.
unfoldable pub hex_fixed : (ℕ → ℕ) → ℕ → ℕ → Text
hex_fixed digit zero n = []
hex_fixed digit (suc width) n = hex_fixed digit width (n / 16) ++ digit (n % 16) ∷ []

-- fmt.Sprintf("0x%04x", n) and so on, of a number that has no more digits
abbrev pub hex_prefixed : ℕ → ℕ → Text
hex_prefixed width n = b'0' ∷ b'x' ∷ hex_fixed hex_digit width n
