-- ===== src/Protocol/Decoding.antt =====
-- What the decoders of internal/protocol share: an observation beside an error, and a read that
-- ends the decoder where it fails.
pub mod Showable
use otscout.Prelude.{Option, none, some}
use otscout.Protocol.Observation.{Observation, DecodeError}
use otscout.Protocol.Reader.{Reader}

-- The observation and the error that a decoder returns.
abbrev pub Decoded : Type 0
Decoded = Observation × Option DecodeError

-- v, ok := ...; if !ok { return obs, err }
unfoldable pub read_or :
    {A : Type 0}
    → Option (A × Reader)
    → DecodeError
    → Observation
    → (A → Reader → Decoded)
    → Decoded
read_or none e obs f = (obs, some e)
read_or (some (a, r)) e obs f = f a r
