-- ===== src/Protocol/Decoding/Showable.antt =====
-- Decoders whose identities can be shown.
use otscout.Prelude.{◌≡◌, Bool, true, false, Option, none, some, arith, if◌then◌else◌, Text}
use otscout.Asset.Identity.{Identity}
use otscout.Protocol.Decoding.{Decoded, read_or}
use otscout.Protocol.Observation.{DecodeError, Observation, set}
use otscout.Protocol.Reader.{Reader}
use otscout.Protocol.Reader.Printable.{Printable}

-- Every text of an identity is printable ASCII.
pub record IsShowable (i : Identity) : Type 0 where
  pub vendor : Printable i.vendor
  pub vendor_raw : Printable i.vendor_raw
  pub product : Printable i.product
  pub product_raw : Printable i.product_raw
  pub family : Printable i.family
  pub model : Printable i.model
  pub catalog_number : Printable i.catalog_number
  pub firmware : Printable i.firmware
  pub firmware_raw : Printable i.firmware_raw
  pub hardware_rev : Printable i.hardware_rev
  pub serial : Printable i.serial

pub set-identity : (k v : Text) (o : Observation) → (set k v o).identity ≡ o.identity
unfolding set
set-identity k v o = ground arith

pub set-IsShowable :
    (k v : Text) (o : Observation) → IsShowable o.identity → IsShowable (set k v o).identity
set-IsShowable k v o h = rw set-identity h

-- The same of what a decoder returns.
pub record Fine (d : Decoded) : Type 0 where
  pub shown : IsShowable d.0.identity

pub read_or-Fine :
    {A : Type 0} (x : Option (A × Reader)) (e : DecodeError) (obs : Observation)
    (f : A → Reader → Decoded)
    → IsShowable obs.identity
    → ((a : A) (r : Reader) → Fine (f a r))
    → Fine (read_or x e obs f)
unfolding read_or
read_or-Fine none e obs f h k = record { shown = h }
read_or-Fine (some (a, r)) e obs f h k = k a r

pub if-Fine : (b : Bool) (c d : Decoded) → Fine c → Fine d → Fine (if b then c else d)
if-Fine true c d h k = h
if-Fine false c d h k = k
