-- ===== src/Asset/Addresses.antt =====
-- A device of the inventory, its addresses, its services and what was observed of it
-- (internal/asset/asset.go). A time is a number, and time.Time{} is 0.
use otscout.Protocol.Reader.{join}
use otscout.Prelude.{ℕ, Text, if◌then◌else◌, List, not, is_empty, ◌∷◌, [], ◌++◌, codes}
use otscout.Asset.Identity.{Identity}

pub record Addresses : Type 0 where
  pub ipv4 : Text
  pub ipv6 : Text
  pub mac : Text
  pub hostname : Text

-- Addresses.Primary
unfoldable pub primary : Addresses → Text
primary a =
    if not (is_empty a.ipv4)
    then a.ipv4
    else if not (is_empty a.ipv6)
    then a.ipv6
    else if not (is_empty a.mac)
    then a.mac
    else a.hostname

abbrev pub Time : Type 0
Time = ℕ

pub record Service : Type 0 where
  pub port : ℕ
  pub transport : Text
  pub protocol : Text
  pub banner : Text
  pub first_seen : Time
  pub last_seen : Time
  pub source : Text

pub record Evidence : Type 0 where
  pub id : Text
  pub source : Text
  pub protocol : Text
  pub template_id : Text
  pub endpoint : Text
  pub timestamp : Time
  pub request : List ℕ
  pub response : List ℕ
  pub fields : List (Text × Text)
  pub notes : List Text

pub record Asset : Type 0 where
  pub id : Text
  pub addresses : Addresses
  pub identity : Identity
  pub purdue : Text
  pub role : Text
  pub services : List Service
  pub evidence : List Evidence
  pub tags : List Text
  pub first_seen : Time
  pub last_seen : Time
  pub sources : List Text

-- The parts of Identity.Label.
abbrev pub maker_part : Identity → List Text
maker_part i =
    if not (is_empty i.vendor)
    then i.vendor ∷ []
    else if not (is_empty i.vendor_raw)
    then i.vendor_raw ∷ []
    else []

abbrev pub product_part : Identity → List Text
product_part i =
    if not (is_empty i.product)
    then i.product ∷ []
    else if not (is_empty i.product_raw)
    then i.product_raw ∷ []
    else if not (is_empty i.family)
    then i.family ∷ []
    else []

unfoldable pub identity_label : Identity → Text
identity_label i =
    let version = if is_empty i.firmware then [] else i.firmware ∷ [] in
    let parts = maker_part i ++ product_part i ++ version in
    if is_empty parts then codes "unknown" else join parts
