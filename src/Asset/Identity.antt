-- ===== src/Asset/Identity.antt =====
-- What is known of a device (Identity of internal/asset/asset.go), and how two observations of
-- it are folded together.
pub mod Merge
use otscout.Prelude.{Bool, ◌&&◌, [], is_empty, if◌then◌else◌, Text}

pub record Identity : Type 0 where
  pub vendor : Text
  pub vendor_raw : Text
  pub product : Text
  pub product_raw : Text
  pub family : Text
  pub model : Text
  pub catalog_number : Text
  pub firmware : Text
  pub firmware_raw : Text
  pub hardware_rev : Text
  pub serial : Text

-- Identity{}
abbrev pub no_identity : Identity
no_identity = record {
  vendor = [];
  vendor_raw = [];
  product = [];
  product_raw = [];
  family = [];
  model = [];
  catalog_number = [];
  firmware = [];
  firmware_raw = [];
  hardware_rev = [];
  serial = [];
}

unfoldable pub empty : Identity → Bool
empty i =
    is_empty i.vendor
    && is_empty i.vendor_raw
    && is_empty i.product
    && is_empty i.product_raw
    && is_empty i.family
    && is_empty i.model
    && is_empty i.catalog_number
    && is_empty i.firmware
    && is_empty i.firmware_raw

unfoldable pub merge_string : Text → Text → Text
merge_string dst src = if is_empty dst then src else dst

unfoldable pub merge : Identity → Identity → Identity
merge i other = record {
  vendor = merge_string i.vendor other.vendor;
  vendor_raw = merge_string i.vendor_raw other.vendor_raw;
  product = merge_string i.product other.product;
  product_raw = merge_string i.product_raw other.product_raw;
  family = merge_string i.family other.family;
  model = merge_string i.model other.model;
  catalog_number = merge_string i.catalog_number other.catalog_number;
  firmware = merge_string i.firmware other.firmware;
  firmware_raw = merge_string i.firmware_raw other.firmware_raw;
  hardware_rev = merge_string i.hardware_rev other.hardware_rev;
  serial = merge_string i.serial other.serial;
}
