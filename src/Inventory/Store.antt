-- ===== src/Inventory/Store.antt =====
-- The inventory (internal/asset/inventory.go): the list of the devices, and the index of their
-- places. An asset that Go returns by a pointer is here the place of it in the list.
pub mod Found
use otscout.Asset.Addresses.{Addresses, Asset}
use otscout.Asset.Identity.{no_identity}
use otscout.Inventory.Device.{id_of_addresses, merge_asset}
use otscout.Match.Index.{nth}
use otscout.Prelude.{
  List, Text, ℕ, zero, suc, Bool, [], ◌∷◌, ◌++◌, ◌+◌, ◌&&◌, ◌||◌, not, if◌then◌else◌, is_empty,
  text_eq, length, Option, none, some,
}

pub record Inventory : Type 0 where
  pub assets : List Asset
  -- The map from the ids to the places, which is nil until it is asked for.
  pub index : Option (List (Text × ℕ))

-- inv.index[id]
unfoldable pub place_of : Text → List (Text × ℕ) → Option ℕ
place_of id [] = none
place_of id ((k, i) ∷ index) = if text_eq k id then some i else place_of id index

-- The loop of ensureIndex. A later entry of an id is put before an earlier one.
unfoldable pub index_onto : ℕ → List Asset → List (Text × ℕ) → List (Text × ℕ)
index_onto i [] index = index
index_onto i (a ∷ assets) index = index_onto (i + 1) assets ((a.id, i) ∷ index)

-- The index that ensureIndex leaves.
unfoldable pub ensure_index : Inventory → List (Text × ℕ)
unfolding index_onto
ensure_index inv = elim inv.index [ none ↦ index_onto 0 inv.assets [] | some index ↦ index ]

unfoldable pub look_up : Text → List (Text × ℕ) → List Asset → Option Asset
unfolding place_of nth
look_up id index assets = elim (place_of id index) [ none ↦ none | some i ↦ nth assets i ]

-- Inventory.Get
unfoldable pub get : Text → Inventory → Option Asset
unfolding look_up ensure_index
get id inv = look_up id (ensure_index inv) inv.assets

-- An asset of which only the id and the addresses are known.
abbrev pub bare_asset : Text → Addresses → Asset
bare_asset id addr = record {
  id = id;
  addresses = addr;
  identity = no_identity;
  purdue = [];
  role = [];
  services = [];
  evidence = [];
  tags = [];
  first_seen = 0;
  last_seen = 0;
  sources = [];
}

unfoldable pub shares_address : Addresses → Addresses → Bool
shares_address addr existing =
    not (is_empty addr.ipv4) && text_eq existing.ipv4 addr.ipv4
    || not (is_empty addr.mac) && text_eq existing.mac addr.mac

-- The loop of ByAddress, from place i on.
unfoldable pub find_sharing : ℕ → Addresses → List Asset → Option ℕ
unfolding shares_address
find_sharing i addr [] = none
find_sharing i addr (a ∷ assets) =
    if shares_address addr a.addresses then some i else find_sharing (i + 1) addr assets

module _ (sum256 : List ℕ → List ℕ) where
  unfoldable pub merge_at : ℕ → Asset → List Asset → List Asset
  merge_at i a [] = []
  merge_at zero a (x ∷ assets) = merge_asset sum256 x a ∷ assets
  merge_at (suc i) a (x ∷ assets) = x ∷ merge_at i a assets

  -- The asset with the id that it is stored under.
  unfoldable pub with_id : Asset → Asset
  unfolding id_of_addresses
  with_id a = if is_empty a.id then record a { id = id_of_addresses sum256 a.addresses } else a

  -- Upsert of an asset that has its id, behind ensureIndex.
  unfoldable pub put : Asset → List (Text × ℕ) → List Asset → Inventory × ℕ
  unfolding place_of merge_at
  put a index assets = elim (place_of a.id index) [
    | some i ↦ (record { assets = merge_at i a assets; index = some index }, i)
    | none ↦ (
      record { assets = assets ++ a ∷ []; index = some ((a.id, length assets) ∷ index) },
      length assets,
    )
  ]

  -- Inventory.Upsert, with the place of the stored asset.
  unfoldable pub upsert : Asset → Inventory → Inventory × ℕ
  unfolding with_id ensure_index put
  upsert a inv = put (with_id a) (ensure_index inv) inv.assets

  -- Inventory.ByAddress, with the place of the asset.
  unfoldable pub by_address : Addresses → Inventory → Inventory × ℕ
  unfolding id_of_addresses ensure_index place_of find_sharing upsert
  by_address addr inv =
      let id = id_of_addresses sum256 addr in
      let indexed = record inv { index = some (ensure_index inv) } in
      elim (place_of id (ensure_index inv)) [
        | some i ↦ (indexed, i)
        | none ↦ elim (find_sharing 0 addr inv.assets) [
          | some i ↦ (indexed, i)
          | none ↦ upsert (bare_asset id addr) indexed
        ]
      ]

  -- The loop of Inventory.Merge; the flows are not modelled.
  unfoldable pub upsert_all : List Asset → Inventory → Inventory
  unfolding upsert
  upsert_all [] inv = inv
  upsert_all (a ∷ assets) inv = upsert_all assets (upsert a inv).0
