-- ===== src/Inventory/Store/Found/Keyed.antt =====
-- The inventory is a map from ids to devices, as Upsert and ByAddress leave it
-- (internal/asset/inventory.go).
use otscout.Asset.Addresses.{Addresses, Asset}
use otscout.Inventory.Device.{id_of_addresses}
use otscout.Inventory.Device.Named.{merge_asset-id}
use otscout.Inventory.Store.{
  Inventory, place_of, index_onto, ensure_index, get, bare_asset, shares_address, find_sharing,
  with_id, upsert, upsert_all, by_address,
}
use otscout.Inventory.Store.Found.{Holds, IsIndexed, IsPut, put-IsPut, stored, place_of-Holds}
use otscout.Match.Index.{nth}
use otscout.Prelude.{
  is_empty, false, ◌↔◌, text_eq_iff, List, Text, ℕ, suc, [], ◌∷◌, ◌+◌, ◌≡◌, ◌⊎◌, All, inl, inr,
  refl, arith, true, text_eq, Option, none, some, if◌then◌else◌, Option-cases, Bool-cases, ap, ◌∙◌,
}

index_onto-Holds :
    (all : List Asset) (n : ℕ) (after : List Asset) (index : List (Text × ℕ))
    → ((j : ℕ) → nth all (n + j) ≡ nth after j)
    → All (Holds all) index
    → All (Holds all) (index_onto n after index)
unfolding index_onto nth
index_onto-Holds all n [] index at h = h
index_onto-Holds all n (a ∷ after) index at h =
    index_onto-Holds all (n + 1) after ((a.id, n) ∷ index) (λ j. ground (arith, at (suc j)))
      ((a, ground (arith, at 0), refl), h)

-- An index that is built from the devices is right.
pub built-IsIndexed : (assets : List Asset) → IsIndexed (record { assets = assets; index = none })
unfolding ensure_index
built-IsIndexed assets = index_onto-Holds assets 0 assets [] (λ j. ap (nth assets) (omega arith)) tt

get-id : (k : Text) (inv : Inventory) (x : Asset) → IsIndexed inv → get k inv ≡ some x → x.id ≡ k
unfolding get
get-id k inv x h e = elim (Option-cases (place_of k (ensure_index inv))) [
  | inl absent ↦ absurd (ground (arith, e, absent))
  | inr (i, found) ↦
      let (y, at, named) = place_of-Holds k (ensure_index inv) inv.assets i h found in
      ground (arith, e, found, at, named)
]

-- The two know the same IPv4 or the same MAC address.
abbrev pub SameAddress : Addresses → Addresses → Type 0
SameAddress addr existing =
    ((is_empty addr.ipv4 ≡ false) × (existing.ipv4 ≡ addr.ipv4))
    ⊎ ((is_empty addr.mac ≡ false) × (existing.mac ≡ addr.mac))

shares_address_iff :
    (addr existing : Addresses) → (shares_address addr existing ≡ true) ↔ SameAddress addr existing
unfolding shares_address
shares_address_iff addr existing = (
  λ h. ground (arith, h, text_eq_iff existing.ipv4 addr.ipv4, text_eq_iff existing.mac addr.mac),
  λ h. ground (arith, h, text_eq_iff existing.ipv4 addr.ipv4, text_eq_iff existing.mac addr.mac),
)

module _ (sum256 : List ℕ → List ℕ) where
  -- After the asset was stored, its id leads to what was there with the asset folded in, or to the
  -- asset itself; every other id leads where it led; and the place is that of the stored asset.
  pub Stores : Asset → Inventory → Inventory × ℕ → Type 0
  Stores a inv (after, i) =
      ((id : Text)
        → get id after
          ≡ (if text_eq a.id id then some (stored sum256 a (get a.id inv)) else get id inv))
      × (nth after.assets i ≡ some (stored sum256 a (get a.id inv)))
      × IsIndexed after

  -- Upsert of an inventory whose index is right, as it is at first or once it is built: the id of
  -- the asset, made from its addresses where it has none, leads to what was stored under it with
  -- the asset folded in, or to the asset where nothing was; every other id leads to what it led to;
  -- the place that is returned is that of the stored asset; and the index is right again.
  pub upsert-Stores :
      (a : Asset) (inv : Inventory)
      → IsIndexed inv
      → Stores (with_id sum256 a) inv (upsert sum256 a inv)
  unfolding Stores upsert get IsPut
  upsert-Stores a inv h = put-IsPut sum256 (with_id sum256 a) (ensure_index inv) inv.assets h

  -- Folding another inventory in keeps the index right.
  upsert_all-IsIndexed :
      (assets : List Asset) (inv : Inventory)
      → IsIndexed inv
      → IsIndexed (upsert_all sum256 assets inv)
  unfolding upsert_all Stores
  upsert_all-IsIndexed [] inv h = h
  upsert_all-IsIndexed (a ∷ assets) inv h =
      upsert_all-IsIndexed assets (upsert sum256 a inv).0 (upsert-Stores a inv h).2

  stored-id :
      (a : Asset) (o : Option Asset)
      → ((x : Asset) → o ≡ some x → x.id ≡ a.id)
      → (stored sum256 a o).id ≡ a.id
  stored-id a none h = refl
  stored-id a (some x) h = merge_asset-id sum256 x a ∙ h x refl

  find_sharing-shares :
      (k i : ℕ) (addr : Addresses) (assets : List Asset)
      → find_sharing k addr assets ≡ some i
      → (j : ℕ) × (x : Asset) × (i ≡ k + j) × (nth assets j ≡ some x) × SameAddress addr x.addresses
  unfolding find_sharing nth
  find_sharing-shares k i addr [] e = cc
  find_sharing-shares k i addr (a ∷ assets) e =
      elim (Bool-cases (shares_address addr a.addresses)) [
        | inl here ↦
            (0, a, ground (arith, e, here), refl, (shares_address_iff addr a.addresses).0 here)
        | inr there ↦
            let (j, x, far, at, shares) =
              find_sharing-shares (k + 1) i addr assets (ground (arith, e, there)) in
            (suc j, x, omega (arith, far), at, shares)
      ]

  find_sharing-none :
      (k : ℕ) (addr : Addresses) (assets : List Asset)
      → find_sharing k addr assets ≡ none
      → All (λ (a : Asset). ¬ SameAddress addr a.addresses) assets
  unfolding find_sharing
  find_sharing-none k addr [] e = tt
  find_sharing-none k addr (a ∷ assets) e = elim (Bool-cases (shares_address addr a.addresses)) [
    | inl here ↦ absurd (ground (arith, e, here))
    | inr there ↦ (
      λ same. ground (arith, there, (shares_address_iff addr a.addresses).1 same),
      find_sharing-none (k + 1) addr assets (ground (arith, e, there)),
    )
  ]

  -- ByAddress leads to a device with the id that the addresses make, or with the same address. Either
  -- it leaves the devices as they were, or it found none to return: none is stored under the id, and
  -- none has the same address.
  pub Answers : Addresses → Inventory → Inventory × ℕ → Type 0
  Answers addr inv (after, i) =
      ((x : Asset) × (nth after.assets i ≡ some x)
        × ((x.id ≡ id_of_addresses sum256 addr) ⊎ SameAddress addr x.addresses))
      × ((after.assets ≡ inv.assets)
          ⊎ ((get (id_of_addresses sum256 addr) inv ≡ none)
              × All (λ (a : Asset). ¬ SameAddress addr a.addresses) inv.assets))

  with_id-bare :
      (addr : Addresses)
      → with_id sum256 (bare_asset (id_of_addresses sum256 addr) addr)
        ≡ bare_asset (id_of_addresses sum256 addr) addr
  unfolding with_id
  with_id-bare addr = ground arith

  added :
      (addr : Addresses) (inv : Inventory)
      → IsIndexed inv
      → let (after, i) = upsert sum256 (bare_asset (id_of_addresses sum256 addr) addr) inv in
        (x : Asset) × (nth after.assets i ≡ some x) × (x.id ≡ id_of_addresses sum256 addr)
  unfolding Stores
  added addr inv h =
      let a = bare_asset (id_of_addresses sum256 addr) addr in
      let (look, placed, right) = upsert-Stores a inv h in
      (
        stored sum256 a (get a.id inv),
        rw (with_id-bare addr) at placed,
        stored-id a (get a.id inv) (λ x e. get-id a.id inv x h e),
      )

  absent-get :
      (id : Text) (inv : Inventory) → place_of id (ensure_index inv) ≡ none → get id inv ≡ none
  unfolding get
  absent-get id inv e = ground (arith, e)

  -- In an inventory whose index is right, ByAddress returns the place of a device that was asked
  -- for: one with the id that the addresses make, or one that has the same IPv4 or MAC address, that
  -- address not being empty. The devices are those that were there, unless none of them is stored
  -- under the id and none has the same address.
  pub by_address-Answers :
      (addr : Addresses) (inv : Inventory)
      → IsIndexed inv
      → Answers addr inv (by_address sum256 addr inv)
  unfolding by_address Answers
  by_address-Answers addr inv h =
      let id = id_of_addresses sum256 addr in
      elim (Option-cases (place_of id (ensure_index inv))) [
        | inr (i, found) ↦
            let (x, at, named) = place_of-Holds id (ensure_index inv) inv.assets i h found in
            rw (found, by_address) ((x, at, inl named), inl refl)
        | inl absent ↦ elim (Option-cases (find_sharing 0 addr inv.assets)) [
          | inr (i, found) ↦
              let (j, x, far, at, shares) = find_sharing-shares 0 i addr inv.assets found in
              rw (absent, found, by_address) ((x, ground (arith, far, at), inr shares), inl refl)
          | inl alone ↦
              let (x, at, named) = added addr (record inv { index = some (ensure_index inv) }) h in
              rw (absent, alone, by_address)
                (
                  (x, at, inl named),
                  inr (absent-get id inv absent, find_sharing-none 0 addr inv.assets alone),
                )
        ]
      ]
