-- ===== src/Inventory/Store/Found.antt =====
-- The store as a map from ids to devices (Inventory.Upsert and Inventory.Get).
pub mod Keyed
use mathlib.Core.Option
use otscout.Asset.Addresses.{Asset, Evidence, Service, Time}
use otscout.Inventory.Device.{
  add_service, touch, add_source, add_tag, add_evidence, add_services, add_all_evidence, add_tags,
  add_sources, fill_in, merge_asset,
}
use otscout.Inventory.Device.Named.{merge_asset-id}
use otscout.Inventory.Store.{
  Inventory, place_of, index_onto, ensure_index, look_up, get, merge_at, with_id, put, upsert,
}
use otscout.Match.Index.{nth}
use otscout.Prelude.{
  List, Text, ℕ, zero, suc, [], ◌∷◌, ◌++◌, ◌+◌, ◌≡◌, ◌≢◌, ◌==◌, All, All-map, All-append, inl, inr,
  refl, arith, ap, true, false, text_eq, text_eq_iff, Option, none, some, length, if◌then◌else◌,
  Option-cases, Bool-cases, ◌∙◌,
}

-- The place i holds a device with the id.
abbrev pub Holds : List Asset → Text × ℕ → Type 0
Holds assets e = (a : Asset) × (nth assets e.1 ≡ some a) × (a.id ≡ e.0)

-- Every entry of the index, as it is when it is asked for, is the place of a device with that id.
abbrev pub IsIndexed : Inventory → Type 0
IsIndexed inv = All (Holds inv.assets) (ensure_index inv)

nth-append :
    (i : ℕ) (a : Asset) (assets : List Asset)
    → nth (assets ++ a ∷ []) i ≡ (if i == length assets then some a else nth assets i)
unfolding nth
nth-append zero a [] = refl
nth-append (suc i) a [] = ground arith
nth-append zero a (x ∷ assets) = ground arith
nth-append (suc i) a (x ∷ assets) = ground (arith, nth-append i a assets)

nth-length : (assets : List Asset) → nth assets (length assets) ≡ none
unfolding nth
nth-length [] = refl
nth-length (x ∷ assets) = nth-length assets

pub place_of-Holds :
    (k : Text) (index : List (Text × ℕ)) (assets : List Asset) (i : ℕ)
    → All (Holds assets) index
    → place_of k index ≡ some i
    → Holds assets (k, i)
unfolding place_of
place_of-Holds k [] assets i h e = cc
place_of-Holds k ((j, p) ∷ index) assets i h e = elim (Bool-cases (text_eq j k)) [
  | inl same ↦ (h.0.0, ground (arith, e, same), ground (arith, same, text_eq_iff j k))
  | inr other ↦ place_of-Holds k index assets i h.1 (ground (arith, e, other))
]

module _ (sum256 : List ℕ → List ℕ) where
  nth-merge_at :
      (i j : ℕ) (a : Asset) (assets : List Asset)
      → nth (merge_at sum256 i a assets) j
        ≡ (if i == j then Option.map (λ x. merge_asset sum256 x a) (nth assets j) else nth assets j)
  unfolding nth merge_at
  nth-merge_at i j a [] = ground arith
  nth-merge_at zero zero a (x ∷ assets) = refl
  nth-merge_at zero (suc j) a (x ∷ assets) = ground arith
  nth-merge_at (suc i) zero a (x ∷ assets) = ground arith
  nth-merge_at (suc i) (suc j) a (x ∷ assets) = ground (arith, nth-merge_at i j a assets)

  -- What is stored under the id of an asset that is put: the asset, folded into what was there.
  abbrev pub stored : Asset → Option Asset → Asset
  stored a none = a
  stored a (some x) = merge_asset sum256 x a

  Holds-append :
      (a : Asset) (assets : List Asset) (e : Text × ℕ) → Holds assets e → Holds (assets ++ a ∷ []) e
  Holds-append a assets e (b, at, id) =
      (b, ground (arith, at, nth-append e.1 a assets, nth-length assets), id)

  Holds-merge_at :
      (i : ℕ) (a : Asset) (assets : List Asset) (e : Text × ℕ)
      → Holds assets e
      → Holds (merge_at sum256 i a assets) e
  Holds-merge_at i a assets e (b, at, id) = elim (Bool-cases (i == e.1)) [
    | inl here ↦ (
      merge_asset sum256 b a,
      nth-merge_at i e.1 a assets ∙ rw (here, at) refl,
      merge_asset-id sum256 b a ∙ id,
    )
    | inr there ↦ (b, nth-merge_at i e.1 a assets ∙ rw (there, at) refl, id)
  ]

  module _ (a : Asset) (index : List (Text × ℕ)) (assets : List Asset)
      (indexed : All (Holds assets) index) where
    -- The store after the put, looked up at any id, and the place that is returned.
    pub IsPut : Inventory × ℕ → Type 0
    IsPut (inv, i) =
        ((id : Text)
          → get id inv ≡ (
              if text_eq a.id id
              then some (stored a (look_up a.id index assets))
              else look_up id index assets))
        × (nth inv.assets i ≡ some (stored a (look_up a.id index assets)))
        × IsIndexed inv

    look_up-merge_at :
        (i : ℕ) (id : Text)
        → place_of a.id index ≡ some i
        → look_up id index (merge_at sum256 i a assets) ≡ (
            if text_eq a.id id
            then some (stored a (look_up a.id index assets))
            else look_up id index assets)
    unfolding look_up
    look_up-merge_at i id e =
        let (x, at, named) = place_of-Holds a.id index assets i indexed e in
        elim (Option-cases (place_of id index)) [
          | inl absent ↦ ground (arith, e, absent, text_eq_iff a.id id)
          | inr (j, found) ↦
              let (y, at', named') = place_of-Holds id index assets j indexed found in
              ground (
                arith,
                e,
                found,
                at,
                at',
                named,
                named',
                text_eq_iff a.id id,
                nth-merge_at i j a assets,
              )
        ]

    look_up-append :
        (id : Text)
        → place_of a.id index ≡ none
        → look_up id ((a.id, length assets) ∷ index) (assets ++ a ∷ []) ≡ (
            if text_eq a.id id
            then some (stored a (look_up a.id index assets))
            else look_up id index assets)
    unfolding look_up
    look_up-append id e = elim (Option-cases (place_of id index)) [
      | inl absent ↦ ground (arith, e, absent, nth-append (length assets) a assets)
      | inr (j, found) ↦
          let (y, at, named) = place_of-Holds id index assets j indexed found in
          ground (
            arith,
            e,
            found,
            at,
            nth-append (length assets) a assets,
            nth-append j a assets,
            nth-length assets,
          )
    ]

    at_end : nth (assets ++ a ∷ []) (length assets) ≡ some a
    at_end = ground (arith, nth-append (length assets) a assets)

    appended :
        place_of a.id index ≡ none
        → nth (assets ++ a ∷ []) (length assets) ≡ some (stored a (look_up a.id index assets))
    unfolding look_up
    appended e = ground (arith, e, at_end)

    found_there :
        (i : ℕ) (x : Asset)
        → place_of a.id index ≡ some i
        → nth assets i ≡ some x
        → nth (merge_at sum256 i a assets) i ≡ some (stored a (look_up a.id index assets))
    unfolding look_up
    found_there i x e at = ground (arith, e, at, nth-merge_at i i a assets)

    put_old_lem :
        (i : ℕ)
        → place_of a.id index ≡ some i
        → put sum256 a index assets
          ≡ (record { assets = merge_at sum256 i a assets; index = some index }, i)
    unfolding put
    put_old_lem i e = rw (e, put)

    put_new_lem :
        place_of a.id index ≡ none
        → put sum256 a index assets ≡ (
          record { assets = assets ++ a ∷ []; index = some ((a.id, length assets) ∷ index) },
          length assets,
        )
    unfolding put
    put_new_lem e = rw (e, put)

    put-old : (i : ℕ) → place_of a.id index ≡ some i → IsPut (put sum256 a index assets)
    unfolding IsPut get ensure_index
    put-old i e =
        let (x, at, named) = place_of-Holds a.id index assets i indexed e in
        rw (put_old_lem i e) (
          λ id. look_up-merge_at i id e,
          found_there i x e at,
          All-map _ _ (Holds-merge_at i a assets) index indexed,
        )

    put-new : place_of a.id index ≡ none → IsPut (put sum256 a index assets)
    unfolding IsPut get ensure_index
    put-new e = rw (put_new_lem e) (
      λ id. look_up-append id e,
      appended e,
      ((a, at_end, refl), All-map _ _ (Holds-append a assets) index indexed),
    )

    -- What a put leaves behind.
    pub put-IsPut : IsPut (put sum256 a index assets)
    put-IsPut = elim (Option-cases (place_of a.id index)) [
      | inl e ↦ put-new e
      | inr (i, e) ↦ put-old i e
    ]
