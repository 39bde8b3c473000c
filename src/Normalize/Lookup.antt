-- ===== src/Normalize/Lookup.antt =====
-- The lookup of a product name in the table of families (internal/normalize/product.go).
use otscout.Prelude.{
  List, Option, Text, ◌∷◌, Bool, none, if◌then◌else◌, is_empty, some, true, text_eq, ltb, false,
  length, [], ◌||◌, not,
}
use otscout.Normalize.Product.{
  families_of, FamilyRecord, ProductTable, FamilyIndex, product_key, compact_key, contains_words,
}

pub data MatchMethod : Type 0 where
  match_exact match_suffix_trim match_token_subset match_none : MatchMethod

pub record FamilyMatch : Type 0 where
  pub family : FamilyRecord
  pub matched : Text
  pub method : MatchMethod
  pub via_model : Bool

unfoldable pub first_of_vendor : List FamilyRecord → Text → Option FamilyRecord
first_of_vendor [] vendor_id = none
first_of_vendor (rec ∷ candidates) vendor_id =
    let rest = first_of_vendor candidates vendor_id in
    if text_eq rec.vendor vendor_id then some rec else rest

abbrev pub only_one : List FamilyRecord → Option FamilyRecord
only_one (rec ∷ []) = some rec
only_one _ = none

unfoldable pub pick_family : List FamilyRecord → Text → Option FamilyRecord
unfolding first_of_vendor
pick_family candidates vendor_id =
    if is_empty vendor_id then only_one candidates else first_of_vendor candidates vendor_id

-- The loop over the four indexes.
unfoldable pub resolve_in :
    List (FamilyIndex × (Text × Bool)) → Text → Text → MatchMethod → Option FamilyMatch
unfolding pick_family families_of
resolve_in [] vendor_id matched method = none
resolve_in ((index, (key, via_model)) ∷ lookups) vendor_id matched method =
    let rest = resolve_in lookups vendor_id matched method in
    elim (families_of key index) [
      | none ↦ rest
      | some candidates ↦ elim (pick_family candidates vendor_id) [
        | none ↦ rest
        | some rec ↦
            some
              (record { family = rec; matched = matched; method = method; via_model = via_model })
      ]
    ]

unfoldable pub resolve : ProductTable → Text → Text → Text → MatchMethod → Option FamilyMatch
unfolding resolve_in
resolve t vendor_id key matched method =
    let compact = compact_key key in
    resolve_in
      ((t.model_keys, (key, true))
        ∷ (t.by_key, (key, false))
        ∷ (t.model_keys_compact, (compact, true))
        ∷ (t.by_key_compact, (compact, false))
        ∷ [])
      vendor_id matched method

-- The fallback, to the longest key that is in the name.
unfoldable pub resolve_longest : ProductTable → Text → Text → List Text → Option FamilyMatch
unfolding resolve
resolve_longest t vendor_id key [] = none
resolve_longest t vendor_id key (candidate ∷ keys) =
    let rest = resolve_longest t vendor_id key keys in
    if ltb (length candidate) 3 || not (contains_words key candidate)
    then rest
    else (elim (resolve t vendor_id candidate candidate match_token_subset) [
      | none ↦ rest
      | some found ↦ some found
    ])

-- LookupProduct
unfoldable pub lookup_product : ProductTable → Text → Text → Option FamilyMatch
unfolding resolve_longest
lookup_product t vendor_id raw =
    let key = product_key raw in
    if is_empty key then none else (elim (resolve t vendor_id key key match_exact) [
      | none ↦ resolve_longest t vendor_id key t.keys_by_length
      | some found ↦ some found
    ])
