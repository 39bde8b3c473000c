-- ===== src/Match/Compare.antt =====
-- How closely a device and an advisory product agree (internal/match/identity.go).
pub mod Grounds
use otscout.Normalize.Evaluate.{Explanation}
use otscout.Normalize.Vers.{split_on}
use otscout.Advisory.{Product}
use otscout.Normalize.Product.{ProductTable, catalog_key}
use otscout.Prelude.{
  List, Text, ℕ, false, Option, true, some, if◌then◌else◌, ◌∷◌, Bool, [], text_eq, ltb, leb, not,
  none, length, is_empty, ◌||◌, ◌&&◌, ◌++◌,
}
use otscout.Asset.Identity.{Identity}
use otscout.Match.Fields.{
  Field, FieldRank, Strength, strength_none, adds_only_filler, strength_for, contains_whole_phrase,
  demote_family_names, strength_family, rank_for, strength_order, informative, rank_order, is_model,
  asset_fields, advisory_outranks_match, finer_designation, advisory_fields, strength_catalog,
}

pub data ReasonKind : Type 0 where
  vendor_exact vendor_alias product_exact product_normalized : ReasonKind
  reason_model product_contained reason_family catalog_number_reason cpe_reason : ReasonKind
  version_in_range version_all_affected version_exact version_unknown : ReasonKind

-- The format of a detail with the texts that it quotes.
pub data Detail : Type 0 where
  code_matches : Text → Detail
  cpe_names code_differs : Text → Text → Detail
  names_match appears_inside filler_only : Field → Field → Detail
  names_finer : Text → Detail
  nothing_corresponds : Identity → Product → Detail
  same_vendor alias_vendor : Text → Text → Text → Detail
  version_checked : Explanation → Detail

pub record Reason : Type 0 where
  pub kind : ReasonKind
  pub detail : Detail
  pub weight : ℕ
  pub passed : Bool

pub record IdentityMatch : Type 0 where
  pub strength : Strength
  pub advisory_more_specific : Bool
  pub reasons : List Reason

unfoldable pub passed_reason : ReasonKind → Detail → ℕ → Reason
passed_reason k d w = record { kind = k; detail = d; weight = w; passed = true }

unfoldable pub failed_reason : ReasonKind → Detail → Reason
failed_reason k d = record { kind = k; detail = d; weight = 0; passed = false }

unfoldable pub match_of : Strength → List Reason → IdentityMatch
match_of s rs = record { strength = s; advisory_more_specific = false; reasons = rs }

-- cpeMatchesCatalog, of the parts of the CPE; the product is the fifth of them.
unfoldable pub cpe_matches_catalog : Text → Text → Bool
cpe_matches_catalog cpe catalog = elim (split_on b':' cpe) [
  | _ ∷ _ ∷ _ ∷ _ ∷ part ∷ _ ↦
      let product = catalog_key part in
      not (is_empty product) && text_eq product (catalog_key catalog)
  | _ ↦ false
]

-- The vaguer of two ranks.
abbrev pub lower_rank : FieldRank → FieldRank → FieldRank
lower_rank a b = if ltb (rank_order b) (rank_order a) then b else a

unfoldable pub exact_kind : Field → Field → ReasonKind
exact_kind a b = elim (strength_for (lower_rank a.rank b.rank)) [
  | strength_family ↦ reason_family
  | _ ↦
      if is_model a.label || is_model b.label
      then reason_model
      else if text_eq a.value b.value
      then product_exact
      else product_normalized
]

unfoldable pub exact_match : Field → Field → IdentityMatch
unfolding exact_kind match_of passed_reason
exact_match a b =
    let level = strength_for (lower_rank a.rank b.rank) in
    match_of level (passed_reason (exact_kind a b) (names_match a b) (strength_order level) ∷ [])

-- containmentMatch behind the choice of the field that is inside the other.
unfoldable pub contained_match : Field → Field → FieldRank → Option (IdentityMatch × Text)
unfolding match_of passed_reason
contained_match inner outer rank =
    let filler = adds_only_filler outer.key inner.key in
    let level = strength_for rank in
    let detail = if filler then filler_only inner outer else appears_inside inner outer in
    if ltb (length inner.key) 5 || not (informative inner.key)
    then none
    else if not filler && ltb (rank_order inner.rank) 2
    then none
    else some (
      match_of level (passed_reason product_contained detail (strength_order level) ∷ []),
      inner.key,
    )

unfoldable pub containment_match : Field → Field → Option (IdentityMatch × Text)
unfolding contained_match
containment_match a b =
    if contains_whole_phrase b.key a.key
    then contained_match a b (lower_rank a.rank b.rank)
    else if contains_whole_phrase a.key b.key
    then contained_match b a (lower_rank a.rank b.rank)
    else none

-- What one pair of names has to offer, with the key that matched.
unfoldable pub pair_match : Field → Field → Option (IdentityMatch × Text)
unfolding exact_match containment_match
pair_match a b =
    if text_eq a.key b.key
    then (if informative a.key then some (exact_match a b, a.key) else none)
    else containment_match a b

-- The closure `consider`: only a stronger candidate replaces the best one.
unfoldable pub consider :
    Option (IdentityMatch × Text) → IdentityMatch × Text → IdentityMatch × Text
consider none best = best
consider (some candidate) best =
    if leb (strength_order candidate.0.strength) (strength_order best.0.strength)
    then best
    else candidate

unfoldable pub over_advisory : Field → List Field → IdentityMatch × Text → IdentityMatch × Text
unfolding pair_match consider
over_advisory a [] best = best
over_advisory a (b ∷ bs) best = over_advisory a bs (consider (pair_match a b) best)

unfoldable pub over_fields : List Field → List Field → IdentityMatch × Text → IdentityMatch × Text
unfolding over_advisory
over_fields [] bs best = best
over_fields (a ∷ rest) bs best = over_fields rest bs (over_advisory a bs best)

abbrev pub no_match : IdentityMatch
no_match = record { strength = strength_none; advisory_more_specific = false; reasons = [] }

-- Behind the loops: whether the advisory names something finer, or that nothing agreed.
unfoldable pub conclude : Identity → Product → List Field → IdentityMatch × Text → IdentityMatch
conclude id p advisory_side (best, matched) =
    let level = rank_for best.strength in
    let more = advisory_outranks_match advisory_side matched level in
    let finer =
      failed_reason product_exact (names_finer (finer_designation advisory_side matched level)) in
    elim best.strength [
      | strength_none ↦
          match_of strength_none (failed_reason reason_family (nothing_corresponds id p) ∷ [])
      | _ ↦
          if more
          then record best { advisory_more_specific = true; reasons = best.reasons ++ finer ∷ [] }
          else best
    ]

unfoldable pub compare_names : Option ProductTable → Identity → Product → IdentityMatch
unfolding conclude over_fields
compare_names table id p =
    let asset_side = demote_family_names table id.vendor (asset_fields id) in
    let advisory_side = demote_family_names table p.vendor (advisory_fields p) in
    conclude id p advisory_side (over_fields asset_side advisory_side (no_match, []))

-- The order codes, where both sides have one: they decide unless one of them has no key.
abbrev pub lacks_code : Identity → Product → Bool
lacks_code id p =
    is_empty p.catalog_number
    || is_empty id.catalog_number
    || is_empty (catalog_key id.catalog_number)
    || is_empty (catalog_key p.catalog_number)

abbrev pub same_code : Identity → Product → Bool
same_code id p = text_eq (catalog_key id.catalog_number) (catalog_key p.catalog_number)

unfoldable pub compare_codes : Option ProductTable → Identity → Product → IdentityMatch
unfolding match_of passed_reason failed_reason
compare_codes table id p =
    if lacks_code id p
    then compare_names table id p
    else if same_code id p
    then match_of strength_catalog
        (passed_reason catalog_number_reason (code_matches id.catalog_number) 1 ∷ [])
    else match_of strength_none
        (failed_reason catalog_number_reason (code_differs id.catalog_number p.catalog_number) ∷ [])

unfoldable pub compare_identity : Option ProductTable → Identity → Product → IdentityMatch
unfolding compare_codes match_of passed_reason
compare_identity table id p =
    if not (is_empty p.cpe)
      && not (is_empty id.catalog_number)
      && cpe_matches_catalog p.cpe id.catalog_number
    then match_of strength_catalog
        (passed_reason cpe_reason (cpe_names p.cpe id.catalog_number) 1 ∷ [])
    else compare_codes table id p
