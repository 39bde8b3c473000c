-- ===== src/Match/Compare/Grounds.antt =====
-- On what a match rests.
use mathlib.Core.Path.{subst}
use otscout.Advisory.{Product}
use otscout.Asset.Identity.{Identity}
use otscout.Normalize.Product.{ProductTable, catalog_key}
use otscout.Prelude.{
  text_eq, ◌≤◌, ◌≡◌, arith, true, Text, some, ◌⊎◌, refl, length, List, Option, Bool-cases, Among,
  leb, ◌∷◌, [], inr, inl, is_empty, ◌∙◌, false, Bool, sym, if◌then◌else◌, none,
}
use otscout.Match.Fields.{
  Field, FieldRank, Strength, rank_order, strength_order, strength_for, rank_family, rank_product,
  informative, contains_whole_phrase, rank_catalog, strength_none, demote_family_names,
  strength_catalog, asset_fields, advisory_fields,
}
use otscout.Match.Compare.{
  contained_match, pair_match, match_of, containment_match, IdentityMatch, lower_rank, exact_match,
  over_advisory, compare_codes, conclude, over_fields, consider, compare_names, no_match,
  cpe_matches_catalog, compare_identity, lacks_code, same_code,
}

-- Two names agree: they have the same key, or the key of one is a phrase of the other's that is five
-- bytes long or more. The key says which device is meant.
unfoldable pub Agree : Field → Field → Type 0
Agree a b =
    ((text_eq a.key b.key ≡ true) × (informative a.key ≡ true))
    ⊎ ((contains_whole_phrase b.key a.key ≡ true) × (5 ≤ length a.key) × (informative a.key ≡ true))
    ⊎ ((contains_whole_phrase a.key b.key ≡ true) × (5 ≤ length b.key) × (informative b.key ≡ true))

-- The match is no more precise than each of the two names.
unfoldable pub Precise : Strength → Field → Field → Type 0
Precise s a b = (strength_order s ≤ rank_order a.rank) × (strength_order s ≤ rank_order b.rank)

strength_for-order : (r : FieldRank) → strength_order (strength_for r) ≡ rank_order r
strength_for-order rank_family = refl
strength_for-order rank_product = refl
strength_for-order rank_catalog = refl

lower_rank-order :
    (a b : FieldRank)
    → (rank_order (lower_rank a b) ≤ rank_order a) × (rank_order (lower_rank a b) ≤ rank_order b)
lower_rank-order a b = ground arith

lower_rank-Precise : (a b : Field) → Precise (strength_for (lower_rank a.rank b.rank)) a b
unfolding Precise
lower_rank-Precise a b =
    ground (arith, strength_for-order (lower_rank a.rank b.rank), lower_rank-order a.rank b.rank)

contained_match_sound :
    (inner outer : Field) (r : FieldRank) (m : IdentityMatch × Text)
    → contained_match inner outer r ≡ some m
    → (5 ≤ length inner.key) × (informative inner.key ≡ true) × (m.0.strength ≡ strength_for r)
unfolding contained_match match_of
contained_match_sound inner outer r m h = ground (arith, h)

pair_match_sound :
    (a b : Field) (m : IdentityMatch × Text)
    → pair_match a b ≡ some m
    → Agree a b × (m.0.strength ≡ strength_for (lower_rank a.rank b.rank))
unfolding pair_match containment_match Agree exact_match match_of
pair_match_sound a b m h = ground (
  arith,
  h,
  contained_match_sound a b (lower_rank a.rank b.rank) m,
  contained_match_sound b a (lower_rank a.rank b.rank) m,
)

-- Two of the names agree, and the match is no more precise than they are.
pub record Supported (as_fields bs : List Field) (s : Strength) : Type 0 where
  pub mine : Field
  pub theirs : Field
  pub is_mine : Among mine as_fields
  pub is_theirs : Among theirs bs
  pub agree : Agree mine theirs
  pub precise : Precise s mine theirs

abbrev Backed : List Field → List Field → IdentityMatch × Text → Type 0
Backed as_fields bs m = (m.0.strength ≡ strength_none) ⊎ Supported as_fields bs m.0.strength

consider-keeps :
    (P : IdentityMatch × Text → Type 0) (o : Option (IdentityMatch × Text))
    (best : IdentityMatch × Text)
    → ((m : IdentityMatch × Text) → o ≡ some m → P m)
    → P best
    → P (consider o best)
unfolding consider
consider-keeps P none best f h = h
consider-keeps P (some m) best f h =
    elim (Bool-cases (leb (strength_order m.0.strength) (strength_order best.0.strength))) [
      | inl e ↦ subst (λ b. P (if b then best else m)) (sym e) h
      | inr e ↦ subst (λ b. P (if b then best else m)) (sym e) (f m refl)
    ]

over_advisory-keeps :
    (P : IdentityMatch × Text → Type 0) (a : Field) (bs : List Field) (best : IdentityMatch × Text)
    → ((b : Field) → Among b bs → (m : IdentityMatch × Text) → pair_match a b ≡ some m → P m)
    → P best
    → P (over_advisory a bs best)
unfolding over_advisory
over_advisory-keeps P a [] best f h = h
over_advisory-keeps P a (b ∷ bs) best f h =
    over_advisory-keeps P a bs _ (λ c among. f c (inr among))
      (consider-keeps P (pair_match a b) best (f b (inl refl)) h)

over_fields-keeps :
    (P : IdentityMatch × Text → Type 0) (xs bs : List Field) (best : IdentityMatch × Text)
    → ((a : Field)
        → Among a xs
        → (b : Field) → Among b bs
        → (m : IdentityMatch × Text) → pair_match a b ≡ some m
        → P m)
    → P best
    → P (over_fields xs bs best)
unfolding over_fields
over_fields-keeps P [] bs best f h = h
over_fields-keeps P (a ∷ xs) bs best f h =
    over_fields-keeps P xs bs _ (λ c among. f c (inr among))
      (over_advisory-keeps P a bs best (f a (inl refl)) h)

over_fields-Backed : (xs bs : List Field) → Backed xs bs (over_fields xs bs (no_match, []))
over_fields-Backed xs bs =
    over_fields-keeps (Backed xs bs) xs bs (no_match, [])
      (λ a ia b ib m e. inr (record {
        mine = a;
        theirs = b;
        is_mine = ia;
        is_theirs = ib;
        agree = (pair_match_sound a b m e).0;
        precise =
            subst (λ s. Precise s a b) (sym (pair_match_sound a b m e).1) (lower_rank-Precise a b);
      }))
      (inl refl)

conclude-strength :
    (id : Identity) (p : Product) (bs : List Field) (m : IdentityMatch × Text)
    → (conclude id p bs m).strength ≡ m.0.strength
unfolding conclude match_of
conclude-strength id p bs m = ground arith

-- What a match has to show: an order code in the CPE, the same order code, or names that agree.
pub data Grounds (table : Option ProductTable) (id : Identity) (p : Product)
    : Strength → Type 0 where
  by_cpe : cpe_matches_catalog p.cpe id.catalog_number ≡ true → Grounds table id p strength_catalog
  by_code :
      is_empty (catalog_key id.catalog_number) ≡ false
      → text_eq (catalog_key id.catalog_number) (catalog_key p.catalog_number) ≡ true
      → Grounds table id p strength_catalog
  by_names :
      {s : Strength}
      → Supported
          (demote_family_names table id.vendor (asset_fields id))
          (demote_family_names table p.vendor (advisory_fields p))
          s
      → Grounds table id p s

-- There is no match, or it has grounds.
abbrev pub Grounded : Option ProductTable → Identity → Product → IdentityMatch → Type 0
Grounded table id p m = (m.strength ≡ strength_none) ⊎ Grounds table id p m.strength

if-holds :
    (P : IdentityMatch → Type 0) (b : Bool) (x y : IdentityMatch)
    → (b ≡ true → P x)
    → (b ≡ false → P y)
    → P (if b then x else y)
if-holds P true x y f g = f refl
if-holds P false x y f g = g refl

compare_names-Grounded :
    (table : Option ProductTable) (id : Identity) (p : Product)
    → Grounded table id p (compare_names table id p)
unfolding compare_names
compare_names-Grounded table id p =
    let xs = demote_family_names table id.vendor (asset_fields id) in
    let bs = demote_family_names table p.vendor (advisory_fields p) in
    let m = over_fields xs bs (no_match, []) in
    elim (over_fields-Backed xs bs) [
      | inl e ↦ inl (conclude-strength id p bs m ∙ e)
      | inr s ↦ inr (subst (Grounds table id p) (sym (conclude-strength id p bs m)) (by_names s))
    ]

compare_codes-Grounded :
    (table : Option ProductTable) (id : Identity) (p : Product)
    → Grounded table id p (compare_codes table id p)
unfolding compare_codes match_of
compare_codes-Grounded table id p = elim (Bool-cases (lacks_code id p)) [
  | inl e ↦ rw (compare_codes, e) (compare_names-Grounded table id p)
  | inr e ↦ elim (Bool-cases (same_code id p)) [
    | inl same ↦ rw (compare_codes, e, same) (inr (by_code (ground (arith, e)) same))
    | inr other ↦ rw (compare_codes, e, other) (inl refl)
  ]
]

-- A device and a product of an advisory are matched only on grounds: the CPE of the product names the
-- order code of the device, or the order codes are the same and not empty, or a name of the one agrees
-- with a name of the other, and then the match is no more precise than both of these names are once
-- those of families are demoted. That the vendors agree is none of them.
pub compare_identity-Grounded :
    (table : Option ProductTable) (id : Identity) (p : Product)
    → Grounded table id p (compare_identity table id p)
unfolding compare_identity match_of
compare_identity-Grounded table id p =
    if-holds (Grounded table id p) _ _ _ (λ e. inr (by_cpe (ground (arith, e))))
      (λ e. compare_codes-Grounded table id p)
