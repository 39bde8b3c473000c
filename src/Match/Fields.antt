-- ===== src/Match/Fields.antt =====
-- How closely one name of a device agrees with one name of an advisory product
-- (internal/match/identity.go). A reason is the kind of the link, whether it passed, and the names that
-- its text quotes.
use otscout.Normalize.Version.{trim_space}
use otscout.Normalize.Search.{cut}
use otscout.Protocol.Reader.{fields}
use otscout.Normalize.Lookup.{FamilyMatch, match_exact, lookup_product}
use otscout.Normalize.Product.{product_key, ProductTable}
use otscout.Asset.Identity.{Identity}
use otscout.Prelude.{
  List, Text, Bool, Option, ℕ, true, false, ◌∷◌, not, [], ◌∷◌, codes, ◌==◌, if◌then◌else◌, ◌||◌,
  is_empty, ◌&&◌, some, none, text_eq, leb, ltb, ◌++◌,
}
use otscout.Advisory.{Product}

pub data Strength : Type 0 where
  strength_none strength_family strength_product strength_catalog : Strength

abbrev pub strength_order : Strength → ℕ
strength_order strength_none = 0
strength_order strength_family = 1
strength_order strength_product = 2
strength_order strength_catalog = 3

pub data FieldRank : Type 0 where
  rank_family rank_product rank_catalog : FieldRank

abbrev pub rank_order : FieldRank → ℕ
rank_order rank_family = 1
rank_order rank_product = 2
rank_order rank_catalog = 3

abbrev pub strength_for : FieldRank → Strength
strength_for rank_catalog = strength_catalog
strength_for rank_product = strength_product
strength_for rank_family = strength_family

abbrev pub rank_for : Strength → FieldRank
rank_for strength_catalog = rank_catalog
rank_for strength_product = rank_product
rank_for _ = rank_family

-- The fields that a name is taken from.
pub data Label : Type 0 where
  identity_model identity_product identity_product_raw identity_family : Label
  product_model product_product product_product_raw product_name : Label
  product_family product_family_raw : Label

abbrev pub is_whole_name : Label → Bool
is_whole_name product_name = true
is_whole_name _ = false

abbrev pub is_model : Label → Bool
is_model identity_model = true
is_model product_model = true
is_model _ = false

pub record Field : Type 0 where
  pub label : Label
  pub value : Text
  pub key : Text
  pub rank : FieldRank

unfoldable pub new_field : Label → Text → FieldRank → Option Field
new_field label' value' rank' =
    let k = product_key value' in
    if is_empty k
    then none
    else some (record { label = label'; value = trim_space value'; key = k; rank = rank' })

unfoldable pub has_key : Text → List Text → Bool
has_key k [] = false
has_key k (s ∷ seen) = text_eq s k || has_key k seen

-- The loop of collectFields, with the keys that were seen.
unfoldable pub collect_from : List Text → List (Label × (Text × FieldRank)) → List Field
unfolding new_field has_key
collect_from seen [] = []
collect_from seen ((l, (v, r)) ∷ candidates) = elim (new_field l v r) [
  | none ↦ collect_from seen candidates
  | some f ↦
      let rest = collect_from seen candidates in
      let further = collect_from (f.key ∷ seen) candidates in
      if has_key f.key seen then rest else f ∷ further
]

unfoldable pub collect_fields : List (Label × (Text × FieldRank)) → List Field
unfolding collect_from
collect_fields candidates = collect_from [] candidates

unfoldable pub asset_fields : Identity → List Field
asset_fields id = collect_fields (
    (identity_model, (id.model, rank_product))
    ∷ (identity_product, (id.product, rank_product))
    ∷ (identity_product_raw, (id.product_raw, rank_product))
    ∷ (identity_family, (id.family, rank_family))
    ∷ [])

unfoldable pub advisory_fields : Product → List Field
advisory_fields p = collect_fields (
    (product_model, (p.model, rank_product))
    ∷ (product_product, (p.product_name, rank_product))
    ∷ (product_product_raw, (p.product_raw, rank_product))
    ∷ (product_name, (p.name, rank_product))
    ∷ (product_family, (p.family, rank_family))
    ∷ (product_family_raw, (p.family_raw, rank_family))
    ∷ [])

-- A name that the table resolves exactly, other than through a model, is that of a family.
unfoldable pub is_family_name : Option FamilyMatch → Bool
is_family_name none = false
is_family_name (some found) =
    not found.via_model && (elim found.method [ match_exact ↦ true | _ ↦ false ])

-- The loop of demoteFamilyNames; a table that is nil demotes nothing.
unfoldable pub demote_family_names : Option ProductTable → Text → List Field → List Field
unfolding is_family_name
demote_family_names none vendor_id fields' = fields'
demote_family_names (some t) vendor_id [] = []
demote_family_names (some t) vendor_id (f ∷ fields') =
    let rest = demote_family_names (some t) vendor_id fields' in
    if ltb 1 (rank_order f.rank) && is_family_name (lookup_product t vendor_id f.value)
    then record f { rank = rank_family } ∷ rest
    else f ∷ rest

abbrev pub generic_words : List Text
generic_words =
    codes "all"
    ∷ codes "control"
    ∷ codes "controller"
    ∷ codes "controllers"
    ∷ codes "cpu"
    ∷ codes "device"
    ∷ codes "devices"
    ∷ codes "family"
    ∷ codes "firmware"
    ∷ codes "gateway"
    ∷ codes "gateways"
    ∷ codes "hardware"
    ∷ codes "hmi"
    ∷ codes "module"
    ∷ codes "modules"
    ∷ codes "plc"
    ∷ codes "product"
    ∷ codes "products"
    ∷ codes "router"
    ∷ codes "routers"
    ∷ codes "series"
    ∷ codes "server"
    ∷ codes "servers"
    ∷ codes "software"
    ∷ codes "switch"
    ∷ codes "switches"
    ∷ codes "system"
    ∷ codes "systems"
    ∷ codes "unit"
    ∷ codes "units"
    ∷ codes "version"
    ∷ codes "versions"
    ∷ []

unfoldable pub any_telling : List Text → Bool
any_telling [] = false
any_telling (word ∷ words) = not (has_key word generic_words) || any_telling words

unfoldable pub informative : Text → Bool
unfolding any_telling
informative key' = any_telling (fields key')

-- finerDesignation; the empty text is that there is none.
unfoldable pub finer_designation : List Field → Text → FieldRank → Text
finer_designation [] matched level = []
finer_designation (f ∷ fields') matched level =
    let rest = finer_designation fields' matched level in
    if is_whole_name f.label || text_eq f.key matched || leb (rank_order f.rank) (rank_order level)
    then rest
    else if informative f.key
    then f.value
    else rest

unfoldable pub advisory_outranks_match : List Field → Text → FieldRank → Bool
unfolding finer_designation
advisory_outranks_match fields' matched level =
    not (is_empty (finer_designation fields' matched level))

-- Whether the phrase is here, and ends at a space or with the text.
unfoldable pub phrase_here : Text → Text → Bool
phrase_here [] [] = true
phrase_here (c ∷ s) [] = c == b' '
phrase_here [] (p ∷ phrase) = false
phrase_here (c ∷ s) (p ∷ phrase) = c == p && phrase_here s phrase

-- The loop of containsWholePhrase; `left_ok` is whether a word starts here.
unfoldable pub phrase_from : Bool → Text → Text → Bool
unfolding phrase_here
phrase_from left_ok [] phrase = false
phrase_from left_ok (c ∷ s) phrase =
    (left_ok && phrase_here (c ∷ s) phrase) || phrase_from (c == b' ') s phrase

unfoldable pub contains_whole_phrase : Text → Text → Bool
unfolding phrase_from
contains_whole_phrase text phrase = not (is_empty phrase) && phrase_from true text phrase

-- strings.Replace(outer, inner, " ", 1)
unfoldable pub replace_first : Text → Text → Text
replace_first outer inner = elim (cut outer inner) [
  | none ↦ outer
  | some (left, right) ↦ left ++ b' ' ∷ right
]

unfoldable pub adds_only_filler : Text → Text → Bool
unfolding replace_first
adds_only_filler outer inner = not (informative (replace_first outer inner))
