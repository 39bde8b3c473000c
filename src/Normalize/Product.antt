-- ===== src/Normalize/Product.antt =====
-- The table of product families and the lookup in it (internal/normalize/product.go), with the
-- matching of words of vendor.go and the key of an order code of catalog.go. The text of the table is
-- read by the YAML library; a family stands for the pointer to its entry, whose id is unique.
use Prim.Native.Nat.{Ordering}
use otscout.Normalize.Version.{is_letter, is_digit, text_compare, trim_space}
use otscout.Protocol.Reader.{join, fields}
use otscout.Prelude.{
  Text, List, ◌++◌, [], ℕ, ◌⊎◌, Option, if◌then◌else◌, ◌∷◌, Bool, ◌∷◌, text_eq, false, leb, none,
  true, ◌==◌, length, inr, is_empty, ◌||◌, inl, map, not, ◌&&◌, suc, some, to_lower, ◌-◌, ltb,
}

-- The bytes that a product key keeps: letters, digits, + and !. Others part words.
unfoldable pub key_byte : ℕ → ℕ
key_byte c = if is_letter c || is_digit c || c == b'+' || c == b'!' then c else b' '

unfoldable pub product_key : Text → Text
unfolding key_byte
product_key raw = join (fields (map key_byte (to_lower (trim_space raw))))

-- strings.ReplaceAll(key, " ", "")
unfoldable pub compact_key : Text → Text
compact_key [] = []
compact_key (c ∷ key) = let rest = compact_key key in if c == b' ' then rest else c ∷ rest

-- The bytes of an order code in upper case, without those that part it.
unfoldable pub catalog_key : Text → Text
catalog_key [] = []
catalog_key (c ∷ raw) =
    let rest = catalog_key raw in
    if leb b'a' c && leb c b'z'
    then (c - 32) ∷ rest
    else if (leb b'A' c && leb c b'Z') || is_digit c
    then c ∷ rest
    else rest

-- The words of a phrase at the start of those of a key.
unfoldable pub words_start : List Text → List Text → Bool
words_start words [] = true
words_start [] (p ∷ phrase) = false
words_start (w ∷ words) (p ∷ phrase) = text_eq w p && words_start words phrase

unfoldable pub words_within : List Text → List Text → Bool
unfolding words_start
words_within [] phrase = words_start [] phrase
words_within (w ∷ words) phrase = words_start (w ∷ words) phrase || words_within words phrase

-- containsWholePhrase of vendor.go
unfoldable pub contains_words : Text → Text → Bool
contains_words key phrase =
    let words = fields phrase in not (is_empty words) && words_within (fields key) words

pub record FamilyRecord : Type 0 where
  pub id : Text
  pub vendor : Text
  pub display : Text
  pub aliases : List Text
  pub models : List Text

abbrev pub FamilyIndex : Type 0
FamilyIndex = List (Text × List FamilyRecord)

pub record ProductTable : Type 0 where
  pub by_id : List FamilyRecord
  pub by_key : FamilyIndex
  pub model_keys : FamilyIndex
  pub by_key_compact : FamilyIndex
  pub model_keys_compact : FamilyIndex
  pub keys_by_length : List Text

unfoldable pub append_unique : List FamilyRecord → FamilyRecord → List FamilyRecord
append_unique [] rec = rec ∷ []
append_unique (existing ∷ list) rec =
    let rest = append_unique list rec in
    if text_eq existing.id rec.id then existing ∷ list else existing ∷ rest

-- index[key] = appendUnique(index[key], rec)
unfoldable pub add_family : Text → FamilyRecord → FamilyIndex → FamilyIndex
unfolding append_unique
add_family key rec [] = (key, rec ∷ []) ∷ []
add_family key rec ((k, list) ∷ index) =
    let rest = add_family key rec index in
    if text_eq k key then (k, append_unique list rec) ∷ index else (k, list) ∷ rest

unfoldable pub families_of : Text → FamilyIndex → Option (List FamilyRecord)
families_of key [] = none
families_of key ((k, list) ∷ index) =
    let rest = families_of key index in if text_eq k key then some list else rest

-- The order of keysByLength: longer first, and then as texts.
unfoldable pub key_before : Text → Text → Bool
key_before s t =
    if length s == length t
    then (elim (text_compare s t) [ Ordering.lt ↦ true | _ ↦ false ])
    else ltb (length t) (length s)

-- A key in its place; it is a set, so that one that is there already is not added.
unfoldable pub add_key : Text → List Text → List Text
unfolding key_before
add_key key [] = key ∷ []
add_key key (k ∷ keys) =
    let rest = add_key key keys in
    if text_eq key k then k ∷ keys else if key_before key k then key ∷ k ∷ keys else k ∷ rest

-- An alias, and a model designation, that has a key.
unfoldable pub add_alias : FamilyRecord → ProductTable → Text → ProductTable
add_alias rec t alias =
    let key = product_key alias in
    if is_empty key then t else record t {
      by_key = add_family key rec t.by_key;
      by_key_compact = add_family (compact_key key) rec t.by_key_compact;
      keys_by_length = add_key key t.keys_by_length;
    }

unfoldable pub add_model : FamilyRecord → ProductTable → Text → ProductTable
add_model rec t model =
    let key = product_key model in
    if is_empty key then t else record t {
      model_keys = add_family key rec t.model_keys;
      model_keys_compact = add_family (compact_key key) rec t.model_keys_compact;
      keys_by_length = add_key key t.keys_by_length;
    }

unfoldable pub add_all :
    (ProductTable → Text → ProductTable) → List Text → ProductTable → ProductTable
add_all add [] t = t
add_all add (name ∷ names) t = add_all add names (add t name)

unfoldable pub has_id : Text → List FamilyRecord → Bool
has_id id [] = false
has_id id (rec ∷ list) = text_eq rec.id id || has_id id list

pub data ProductTableError : Type 0 where
  no_families : ProductTableError
  no_id : ℕ → ProductTableError
  no_vendor no_display duplicate_id : Text → ProductTableError

unfoldable pub add_record : FamilyRecord → ProductTable → ProductTable
unfolding add_alias add_model add_all
add_record rec t =
    let known = record t { by_id = t.by_id ++ rec ∷ [] } in
    add_all (add_model rec) rec.models
      (add_all (add_alias rec) (rec.display ∷ rec.id ∷ rec.aliases) known)

-- The loop over the families, from the index `idx` on.
unfoldable pub add_records : ℕ → List FamilyRecord → ProductTable → ProductTableError ⊎ ProductTable
unfolding add_record has_id
add_records idx [] t = inr t
add_records idx (rec ∷ records) t =
    let rest = add_records (suc idx) records (add_record rec t) in
    if is_empty rec.id
    then inl (no_id idx)
    else if is_empty rec.vendor
    then inl (no_vendor rec.id)
    else if is_empty rec.display
    then inl (no_display rec.id)
    else if has_id rec.id t.by_id
    then inl (duplicate_id rec.id)
    else rest

abbrev pub no_table : ProductTable
no_table = record {
  by_id = [];
  by_key = [];
  model_keys = [];
  by_key_compact = [];
  model_keys_compact = [];
  keys_by_length = [];
}

-- ParseProductTable, of the families that the YAML library decodes.
unfoldable pub parse_product_table : List FamilyRecord → ProductTableError ⊎ ProductTable
parse_product_table [] = inl no_families
parse_product_table (rec ∷ records) = add_records 0 (rec ∷ records) no_table
