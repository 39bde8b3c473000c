-- ===== src/Match/Index.antt =====
-- The index of a corpus by vendor (internal/match/match.go). A reference to a product is the two
-- indexes of the source; one that is out of range would be a panic there and is `none` here.
pub mod Sound
pub mod Complete
use otscout.Match.Candidate.{ProductRef}
use otscout.Advisory.{Product, Advisory}
use otscout.Prelude.{
  Option, Text, ℕ, List, Bool, none, ◌∷◌, some, [], ◌∷◌, ltb, if◌then◌else◌, suc, zero, text_eq,
  is_empty, false, ◌++◌,
}

abbrev pub VendorIndex : Type 0
VendorIndex = List (Text × List ProductRef)

-- byVendor[vendor] = append(byVendor[vendor], ref)
unfoldable pub add_ref : Text → ProductRef → VendorIndex → VendorIndex
add_ref vendor ref [] = (vendor, ref ∷ []) ∷ []
add_ref vendor ref ((v, refs) ∷ index) =
    let rest = add_ref vendor ref index in
    if text_eq v vendor then (v, refs ++ ref ∷ []) ∷ index else (v, refs) ∷ rest

-- byVendor[vendor], which is empty where the vendor is not there.
unfoldable pub refs_of : Text → VendorIndex → List ProductRef
refs_of vendor [] = []
refs_of vendor ((v, refs) ∷ index) =
    let rest = refs_of vendor index in if text_eq v vendor then refs else rest

-- The loop over the products of the advisory `ai`, from the product `pi` on.
unfoldable pub index_products : ℕ → ℕ → List Product → VendorIndex → VendorIndex
unfolding add_ref
index_products ai pi [] index = index
index_products ai pi (p ∷ products) index = index_products ai (suc pi) products (
    if is_empty p.vendor
    then index
    else add_ref p.vendor (record { advisory = ai; product = pi }) index)

-- A time is a number, and `none` is the zero time.
unfoldable pub is_before : Option ℕ → Option ℕ → Bool
is_before (some published) (some since) = ltb published since
is_before _ _ = false

unfoldable pub nth : {A : Type 0} → List A → ℕ → Option A
nth [] n = none
nth (x ∷ xs) zero = some x
nth (x ∷ xs) (suc n) = nth xs n

module _ {Number : Type 0} where
  -- The loop over the advisories, from the index `ai` on.
  unfoldable pub index_from : Option ℕ → ℕ → List (Advisory Number) → VendorIndex → VendorIndex
  unfolding index_products is_before
  index_from since ai [] index = index
  index_from since ai (adv ∷ corpus) index =
      index_from since (suc ai) corpus
        (if is_before adv.published since then index else index_products ai 0 adv.products index)

  unfoldable pub index_corpus : Option ℕ → List (Advisory Number) → VendorIndex
  unfolding index_from
  index_corpus since corpus = index_from since 0 corpus []

  -- corpus.Advisories[ref.advisory].Products[ref.product]
  unfoldable pub product_at : List (Advisory Number) → ProductRef → Option Product
  unfolding nth
  product_at corpus ref = elim (nth corpus ref.advisory) [
    | none ↦ none
    | some adv ↦ nth adv.products ref.product
  ]
