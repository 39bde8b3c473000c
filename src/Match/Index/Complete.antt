-- ===== src/Match/Index/Complete.antt =====
-- The index of a corpus against a walk over all of it.
use mathlib.Core.List.{append_assoc, append-nil}
use otscout.Advisory.{Product, Advisory}
use otscout.Match.Candidate.{ProductRef}
use otscout.Match.Index.{
  index_from, index_products, refs_of, index_corpus, add_ref, VendorIndex, is_before,
}
use otscout.Prelude.{
  ℕ, Option, Bool, Text, List, if◌then◌else◌, ◌≡◌, ◌∷◌, is_empty, ◌++◌, suc, text_eq, [], false,
  true, ◌∙◌, Bool-cases, arith, ap, refl, text_eq_iff, inl, inr, sym,
}

-- The products of a vendor in the advisory `ai`, from the product `pi` on.
unfoldable pub scan_products : ℕ → ℕ → Text → List Product → List ProductRef
scan_products ai pi vendor [] = []
scan_products ai pi vendor (p ∷ products) =
    let rest = scan_products ai (suc pi) vendor products in
    if text_eq p.vendor vendor then record { advisory = ai; product = pi } ∷ rest else rest

-- Those of all advisories that are not too old, from the index `ai` on.
unfoldable pub scan_from :
    {Number : Type 0} → Option ℕ → ℕ → Text → List (Advisory Number) → List ProductRef
scan_from since ai vendor [] = []
scan_from since ai vendor (adv ∷ corpus) =
    let rest = scan_from since (suc ai) vendor corpus in
    if is_before adv.published since then rest else scan_products ai 0 vendor adv.products ++ rest

refs_of-add_ref :
    (v vendor : Text) (ref : ProductRef) (index : VendorIndex)
    → refs_of v (add_ref vendor ref index)
      ≡ (if text_eq vendor v then refs_of v index ++ ref ∷ [] else refs_of v index)
unfolding refs_of add_ref
refs_of-add_ref v vendor ref [] = ground arith
refs_of-add_ref v vendor ref ((w, refs) ∷ index) = ground (
  arith,
  refs_of-add_ref v vendor ref index,
  text_eq_iff w vendor,
  text_eq_iff w v,
  text_eq_iff vendor v,
)

add_refs :
    (v vendor : Text) (ref : ProductRef) (index : VendorIndex)
    → is_empty v ≡ false
    → refs_of v (if is_empty vendor then index else add_ref vendor ref index)
      ≡ (if text_eq vendor v then refs_of v index ++ ref ∷ [] else refs_of v index)
unfolding text_eq
add_refs [] [] ref index h = ground (arith, h)
add_refs (d ∷ v) [] ref index h = refl
add_refs v (c ∷ vendor) ref index h = refs_of-add_ref v (c ∷ vendor) ref index

append_if :
    (b : Bool) (ref : ProductRef) (refs rest : List ProductRef)
    → (if b then refs ++ ref ∷ [] else refs) ++ rest ≡ refs ++ (if b then ref ∷ rest else rest)
append_if true ref refs rest = append_assoc refs (ref ∷ []) rest
append_if false ref refs rest = refl

refs_of-index_products :
    (ai pi : ℕ) (v : Text) (products : List Product) (index : VendorIndex)
    → is_empty v ≡ false
    → refs_of v (index_products ai pi products index)
      ≡ refs_of v index ++ scan_products ai pi v products
unfolding index_products scan_products
refs_of-index_products ai pi v [] index h = sym (append-nil (refs_of v index))
refs_of-index_products ai pi v (p ∷ products) index h =
    refs_of-index_products ai (suc pi) v products _ h
    ∙ ap (λ refs. refs ++ scan_products ai (suc pi) v products) (add_refs v p.vendor _ index h)
    ∙ append_if (text_eq p.vendor v) _ (refs_of v index) (scan_products ai (suc pi) v products)

refs_of-index_from :
    {Number : Type 0} (since : Option ℕ) (ai : ℕ) (v : Text) (corpus : List (Advisory Number))
    (index : VendorIndex)
    → is_empty v ≡ false
    → refs_of v (index_from since ai corpus index) ≡ refs_of v index ++ scan_from since ai v corpus
unfolding index_from scan_from
refs_of-index_from since ai v [] index h = sym (append-nil (refs_of v index))
refs_of-index_from since ai v (adv ∷ corpus) index h =
    elim (Bool-cases (is_before adv.published since)) [
      | inl e ↦ rw e (refs_of-index_from since (suc ai) v corpus index h)
      | inr e ↦ rw e (
          refs_of-index_from since (suc ai) v corpus _ h
          ∙ ap (λ refs. refs ++ scan_from since (suc ai) v corpus)
              (refs_of-index_products ai 0 v adv.products index h)
          ∙ append_assoc (refs_of v index) (scan_products ai 0 v adv.products)
              (scan_from since (suc ai) v corpus))
    ]

-- What the index has for a vendor is what a walk over the whole corpus finds, in its order: every
-- product of that vendor in an advisory that is not too old, and no other. The vendor is not the empty
-- one, whose products are not indexed.
pub refs_of-index_corpus :
    {Number : Type 0} (since : Option ℕ) (v : Text) (corpus : List (Advisory Number))
    → is_empty v ≡ false
    → refs_of v (index_corpus since corpus) ≡ scan_from since 0 v corpus
unfolding index_corpus refs_of
refs_of-index_corpus since v corpus h = refs_of-index_from since 0 v corpus [] h
