-- ===== src/Match/Index/Sound.antt =====
-- What the index of a corpus refers to.
use mathlib.Core.Path.{subst}
use otscout.Match.Candidate.{ProductRef}
use otscout.Match.Index.{
  index_from, index_products, VendorIndex, refs_of, index_corpus, add_ref, nth, product_at,
  is_before,
}
use otscout.Advisory.{Advisory, Product}
use otscout.Prelude.{
  List, Text, ℕ, All, Option, ◌≡◌, [], ap, ◌+◌, some, ◌∷◌, ◌∙◌, Bool-cases, arith, suc, is_empty,
  text_eq, inl, inr, All-append, sym, text_eq_iff, refl,
}

-- The reference is in range, and is to a product of the vendor.
abbrev Points : {Number : Type 0} → List (Advisory Number) → Text → ProductRef → Type 0
Points corpus v ref = (p : Product) × (product_at corpus ref ≡ some p) × (p.vendor ≡ v)

abbrev IndexPoints : {Number : Type 0} → List (Advisory Number) → VendorIndex → Type 0
IndexPoints corpus index =
    All (λ (entry : Text × List ProductRef). All (Points corpus entry.0) entry.1) index

module _ {Number : Type 0} (corpus : List (Advisory Number)) where
  add_ref-IndexPoints :
      (vendor : Text) (ref : ProductRef) (index : VendorIndex)
      → Points corpus vendor ref
      → IndexPoints corpus index
      → IndexPoints corpus (add_ref vendor ref index)
  unfolding add_ref
  add_ref-IndexPoints vendor ref [] here h = ((here, tt), tt)
  add_ref-IndexPoints vendor ref ((v, refs) ∷ index) here h = elim (Bool-cases (text_eq v vendor)) [
    | inl e ↦
        rw (IndexPoints, e)
          (
            All-append (Points corpus v) refs (ref ∷ []) h.0
                (subst (λ w. Points corpus w ref) (sym ((text_eq_iff v vendor).0 e)) here, tt),
            h.1,
          )
    | inr e ↦ rw (IndexPoints, e) (h.0, add_ref-IndexPoints vendor ref index here h.1)
  ]

  refs_of-All :
      (vendor : Text) (index : VendorIndex)
      → IndexPoints corpus index
      → All (Points corpus vendor) (refs_of vendor index)
  unfolding refs_of
  refs_of-All vendor [] h = tt
  refs_of-All vendor ((v, refs) ∷ index) h = elim (Bool-cases (text_eq v vendor)) [
    | inl e ↦ rw (All, e) (subst (λ w. All (Points corpus w) refs) ((text_eq_iff v vendor).0 e) h.0)
    | inr e ↦ rw (All, e) (refs_of-All vendor index h.1)
  ]

  index_products-IndexPoints :
      (ai pi : ℕ) (adv : Advisory Number) (products : List Product) (index : VendorIndex)
      → nth corpus ai ≡ some adv
      → ((k j : ℕ) → j ≡ pi + k → nth adv.products j ≡ nth products k)
      → IndexPoints corpus index
      → IndexPoints corpus (index_products ai pi products index)
  unfolding index_products nth product_at
  index_products-IndexPoints ai pi adv [] index at within h = h
  index_products-IndexPoints ai pi adv (p ∷ products) index at within h =
      index_products-IndexPoints ai (suc pi) adv products _ at
        (λ k j e. within (suc k) j (omega (arith, e)))
        (elim (Bool-cases (is_empty p.vendor)) [
          | inl e ↦ rw (IndexPoints, e) h
          | inr e ↦
              rw (IndexPoints, e)
                (add_ref-IndexPoints p.vendor _ index
                  (p, rw (product_at, at) (within 0 pi (omega arith)), refl) h)
        ])

  index_from-IndexPoints :
      (since : Option ℕ) (ai : ℕ) (rest : List (Advisory Number)) (index : VendorIndex)
      → ((k j : ℕ) → j ≡ ai + k → nth corpus j ≡ nth rest k)
      → IndexPoints corpus index
      → IndexPoints corpus (index_from since ai rest index)
  unfolding index_from nth
  index_from-IndexPoints since ai [] index within h = h
  index_from-IndexPoints since ai (adv ∷ rest) index within h =
      index_from-IndexPoints since (suc ai) rest _ (λ k j e. within (suc k) j (omega (arith, e)))
        (elim (Bool-cases (is_before adv.published since)) [
          | inl e ↦ rw (IndexPoints, e) h
          | inr e ↦
              rw (IndexPoints, e)
                (index_products-IndexPoints ai 0 adv adv.products index (within 0 ai (omega arith))
                  (λ k j q. ap (nth adv.products) (q ∙ omega arith)) h)
        ])

  -- Every reference that the index has for a vendor is to a product of the corpus, and to one whose
  -- vendor it is.
  index_corpus-Points :
      (since : Option ℕ) (vendor : Text)
      → All (Points corpus vendor) (refs_of vendor (index_corpus since corpus))
  unfolding index_corpus
  index_corpus-Points since vendor =
      refs_of-All vendor (index_corpus since corpus)
        (index_from-IndexPoints since 0 corpus [] (λ k j e. ap (nth corpus) (e ∙ omega arith)) tt)
