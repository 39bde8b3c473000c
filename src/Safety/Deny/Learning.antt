-- ===== src/Safety/Deny/Learning.antt =====
-- What a run learns about a device never releases it from a rule.
use otscout.Prelude.{
  ◌≡◌, ◌≢◌, refl, true, false, none, some, [], ◌∷◌, List, Option, arith, Option-cases, inl, inr,
  is_empty, equal_fold, contains, to_lower, Text,
}
use otscout.Asset.Identity.{Identity, merge, merge_string}
use otscout.Asset.Identity.Merge.{merge_string-kept, empty-merge}
use otscout.Safety.Exchange.{Exchange}
use otscout.Safety.Deny.{DenyRule, contains_fold, fits_device, matches, check, check_list}

-- A text that a non-empty one is folded against is not empty.
equal_fold-filled : (s t : Text) → is_empty s ≡ false → equal_fold s t ≡ true → is_empty t ≡ false
unfolding equal_fold
equal_fold-filled [] t h e = cc
equal_fold-filled (c ∷ s) [] h e = cc
equal_fold-filled (c ∷ s) (d ∷ t) h e = refl

contains_fold-filled :
    (s t : Text) → is_empty t ≡ false → contains_fold s t ≡ true → is_empty s ≡ false
unfolding contains_fold contains to_lower
contains_fold-filled s [] h e = cc
contains_fold-filled [] (c ∷ t) h e = cc
contains_fold-filled (d ∷ s) (c ∷ t) h e = refl

module _ (r : DenyRule) (a b : Identity) where
  vendor-kept :
      is_empty r.vendor ≡ false
      → equal_fold r.vendor a.vendor ≡ true
      → merge_string a.vendor b.vendor ≡ a.vendor
  vendor-kept h e = merge_string-kept a.vendor b.vendor (equal_fold-filled r.vendor a.vendor h e)

  contains_fold-kept :
      (s t needle : Text)
      → is_empty needle ≡ false
      → contains_fold s needle ≡ true
      → merge_string s t ≡ s
  contains_fold-kept s t needle h e = merge_string-kept s t (contains_fold-filled s needle h e)

  fits_device-merge : fits_device r a ≡ true → fits_device r (merge a b) ≡ true
  unfolding fits_device merge
  fits_device-merge h = ground (
    arith,
    empty-merge a b,
    vendor-kept,
    contains_fold-kept a.family b.family r.family,
    contains_fold-kept a.product b.product r.product,
    contains_fold-kept a.product_raw b.product_raw r.product,
  )

  -- A rule that applies to a device applies still after any further observation of it.
  pub matches-merge : (ex : Exchange) → matches r a ex ≡ true → matches r (merge a b) ex ≡ true
  unfolding matches
  matches-merge ex h = ground (arith, fits_device-merge)

module _ (a b : Identity) (ex : Exchange) where
  check_list-merge :
      (rules : List DenyRule)
      → check_list rules a ex ≢ none
      → check_list rules (merge a b) ex ≢ none
  unfolding check_list
  check_list-merge [] h = h
  check_list-merge (r ∷ rules) h = ground (arith, matches-merge r a b ex, check_list-merge rules)

  -- An exchange that is denied to a device stays denied, whatever else is learned of the device.
  pub check-merge :
      (rules : Option (List DenyRule)) → check rules a ex ≢ none → check rules (merge a b) ex ≢ none
  unfolding check
  check-merge none h = h
  check-merge (some rules) h = check_list-merge rules h

  -- What is free to be asked of a device was so before more was learned of it.
  pub check-unmerge :
      (rules : Option (List DenyRule)) → check rules (merge a b) ex ≡ none → check rules a ex ≡ none
  check-unmerge rules free = elim (Option-cases (check rules a ex)) [
    | inl e ↦ e
    | inr (r, e) ↦ absurd (check-merge rules (λ n. cc) free)
  ]
