-- ===== src/Asset/Identity/Merge.antt =====
-- The laws of merging: it is a monoid in which what was known first stays.
use otscout.Prelude.{◌≡◌, refl, false, ◌&&◌, [], ◌∷◌, arith, is_empty, Text}
use otscout.Asset.Identity.{Identity, no_identity, empty, merge_string, merge}

-- A field that is filled in survives every later observation.
pub merge_string-kept : (s t : Text) → is_empty s ≡ false → merge_string s t ≡ s
unfolding merge_string
merge_string-kept s t h = ground arith

merge_string_assoc :
    (s t u : Text) → merge_string (merge_string s t) u ≡ merge_string s (merge_string t u)
unfolding merge_string
merge_string_assoc [] t u = refl
merge_string_assoc (c ∷ s) t u = refl

merge_string-nil : (s : Text) → merge_string s [] ≡ s
unfolding merge_string
merge_string-nil [] = refl
merge_string-nil (c ∷ s) = refl

merge_string-empty : (s t : Text) → is_empty (merge_string s t) ≡ (is_empty s && is_empty t)
unfolding merge_string
merge_string-empty [] t = refl
merge_string-empty (c ∷ s) t = refl

-- Merging is associative, so observations may be grouped as they arrive, and an observation that
-- says nothing is its unit on both sides.
pub merge-monoid :
    (a b c : Identity)
    → (merge (merge a b) c ≡ merge a (merge b c))
      × (merge a no_identity ≡ a)
      × (merge no_identity a ≡ a)
unfolding merge merge_string
merge-monoid a b c = (simp merge_string_assoc, simp merge_string-nil, refl)

-- Nothing is known after a merge exactly when nothing was known on either side.
pub empty-merge : (a b : Identity) → empty (merge a b) ≡ (empty a && empty b)
unfolding empty merge
empty-merge a b = simp merge_string-empty (ground arith)
