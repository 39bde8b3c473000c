-- ===== src/Match/Attach/Distinct.antt =====
-- A list without repeats, in order.
use otscout.Match.Candidate.Best.{insert_before-All}
use otscout.Match.Fields.{has_key}
use otscout.Match.Attach.{distinct, dedupe}
use otscout.Normalize.Version.Order.{text_compare_trans, text_compare_swap, text_compare-eq}
use otscout.Match.Candidate.{text_lt, insert_before, sort_onto, stable_sort}
use otscout.Prelude.{
  Text, List, text_eq, ◌∷◌, All, ◌≡◌, true, false, [], arith, text_eq_iff, Bool-cases, is_empty,
  not, ◌&&◌, inl, All-map, ◌||◌, inr, ◌∙◌, text_eq_refl, refl,
}

-- s is not behind t.
abbrev pub InOrder : Text → Text → Type 0
InOrder s t = text_lt t s ≡ false

-- Each text is before all that follow it, so that the list is sorted and has no repeats.
abbrev pub Ascending : List Text → Type 0
Ascending [] = Unit
Ascending (s ∷ ss) = All (λ (t : Text). text_lt s t ≡ true) ss × Ascending ss

text_lt_trans : (s t u : Text) → text_lt s t ≡ true → text_lt t u ≡ true → text_lt s u ≡ true
text_lt_trans s t u h k = ground (arith, h, k, text_compare_trans s t u)

text_lt_total : (s t : Text) → text_eq s t ≡ false → text_lt s t ≡ false → text_lt t s ≡ true
text_lt_total s t h k =
    ground (arith, h, k, text_compare_swap s t, text_compare-eq s t, text_eq_iff s t)

insert_before-Ascending :
    (x : Text) (ys : List Text)
    → All (λ (y : Text). text_eq x y ≡ false) ys
    → Ascending ys
    → Ascending (insert_before text_lt x ys)
unfolding insert_before
insert_before-Ascending x [] h k = (tt, tt)
insert_before-Ascending x (y ∷ ys) h k = elim (Bool-cases (text_lt x y)) [
  | inl e ↦ rw (Ascending, e) ((e, All-map _ _ (λ t q. text_lt_trans x y t e q) ys k.0), k)
  | inr e ↦
      rw (Ascending, e)
        (
          insert_before-All text_lt (λ (t : Text). text_lt y t ≡ true) x ys
              (text_lt_total x y h.0 e) k.0,
          insert_before-Ascending x ys h.1 k.1,
        )
]

-- No two of the texts are the same.
abbrev pub Apart : List Text → Type 0
Apart [] = Unit
Apart (s ∷ ss) = All (λ (t : Text). text_eq s t ≡ false) ss × Apart ss

abbrev pub Away : List Text → List Text → Type 0
Away xs ys = All (λ (x : Text). All (λ (y : Text). text_eq x y ≡ false) ys) xs

pub text_eq_swap : (s t : Text) → text_eq s t ≡ false → text_eq t s ≡ false
text_eq_swap s t h = ground (arith, h, text_eq_iff s t, text_eq_iff t s)

Away-insert_before :
    (x : Text) (xs sorted : List Text)
    → All (λ (t : Text). text_eq x t ≡ false) xs
    → Away xs sorted
    → Away xs (insert_before text_lt x sorted)
Away-insert_before x [] sorted h w = tt
Away-insert_before x (t ∷ xs) sorted h w = (
  insert_before-All text_lt (λ (y : Text). text_eq t y ≡ false) x sorted (text_eq_swap x t h.0) w.0,
  Away-insert_before x xs sorted h.1 w.1,
)

pub Away-nothing : (xs : List Text) → Away xs []
Away-nothing [] = tt
Away-nothing (x ∷ xs) = (tt, Away-nothing xs)

pub sort_onto-Ascending :
    (sorted xs : List Text)
    → Ascending sorted
    → Apart xs
    → Away xs sorted
    → Ascending (sort_onto text_lt sorted xs)
unfolding sort_onto
sort_onto-Ascending sorted [] h k w = h
sort_onto-Ascending sorted (x ∷ xs) h k w =
    sort_onto-Ascending (insert_before text_lt x sorted) xs (insert_before-Ascending x sorted w.0 h)
      k.1 (Away-insert_before x xs sorted k.0 w.1)

other_key :
    (s value : Text) (seen : List Text)
    → has_key s seen ≡ true
    → has_key value seen ≡ false
    → text_eq s value ≡ false
other_key s value seen h k = ground (arith, h, k, text_eq_iff s value)

distinct-away :
    (seen values : List Text) (s : Text)
    → has_key s seen ≡ true
    → All (λ (t : Text). text_eq s t ≡ false) (distinct seen values)
unfolding distinct has_key
distinct-away seen [] s h = tt
distinct-away seen (value ∷ values) s h = elim (Bool-cases (is_empty value || has_key value seen)) [
  | inl e ↦ rw (All, e) (distinct-away seen values s h)
  | inr e ↦
      rw (All, e)
        (
          other_key s value seen h (ground (arith, e)),
          distinct-away (value ∷ seen) values s (ground (arith, h)),
        )
]

has_key-here : (s : Text) (seen : List Text) → has_key s (s ∷ seen) ≡ true
unfolding has_key
has_key-here s seen = ground (arith, text_eq_refl s)

distinct-Apart : (seen values : List Text) → Apart (distinct seen values)
unfolding distinct
distinct-Apart seen [] = tt
distinct-Apart seen (value ∷ values) = elim (Bool-cases (is_empty value || has_key value seen)) [
  | inl e ↦ rw (Apart, e) (distinct-Apart seen values)
  | inr e ↦
      rw (Apart, e)
        (
          distinct-away (value ∷ seen) values value (has_key-here value seen),
          distinct-Apart (value ∷ seen) values,
        )
]

has_key-insert_before :
    (v x : Text) (ys : List Text)
    → has_key v (insert_before text_lt x ys) ≡ (text_eq x v || has_key v ys)
unfolding insert_before has_key
has_key-insert_before v x [] = refl
has_key-insert_before v x (y ∷ ys) = ground (arith, has_key-insert_before v x ys)

pub has_key-sort_onto :
    (v : Text) (sorted xs : List Text)
    → has_key v (sort_onto text_lt sorted xs) ≡ (has_key v sorted || has_key v xs)
unfolding sort_onto has_key
has_key-sort_onto v sorted [] = ground arith
has_key-sort_onto v sorted (x ∷ xs) = ground (
  arith,
  has_key-sort_onto v (insert_before text_lt x sorted) xs,
  has_key-insert_before v x sorted,
)

has_key-distinct :
    (v : Text) (seen values : List Text)
    → is_empty v ≡ false
    → (has_key v seen || has_key v (distinct seen values)) ≡ (has_key v seen || has_key v values)
unfolding distinct has_key
has_key-distinct v seen [] h = refl
has_key-distinct v seen (value ∷ values) h = ground (
  arith,
  h,
  has_key-distinct v seen values h,
  has_key-distinct v (value ∷ seen) values h,
  text_eq_iff value v,
)

has_key-no_empty : (seen values : List Text) → has_key [] (distinct seen values) ≡ false
unfolding distinct has_key text_eq
has_key-no_empty seen [] = refl
has_key-no_empty seen ([] ∷ values) = has_key-no_empty seen values
has_key-no_empty seen ((c ∷ value) ∷ values) =
    ground (arith, has_key-no_empty seen values, has_key-no_empty ((c ∷ value) ∷ seen) values)

has_key-kept :
    (v : Text) (values : List Text)
    → has_key v (distinct [] values) ≡ (not (is_empty v) && has_key v values)
unfolding has_key
has_key-kept [] values = has_key-no_empty [] values
has_key-kept (c ∷ v) values = has_key-distinct (c ∷ v) [] values refl

-- What dedupe returns is in strictly ascending order, so that it has no repeats; the empty text is not
-- in it, and any other is exactly if it is in the list.
pub dedupe-Ascending :
    (values : List Text)
    → Ascending (dedupe values)
      × ((v : Text) → has_key v (dedupe values) ≡ (not (is_empty v) && has_key v values))
unfolding dedupe stable_sort has_key
dedupe-Ascending values = (
  sort_onto-Ascending [] (distinct [] values) tt (distinct-Apart [] values)
      (Away-nothing (distinct [] values)),
  λ v. has_key-sort_onto v [] (distinct [] values) ∙ has_key-kept v values,
)
