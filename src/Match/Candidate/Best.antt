-- ===== src/Match/Candidate/Best.antt =====
-- The stable sort, and that the candidate in front is the best.
use otscout.Normalize.Version.Order.{text_compare_swap, text_compare_trans}
use otscout.Prelude.{
  Bool, List, ℕ, ◌∷◌, ◌≡◌, All, ◌+◌, false, [], Bool-cases, true, inl, arith, refl, inr, All-map,
}
use otscout.Match.Candidate.{beats, Candidate, stable_sort, insert_before, sort_onto}

module _ {A : Type 0} (before : A → A → Bool) (P : A → Type 0) where
  pub insert_before-All : (x : A) (ys : List A) → P x → All P ys → All P (insert_before before x ys)
  unfolding insert_before
  insert_before-All x [] h k = (h, tt)
  insert_before-All x (y ∷ ys) h k = elim (Bool-cases (before x y)) [
    | inl e ↦ rw (All, e) (h, k)
    | inr e ↦ rw (All, e) (k.0, insert_before-All x ys h k.1)
  ]

  sort_onto-All :
      (sorted xs : List A) → All P sorted → All P xs → All P (sort_onto before sorted xs)
  unfolding sort_onto
  sort_onto-All sorted [] h k = h
  sort_onto-All sorted (x ∷ xs) h k =
      sort_onto-All (insert_before before x sorted) xs (insert_before-All x sorted k.0 h) k.1

  -- What holds of all elements holds of all of the sorted list.
  pub stable_sort-All : (xs : List A) → All P xs → All P (stable_sort before xs)
  unfolding stable_sort
  stable_sort-All xs h = sort_onto-All [] xs tt h

unfoldable pub sum_of : {A : Type 0} → (A → ℕ) → List A → ℕ
sum_of f [] = 0
sum_of f (x ∷ xs) = f x + sum_of f xs

-- A sort does not change the sum of a measure.
module _ {A : Type 0} (before : A → A → Bool) (f : A → ℕ) where
  insert_before-sum :
      (x : A) (ys : List A) → sum_of f (insert_before before x ys) ≡ f x + sum_of f ys
  unfolding insert_before sum_of
  insert_before-sum x [] = refl
  insert_before-sum x (y ∷ ys) = ground (arith, insert_before-sum x ys)

  sort_onto-sum :
      (sorted xs : List A) → sum_of f (sort_onto before sorted xs) ≡ sum_of f sorted + sum_of f xs
  unfolding sort_onto sum_of
  sort_onto-sum sorted [] = omega arith
  sort_onto-sum sorted (x ∷ xs) =
      omega (arith, sort_onto-sum (insert_before before x sorted) xs, insert_before-sum x sorted)

  pub stable_sort-sum : (xs : List A) → sum_of f (stable_sort before xs) ≡ sum_of f xs
  unfolding stable_sort sum_of
  stable_sort-sum xs = omega (arith, sort_onto-sum [] xs)

beats_trans : (a b c : Candidate) → beats a b ≡ true → beats b c ≡ true → beats a c ≡ true
unfolding beats
beats_trans a b c h k =
    ground (arith, h, k, text_compare_trans a.product.id b.product.id c.product.id)

beats_asym : (a b : Candidate) → beats a b ≡ true → beats b a ≡ false
unfolding beats
beats_asym a b h = ground (arith, h, text_compare_swap a.product.id b.product.id)

-- No element is before the first.
abbrev pub Unbeaten : List Candidate → Type 0
Unbeaten [] = Unit
Unbeaten (best ∷ others) = All (λ (c : Candidate). beats c best ≡ false) (best ∷ others)

beats_irrefl : (a : Candidate) → beats a a ≡ false
beats_irrefl a = ground (arith, beats_asym a a)

not_beats : (c x y : Candidate) → beats x y ≡ true → beats c y ≡ false → beats c x ≡ false
not_beats c x y h k = ground (arith, h, k, beats_trans c x y)

insert_before-Unbeaten :
    (x : Candidate) (ys : List Candidate) → Unbeaten ys → Unbeaten (insert_before beats x ys)
unfolding insert_before
insert_before-Unbeaten x [] h = (beats_irrefl x, tt)
insert_before-Unbeaten x (y ∷ ys) h = elim (Bool-cases (beats x y)) [
  | inl e ↦ rw (Unbeaten, e) (beats_irrefl x, All-map _ _ (λ c. not_beats c x y e) (y ∷ ys) h)
  | inr e ↦
      rw (Unbeaten, e)
        (h.0, insert_before-All beats (λ (c : Candidate). beats c y ≡ false) x ys e h.1)
]

sort_onto-Unbeaten :
    (sorted xs : List Candidate) → Unbeaten sorted → Unbeaten (sort_onto beats sorted xs)
unfolding sort_onto
sort_onto-Unbeaten sorted [] h = h
sort_onto-Unbeaten sorted (x ∷ xs) h =
    sort_onto-Unbeaten (insert_before beats x sorted) xs (insert_before-Unbeaten x sorted h)

-- The order of the candidates of an advisory never contradicts itself, so that the one a finding is
-- built from is a best one: no candidate beats the first of the sorted ones. Each of the candidates is
-- among the sorted ones as often as it was.
pub stable_sort-Unbeaten :
    (cs : List Candidate)
    → Unbeaten (stable_sort beats cs)
      × ((f : Candidate → ℕ) → sum_of f (stable_sort beats cs) ≡ sum_of f cs)
unfolding stable_sort
stable_sort-Unbeaten cs = (sort_onto-Unbeaten [] cs tt, λ f. stable_sort-sum beats f cs)
