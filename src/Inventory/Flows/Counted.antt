-- ===== src/Inventory/Flows/Counted.antt =====
-- Merging flows loses no packet and no byte, and leaves one flow for a key.
use otscout.Inventory.Flows.{Flow, key_of, u64_mod, fold_flow, place_flow, merge_onto, merge_flows}
use otscout.Prelude.{
  List, Text, ℕ, [], ◌∷◌, ◌+◌, ◌%◌, ◌≡◌, ◌∙◌, All, Bool-cases, inl, inr, false, refl, arith,
  if◌then◌else◌, text_eq, text_eq_iff,
}

-- The sum of a counter over the flows with the key.
unfoldable pub sum_at : (Flow → ℕ) → Text → List Flow → ℕ
sum_at count key [] = 0
sum_at count key (f ∷ flows) =
    (if text_eq (key_of f) key then count f else 0) + sum_at count key flows

-- No two of the flows have the same key.
abbrev pub OneForKey : List Flow → Type 0
OneForKey [] = Unit
OneForKey (f ∷ flows) =
    All (λ (g : Flow). text_eq (key_of f) (key_of g) ≡ false) flows × OneForKey flows

key-fold_flow : (existing f : Flow) → key_of (fold_flow existing f) ≡ key_of existing
unfolding key_of fold_flow
key-fold_flow existing f = refl

place_flow-All :
    (f e : Flow) (flows : List Flow)
    → text_eq (key_of e) (key_of f) ≡ false
    → All (λ (g : Flow). text_eq (key_of e) (key_of g) ≡ false) flows
    → All (λ (g : Flow). text_eq (key_of e) (key_of g) ≡ false) (place_flow f flows)
unfolding place_flow
place_flow-All f e [] h k = (h, tt)
place_flow-All f e (x ∷ flows) h k = elim (Bool-cases (text_eq (key_of x) (key_of f))) [
  | inl here ↦ rw (All, here) (k.0, k.1)
  | inr there ↦ rw (All, there) (k.0, place_flow-All f e flows h k.1)
]

place_flow-OneForKey :
    (f : Flow) (flows : List Flow) → OneForKey flows → OneForKey (place_flow f flows)
unfolding place_flow
place_flow-OneForKey f [] h = (tt, tt)
place_flow-OneForKey f (x ∷ flows) h = elim (Bool-cases (text_eq (key_of x) (key_of f))) [
  | inl here ↦ rw (OneForKey, here) (h.0, h.1)
  | inr there ↦
      rw (OneForKey, there) (place_flow-All f x flows there h.0, place_flow-OneForKey f flows h.1)
]

module _ (count : Flow → ℕ)
    (adds : (e f : Flow) → count (fold_flow e f) ≡ (count e + count f) % u64_mod) where
  sum_at-place_flow :
      (key : Text) (f : Flow) (flows : List Flow)
      → sum_at count key (place_flow f flows) % u64_mod
        ≡ (sum_at count key flows + sum_at count key (f ∷ [])) % u64_mod
  unfolding sum_at place_flow
  sum_at-place_flow key f [] = omega arith
  sum_at-place_flow key f (x ∷ flows) = ground (
    arith,
    sum_at-place_flow key f flows,
    adds x f,
    key-fold_flow x f,
    text_eq_iff (key_of x) (key_of f),
    text_eq_iff (key_of x) key,
    text_eq_iff (key_of f) key,
  )

  sum_at-merge_onto :
      (key : Text) (out flows : List Flow)
      → sum_at count key (merge_onto out flows) % u64_mod
        ≡ (sum_at count key out + sum_at count key flows) % u64_mod
  unfolding sum_at merge_onto
  sum_at-merge_onto key out [] = omega arith
  sum_at-merge_onto key out (f ∷ flows) =
      omega (arith, sum_at-merge_onto key (place_flow f out) flows, sum_at-place_flow key f out)

packets_add : (e f : Flow) → (fold_flow e f).packets ≡ (e.packets + f.packets) % u64_mod
unfolding fold_flow
packets_add e f = refl

bytes_add : (e f : Flow) → (fold_flow e f).bytes ≡ (e.bytes + f.bytes) % u64_mod
unfolding fold_flow
bytes_add e f = refl

merge_onto-OneForKey : (out flows : List Flow) → OneForKey out → OneForKey (merge_onto out flows)
unfolding merge_onto
merge_onto-OneForKey out [] h = h
merge_onto-OneForKey out (f ∷ flows) h =
    merge_onto-OneForKey (place_flow f out) flows (place_flow-OneForKey f out h)

-- What MergeFlows returns has one flow for a key, and for every key the packets and the bytes of its
-- flow are those of all the flows with that key that were given, added up modulo 2 ^ 64.
pub merge_flows-Counts :
    (flows : List Flow)
    → OneForKey (merge_flows flows)
      × ((key : Text)
          → (sum_at Flow.packets key (merge_flows flows) % u64_mod
              ≡ sum_at Flow.packets key flows % u64_mod)
            × (sum_at Flow.bytes key (merge_flows flows) % u64_mod
                ≡ sum_at Flow.bytes key flows % u64_mod))
unfolding merge_flows sum_at
merge_flows-Counts flows = (
  merge_onto-OneForKey [] flows tt,
  λ key. (
    sum_at-merge_onto Flow.packets packets_add key [] flows ∙ omega arith,
    sum_at-merge_onto Flow.bytes bytes_add key [] flows ∙ omega arith,
  ),
)
