-- ===== src/Match/Candidate.antt =====
-- The candidates of one advisory, their order and the confidence tier (internal/match/match.go,
-- internal/finding/finding.go).
pub mod Best
use otscout.Normalize.Constraint.{all, eq}
use Prim.Native.Nat.{Ordering}
use otscout.Normalize.Version.{text_compare, trim_space}
use otscout.Match.Fields.{strength_order, strength_none}
use otscout.Asset.Identity.{Identity}
use otscout.Advisory.{Product, first_non_empty}
use otscout.Normalize.Evaluate.{EvalResult, Evaluation, affected, indeterminate, not_affected}
use otscout.Prelude.{
  Bool, ℕ, Text, Option, List, [], ◌∷◌, none, false, ◌∷◌, if◌then◌else◌, ◌==◌, equal_fold, true,
  some, ltb,
}
use otscout.Match.Compare.{
  passed_reason, IdentityMatch, ReasonKind, Reason, version_checked, version_unknown,
  version_all_affected, version_exact, vendor_exact, same_vendor, version_in_range, vendor_alias,
  alias_vendor,
}

pub data Tier : Type 0 where
  tier_confirmed tier_likely tier_possible : Tier

-- Tier.Rank
abbrev pub tier_rank : Tier → ℕ
tier_rank tier_confirmed = 3
tier_rank tier_likely = 2
tier_rank tier_possible = 1

-- A product node of the corpus: the index of the advisory, and that of the product in it.
pub record ProductRef : Type 0 where
  pub advisory : ℕ
  pub product : ℕ

pub record Candidate : Type 0 where
  pub ref : ProductRef
  pub product : Product
  pub identity : IdentityMatch
  pub eval : Evaluation

abbrev pub eval_rank : EvalResult → ℕ
eval_rank affected = 2
eval_rank _ = 1

-- s < t
abbrev pub text_lt : Text → Text → Bool
text_lt s t = elim (text_compare s t) [ Ordering.lt ↦ true | _ ↦ false ]

-- candidate.beats
unfoldable pub beats : Candidate → Candidate → Bool
beats c other =
    let strong = strength_order c.identity.strength in
    let strong' = strength_order other.identity.strength in
    let mine = eval_rank c.eval.result in
    let theirs = eval_rank other.eval.result in
    let by_id = text_lt c.product.id other.product.id in
    let by_rank = if mine == theirs then by_id else ltb theirs mine in
    let by_strength = if strong == strong' then by_rank else ltb strong' strong in
    if c.identity.advisory_more_specific
    then (if other.identity.advisory_more_specific then by_strength else false)
    else if other.identity.advisory_more_specific
    then true
    else by_strength

-- sort.SliceStable: each element goes in front of the first that it is before.
unfoldable pub insert_before : {A : Type 0} → (A → A → Bool) → A → List A → List A
insert_before before x [] = x ∷ []
insert_before before x (y ∷ ys) =
    let rest = insert_before before x ys in if before x y then x ∷ y ∷ ys else y ∷ rest

unfoldable pub sort_onto : {A : Type 0} → (A → A → Bool) → List A → List A → List A
unfolding insert_before
sort_onto before sorted [] = sorted
sort_onto before sorted (x ∷ xs) = sort_onto before (insert_before before x sorted) xs

unfoldable pub stable_sort : {A : Type 0} → (A → A → Bool) → List A → List A
unfolding sort_onto
stable_sort before xs = sort_onto before [] xs

-- tierFor; `none` is the tier that is empty.
unfoldable pub tier_for : IdentityMatch → EvalResult → Option Tier
tier_for i not_affected = none
tier_for i result = elim i.strength [
  | strength_none ↦ none
  | _ ↦
      if i.advisory_more_specific
      then some tier_possible
      else some (elim result [ affected ↦ tier_confirmed | _ ↦ tier_likely ])
]

unfoldable pub version_kind : Candidate → ReasonKind
version_kind c = elim c.eval.result [
  | indeterminate ↦ version_unknown
  | _ ↦ elim c.product.version.kind [
    | all ↦ version_all_affected
    | eq ↦ version_exact
    | _ ↦ version_in_range
  ]
]

-- versionReason
unfoldable pub version_reason : Candidate → Reason
unfolding version_kind
version_reason c = record {
  kind = version_kind c;
  detail = version_checked c.eval.explanation;
  weight = 0;
  passed = elim c.eval.result [ indeterminate ↦ false | _ ↦ true ];
}

-- vendorReason
unfoldable pub vendor_reason : Identity → Product → Reason
unfolding passed_reason
vendor_reason id p =
    let mine = first_non_empty (id.vendor_raw ∷ id.vendor ∷ []) in
    let theirs = first_non_empty (p.vendor_raw ∷ p.vendor ∷ []) in
    if equal_fold (trim_space id.vendor_raw) (trim_space p.vendor_raw)
    then passed_reason vendor_exact (same_vendor mine id.vendor id.vendor) 1
    else passed_reason vendor_alias (alias_vendor mine theirs id.vendor) 1
