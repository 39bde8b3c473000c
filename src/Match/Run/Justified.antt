-- ===== src/Match/Run/Justified.antt =====
-- What a finding of a run claims, and that the check of the version bears it out.
use otscout.Match.Candidate.Best.{stable_sort-All}
use otscout.Asset.Addresses.{Asset}
use otscout.Match.Index.{product_at, nth, refs_of, index_corpus}
use otscout.Match.Attach.{Attached}
use otscout.Match.Compare.{IdentityMatch}
use otscout.Match.Fields.{Strength, strength_none}
use otscout.Match.Finding.{FloatArith, Finding, finalize, Set, goes_before}
use otscout.Safety.Float.{Float64}
use otscout.Advisory.{Product, Advisory}
use otscout.Normalize.Constraint.{Constraint}
use otscout.Normalize.Schemes.{Scheme, comparator_for}
use otscout.Match.Candidate.{
  Candidate, ProductRef, tier_for, tier_confirmed, tier_likely, Tier, stable_sort, beats,
}
use otscout.Match.Run.{
  weigh, add_candidate, Normalizer, Matching, weigh_refs, settle, complete, build_from, build_all,
  run_one, run_all, match_asset, run, cons_strong, Options, build_finding, strong_enough, new_set,
}
use otscout.Asset.Identity.{Identity, empty}
use otscout.Normalize.Evaluate.{
  evaluate, answer, Evaluation, not_affected, affected, names_no_version, EvalResult, indeterminate,
}
use otscout.Prelude.{
  Text, ℕ, List, All, ◌≢◌, is_blank, ◌≡◌, false, arith, ◌⊎◌, inr, inl, inl, inr, ◌∷◌, inl, inr,
  Bool-cases, Option-cases, ◌==◌, [], some, All-append, Option, none, is_empty,
}

-- The version that the device reported was compared, or the advisory names none.
abbrev Compared : Text → Evaluation → Type 0
Compared version e = (is_blank version ≡ false) ⊎ (e.explanation ≡ names_no_version)

evaluate-Compared :
    (c : Constraint) (version : Text) (scheme : Scheme)
    → (evaluate c version scheme).result ≡ affected
    → Compared version (evaluate c version scheme)
unfolding evaluate answer
evaluate-Compared c version scheme h = ground (arith, h)

-- A candidate survived the check of its version.
abbrev Weighed : Identity → Candidate → Type 0
Weighed id c =
    (c.eval.result ≢ not_affected) × (c.eval.result ≡ affected → Compared id.firmware c.eval)

abbrev AllWeighed : Identity → List (ℕ × List Candidate) → Type 0
AllWeighed id groups = All (λ (g : ℕ × List Candidate). All (Weighed id) g.1) groups

add_candidate-AllWeighed :
    (id : Identity) (ai : ℕ) (c : Candidate) (groups : List (ℕ × List Candidate))
    → Weighed id c
    → AllWeighed id groups
    → AllWeighed id (add_candidate ai c groups)
unfolding add_candidate
add_candidate-AllWeighed id ai c [] h k = ((h, tt), tt)
add_candidate-AllWeighed id ai c ((j, cs) ∷ groups) h k = elim (Bool-cases (j == ai)) [
  | inl e ↦ rw (AllWeighed, e) (All-append (Weighed id) cs (c ∷ []) k.0 (h, tt), k.1)
  | inr e ↦ rw (AllWeighed, e) (k.0, add_candidate-AllWeighed id ai c groups h k.1)
]

settle-AllWeighed :
    (id : Identity) (st : Strength) (r : EvalResult) (s counted added : Matching)
    → AllWeighed id s.per_advisory
    → AllWeighed id counted.per_advisory
    → (r ≢ not_affected → AllWeighed id added.per_advisory)
    → AllWeighed id (settle st r s counted added).per_advisory
unfolding settle
settle-AllWeighed id strength_none r s counted added h k f = h
settle-AllWeighed id _ not_affected s counted added h k f = k
settle-AllWeighed id _ affected s counted added h k f = f (ground arith)
settle-AllWeighed id _ indeterminate s counted added h k f = f (ground arith)

weigh-AllWeighed :
    (n : Normalizer) (id : Identity) (scheme : Scheme) (ref : ProductRef) (p : Product)
    (s : Matching)
    → AllWeighed id s.per_advisory
    → AllWeighed id (weigh n id scheme ref p s).per_advisory
unfolding weigh
weigh-AllWeighed n id scheme ref p s h = settle-AllWeighed id _ _ s _ _ h h (λ k.
    add_candidate-AllWeighed id ref.advisory _ s.per_advisory
      (k, evaluate-Compared p.version id.firmware scheme) h)

weigh_refs-AllWeighed :
    {Number : Type 0} (n : Normalizer) (corpus : List (Advisory Number)) (id : Identity)
    (scheme : Scheme) (refs : List ProductRef) (s : Matching)
    → AllWeighed id s.per_advisory
    → AllWeighed id (weigh_refs n corpus id scheme refs s).per_advisory
unfolding weigh_refs
weigh_refs-AllWeighed n corpus id scheme [] s h = h
weigh_refs-AllWeighed n corpus id scheme (ref ∷ refs) s h =
    weigh_refs-AllWeighed n corpus id scheme refs _ (elim (Option-cases (product_at corpus ref)) [
      | inl e ↦ rw (AllWeighed, e) h
      | inr (p, e) ↦ rw (AllWeighed, e) (weigh-AllWeighed n id scheme ref p s h)
    ])

module _ (fl : Float64) (fa : FloatArith fl) where
  -- The check of the version does not clear the device. A confirmed finding says that the version is
  -- affected, and then it was compared or the advisory names none; a likely one says that it could not
  -- be told.
  pub record IsJustified (f : Finding fl) : Type 0 where
    pub not_cleared : f.version_check.result ≢ not_affected
    pub confirmed :
        f.tier ≡ tier_confirmed
        → (f.version_check.result ≡ affected)
          × ((is_blank f.version_check.asset_version ≡ false)
              ⊎ (f.version_check.explanation ≡ names_no_version))
    pub likely : f.tier ≡ tier_likely → f.version_check.result ≡ indeterminate

  complete-IsJustified :
      (adv : Advisory fl.Number) (x : Attached fl) (f : Finding fl)
      → IsJustified f
      → IsJustified (complete fl fa adv x f)
  unfolding complete
  complete-IsJustified adv x f h = elim (Option-cases x.best) [
    | inl e ↦
        rw e (record { not_cleared = h.not_cleared; confirmed = h.confirmed; likely = h.likely })
    | inr (best, e) ↦
        rw e (record { not_cleared = h.not_cleared; confirmed = h.confirmed; likely = h.likely })
  ]

  tier_for-justified :
      (i : IdentityMatch) (r : EvalResult) (t : Tier)
      → tier_for i r ≡ some t
      → (t ≡ tier_confirmed → r ≡ affected) × (t ≡ tier_likely → r ≡ indeterminate)
  unfolding tier_for
  tier_for-justified i r t h = (ground (arith, h), ground (arith, h))

  abbrev JustifiedIf : Option (Finding fl) → Type 0
  JustifiedIf none = Unit
  JustifiedIf (some f) = IsJustified f

  build_from-JustifiedIf :
      (a : Asset) (adv : Advisory fl.Number) (cs : List Candidate)
      → All (Weighed a.identity) cs
      → JustifiedIf (build_from fl fa a adv cs)
  unfolding build_from
  build_from-JustifiedIf a adv [] h = tt
  build_from-JustifiedIf a adv (best ∷ others) h =
      elim (Option-cases (tier_for best.identity best.eval.result)) [
        | inl e ↦ rw (JustifiedIf, e) tt
        | inr (t, e) ↦
            let (sure, open') = tier_for-justified best.identity best.eval.result t e in
            rw (JustifiedIf, e)
              (complete-IsJustified adv _ _ (record {
                not_cleared = h.0.0;
                confirmed = λ q. (sure q, h.0.1 (sure q));
                likely = open';
              }))
      ]

  cons_strong-All :
      (least : Option Tier) (o : Option (Finding fl)) (fs : List (Finding fl))
      → JustifiedIf o
      → All IsJustified fs
      → All IsJustified (cons_strong fl fa least o fs)
  cons_strong-All least none fs h k = k
  cons_strong-All least (some f) fs h k = elim (Bool-cases (strong_enough least f.tier)) [
    | inl e ↦ rw (All, e) (h, k)
    | inr e ↦ rw (All, e) k
  ]

  build_all-All :
      (o : Options) (corpus : List (Advisory fl.Number)) (a : Asset)
      (groups : List (ℕ × List Candidate))
      → AllWeighed a.identity groups
      → All IsJustified (build_all fl fa o corpus a groups)
  unfolding build_all build_finding
  build_all-All o corpus a [] h = tt
  build_all-All o corpus a ((ai, cs) ∷ groups) h = elim (Option-cases (nth corpus ai)) [
    | inl e ↦ rw (All, e) (build_all-All o corpus a groups h.1)
    | inr (adv, e) ↦
        rw (All, e)
          (cons_strong-All o.min_tier (build_finding fl fa a adv cs) _
            (build_from-JustifiedIf a adv (stable_sort beats cs)
              (stable_sort-All beats (Weighed a.identity) cs h.0))
            (build_all-All o corpus a groups h.1))
  ]

  match_asset-All :
      (n : Normalizer) (o : Options) (corpus : List (Advisory fl.Number)) (a : Asset)
      → All IsJustified (match_asset fl fa n o corpus a).0
  unfolding match_asset
  match_asset-All n o corpus a = build_all-All o corpus a _ (
      weigh_refs-AllWeighed n corpus a.identity
        (comparator_for (n.version_scheme a.identity.vendor))
        (refs_of a.identity.vendor (index_corpus o.since corpus))
        (record { per_advisory = []; ruled_out = 0 }) tt)

  run_one-All :
      (n : Normalizer) (o : Options) (corpus : List (Advisory fl.Number)) (a : Asset) (s : Set fl)
      → All IsJustified s.findings
      → All IsJustified (run_one fl fa n o corpus a s).findings
  unfolding run_one
  run_one-All n o corpus a s h = elim (Bool-cases (empty a.identity)) [
    | inl e ↦ rw (All, e) h
    | inr e ↦ elim (Bool-cases (is_empty (n.identity a.identity).vendor)) [
      | inl e' ↦ rw (All, e, e') h
      | inr e' ↦
          rw (All, e, e')
            (All-append IsJustified s.findings _ h
              (match_asset-All n o corpus (record a { identity = n.identity a.identity })))
    ]
  ]

  run_all-All :
      (n : Normalizer) (o : Options) (corpus : List (Advisory fl.Number)) (assets : List Asset)
      (s : Set fl)
      → All IsJustified s.findings
      → All IsJustified (run_all fl fa n o corpus assets s).findings
  unfolding run_all
  run_all-All n o corpus [] s h = h
  run_all-All n o corpus (a ∷ assets) s h =
      run_all-All n o corpus assets (run_one fl fa n o corpus a s) (run_one-All n o corpus a s h)

  -- Every finding of a run is borne out by its check of the version: the check did not clear the device;
  -- a confirmed finding says that the version is affected, where the device reported one or the advisory
  -- names none; a likely one says that the check could not tell.
  pub run-AllJustified :
      (n : Normalizer) (o : Options) (corpus : List (Advisory fl.Number)) (assets : List Asset)
      → All IsJustified (run fl fa n o corpus assets).findings
  unfolding run finalize
  run-AllJustified n o corpus assets =
      stable_sort-All (goes_before fl fa) IsJustified
        (run_all fl fa n o corpus assets (new_set fl fa assets)).findings
        (run_all-All n o corpus assets (new_set fl fa assets) tt)
