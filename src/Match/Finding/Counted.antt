-- ===== src/Match/Finding/Counted.antt =====
-- The summary of a set of findings against the findings.
use otscout.Match.Candidate.Best.{sum_of, stable_sort-sum}
use otscout.Match.Candidate.{
  Tier, tier_rank, tier_confirmed, tier_likely, tier_possible, stable_sort,
}
use otscout.Match.Finding.{
  count_all, count_one, Finding, Tally, finalize, FloatArith, Set, goes_before, nothing_counted,
}
use otscout.Prelude.{
  Bool, ℕ, List, true, false, ◌==◌, ◌∷◌, ◌∷◌, ◌≡◌, [], ◌+◌, length, ◌≤◌, arith, refl,
}
use otscout.Safety.Float.{Float64}

-- 1 where it is.
abbrev pub ones : Bool → ℕ
ones true = 1
ones false = 0

module _ (fl : Float64) where
  abbrev pub of_tier : Tier → Finding fl → ℕ
  of_tier t f = ones (tier_rank f.tier == tier_rank t)

  -- What the loop adds to each count.
  abbrev Adds : List (Finding fl) → Tally → Tally → Type 0
  Adds fs t t' =
      (t'.total ≡ t.total + sum_of (λ (f : Finding fl). 1) fs)
      × (t'.confirmed ≡ t.confirmed + sum_of (of_tier tier_confirmed) fs)
      × (t'.likely ≡ t.likely + sum_of (of_tier tier_likely) fs)
      × (t'.possible ≡ t.possible + sum_of (of_tier tier_possible) fs)
      × (t'.kev_count ≡ t.kev_count + sum_of (λ (f : Finding fl). ones f.kev) fs)
      × (t'.fix_count ≡ t.fix_count + sum_of (λ (f : Finding fl). ones f.fix_available) fs)
      × (length t'.assets ≤ length t.assets + sum_of (λ (f : Finding fl). 1) fs)

  count_one-Adds : (f : Finding fl) (t : Tally) → Adds (f ∷ []) t (count_one fl f t)
  unfolding count_one sum_of
  count_one-Adds f t = (
    ground arith,
    ground arith,
    ground arith,
    ground arith,
    ground arith,
    ground arith,
    ground arith,
  )

  count_all-Adds : (fs : List (Finding fl)) (t : Tally) → Adds fs t (count_all fl fs t)
  unfolding count_all sum_of
  count_all-Adds [] t =
      (omega arith, omega arith, omega arith, omega arith, omega arith, omega arith, omega arith)
  count_all-Adds (f ∷ fs) t =
      let one = count_one-Adds f t in
      let rest = count_all-Adds fs (count_one fl f t) in
      (
        omega (arith, one.0, rest.0),
        omega (arith, one.1, rest.1),
        omega (arith, one.2, rest.2),
        omega (arith, one.3, rest.3),
        omega (arith, one.4, rest.4),
        omega (arith, one.5, rest.5),
        omega (arith, one.6, rest.6),
      )

  sum_of-length : (fs : List (Finding fl)) → sum_of (λ (f : Finding fl). 1) fs ≡ length fs
  unfolding sum_of
  sum_of-length [] = refl
  sum_of-length (f ∷ fs) = omega (arith, sum_of-length fs)

  one_tier :
      (t : Tier)
      → ones (tier_rank t == tier_rank tier_confirmed)
          + ones (tier_rank t == tier_rank tier_likely)
          + ones (tier_rank t == tier_rank tier_possible)
        ≡ 1
  one_tier t = ground arith

  tiers-length :
      (fs : List (Finding fl))
      → sum_of (of_tier tier_confirmed) fs
          + sum_of (of_tier tier_likely) fs
          + sum_of (of_tier tier_possible) fs
        ≡ length fs
  unfolding sum_of
  tiers-length [] = omega arith
  tiers-length (f ∷ fs) = omega (arith, tiers-length fs, one_tier f.tier)

  -- The summary of `out` counts the findings of `s`, and they are in it as often as in `s`.
  abbrev pub Counts : Set fl → Set fl → Type 0
  Counts s out =
      (out.summary.total ≡ length s.findings)
      × ((t : Tier) → out.summary.by_tier t ≡ sum_of (of_tier t) s.findings)
      × (out.summary.by_tier tier_confirmed
            + out.summary.by_tier tier_likely
            + out.summary.by_tier tier_possible
          ≡ length s.findings)
      × (out.summary.kev_count ≡ sum_of (λ (f : Finding fl). ones f.kev) s.findings)
      × (out.summary.fix_count ≡ sum_of (λ (f : Finding fl). ones f.fix_available) s.findings)
      × (out.summary.assets_affected ≤ length s.findings)
      × (out.summary.ruled_out_by_version ≡ s.summary.ruled_out_by_version)
      × ((g : Finding fl → ℕ) → sum_of g out.findings ≡ sum_of g s.findings)

  -- The summary of a finalized set counts its findings: how many there are, how many of each tier, which
  -- together are all, how many are known to be exploited and how many have a fix, and no more assets
  -- than findings. What a version ruled out in the run is kept, and a finding is in the set as often as
  -- before.
  pub finalize-Counts : (fa : FloatArith fl) (s : Set fl) → Counts s (finalize fl fa s)
  unfolding finalize
  finalize-Counts fa s =
      let before = goes_before fl fa in
      let counts = count_all-Adds (stable_sort before s.findings) nothing_counted in
      let same = λ (g : Finding fl → ℕ). stable_sort-sum before g s.findings in
      let all_of = tiers-length s.findings in
      let c = same (of_tier tier_confirmed) in
      let l = same (of_tier tier_likely) in
      let p = same (of_tier tier_possible) in
      (
        omega (arith, counts.0, same (λ f. 1), sum_of-length s.findings),
        λ t. elim t as (λ k. (finalize fl fa s).summary.by_tier k ≡ sum_of (of_tier k) s.findings) [
          | tier_confirmed ↦ omega (arith, counts.1, c)
          | tier_likely ↦ omega (arith, counts.2, l)
          | tier_possible ↦ omega (arith, counts.3, p)
        ],
        omega (arith, counts.1, counts.2, counts.3, c, l, p, all_of),
        omega (arith, counts.4, same (λ f. ones f.kev)),
        omega (arith, counts.5, same (λ f. ones f.fix_available)),
        omega (arith, counts.6, same (λ f. 1), sum_of-length s.findings),
        refl,
        same,
      )
