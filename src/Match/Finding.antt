-- ===== src/Match/Finding.antt =====
-- A finding, the score inside its tier, and the order of the findings (internal/match/match.go and
-- internal/finding/finding.go). The arithmetic of floats is a parameter.
pub mod Counted
use otscout.Match.Attach.{Advice}
use otscout.Asset.Identity.{Identity}
use otscout.Normalize.Evaluate.{EvalResult, Explanation, affected}
use otscout.Normalize.Constraint.{Constraint}
use otscout.Match.Candidate.{
  stable_sort, Tier, tier_rank, tier_confirmed, tier_likely, tier_possible, text_lt,
}
use otscout.Match.Fields.{
  Strength, strength_catalog, has_key, strength_product, strength_family, strength_none,
}
use otscout.Match.Compare.{IdentityMatch, Reason}
use otscout.Normalize.Schemes.{Scheme}
use otscout.Advisory.{Product, Severity}
use otscout.Safety.Float.{Float64}
use otscout.Prelude.{
  Text, [], if◌then◌else◌, Bool, Option, ◌+◌, List, ℕ, is_empty, ◌||◌, ◌∷◌, length, ◌*◌, not,
  text_eq,
}

-- x + y, x - y, x * y, and the constant that is n hundredths, of the type of a Float64.
pub record FloatArith (fl : Float64) : Type 0 where
  pub plus : fl.Number → fl.Number → fl.Number
  pub minus : fl.Number → fl.Number → fl.Number
  pub times : fl.Number → fl.Number → fl.Number
  pub hundredths : ℕ → fl.Number

-- The text of the range: as the advisory printed it, or a description of what it was parsed to.
pub data ConstraintText : Type 0 where
  as_printed : Text → ConstraintText
  described : Constraint → ConstraintText

unfoldable pub constraint_text : Product → ConstraintText
constraint_text p = if is_empty p.version_raw then described p.version else as_printed p.version_raw

pub record VersionCheck : Type 0 where
  pub asset_version : Text
  pub constraint : ConstraintText
  pub comparator : Scheme
  pub result : EvalResult
  pub explanation : Explanation

pub record Summary : Type 0 where
  pub total : ℕ
  pub by_tier : Tier → ℕ
  pub assets_affected : ℕ
  pub kev_count : ℕ
  pub fix_count : ℕ
  pub unique_cves : ℕ
  pub assets_considered : ℕ
  pub assets_unidentified : ℕ
  pub assets_unknown_vendor : ℕ
  pub ruled_out_by_version : ℕ

-- What the loop of Finalize has counted, with the assets and the CVEs that it has seen.
pub record Tally : Type 0 where
  pub total : ℕ
  pub confirmed : ℕ
  pub likely : ℕ
  pub possible : ℕ
  pub kev_count : ℕ
  pub fix_count : ℕ
  pub assets : List Text
  pub cves : List Text

abbrev pub nothing_counted : Tally
nothing_counted = record {
  total = 0;
  confirmed = 0;
  likely = 0;
  possible = 0;
  kev_count = 0;
  fix_count = 0;
  assets = [];
  cves = [];
}

abbrev pub add_name : Text → List Text → List Text
add_name name names = if has_key name names then names else name ∷ names

unfoldable pub add_names : List Text → List Text → List Text
add_names [] names = names
add_names (name ∷ more) names = add_names more (add_name name names)

abbrev pub count_tier : Tier → Tally → Tally
count_tier tier_confirmed t = record t { confirmed = t.confirmed + 1 }
count_tier tier_likely t = record t { likely = t.likely + 1 }
count_tier tier_possible t = record t { possible = t.possible + 1 }

module _ (fl : Float64) where
  pub record Finding : Type 0 where
    pub id : Text
    pub asset_id : Text
    pub asset_address : Text
    pub asset_label : Text
    pub asset_purdue : Text
    pub asset_role : Text
    pub advisory_id : Text
    pub advisory_source : Text
    pub title : Text
    pub published : Option ℕ
    pub cves : List Text
    pub tier : Tier
    pub score : fl.Number
    pub cvss : fl.Number
    pub cvss_vector : Text
    pub severity : Severity
    pub kev : Bool
    pub epss : fl.Number
    pub matched_vendor : Text
    pub matched_product : Text
    pub matched_version : Text
    pub matched_product_id : Text
    pub also_matched : List Text
    pub asset_identity : Identity
    pub evidence_ids : List Text
    pub version_check : VersionCheck
    pub reasons : List Reason
    pub fix_available : Bool
    pub remediations : List Advice
    pub references : List Text

  pub record Set : Type 0 where
    pub findings : List Finding
    pub summary : Summary

  unfoldable pub count_one : Finding → Tally → Tally
  unfolding add_names
  count_one f t =
      let t' = count_tier f.tier t in
      record t' {
        total = t'.total + 1;
        assets = add_name f.asset_id t'.assets;
        kev_count = if f.kev then t'.kev_count + 1 else t'.kev_count;
        fix_count = if f.fix_available then t'.fix_count + 1 else t'.fix_count;
        cves = add_names f.cves t'.cves;
      }

  unfoldable pub count_all : List Finding → Tally → Tally
  unfolding count_one
  count_all [] t = t
  count_all (f ∷ fs) t = count_all fs (count_one f t)

module _ (fl : Float64) (fa : FloatArith fl) where
  abbrev pub base_of : Strength → fl.Number
  base_of strength_catalog = fa.hundredths 60
  base_of strength_product = fa.hundredths 50
  base_of strength_family = fa.hundredths 40
  base_of strength_none = fa.hundredths 0

  -- score
  unfoldable pub score_of : IdentityMatch → EvalResult → Bool → fl.Number
  score_of i result listed =
      let base = base_of i.strength in
      let less = if i.advisory_more_specific then fa.minus base (fa.hundredths 20) else base in
      let more : fl.Number = elim result [
        | affected ↦ fa.plus less (fa.hundredths 35)
        | _ ↦ less
      ] in
      let nudged = if listed then fa.plus more (fa.hundredths 5) else more in
      if fl.lt (fa.hundredths 100) nudged then fa.hundredths 100 else nudged

  -- Finding.Priority
  unfoldable pub priority : Finding fl → fl.Number
  priority f =
      let s = fa.times f.score (fa.hundredths 1000) in
      let s' = if f.kev then fa.plus s (fa.hundredths 100000) else s in
      let s'' = fa.plus s' (fa.times f.epss (fa.hundredths 10000)) in
      let s''' = fa.plus s'' f.cvss in
      fa.plus s''' (fa.times (fa.hundredths (tier_rank f.tier * 100)) (fa.hundredths 5000))

  -- p != q, which holds of a number that is not one.
  abbrev pub differ : fl.Number → fl.Number → Bool
  differ p q = fl.lt p q || fl.lt q p || fl.is_nan p || fl.is_nan q

  -- The order of Finalize.
  unfoldable pub goes_before : Finding fl → Finding fl → Bool
  goes_before f g =
      let p = priority f in
      let q = priority g in
      if differ p q
      then fl.lt q p
      else if not (text_eq f.advisory_id g.advisory_id)
      then text_lt f.advisory_id g.advisory_id
      else text_lt f.asset_id g.asset_id

  unfoldable pub finalize : Set fl → Set fl
  unfolding count_all goes_before
  finalize s =
      let sorted = stable_sort goes_before s.findings in
      let t = count_all fl sorted nothing_counted in
      record {
        findings = sorted;
        summary = record s.summary {
          total = t.total;
          by_tier = λ tier. elim tier [
            | tier_confirmed ↦ t.confirmed
            | tier_likely ↦ t.likely
            | tier_possible ↦ t.possible
          ];
          assets_affected = length t.assets;
          kev_count = t.kev_count;
          fix_count = t.fix_count;
          unique_cves = length t.cves;
        };
      }
