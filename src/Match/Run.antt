-- ===== src/Match/Run.antt =====
-- The matcher and its run over an inventory (internal/match/match.go). The order in which Go ranges over
-- the map of an asset's candidates is not defined; here it is that of the first candidates, and the
-- findings are sorted at the end.
pub mod Justified
use otscout.Match.Fields.{strength_none, Strength}
use otscout.Normalize.Evaluate.{evaluate, not_affected, EvalResult}
use otscout.Match.Compare.{compare_identity}
use otscout.Match.Attach.{Attached, attach_all, nothing_attached, dedupe, distinct_advice}
use otscout.Asset.Addresses.{Evidence, Asset, primary, identity_label}
use otscout.Match.Index.{nth, product_at, refs_of, index_corpus}
use otscout.Match.Finding.{FloatArith, Finding, Set, finalize, score_of, constraint_text}
use otscout.Normalize.Schemes.{Scheme, comparator_for}
use otscout.Normalize.Product.{ProductTable}
use otscout.Match.Candidate.{
  Tier, Candidate, ProductRef, stable_sort, beats, tier_rank, tier_for, vendor_reason,
  version_reason,
}
use otscout.Advisory.{
  Advisory, product_label, Product, advisory_severity, Severity, severity_unknown, first_non_empty,
}
use otscout.Safety.Float.{Float64}
use otscout.Asset.Identity.{Identity, empty}
use otscout.Prelude.{
  Option, Text, ℕ, List, ◌++◌, ◌∷◌, Bool, ◌∷◌, some, true, [], none, if◌then◌else◌, ◌==◌, leb,
  length, is_empty, ◌+◌, false,
}

unfoldable pub evidence_ids_of : List Evidence → List Text
evidence_ids_of [] = []
evidence_ids_of (ev ∷ evs) =
    let rest = evidence_ids_of evs in if is_empty ev.id then rest else ev.id ∷ rest

-- What the matcher asks of the normalizer (internal/normalize/normalizer.go): its product table, the
-- identity in canonical form, and the version scheme of a vendor.
pub record Normalizer : Type 0 where
  pub products : Option ProductTable
  pub identity : Identity → Identity
  pub version_scheme : Text → Text

-- An empty tier keeps every finding, and the zero time every advisory.
pub record Options : Type 0 where
  pub min_tier : Option Tier
  pub since : Option ℕ

pub record Matching : Type 0 where
  pub per_advisory : List (ℕ × List Candidate)
  pub ruled_out : ℕ

unfoldable pub add_candidate : ℕ → Candidate → List (ℕ × List Candidate) → List (ℕ × List Candidate)
add_candidate ai c [] = (ai, c ∷ []) ∷ []
add_candidate ai c ((k, cs) ∷ groups) =
    let rest = add_candidate ai c groups in
    if k == ai then (k, cs ++ c ∷ []) ∷ groups else (k, cs) ∷ rest

-- A product that is not the device's leaves what was found as it is, one that its version rules out is
-- counted, and any other is added.
unfoldable pub settle : Strength → EvalResult → Matching → Matching → Matching → Matching
settle strength_none result s counted added = s
settle _ not_affected s counted added = counted
settle _ _ s counted added = added

-- The body of the loop over the references, for the product that one points at.
unfoldable pub weigh : Normalizer → Identity → Scheme → ProductRef → Product → Matching → Matching
unfolding add_candidate settle
weigh n id scheme ref' p s =
    let i = compare_identity n.products id p in
    let e = evaluate p.version id.firmware scheme in
    let c : Candidate = record { ref = ref'; product = p; identity = i; eval = e } in
    settle i.strength e.result s (record s { ruled_out = s.ruled_out + 1 })
      (record s { per_advisory = add_candidate ref'.advisory c s.per_advisory })

module _ {Number : Type 0} where
  unfoldable pub weigh_refs :
      Normalizer
      → List (Advisory Number)
      → Identity
      → Scheme
      → List ProductRef
      → Matching
      → Matching
  unfolding weigh
  weigh_refs n corpus id scheme [] s = s
  weigh_refs n corpus id scheme (ref ∷ refs) s =
      weigh_refs n corpus id scheme refs
        (elim (product_at corpus ref) [ none ↦ s | some p ↦ weigh n id scheme ref p s ])

-- finding.NewID
unfoldable pub new_id : Text → Text → Text → Text
new_id asset_id advisory_id product = asset_id ++ b':' ∷ advisory_id ++ b':' ∷ product

unfoldable pub labels : List Candidate → List Text
labels [] = []
labels (c ∷ cs) = product_label c.product ∷ labels cs

unfoldable pub matched_ids : List Candidate → List Text
matched_ids [] = []
matched_ids (c ∷ cs) = c.product.id ∷ matched_ids cs

-- Whether the tier is not below the one that was asked for.
abbrev pub strong_enough : Option Tier → Tier → Bool
strong_enough none t = true
strong_enough (some least) t = leb (tier_rank least) (tier_rank t)

module _ (fl : Float64) (fa : FloatArith fl) where
  -- The end of applyVulnerabilities.
  unfoldable pub complete : Advisory fl.Number → Attached fl → Finding fl → Finding fl
  complete adv x f =
      let links = if is_empty adv.url then x.references else adv.url ∷ x.references in
      let rated : Finding fl = elim x.best [
        | none ↦ f
        | some s ↦ record f { cvss = s.base_score; cvss_vector = s.vector; severity = s.severity }
      ] in
      let worst = advisory_severity fl adv in
      let known : Severity = elim rated.severity [ severity_unknown ↦ worst | other ↦ other ] in
      record rated {
        cves = dedupe x.cves;
        remediations = distinct_advice [] x.remediations;
        references = dedupe links;
        kev = x.kev;
        epss = x.epss;
        fix_available = x.fix_available;
        severity = known;
      }

  -- buildFinding, of the candidates in their order.
  unfoldable pub build_from : Asset → Advisory fl.Number → List Candidate → Option (Finding fl)
  unfolding complete new_id evidence_ids_of
  build_from a adv [] = none
  build_from a adv (best ∷ others) =
      let x =
        attach_all fl (matched_ids (best ∷ others)) adv.vulnerabilities (nothing_attached fl) in
      elim (tier_for best.identity best.eval.result) [
        | none ↦ none
        | some t ↦ some (
            complete adv x (record {
              id = new_id a.id adv.id best.product.id;
              asset_id = a.id;
              asset_address = primary a.addresses;
              asset_label = identity_label a.identity;
              asset_purdue = a.purdue;
              asset_role = a.role;
              advisory_id = adv.id;
              advisory_source = adv.source;
              title = adv.title;
              published = adv.published;
              cves = [];
              tier = t;
              score = score_of fl fa best.identity best.eval.result x.kev;
              cvss = fl.zero_point;
              cvss_vector = [];
              severity = severity_unknown;
              kev = false;
              epss = fl.zero_point;
              matched_vendor = first_non_empty (best.product.vendor_raw ∷ best.product.vendor ∷ []);
              matched_product = product_label best.product;
              matched_version = best.product.version_raw;
              matched_product_id = best.product.id;
              also_matched = labels others;
              asset_identity = a.identity;
              evidence_ids = evidence_ids_of a.evidence;
              version_check = record {
                asset_version = a.identity.firmware;
                constraint = constraint_text best.product;
                comparator = best.eval.comparator;
                result = best.eval.result;
                explanation = best.eval.explanation;
              };
              reasons =
                  vendor_reason a.identity best.product ∷ best.identity.reasons
                  ++ version_reason best ∷ [];
              fix_available = false;
              remediations = [];
              references = [];
            }))
      ]

  unfoldable pub build_finding : Asset → Advisory fl.Number → List Candidate → Option (Finding fl)
  unfolding build_from
  build_finding a adv candidates = build_from a adv (stable_sort beats candidates)

  abbrev pub cons_strong : Option Tier → Option (Finding fl) → List (Finding fl) → List (Finding fl)
  cons_strong least none fs = fs
  cons_strong least (some f) fs = if strong_enough least f.tier then f ∷ fs else fs

  -- The loop over the candidates of each advisory.
  unfoldable pub build_all :
      Options → List (Advisory fl.Number) → Asset → List (ℕ × List Candidate) → List (Finding fl)
  unfolding build_finding nth
  build_all o corpus a [] = []
  build_all o corpus a ((ai, candidates) ∷ groups) =
      let rest = build_all o corpus a groups in
      elim (nth corpus ai) [
        | none ↦ rest
        | some adv ↦ cons_strong o.min_tier (build_finding a adv candidates) rest
      ]

  -- matchAsset, which counts what a version ruled out.
  unfoldable pub match_asset :
      Normalizer → Options → List (Advisory fl.Number) → Asset → List (Finding fl) × ℕ
  unfolding build_all
  match_asset n o corpus a =
      let scheme = comparator_for (n.version_scheme a.identity.vendor) in
      let s =
        weigh_refs n corpus a.identity scheme
          (refs_of a.identity.vendor (index_corpus o.since corpus))
          (record { per_advisory = []; ruled_out = 0 }) in
      (build_all o corpus a s.per_advisory, s.ruled_out)

  -- The body of the loop of Run.
  unfoldable pub run_one :
      Normalizer → Options → List (Advisory fl.Number) → Asset → Set fl → Set fl
  unfolding match_asset
  run_one n o corpus a s =
      let a' = record a { identity = n.identity a.identity } in
      let (fs, out) = match_asset n o corpus a' in
      if empty a.identity
      then record s {
        summary = record s.summary { assets_unidentified = s.summary.assets_unidentified + 1 };
      }
      else if is_empty a'.identity.vendor
      then record s {
        summary = record s.summary { assets_unknown_vendor = s.summary.assets_unknown_vendor + 1 };
      }
      else record s {
        findings = s.findings ++ fs;
        summary = record s.summary { ruled_out_by_version = s.summary.ruled_out_by_version + out };
      }

  unfoldable pub run_all :
      Normalizer → Options → List (Advisory fl.Number) → List Asset → Set fl → Set fl
  unfolding run_one
  run_all n o corpus [] s = s
  run_all n o corpus (a ∷ assets) s = run_all n o corpus assets (run_one n o corpus a s)

  abbrev pub new_set : List Asset → Set fl
  new_set assets = record {
    findings = [];
    summary = record {
      total = 0;
      by_tier = λ t. 0;
      assets_affected = 0;
      kev_count = 0;
      fix_count = 0;
      unique_cves = 0;
      assets_considered = length assets;
      assets_unidentified = 0;
      assets_unknown_vendor = 0;
      ruled_out_by_version = 0;
    };
  }

  -- Run, of an inventory that is there.
  unfoldable pub run : Normalizer → Options → List (Advisory fl.Number) → List Asset → Set fl
  unfolding run_all
  run n o corpus assets = finalize fl fa (run_all n o corpus assets (new_set assets))
