-- ===== src/Match/Attach.antt =====
-- What the vulnerabilities of an advisory add to a finding (applyVulnerabilities of
-- internal/match/match.go).
pub mod Touching
pub mod Distinct
use otscout.Match.Fields.{has_key}
use otscout.Advisory.{
  Remediation, Score, Vulnerability, has_fix, affected_products, best_score, keep_better,
}
use otscout.Match.Candidate.{stable_sort, text_lt}
use otscout.Prelude.{
  List, Text, Bool, ◌∷◌, [], false, Option, text_eq, ◌||◌, none, ◌&&◌, if◌then◌else◌, is_empty, not,
  ◌++◌, true, some,
}
use otscout.Safety.Float.{Float64}

unfoldable pub any_matched : List Text → List Text → Bool
any_matched [] matched = false
any_matched (id ∷ ids) matched = has_key id matched || any_matched ids matched

-- The loop of dedupe, with the values that were seen.
unfoldable pub distinct : List Text → List Text → List Text
distinct seen [] = []
distinct seen (value ∷ values) =
    let rest = distinct seen values in
    let further = distinct (value ∷ seen) values in
    if is_empty value || has_key value seen then rest else value ∷ further

-- dedupe, with sort.Strings
unfoldable pub dedupe : List Text → List Text
unfolding distinct
dedupe values = stable_sort text_lt (distinct [] values)

-- What is kept of a remediation.
pub record Advice : Type 0 where
  pub category : Text
  pub details : Text
  pub url : Text

unfoldable pub advice_eq : Advice → Advice → Bool
advice_eq a b = text_eq a.category b.category && text_eq a.details b.details && text_eq a.url b.url

unfoldable pub has_advice : Advice → List Advice → Bool
has_advice a [] = false
has_advice a (b ∷ seen) = advice_eq b a || has_advice a seen

unfoldable pub distinct_advice : List Advice → List Advice → List Advice
unfolding has_advice advice_eq
distinct_advice seen [] = []
distinct_advice seen (a ∷ list) =
    let rest = distinct_advice seen list in
    let further = distinct_advice (a ∷ seen) list in if has_advice a seen then rest else a ∷ further

module _ (fl : Float64) where
  -- What the loops set in a finding, and the best score so far.
  pub record Attached : Type 0 where
    pub cves : List Text
    pub remediations : List Advice
    pub references : List Text
    pub best : Option (Score fl.Number)
    pub kev : Bool
    pub epss : fl.Number
    pub fix_available : Bool

  -- The rest of the body of the loop over the remediations, behind the check of its products.
  unfoldable pub keep_advice : Remediation → Attached → Attached
  keep_advice rem x =
      let fixed' = if has_fix rem then true else x.fix_available in
      let x' = record x { fix_available = fixed' } in
      if is_empty rem.category && is_empty rem.details && is_empty rem.url then x' else record x' {
        remediations =
            x'.remediations
            ++ record { category = rem.category; details = rem.details; url = rem.url } ∷ [];
      }

  unfoldable pub attach_remediations : List Text → List Remediation → Attached → Attached
  unfolding keep_advice
  attach_remediations matched [] x = x
  attach_remediations matched (rem ∷ rems) x =
      let kept = attach_remediations matched rems (keep_advice rem x) in
      let passed_over = attach_remediations matched rems x in
      if not (is_empty rem.product_ids) && not (any_matched rem.product_ids matched)
      then passed_over
      else kept

  unfoldable pub attach_references : List Text → Attached → Attached
  attach_references [] x = x
  attach_references (url ∷ urls) x =
      attach_references urls
        (if is_empty url then x else record x { references = x.references ++ url ∷ [] })

  -- The body of the loop for a vulnerability that touches a matched product.
  unfoldable pub attach_one : List Text → Vulnerability fl.Number → Attached → Attached
  unfolding attach_remediations attach_references
  attach_one matched v x =
      let named = if is_empty v.cve then x.cves else x.cves ++ v.cve ∷ [] in
      let better : Option (Score fl.Number) = elim (best_score fl v) [
        | none ↦ x.best
        | some score ↦ keep_better fl x.best score
      ] in
      let listed = if v.kev then true else x.kev in
      let likely : fl.Number = elim v.epss [
        | none ↦ x.epss
        | some p ↦ if fl.lt x.epss p then p else x.epss
      ] in
      attach_references v.references (
        attach_remediations matched v.remediations
          (record x { cves = named; best = better; kev = listed; epss = likely }))

  -- A vulnerability that names its products, none of which matched, is passed over.
  unfoldable pub touches : List Text → Vulnerability fl.Number → Bool
  touches matched v =
      let (ids, precise) = affected_products fl v in not precise || any_matched ids matched

  unfoldable pub attach_all : List Text → List (Vulnerability fl.Number) → Attached → Attached
  unfolding attach_one touches
  attach_all matched [] x = x
  attach_all matched (v ∷ vs) x =
      let kept = attach_all matched vs (attach_one matched v x) in
      let passed_over = attach_all matched vs x in if touches matched v then kept else passed_over

  abbrev pub nothing_attached : Attached
  nothing_attached = record {
    cves = [];
    remediations = [];
    references = [];
    best = none;
    kev = false;
    epss = fl.zero_point;
    fix_available = false;
  }
