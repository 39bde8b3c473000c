-- ===== src/Advisory.antt =====
-- Security advisories as the matcher reads them (internal/advisory/advisory.go). A base score and a
-- probability are floats of which only the comparison is used, so that their type is a parameter.
use otscout.Protocol.Reader.{join}
use otscout.Normalize.Constraint.{Constraint}
use otscout.Safety.Float.{Float64}
use otscout.Prelude.{
  has_prefix, ℕ, List, Text, Bool, ◌∷◌, text_eq, Option, if◌then◌else◌, not, ◌∷◌, none, false, leb,
  some, codes, ◌==◌, true, ◌||◌, [], length, is_empty, is_blank, ltb, ◌&&◌, equal_fold, take, drop,
  ◌-◌,
}

pub data Severity : Type 0 where
  severity_none severity_low severity_medium severity_high severity_critical severity_unknown :
      Severity

-- Severity.Rank
abbrev pub severity_rank : Severity → ℕ
severity_rank severity_critical = 5
severity_rank severity_high = 4
severity_rank severity_medium = 3
severity_rank severity_low = 2
severity_rank severity_none = 1
severity_rank severity_unknown = 0

pub record Product : Type 0 where
  pub id : Text
  pub name : Text
  pub vendor_raw : Text
  pub vendor : Text
  pub family_raw : Text
  pub family : Text
  pub product_raw : Text
  pub product_name : Text
  pub model : Text
  pub catalog_number : Text
  pub version_raw : Text
  pub version : Constraint
  pub cpe : Text

-- firstNonEmpty
unfoldable pub first_non_empty : List Text → Text
first_non_empty [] = []
first_non_empty (value ∷ values) =
    let rest = first_non_empty values in if is_blank value then rest else value

unfoldable pub has_prefix_fold : Text → Text → Bool
has_prefix_fold value p = leb (length p) (length value) && equal_fold (take (length p) value) p

unfoldable pub has_suffix_fold : Text → Text → Bool
has_suffix_fold value suffix =
    leb (length suffix) (length value)
    && equal_fold (drop (length value - length suffix) value) suffix

abbrev pub part_if : Bool → Text → List Text → List Text
part_if true part parts = part ∷ parts
part_if false part parts = parts

-- Product.Label
unfoldable pub product_label : Product → Text
unfolding has_prefix_fold has_suffix_fold
product_label p =
    let name = first_non_empty (p.name ∷ p.product_raw ∷ p.family_raw ∷ []) in
    let vendor = first_non_empty (p.vendor_raw ∷ p.vendor ∷ []) in
    let parts = part_if (not (is_empty vendor) && not (has_prefix_fold name vendor)) vendor (
      part_if (not (is_empty name)) name (
        part_if (not (is_empty p.version_raw) && not (has_suffix_fold name p.version_raw))
          p.version_raw [])) in
    if is_empty parts then p.id else join parts

pub record Remediation : Type 0 where
  pub category : Text
  pub details : Text
  pub url : Text
  pub product_ids : List Text

-- Remediation.HasFix
abbrev pub has_fix : Remediation → Bool
has_fix r = text_eq r.category (codes "vendor_fix")

pub data Status : Type 0 where
  known_affected known_not_affected fixed first_fixed first_affected : Status
  last_affected recommended under_investigation : Status

module _ (Number : Type 0) where
  pub record Score : Type 0 where
    pub version : Text
    pub vector : Text
    pub base_score : Number
    pub severity : Severity

  -- `status` is the map from a status to the products listed under it, which are none for a status
  -- that the advisory does not use. Of an EPSS entry the score is kept, of a KEV entry that it is there.
  pub record Vulnerability : Type 0 where
    pub cve : Text
    pub scores : List Score
    pub status : Status → List Text
    pub remediations : List Remediation
    pub references : List Text
    pub kev : Bool
    pub epss : Option Number

  pub record Advisory : Type 0 where
    pub id : Text
    pub source : Text
    pub title : Text
    pub url : Text
    pub published : Option ℕ
    pub products : List Product
    pub vulnerabilities : List Vulnerability

unfoldable pub cvss_rank : Text → ℕ
unfolding has_prefix
cvss_rank v =
    if has_prefix v (codes "4")
    then 4
    else if has_prefix v (codes "3")
    then 3
    else if has_prefix v (codes "2")
    then 2
    else 0

module _ (fl : Float64) where
  -- Score.BetterThan
  unfoldable pub better_than : Score fl.Number → Score fl.Number → Bool
  better_than s other =
      let mine = cvss_rank s.version in
      let theirs = cvss_rank other.version in
      if mine == theirs then fl.lt other.base_score s.base_score else ltb theirs mine

  abbrev pub keep_better : Option (Score fl.Number) → Score fl.Number → Option (Score fl.Number)
  keep_better none score = some score
  keep_better (some best) score = if better_than score best then some score else some best

  -- The loop of BestScore, from the best so far on.
  unfoldable pub best_onto :
      Option (Score fl.Number) → List (Score fl.Number) → Option (Score fl.Number)
  unfolding better_than
  best_onto best [] = best
  best_onto best (score ∷ scores) = best_onto (keep_better best score) scores

  -- Vulnerability.BestScore
  unfoldable pub best_score : Vulnerability fl.Number → Option (Score fl.Number)
  unfolding best_onto
  best_score v = best_onto none v.scores

  -- Vulnerability.AffectedProducts
  unfoldable pub affected_products : Vulnerability fl.Number → List Text × Bool
  affected_products v = let ids = v.status known_affected in (ids, not (is_empty ids))

  -- Vulnerability.Severity
  unfoldable pub severity : Vulnerability fl.Number → Severity
  severity v = elim (best_score v) [ none ↦ severity_unknown | some score ↦ score.severity ]

  -- Advisory.Severity
  unfoldable pub worst_onto : Severity → List (Vulnerability fl.Number) → Severity
  worst_onto worst [] = worst
  worst_onto worst (v ∷ vs) =
      let s = severity v in
      worst_onto (if ltb (severity_rank worst) (severity_rank s) then s else worst) vs

  unfoldable pub advisory_severity : Advisory fl.Number → Severity
  advisory_severity a = worst_onto severity_unknown a.vulnerabilities

  -- Advisory.HasKEV
  unfoldable pub any_kev : List (Vulnerability fl.Number) → Bool
  any_kev [] = false
  any_kev (v ∷ vs) = v.kev || any_kev vs
