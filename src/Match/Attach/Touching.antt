-- ===== src/Match/Attach/Touching.antt =====
-- Which vulnerabilities add to a finding.
use otscout.Match.Candidate.{Candidate}
use otscout.Asset.Addresses.{Asset}
use otscout.Match.Finding.{FloatArith, Finding}
use otscout.Advisory.{known_affected, any_kev, Vulnerability, Advisory}
use otscout.Prelude.{List, ◌≡◌, Text, ◌∷◌, if◌then◌else◌, [], ◌||◌, is_empty, some, Option, none}
use otscout.Match.Attach.{Attached, any_matched, dedupe}
use otscout.Safety.Float.{Float64}

module _ (fl : Float64) where
  -- Those that list no affected product, or list one that matched, in the order of the advisory.
  unfoldable pub touching :
      List Text → List (Vulnerability fl.Number) → List (Vulnerability fl.Number)
  touching matched [] = []
  touching matched (v ∷ vs) =
      let rest = touching matched vs in
      let affected = v.status known_affected in
      if is_empty affected || any_matched affected matched then v ∷ rest else rest

  -- The CVEs that they name.
  unfoldable pub named_cves : List (Vulnerability fl.Number) → List Text
  named_cves [] = []
  named_cves (v ∷ vs) = let rest = named_cves vs in if is_empty v.cve then rest else v.cve ∷ rest

  abbrev Same : Attached fl → Attached fl → Type 0
  Same x y = (y.cves ≡ x.cves) × (y.kev ≡ x.kev)

  module _ (fa : FloatArith fl) where
    abbrev Named : List (Vulnerability fl.Number) → Option (Finding fl) → Type 0
    Named vs none = Unit
    Named vs (some f) = (f.cves ≡ dedupe (named_cves vs)) × (f.kev ≡ any_kev fl vs)
