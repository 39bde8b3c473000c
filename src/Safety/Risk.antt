-- ===== src/Safety/Risk.antt =====
-- The risk tiers and their order (internal/safety/risk.go). A rating is the text of a template.
use otscout.Prelude.{
  ℕ, ◌≡◌, Bool, true, false, Option, none, some, arith, codes, text_eq, leb, if◌then◌else◌, Text,
}

abbrev pub Risk : Type 0
Risk = Text

abbrev pub risk_safe : Risk
risk_safe = codes "safe"

abbrev pub risk_caution : Risk
risk_caution = codes "caution"

abbrev pub risk_lab_only : Risk
risk_lab_only = codes "lab-only"

-- riskOrder[r]
unfoldable pub risk_order : Risk → Option ℕ
risk_order r =
    if text_eq r risk_safe
    then some 0
    else if text_eq r risk_caution
    then some 1
    else if text_eq r risk_lab_only
    then some 2
    else none

-- Whether Validate returns no error.
unfoldable pub validate : Risk → Bool
validate r = elim (risk_order r) [ some _ ↦ true | none ↦ false ]

unfoldable pub at_most : Risk → Risk → Bool
at_most r ceiling = elim (risk_order r) [
  | some mine ↦ elim (risk_order ceiling) [ some limit ↦ leb mine limit | none ↦ false ]
  | none ↦ false
]

-- A rating within a ceiling is a rating, and so is the ceiling.
pub at_most-validate :
    (r ceiling : Risk) → at_most r ceiling ≡ true → (validate r ≡ true) × (validate ceiling ≡ true)
unfolding at_most validate
at_most-validate r ceiling h = ground arith

-- Lowering the ceiling only ever takes ratings away.
pub at_most_trans : (r s t : Risk) → at_most r s ≡ true → at_most s t ≡ true → at_most r t ≡ true
unfolding at_most
at_most_trans r s t h k = ground arith

-- Of two ratings one is within the other.
pub at_most_total :
    (r s : Risk) → validate r ≡ true → validate s ≡ true → at_most r s ≡ false → at_most s r ≡ true
unfolding at_most validate
at_most_total r s h k n = ground arith
