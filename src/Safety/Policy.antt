-- ===== src/Safety/Policy.antt =====
-- The pacing and abort settings of a run and their bounds (internal/safety/policy.go). A duration
-- is a number of nanoseconds.
pub mod Bounds
use otscout.Prelude.{ℕ, ◌≡◌, true, List, [], ◌∷◌, ◌++◌, if◌then◌else◌}
use otscout.Prelude.Int.{ℤ, pos, ltb_ℤ}
use otscout.Safety.Float.{Float64}
use otscout.Safety.Risk
use otscout.Safety.Risk.{Risk, risk_safe}

abbrev pub min_inter_packet_delay : ℤ
min_inter_packet_delay = pos 50000000

abbrev pub max_inter_packet_delay : ℤ
max_inter_packet_delay = pos 10000000000

abbrev pub min_timeout : ℤ
min_timeout = pos 250000000

abbrev pub max_timeout : ℤ
max_timeout = pos 30000000000

pub data Problem : Type 0 where
  delay_below_floor delay_above_ceiling : Problem
  rate_above_default rate_below_floor : Problem
  timeout_below_floor timeout_above_ceiling : Problem
  error_rate_above_default error_rate_below_floor : Problem
  no_attempts bad_risk : Problem

unfoldable pub validate_timeout : ℤ → List Problem
validate_timeout d =
    if ltb_ℤ d min_timeout
    then timeout_below_floor ∷ []
    else if ltb_ℤ max_timeout d
    then timeout_above_ceiling ∷ []
    else []

module _ (fl : Float64) where
  open fl use {Number, lt, hundredth, tenth, fifth, four}

  pub record Policy : Type 0 where
    pub inter_packet_delay : ℤ
    pub packets_per_second : Number
    pub connect_timeout : ℤ
    pub read_timeout : ℤ
    pub error_rate_abort : Number
    pub min_attempts_before_abort : ℤ
    pub allowed_risk : Risk

  unfoldable pub default_policy : Policy
  default_policy = record {
    inter_packet_delay = pos 250000000;
    packets_per_second = four;
    connect_timeout = pos 3000000000;
    read_timeout = pos 3000000000;
    error_rate_abort = fifth;
    min_attempts_before_abort = pos 5;
    allowed_risk = risk_safe;
  }

  delay_problems : ℤ → List Problem
  delay_problems d =
      if ltb_ℤ d min_inter_packet_delay
      then delay_below_floor ∷ []
      else if ltb_ℤ max_inter_packet_delay d
      then delay_above_ceiling ∷ []
      else []

  rate_problems : Number → List Problem
  rate_problems r =
      if lt four r
      then rate_above_default ∷ []
      else if lt r tenth
      then rate_below_floor ∷ []
      else []

  error_rate_problems : Number → List Problem
  error_rate_problems r =
      if lt fifth r
      then error_rate_above_default ∷ []
      else if lt r hundredth
      then error_rate_below_floor ∷ []
      else []

  -- Every way in which a policy is out of bounds; no problem is a nil error.
  unfoldable pub validate : Policy → List Problem
  unfolding delay_problems rate_problems validate_timeout error_rate_problems
  validate p =
      delay_problems p.inter_packet_delay
      ++ (rate_problems p.packets_per_second
          ++ (validate_timeout p.connect_timeout
              ++ (validate_timeout p.read_timeout
                  ++ (error_rate_problems p.error_rate_abort
                      ++ ((if ltb_ℤ p.min_attempts_before_abort (pos 1)
                            then no_attempts ∷ []
                            else [])
                          ++ (if Risk.validate p.allowed_risk then [] else bad_risk ∷ []))))))

  abbrev pub IsValid : Policy → Type 0
  IsValid p = validate p ≡ []
