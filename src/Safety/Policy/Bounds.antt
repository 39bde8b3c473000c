-- ===== src/Safety/Policy/Bounds.antt =====
-- What a validated policy guarantees.
use otscout.Prelude.{◌≡◌, true, false, arith}
use otscout.Prelude.Int.{pos, ◌≤ℤ◌}
use otscout.Safety.Float.{Float64}
use otscout.Safety.Risk
use otscout.Safety.Policy.{Policy, validate, IsValid}

module _ (fl : Float64) where
  open fl use {Number, lt, is_nan, hundredth, tenth, fifth, four}

  -- What each field satisfies: a delay between 50 ms and 10 s, timeouts between 250 ms and 30 s, and
  -- so on.
  pub record InBounds (p : Policy fl) : Type 0 where
    pub delay_floor : pos 50000000 ≤ℤ p.inter_packet_delay
    pub delay_ceiling : p.inter_packet_delay ≤ℤ pos 10000000000
    pub rate_ceiling : lt four p.packets_per_second ≡ false
    pub rate_floor : lt p.packets_per_second tenth ≡ false
    pub connect_floor : pos 250000000 ≤ℤ p.connect_timeout
    pub connect_ceiling : p.connect_timeout ≤ℤ pos 30000000000
    pub read_floor : pos 250000000 ≤ℤ p.read_timeout
    pub read_ceiling : p.read_timeout ≤ℤ pos 30000000000
    pub error_rate_ceiling : lt fifth p.error_rate_abort ≡ false
    pub error_rate_floor : lt p.error_rate_abort hundredth ≡ false
    pub attempts : pos 1 ≤ℤ p.min_attempts_before_abort
    pub risk : Risk.validate p.allowed_risk ≡ true

  pub validate-InBounds : (p : Policy fl) → IsValid fl p → InBounds p
  unfolding validate
  validate-InBounds p h = ground arith
