-- ===== src/Safety/Engine/Interval.antt =====
-- How long the pause is that a policy asks for.
use otscout.Prelude.{◌≡◌, true, false, arith}
use otscout.Prelude.Int.{pos, ◌≤ℤ◌}
use otscout.Safety.Float.{Float64}
use otscout.Safety.Policy.{Policy, IsValid, validate}
use otscout.Safety.Policy.Bounds.{InBounds, validate-InBounds}
use otscout.Safety.Engine.Loop.{interval_of}

module _ (fl : Float64) where
  open fl use {Number, is_nan, lt, le, zero_point, tenth, four, second_over}

  -- Where the rate of a policy in bounds is a number, it lies between a tenth and four, so that it is
  -- above zero.
  rate_range :
      (p : Policy fl)
      → InBounds fl p
      → is_nan p.packets_per_second ≡ false
      → (lt zero_point p.packets_per_second ≡ true)
        × (le tenth p.packets_per_second ≡ true)
        × (le p.packets_per_second four ≡ true)
  rate_range p b n =
      let r = p.packets_per_second in
      let floor = fl.le_of_not_lt tenth r fl.tenth_number n b.rate_floor in
      (
        fl.lt_le_trans zero_point tenth r fl.zero_lt_tenth floor,
        floor,
        fl.le_of_not_lt r four n fl.four_number b.rate_ceiling,
      )

  -- The pause of a valid policy whose rate is a number is a quarter of a second or longer, and no
  -- shorter than the delay of the policy.
  pub interval_of-floor :
      (p : Policy fl)
      → IsValid fl p
      → is_nan p.packets_per_second ≡ false
      → (pos 250000000 ≤ℤ interval_of fl p) × (p.inter_packet_delay ≤ℤ interval_of fl p)
  unfolding interval_of
  interval_of-floor p v n =
      let (above, floor, below) = rate_range p (validate-InBounds fl p v) n in
      ground (
        arith,
        above,
        fl.second_over_anti p.packets_per_second four floor below,
        fl.second_over_four,
      )

  -- A rate that is not a number passes validation in the place of any rate that does, and the pause
  -- is then the delay of the policy alone.
  pub validate_nan :
      (p : Policy fl) (x : Number)
      → IsValid fl p
      → is_nan x ≡ true
      → IsValid fl (record p { packets_per_second = x })
        × (interval_of fl (record p { packets_per_second = x }) ≡ p.inter_packet_delay)
  unfolding interval_of validate
  validate_nan p x v n =
      ground (arith, fl.gt_nan four x n, fl.lt_nan x tenth n, fl.gt_nan zero_point x n)
