-- ===== src/Safety/Engine/Rate.antt =====
-- The decision to stop, as a function of the failures counted.
use otscout.Prelude.{◌≤◌, ◌≡◌, true, false, arith}
use otscout.Prelude.Int.{pos, ◌≤ℤ◌}
use otscout.Safety.Float.{Float64}
use otscout.Safety.Policy.{Policy, IsValid}
use otscout.Safety.Policy.Bounds.{validate-InBounds}
use otscout.Safety.State.{Result}
use otscout.Safety.Engine.Loop.{should_abort}

module _ (fl : Float64) (p : Policy fl) where
  open fl use {is_nan, le, quotient, zero_point, hundredth}

  -- Under a valid policy whose threshold is a number, a run in which nothing failed is not stopped.
  should_abort_quiet :
      (r : Result)
      → IsValid fl p
      → is_nan p.error_rate_abort ≡ false
      → r.failed ≡ 0
      → should_abort fl p r ≡ false
  unfolding should_abort
  should_abort_quiet r v n none_failed =
      let b = validate-InBounds fl p v in
      let t = p.error_rate_abort in
      let low : le hundredth t ≡ true =
        fl.le_of_not_lt hundredth t fl.hundredth_number n b.error_rate_floor in
      ground (
        arith,
        b,
        fl.quotient_zero r.sent,
        fl.le_trans (quotient 0 r.sent) zero_point t,
        fl.le_trans zero_point hundredth t fl.zero_le_hundredth low,
      )

  -- More failures among as many packets never undo the decision to stop.
  pub should_abort_mono :
      (r r' : Result)
      → pos 1 ≤ℤ p.min_attempts_before_abort
      → r.sent ≡ r'.sent
      → r.failed ≤ r'.failed
      → should_abort fl p r ≡ true
      → should_abort fl p r' ≡ true
  unfolding should_abort
  should_abort_mono r r' m s f h = ground (
    arith,
    fl.quotient_mono r.failed r'.failed r.sent,
    fl.le_trans (quotient r.failed r.sent) (quotient r'.failed r.sent) p.error_rate_abort,
  )
