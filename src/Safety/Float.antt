-- ===== src/Safety/Float.antt =====
-- What the policy and the engine use of Go's float64. The type and its operations are a parameter:
-- the laws are those of IEEE 754 comparison, where a NaN is neither below nor above anything, and
-- of correctly rounded division, which is monotone. The law on durations is for rates from a
-- tenth upwards, where the quotient lies well inside the range of int64; below, Go may leave the
-- conversion to the implementation, and no law speaks of it.
use otscout.Prelude.{ℕ, ◌≤◌, ◌<◌, ◌≡◌, Bool, true, false}
use otscout.Prelude.Int.{ℤ, pos, ◌≤ℤ◌}

pub record Float64 : Type 1 where
  pub Number : Type 0
  pub is_nan : Number → Bool
  -- x < y and x <= y
  pub lt : Number → Number → Bool
  pub le : Number → Number → Bool
  -- the constants 0, 0.01, 0.1, 0.20 and 4.0
  pub zero_point : Number
  pub hundredth : Number
  pub tenth : Number
  pub fifth : Number
  pub four : Number
  -- float64(a) / float64(b)
  pub quotient : ℕ → ℕ → Number
  -- time.Duration(float64(time.Second) / x), in nanoseconds
  pub second_over : Number → ℤ
  pub lt_nan : (x y : Number) → is_nan x ≡ true → lt x y ≡ false
  pub gt_nan : (x y : Number) → is_nan y ≡ true → lt x y ≡ false
  pub le_of_not_lt :
      (x y : Number) → is_nan x ≡ false → is_nan y ≡ false → lt y x ≡ false → le x y ≡ true
  pub le_trans : (x y z : Number) → le x y ≡ true → le y z ≡ true → le x z ≡ true
  pub lt_le_trans : (x y z : Number) → lt x y ≡ true → le y z ≡ true → lt x z ≡ true
  pub zero_lt_tenth : lt zero_point tenth ≡ true
  pub zero_le_hundredth : le zero_point hundredth ≡ true
  pub hundredth_number : is_nan hundredth ≡ false
  pub tenth_number : is_nan tenth ≡ false
  pub fifth_number : is_nan fifth ≡ false
  pub four_number : is_nan four ≡ false
  -- no failures in at least one packet is a rate of zero
  pub quotient_zero : (n : ℕ) → 0 < n → le (quotient 0 n) zero_point ≡ true
  -- of as many packets, more failures are no lower a rate
  pub quotient_mono : (a b n : ℕ) → 0 < n → a ≤ b → le (quotient a n) (quotient b n) ≡ true
  pub second_over_anti :
      (x y : Number) → le tenth x ≡ true → le x y ≡ true → second_over y ≤ℤ second_over x
  -- a quarter of a second
  pub second_over_four : second_over four ≡ pos 250000000
