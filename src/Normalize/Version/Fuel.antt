-- ===== src/Normalize/Version/Fuel.antt =====
-- The fuel of the tokenizer is enough.
use otscout.Prelude.{ℕ, zero, suc, ◌≤◌, ◌≡◌, ◌≢◌, refl, Bool, true, [], ◌∷◌, arith, length, Text}
use otscout.Normalize.Version.{scan, wanting, run_of, is_digit, is_letter}

run_of-length : (p : ℕ → Bool) (s : Text) → length (run_of p s).1 ≤ length s
unfolding run_of
run_of-length p [] = omega arith
run_of-length p (c ∷ s) = ground (arith, run_of-length p s)

run_of-shorter :
    (p : ℕ → Bool) (c : ℕ) (s : Text) → p c ≡ true → length (run_of p (c ∷ s)).1 ≤ length s
unfolding run_of
run_of-shorter p c s h = ground (arith, run_of-length p s)

scan-ended : (fuel : ℕ) (s : Text) → length s ≤ fuel → scan fuel s ≢ wanting
unfolding scan
scan-ended zero [] h = λ e. cc
scan-ended (suc fuel) [] h = λ e. cc
scan-ended (suc fuel) (c ∷ s) h = ground (
  arith,
  scan-ended fuel s,
  scan-ended fuel (run_of is_digit (c ∷ s)).1,
  scan-ended fuel (run_of is_letter (c ∷ s)).1,
  run_of-shorter is_digit c s,
  run_of-shorter is_letter c s,
)
scan-ended zero (c ∷ s) h = absurd (omega (arith, h))

scan-same :
    (fuel more : ℕ) (s : Text) → length s ≤ fuel → length s ≤ more → scan fuel s ≡ scan more s
unfolding scan
scan-same zero zero s h k = refl
scan-same zero (suc more) [] h k = refl
scan-same (suc fuel) zero [] h k = refl
scan-same (suc fuel) (suc more) [] h k = refl
scan-same (suc fuel) (suc more) (c ∷ s) h k = ground (
  arith,
  scan-same fuel more s,
  scan-same fuel more (run_of is_digit (c ∷ s)).1,
  scan-same fuel more (run_of is_letter (c ∷ s)).1,
  run_of-shorter is_digit c s,
  run_of-shorter is_letter c s,
)
scan-same zero more (c ∷ s) h k = absurd (omega (arith, h))
scan-same (suc fuel) zero (c ∷ s) h k = absurd (omega (arith, k))

-- With as much fuel as there are bytes, the tokenizer never stops for want of it, and any further
-- fuel changes nothing.
pub scan-fuel :
    (fuel more : ℕ) (s : Text)
    → length s ≤ fuel
    → length s ≤ more
    → (scan fuel s ≢ wanting) × (scan fuel s ≡ scan more s)
scan-fuel fuel more s h k = (scan-ended fuel s h, scan-same fuel more s h k)
