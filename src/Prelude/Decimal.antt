-- ===== src/Prelude/Decimal.antt =====
-- strconv.Itoa of a number that is not negative. The fuel is the number itself and one more, of
-- which each digit takes one.
use Prim.Native.Nat.{ℕ, zero, suc, ◌+◌, ◌/◌, ◌%◌, ◌≤◌}
use native.Mathlib.Omega.{arith}
use otscout.Prelude.Lists.{All}
use mathlib.Core.List.{[], ◌∷◌}
use otscout.Prelude.Tests.{ltb, if◌then◌else◌}
use otscout.Prelude.Bytes.{Text}

digits_onto : ℕ → ℕ → Text → Text
digits_onto zero n out = out
digits_onto (suc fuel) n out =
    let rest = digits_onto fuel (n / 10) ((b'0' + n % 10) ∷ out) in
    if ltb n 10 then (b'0' + n) ∷ out else rest

unfoldable pub itoa : ℕ → Text
unfolding digits_onto
itoa n = digits_onto (suc n) n []

digits_onto-All :
    (fuel n : ℕ) (out : Text)
    → All (λ (b : ℕ). (b'0' ≤ b) × (b ≤ b'9')) out
    → All (λ (b : ℕ). (b'0' ≤ b) × (b ≤ b'9')) (digits_onto fuel n out)
unfolding digits_onto
digits_onto-All zero n out h = h
digits_onto-All (suc fuel) n out h =
    ground (arith, h, digits_onto-All fuel (n / 10) ((b'0' + n % 10) ∷ out))

-- A number in decimal is written in digits.
pub itoa-All : (n : ℕ) → All (λ (b : ℕ). (b'0' ≤ b) × (b ≤ b'9')) (itoa n)
unfolding itoa
itoa-All n = digits_onto-All (suc n) n [] tt
