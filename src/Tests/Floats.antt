-- ===== src/Tests/Floats.antt =====
-- Numbers in thousandths with one that is none, an instance of what the engine assumes of floats.
use native.Mathlib.Nat.{le-div_iff_mul-le, div-mul-le_self}
use otscout.Prelude.{
  ℕ, ◌*◌, ◌/◌, ◌≤◌, ◌<◌, ◌≡◌, refl, Bool, true, false, Option, none, some, arith, leb, ltb,
}
use otscout.Prelude.Int.{ℤ, pos, ◌≤ℤ◌}
use otscout.Safety.Float.{Float64}

abbrev pub is_none : Option ℕ → Bool
is_none none = true
is_none (some _) = false

abbrev pub less : Option ℕ → Option ℕ → Bool
less (some a) (some b) = ltb a b
less _ _ = false

abbrev pub at_most : Option ℕ → Option ℕ → Bool
at_most (some a) (some b) = leb a b
at_most _ _ = false

abbrev pub gap : Option ℕ → ℤ
gap none = pos 0
gap (some a) = pos (1000000000000 / a)

abbrev pub rate : ℕ → ℕ → Option ℕ
rate a b = some (a * 1000 / b)

pub less_nan : (x y : Option ℕ) → is_none x ≡ true → less x y ≡ false
less_nan none y h = refl
less_nan (some a) y h = ground arith

pub more_nan : (x y : Option ℕ) → is_none y ≡ true → less x y ≡ false
more_nan (some a) none h = refl
more_nan none y h = refl
more_nan (some a) (some b) h = ground arith

pub at_most_of_not_less :
    (x y : Option ℕ) → is_none x ≡ false → is_none y ≡ false → less y x ≡ false → at_most x y ≡ true
at_most_of_not_less x y h k n = ground arith

pub at_most_trans :
    (x y z : Option ℕ) → at_most x y ≡ true → at_most y z ≡ true → at_most x z ≡ true
at_most_trans x y z h k = ground arith

pub less-at_most_trans : (x y z : Option ℕ) → less x y ≡ true → at_most y z ≡ true → less x z ≡ true
less-at_most_trans x y z h k = ground arith

pub rate_zero : (n : ℕ) → 0 < n → at_most (rate 0 n) (some 0) ≡ true
rate_zero n h = ground arith

div_mono : (a b n : ℕ) → 0 < n → a ≤ b → a / n ≤ b / n
div_mono a b n hn h = (le-div_iff_mul-le hn).1 (omega (arith, div-mul-le_self a n))

pub rate_mono : (a b n : ℕ) → 0 < n → a ≤ b → at_most (rate a n) (rate b n) ≡ true
rate_mono a b n hn h = ground (arith, div_mono (a * 1000) (b * 1000) n hn (omega arith))

div_anti : (n a b : ℕ) → 0 < a → a ≤ b → n / b ≤ n / a
div_anti n a b ha h = (le-div_iff_mul-le ha).1 (grind (arith, div-mul-le_self n b))

pub gap_anti : (x y : Option ℕ) → at_most (some 100) x ≡ true → at_most x y ≡ true → gap y ≤ℤ gap x
gap_anti (some a) (some b) h k = ground (arith, div_anti 1000000000000 a b)
gap_anti none y h k = ground arith
gap_anti (some a) none h k = ground arith

abbrev pub thousandths : Float64
thousandths = record {
  Number = Option ℕ;
  is_nan = is_none;
  lt = less;
  le = at_most;
  zero_point = some 0;
  hundredth = some 10;
  tenth = some 100;
  fifth = some 200;
  four = some 4000;
  quotient = rate;
  second_over = gap;
  lt_nan = less_nan;
  gt_nan = more_nan;
  le_of_not_lt = at_most_of_not_less;
  le_trans = at_most_trans;
  lt_le_trans = less-at_most_trans;
  zero_lt_tenth = refl;
  zero_le_hundredth = refl;
  hundredth_number = refl;
  tenth_number = refl;
  fifth_number = refl;
  four_number = refl;
  quotient_zero = rate_zero;
  quotient_mono = rate_mono;
  second_over_anti = gap_anti;
  second_over_four = refl;
}
