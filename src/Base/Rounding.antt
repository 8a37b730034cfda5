-- ===== src/Base/Rounding.antt =====
-- `Decimal.quantize`: a fraction n / d, with d > 0, rounded to a whole number.
use revenue_sentinel.Base.{ℕ, ◌+◌, ◌*◌, ◌/◌, ◌%◌, ◌≤◌, ◌<◌, ltb, if◌then◌else◌, ◌≡◌, arith}

-- ROUND_HALF_UP, on a magnitude.
unfoldable pub round_half_up : ℕ → ℕ → ℕ
round_half_up n d = (2 * n + d) / (2 * d)

-- ROUND_HALF_EVEN.
unfoldable pub round_half_even : ℕ → ℕ → ℕ
round_half_even n d =
    if ltb (2 * (n % d)) d
    then n / d
    else if ltb d (2 * (n % d))
    then n / d + 1
    else n / d + (n / d) % 2

-- Rounding never passes a whole number that is a bound.
pub round_half_up-le : (n k d : ℕ) → 0 < d → n ≤ k * d → round_half_up n d ≤ k
unfolding round_half_up
round_half_up-le n k d pos h = grind arith

-- Rounding is monotone.
pub round_half_up_mono : (n m d : ℕ) → 0 < d → n ≤ m → round_half_up n d ≤ round_half_up m d
unfolding round_half_up
round_half_up_mono n m d pos h = grind arith

-- The rounded value is the nearest: off by half a unit at most.
pub round_half_up_near :
    (n d : ℕ)
    → 0 < d
    → (2 * (round_half_up n d * d) ≤ 2 * n + d) × (2 * n < 2 * (round_half_up n d * d) + d)
unfolding round_half_up
round_half_up_near n d pos = (grind arith, grind arith)

pub round_half_up_exact : (k d : ℕ) → 0 < d → round_half_up (k * d) d ≡ k
unfolding round_half_up
round_half_up_exact k d pos = grind arith

pub round_half_even_near :
    (n d : ℕ)
    → 0 < d
    → (2 * (round_half_even n d * d) ≤ 2 * n + d) × (2 * n ≤ 2 * (round_half_even n d * d) + d)
unfolding round_half_even
round_half_even_near n d pos = (grind arith, grind arith)

-- Rounding is monotone, for the divisor of the price arithmetic.
pub round_half_even_mono : (n m : ℕ) → n ≤ m → round_half_even n 10000 ≤ round_half_even m 10000
unfolding round_half_even
round_half_even_mono n m h = ground arith

pub round_half_even_zero : (d : ℕ) → 0 < d → round_half_even 0 d ≡ 0
unfolding round_half_even
round_half_even_zero d pos = grind arith
