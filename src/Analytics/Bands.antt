-- ===== src/Analytics/Bands.antt =====
-- src/revenue_sentinel/analytics/risk_bands.py: the two banded tables. A factor is a whole number of
-- ten-thousandths, the precision to which it is quantized, and a growth a whole number of
-- ten-thousandths with its sign, the precision of `week_over_week_growth`.
pub mod Monotone
use revenue_sentinel.Base.{
  ℕ, ◌+◌, ◌*◌, ◌/◌, Bool, true, false, not, leb, String, List, [], ◌∷◌, Result, ok, err, ◌>>◌,
  raise_if, if◌then◌else◌,
}
use revenue_sentinel.Base.Int.{ℤ, pos, negsuc, is_negative, pos_part, int_leb}
use revenue_sentinel.Domain.{
  OpportunityStage, discovery, proposal, negotiation, closed_won, closed_lost, is_open,
}

-- `CalculationError`, by what it refuses.
pub data CalculationError : Type 0 where
  negative_window : ℤ → CalculationError
  closed_stage : OpportunityStage → CalculationError
  negative_amount : CalculationError
  probability_out_of_range : CalculationError
  touch_after_evaluation : CalculationError
  negative_count : CalculationError
  zero_baseline : CalculationError

-- `_STALL_RISK_BY_INACTIVITY`: a threshold in days and a factor, in hundredths.
abbrev pub stall_risk_by_inactivity : List (ℕ × ℕ)
stall_risk_by_inactivity = (0, 0) ∷ (14, 35) ∷ (21, 45) ∷ (30, 55) ∷ (45, 65) ∷ []

-- `_STAGE_MULTIPLIER`, in hundredths. The code asks for the multiplier of an open stage only.
abbrev pub stage_multiplier : OpportunityStage → ℕ
stage_multiplier discovery = 80
stage_multiplier proposal = 100
stage_multiplier negotiation = 120
stage_multiplier closed_won = 0
stage_multiplier closed_lost = 0

-- `MAX_STALL_RISK`.
abbrev pub max_stall_risk : ℕ
max_stall_risk = 8500

-- The loop: the factor of the last band reached before the first that is not.
unfoldable pub last_band : {A : Type 0} → (A → Bool) → List (A × ℕ) → ℕ → ℕ
last_band reached [] base = base
last_band reached ((threshold, factor) ∷ bands) base =
    let later = last_band reached bands factor in if reached threshold then later else base

abbrev pub minimum : ℕ → ℕ → ℕ
minimum a b = if leb a b then a else b

-- The factor of an open stage: hundredths by hundredths are ten-thousandths, so that the `quantize`
-- changes nothing.
unfoldable pub stall_factor : ℕ → OpportunityStage → ℕ
stall_factor days stage =
    minimum
      (last_band (λ min_days. leb min_days days) stall_risk_by_inactivity 0
        * stage_multiplier stage)
      max_stall_risk

unfoldable pub stall_risk_factor : ℤ → OpportunityStage → Result CalculationError ℕ
stall_risk_factor days_inactive stage =
    raise_if (is_negative days_inactive) (negative_window days_inactive)
    >> (raise_if (not (is_open stage)) (closed_stage stage)
        >> ok (stall_factor (pos_part days_inactive) stage))

-- `_USAGE_OFFSET_BY_GROWTH`: a growth and an offset.
abbrev pub usage_offset_by_growth : List (ℤ × ℕ)
usage_offset_by_growth =
    (negsuc 9999, 0) ∷ (pos 0, 500) ∷ (pos 2000, 1000) ∷ (pos 4000, 1500) ∷ (pos 8000, 2000) ∷ []

abbrev pub max_usage_offset : ℕ
max_usage_offset = 2000

unfoldable pub usage_offset : ℤ → ℕ
usage_offset usage_growth =
    minimum (last_band (λ min_growth. int_leb min_growth usage_growth) usage_offset_by_growth 0)
      max_usage_offset
