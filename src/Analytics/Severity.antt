-- ===== src/Analytics/Severity.antt =====
-- src/revenue_sentinel/incidents/severity.py: the bands of the weighted value, with the units of the
-- impact calculation.
pub mod Agreement
use revenue_sentinel.Base.{
  ℕ, ◌*◌, Bool, leb, List, [], ◌∷◌, Result, ok, err, ◌>>◌, raise_if, if◌then◌else◌,
}
use revenue_sentinel.Base.Int.{ℤ, is_negative, pos_part}
use revenue_sentinel.Domain.{Severity, low, medium, high, critical}
use revenue_sentinel.Analytics.Bands.{CalculationError, negative_amount, probability_out_of_range}
use revenue_sentinel.Analytics.Impact.{to_cents, micros_per_cent, one_factor, out_of_range}

-- `_BANDS`: a floor in cents and its severity.
abbrev pub bands : List (ℕ × Severity)
bands = (25000000, critical) ∷ (10000000, high) ∷ (2500000, medium) ∷ []

-- The loop over the bands.
unfoldable pub first_band : List (ℕ × Severity) → ℕ → Severity
first_band [] weighted = low
first_band ((floor, severity) ∷ rest) weighted =
    let later = first_band rest weighted in if leb floor weighted then severity else later

unfoldable pub severity_for_weighted_value : ℤ → ℤ → Result CalculationError Severity
severity_for_weighted_value amount probability =
    raise_if (is_negative amount) negative_amount
    >> (raise_if (out_of_range probability) probability_out_of_range
        >> ok (
            first_band bands
              (to_cents (pos_part amount * pos_part probability) (micros_per_cent * one_factor))))
