-- ===== src/Analytics/Impact.antt =====
-- src/revenue_sentinel/analytics/pipeline_impact.py: the weighted and at-risk value. An amount is a
-- whole number of units of 10^-6 dollars and a probability one of ten-thousandths; the figures are cents.
pub mod Bounds
use revenue_sentinel.Base.{
  ℕ, ◌+◌, ◌-◌, ◌*◌, Bool, ltb, String, Result, ok, err, ◌>>=◌, ◌>>◌, raise_if, ◌||◌,
}
use revenue_sentinel.Base.Int.{ℤ, pos, is_negative, pos_part}
use revenue_sentinel.Base.Rounding.{round_half_up}
use revenue_sentinel.Domain.{OpportunityStage}
use revenue_sentinel.Analytics.Bands.{
  CalculationError, negative_amount, probability_out_of_range, stall_risk_factor, usage_offset,
}

-- `PipelineImpact`, less its version tags and the record of its inputs.
pub record PipelineImpact : Type 0 where
  pub currency : String
  pub pipeline_value : ℕ
  pub weighted_value : ℕ
  pub at_risk_gross : ℕ
  pub at_risk_value : ℕ
  pub applied_stall_risk_factor : ℕ
  pub applied_usage_offset : ℕ

-- `to_cents`, of a number of units of 1 / d cents.
abbrev pub to_cents : ℕ → ℕ → ℕ
to_cents n d = round_half_up n d

-- Units of 10^-6 dollars in a cent, and the units of a factor in one.
abbrev pub micros_per_cent : ℕ
micros_per_cent = 10000

abbrev pub one_factor : ℕ
one_factor = 10000

-- `not (0 <= probability <= 1)`.
abbrev pub out_of_range : ℤ → Bool
out_of_range probability = is_negative probability || ltb one_factor (pos_part probability)

-- The chain of figures, each rounded before the next.
unfoldable pub figures : String → ℕ → ℕ → ℕ → ℕ → PipelineImpact
figures currency amount probability stall_factor offset =
    let pipeline_value = to_cents amount micros_per_cent in
    let weighted_value = to_cents (pipeline_value * probability) one_factor in
    let at_risk_gross = to_cents (weighted_value * stall_factor) one_factor in
    let at_risk_value = to_cents (at_risk_gross * (one_factor - offset)) one_factor in
    record {
      currency = currency;
      pipeline_value = pipeline_value;
      weighted_value = weighted_value;
      at_risk_gross = at_risk_gross;
      at_risk_value = at_risk_value;
      applied_stall_risk_factor = stall_factor;
      applied_usage_offset = offset;
    }

unfoldable pub calculate_pipeline_impact :
    ℤ → String → ℤ → ℤ → OpportunityStage → ℤ → Result CalculationError PipelineImpact
calculate_pipeline_impact amount currency probability days_inactive stage usage_growth =
    raise_if (is_negative amount) negative_amount
    >> (raise_if (out_of_range probability) probability_out_of_range
        >> (stall_risk_factor days_inactive stage >>= λ stall_factor. ok (
            figures currency (pos_part amount) (pos_part probability) stall_factor
              (usage_offset usage_growth))))
