-- ===== src/Analytics/Impact/Bounds.antt =====
-- The order of the figures of src/revenue_sentinel/analytics/pipeline_impact.py, and when there are any.
use revenue_sentinel.Base.{ℕ, ◌-◌, ◌*◌, ◌≤◌, true, le→ltb_false, String, ok, ◌≡◌, arith, refl}
use revenue_sentinel.Base.Int.{ℤ, pos, int_leb}
use revenue_sentinel.Base.Rounding.{round_half_up, round_half_up_mono}
use revenue_sentinel.Domain.{OpportunityStage, is_open}
use revenue_sentinel.Analytics.Bands.{stall_risk_factor, usage_offset, stall_factor}
use revenue_sentinel.Analytics.Bands.Monotone.{stall_factor-monotone, usage_offset-monotone}
use revenue_sentinel.Analytics.Impact.{PipelineImpact, figures, calculate_pipeline_impact}

-- No figure is above the one it is derived from, and the share at risk is 85% at most.
abbrev pub IsOrdered : PipelineImpact → Type 0
IsOrdered impact =
    (impact.at_risk_value ≤ impact.at_risk_gross)
    × (impact.at_risk_gross ≤ round_half_up (impact.weighted_value * 8500) 10000)
    × (impact.at_risk_gross ≤ impact.weighted_value)
    × (impact.weighted_value ≤ impact.pipeline_value)

scaled : (c a b : ℕ) → a ≤ b → c * a ≤ c * b
scaled c a b h = grind arith

-- The figures of a calculation whose checks pass.
pub calculate-valid :
    (a p d : ℕ) (currency : String) (stage : OpportunityStage) (growth : ℤ)
    → p ≤ 10000
    → is_open stage ≡ true
    → calculate_pipeline_impact (pos a) currency (pos p) (pos d) stage growth
      ≡ ok (figures currency a p (stall_factor d stage) (usage_offset growth))
unfolding calculate_pipeline_impact stall_risk_factor
calculate-valid a p d currency stage growth hp open_stage =
    rw (le→ltb_false p 10000 hp) (rw open_stage refl)

product_mono : (a b c d : ℕ) → a ≤ b → c ≤ d → a * c ≤ b * d
product_mono a b c d h k = grind (arith, scaled b c d k, scaled c a b h)

figures-monotone :
    (currency : String) (a p f g o q : ℕ)
    → f ≤ g
    → q ≤ o
    → (figures currency a p f o).at_risk_value ≤ (figures currency a p g q).at_risk_value
unfolding figures
figures-monotone currency a p f g o q hf ho = round_half_up_mono _ _ 10000 (omega arith) (
    product_mono _ _ (10000 - o) (10000 - q)
      (round_half_up_mono _ _ 10000 (omega arith) (scaled _ f g hf)) (omega arith))

-- On valid inputs, longer silence and weaker growth never lower the value at risk.
pub calculate_pipeline_impact-monotone :
    (a p d e : ℕ) (currency : String) (stage : OpportunityStage) (growth weaker : ℤ)
    → p ≤ 10000
    → is_open stage ≡ true
    → d ≤ e
    → int_leb weaker growth ≡ true
    → (before : PipelineImpact) × (after : PipelineImpact) × (calculate_pipeline_impact
          (pos a)
          currency
          (pos p)
          (pos d)
          stage
          growth
        ≡ ok before)
      × (calculate_pipeline_impact (pos a) currency (pos p) (pos e) stage weaker ≡ ok after)
      × (before.at_risk_value ≤ after.at_risk_value)
calculate_pipeline_impact-monotone a p d e currency stage growth weaker hp open_stage hd hg = (
  figures currency a p (stall_factor d stage) (usage_offset growth),
  figures currency a p (stall_factor e stage) (usage_offset weaker),
  calculate-valid a p d currency stage growth hp open_stage,
  calculate-valid a p e currency stage weaker hp open_stage,
  figures-monotone currency a p (stall_factor d stage) (stall_factor e stage) (usage_offset growth)
      (usage_offset weaker) (stall_factor-monotone d e stage hd)
      (usage_offset-monotone weaker growth hg),
)
