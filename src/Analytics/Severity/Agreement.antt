-- ===== src/Analytics/Severity/Agreement.antt =====
-- The severity of src/revenue_sentinel/incidents/severity.py against the weighted value of
-- src/revenue_sentinel/analytics/pipeline_impact.py.
use revenue_sentinel.Base.{ℕ, ◌*◌, ◌≤◌, true, le→ltb_false, String, ok, ◌≡◌, ap, sym, ◌∙◌, arith}
use revenue_sentinel.Base.Int.{ℤ, pos}
use revenue_sentinel.Base.Rounding.{round_half_up, round_half_up_exact}
use revenue_sentinel.Domain.{OpportunityStage, is_open}
use revenue_sentinel.Analytics.Impact.{PipelineImpact, calculate_pipeline_impact, figures}
use revenue_sentinel.Analytics.Bands.{stall_factor, usage_offset}
use revenue_sentinel.Analytics.Impact.Bounds.{calculate-valid}
use revenue_sentinel.Analytics.Severity.{bands, first_band, severity_for_weighted_value}

-- Rounding does not depend on the unit.
rescale : (n : ℕ) → round_half_up (n * 10000) 100000000 ≡ round_half_up n 10000
unfolding round_half_up
rescale n = omega arith

reorder : (c p : ℕ) → c * 10000 * p ≡ c * p * 10000
reorder c p = grind arith

-- An incident's severity is the band of the weighted value of its impact: for an amount in whole
-- cents, the two calculations agree on it.
pub severity_for_weighted_value-figures :
    (cents p d : ℕ) (currency : String) (stage : OpportunityStage) (growth : ℤ)
    → p ≤ 10000
    → is_open stage ≡ true
    → (impact : PipelineImpact) × (calculate_pipeline_impact
          (pos (cents * 10000))
          currency
          (pos p)
          (pos d)
          stage
          growth
        ≡ ok impact)
      × (severity_for_weighted_value (pos (cents * 10000)) (pos p)
          ≡ ok (first_band bands impact.weighted_value))
unfolding severity_for_weighted_value figures
severity_for_weighted_value-figures cents p d currency stage growth hp open_stage = (
  figures currency (cents * 10000) p (stall_factor d stage) (usage_offset growth),
  calculate-valid (cents * 10000) p d currency stage growth hp open_stage,
  rw (le→ltb_false p 10000 hp) (
      ap (λ weighted. ok (first_band bands weighted))
        (ap (λ n. round_half_up n 100000000) (reorder cents p)
          ∙ rescale (cents * p)
          ∙ ap (λ n. round_half_up (n * p) 10000)
              (sym (round_half_up_exact cents 10000 (omega arith))))),
)
