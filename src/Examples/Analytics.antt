-- ===== src/Examples/Analytics.antt =====
-- The impact calculation on the golden scenario: a proposal of $180,000.00 at 60%, silent for 14 days,
-- with usage up by 40%.
use revenue_sentinel.Base.{◌≤◌, ok, ◌≡◌, refl, arith}
use revenue_sentinel.Base.Int.{pos, negsuc}
use revenue_sentinel.Domain.{proposal}
use revenue_sentinel.Analytics.Impact.{PipelineImpact, calculate_pipeline_impact}
use revenue_sentinel.Analytics.Impact.Bounds.{calculate_pipeline_impact-monotone}
use revenue_sentinel.Analytics.Severity.{bands, first_band, severity_for_weighted_value}
use revenue_sentinel.Analytics.Severity.Agreement.{severity_for_weighted_value-figures}

calculate_pipeline_impact-monotone_example :
    (before : PipelineImpact) × (after : PipelineImpact) × (calculate_pipeline_impact
        (pos 180000000000)
        "USD"
        (pos 6000)
        (pos 14)
        proposal
        (pos 4000)
      ≡ ok before)
    × (calculate_pipeline_impact (pos 180000000000) "USD" (pos 6000) (pos 30) proposal (negsuc 999)
        ≡ ok after)
    × (before.at_risk_value ≤ after.at_risk_value)
calculate_pipeline_impact-monotone_example =
    calculate_pipeline_impact-monotone 180000000000 6000 14 30 "USD" proposal (pos 4000)
      (negsuc 999) (omega arith) refl (omega arith) refl

severity_for_weighted_value-figures_example :
    (impact : PipelineImpact) × (calculate_pipeline_impact
        (pos 180000000000)
        "USD"
        (pos 6000)
        (pos 14)
        proposal
        (pos 4000)
      ≡ ok impact)
    × (severity_for_weighted_value (pos 180000000000) (pos 6000)
        ≡ ok (first_band bands impact.weighted_value))
severity_for_weighted_value-figures_example =
    severity_for_weighted_value-figures 18000000 6000 14 "USD" proposal (pos 4000) (omega arith)
      refl
