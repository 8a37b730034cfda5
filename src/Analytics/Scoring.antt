-- ===== src/Analytics/Scoring.antt =====
-- src/revenue_sentinel/analytics/intervention_scoring.py: expected value, composite score and ranking.
--
-- Money is in cents, and effort, risk and composite in hundredths. The decimal context rounds a quotient to
-- 28 digits: with sums below 10 ^ 12 dollars a quotient that is no tie lies further than that from one,
-- so that the figure that is quantized rounds as the exact fraction does.
pub mod Ranking
use revenue_sentinel.Base.{
  ℕ, ◌+◌, ◌*◌, Bool, true, false, leb, ltb, ◌||◌, ◌==◌, String, List, Result, ok, err, ◌>>=◌, ◌>>◌,
  raise_if, if◌then◌else◌,
}
use revenue_sentinel.Base.Int.{ℤ, pos, is_negative, pos_part}
use revenue_sentinel.Base.Rounding.{round_half_even}
use revenue_sentinel.Base.Sorting.{sort_by, text_leb}
use revenue_sentinel.Domain.{
  ProposedAction, RiskTier, read_or_compute, internal_reversible, customer_facing_or_material,
  prohibited,
}
use revenue_sentinel.Governance.Tiers.{classify, proposed_value}

pub data RecoveryBand : Type 0 where
  low medium high : RecoveryBand

pub data EffortBand : Type 0 where
  low medium high : EffortBand

-- `_RECOVERY_SHARE`, in hundredths.
abbrev pub recovery_share : RecoveryBand → ℕ
recovery_share RecoveryBand.low = 10
recovery_share RecoveryBand.medium = 30
recovery_share RecoveryBand.high = 50

-- `_EFFORT_SCORE`.
abbrev pub effort_score_of : EffortBand → ℕ
effort_score_of EffortBand.low = 100
effort_score_of EffortBand.medium = 200
effort_score_of EffortBand.high = 400

-- `_RISK_SCORE_BY_TIER`.
abbrev pub risk_score_by_tier : RiskTier → ℕ
risk_score_by_tier read_or_compute = 0
risk_score_by_tier internal_reversible = 100
risk_score_by_tier customer_facing_or_material = 300
risk_score_by_tier prohibited = 1000

-- `CalculationError`, by what it refuses.
pub data ScoringError : Type 0 where
  negative_at_risk : ScoringError
  weighted_not_positive : ScoringError
  negative_score : ScoringError

pub record ScoredIntervention : Type 0 where
  pub title : String
  pub action : ProposedAction
  pub expected_value : ℕ
  pub effort_score : ℕ
  pub risk_score : ℕ
  pub risk_tier : RiskTier
  pub composite_score : ℕ

unfoldable pub expected_value_of : ℤ → RecoveryBand → Result ScoringError ℕ
expected_value_of at_risk_value recovery =
    raise_if (is_negative at_risk_value) negative_at_risk
    >> ok (round_half_even (pos_part at_risk_value * recovery_share recovery) 100)

-- `weighted_value <= 0`.
abbrev pub is_not_positive : ℤ → Bool
is_not_positive n = is_negative n || pos_part n == 0

-- (value / weighted) * 100 / (effort + risk + 1), in hundredths.
unfoldable pub composite : ℕ → ℤ → ℤ → ℤ → Result ScoringError ℕ
composite value effort_score risk_score weighted_value =
    raise_if (is_not_positive weighted_value) weighted_not_positive
    >> (raise_if (is_negative effort_score || is_negative risk_score) negative_score
        >> ok (
            round_half_even (value * 1000000)
              (pos_part weighted_value * (pos_part effort_score + pos_part risk_score + 100))))

unfoldable pub score_intervention :
    String
    → ProposedAction
    → RecoveryBand
    → EffortBand
    → ℤ
    → ℤ
    → List String
    → Result ScoringError ScoredIntervention
score_intervention title action recovery effort at_risk_value weighted_value fields_changed = do
  let tier = (classify (proposed_value action) fields_changed).0
  value ← expected_value_of at_risk_value recovery
  let effort_score = effort_score_of effort
  let risk_score = risk_score_by_tier tier
  composite_score ← composite value (pos effort_score) (pos risk_score) weighted_value
  ok (record {
    title = title;
    action = action;
    expected_value = value;
    effort_score = effort_score;
    risk_score = risk_score;
    risk_tier = tier;
    composite_score = composite_score;
  })

-- The key of the ranking: its two numbers count downwards.
pub record RankKey : Type 0 where
  pub composite_score : ℕ
  pub expected_value : ℕ
  pub action : String
  pub title : String

abbrev pub rank_key : ScoredIntervention → RankKey
rank_key item = record {
  composite_score = item.composite_score;
  expected_value = item.expected_value;
  action = proposed_value item.action;
  title = item.title;
}

-- Tuples compare at the first component that differs.
abbrev pub text_first : String → String → Bool → Bool
text_first a b otherwise =
    if text_leb a b then (if text_leb b a then otherwise else true) else false

unfoldable pub key_leb : RankKey → RankKey → Bool
key_leb a b =
    if ltb b.composite_score a.composite_score
    then true
    else if ltb a.composite_score b.composite_score
    then false
    else if ltb b.expected_value a.expected_value
    then true
    else if ltb a.expected_value b.expected_value
    then false
    else text_first a.action b.action (text_leb a.title b.title)

unfoldable pub rank : List ScoredIntervention → List ScoredIntervention
rank interventions = sort_by (λ a b. key_leb (rank_key a) (rank_key b)) interventions
