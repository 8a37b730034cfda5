-- ===== src/Analytics/Bands/Monotone.antt =====
-- The bands of src/revenue_sentinel/analytics/risk_bands.py: bounds, and the direction of each table.
use revenue_sentinel.Base.{ℕ, ◌≤◌, true, ◌≡◌, arith}
use revenue_sentinel.Base.Int.{ℤ, pos, negsuc, int_leb}
use revenue_sentinel.Domain.{
  OpportunityStage, discovery, proposal, negotiation, closed_won, closed_lost,
}
use revenue_sentinel.Analytics.Bands.{max_stall_risk, last_band, stall_factor, usage_offset}

-- Longer silence never lowers the factor, which stays in [0, 0.85] and is 0 below the 14 days from
-- which a deal counts as stalled.
pub stall_factor-monotone :
    (d e : ℕ) (stage : OpportunityStage) → d ≤ e → stall_factor d stage ≤ stall_factor e stage
unfolding stall_factor last_band
stall_factor-monotone d e discovery h = ground arith
stall_factor-monotone d e proposal h = ground arith
stall_factor-monotone d e negotiation h = ground arith
stall_factor-monotone d e closed_won h = ground arith
stall_factor-monotone d e closed_lost h = ground arith

pub stall_factor-le : (d : ℕ) (stage : OpportunityStage) → stall_factor d stage ≤ max_stall_risk
unfolding stall_factor
stall_factor-le d stage = ground arith

pub usage_offset-le : (growth : ℤ) → usage_offset growth ≤ 2000
unfolding usage_offset
usage_offset-le (pos g) = ground arith
usage_offset-le (negsuc g) = ground arith

-- More growth never lowers the offset.
pub usage_offset-monotone : (g h : ℤ) → int_leb g h ≡ true → usage_offset g ≤ usage_offset h
unfolding usage_offset last_band
usage_offset-monotone (pos g) (pos h) le = ground arith
usage_offset-monotone (pos g) (negsuc h) le = cc
usage_offset-monotone (negsuc g) (pos h) le = ground arith
usage_offset-monotone (negsuc g) (negsuc h) le = ground arith
