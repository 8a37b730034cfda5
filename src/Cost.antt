-- ===== src/Cost.antt =====
-- src/revenue_sentinel/cost: what a model call costs, whether it may proceed, and what is recorded.
-- Money is a whole number of microdollars, the scale of `NUMERIC(12, 6)`.
pub mod Pricing
pub mod Governor
pub mod Ledger
pub mod Client
pub mod Timeline
