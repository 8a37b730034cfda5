-- ===== src/Orchestration.antt =====
-- src/revenue_sentinel/orchestration: the runner's bookkeeping of runs and incidents.
pub mod Outcome
pub mod Transitions
