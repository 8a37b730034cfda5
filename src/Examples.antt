-- ===== src/Examples.antt =====
-- The theorems at concrete inputs.
pub mod Governance
pub mod Incidents
pub mod Executor
pub mod Execution
pub mod Cost
pub mod Analytics
pub mod Gateway
pub mod Refs
pub mod Reconciliation
pub mod Events
pub mod Scoring
pub mod Records
pub mod Approvals
