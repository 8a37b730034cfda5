-- ===== src/Governance.antt =====
-- src/revenue_sentinel/governance: tiers, rules, the policy engine, approvals.
pub mod Tiers
pub mod Rules
pub mod Engine
pub mod Approvals
pub mod ApprovalService
