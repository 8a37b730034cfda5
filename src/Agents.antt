-- ===== src/Agents.antt =====
-- src/revenue_sentinel/agents: the check of what the analyst cites.
pub mod Citations
