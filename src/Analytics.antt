-- ===== src/Analytics.antt =====
-- src/revenue_sentinel/analytics and src/revenue_sentinel/incidents/severity.py: the figures.
pub mod Bands
pub mod Impact
pub mod Severity
pub mod Windows
pub mod Scoring
