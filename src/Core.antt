-- ===== src/Core.antt =====
-- src/revenue_sentinel/core: business references.
pub mod Refs
