-- ===== src/Governance/Rules.antt =====
-- src/revenue_sentinel/governance/rules.py: from a tier to a decision.
use revenue_sentinel.Base.{String}
use revenue_sentinel.Domain.{
  RiskTier, read_or_compute, internal_reversible, customer_facing_or_material, prohibited,
  PolicyDecision, allow, require_approval, deny,
}

-- `DECISION_BY_TIER[tier]`: the table has every tier.
unfoldable pub decide : RiskTier → PolicyDecision
decide read_or_compute = allow
decide internal_reversible = allow
decide customer_facing_or_material = require_approval
decide prohibited = deny

pub reason_for : RiskTier → String
reason_for read_or_compute =
    "Reads and computations mutate nothing outside the system and are permitted."
reason_for internal_reversible =
    "Internal and reversible: no customer is contacted and the change is easily undone, so it is permitted and audited."
reason_for customer_facing_or_material =
    "This reaches a customer or materially changes CRM data, so a person must approve it before it can run."
reason_for prohibited =
    "This is not a capability the system has. It is refused outright, and no alternative route to the same effect is permitted."
