-- ===== src/Governance/Engine/Laws.antt =====
-- The decisions of src/revenue_sentinel/governance/policy_engine.py and execution/policy_binding.py.
use text.Mathlib.TextEquality.{eq_iff}
use revenue_sentinel.Base.{◌≡◌, refl, ◌↔◌, ◌⊎◌, String, arith}
use revenue_sentinel.Json.{Object}
use revenue_sentinel.Domain.{RiskTier, max_tier, allow, require_approval}
use revenue_sentinel.Governance.Tiers.{classify}
use revenue_sentinel.Governance.Rules.{decide}
use revenue_sentinel.Governance.Engine.{
  PolicyOutcome, evaluate, request_of, tool_to_action, fields_of, escalate, authorize,
  ApprovedAction, grant_once, authorize_approved,
}

escalate_lem :
    (tool : String) (tier : RiskTier) (o : PolicyOutcome)
    → o.decision ≡ decide o.risk_tier
    → ((escalate tool tier o).risk_tier ≡ max_tier o.risk_tier tier)
      × ((escalate tool tier o).decision ≡ decide (max_tier o.risk_tier tier))
unfolding escalate
escalate_lem tool tier o h = ground arith

-- The registry cannot under-declare: the engine decides by the higher of the tier that it
-- computes from the arguments and the tier that the registry declares, and by nothing else.
pub authorize-max_tier :
    (tool : String) (tier : RiskTier) (arguments : Object)
    → let computed = (classify (tool_to_action tool) (fields_of arguments)).0 in
      ((authorize tool tier arguments).risk_tier ≡ max_tier computed tier)
      × ((authorize tool tier arguments).decision ≡ decide (max_tier computed tier))
unfolding authorize evaluate request_of
authorize-max_tier tool tier arguments =
    escalate_lem tool tier (evaluate (request_of tool arguments)) refl

grant_once_lem :
    (a : ApprovedAction) (tool : String) (o : PolicyOutcome)
    → ((grant_once a tool o o.decision).decision ≡ allow)
      ↔ ((o.decision ≡ allow) ⊎ ((o.decision ≡ require_approval) × (tool ≡ a.tool_name)))
unfolding grant_once
grant_once_lem a tool o = ground (arith, eq_iff tool a.tool_name)

-- An approval never overrides a denial, and covers one tool: the engine that was shown an approval
-- allows exactly what the engine without it allows, and what that engine sends to a person when
-- the tool is the one that the approval is for.
pub authorize_approved-allow :
    (a : ApprovedAction) (tool : String) (tier : RiskTier) (arguments : Object)
    → ((authorize_approved a tool tier arguments).decision ≡ allow) ↔ (
        ((authorize tool tier arguments).decision ≡ allow)
        ⊎ (((authorize tool tier arguments).decision ≡ require_approval) × (tool ≡ a.tool_name)))
unfolding authorize_approved
authorize_approved-allow a tool tier arguments =
    grant_once_lem a tool (authorize tool tier arguments)
