-- ===== src/Governance/Engine.antt =====
-- src/revenue_sentinel/governance/policy_engine.py, outcomes.py and execution/policy_binding.py:
-- the deterministic engine, and the engine that knows of one recorded approval.
pub mod Laws
use Prim.Native.String.{◌++◌}
use revenue_sentinel.Base.{
  String, List, [], ◌∷◌, ◌++◌ as concat, none, some, str_eq, ◌==◌, not, if◌then◌else◌,
}
use revenue_sentinel.Json.{Object, get, as_text}
use revenue_sentinel.Domain.{
  RiskTier, tier_value, max_tier, PolicyDecision, allow, require_approval, deny, ProposedAction,
}
use revenue_sentinel.Governance.Tiers.{policy_version, proposed_value, sorted, classify}
use revenue_sentinel.Governance.Rules.{decide, reason_for}

pub record PolicyOutcome : Type 0 where
  pub decision : PolicyDecision
  pub risk_tier : RiskTier
  pub version : String
  pub matched_rules : List String
  pub reason : String

-- `action` is a `StrEnum` member or a plain text: either way its text.
pub record PolicyRequest : Type 0 where
  pub action : String
  pub target_ref : String
  pub fields_changed : List String
  pub actor : String

-- `PolicyDecision.value` and `str(int(tier))`.
decision_value : PolicyDecision → String
decision_value allow = "allow"
decision_value require_approval = "require_approval"
decision_value deny = "deny"

tier_digit : RiskTier → String
tier_digit RiskTier.read_or_compute = "0"
tier_digit RiskTier.internal_reversible = "1"
tier_digit RiskTier.customer_facing_or_material = "2"
tier_digit RiskTier.prohibited = "3"

-- `", ".join(items)`.
join : List String → String
join [] = ""
join (x ∷ []) = x
join (x ∷ xs) = x ++ ", " ++ join xs

reason_head : PolicyRequest → String
reason_head request = request.action ++ " on " ++ request.target_ref

reason_fields : List String → String
unfolding join
reason_fields [] = ""
reason_fields (f ∷ fs) = " (fields: " ++ join (sorted (f ∷ fs)) ++ ")"

pub reason_text : PolicyRequest → RiskTier → PolicyDecision → String
unfolding reason_head reason_fields decision_value
reason_text request tier decision =
    reason_head request
    ++ reason_fields request.fields_changed
    ++ " -> "
    ++ decision_value decision
    ++ ". "
    ++ reason_for tier

unfoldable pub evaluate : PolicyRequest → PolicyOutcome
unfolding reason_text
evaluate request =
    let (tier, matched) = classify request.action request.fields_changed in
    record {
      decision = decide tier;
      risk_tier = tier;
      version = policy_version;
      matched_rules = matched;
      reason = reason_text request tier (decide tier);
    }

-- `TOOL_TO_ACTION.get(tool_name, tool_name)`.
unfoldable pub tool_to_action : String → String
tool_to_action tool =
    if str_eq tool "crm_create_task"
    then proposed_value ProposedAction.crm_task
    else if str_eq tool "crm_update_opportunity"
    then proposed_value ProposedAction.crm_field_update
    else if str_eq tool "messaging_create_email_draft"
    then proposed_value ProposedAction.email_draft
    else if str_eq tool "messaging_send_slack_approval"
    then proposed_value ProposedAction.slack_approval_request
    else tool

first_text : Object → List String → String
first_text arguments [] = "unknown"
first_text arguments (key ∷ keys) = elim (as_text (get arguments key)) [
  | some value ↦ value
  | none ↦ first_text arguments keys
]

target_of : Object → String
unfolding first_text
target_of arguments =
    first_text arguments ("opportunity_ref" ∷ "account_ref" ∷ "channel_ref" ∷ "incident_ref" ∷ [])

unfoldable pub fields_of : Object → List String
fields_of arguments = elim (as_text (get arguments "field")) [ some name ↦ name ∷ [] | none ↦ [] ]

unfoldable pub request_of : String → Object → PolicyRequest
unfolding target_of
request_of tool arguments = record {
  action = tool_to_action tool;
  target_ref = target_of arguments;
  fields_changed = fields_of arguments;
  actor = "agent:mcp";
}

escalated_reason : PolicyOutcome → RiskTier → String → String
unfolding tier_digit
escalated_reason outcome effective tool =
    outcome.reason
    ++ " Escalated to tier "
    ++ tier_digit effective
    ++ " because the tool registry declares "
    ++ tool
    ++ " at that tier."

-- The second half of `authorize`: escalation to the tier that the registry declares.
unfoldable pub escalate : String → RiskTier → PolicyOutcome → PolicyOutcome
unfolding escalated_reason
escalate tool tier outcome =
    let effective = max_tier outcome.risk_tier tier in
    if tier_value effective == tier_value outcome.risk_tier then outcome else record {
      decision = decide effective;
      risk_tier = effective;
      version = outcome.version;
      matched_rules = concat outcome.matched_rules ("escalated:registry-tier" ∷ []);
      reason = escalated_reason outcome effective tool;
    }

-- `DeterministicPolicyEngine.authorize`.
unfoldable pub authorize : String → RiskTier → Object → PolicyOutcome
authorize tool tier arguments = escalate tool tier (evaluate (request_of tool arguments))

abbrev pub approved_rule : String
approved_rule = "approved:human-decision-recorded"

-- `ApprovedActionPolicyEngine`: the tool that it was built for, and the approval's id as a text.
pub record ApprovedAction : Type 0 where
  pub tool_name : String
  pub approval_request_id : String

unfoldable pub grant_once : ApprovedAction → String → PolicyOutcome → PolicyDecision → PolicyOutcome
grant_once approved tool outcome require_approval =
    if not (str_eq tool approved.tool_name) then outcome else record {
      decision = allow;
      risk_tier = outcome.risk_tier;
      version = outcome.version;
      matched_rules = concat outcome.matched_rules (approved_rule ∷ []);
      reason =
          outcome.reason ++ " Permitted because approval request " ++ approved.approval_request_id
          ++ " was recorded as approved by a person.";
    }
grant_once approved tool outcome decision = outcome

unfoldable pub authorize_approved : ApprovedAction → String → RiskTier → Object → PolicyOutcome
unfolding grant_once
authorize_approved approved tool tier arguments =
    let outcome = authorize tool tier arguments in grant_once approved tool outcome outcome.decision
