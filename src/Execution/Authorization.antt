-- ===== src/Execution/Authorization.antt =====
-- src/revenue_sentinel/execution/authorization.py: the one door to execution.
pub mod Grants
pub mod Missing
use revenue_sentinel.Base.{
  ℕ, ◌==◌, Bool, true, false, String, Option, none, some, List, [], ◌∷◌, find, Result, ok, err,
  ◌>>=◌, if◌then◌else◌,
}
use revenue_sentinel.Domain.{
  PolicyDecision, allow, require_approval, deny, ProposedAction, ActionType, ApprovalStatus,
  pending, approved, rejected, expired,
}
use revenue_sentinel.Governance.Tiers.{proposed_value}
use revenue_sentinel.Governance.Engine.{PolicyOutcome, PolicyRequest, evaluate}
use revenue_sentinel.Governance.Approvals.{ApprovalRequest, effective_status}

-- The columns of `interventions` and `policy_evaluations` that the execution reads.
pub record Intervention : Type 0 where
  pub id : ℕ
  pub run_id : ℕ
  pub rank : ℕ
  pub title : String
  pub rationale : String
  pub action_type : ProposedAction
  pub target_ref : String

pub record PolicyEvaluation : Type 0 where
  pub id : ℕ
  pub intervention_id : ℕ
  pub decision : PolicyDecision

pub record Governed : Type 0 where
  pub interventions : List Intervention
  pub evaluations : List PolicyEvaluation
  pub approvals : List ApprovalRequest

-- `ExecutionRefusedError` and the classes below it. `approval_missing` is the one that the
-- execution phase tells apart.
pub data Refusal : Type 0 where
  no_intervention : ℕ → Refusal
  no_evaluation : String → Refusal
  policy_drift : String → PolicyDecision → PolicyDecision → Refusal
  policy_denied : String → String → Refusal
  approval_missing : String → Option ApprovalStatus → Refusal
  not_executable : ProposedAction → Refusal

pub record ExecutionGrant : Type 0 where
  pub intervention_id : ℕ
  pub action_type : ActionType
  pub target_ref : String
  pub outcome : PolicyOutcome
  pub policy_evaluation_id : ℕ
  pub approval_request_id : Option ℕ

-- `ActionType(action.value)`, or `None`.
unfoldable pub executable_action : ProposedAction → Option ActionType
executable_action ProposedAction.crm_task = some ActionType.crm_task
executable_action ProposedAction.email_draft = some ActionType.email_draft
executable_action ProposedAction.crm_field_update = some ActionType.crm_field_update
executable_action ProposedAction.slack_approval_request = some ActionType.slack_approval_request
executable_action ProposedAction.send_email_direct = none
executable_action ProposedAction.record_delete = none

abbrev pub same_decision : PolicyDecision → PolicyDecision → Bool
same_decision allow allow = true
same_decision require_approval require_approval = true
same_decision deny deny = true
same_decision _ _ = false

abbrev pub is_approved : ApprovalStatus → Bool
is_approved approved = true
is_approved _ = false

-- The request that an evaluation asked for.
abbrev pub request_for : ℕ → List ApprovalRequest → Option ApprovalRequest
request_for evaluation = find (λ request. request.policy_evaluation_id == evaluation)

check_request : String → ℕ → Option ApprovalRequest → Result Refusal (Option ℕ)
check_request title now none = err (approval_missing title none)
check_request title now (some request) =
    let status = effective_status request now in
    if is_approved status then ok (some request.id) else err (approval_missing title (some status))

-- `_require_approval`.
unfoldable pub require_approval_of :
    List ApprovalRequest → String → ℕ → ℕ → Result Refusal (Option ℕ)
unfolding check_request
require_approval_of approvals title evaluation now =
    check_request title now (request_for evaluation approvals)

-- `approval_id`, by the fresh decision: a denial raises before any approval is read.
approval_by :
    PolicyDecision → List ApprovalRequest → String → String → ℕ → ℕ → Result Refusal (Option ℕ)
approval_by allow approvals title reason evaluation now = ok none
approval_by require_approval approvals title reason evaluation now =
    require_approval_of approvals title evaluation now
approval_by deny approvals title reason evaluation now = err (policy_denied title reason)

-- `evaluate`, for an intervention, with no field named.
unfoldable pub fresh_outcome : Intervention → PolicyOutcome
fresh_outcome intervention = evaluate (record {
  action = proposed_value intervention.action_type;
  target_ref = intervention.target_ref;
  fields_changed = [];
  actor = "agent:execution";
})

grant_for :
    Intervention
    → PolicyEvaluation
    → PolicyOutcome
    → Option ℕ
    → Option ActionType
    → Result Refusal ExecutionGrant
grant_for intervention evaluation fresh approval none =
    err (not_executable intervention.action_type)
grant_for intervention evaluation fresh approval (some action) = ok (record {
  intervention_id = intervention.id;
  action_type = action;
  target_ref = intervention.target_ref;
  outcome = fresh;
  policy_evaluation_id = evaluation.id;
  approval_request_id = approval;
})

authorize_fresh :
    List ApprovalRequest
    → Intervention
    → PolicyEvaluation
    → PolicyOutcome
    → ℕ
    → Result Refusal ExecutionGrant
unfolding approval_by grant_for
authorize_fresh approvals intervention evaluation fresh now =
    if same_decision fresh.decision evaluation.decision
    then (do
      approval ←
          approval_by fresh.decision approvals intervention.title fresh.reason evaluation.id now
      grant_for intervention evaluation fresh approval (executable_action intervention.action_type))
    else err (policy_drift intervention.title evaluation.decision fresh.decision)

authorize_found :
    Governed → ℕ → Option Intervention → Option PolicyEvaluation → ℕ → Result Refusal ExecutionGrant
unfolding authorize_fresh
authorize_found db id none evaluation now = err (no_intervention id)
authorize_found db id (some intervention) none now = err (no_evaluation intervention.title)
authorize_found db id (some intervention) (some evaluation) now =
    authorize_fresh db.approvals intervention evaluation (fresh_outcome intervention) now

abbrev pub intervention_by_id : ℕ → List Intervention → Option Intervention
intervention_by_id id = find (λ row. row.id == id)

abbrev pub evaluation_of : ℕ → List PolicyEvaluation → Option PolicyEvaluation
evaluation_of id = find (λ row. row.intervention_id == id)

-- `authorize_execution`.
unfoldable pub authorize_execution : Governed → ℕ → ℕ → Result Refusal ExecutionGrant
unfolding authorize_found
authorize_execution db id now =
    authorize_found db id (intervention_by_id id db.interventions) (evaluation_of id db.evaluations)
      now
