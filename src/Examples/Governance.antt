-- ===== src/Examples/Governance.antt =====
-- The policy and the approvals of src/revenue_sentinel/governance at concrete inputs.
use revenue_sentinel.Base.{true, none, [], ok, ◌≡◌, ◌≢◌, ◌↔◌, inr, refl}
use revenue_sentinel.Json.{Object, Json}
use revenue_sentinel.Domain.{internal_reversible, prohibited, allow, require_approval, expired}
use revenue_sentinel.Governance.Tiers.{classify}
use revenue_sentinel.Governance.Tiers.Permits.{IsPermitted, classify-IsPermitted}
use revenue_sentinel.Governance.Rules.{decide}
use revenue_sentinel.Governance.Engine.{
  authorize, authorize_approved, ApprovedAction, tool_to_action, escalate, evaluate, request_of,
}
use revenue_sentinel.Governance.Engine.Laws.{authorize_approved-allow}
use revenue_sentinel.Governance.Approvals.{
  ApprovalRequest, create_approval_request, effective_status, expire_lapsed,
}
use revenue_sentinel.Governance.Approvals.Decisions.{
  IsConsistent, Reach, Step, Reach-IsConsistent, decide-ok,
}

-- An email draft to an account.
abbrev draft_arguments : Object
draft_arguments = Object.field "account_ref" (Json.text "ACC-001") Object.empty

abbrev recorded_approval : ApprovedAction
recorded_approval = record { tool_name = "messaging_create_email_draft"; approval_request_id = "7" }

draft_needs_approval :
    (authorize "messaging_create_email_draft" internal_reversible draft_arguments).decision
    ≡ require_approval
unfolding authorize escalate evaluate classify request_of tool_to_action
    revenue_sentinel.Governance.Rules.decide
draft_needs_approval = refl

classify-IsPermitted_example : (classify "email_draft" []).0 ≢ prohibited
classify-IsPermitted_example = (classify-IsPermitted "email_draft" []).1 IsPermitted.a_draft

authorize_approved-allow_example :
    (authorize_approved recorded_approval "messaging_create_email_draft" internal_reversible
      draft_arguments).decision
    ≡ allow
authorize_approved-allow_example =
    (authorize_approved-allow recorded_approval "messaging_create_email_draft" internal_reversible
        draft_arguments).1
      (inr (draft_needs_approval, refl))

-- A request of the strategist, made at 100 and open until 200.
abbrev open_request : ApprovalRequest
open_request = create_approval_request 1 "APR-001" 2 3 "agent:strategist" 100 100

-- A director approves it at 150.
abbrev approved_request : ApprovalRequest
approved_request =
    (revenue_sentinel.Governance.Approvals.decide open_request true "director" 150 none).1

Reach-IsConsistent_example : IsConsistent approved_request
Reach-IsConsistent_example =
    Reach-IsConsistent 1 "APR-001" 2 3 "agent:strategist" 100 100 approved_request
      (Reach.next Reach.here (Step.decision open_request true "director" 150 none))

decide-ok_example :
    ((revenue_sentinel.Governance.Approvals.decide open_request true "director" 150 none).0 ≡ ok tt)
    ↔ ((open_request.requested_by ≢ "director") × (effective_status open_request 150 ≢ expired))
decide-ok_example = decide-ok open_request true "director" 150 none

lapsed : effective_status open_request 250 ≡ expired
unfolding effective_status create_approval_request
lapsed = refl
