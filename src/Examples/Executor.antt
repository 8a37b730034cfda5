-- ===== src/Examples/Executor.antt =====
-- The authorisation and the executor at concrete inputs.
use revenue_sentinel.Base.{
  ℕ, Bool, true, false, String, Option, none, some, List, [], ◌∷◌, Result, ok, err, ◌≡◌, ◌≢◌, refl,
  arith, length, ◌+◌, ◌↔◌, ap,
}
use revenue_sentinel.Json.{Object, Json}
use revenue_sentinel.Domain.{ProposedAction, ActionType, approved, require_approval, deny}
use revenue_sentinel.Governance.Approvals.{ApprovalRequest, effective_status}
use revenue_sentinel.Execution.Authorization.{
  Intervention, Governed, ExecutionGrant, authorize_execution, fresh_outcome, executable_action,
}
use revenue_sentinel.Execution.Authorization.Grants.{IsAuthorized, authorize_execution-IsAuthorized}
use revenue_sentinel.Execution.Retry.{idempotency_key}
use revenue_sentinel.Execution.Executor.{
  Executing, ActionRecord, ExecutionResult, tool_for_action, holder, new_claim,
}
use revenue_sentinel.Execution.Executor.Once.{
  Call, run, key_of, OnRecord, execute_held, execute_total, execute_twice,
}

abbrev pub draft : Intervention
draft = record {
  id = 1;
  run_id = 3;
  rank = 1;
  title = "Re-engage the champion";
  rationale = "usage grows while the deal is silent";
  action_type = ProposedAction.email_draft;
  target_ref = "ACC-001";
}

abbrev deletion : Intervention
deletion = record draft { id = 2; action_type = ProposedAction.record_delete }

abbrev pub approval : ApprovalRequest
approval = record {
  id = 7;
  approval_ref = "APR-001";
  policy_evaluation_id = 5;
  run_id = 3;
  status = approved;
  requested_by = "agent:strategist";
  requested_at = 100;
  expires_at = 200;
  decided_at = some 150;
  decided_by = some "director";
  decision_note = none;
}

-- The draft with its evaluation and its approval, and a proposal to delete.
abbrev pub governed : Governed
governed = record {
  interventions = draft ∷ deletion ∷ [];
  evaluations =
      record { id = 5; intervention_id = 1; decision = require_approval }
      ∷ record { id = 6; intervention_id = 2; decision = deny }
      ∷ [];
  approvals = approval ∷ [];
}

abbrev draft_grant : ExecutionGrant
draft_grant = record {
  intervention_id = 1;
  action_type = ActionType.email_draft;
  target_ref = "ACC-001";
  outcome = fresh_outcome draft;
  policy_evaluation_id = 5;
  approval_request_id = some 7;
}

draft_paper_trail : IsAuthorized governed 1 160 draft_grant
unfolding effective_status executable_action
draft_paper_trail = record {
  row = draft;
  evaluation = record { id = 5; intervention_id = 1; decision = require_approval };
  found = refl;
  evaluated = refl;
  undrifted = refl;
  consent = (approval, refl, refl, refl);
  action = refl;
  intervention = refl;
  target = refl;
  trail = refl;
  outcome = refl;
}

authorize_execution-IsAuthorized_example : authorize_execution governed 1 160 ≡ ok draft_grant
authorize_execution-IsAuthorized_example =
    (authorize_execution-IsAuthorized governed 1 160 draft_grant).1 draft_paper_trail

-- A client that counts its calls and answers `{"ok": true}`, and a digest.
abbrev pub counting : String → Object → ℕ → Object × ℕ
counting tool arguments calls =
    (Object.field "ok" (Json.bool true) Object.empty, revenue_sentinel.Base.suc calls)

abbrev pub digest : Object → String
digest object = "digest"

abbrev first_call : Call
first_call = record {
  grant = draft_grant;
  incident_ref = "INC-001";
  run_id = 3;
  new_id = 11;
  arguments = Object.empty;
  now = 160;
}

-- The same effect, asked for by a later run.
abbrev second_call : Call
second_call = record first_call { run_id = 4; new_id = 12; now = 170 }

abbrev pub idle : Executing ℕ
idle = record { actions = []; world = 0; slept = [] }

routable : tool_for_action ActionType.email_draft ≡ some "messaging_create_email_draft"
unfolding tool_for_action
routable = refl

execute_twice_example :
    (res : ExecutionResult) × ((run counting digest first_call idle).0 ≡ ok res)
    × (res.already_done ≡ false)
    × ((run counting digest second_call (run counting digest first_call idle).1).0
        ≡ ok (record res { already_done = true }))
    × ((run counting digest second_call (run counting digest first_call idle).1).1.world
        ≡ (run counting digest first_call idle).1.world)
execute_twice_example =
    execute_twice counting digest first_call second_call "messaging_create_email_draft" idle
      routable routable refl refl

execute_total_example :
    (res : ExecutionResult) × ((run counting digest first_call idle).0 ≡ ok res)
    × (holder (key_of counting digest first_call) (run counting digest first_call idle).1.actions
        ≢ none)
execute_total_example =
    execute_total counting digest first_call "messaging_create_email_draft" idle routable

-- A claim that a crash has left open.
abbrev open_claim : ActionRecord
open_claim = new_claim draft_grant (key_of counting digest first_call) 3 11

abbrev crashed : Executing ℕ
crashed = record { actions = open_claim ∷ []; world = 1; slept = [] }

claim_held : holder (key_of counting digest second_call) crashed.actions ≡ some open_claim
unfolding new_claim idempotency_key
claim_held = refl

execute_held_example :
    OnRecord counting digest open_claim crashed (run counting digest second_call crashed)
execute_held_example =
    execute_held counting digest second_call "messaging_create_email_draft" open_claim crashed
      routable claim_held
