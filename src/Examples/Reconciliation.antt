-- ===== src/Examples/Reconciliation.antt =====
-- Findings about uncertain actions at concrete inputs.
use revenue_sentinel.Base.{
  true, List, ℕ, String, none, some, [], ◌∷◌, ◌++◌, ok, err, ◌≡◌, refl, ◌↔◌, inl,
}
use revenue_sentinel.Base.Text.{strip, is_blank}
use revenue_sentinel.Json.{Object, Json}
use revenue_sentinel.Domain.{customer_facing_or_material, ActionType, succeeded, indeterminate}
use revenue_sentinel.Execution.Executor.{ActionRecord, save, execute, new_claim, tool_for_action}
use revenue_sentinel.Execution.Reconciliation.{
  Attested, reconcile, occurred, did_not_occur, outcome_status, reconciled_event, action_at,
  already_reconciled, list_uncertain, get_action, refusals, attested, attest,
}
use revenue_sentinel.Execution.Reconciliation.Findings.{reconcile_iff, reconcile_once, IsReportable}
use revenue_sentinel.Governance.Engine.{authorize}
use revenue_sentinel.Execution.Retry.{idempotency_key}
use revenue_sentinel.Execution.Executor.Once.{Call, run}
use revenue_sentinel.Execution.Lifecycle.{
  Label, crash, execution, finding, Lifecycle, Distinct, status_at,
}
use revenue_sentinel.Execution.Lifecycle.Steps.{
  Effects, Steps, next, stop, executes, dies, reconciles, attested_part, with_attested, open_claim,
  refines_Lifecycle, outcome_final,
}

abbrev lost : ActionRecord
lost = record {
  id = 4;
  run_id = 2;
  intervention_id = 1;
  action_type = ActionType.email_draft;
  idempotency_key = "k";
  status = indeterminate;
  authorized_by = 5;
  approval_request_id = some 9;
  attempt_count = 1;
  result = none;
  executed_at = none;
  target_ref = "OPP-2001";
  reconciled_by = none;
  reconciled_at = none;
  reconciliation_evidence = none;
}

abbrev tables : Attested
tables = record {
  actions = lost ∷ [];
  runs = record { run_id = 2; incident_id = 3; incident_ref = "INC-001" } ∷ [];
  trail = [];
}

abbrev checked : ActionRecord
checked = record lost {
  status = succeeded;
  reconciled_by = some "usr:ada";
  reconciled_at = some 50;
  reconciliation_evidence = some "message 12";
}

abbrev after : Attested
after = record tables {
  actions = checked ∷ [];
  trail = reconciled_event occurred " usr:ada" "message 12 " 50 lost tables.runs ∷ [];
}

accepted : reconcile 4 occurred " usr:ada" "message 12 " 50 tables ≡ ok (checked, after)
unfolding reconcile get_action refusals attested attest outcome_status is_blank strip
accepted = refl

reconcile_iff_example :
    (reconcile 4 occurred " usr:ada" "message 12 " 50 tables ≡ ok (checked, after)) ↔ (
      (row : ActionRecord) × (action_at 4 tables.actions ≡ some row)
      × IsReportable " usr:ada" "message 12 " row
      × (checked ≡ record row {
        status = outcome_status occurred;
        reconciled_by = some (strip " usr:ada");
        reconciled_at = some 50;
        reconciliation_evidence = some (strip "message 12 ");
      })
      × (after ≡ record tables {
        actions = save checked tables.actions;
        trail =
            tables.trail
            ++ reconciled_event occurred " usr:ada" "message 12 " 50 row tables.runs ∷ [];
      }))
reconcile_iff_example = reconcile_iff 4 occurred " usr:ada" "message 12 " 50 tables checked after

reconcile_once_example :
    reconcile 4 did_not_occur "usr:bob" "nothing sent" 60 after
    ≡ err (already_reconciled (strip " usr:ada"))
reconcile_once_example =
    reconcile_once 4 occurred " usr:ada" "message 12 " 50 tables checked after accepted
      did_not_occur "usr:bob" "nothing sent" 60

-- A client whose every call is answered with success, over a world of no state.
abbrev client : String → Object → Unit {0} → Object × Unit {0}
client tool arguments w = (Object.field "ok" (Json.bool true) Object.empty, tt)

abbrev digest : Object → String
digest o = "d"

abbrev draft_call : Call
draft_call = record {
  grant = record {
    intervention_id = 1;
    action_type = ActionType.email_draft;
    target_ref = "OPP-2001";
    outcome = authorize "messaging_create_email_draft" customer_facing_or_material Object.empty;
    policy_evaluation_id = 5;
    approval_request_id = some 9;
  };
  incident_ref = "INC-001";
  run_id = 2;
  new_id = 4;
  arguments = Object.empty;
  now = 40;
}

abbrev start : Effects (Unit {0})
start = record {
  executing = record { actions = []; world = tt; slept = [] };
  runs = tables.runs;
  trail = [];
}

abbrev dead_claim : ActionRecord
dead_claim = open_claim client digest draft_call 1

abbrev died : Effects (Unit {0})
died = record start { executing = record start.executing { actions = dead_claim ∷ [] } }

-- The same effect is asked for again: its open claim is found and is lost.
abbrev later_call : Call
later_call = record draft_call { new_id = 5 }

abbrev met_again : Effects (Unit {0})
met_again = record died { executing = (run client digest later_call died.executing).1 }

abbrev lost_claim : ActionRecord
lost_claim = record dead_claim { status = indeterminate }

claim_lost : met_again.executing.actions ≡ lost_claim ∷ []
unfolding execute new_claim tool_for_action idempotency_key
claim_lost = refl

abbrev found_claim : ActionRecord
found_claim = record lost_claim {
  status = succeeded;
  reconciled_by = some "usr:ada";
  reconciled_at = some 50;
  reconciliation_evidence = some "message 12";
}

abbrev reported : Attested
reported = record {
  actions = found_claim ∷ [];
  runs = tables.runs;
  trail = reconciled_event occurred " usr:ada" "message 12 " 50 lost_claim tables.runs ∷ [];
}

claim_found :
    reconcile 4 occurred " usr:ada" "message 12 " 50 (attested_part met_again)
    ≡ ok (found_claim, reported)
unfolding reconcile get_action refusals attested attest outcome_status is_blank strip execute
    new_claim tool_for_action idempotency_key
claim_found = refl

abbrev happened : List Label
happened = crash ∷ execution ∷ finding ∷ []

-- An execution that dies, one that meets its claim, and a finding about it.
steps : Steps client digest happened start (with_attested met_again reported)
unfolding idempotency_key new_claim
steps =
    next crash (execution ∷ finding ∷ []) start died (with_attested met_again reported)
      (dies draft_call 1 tt start refl refl)
      (next execution (finding ∷ []) died met_again (with_attested met_again reported)
        (executes later_call died refl)
        (next finding [] met_again (with_attested met_again reported)
          (with_attested met_again reported)
          (reconciles 4 occurred " usr:ada" "message 12 " 50 met_again found_claim reported
            claim_found)
          (stop (with_attested met_again reported))))

refines_Lifecycle_example :
    Distinct (found_claim ∷ [])
    × ((id : ℕ) → Lifecycle happened (status_at id []) (status_at id (found_claim ∷ [])))
refines_Lifecycle_example =
    refines_Lifecycle client digest happened start (with_attested met_again reported) steps tt

outcome_final_test : status_at 4 (found_claim ∷ []) ≡ some succeeded
unfolding status_at new_claim
outcome_final_test =
    outcome_final client digest [] (with_attested met_again reported)
      (with_attested met_again reported) 4 succeeded (stop (with_attested met_again reported))
      (refl, tt) (inl refl) refl

uncertain_test : list_uncertain after ≡ []
unfolding list_uncertain
uncertain_test = refl
