-- ===== src/Examples/Approvals.antt =====
-- The list of approval requests at concrete inputs.
use revenue_sentinel.Base.{◌≡◌, refl, true, false, String, List, [], ◌∷◌, map, arith, err}
use revenue_sentinel.Base.Sorting.{sort_by}
use revenue_sentinel.Domain.{ProposedAction, require_approval}
use revenue_sentinel.Governance.Approvals.{
  ApprovalRequest, create_approval_request, effective_status, expire_lapsed,
}
use revenue_sentinel.Governance.ApprovalService.{
  ApprovalView, joined, list_requests, get_by_ref, not_found,
}
use revenue_sentinel.Governance.ApprovalService.Listing.{list_requests-expire_lapsed}
use revenue_sentinel.Execution.Authorization.{Governed}

-- Two requests about one email draft: the first is open until 200, the second until 400.
abbrev first_request : ApprovalRequest
first_request = create_approval_request 1 "APR-001" 5 3 "agent:strategist" 100 100

abbrev second_request : ApprovalRequest
second_request = create_approval_request 2 "APR-002" 5 3 "agent:strategist" 150 250

abbrev requested : Governed
requested = record {
  interventions =
      record {
        id = 1;
        run_id = 3;
        rank = 1;
        title = "Write to the champion";
        rationale = "";
        action_type = ProposedAction.email_draft;
        target_ref = "ACC-001";
      }
      ∷ [];
  evaluations = record { id = 5; intervention_id = 1; decision = require_approval } ∷ [];
  approvals = first_request ∷ second_request ∷ [];
}

abbrev refs : List ApprovalView → List String
refs views = map (λ (v : ApprovalView). v.approval_ref) views

-- At 160 both are pending, the newer one first; at 250 the first has lapsed.
listed_test :
    (refs (list_requests requested 160 true) ≡ "APR-002" ∷ "APR-001" ∷ [])
    × (refs (list_requests requested 250 true) ≡ "APR-002" ∷ [])
    × (refs (list_requests requested 250 false) ≡ "APR-002" ∷ "APR-001" ∷ [])
    × (get_by_ref requested.approvals "APR-009" ≡ err (not_found "APR-009"))
unfolding list_requests get_by_ref joined sort_by effective_status create_approval_request
listed_test = (refl, refl, refl, refl)

list_requests-expire_lapsed_example :
    list_requests
      (record requested { approvals = (expire_lapsed requested.approvals 250).1 })
      300
      true
    ≡ list_requests requested 300 true
list_requests-expire_lapsed_example =
    list_requests-expire_lapsed requested 250 300 true (omega arith)
