-- ===== src/Examples/Execution.antt =====
-- Passes over the interventions of a run at concrete inputs.
use revenue_sentinel.Base.{
  All, ◌⊎◌, inr, err, is_ok, ℕ, true, String, Option, some, [], ◌∷◌, ok, ◌≡◌, ◌≢◌, refl, length,
  ◌+◌, ◌↔◌, ap,
}
use revenue_sentinel.Json.{Object}
use revenue_sentinel.Domain.{approved, require_approval}
use revenue_sentinel.Governance.Approvals.{ApprovalRequest, effective_status}
use revenue_sentinel.Execution.Authorization.{Intervention, Governed, authorize_execution}
use revenue_sentinel.Governance.Engine.{ApprovedAction}
use revenue_sentinel.Domain.{rejected}
use revenue_sentinel.Execution.Authorization.{Refusal}
use revenue_sentinel.Execution.Authorization.Missing.{
  IsMissing, IsWaiting, authorize_execution-IsWaiting,
}
use revenue_sentinel.Execution.Places.{Places, subject_of, PhaseError}
use revenue_sentinel.Execution.Phase.{
  ExecutionPhase, add_refused, process_authorized, process, process_all, run_execution_phase,
  by_rank, is_complete,
}
use revenue_sentinel.Execution.Phase.Buckets.{run_execution_phase-Returned}
use revenue_sentinel.Execution.Phase.Waits.{run_execution_phase-IsWaiting}
use revenue_sentinel.Examples.Executor.{draft, approval, governed, counting, digest, idle}

-- A client that counts, whatever approval it is shown, and what else a pass is given.
abbrev bound_client : Option ApprovedAction → String → Object → ℕ → Object × ℕ
bound_client binding = counting

abbrev id_text : ℕ → String
id_text id = "id"

abbrev due_date : ℕ → String
due_date now = "2026-08-03"

abbrev fresh_id : Intervention → ℕ
fresh_id row = row.id

-- Run 3 is of an incident that has an account and an opportunity.
abbrev places : Places
places = record {
  incident_ref = "INC-001";
  runs = record { id = 3; incident_id = 4 } ∷ [];
  incidents = record { id = 4; account_id = 10; opportunity_id = some 20 } ∷ [];
  accounts = record { id = 10; ref = "ACC-001"; owner = "usr:owner" } ∷ [];
  opportunities = record { id = 20; ref = "OPP-001"; owner = "usr:owner" } ∷ [];
}

found_test : is_ok (subject_of places 3) ≡ true
unfolding subject_of
found_test = refl

run_execution_phase-Returned_example :
    ((phase : ExecutionPhase) × ((run_execution_phase bound_client digest id_text due_date fresh_id
          governed places 3 160 idle).0
        ≡ ok phase)
      × (length phase.executed + length phase.refused ≡ 2))
    ⊎ ((e : PhaseError) × (subject_of places 3 ≡ err e)
        × (run_execution_phase bound_client digest id_text due_date fresh_id governed places 3 160
              idle
            ≡ (err e, idle)))
run_execution_phase-Returned_example =
    run_execution_phase-Returned bound_client digest id_text due_date fresh_id governed places 3 160
      idle

-- A phase before its first intervention.
abbrev nothing : ExecutionPhase
nothing = record { executed = []; refused = [] }

-- The draft, after its approval was rejected.
abbrev rejection : ApprovalRequest
rejection = record approval { status = rejected }

abbrev after_rejection : Governed
after_rejection = record governed { approvals = rejection ∷ [] }

unapproved : effective_status rejection 160 ≢ approved
unfolding effective_status
unapproved = λ e. cc

authorize_execution-IsWaiting_example :
    IsMissing (authorize_execution after_rejection 1 160) ↔ IsWaiting after_rejection 1 160
authorize_execution-IsWaiting_example = authorize_execution-IsWaiting after_rejection 1 160

-- A pass over the rejected draft alone.
abbrev only_draft : Governed
only_draft = record after_rejection { interventions = draft ∷ [] }

draft_waits : IsWaiting only_draft 1 160
draft_waits = record {
  row = draft;
  evaluation = record { id = 5; intervention_id = 1; decision = require_approval };
  found = refl;
  evaluated = refl;
  needed = refl;
  undrifted = refl;
  unapproved = inr (rejection, refl, unapproved);
}

draft_refused : IsMissing (authorize_execution only_draft 1 160)
draft_refused = (authorize_execution-IsWaiting only_draft 1 160).1 draft_waits

abbrev draft_phase : ExecutionPhase
draft_phase = add_refused draft (Refusal.approval_missing draft_refused.0 draft_refused.1) nothing

draft_passed :
    (run_execution_phase bound_client digest id_text due_date fresh_id only_draft places 3 160
      idle).0
    ≡ ok draft_phase
unfolding run_execution_phase process_all process by_rank
draft_passed =
    ap
      (λ r.
        (process_authorized bound_client digest id_text due_date fresh_id draft
          (subject_of places 3) 3 160 r nothing idle).0)
      draft_refused.2

run_execution_phase-IsWaiting_example :
    (is_complete draft_phase ≡ true)
    ↔ All (λ (row : Intervention). ¬ IsWaiting only_draft row.id 160) (draft ∷ [])
run_execution_phase-IsWaiting_example =
    run_execution_phase-IsWaiting bound_client digest id_text due_date fresh_id only_draft places 3
      160 idle draft_phase draft_passed
