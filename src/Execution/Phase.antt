-- ===== src/Execution/Phase.antt =====
-- src/revenue_sentinel/execution/service.py and arguments.py: one pass over the interventions of a run.
-- The client is a parameter, by the approval that `_client_for` rebinds it to; so are the text of an
-- identifier, the ISO date two days after an instant, and the values of `new_id()`.
pub mod Routes
pub mod Buckets
pub mod Counts
pub mod Waits
use revenue_sentinel.Base.{
  ℕ, ◌==◌, leb, Bool, true, false, String, Option, none, some, List, [], ◌∷◌, ◌++◌, keep, find,
  length, Result, ok, err, if◌then◌else◌,
}
use revenue_sentinel.Json.{Json, Object, field, empty}
use revenue_sentinel.Domain.{ActionType}
use revenue_sentinel.Governance.Engine.{ApprovedAction}
use revenue_sentinel.Execution.Authorization.{
  Intervention, Governed, Refusal, approval_missing, ExecutionGrant, authorize_execution,
}
use revenue_sentinel.Execution.Executor.{
  Executing, ExecutionResult, ExecutionError, tool_for_action, execute,
}
use revenue_sentinel.Execution.Places.{
  Subject, Places, PhaseError, subject_of, unsupported_action, not_executed,
}

-- `build_arguments`, or the action of an `UnsupportedActionError`.
unfoldable pub build_arguments :
    (ℕ → String) → Intervention → ActionType → Subject → ℕ → Option Object
build_arguments due_date intervention ActionType.crm_task subject occurred_at = some (
    field "opportunity_ref" (Json.text subject.opportunity_ref) (
      field "title" (Json.text intervention.title) (
        field "description" (Json.text intervention.rationale) (
          field "due_date" (Json.text (due_date occurred_at))
            (field "assignee_ref" (Json.text subject.opportunity_owner) empty)))))
build_arguments due_date intervention ActionType.email_draft subject occurred_at = some (
    field "account_ref" (Json.text subject.account_ref) (
      field "recipient_ref" (Json.text subject.account_owner) (
        field "subject" (Json.text intervention.title) (
          field "body" (Json.text intervention.rationale)
            (field "intent" (Json.text "re_engagement") empty)))))
build_arguments due_date intervention ActionType.slack_approval_request subject occurred_at = some (
    field "channel_ref" (Json.text "#revenue-ops") (
      field "incident_ref" (Json.text subject.incident_ref)
        (field "summary" (Json.text intervention.title) empty)))
build_arguments due_date intervention ActionType.crm_field_update subject occurred_at = none

-- The reason is the refusal whose text the code keeps.
pub record RefusedAction : Type 0 where
  pub title : String
  pub reason : Refusal
  pub awaiting_approval : Bool

pub record ExecutionPhase : Type 0 where
  pub executed : List ExecutionResult
  pub refused : List RefusedAction

-- `except ApprovalMissingError`, apart from the other refusals.
abbrev pub is_missing_approval : Refusal → Bool
is_missing_approval (approval_missing title status) = true
is_missing_approval _ = false

abbrev pub awaiting : ExecutionPhase → List RefusedAction
awaiting phase = keep (λ (item : RefusedAction). item.awaiting_approval) phase.refused

-- `ExecutionPhase.is_complete`.
unfoldable pub is_complete : ExecutionPhase → Bool
is_complete phase = length (awaiting phase) == 0

abbrev pub add_refused : Intervention → Refusal → ExecutionPhase → ExecutionPhase
add_refused intervention reason phase = record phase {
  refused =
      phase.refused
      ++ record {
        title = intervention.title;
        reason = reason;
        awaiting_approval = is_missing_approval reason;
      }
        ∷ [];
}

-- `ORDER BY rank`.
insert_by_rank : Intervention → List Intervention → List Intervention
insert_by_rank row [] = row ∷ []
insert_by_rank row (r ∷ rows) =
    let rest = insert_by_rank row rows in if leb row.rank r.rank then row ∷ r ∷ rows else r ∷ rest

unfoldable pub by_rank : List Intervention → List Intervention
unfolding insert_by_rank
by_rank [] = []
by_rank (row ∷ rows) = insert_by_rank row (by_rank rows)

module _ {W : Type 0} (client : Option ApprovedAction → String → Object → W → Object × W)
    (digest : Object → String) (id_text due_date : ℕ → String) (new_id : Intervention → ℕ) where
  -- `_client_for`: the approval that the write gate is shown.
  abbrev pub binding : Option ℕ → Option String → Option ApprovedAction
  binding (some approval) (some tool) =
      some (record { tool_name = tool; approval_request_id = id_text approval })
  binding _ _ = none

  abbrev pub client_for : ExecutionGrant → String → Object → W → Object × W
  client_for grant = client (binding grant.approval_request_id (tool_for_action grant.action_type))

  -- An execution's result joins the phase; its error ends the pass.
  abbrev pub add_executed :
      ExecutionPhase
      → Result ExecutionError ExecutionResult × Executing W
      → Result PhaseError ExecutionPhase × Executing W
  add_executed phase (ok result, st) =
      (ok (record phase { executed = phase.executed ++ result ∷ [] }), st)
  add_executed phase (err e, st) = (err (not_executed e), st)

  abbrev pub perform_grant :
      Intervention
      → ExecutionGrant
      → Subject
      → ℕ
      → ℕ
      → Option Object
      → ExecutionPhase
      → Executing W
      → Result PhaseError ExecutionPhase × Executing W
  perform_grant intervention grant subject run_id now none phase st =
      (err (unsupported_action grant.action_type), st)
  perform_grant intervention grant subject run_id now (some arguments) phase st =
      add_executed phase (
        execute (client_for grant) digest grant subject.incident_ref run_id (new_id intervention)
          arguments now st)

  abbrev pub perform_located :
      Intervention
      → ExecutionGrant
      → ℕ
      → ℕ
      → Result PhaseError Subject
      → ExecutionPhase
      → Executing W
      → Result PhaseError ExecutionPhase × Executing W
  perform_located intervention grant run_id now (err e) phase st = (err e, st)
  perform_located intervention grant run_id now (ok subject) phase st =
      perform_grant intervention grant subject run_id now
        (build_arguments due_date intervention grant.action_type subject now) phase st

  abbrev pub process_authorized :
      Intervention
      → Result PhaseError Subject
      → ℕ
      → ℕ
      → Result Refusal ExecutionGrant
      → ExecutionPhase
      → Executing W
      → Result PhaseError ExecutionPhase × Executing W
  process_authorized intervention found run_id now (err reason) phase st =
      (ok (add_refused intervention reason phase), st)
  process_authorized intervention found run_id now (ok grant) phase st =
      perform_located intervention grant run_id now found phase st

  -- `_process`.
  unfoldable pub process :
      Governed
      → Places
      → ℕ
      → ℕ
      → Intervention
      → ExecutionPhase
      → Executing W
      → Result PhaseError ExecutionPhase × Executing W
  process db places run_id now intervention phase st =
      process_authorized intervention (subject_of places run_id) run_id now
        (authorize_execution db intervention.id now) phase st

  -- The loop, which an exception ends.
  unfoldable pub process_all :
      Governed
      → Places
      → ℕ
      → ℕ
      → List Intervention
      → Result PhaseError ExecutionPhase × Executing W
      → Result PhaseError ExecutionPhase × Executing W
  process_all db places run_id now [] so_far = so_far
  process_all db places run_id now (row ∷ rows) (err e, st) = (err e, st)
  process_all db places run_id now (row ∷ rows) (ok phase, st) =
      process_all db places run_id now rows (process db places run_id now row phase st)

  -- `run_execution_phase`.
  unfoldable pub run_execution_phase :
      Governed → Places → ℕ → ℕ → Executing W → Result PhaseError ExecutionPhase × Executing W
  run_execution_phase db places run_id now st =
      process_all db places run_id now
        (by_rank (keep (λ (row : Intervention). row.run_id == run_id) db.interventions))
        (ok (record { executed = []; refused = [] }), st)
