-- ===== src/Execution/Phase/Routes.antt =====
-- Every authorised action has a tool and arguments in src/revenue_sentinel/execution/arguments.py and executor.py.
use revenue_sentinel.Base.{
  ℕ, suc, String, Option, some, List, [], ◌∷◌, length, inl, inr, ◌≡◌, ◌≢◌, refl, ap, ◌∙◌, leb,
  Bool-cases,
}
use revenue_sentinel.Json.{Object}
use revenue_sentinel.Domain.{
  ProposedAction, ActionType, PolicyDecision, allow, require_approval, deny,
}
use revenue_sentinel.Governance.Approvals.{ApprovalRequest}
use revenue_sentinel.Execution.Authorization.{
  Intervention, Governed, ExecutionGrant, executable_action,
}
use revenue_sentinel.Execution.Authorization.Grants.{IsAuthorized, standing_decision, Consent}
use revenue_sentinel.Execution.Executor.{tool_for_action}
use revenue_sentinel.Execution.Places.{Subject}
use revenue_sentinel.Execution.Phase.{build_arguments, by_rank, insert_by_rank}

-- An action that has a tool and an argument builder.
abbrev IsRoutable : (ℕ → String) → Intervention → Subject → ℕ → ActionType → Type 0
IsRoutable due_date row subject now action =
    (tool : String) × (arguments : Object) × (tool_for_action action ≡ some tool)
    × (build_arguments due_date row action subject now ≡ some arguments)

IsRoutable-builder :
    (due_date : ℕ → String) (row : Intervention) (subject : Subject) (now : ℕ) (action : ActionType)
    → action ≢ ActionType.crm_field_update
    → IsRoutable due_date row subject now action
unfolding tool_for_action build_arguments
IsRoutable-builder due_date row subject now ActionType.crm_task h = (_, _, refl, refl)
IsRoutable-builder due_date row subject now ActionType.email_draft h = (_, _, refl, refl)
IsRoutable-builder due_date row subject now ActionType.slack_approval_request h = (_, _, refl, refl)
IsRoutable-builder due_date row subject now ActionType.crm_field_update h = absurd (h refl)

not_an_update :
    (p : ProposedAction) (action : ActionType)
    → standing_decision p ≢ deny
    → executable_action p ≡ some action
    → action ≢ ActionType.crm_field_update
unfolding executable_action
not_an_update ProposedAction.crm_task action h e = λ eq. cc
not_an_update ProposedAction.email_draft action h e = λ eq. cc
not_an_update ProposedAction.slack_approval_request action h e = λ eq. cc
not_an_update ProposedAction.crm_field_update action h e = absurd (h refl)
not_an_update ProposedAction.send_email_direct action h e = absurd (h refl)
not_an_update ProposedAction.record_delete action h e = absurd (h refl)

undenied :
    (approvals : List ApprovalRequest) (d : PolicyDecision) (evaluation now : ℕ)
    (approval : Option ℕ)
    → Consent approvals d evaluation now approval
    → d ≢ deny
undenied approvals allow evaluation now approval h = λ e. cc
undenied approvals require_approval evaluation now approval h = λ e. cc
undenied approvals deny evaluation now approval h = absurd h

-- A granted action has a tool and an argument builder.
pub IsAuthorized-IsRoutable :
    (due_date : ℕ → String) (row : Intervention) (subject : Subject) (db : Governed) (id now : ℕ)
    (g : ExecutionGrant)
    → IsAuthorized db id now g
    → IsRoutable due_date row subject now g.action_type
IsAuthorized-IsRoutable due_date row subject db id now g a =
    IsRoutable-builder due_date row subject now g.action_type (
      not_an_update a.row.action_type g.action_type
        (undenied db.approvals (standing_decision a.row.action_type) a.evaluation.id now
          g.approval_request_id a.consent)
        a.action)

length-insert_by_rank :
    (row : Intervention) (rows : List Intervention)
    → length (insert_by_rank row rows) ≡ suc (length rows)
unfolding insert_by_rank
length-insert_by_rank row [] = refl
length-insert_by_rank row (r ∷ rows) = elim (Bool-cases (leb row.rank r.rank)) [
  | inl first ↦ rw first refl
  | inr later ↦ rw later (ap suc (length-insert_by_rank row rows))
]

pub length-by_rank : (rows : List Intervention) → length (by_rank rows) ≡ length rows
unfolding by_rank
length-by_rank [] = refl
length-by_rank (row ∷ rows) =
    length-insert_by_rank row (by_rank rows) ∙ ap suc (length-by_rank rows)
