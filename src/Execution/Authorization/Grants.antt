-- ===== src/Execution/Authorization/Grants.antt =====
-- Who gets a grant from src/revenue_sentinel/execution/authorization.py.
use mathlib.Core.Path.{subst, ap₂}
use revenue_sentinel.Base.{
  ℕ, String, true, ◌≡◌, ◌≢◌, refl, ◌↔◌, Option, none, some, List, [], ok, arith, inl, inr,
  Bool-cases, >>=-eq-ok, ok-injective, err-ne-ok, sym, ◌∙◌, ap,
}
use revenue_sentinel.Domain.{
  PolicyDecision, allow, require_approval, deny, ProposedAction, ActionType, approved,
}
use revenue_sentinel.Governance.Tiers.{classify, proposed_value}
use revenue_sentinel.Governance.Rules.{decide}
use revenue_sentinel.Governance.Engine.{evaluate}
use revenue_sentinel.Governance.Approvals.{ApprovalRequest, effective_status}
use revenue_sentinel.Execution.Authorization.{
  Intervention, PolicyEvaluation, Governed, ExecutionGrant, executable_action, request_for,
  fresh_outcome, intervention_by_id, evaluation_of, authorize_execution, authorize_fresh,
  authorize_found, check_request, approval_by, require_approval_of, same_decision, grant_for,
}

-- What the engine decides of each proposed action when no field is named.
abbrev pub standing_decision : ProposedAction → PolicyDecision
standing_decision ProposedAction.crm_task = allow
standing_decision ProposedAction.slack_approval_request = allow
standing_decision ProposedAction.email_draft = require_approval
standing_decision _ = deny

standing : (a : ProposedAction) → decide (classify (proposed_value a) []).0 ≡ standing_decision a
unfolding decide classify
standing ProposedAction.crm_task = refl
standing ProposedAction.email_draft = refl
standing ProposedAction.crm_field_update = refl
standing ProposedAction.slack_approval_request = refl
standing ProposedAction.send_email_direct = refl
standing ProposedAction.record_delete = refl

pub fresh-standing_decision :
    (row : Intervention) → (fresh_outcome row).decision ≡ standing_decision row.action_type
unfolding fresh_outcome evaluate
fresh-standing_decision row = standing row.action_type

-- What stands behind a grant's approval: nobody where none is needed, else an approved request.
abbrev pub Consent : List ApprovalRequest → PolicyDecision → ℕ → ℕ → Option ℕ → Type 0
Consent approvals allow evaluation now approval = approval ≡ none
Consent approvals require_approval evaluation now approval =
    (request : ApprovalRequest) × (request_for evaluation approvals ≡ some request)
    × (effective_status request now ≡ approved)
    × (approval ≡ some request.id)
Consent approvals deny evaluation now approval = ⊥

-- Why a grant may be given: the paper trail that it carries is there, and is current.
pub record IsAuthorized (db : Governed) (id now : ℕ) (g : ExecutionGrant) : Type 0 where
  pub row : Intervention
  pub evaluation : PolicyEvaluation
  pub found : intervention_by_id id db.interventions ≡ some row
  pub evaluated : evaluation_of id db.evaluations ≡ some evaluation
  pub undrifted : evaluation.decision ≡ standing_decision row.action_type
  pub consent :
      Consent db.approvals
        (standing_decision row.action_type)
        evaluation.id
        now
        g.approval_request_id
  pub action : executable_action row.action_type ≡ some g.action_type
  pub intervention : g.intervention_id ≡ row.id
  pub target : g.target_ref ≡ row.target_ref
  pub trail : g.policy_evaluation_id ≡ evaluation.id
  pub outcome : g.outcome ≡ fresh_outcome row

module _ (approvals : List ApprovalRequest) (title reason : String) (evaluation now : ℕ) where
  checked :
      (request : Option ApprovalRequest) (approval : Option ℕ)
      → request_for evaluation approvals ≡ request
      → check_request title now request ≡ ok approval
      → Consent approvals require_approval evaluation now approval
  unfolding check_request
  checked none approval e h = cc
  checked (some request) approval e h = (request, e, ground arith, ground arith)

  approval_by-Consent :
      (d : PolicyDecision) (approval : Option ℕ)
      → approval_by d approvals title reason evaluation now ≡ ok approval
      → Consent approvals d evaluation now approval
  unfolding approval_by require_approval_of
  approval_by-Consent allow approval h = cc
  approval_by-Consent require_approval approval h =
      checked (request_for evaluation approvals) approval refl h
  approval_by-Consent deny approval h = cc

  Consent-approval_by :
      (d : PolicyDecision) (approval : Option ℕ)
      → Consent approvals d evaluation now approval
      → approval_by d approvals title reason evaluation now ≡ ok approval
  unfolding approval_by require_approval_of check_request
  Consent-approval_by allow approval h = cc
  Consent-approval_by require_approval approval (request, found, is_ok, e) =
      rw found (rw (is_ok, e) refl)
  Consent-approval_by deny approval h = absurd h

pub same_decision→eq : (a b : PolicyDecision) → same_decision a b ≡ true → a ≡ b
same_decision→eq a b h = ground arith

same_decision_refl : (a : PolicyDecision) → same_decision a a ≡ true
same_decision_refl a = ground arith

module _ (db : Governed) (id now : ℕ) (row : Intervention) (evaluation : PolicyEvaluation)
    (is_row : intervention_by_id id db.interventions ≡ some row)
    (is_evaluation : evaluation_of id db.evaluations ≡ some evaluation) where
  granted :
      (g : ExecutionGrant) (approval : Option ℕ) (action : Option ActionType)
      → executable_action row.action_type ≡ action
      → evaluation.decision ≡ standing_decision row.action_type
      → Consent db.approvals (standing_decision row.action_type) evaluation.id now approval
      → grant_for row evaluation (fresh_outcome row) approval action ≡ ok g
      → IsAuthorized db id now g
  unfolding grant_for
  granted g approval none is_action undrifted consent h = cc
  granted g approval (some action) is_action undrifted consent h =
      subst (IsAuthorized db id now) (ok-injective h) (record {
        row = row;
        evaluation = evaluation;
        found = is_row;
        evaluated = is_evaluation;
        undrifted = undrifted;
        consent = consent;
        action = is_action;
        intervention = refl;
        target = refl;
        trail = refl;
        outcome = refl;
      })

  fresh_granted :
      (g : ExecutionGrant)
      → authorize_fresh db.approvals row evaluation (fresh_outcome row) now ≡ ok g
      → IsAuthorized db id now g
  unfolding authorize_fresh
  fresh_granted g h =
      elim (Bool-cases (same_decision (fresh_outcome row).decision evaluation.decision)) [
        | inr drifted ↦ absurd (err-ne-ok (rw drifted at h))
        | inl same ↦
            let (approval, is_approval, is_grant) =
              >>=-eq-ok
                (approval_by (fresh_outcome row).decision db.approvals row.title
                  (fresh_outcome row).reason evaluation.id now)
                _ (rw same at h) in
            let agree = same_decision→eq _ _ same in
            let is_standing = fresh-standing_decision row in
            granted g approval (executable_action row.action_type) refl (sym agree ∙ is_standing)
              (rw is_standing at (
                approval_by-Consent db.approvals row.title (fresh_outcome row).reason evaluation.id
                  now (fresh_outcome row).decision approval is_approval))
              is_grant
      ]

module _ (db : Governed) (id now : ℕ) (g : ExecutionGrant) where
  IsAuthorized-found :
      (row : Option Intervention) (evaluation : Option PolicyEvaluation)
      → intervention_by_id id db.interventions ≡ row
      → evaluation_of id db.evaluations ≡ evaluation
      → authorize_found db id row evaluation now ≡ ok g
      → IsAuthorized db id now g
  unfolding authorize_found
  IsAuthorized-found none evaluation is_row is_evaluation h = cc
  IsAuthorized-found (some row) none is_row is_evaluation h = cc
  IsAuthorized-found (some row) (some evaluation) is_row is_evaluation h =
      fresh_granted db id now row evaluation is_row is_evaluation g h

  granted_found :
      (a : IsAuthorized db id now g)
      → authorize_found db id (some a.row) (some a.evaluation) now ≡ ok g
  unfolding authorize_found authorize_fresh grant_for
  granted_found a =
      rw (fresh-standing_decision a.row, a.undrifted, same_decision_refl)
        (rw
          (
            Consent-approval_by db.approvals a.row.title (fresh_outcome a.row).reason
                a.evaluation.id now _ _ a.consent,
            a.action,
          )
          (ground (arith, fresh-standing_decision a.row)))

-- Soundness and completeness of the one door: `authorize_execution` returns the grant `g` exactly
-- when the intervention and its policy evaluation are there, the recorded decision is the one that
-- the engine makes now, it is no denial, a needed approval is there and reads as approved now,
-- the action is executable, and `g` names just these rows.
pub authorize_execution-IsAuthorized :
    (db : Governed) (id now : ℕ) (g : ExecutionGrant)
    → (authorize_execution db id now ≡ ok g) ↔ IsAuthorized db id now g
unfolding authorize_execution
authorize_execution-IsAuthorized db id now g = (
  IsAuthorized-found db id now g (intervention_by_id id db.interventions)
      (evaluation_of id db.evaluations) refl refl,
  λ a. ap₂ (λ r e. authorize_found db id r e now) a.found a.evaluated ∙ granted_found db id now g a,
)

-- An approval never overrides a denial: for an intervention that proposes sending an email,
-- deleting a record or changing a CRM field there is no grant, whatever evaluations and approvals
-- are on record.
pub denied_never_granted :
    (db : Governed) (id now : ℕ) (row : Intervention) (g : ExecutionGrant)
    → intervention_by_id id db.interventions ≡ some row
    → standing_decision row.action_type ≡ deny
    → authorize_execution db id now ≢ ok g
denied_never_granted db id now row g is_row denied h =
    let a = (authorize_execution-IsAuthorized db id now g).0 h in
    let same : a.row ≡ row = cc (a.found, is_row) in
    subst (λ d. Consent db.approvals d a.evaluation.id now g.approval_request_id)
      (ap (λ r. standing_decision r.action_type) same ∙ denied) a.consent
