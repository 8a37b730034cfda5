-- ===== src/Execution/Authorization/Missing.antt =====
-- The refusal of src/revenue_sentinel/execution/authorization.py for want of an approved request.
use mathlib.Core.Path.{ap₂, subst}
use revenue_sentinel.Base.{
  ℕ, false, String, Option, none, some, List, Result, err, ◌>>=◌, ◌≡◌, ◌≢◌, refl, sym, ap, ◌∙◌, ◌↔◌,
  ◌⊎◌, inl, inr, Bool-cases,
}
use revenue_sentinel.Domain.{
  ApprovalStatus, pending, approved, rejected, expired, PolicyDecision, allow, require_approval,
  deny, ActionType,
}
use revenue_sentinel.Governance.Approvals.{ApprovalRequest, effective_status}
use revenue_sentinel.Governance.Engine.{PolicyOutcome}
use revenue_sentinel.Execution.Authorization.{
  Intervention, PolicyEvaluation, Governed, Refusal, ExecutionGrant, approval_missing,
  authorize_execution, intervention_by_id, evaluation_of, request_for, fresh_outcome,
  require_approval_of, check_request, approval_by, authorize_fresh, authorize_found, is_approved,
  same_decision, grant_for, executable_action,
}
use revenue_sentinel.Execution.Authorization.Grants.{
  standing_decision, fresh-standing_decision, same_decision→eq,
}

-- Nobody was asked, or the request does not read as approved: it is open, rejected or expired.
abbrev pub Unapproved : List ApprovalRequest → ℕ → ℕ → Type 0
Unapproved approvals evaluation now =
    (request_for evaluation approvals ≡ none)
    ⊎ ((request : ApprovalRequest) × (request_for evaluation approvals ≡ some request)
        × (effective_status request now ≢ approved))

-- An intervention on record needs a person, its evaluation says so too, and nobody has approved.
pub record IsWaiting (db : Governed) (id now : ℕ) : Type 0 where
  pub row : Intervention
  pub evaluation : PolicyEvaluation
  pub found : intervention_by_id id db.interventions ≡ some row
  pub evaluated : evaluation_of id db.evaluations ≡ some evaluation
  pub needed : standing_decision row.action_type ≡ require_approval
  pub undrifted : evaluation.decision ≡ require_approval
  pub unapproved : Unapproved db.approvals evaluation.id now

-- The refusal, whatever title and status it names.
abbrev pub IsMissing : Result Refusal ExecutionGrant → Type 0
IsMissing authorized =
    (title : String) × (status : Option ApprovalStatus) × (authorized
      ≡ err (approval_missing title status))

unapproved_lem : (s : ApprovalStatus) → s ≢ approved → is_approved s ≡ false
unapproved_lem pending h = refl
unapproved_lem approved h = absurd (h refl)
unapproved_lem rejected h = refl
unapproved_lem expired h = refl

refused_lem : (s : ApprovalStatus) → is_approved s ≡ false → s ≢ approved
refused_lem s h = λ e. cc (ap is_approved e, h)

module _ (approvals : List ApprovalRequest) (row : Intervention) (evaluation : PolicyEvaluation)
    (fresh : PolicyOutcome) (now : ℕ) where
  -- What follows an approval.
  grant : Option ℕ → Result Refusal ExecutionGrant
  grant a = grant_for row evaluation fresh a (executable_action row.action_type)

  never_missing :
      (a : Option ℕ) (action : Option ActionType) (title : String) (status : Option ApprovalStatus)
      → grant_for row evaluation fresh a action ≢ err (approval_missing title status)
  unfolding grant_for
  never_missing a none title status = λ e. cc
  never_missing a (some action) title status = λ e. cc

  check_request-Unapproved :
      (request : Option ApprovalRequest)
      → request_for evaluation.id approvals ≡ request
      → IsMissing (check_request row.title now request >>= grant)
      → Unapproved approvals evaluation.id now
  unfolding check_request grant
  check_request-Unapproved none e h = inl e
  check_request-Unapproved (some request) e (title, status, h) =
      elim (Bool-cases (is_approved (effective_status request now))) [
        | inl given ↦ absurd (
            never_missing (some request.id) (executable_action row.action_type) title status
              (rw given at h))
        | inr missing ↦ inr (request, e, refused_lem (effective_status request now) missing)
      ]

  approval_by-Unapproved :
      (d : PolicyDecision)
      → IsMissing (approval_by d approvals row.title fresh.reason evaluation.id now >>= grant)
      → (d ≡ require_approval) × Unapproved approvals evaluation.id now
  unfolding approval_by require_approval_of grant
  approval_by-Unapproved allow (title, status, h) =
      absurd (never_missing none (executable_action row.action_type) title status h)
  approval_by-Unapproved require_approval h =
      (refl, check_request-Unapproved (request_for evaluation.id approvals) refl h)
  approval_by-Unapproved deny (title, status, h) = cc

  Unapproved-approval_by :
      Unapproved approvals evaluation.id now
      → IsMissing (
          approval_by require_approval approvals row.title fresh.reason evaluation.id now >>= grant)
  unfolding approval_by require_approval_of check_request
  Unapproved-approval_by (inl nobody) = (row.title, none, rw nobody refl)
  Unapproved-approval_by (inr (request, asked, h)) = (
    row.title,
    some (effective_status request now),
    rw asked (rw (unapproved_lem (effective_status request now) h) refl),
  )

  authorize_fresh-Unapproved :
      IsMissing (authorize_fresh approvals row evaluation fresh now)
      → (fresh.decision ≡ require_approval)
        × (evaluation.decision ≡ require_approval)
        × Unapproved approvals evaluation.id now
  unfolding authorize_fresh grant
  authorize_fresh-Unapproved (title, status, h) =
      elim (Bool-cases (same_decision fresh.decision evaluation.decision)) [
        | inr drifted ↦ cc (rw drifted at h)
        | inl same ↦
            let (needed, unapproved) =
              approval_by-Unapproved fresh.decision (title, status, rw same at h) in
            (
              needed,
              sym (same_decision→eq fresh.decision evaluation.decision same) ∙ needed,
              unapproved,
            )
      ]

  Unapproved-authorize_fresh :
      fresh.decision ≡ require_approval
      → evaluation.decision ≡ require_approval
      → Unapproved approvals evaluation.id now
      → IsMissing (authorize_fresh approvals row evaluation fresh now)
  unfolding authorize_fresh grant
  Unapproved-authorize_fresh needed decided unapproved =
      let (title, status, h) = Unapproved-approval_by unapproved in
      (
        title,
        status,
        rw (ap₂ same_decision needed decided) (
            ap (λ d. approval_by d approvals row.title fresh.reason evaluation.id now >>= grant)
              needed
            ∙ h),
      )

authorize_found-IsWaiting :
    (db : Governed) (id now : ℕ) (row : Option Intervention) (evaluation : Option PolicyEvaluation)
    → intervention_by_id id db.interventions ≡ row
    → evaluation_of id db.evaluations ≡ evaluation
    → IsMissing (authorize_found db id row evaluation now)
    → IsWaiting db id now
unfolding authorize_found
authorize_found-IsWaiting db id now none evaluation found evaluated (title, status, h) = cc
authorize_found-IsWaiting db id now (some row) none found evaluated (title, status, h) = cc
authorize_found-IsWaiting db id now (some row) (some evaluation) found evaluated h =
    let (needed, undrifted, unapproved) =
      authorize_fresh-Unapproved db.approvals row evaluation (fresh_outcome row) now h in
    record {
      row = row;
      evaluation = evaluation;
      found = found;
      evaluated = evaluated;
      needed = sym (fresh-standing_decision row) ∙ needed;
      undrifted = undrifted;
      unapproved = unapproved;
    }

-- An intervention is refused for want of an approval exactly where it is on record with an evaluation, its
-- action needs a person now as when it was evaluated, and nobody was asked or the request does not read
-- as approved at that instant: also a rejected or an expired one leaves its action waiting.
pub authorize_execution-IsWaiting :
    (db : Governed) (id now : ℕ) → IsMissing (authorize_execution db id now) ↔ IsWaiting db id now
unfolding authorize_execution authorize_found
authorize_execution-IsWaiting db id now = (
  λ h.
      authorize_found-IsWaiting db id now (intervention_by_id id db.interventions)
        (evaluation_of id db.evaluations) refl refl h,
  λ w. subst IsMissing (sym (ap₂ (λ r e. authorize_found db id r e now) w.found w.evaluated)) (
      Unapproved-authorize_fresh db.approvals w.row w.evaluation (fresh_outcome w.row) now
        (fresh-standing_decision w.row ∙ w.needed) w.undrifted w.unapproved),
)
