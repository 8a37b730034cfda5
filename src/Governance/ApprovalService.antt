-- ===== src/Governance/ApprovalService.antt =====
-- src/revenue_sentinel/governance/approval_service.py: requests by reference, and the list of them.
--
-- The joins run over the tables of the execution's authorisation; their ids are primary keys.
pub mod Listing
use revenue_sentinel.Base.{
  ℕ, Bool, ◌==◌, String, str_eq, Option, none, some, List, [], ◌∷◌, map, keep, find, Result, ok,
  err, leb, if◌then◌else◌,
}
use revenue_sentinel.Base.Sorting.{sort_by}
use revenue_sentinel.Domain.{ApprovalStatus}
use revenue_sentinel.Governance.Approvals.{ApprovalRequest, effective_status, is_pending}
use revenue_sentinel.Execution.Authorization.{Governed, Intervention, PolicyEvaluation}

pub record ApprovalView : Type 0 where
  pub approval_ref : String
  pub effective_status : ApprovalStatus
  pub requested_by : String
  pub expires_at : ℕ
  pub intervention_title : String

-- `NotFoundError`, with the reference that was asked for.
pub data NotFoundError : Type 0 where
  not_found : String → NotFoundError

abbrev found : String → Option ApprovalRequest → Result NotFoundError ApprovalRequest
found approval_ref none = err (not_found approval_ref)
found approval_ref (some request) = ok request

unfoldable pub get_by_ref : List ApprovalRequest → String → Result NotFoundError ApprovalRequest
get_by_ref rows approval_ref =
    found approval_ref (find (λ request. str_eq request.approval_ref approval_ref) rows)

abbrev intervention_title : Governed → Option PolicyEvaluation → Option String
intervention_title db none = none
intervention_title db (some evaluation) =
    elim (find (λ (row : Intervention). row.id == evaluation.intervention_id) db.interventions) [
      | none ↦ none
      | some row ↦ some row.title
    ]

-- The two joins for one request.
abbrev pub title_of : Governed → ApprovalRequest → Option String
title_of db request =
    intervention_title db
      (find (λ (row : PolicyEvaluation). row.id == request.policy_evaluation_id) db.evaluations)

-- A row of the query.
abbrev pub Listed : Type 0
Listed = ApprovalRequest × String

-- A request that joins nothing is not among the rows.
abbrev pub with_title : ApprovalRequest → Option String → List Listed → List Listed
with_title request none rest = rest
with_title request (some title) rest = (request, title) ∷ rest

unfoldable pub joined : Governed → List ApprovalRequest → List Listed
joined db [] = []
joined db (request ∷ rows) =
    let rest = joined db rows in with_title request (title_of db request) rest

-- `requested_at.desc()`.
abbrev pub newer : Listed → Listed → Bool
newer a b = leb b.0.requested_at a.0.requested_at

abbrev pub view : ℕ → Listed → ApprovalView
view now row = record {
  approval_ref = row.0.approval_ref;
  effective_status = effective_status row.0 now;
  requested_by = row.0.requested_by;
  expires_at = row.0.expires_at;
  intervention_title = row.1;
}

unfoldable pub list_requests : Governed → ℕ → Bool → List ApprovalView
unfolding joined
list_requests db now pending_only =
    let views = map (view now) (sort_by newer (joined db db.approvals)) in
    if pending_only then keep (λ (v : ApprovalView). is_pending v.effective_status) views else views
