-- ===== src/Governance/Approvals.antt =====
-- src/revenue_sentinel/governance/approvals.py: requests for a person's decision, and what time does
-- to them. Instants and durations are whole microseconds; ids are numbers.
pub mod Decisions
pub mod Sweep
use revenue_sentinel.Base.{
  ℕ, suc, ◌+◌, ◌*◌, Bool, true, false, ◌&&◌, String, str_eq, Option, none, some, List, [], ◌∷◌, leb,
  length, keep, Result, ok, err, if◌then◌else◌,
}
use revenue_sentinel.Domain.{ApprovalStatus, pending, approved, rejected, expired}

-- One row of `approval_requests`.
pub record ApprovalRequest : Type 0 where
  pub id : ℕ
  pub approval_ref : String
  pub policy_evaluation_id : ℕ
  pub run_id : ℕ
  pub status : ApprovalStatus
  pub requested_by : String
  pub requested_at : ℕ
  pub expires_at : ℕ
  pub decided_at : Option ℕ
  pub decided_by : Option String
  pub decision_note : Option String

-- `timedelta(hours=24)`.
abbrev pub default_approval_ttl : ℕ
default_approval_ttl = 24 * 3600 * 1000000

-- `create_approval_request`. `id` is the value of `new_id()`, `approval_ref` that of
-- `allocate_approval_ref`, whose number a sequence of the database gives.
unfoldable pub create_approval_request : ℕ → String → ℕ → ℕ → String → ℕ → ℕ → ApprovalRequest
create_approval_request id approval_ref policy_evaluation_id run_id requested_by occurred_at ttl =
    record {
      id = id;
      approval_ref = approval_ref;
      policy_evaluation_id = policy_evaluation_id;
      run_id = run_id;
      status = pending;
      requested_by = requested_by;
      requested_at = occurred_at;
      expires_at = occurred_at + ttl;
      decided_at = none;
      decided_by = none;
      decision_note = none;
    }

abbrev pub is_pending : ApprovalStatus → Bool
is_pending pending = true
is_pending _ = false

abbrev pub is_expired : ApprovalStatus → Bool
is_expired expired = true
is_expired _ = false

-- The condition of `effective_status`, and the `WHERE` clause of `expire_lapsed`.
abbrev pub is_lapsed : ApprovalRequest → ℕ → Bool
is_lapsed request now = is_pending request.status && leb request.expires_at now

unfoldable pub effective_status : ApprovalRequest → ℕ → ApprovalStatus
effective_status request now = if is_lapsed request now then expired else request.status

pub data DecisionError : Type 0 where
  self_approval : String → DecisionError
  approval_expired : ℕ → ℕ → DecisionError

-- The note is written only where one is given.
abbrev noted : Option String → Option String → Option String
noted (some remark) old = some remark
noted none old = old

-- `decide`: the row comes back beside an error too, since an expiry is written before the raise.
unfoldable pub decide :
    ApprovalRequest
    → Bool
    → String
    → ℕ
    → Option String
    → Result DecisionError (Unit {0}) × ApprovalRequest
decide request approve decided_by occurred_at remark =
    if str_eq request.requested_by decided_by
    then (err (self_approval decided_by), request)
    else if is_expired (effective_status request occurred_at)
    then (err (approval_expired request.id request.expires_at), record request { status = expired })
    else (
      ok tt,
      record request {
        status = if approve then approved else rejected;
        decided_at = some occurred_at;
        decided_by = some decided_by;
        decision_note = noted remark request.decision_note;
      },
    )

unfoldable pub sweep_row : ApprovalRequest → ℕ → ApprovalRequest
sweep_row request now =
    if is_lapsed request now then record request { status = expired } else request

unfoldable pub sweep : List ApprovalRequest → ℕ → List ApprovalRequest
unfolding sweep_row
sweep [] now = []
sweep (request ∷ rows) now = sweep_row request now ∷ sweep rows now

-- `expire_lapsed`: the number of rows that it expired, and the table.
unfoldable pub expire_lapsed : List ApprovalRequest → ℕ → ℕ × List ApprovalRequest
unfolding sweep
expire_lapsed rows now = (length (keep (λ request. is_lapsed request now) rows), sweep rows now)
