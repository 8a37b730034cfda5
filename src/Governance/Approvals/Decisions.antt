-- ===== src/Governance/Approvals/Decisions.antt =====
-- Requests of src/revenue_sentinel/governance/approvals.py after decisions and sweeps at any times.
use text.Mathlib.TextEquality.{eq_iff}
use revenue_sentinel.Base.{ℕ, ◌≤◌, ◌≡◌, ◌≢◌, refl, ◌↔◌, Bool, String, Option, none, some, ok, arith}
use revenue_sentinel.Domain.{ApprovalStatus, pending, approved, rejected, expired}
use revenue_sentinel.Governance.Approvals.{
  ApprovalRequest, create_approval_request, effective_status, decide, sweep_row,
}

-- Somebody decided, at some time, and it was not the person who asked.
abbrev pub DecidedByAnother : Option String → Option ℕ → String → Type 0
DecidedByAnother (some decider) (some time) requester = decider ≢ requester
DecidedByAnother _ _ _ = ⊥

-- `_decision_fields_are_consistent` of domain/governance.py, and two people.
abbrev pub DecisionFields : ApprovalStatus → Option String → Option ℕ → String → Type 0
DecisionFields pending by at requester = (by ≡ none) × (at ≡ none)
DecisionFields approved by at requester = DecidedByAnother by at requester
DecisionFields rejected by at requester = DecidedByAnother by at requester
DecisionFields expired by at requester = (by ≡ none) × (at ≡ none)

abbrev pub IsConsistent : ApprovalRequest → Type 0
IsConsistent r = DecisionFields r.status r.decided_by r.decided_at r.requested_by

-- One operation on a request: somebody decides, or the sweeper comes by.
pub data Step : ApprovalRequest → ApprovalRequest → Type 0 where
  decision :
      (r : ApprovalRequest) (approve : Bool) (who : String) (now : ℕ) (remark : Option String)
      → Step r (decide r approve who now remark).1
  swept : (r : ApprovalRequest) (now : ℕ) → Step r (sweep_row r now)

pub data Reach (r : ApprovalRequest) : ApprovalRequest → Type 0 where
  here : Reach r r
  next : {s t : ApprovalRequest} → Reach r s → Step s t → Reach r t

decide-IsConsistent :
    (r : ApprovalRequest) (approve : Bool) (who : String) (now : ℕ) (remark : Option String)
    → IsConsistent r
    → IsConsistent (decide r approve who now remark).1
unfolding decide effective_status
decide-IsConsistent r approve who now remark h = ground (arith, eq_iff r.requested_by who)

sweep_row-IsConsistent :
    (r : ApprovalRequest) (now : ℕ) → IsConsistent r → IsConsistent (sweep_row r now)
unfolding sweep_row
sweep_row-IsConsistent r now h = ground arith

Step-IsConsistent : {r s : ApprovalRequest} → Step r s → IsConsistent r → IsConsistent s
Step-IsConsistent (decision r approve who now remark) h =
    decide-IsConsistent r approve who now remark h
Step-IsConsistent (swept r now) h = sweep_row-IsConsistent r now h

Reach-keeps : {r s : ApprovalRequest} → Reach r s → IsConsistent r → IsConsistent s
Reach-keeps here h = h
Reach-keeps (next path step) h = Step-IsConsistent step (Reach-keeps path h)

create-IsConsistent :
    (id : ℕ) (ref : String) (evaluation run : ℕ) (who : String) (now ttl : ℕ)
    → IsConsistent (create_approval_request id ref evaluation run who now ttl)
unfolding create_approval_request
create-IsConsistent id ref evaluation run who now ttl = (refl, refl)

-- Two people, always. Whatever decisions (by anyone, at any times) and sweeps a created request goes
-- through, its decision fields agree with its status, and whoever approved or rejected it is not
-- the person who asked.
pub Reach-IsConsistent :
    (id : ℕ) (ref : String) (evaluation run : ℕ) (who : String) (now ttl : ℕ) (r : ApprovalRequest)
    → Reach (create_approval_request id ref evaluation run who now ttl) r
    → IsConsistent r
Reach-IsConsistent id ref evaluation run who now ttl r path =
    Reach-keeps path (create-IsConsistent id ref evaluation run who now ttl)

-- A lapsed request is never revived: whoever tries to decide a request that reads as expired is
-- refused, by an error about self-approval or expiry, and the request reads as expired from then on.
pub decide_lapsed :
    (r : ApprovalRequest) (approve : Bool) (who : String) (now later : ℕ) (remark : Option String)
    → effective_status r now ≡ expired
    → now ≤ later
    → ((decide r approve who now remark).0 ≢ ok tt)
      × (effective_status (decide r approve who now remark).1 later ≡ expired)
unfolding decide effective_status
decide_lapsed r approve who now later remark h le = ground arith

-- A decision is accepted exactly when the decider is another person and the request does not read
-- as expired. Nothing asks that the request is still pending: a rejected request is approved by
-- the next caller, also after its expiry.
pub decide-ok :
    (r : ApprovalRequest) (approve : Bool) (who : String) (now : ℕ) (remark : Option String)
    → ((decide r approve who now remark).0 ≡ ok tt)
      ↔ ((r.requested_by ≢ who) × (effective_status r now ≢ expired))
unfolding decide effective_status
decide-ok r approve who now remark = ground (arith, eq_iff r.requested_by who)
