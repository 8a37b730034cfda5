-- ===== src/Governance/Approvals/Sweep.antt =====
-- What a sweep of src/revenue_sentinel/governance/approvals.py does to what is read.
use revenue_sentinel.Base.{ℕ, ◌≤◌, ◌≡◌, refl, false, List, [], ◌∷◌, arith, length, keep}
use revenue_sentinel.Domain.{ApprovalStatus}
use revenue_sentinel.Governance.Approvals.{
  ApprovalRequest, effective_status, expire_lapsed, sweep, sweep_row, is_lapsed,
}

-- How the rows read at an instant.
abbrev pub statuses : ℕ → List ApprovalRequest → List ApprovalStatus
statuses now [] = []
statuses now (r ∷ rows) = effective_status r now ∷ statuses now rows

pub row_status :
    (r : ApprovalRequest) (now later : ℕ)
    → now ≤ later
    → effective_status (sweep_row r now) later ≡ effective_status r later
unfolding effective_status sweep_row
row_status r now later h = ground arith

statuses-sweep :
    (rows : List ApprovalRequest) (now later : ℕ)
    → now ≤ later
    → statuses later (sweep rows now) ≡ statuses later rows
unfolding sweep
statuses-sweep [] now later h = refl
statuses-sweep (r ∷ rows) now later h =
    cc (row_status r now later h, statuses-sweep rows now later h)

row_settled : (r : ApprovalRequest) (now : ℕ) → is_lapsed (sweep_row r now) now ≡ false
unfolding sweep_row
row_settled r now = ground arith

none_lapsed :
    (rows : List ApprovalRequest) (now : ℕ)
    → length (keep (λ r. is_lapsed r now) (sweep rows now)) ≡ 0
unfolding sweep
none_lapsed [] now = refl
none_lapsed (r ∷ rows) now = ground (arith, row_settled r now, none_lapsed rows now)

-- Correctness does not depend on the sweeper: a sweep changes the status of no request as it is
-- read at that instant or later, and the next sweep at the same instant expires nothing.
pub expire_lapsed_lem :
    (rows : List ApprovalRequest) (now later : ℕ)
    → now ≤ later
    → (statuses later (expire_lapsed rows now).1 ≡ statuses later rows)
      × ((expire_lapsed (expire_lapsed rows now).1 now).0 ≡ 0)
unfolding expire_lapsed
expire_lapsed_lem rows now later h = (statuses-sweep rows now later h, none_lapsed rows now)
