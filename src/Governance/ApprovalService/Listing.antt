-- ===== src/Governance/ApprovalService/Listing.antt =====
-- The list of requests of src/revenue_sentinel/governance/approval_service.py and the sweep.
use revenue_sentinel.Base.{
  ℕ, ◌≤◌, ◌≡◌, refl, sym, ap, ◌∙◌, arith, Bool, leb, String, Option, none, some, List, [], ◌∷◌, map,
  keep, if◌then◌else◌,
}
use revenue_sentinel.Base.Sorting.{sort_by}
use revenue_sentinel.Base.Sorting.Laws.{map-sort_by}
use revenue_sentinel.Governance.Approvals.{
  ApprovalRequest, effective_status, expire_lapsed, sweep, sweep_row, is_pending,
}
use revenue_sentinel.Execution.Authorization.{Governed}
use revenue_sentinel.Governance.ApprovalService.{
  ApprovalView, Listed, joined, with_title, title_of, newer, view, list_requests,
}

-- What the list reads of a row: its time, and its view.
abbrev Keyed : Type 0
Keyed = ℕ × ApprovalView

abbrev keyed : ℕ → Listed → Keyed
keyed now row = (row.0.requested_at, view now row)

abbrev key_newer : Keyed → Keyed → Bool
key_newer a b = leb b.0 a.0

views-keyed :
    (now : ℕ) (rows : List Listed)
    → map (view now) rows ≡ map (λ (k : Keyed). k.1) (map (keyed now) rows)
views-keyed now [] = refl
views-keyed now (row ∷ rows) = ap (◌∷◌ (view now row)) (views-keyed now rows)

keyed-sweep_row :
    (r : ApprovalRequest) (title : String) (now later : ℕ)
    → now ≤ later
    → keyed later (sweep_row r now, title) ≡ keyed later (r, title)
unfolding sweep_row effective_status
keyed-sweep_row r title now later h = ground arith

title_of-sweep_row :
    (db : Governed) (r : ApprovalRequest) (now : ℕ) → title_of db (sweep_row r now) ≡ title_of db r
unfolding sweep_row
title_of-sweep_row db r now = ground arith

keyed-with_title :
    (now later : ℕ) (r : ApprovalRequest) (title : Option String) (swept rest : List Listed)
    → now ≤ later
    → map (keyed later) swept ≡ map (keyed later) rest
    → map (keyed later) (with_title (sweep_row r now) title swept)
      ≡ map (keyed later) (with_title r title rest)
keyed-with_title now later r none swept rest h same = same
keyed-with_title now later r (some title) swept rest h same =
    cc (keyed-sweep_row r title now later h, same)

keyed-sweep :
    (db : Governed) (rows : List ApprovalRequest) (now later : ℕ)
    → now ≤ later
    → map (keyed later) (joined db (sweep rows now)) ≡ map (keyed later) (joined db rows)
unfolding joined sweep
keyed-sweep db [] now later h = refl
keyed-sweep db (r ∷ rows) now later h = rw (title_of-sweep_row db r now) (
    keyed-with_title now later r (title_of db r) (joined db (sweep rows now)) (joined db rows) h
      (keyed-sweep db rows now later h))

sorted_views :
    (now : ℕ) (rows : List Listed)
    → map (view now) (sort_by newer rows)
      ≡ map (λ (k : Keyed). k.1) (sort_by key_newer (map (keyed now) rows))
sorted_views now rows =
    views-keyed now (sort_by newer rows)
    ∙ ap (map (λ (k : Keyed). k.1)) (map-sort_by (keyed now) key_newer rows)

-- The list does not wait for the sweeper: after a sweep the requests are listed at that instant or later
-- as they are without it, the pending ones as well as all of them.
pub list_requests-expire_lapsed :
    (db : Governed) (now later : ℕ) (pending_only : Bool)
    → now ≤ later
    → list_requests
        (record db { approvals = (expire_lapsed db.approvals now).1 })
        later
        pending_only
      ≡ list_requests db later pending_only
unfolding list_requests expire_lapsed
list_requests-expire_lapsed db now later pending_only h =
    let views : map (view later) (sort_by newer (joined db (sweep db.approvals now)))
        ≡ map (view later) (sort_by newer (joined db db.approvals)) =
      sorted_views later (joined db (sweep db.approvals now))
      ∙ ap (λ keys. map (λ (k : Keyed). k.1) (sort_by key_newer keys))
          (keyed-sweep db db.approvals now later h)
      ∙ sym (sorted_views later (joined db db.approvals)) in
    ap
      (λ all.
        if pending_only
        then keep (λ (v : ApprovalView). is_pending v.effective_status) all
        else all)
      views
