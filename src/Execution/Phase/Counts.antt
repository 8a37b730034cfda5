-- ===== src/Execution/Phase/Counts.antt =====
-- The interventions of a pass of src/revenue_sentinel/execution/service.py that wait, counted.
use revenue_sentinel.Base.{
  All, ℕ, ◌+◌, Bool, true, false, String, Option, List, [], ◌∷◌, keep, length, Result, ok, err, inl,
  inr, ◌≡◌, ◌↔◌, refl, ap, ◌∙◌, arith, leb, Bool-cases,
}
use revenue_sentinel.Execution.Authorization.{
  Intervention, Governed, Refusal, ExecutionGrant, authorize_execution, approval_missing,
  policy_denied, policy_drift, not_executable, no_intervention, no_evaluation,
}
use revenue_sentinel.Execution.Authorization.Missing.{
  IsWaiting, IsMissing, authorize_execution-IsWaiting,
}
use revenue_sentinel.Domain.{ApprovalStatus}
use revenue_sentinel.Execution.Phase.{is_missing_approval, by_rank, insert_by_rank}

abbrev pub bit : Bool → ℕ
bit true = 1
bit false = 0

-- How many rows pass a test.
abbrev pub count : (Intervention → Bool) → List Intervention → ℕ
count p rows = length (keep p rows)

length-picked :
    {A : Type 0} (x : A) (rest : List A) (b : Bool)
    → length (elim b [ true ↦ x ∷ rest | false ↦ rest ]) ≡ bit b + length rest
length-picked x rest true = omega arith
length-picked x rest false = omega arith

pub length-keep :
    {A : Type 0} (p : A → Bool) (x : A) (xs : List A)
    → length (keep p (x ∷ xs)) ≡ bit (p x) + length (keep p xs)
length-keep p x xs = length-picked x (keep p xs) (p x)

pub count-cons :
    (p : Intervention → Bool) (row : Intervention) (rows : List Intervention)
    → count p (row ∷ rows) ≡ bit (p row) + count p rows
count-cons p row rows = length-keep p row rows

-- Sorting by rank drops and adds nothing.
count-insert_by_rank :
    (p : Intervention → Bool) (row : Intervention) (rows : List Intervention)
    → count p (insert_by_rank row rows) ≡ bit (p row) + count p rows
unfolding insert_by_rank
count-insert_by_rank p row [] = count-cons p row []
count-insert_by_rank p row (r ∷ rows) = elim (Bool-cases (leb row.rank r.rank)) [
  | inl first ↦ rw first (count-cons p row (r ∷ rows))
  | inr later ↦ rw later (
      omega (
        arith,
        count-cons p r (insert_by_rank row rows),
        count-insert_by_rank p row rows,
        count-cons p r rows,
      ))
]

pub count-by_rank :
    (p : Intervention → Bool) (rows : List Intervention) → count p (by_rank rows) ≡ count p rows
unfolding by_rank
count-by_rank p [] = refl
count-by_rank p (row ∷ rows) =
    omega (
      arith,
      count-insert_by_rank p row (by_rank rows),
      count-by_rank p rows,
      count-cons p row rows,
    )

-- A refusal that the pass takes for a wait.
abbrev pub lacks_approval : Result Refusal ExecutionGrant → Bool
lacks_approval (ok grant) = false
lacks_approval (err reason) = is_missing_approval reason

abbrev pub waits : Governed → ℕ → Intervention → Bool
waits db now row = lacks_approval (authorize_execution db row.id now)

missing_lem :
    (reason : Refusal)
    → is_missing_approval reason ≡ true
    → (title : String) × (status : Option ApprovalStatus) × (reason ≡ approval_missing title status)
missing_lem (approval_missing title status) h = (title, status, refl)
missing_lem (policy_denied title why) h = cc
missing_lem (policy_drift title recorded fresh) h = cc
missing_lem (not_executable action) h = cc
missing_lem (no_intervention id) h = cc
missing_lem (no_evaluation title) h = cc

lacks_approval-IsMissing :
    (authorized : Result Refusal ExecutionGrant)
    → lacks_approval authorized ≡ true
    → IsMissing authorized
lacks_approval-IsMissing (ok grant) h = cc
lacks_approval-IsMissing (err reason) h =
    let (title, status, e) = missing_lem reason h in (title, status, ap err e)

waits-IsWaiting :
    (db : Governed) (now : ℕ) (row : Intervention)
    → (waits db now row ≡ true) ↔ IsWaiting db row.id now
waits-IsWaiting db now row = (
  λ h.
      (authorize_execution-IsWaiting db row.id now).0
        (lacks_approval-IsMissing (authorize_execution db row.id now) h),
  λ w.
      let (title, status, e) = (authorize_execution-IsWaiting db row.id now).1 w in
      ap lacks_approval e,
)

counted :
    (db : Governed) (now : ℕ) (row : Intervention) (rows : List Intervention) (b : Bool)
    → waits db now row ≡ b
    → count (waits db now) (row ∷ rows) ≡ bit b + count (waits db now) rows
counted db now row rows b h =
    count-cons (waits db now) row rows ∙ ap (λ c. bit c + count (waits db now) rows) h

-- Nothing is counted exactly where no row waits.
pub none_waits :
    (db : Governed) (now : ℕ) (rows : List Intervention)
    → count (waits db now) rows ≡ 0
    → All (λ (row : Intervention). ¬ IsWaiting db row.id now) rows
none_waits db now [] h = tt
none_waits db now (row ∷ rows) h = elim (Bool-cases (waits db now row)) [
  | inl waiting ↦ absurd (omega (arith, h, counted db now row rows true waiting))
  | inr settled ↦ (
    λ w. cc (settled, (waits-IsWaiting db now row).1 w),
    none_waits db now rows (omega (arith, h, counted db now row rows false settled)),
  )
]

pub waits_none :
    (db : Governed) (now : ℕ) (rows : List Intervention)
    → All (λ (row : Intervention). ¬ IsWaiting db row.id now) rows
    → count (waits db now) rows ≡ 0
waits_none db now [] h = refl
waits_none db now (row ∷ rows) h = elim (Bool-cases (waits db now row)) [
  | inl waiting ↦ absurd (h.0 ((waits-IsWaiting db now row).0 waiting))
  | inr settled ↦ omega (arith, counted db now row rows false settled, waits_none db now rows h.1)
]
