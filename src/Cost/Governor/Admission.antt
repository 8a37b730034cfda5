-- ===== src/Cost/Governor/Admission.antt =====
-- What `check_affordable` of src/revenue_sentinel/cost/governor.py admits and what it refuses.
use mathlib.Core.Path.{subst}
use revenue_sentinel.Base.{
  ℕ, ◌+◌, ◌≤◌, ◌<◌, true, Bool-cases, inl, inr, ◌⊎◌, ◌↔◌, String, none, some, List, [], ◌∷◌, All,
  ltb, ltb→lt, All-keep, keep-All, ◌++◌, ◌≡◌, ap, sym, ◌∙◌, arith, refl,
}
use revenue_sentinel.Cost.Governor.{
  Budget, BudgetRefusal, is_applicable, applicable_budgets, first_refusal, refusal_of,
  check_affordable,
}

-- A budget can take the amount, where it is one that stops a call.
abbrev pub Absorbs : ℕ → Budget → Type 0
Absorbs amount budget = budget.hard_stop ≡ true → budget.consumed + amount ≤ budget.limit

abbrev pub AbsorbsIf : String → String → ℕ → Budget → Type 0
AbsorbsIf run_id incident_ref amount budget =
    is_applicable run_id incident_ref budget ≡ true → Absorbs amount budget

first_refusal-none :
    (budgets : List Budget) (amount : ℕ)
    → first_refusal budgets amount ≡ none
    → All (Absorbs amount) budgets
unfolding first_refusal
first_refusal-none [] amount h = tt
first_refusal-none (b ∷ bs) amount h = (ground arith, first_refusal-none bs amount (ground arith))

first_refusal-Absorbs :
    (budgets : List Budget) (amount : ℕ)
    → All (Absorbs amount) budgets
    → first_refusal budgets amount ≡ none
unfolding first_refusal
first_refusal-Absorbs [] amount h = refl
first_refusal-Absorbs (b ∷ bs) amount h = ground (arith, h.0, first_refusal-Absorbs bs amount h.1)

-- A call may proceed exactly when each applicable budget that stops calls can take the amount.
pub check_affordable-Absorbs :
    (run_id incident_ref : String) (budgets : List Budget) (amount : ℕ)
    → check_affordable run_id incident_ref budgets amount ≡ none
      ↔ All (AbsorbsIf run_id incident_ref amount) budgets
unfolding check_affordable
check_affordable-Absorbs r i budgets amount = (
  λ h.
      All-keep (Absorbs amount) (is_applicable r i) budgets
        (first_refusal-none (applicable_budgets r i budgets) amount h),
  λ h.
      first_refusal-Absorbs (applicable_budgets r i budgets) amount
        (keep-All (Absorbs amount) (is_applicable r i) budgets h),
)

-- A list split at the first budget that stops calls and cannot take the amount.
unfoldable pub RefusedBy : List Budget → ℕ → BudgetRefusal → Type 0
RefusedBy budgets amount refusal =
    (earlier : List Budget) × (budget : Budget) × (later : List Budget) × (budgets
      ≡ earlier ++ (budget ∷ later))
    × All (Absorbs amount) earlier
    × (budget.hard_stop ≡ true)
    × (budget.limit < budget.consumed + amount)
    × (refusal ≡ refusal_of budget amount)

refused_later :
    (b : Budget) (bs : List Budget) (amount : ℕ) (refusal : BudgetRefusal)
    → Absorbs amount b
    → RefusedBy bs amount refusal
    → RefusedBy (b ∷ bs) amount refusal
unfolding RefusedBy
refused_later b bs amount refusal takes (earlier, budget, later, split, all, hard, over, named) =
    (b ∷ earlier, budget, later, ap (λ xs. b ∷ xs) split, (takes, all), hard, over, named)

refused_here :
    (b : Budget) (bs : List Budget) (amount : ℕ)
    → b.hard_stop ≡ true
    → b.limit < b.consumed + amount
    → RefusedBy (b ∷ bs) amount (refusal_of b amount)
unfolding RefusedBy
refused_here b bs amount hard over = ([], b, bs, refl, tt, hard, over, refl)

first_refusal-cons :
    (b : Budget) (bs : List Budget) (amount : ℕ)
    → (Absorbs amount b × (first_refusal (b ∷ bs) amount ≡ first_refusal bs amount))
      ⊎ ((b.hard_stop ≡ true)
          × (b.limit < b.consumed + amount)
          × (first_refusal (b ∷ bs) amount ≡ some (refusal_of b amount)))
unfolding first_refusal
first_refusal-cons b bs amount = elim (Bool-cases (ltb b.limit (b.consumed + amount))) [
  | inr under ↦ inl (ground arith, rw under refl)
  | inl over ↦ elim (Bool-cases b.hard_stop) [
    | inl hard ↦ inr (hard, ltb→lt b.limit (b.consumed + amount) over, rw over (rw hard refl))
    | inr soft ↦ inl (ground arith, rw over (rw soft refl))
  ]
]

first_refusal-empty :
    (amount : ℕ) (refusal : BudgetRefusal)
    → first_refusal [] amount ≡ some refusal
    → RefusedBy [] amount refusal
unfolding first_refusal
first_refusal-empty amount refusal h = cc

some-injective : {r s : BudgetRefusal} → some r ≡ some s → r ≡ s
some-injective h = cc

first_refusal-some :
    (budgets : List Budget) (amount : ℕ) (refusal : BudgetRefusal)
    → first_refusal budgets amount ≡ some refusal
    → RefusedBy budgets amount refusal
first_refusal-some [] amount refusal h = first_refusal-empty amount refusal h
first_refusal-some (b ∷ bs) amount refusal h = elim (first_refusal-cons b bs amount) [
  | inl (takes, same) ↦
      refused_later b bs amount refusal takes (first_refusal-some bs amount refusal (sym same ∙ h))
  | inr (hard, over, here) ↦
      subst (RefusedBy (b ∷ bs) amount) (some-injective (sym here ∙ h))
        (refused_here b bs amount hard over)
]

-- A refusal names the first applicable budget that stops calls and cannot take the amount.
pub check_affordable-RefusedBy :
    (run_id incident_ref : String) (budgets : List Budget) (amount : ℕ) (refusal : BudgetRefusal)
    → check_affordable run_id incident_ref budgets amount ≡ some refusal
    → RefusedBy (applicable_budgets run_id incident_ref budgets) amount refusal
unfolding check_affordable
check_affordable-RefusedBy r i budgets amount refusal h =
    first_refusal-some (applicable_budgets r i budgets) amount refusal h
