-- ===== src/Cost/Governor.antt =====
-- src/revenue_sentinel/cost/governor.py: whether a call may proceed. A UUID is its text. The warning
-- of a soft breach is a log line and is not modelled.
pub mod Admission
pub mod Races
pub mod Capped
pub mod Overshoot
use revenue_sentinel.Base.{
  ℕ, zero, suc, ◌+◌, ◌-◌, ◌*◌, Bool, true, false, ◌&&◌, ◌||◌, not, String, str_eq, Option, none,
  some, List, [], ◌∷◌, ltb, leb, length, keep, Result, ok, err, ◌>>◌, ◌>>=◌, raise_if,
  if◌then◌else◌,
}
use revenue_sentinel.Base.Int.{ℤ, pos, negsuc, is_negative, pos_part}
use revenue_sentinel.Domain.{BudgetScope, global, incident, run}

-- One row of `budgets`, whose amounts a check constraint keeps from being negative.
pub record Budget : Type 0 where
  pub scope : BudgetScope
  pub scope_ref : Option String
  pub limit : ℕ
  pub consumed : ℕ
  pub hard_stop : Bool

pub record BudgetRefusal : Type 0 where
  pub scope : BudgetScope
  pub scope_ref : Option String
  pub limit : ℕ
  pub consumed : ℕ
  pub requested : ℕ

-- `Budget.scope_ref == text`: a null is equal to nothing.
abbrev pub refers_to : Option String → String → Bool
refers_to none text = false
refers_to (some ref) text = str_eq ref text

-- The `WHERE` clause of `_applicable_budgets`, on the scope.
abbrev pub in_scope : String → String → BudgetScope → Option String → Bool
in_scope run_id incident_ref run scope_ref = refers_to scope_ref run_id
in_scope run_id incident_ref incident scope_ref = refers_to scope_ref incident_ref
in_scope run_id incident_ref global scope_ref = true

abbrev pub is_applicable : String → String → Budget → Bool
is_applicable run_id incident_ref budget =
    in_scope run_id incident_ref budget.scope budget.scope_ref

abbrev pub applicable_budgets : String → String → List Budget → List Budget
applicable_budgets run_id incident_ref budgets = keep (is_applicable run_id incident_ref) budgets

-- `BudgetRefusal(...)` as the loop builds it.
abbrev pub refusal_of : Budget → ℕ → BudgetRefusal
refusal_of budget amount = record {
  scope = budget.scope;
  scope_ref = budget.scope_ref;
  limit = budget.limit;
  consumed = budget.consumed;
  requested = amount;
}

-- The loop of `check_affordable`: a soft budget that is exceeded does not stop it.
unfoldable pub first_refusal : List Budget → ℕ → Option BudgetRefusal
first_refusal [] amount = none
first_refusal (budget ∷ budgets) amount =
    let later = first_refusal budgets amount in
    if ltb budget.limit (budget.consumed + amount)
    then (if not budget.hard_stop then later else some (refusal_of budget amount))
    else later

unfoldable pub check_affordable : String → String → List Budget → ℕ → Option BudgetRefusal
check_affordable run_id incident_ref budgets amount =
    first_refusal (applicable_budgets run_id incident_ref budgets) amount

-- The `ToolFailureError`s raised here, all of code `BUDGET_EXCEEDED`.
pub data BudgetExceeded : Type 0 where
  over_budget : BudgetRefusal → BudgetExceeded
  model_calls : ℕ → BudgetExceeded
  tool_calls : ℕ → BudgetExceeded

abbrev pub raise_refusal : Option BudgetRefusal → Result BudgetExceeded (Unit {0})
raise_refusal none = ok tt
raise_refusal (some refusal) = err (over_budget refusal)

unfoldable pub reserve_or_raise :
    String → String → List Budget → ℕ → Result BudgetExceeded (Unit {0})
reserve_or_raise run_id incident_ref budgets amount =
    raise_refusal (check_affordable run_id incident_ref budgets amount)

abbrev pub max_model_calls_per_run : ℕ
max_model_calls_per_run = 12

abbrev pub max_tool_calls_per_run : ℕ
max_tool_calls_per_run = 30

-- `_count`: the rows of a table, here the `run_id` of each, that belong to the run.
abbrev pub count : String → List String → ℕ
count run_id table = length (keep (str_eq run_id) table)

-- `check_call_ceilings`, on the tables `model_calls` and `tool_calls`.
unfoldable pub check_call_ceilings :
    String → List String → List String → Result BudgetExceeded (Unit {0})
check_call_ceilings run_id models tools =
    raise_if (leb max_model_calls_per_run (count run_id models)) (model_calls (count run_id models))
    >> raise_if (leb max_tool_calls_per_run (count run_id tools)) (tool_calls (count run_id tools))

-- The `ValueError`s of `overshoot_bound`.
pub data OvershootError : Type 0 where
  too_few_runs : ℤ → OvershootError
  negative_reservation : OvershootError

-- `concurrent_runs < 1`.
abbrev pub below_one : ℤ → Bool
below_one (pos zero) = true
below_one (pos (suc n)) = false
below_one (negsuc n) = true

-- A reservation is a whole number of microdollars, so that its `quantize` changes nothing.
unfoldable pub overshoot_bound : ℤ → ℤ → Result OvershootError ℕ
overshoot_bound concurrent_runs reservation =
    raise_if (below_one concurrent_runs) (too_few_runs concurrent_runs)
    >> (raise_if (is_negative reservation) negative_reservation
        >> ok ((pos_part concurrent_runs - 1) * pos_part reservation))
