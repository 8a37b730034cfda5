-- ===== src/Cost/Ledger.antt =====
-- src/revenue_sentinel/cost/ledger.py: the entry of each call, and the budgets it is charged to.
pub mod Reconciliation
use revenue_sentinel.Base.{
  ℕ, ◌+◌, Bool, true, false, String, str_eq, Option, none, some, List, [], ◌∷◌, ◌++◌, map, ◌==◌,
  keep, Result, ok, err, ◌>>=◌, if◌then◌else◌,
}
use revenue_sentinel.Base.Int.{ℤ}
use revenue_sentinel.Domain.{BudgetScope, global, incident, run}
use revenue_sentinel.Cost.Pricing.{Usage, PricingError, cost_of}
use revenue_sentinel.Cost.Governor.{Budget, refers_to}

pub data CostType : Type 0 where
  model_inference tool_invocation : CostType

pub record CostEntry : Type 0 where
  pub id : ℕ
  pub run_id : String
  pub model_call_id : Option ℕ
  pub tool_call_id : Option ℕ
  pub cost_type : CostType
  pub amount : ℕ
  pub pricing_version : String
  pub recorded_at : ℕ

-- The two tables that the ledger writes.
pub record Books : Type 0 where
  pub entries : List CostEntry
  pub budgets : List Budget

abbrev pub pricing_version : String
pricing_version = "pricing/2026-08"

-- The `WHERE` clause of `_consume`, on the scope: no case for `INCIDENT`.
abbrev pub charged_scope : String → BudgetScope → Option String → Bool
charged_scope run_id run scope_ref = refers_to scope_ref run_id
charged_scope run_id global scope_ref = true
charged_scope run_id incident scope_ref = false

abbrev pub is_charged : String → Budget → Bool
is_charged run_id budget = charged_scope run_id budget.scope budget.scope_ref

abbrev pub charge : String → ℕ → Budget → Budget
charge run_id amount budget =
    if is_charged run_id budget
    then record budget { consumed = budget.consumed + amount }
    else budget

-- `_consume`, on the rows of `budgets`.
unfoldable pub consume : String → ℕ → List Budget → List Budget
consume run_id amount budgets = if amount == 0 then budgets else map (charge run_id amount) budgets

-- `_write`: the entry, and the charge.
unfoldable pub write : CostEntry → Books → Books
write entry books = record {
  entries = books.entries ++ (entry ∷ []);
  budgets = consume entry.run_id entry.amount books.budgets;
}

-- What `record_model_cost` reads of a `ModelCall`.
pub record ModelCall : Type 0 where
  pub id : ℕ
  pub model_id : String
  pub usage : Usage

-- `entry_id` is the value of `new_id()`.
unfoldable pub record_model_cost : ℕ → String → ModelCall → ℕ → Books → Result PricingError Books
record_model_cost entry_id run_id model_call occurred_at books =
    cost_of model_call.model_id model_call.usage >>= λ amount. ok (
      write
        (record {
          id = entry_id;
          run_id = run_id;
          model_call_id = some model_call.id;
          tool_call_id = none;
          cost_type = model_inference;
          amount = amount;
          pricing_version = pricing_version;
          recorded_at = occurred_at;
        })
        books)

unfoldable pub record_tool_cost : ℕ → String → ℕ → ℕ → Books → Books
record_tool_cost entry_id run_id tool_call_id occurred_at books =
    write
      (record {
        id = entry_id;
        run_id = run_id;
        model_call_id = none;
        tool_call_id = some tool_call_id;
        cost_type = tool_invocation;
        amount = 0;
        pricing_version = pricing_version;
        recorded_at = occurred_at;
      })
      books

abbrev pub amounts : List CostEntry → ℕ
amounts [] = 0
amounts (entry ∷ entries) = entry.amount + amounts entries

-- `SELECT COALESCE(SUM(amount_usd), 0) WHERE run_id = ...`.
unfoldable pub run_total : List CostEntry → String → ℕ
run_total entries run_id =
    amounts (keep (λ (entry : CostEntry). str_eq entry.run_id run_id) entries)
