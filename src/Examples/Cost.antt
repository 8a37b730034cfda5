-- ===== src/Examples/Cost.antt =====
-- The cost accounting at concrete inputs.
use revenue_sentinel.Base.{
  ℕ, ◌+◌, ◌≤◌, ◌<◌, true, String, Option, none, some, List, [], ◌∷◌, ◌++◌, map, All, Result, ok,
  err, ◌≡◌, ◌↔◌, ◌⊎◌, refl, arith,
}
use revenue_sentinel.Base.Int.{pos}
use revenue_sentinel.Domain.{global, incident}
use revenue_sentinel.Cost.Pricing.{ModelPrice, price_for, cost_of, worst_case_cost}
use revenue_sentinel.Cost.Pricing.Worst.{usage_of, cost_of-covered, cache_write-exceeds}
use revenue_sentinel.Cost.Governor.{
  Budget, check_affordable, overshoot_bound, refusal_of, first_refusal,
}
use revenue_sentinel.Cost.Governor.Admission.{AbsorbsIf, check_affordable-Absorbs}
use revenue_sentinel.Cost.Governor.Races.{Slot, Move, Moves, Within}
use revenue_sentinel.Cost.Governor.Overshoot.{InLimit, overshoot_bound-Moves}
use revenue_sentinel.Cost.Ledger.{CostEntry, CostType, Books, consume}
use revenue_sentinel.Cost.Ledger.Reconciliation.{
  settled, incidents, write_all, write_all-settled, write_all-incidents,
}
use revenue_sentinel.Cost.Client.{
  LlmRequest, Ledgers, GateError, refused, answered, admit, complete_structured,
}
use revenue_sentinel.Cost.Client.Gate.{IsAdmitted, complete_structured-IsAdmitted}

-- The price of Opus.
abbrev opus : ModelPrice
opus = record {
  input = 500;
  output = 2500;
  cache_read_multiplier = 10;
  cache_write_multiplier = 125;
}

opus_priced : price_for "claude-opus-5" ≡ ok opus
unfolding price_for
opus_priced = refl

cost_of-covered_example :
    (actual : ℕ) × (reserved : ℕ) × (cost_of "claude-opus-5" (usage_of 900 400 500 0) ≡ ok actual)
    × (worst_case_cost "claude-opus-5" (pos 1000) (pos 2000) ≡ ok reserved)
    × (actual ≤ reserved)
cost_of-covered_example =
    cost_of-covered "claude-opus-5" opus 900 400 500 0 1000 2000 opus_priced (omega arith)
      (omega arith)

cache_write-exceeds_example :
    (actual : ℕ) × (reserved : ℕ) × (cost_of "claude-opus-5" (usage_of 0 2000 0 1000) ≡ ok actual)
    × (worst_case_cost "claude-opus-5" (pos 1000) (pos 2000) ≡ ok reserved)
    × (reserved < actual)
cache_write-exceeds_example =
    cache_write-exceeds "claude-opus-5" opus 1000 2000 opus_priced (omega arith)

abbrev month : Budget
month = record { scope = global; scope_ref = none; limit = 100; consumed = 40; hard_stop = true }

abbrev case_budget : Budget
case_budget = record {
  scope = incident;
  scope_ref = some "INC-001";
  limit = 50;
  consumed = 0;
  hard_stop = true;
}

abbrev budgets : List Budget
budgets = case_budget ∷ month ∷ []

check_affordable-Absorbs_example :
    check_affordable "run" "INC-001" budgets 50 ≡ none ↔ All (AbsorbsIf "run" "INC-001" 50) budgets
check_affordable-Absorbs_example = check_affordable-Absorbs "run" "INC-001" budgets 50

too_much : check_affordable "run" "INC-002" budgets 70 ≡ some (refusal_of month 70)
unfolding check_affordable first_refusal
too_much = refl

abbrev entry : String → ℕ → CostEntry
entry run_id amount = record {
  id = 1;
  run_id = run_id;
  model_call_id = some 2;
  tool_call_id = none;
  cost_type = CostType.model_inference;
  amount = amount;
  pricing_version = "pricing/2026-08";
  recorded_at = 100;
}

abbrev entries : List CostEntry
entries = entry "run" 20 ∷ entry "other" 0 ∷ entry "other" 30 ∷ []

abbrev books : Books
books = record { entries = []; budgets = budgets }

write_all-settled_example :
    ((write_all entries books).budgets ≡ map (settled entries) budgets)
    × ((write_all entries books).entries ≡ books.entries ++ entries)
write_all-settled_example = write_all-settled entries books

write_all-incidents_example : incidents (write_all entries books).budgets ≡ incidents budgets
write_all-incidents_example = write_all-incidents entries books

-- Two runs that share the month's budget, and race for the last 60.
abbrev slot : String → Option ℕ → Slot
slot run_id reserved = record { run_id = run_id; incident_ref = "INC-002"; reserved = reserved }

abbrev month_only : List Budget
month_only = month ∷ []

fits : (run_id : String) → check_affordable run_id "INC-002" month_only 60 ≡ none
unfolding check_affordable first_refusal
fits run_id = refl

both_admitted :
    Moves 60 month_only
      (slot "a" none ∷ slot "b" none ∷ [])
      month_only
      (slot "a" (some 60) ∷ slot "b" (some 60) ∷ [])
both_admitted =
    Moves.then_move
      (Moves.then_move (Moves.done month_only (slot "a" none ∷ slot "b" none ∷ [])) (
        Move.admit month_only [] (slot "b" none ∷ []) (slot "a" none) 60 (omega arith) refl
          (fits "a")))
      (Move.admit month_only (slot "a" (some 60) ∷ []) [] (slot "b" none) 60 (omega arith) refl
        (fits "b"))

both_settled :
    Moves 60 month_only
      (slot "a" none ∷ slot "b" none ∷ [])
      (consume "b" 60 (consume "a" 60 month_only))
      (slot "a" none ∷ slot "b" none ∷ [])
both_settled =
    Moves.then_move
      (Moves.then_move both_admitted (
        Move.settle month_only [] (slot "b" (some 60) ∷ []) (slot "a" (some 60)) 60 60 refl
          (omega arith)))
      (Move.settle (consume "a" 60 month_only) (slot "a" none ∷ []) [] (slot "b" (some 60)) 60 60
        refl (omega arith))

bound_known : overshoot_bound (pos 2) (pos 60) ≡ ok 60
unfolding overshoot_bound
bound_known = refl

month-InLimit : All InLimit month_only
month-InLimit = (λ is_global hard. omega arith, tt)

overshoot_bound-Moves_example : All (Within 60 0) (consume "b" 60 (consume "a" 60 month_only))
overshoot_bound-Moves_example =
    overshoot_bound-Moves 60 60 month_only (consume "b" 60 (consume "a" 60 month_only))
      (slot "a" none ∷ slot "b" none ∷ []) (slot "a" none ∷ slot "b" none ∷ []) (refl, (refl, tt))
      month-InLimit bound_known both_settled

abbrev request : LlmRequest
request = record {
  node_name = "collect_evidence";
  system_prompt = "Cite.";
  user_content = "Evidence";
  schema_text = "{}";
}

abbrev ledgers : Ledgers
ledgers = record { models = []; tools = []; budgets = budgets }

-- A client that counts its calls.
abbrev counting : LlmRequest → ℕ → Result String String × ℕ
counting asked calls = (ok asked.node_name, calls + 1)

complete_structured-IsAdmitted_example :
    ((e : GateError) × (admit "run" "INC-001" request ledgers ≡ err e)
      × (complete_structured counting "run" "INC-001" request ledgers 0 ≡ (refused e, 0)))
    ⊎ ((reservation : ℕ) × IsAdmitted "run" "INC-001" request ledgers reservation
        × (complete_structured counting "run" "INC-001" request ledgers 0
            ≡ (answered (ok "collect_evidence"), 1)))
complete_structured-IsAdmitted_example =
    complete_structured-IsAdmitted counting "run" "INC-001" request ledgers 0
