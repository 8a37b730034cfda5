-- ===== src/Cost/Client.antt =====
-- src/revenue_sentinel/cost/client.py, routing.py and estimation.py: the budget gate in front of the
-- model client. The client behind it, and the text of a request's JSON Schema, are not this code's.
pub mod Gate
use Prim.Native.String.{count as len}
use revenue_sentinel.Base.{
  ℕ, ◌+◌, ◌-◌, ◌*◌, ◌/◌, Bool, String, str_eq, List, Result, ok, err, ◌>>=◌, if◌then◌else◌, ◌==◌,
}
use revenue_sentinel.Base.Int.{pos}
use revenue_sentinel.Cost.Pricing.{PricingError, worst_case_cost}
use revenue_sentinel.Cost.Governor.{Budget, BudgetExceeded, check_call_ceilings, reserve_or_raise}

pub record Route : Type 0 where
  pub model_id : String
  pub effort : String
  pub max_output_tokens : ℕ

abbrev route : String → String → ℕ → Route
route model_id effort max_output_tokens = record {
  model_id = model_id;
  effort = effort;
  max_output_tokens = max_output_tokens;
}

-- What a call through the gate raises before the client is called.
pub data GateError : Type 0 where
  unrouted : String → GateError
  exceeded : BudgetExceeded → GateError
  unpriced : PricingError → GateError

unfoldable pub route_for : String → Result GateError Route
route_for node_name =
    if str_eq node_name "plan_investigation"
    then ok (route "claude-opus-5" "high" 2000)
    else if str_eq node_name "collect_evidence"
    then ok (route "claude-opus-5" "medium" 1000)
    else if str_eq node_name "generate_hypotheses"
    then ok (route "claude-opus-5" "high" 3000)
    else if str_eq node_name "draft_interventions"
    then ok (route "claude-opus-5" "high" 3000)
    else err (unrouted node_name)

abbrev pub chars_per_token : ℕ
chars_per_token = 3

abbrev pub message_overhead_tokens : ℕ
message_overhead_tokens = 16

-- `-(-n // 3)`, the ceiling of n / 3.
abbrev pub ceil_div : ℕ → ℕ → ℕ
ceil_div n d = (n + (d - 1)) / d

unfoldable pub estimate_tokens : String → ℕ
estimate_tokens text = if len text == 0 then 0 else ceil_div (len text) chars_per_token

-- `schema_text` is `json.dumps(output_schema.model_json_schema(), sort_keys=True)`.
pub record LlmRequest : Type 0 where
  pub node_name : String
  pub system_prompt : String
  pub user_content : String
  pub schema_text : String

unfoldable pub estimate_input_tokens : LlmRequest → ℕ
estimate_input_tokens request =
    estimate_tokens request.system_prompt
    + estimate_tokens request.user_content
    + estimate_tokens request.schema_text
    + message_overhead_tokens

-- The tables that the gate reads: `model_calls` and `tool_calls` by the run of each row, and `budgets`.
pub record Ledgers : Type 0 where
  pub models : List String
  pub tools : List String
  pub budgets : List Budget

-- An error of a part, as one of the gate's.
abbrev pub raised {ℓ} : {E A : Type ℓ} → (E → GateError) → Result E A → Result GateError A
raised wrap (ok a) = ok a
raised wrap (err e) = err (wrap e)

-- `complete_structured` up to the call of the client: the amount reserved.
unfoldable pub admit : String → String → LlmRequest → Ledgers → Result GateError ℕ
admit run_id incident_ref request ledgers = do
  route ← route_for request.node_name
  checked ← raised exceeded (check_call_ceilings run_id ledgers.models ledgers.tools)
  reservation ← raised unpriced (
      worst_case_cost route.model_id (pos (estimate_input_tokens request))
        (pos route.max_output_tokens))
  admitted ← raised exceeded (reserve_or_raise run_id incident_ref ledgers.budgets reservation)
  ok reservation

module _ {W Response Error : Type 0} (inner : LlmRequest → W → Result Error Response × W) where
  -- What a call gives: the gate's error, or the client's answer.
  pub data Outcome : Type 0 where
    refused : GateError → Outcome
    answered : Result Error Response → Outcome

  abbrev call : LlmRequest → W → Result GateError ℕ → Outcome × W
  call request world (err e) = (refused e, world)
  call request world (ok reservation) =
      let (answer, after) = inner request world in (answered answer, after)

  unfoldable pub complete_structured : String → String → LlmRequest → Ledgers → W → Outcome × W
  complete_structured run_id incident_ref request ledgers world =
      call request world (admit run_id incident_ref request ledgers)
