-- ===== src/Examples/Gateway.antt =====
-- The tool gateway at a concrete input: an email draft, with the deterministic engine bound.
use revenue_sentinel.Base.{
  ℕ, suc, true, String, str_eq, Option, none, some, [], refl, if◌then◌else◌,
}
use revenue_sentinel.Json.{Object, Json}
use revenue_sentinel.Domain.{customer_facing_or_material}
use revenue_sentinel.Governance.Engine.{authorize}
use revenue_sentinel.Mcp.Dispatcher.{Handled, Gateway, ToolSpec, ToolContext, dispatch}
use revenue_sentinel.Mcp.Dispatcher.Worlds.{Reached, dispatch-Reached}
use revenue_sentinel.Mcp.Dispatcher.Gate.{Recorded, dispatch-Recorded}

-- A handler that counts its runs.
abbrev draft_tool : ToolSpec ℕ
draft_tool = record {
  tier = customer_facing_or_material;
  is_write = true;
  validate = λ arguments. true;
  handler = λ arguments runs. (Handled.payload Object.empty, suc runs);
}

abbrev registry : String → Option (ToolSpec ℕ)
registry tool = if str_eq tool "messaging_create_email_draft" then some draft_tool else none

abbrev context : ToolContext
context = record {
  run_id = some "run";
  node_name = "execute_actions";
  policy = some (λ tool tier arguments. some (authorize tool tier arguments));
  occurred_at = 100;
}

abbrev gateway : Gateway ℕ
gateway = record { world = 0; tool_calls = []; books = record { entries = []; budgets = [] } }

abbrev arguments : Object
arguments = Object.field "account_ref" (Json.text "ACC-001") Object.empty

dispatch-Reached_example :
    Reached
      (some draft_tool)
      context
      "messaging_create_email_draft"
      arguments
      0
      (dispatch registry context 1 2 "messaging_create_email_draft" arguments gateway).1.world
dispatch-Reached_example =
    dispatch-Reached registry context 1 2 "messaging_create_email_draft" arguments gateway

dispatch-Recorded_example :
    Recorded "run" context "messaging_create_email_draft" arguments draft_tool gateway
      (dispatch registry context 1 2 "messaging_create_email_draft" arguments gateway)
dispatch-Recorded_example =
    dispatch-Recorded registry context 1 2 "messaging_create_email_draft" arguments gateway "run"
      draft_tool refl refl
