-- ===== src/Mcp/Dispatcher.antt =====
-- src/revenue_sentinel/mcp/gate.py, dispatcher.py and ledger.py: one tool call. The registry's entries
-- are parameters, as their schemas and handlers are those of the adapters. The texts of a failure, the
-- digests, the trace identifiers and the duration of a row are left out.
pub mod Worlds
pub mod Gate
use revenue_sentinel.Base.{
  ℕ, Bool, true, false, String, str_eq, Option, none, some, List, [], ◌∷◌, ◌++◌, Result, ok, err,
  ◌>>=◌, if◌then◌else◌,
}
use revenue_sentinel.Json.{Object}
use revenue_sentinel.Domain.{
  RiskTier, PolicyDecision, allow, require_approval, deny, ToolCallStatus, success, error, denied,
}
use revenue_sentinel.Governance.Engine.{PolicyOutcome}
use revenue_sentinel.Cost.Ledger.{Books, record_tool_cost}
use revenue_sentinel.Mcp.Errors.{
  ToolErrorCode, invalid_arguments, not_found, policy_denied, policy_engine_unavailable,
  approval_required, rate_limited, budget_exceeded, adapter_error,
}

-- `PolicyEngine.authorize`, or nothing where it raises.
abbrev pub PolicyEngine : Type 0
PolicyEngine = String → RiskTier → Object → Option PolicyOutcome

-- What the gate raises: a `ToolFailureError`, or what an engine raises.
pub data Stopped : Type 0 where
  tool_failure : ToolErrorCode → Stopped
  other_exception : Stopped

-- The tail of `authorize_write`, by the decision.
abbrev pub by_decision : PolicyOutcome → PolicyDecision → Result Stopped PolicyOutcome
by_decision outcome allow = ok outcome
by_decision outcome require_approval = err (tool_failure approval_required)
by_decision outcome deny = err (tool_failure policy_denied)

abbrev pub by_outcome : Option PolicyOutcome → Result Stopped PolicyOutcome
by_outcome none = err other_exception
by_outcome (some outcome) = by_decision outcome outcome.decision

unfoldable pub authorize_write :
    String → RiskTier → Object → Option PolicyEngine → Result Stopped PolicyOutcome
authorize_write tool tier arguments none = err (tool_failure policy_engine_unavailable)
authorize_write tool tier arguments (some engine) = by_outcome (engine tool tier arguments)

-- `_INJECTED_TO_CODE.get(kind, ADAPTER_ERROR)`.
unfoldable pub injected_code : String → ToolErrorCode
injected_code kind =
    if str_eq kind "RATE_LIMITED"
    then rate_limited
    else if str_eq kind "BUDGET_EXCEEDED"
    then budget_exceeded
    else adapter_error

-- How a handler ends: a payload, an `InjectedFailureError`, a `ToolFailureError`, or any other exception,
-- which leaves `dispatch`.
pub data Handled : Type 0 where
  payload : Object → Handled
  injected : String → Handled
  failed : ToolErrorCode → Handled
  escaped : Handled

-- `success_envelope` and `error_envelope`, by what tells them apart.
pub data Envelope : Type 0 where
  success_envelope : String → Object → Envelope
  error_envelope : String → ToolErrorCode → Envelope

-- The status of a `ToolFailureError`: nothing was executed after these three.
unfoldable pub failure_status : ToolErrorCode → ToolCallStatus
failure_status policy_denied = denied
failure_status approval_required = denied
failure_status policy_engine_unavailable = denied
failure_status _ = error

pub record ToolCall : Type 0 where
  pub id : ℕ
  pub run_id : String
  pub node_name : String
  pub tool_name : String
  pub args : Object
  pub status : ToolCallStatus

-- The world behind the handlers, and the tables that a call writes.
pub record Gateway (W : Type 0) : Type 0 where
  pub world : W
  pub tool_calls : List ToolCall
  pub books : Books

-- An entry of the registry: `validate` is its schema's check.
pub record ToolSpec (W : Type 0) : Type 0 where
  pub tier : RiskTier
  pub is_write : Bool
  pub validate : Object → Bool
  pub handler : Object → W → Handled × W

pub record ToolContext : Type 0 where
  pub run_id : Option String
  pub node_name : String
  pub policy : Option PolicyEngine
  pub occurred_at : ℕ

-- What the `try` block gives: the envelope and the status, or nothing where an exception leaves it, and
-- the world.
abbrev pub Attempt : Type 0 → Type 0
Attempt W = Option (Envelope × ToolCallStatus) × W

module _ {W : Type 0} where
  abbrev pub refuse : String → ToolErrorCode → W → Attempt W
  refuse tool code world = (some (error_envelope tool code, failure_status code), world)

  -- The envelope of a handler's end.
  abbrev pub handled : String → Handled × W → Attempt W
  handled tool (payload data_, world) = (some (success_envelope tool data_, success), world)
  handled tool (injected kind, world) =
      (some (error_envelope tool (injected_code kind), error), world)
  handled tool (failed code, world) = refuse tool code world
  handled tool (escaped, world) = (none, world)

  abbrev pub stopped : String → Stopped → W → Attempt W
  stopped tool (tool_failure code) world = refuse tool code world
  stopped tool other_exception world = (none, world)

  abbrev pub cleared : String → Object → ToolSpec W → W → Result Stopped PolicyOutcome → Attempt W
  cleared tool arguments spec world (err raised) = stopped tool raised world
  cleared tool arguments spec world (ok outcome) = handled tool (spec.handler arguments world)

  -- The `try` block of `dispatch`.
  unfoldable pub attempt : String → Object → ToolSpec W → ToolContext → W → Attempt W
  attempt tool arguments spec context world =
      if spec.validate arguments
      then (if spec.is_write
          then cleared tool arguments spec world
              (authorize_write tool spec.tier arguments context.policy)
          else handled tool (spec.handler arguments world))
      else refuse tool invalid_arguments world

  -- The row and its entry, for a call within a run.
  abbrev pub recorded :
      Option String → ToolContext → ℕ → ℕ → String → Object → ToolCallStatus → Gateway W → Gateway W
  recorded none context call_id entry_id tool arguments status gateway = gateway
  recorded (some run_id) context call_id entry_id tool arguments status gateway = record gateway {
    tool_calls =
        gateway.tool_calls
        ++ record {
          id = call_id;
          run_id = run_id;
          node_name = context.node_name;
          tool_name = tool;
          args = arguments;
          status = status;
        }
          ∷ [];
    books = record_tool_cost entry_id run_id call_id context.occurred_at gateway.books;
  }

  -- What follows the `try` block; nothing does where an exception left it.
  abbrev pub concluded :
      ToolContext
      → ℕ
      → ℕ
      → String
      → Object
      → Option (Envelope × ToolCallStatus)
      → Gateway W
      → Option Envelope × Gateway W
  concluded context call_id entry_id tool arguments none gateway = (none, gateway)
  concluded context call_id entry_id tool arguments (some (envelope, status)) gateway = (
    some envelope,
    recorded context.run_id context call_id entry_id tool arguments status gateway,
  )

  abbrev pub dispatch_spec :
      ToolContext
      → ℕ
      → ℕ
      → String
      → Object
      → Option (ToolSpec W)
      → Gateway W
      → Option Envelope × Gateway W
  dispatch_spec context call_id entry_id tool arguments none gateway =
      (some (error_envelope tool not_found), gateway)
  dispatch_spec context call_id entry_id tool arguments (some spec) gateway =
      let (told, world) = attempt tool arguments spec context gateway.world in
      concluded context call_id entry_id tool arguments told (record gateway { world = world })

  -- `dispatch`, with the ids that the row and the entry get; nothing is returned where an exception
  -- other than the typed ones leaves the call.
  unfoldable pub dispatch :
      (String → Option (ToolSpec W))
      → ToolContext
      → ℕ
      → ℕ
      → String
      → Object
      → Gateway W
      → Option Envelope × Gateway W
  dispatch get_spec context call_id entry_id tool arguments gateway =
      dispatch_spec context call_id entry_id tool arguments (get_spec tool) gateway
