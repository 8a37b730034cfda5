-- ===== src/Mcp/Dispatcher/Gate.antt =====
-- What is recorded of a tool call, in src/revenue_sentinel/mcp/dispatcher.py.
use revenue_sentinel.Base.{
  ℕ, Bool, true, false, String, str_eq, Option, none, some, [], ◌∷◌, ◌++◌, Result, ok, err, ◌≡◌,
  refl, ap, if◌then◌else◌, ◌⊎◌, inl, inr, Bool-cases,
}
use revenue_sentinel.Json.{Object}
use revenue_sentinel.Domain.{
  PolicyDecision, allow, require_approval, deny, ToolCallStatus, success, error, denied,
}
use revenue_sentinel.Governance.Engine.{PolicyOutcome}
use revenue_sentinel.Cost.Ledger.{record_tool_cost, write, consume}
use revenue_sentinel.Mcp.Errors.{
  ToolErrorCode, invalid_arguments, not_found, policy_denied, policy_engine_unavailable,
  approval_required, rate_limited, budget_exceeded, adapter_error,
}
use revenue_sentinel.Mcp.Dispatcher.{
  PolicyEngine, authorize_write, by_decision, by_outcome, Stopped, tool_failure, other_exception,
  Handled, payload, injected, failed, escaped, injected_code, failure_status, Envelope,
  success_envelope, error_envelope, ToolCall, Gateway, ToolSpec, ToolContext, refuse, handled,
  cleared, attempt, concluded, dispatch,
}
use revenue_sentinel.Mcp.Dispatcher.Worlds.{IsCleared, authorize_write-ok}

-- The status that a reader of the ledger may expect beside an envelope: a refusal of the policy, a want of
-- an approval and a want of an engine are denials, and every other code is an error.
pub data Tells : Envelope → ToolCallStatus → Type 0 where
  ran : (tool : String) (data_ : Object) → Tells (success_envelope tool data_) success
  was_denied : (tool : String) → Tells (error_envelope tool policy_denied) denied
  lacks_approval : (tool : String) → Tells (error_envelope tool approval_required) denied
  lacks_engine : (tool : String) → Tells (error_envelope tool policy_engine_unavailable) denied
  misses_arguments : (tool : String) → Tells (error_envelope tool invalid_arguments) error
  misses_target : (tool : String) → Tells (error_envelope tool not_found) error
  is_limited : (tool : String) → Tells (error_envelope tool rate_limited) error
  is_over_budget : (tool : String) → Tells (error_envelope tool budget_exceeded) error
  breaks : (tool : String) → Tells (error_envelope tool adapter_error) error

Tells-failure :
    (tool : String) (code : ToolErrorCode) → Tells (error_envelope tool code) (failure_status code)
unfolding failure_status
Tells-failure tool invalid_arguments = misses_arguments tool
Tells-failure tool not_found = misses_target tool
Tells-failure tool policy_denied = was_denied tool
Tells-failure tool policy_engine_unavailable = lacks_engine tool
Tells-failure tool approval_required = lacks_approval tool
Tells-failure tool rate_limited = is_limited tool
Tells-failure tool budget_exceeded = is_over_budget tool
Tells-failure tool adapter_error = breaks tool

Tells-injected : (tool kind : String) → Tells (error_envelope tool (injected_code kind)) error
unfolding injected_code
Tells-injected tool kind = elim (Bool-cases (str_eq kind "RATE_LIMITED")) [
  | inl limited ↦ rw limited (is_limited tool)
  | inr other ↦ elim (Bool-cases (str_eq kind "BUDGET_EXCEEDED")) [
    | inl over ↦ rw other (rw over (is_over_budget tool))
    | inr neither ↦ rw other (rw neither (breaks tool))
  ]
]

module _ {W : Type 0} where
  -- An exception that is not typed: the engine's own, or the handler's, in a call that is valid and cleared.
  abbrev pub Escapes : ToolContext → String → Object → ToolSpec W → W → Type 0
  Escapes context tool arguments spec world =
      (spec.validate arguments ≡ true)
      × (((spec.is_write ≡ true)
            × (engine : PolicyEngine) × (context.policy ≡ some engine)
            × (engine tool spec.tier arguments ≡ none))
          ⊎ (IsCleared context tool arguments spec × ((spec.handler arguments world).0 ≡ escaped)))

  -- The `try` block ends with an envelope and its status, or lets an exception escape.
  abbrev Ended :
      ToolContext → String → Object → ToolSpec W → W → Option (Envelope × ToolCallStatus) → Type 0
  Ended context tool arguments spec world none = Escapes context tool arguments spec world
  Ended context tool arguments spec world (some (envelope, status)) = Tells envelope status

  module _ (context : ToolContext) (tool : String) (arguments : Object) (spec : ToolSpec W)
      (world : W) (valid : spec.validate arguments ≡ true) where
    handled-Ended :
        (end : Handled × W)
        → IsCleared context tool arguments spec
        → spec.handler arguments world ≡ end
        → Ended context tool arguments spec world (handled tool end).0
    handled-Ended (payload data_, after) clear h = ran tool data_
    handled-Ended (injected kind, after) clear h = Tells-injected tool kind
    handled-Ended (failed code, after) clear h = Tells-failure tool code
    handled-Ended (escaped, after) clear h = (valid, inr (clear, ap (λ end. end.0) h))

    decided-Ended :
        (outcome : PolicyOutcome) (d : PolicyDecision) (raised : Stopped)
        → by_decision outcome d ≡ err raised
        → (code : ToolErrorCode) × (raised ≡ tool_failure code)
    decided-Ended outcome allow raised h = cc
    decided-Ended outcome require_approval (tool_failure code) h = (code, refl)
    decided-Ended outcome require_approval other_exception h = cc
    decided-Ended outcome deny (tool_failure code) h = (code, refl)
    decided-Ended outcome deny other_exception h = cc

    engine_raised :
        (decided : Option PolicyOutcome) → by_outcome decided ≡ err other_exception → decided ≡ none
    engine_raised none h = refl
    engine_raised (some outcome) h =
        let (code, e) = decided-Ended outcome outcome.decision other_exception h in cc e

    raised-Ended :
        (bound : Option PolicyEngine)
        → spec.is_write ≡ true
        → context.policy ≡ bound
        → authorize_write tool spec.tier arguments bound ≡ err other_exception
        → Escapes context tool arguments spec world
    unfolding authorize_write
    raised-Ended none writes e h = cc
    raised-Ended (some engine) writes e h =
        (valid, inl (writes, engine, e, engine_raised (engine tool spec.tier arguments) h))

    cleared-Ended :
        (authorized : Result Stopped PolicyOutcome)
        → spec.is_write ≡ true
        → authorize_write tool spec.tier arguments context.policy ≡ authorized
        → Ended context tool arguments spec world (cleared tool arguments spec world authorized).0
    cleared-Ended (err (tool_failure code)) writes h = Tells-failure tool code
    cleared-Ended (err other_exception) writes h = raised-Ended context.policy writes refl h
    cleared-Ended (ok outcome) writes h =
        handled-Ended (spec.handler arguments world)
          (authorize_write-ok context tool arguments spec context.policy outcome refl h) refl

  branches-Ended :
      (context : ToolContext) (tool : String) (arguments : Object) (spec : ToolSpec W) (world : W)
      (v w : Bool)
      → spec.validate arguments ≡ v
      → spec.is_write ≡ w
      → Ended context tool arguments spec world
          (if v
            then (if w
                then cleared tool arguments spec world
                    (authorize_write tool spec.tier arguments context.policy)
                else handled tool (spec.handler arguments world))
            else refuse tool invalid_arguments world).0
  branches-Ended context tool arguments spec world true true valid h =
      cleared-Ended context tool arguments spec world valid
        (authorize_write tool spec.tier arguments context.policy) h refl
  branches-Ended context tool arguments spec world true false valid h =
      handled-Ended context tool arguments spec world valid (spec.handler arguments world) (inl h)
        refl
  branches-Ended context tool arguments spec world false w valid h =
      Tells-failure tool invalid_arguments

  attempt-Ended :
      (context : ToolContext) (tool : String) (arguments : Object) (spec : ToolSpec W) (world : W)
      → Ended context tool arguments spec world (attempt tool arguments spec context world).0
  unfolding attempt
  attempt-Ended context tool arguments spec world =
      branches-Ended context tool arguments spec world (spec.validate arguments) spec.is_write refl
        refl

  -- What a call of a registered tool within a run records.
  abbrev pub Recorded :
      String
      → ToolContext
      → String
      → Object
      → ToolSpec W
      → Gateway W
      → Option Envelope × Gateway W
      → Type 0
  Recorded run_id context tool arguments spec before (told, after) =
      (after.books.budgets ≡ before.books.budgets)
      × (((envelope : Envelope) × (row : ToolCall) × (told ≡ some envelope)
            × (after.tool_calls ≡ before.tool_calls ++ row ∷ [])
            × (row.run_id ≡ run_id)
            × (row.node_name ≡ context.node_name)
            × (row.tool_name ≡ tool)
            × (row.args ≡ arguments)
            × Tells envelope row.status)
          ⊎ ((told ≡ none)
              × (after.tool_calls ≡ before.tool_calls)
              × (after.books ≡ before.books)
              × Escapes context tool arguments spec before.world))

  concluded-Recorded :
      (context : ToolContext) (call_id entry_id : ℕ) (tool : String) (arguments : Object)
      (spec : ToolSpec W) (gateway : Gateway W) (run_id : String) (after : W)
      (told : Option (Envelope × ToolCallStatus))
      → context.run_id ≡ some run_id
      → Ended context tool arguments spec gateway.world told
      → Recorded run_id context tool arguments spec gateway (
          concluded context call_id entry_id tool arguments told (record gateway { world = after }))
  unfolding record_tool_cost write consume
  concluded-Recorded context call_id entry_id tool arguments spec gateway run_id after none in_run
        e =
      (refl, inr (refl, refl, refl, e))
  concluded-Recorded context call_id entry_id tool arguments spec gateway run_id after
        (some (envelope, status)) in_run e =
      rw in_run (refl, inl (envelope, _, refl, refl, refl, refl, refl, refl, e))

  -- A call of a registered tool within a run charges no budget. It returns an envelope and writes one row
  -- of the call with the status that the envelope tells, also when it is refused or fails; or an
  -- exception that is not typed leaves the engine, or the handler of a valid and cleared call, and then
  -- there is no row.
  pub dispatch-Recorded :
      (get_spec : String → Option (ToolSpec W)) (context : ToolContext) (call_id entry_id : ℕ)
      (tool : String) (arguments : Object) (gateway : Gateway W) (run_id : String)
      (spec : ToolSpec W)
      → context.run_id ≡ some run_id
      → get_spec tool ≡ some spec
      → Recorded run_id context tool arguments spec gateway
          (dispatch get_spec context call_id entry_id tool arguments gateway)
  unfolding dispatch
  dispatch-Recorded get_spec context call_id entry_id tool arguments gateway run_id spec in_run
        found =
      let out = attempt tool arguments spec context gateway.world in
      rw found (
        concluded-Recorded context call_id entry_id tool arguments spec gateway run_id out.1 out.0
          in_run (attempt-Ended context tool arguments spec gateway.world))
