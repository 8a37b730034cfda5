-- ===== src/Mcp/Dispatcher/Worlds.antt =====
-- What a tool call leaves of the world behind the handlers, in src/revenue_sentinel/mcp/dispatcher.py.
use revenue_sentinel.Base.{
  ℕ, Bool, true, false, String, Option, none, some, Result, ok, err, ◌⊎◌, inl, inr, ◌≡◌, refl, ◌∙◌,
  if◌then◌else◌,
}
use revenue_sentinel.Json.{Object}
use revenue_sentinel.Domain.{PolicyDecision, allow, require_approval, deny, ToolCallStatus}
use revenue_sentinel.Governance.Engine.{PolicyOutcome}
use revenue_sentinel.Mcp.Errors.{ToolErrorCode}
use revenue_sentinel.Mcp.Dispatcher.{
  PolicyEngine, authorize_write, by_decision, Handled, payload, injected, failed, escaped, Envelope,
  Gateway, ToolSpec, ToolContext, Stopped, tool_failure, other_exception, by_outcome, stopped,
  concluded, refuse, handled, cleared, attempt, recorded, dispatch_spec, dispatch,
}

-- A tool that only reads, or a write that the bound engine allows.
abbrev pub IsCleared : {W : Type 0} → ToolContext → String → Object → ToolSpec W → Type 0
IsCleared context tool arguments spec =
    (spec.is_write ≡ false)
    ⊎ ((engine : PolicyEngine) × (outcome : PolicyOutcome) × (context.policy ≡ some engine)
        × (engine tool spec.tier arguments ≡ some outcome)
        × (outcome.decision ≡ allow))

by_decision-ok :
    (outcome result : PolicyOutcome) (d : PolicyDecision)
    → by_decision outcome d ≡ ok result
    → d ≡ allow
by_decision-ok outcome result allow h = refl
by_decision-ok outcome result require_approval h = cc
by_decision-ok outcome result deny h = cc

by_outcome-ok :
    (decided : Option PolicyOutcome) (result : PolicyOutcome)
    → by_outcome decided ≡ ok result
    → (outcome : PolicyOutcome) × (decided ≡ some outcome) × (outcome.decision ≡ allow)
by_outcome-ok none result h = cc
by_outcome-ok (some outcome) result h =
    (outcome, refl, by_decision-ok outcome result outcome.decision h)

pub authorize_write-ok :
    {W : Type 0} (context : ToolContext) (tool : String) (arguments : Object) (spec : ToolSpec W)
    (bound : Option PolicyEngine) (result : PolicyOutcome)
    → context.policy ≡ bound
    → authorize_write tool spec.tier arguments bound ≡ ok result
    → IsCleared context tool arguments spec
unfolding authorize_write
authorize_write-ok context tool arguments spec none result e h = cc
authorize_write-ok context tool arguments spec (some engine) result e h =
    let (outcome, decided, allowed) = by_outcome-ok (engine tool spec.tier arguments) result h in
    inr (engine, outcome, e, decided, allowed)

module _ {W : Type 0} where
  -- The world as it was, or as the handler leaves it, for a call that is valid and cleared.
  abbrev Handler : ToolContext → String → Object → ToolSpec W → W → W → Type 0
  Handler context tool arguments spec world after =
      (after ≡ world)
      ⊎ ((spec.validate arguments ≡ true)
          × IsCleared context tool arguments spec
          × (after ≡ (spec.handler arguments world).1))

  handled_world : (tool : String) (end : Handled × W) → (handled tool end).1 ≡ end.1
  handled_world tool (payload data_, world) = refl
  handled_world tool (injected kind, world) = refl
  handled_world tool (failed code, world) = refl
  handled_world tool (escaped, world) = refl

  stopped_world :
      (tool : String) (raised : Stopped) (world : W) → (stopped tool raised world).1 ≡ world
  stopped_world tool (tool_failure code) world = refl
  stopped_world tool other_exception world = refl

  cleared-Handler :
      (context : ToolContext) (tool : String) (arguments : Object) (spec : ToolSpec W) (world : W)
      (authorized : Result Stopped PolicyOutcome)
      → spec.validate arguments ≡ true
      → authorize_write tool spec.tier arguments context.policy ≡ authorized
      → Handler context tool arguments spec world (cleared tool arguments spec world authorized).1
  cleared-Handler context tool arguments spec world (err raised) valid h =
      inl (stopped_world tool raised world)
  cleared-Handler context tool arguments spec world (ok outcome) valid h = inr (
    valid,
    authorize_write-ok context tool arguments spec context.policy outcome refl h,
    handled_world tool (spec.handler arguments world),
  )

  branches-Handler :
      (context : ToolContext) (tool : String) (arguments : Object) (spec : ToolSpec W) (world : W)
      (v w : Bool)
      → spec.validate arguments ≡ v
      → spec.is_write ≡ w
      → Handler context tool arguments spec world
          (if v
            then (if w
                then cleared tool arguments spec world
                    (authorize_write tool spec.tier arguments context.policy)
                else handled tool (spec.handler arguments world))
            else refuse tool ToolErrorCode.invalid_arguments world).1
  branches-Handler context tool arguments spec world true true valid h =
      cleared-Handler context tool arguments spec world
        (authorize_write tool spec.tier arguments context.policy) valid refl
  branches-Handler context tool arguments spec world true false valid h =
      inr (valid, inl h, handled_world tool (spec.handler arguments world))
  branches-Handler context tool arguments spec world false w valid h = inl refl

  attempt-Handler :
      (context : ToolContext) (tool : String) (arguments : Object) (spec : ToolSpec W) (world : W)
      → Handler context tool arguments spec world (attempt tool arguments spec context world).1
  unfolding attempt
  attempt-Handler context tool arguments spec world =
      branches-Handler context tool arguments spec world (spec.validate arguments) spec.is_write
        refl refl

  recorded_world :
      (run_id : Option String) (context : ToolContext) (call_id entry_id : ℕ) (tool : String)
      (arguments : Object) (status : ToolCallStatus) (gateway : Gateway W)
      → (recorded run_id context call_id entry_id tool arguments status gateway).world
        ≡ gateway.world
  recorded_world none context call_id entry_id tool arguments status gateway = refl
  recorded_world (some run_id) context call_id entry_id tool arguments status gateway = refl

  concluded_world :
      (context : ToolContext) (call_id entry_id : ℕ) (tool : String) (arguments : Object)
      (told : Option (Envelope × ToolCallStatus)) (gateway : Gateway W)
      → (concluded context call_id entry_id tool arguments told gateway).1.world ≡ gateway.world
  concluded_world context call_id entry_id tool arguments none gateway = refl
  concluded_world context call_id entry_id tool arguments (some (envelope, status)) gateway =
      recorded_world context.run_id context call_id entry_id tool arguments status gateway

  -- What a call may do to the world.
  abbrev pub Reached : Option (ToolSpec W) → ToolContext → String → Object → W → W → Type 0
  Reached found context tool arguments world after =
      (after ≡ world)
      ⊎ ((spec : ToolSpec W) × (found ≡ some spec)
          × (spec.validate arguments ≡ true)
          × IsCleared context tool arguments spec
          × (after ≡ (spec.handler arguments world).1))

  dispatch_spec-Reached :
      (context : ToolContext) (call_id entry_id : ℕ) (tool : String) (arguments : Object)
      (found : Option (ToolSpec W)) (gateway : Gateway W)
      → Reached found context tool arguments gateway.world
          (dispatch_spec context call_id entry_id tool arguments found gateway).1.world
  dispatch_spec-Reached context call_id entry_id tool arguments none gateway = inl refl
  dispatch_spec-Reached context call_id entry_id tool arguments (some spec) gateway =
      let (told, world) = attempt tool arguments spec context gateway.world in
      let same =
        concluded_world context call_id entry_id tool arguments told
          (record gateway { world = world }) in
      elim (attempt-Handler context tool arguments spec gateway.world) [
        | inl untouched ↦ inl (same ∙ untouched)
        | inr (valid, clear, ran) ↦ inr (spec, refl, valid, clear, same ∙ ran)
      ]

  -- No decision, no handler. A call leaves the world behind the handlers as it was, or it is of a
  -- registered tool with valid arguments, the tool only reads or the bound engine allows the call, and
  -- the world is as the handler leaves it.
  pub dispatch-Reached :
      (get_spec : String → Option (ToolSpec W)) (context : ToolContext) (call_id entry_id : ℕ)
      (tool : String) (arguments : Object) (gateway : Gateway W)
      → Reached
          (get_spec tool)
          context
          tool
          arguments
          gateway.world
          (dispatch get_spec context call_id entry_id tool arguments gateway).1.world
  unfolding dispatch
  dispatch-Reached get_spec context call_id entry_id tool arguments gateway =
      dispatch_spec-Reached context call_id entry_id tool arguments (get_spec tool) gateway
