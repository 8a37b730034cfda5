-- ===== src/Cost/Client/Gate.antt =====
-- What passes the budget gate of src/revenue_sentinel/cost/client.py, and what it lets through.
use mathlib.Core.Path.{subst}
use revenue_sentinel.Base.{
  ℕ, ◌<◌, Bool, true, false, inl, inr, String, Option, none, some, All, not-leb→lt, Result, ok, err,
  >>=-eq-ok, ok-injective, result-cases, ◌⊎◌, ◌≡◌, ap, ◌∙◌, refl, raise_if,
}
use revenue_sentinel.Base.Int.{pos}
use revenue_sentinel.Cost.Pricing.{worst_case_cost}
use revenue_sentinel.Cost.Governor.{
  BudgetRefusal, check_call_ceilings, reserve_or_raise, raise_refusal, count,
  max_model_calls_per_run, max_tool_calls_per_run, BudgetExceeded,
}
use revenue_sentinel.Cost.Governor.Admission.{check_affordable-Absorbs, AbsorbsIf}
use revenue_sentinel.Cost.Client.{
  GateError, Route, LlmRequest, Ledgers, route_for, estimate_input_tokens, raised, admit, exceeded,
  unpriced, complete_structured, refused, answered, call,
}

raised-ok {ℓ} :
    {E A : Type ℓ} (wrap : E → GateError) (r : Result E A) (a : A) → raised wrap r ≡ ok a → r ≡ ok a
raised-ok wrap (ok b) a h = cc
raised-ok wrap (err e) a h = cc

raise_refusal-ok : (refusal : Option BudgetRefusal) → raise_refusal refusal ≡ ok tt → refusal ≡ none
raise_refusal-ok none h = refl
raise_refusal-ok (some refusal) h = cc

-- A run under both ceilings on its calls.
abbrev pub UnderCeilings : String → Ledgers → Type 0
UnderCeilings run_id ledgers =
    (count run_id ledgers.models < max_model_calls_per_run)
    × (count run_id ledgers.tools < max_tool_calls_per_run)

raise_if-ok : (b : Bool) (e : BudgetExceeded) → raise_if b e ≡ ok tt → b ≡ false
raise_if-ok true e h = cc
raise_if-ok false e h = refl

check_call_ceilings-UnderCeilings :
    (run_id : String) (ledgers : Ledgers)
    → check_call_ceilings run_id ledgers.models ledgers.tools ≡ ok tt
    → UnderCeilings run_id ledgers
unfolding check_call_ceilings
check_call_ceilings-UnderCeilings run_id ledgers h =
    let (a, first, second) = >>=-eq-ok _ _ h in
    (not-leb→lt _ _ (raise_if-ok _ _ first), not-leb→lt _ _ (raise_if-ok _ _ second))

-- A call that is admitted: its node has a route, its run is under the ceilings, the reservation is
-- the worst case for the routed model and the estimate, and each applicable budget that stops calls
-- can take it.
abbrev pub IsAdmitted : String → String → LlmRequest → Ledgers → ℕ → Type 0
IsAdmitted run_id incident_ref request ledgers reservation =
    (route : Route) × (route_for request.node_name ≡ ok route)
    × UnderCeilings run_id ledgers
    × (worst_case_cost route.model_id (pos (estimate_input_tokens request))
          (pos route.max_output_tokens)
        ≡ ok reservation)
    × All (AbsorbsIf run_id incident_ref reservation) ledgers.budgets

admit-IsAdmitted :
    (run_id incident_ref : String) (request : LlmRequest) (ledgers : Ledgers) (reservation : ℕ)
    → admit run_id incident_ref request ledgers ≡ ok reservation
    → IsAdmitted run_id incident_ref request ledgers reservation
unfolding admit reserve_or_raise
admit-IsAdmitted r i request ledgers reservation h =
    let (route, routed, h1) = >>=-eq-ok _ _ h in
    let (_, checked, h2) = >>=-eq-ok _ _ h1 in
    let (amount, priced, h3) = >>=-eq-ok _ _ h2 in
    let (_, admitted, h4) = >>=-eq-ok _ _ h3 in
    (
      route,
      routed,
      check_call_ceilings-UnderCeilings r ledgers (raised-ok exceeded _ _ checked),
      raised-ok unpriced _ _ priced ∙ ap ok (ok-injective h4),
      subst (λ n. All (AbsorbsIf r i n) ledgers.budgets) (ok-injective h4)
          ((check_affordable-Absorbs r i ledgers.budgets amount).0
            (raise_refusal-ok _ (raised-ok exceeded _ _ admitted))),
    )

module _ {W Response Error : Type 0} (inner : LlmRequest → W → Result Error Response × W) where
  -- A call through the gate is refused before the client is called, and the world is then as it was,
  -- or it is admitted and the client's answer is the call's.
  pub complete_structured-IsAdmitted :
      (run_id incident_ref : String) (request : LlmRequest) (ledgers : Ledgers) (world : W)
      → ((e : GateError) × (admit run_id incident_ref request ledgers ≡ err e)
          × (complete_structured inner run_id incident_ref request ledgers world
              ≡ (refused e, world)))
        ⊎ ((reservation : ℕ) × IsAdmitted run_id incident_ref request ledgers reservation
            × (complete_structured inner run_id incident_ref request ledgers world
                ≡ (answered (inner request world).0, (inner request world).1)))
  unfolding complete_structured
  complete_structured-IsAdmitted r i request ledgers world =
      elim (result-cases (admit r i request ledgers)) [
        | inl (e, h) ↦ inl (e, h, ap (call inner request world) h)
        | inr (n, h) ↦
            inr (n, admit-IsAdmitted r i request ledgers n h, ap (call inner request world) h)
      ]
