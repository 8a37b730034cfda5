-- ===== src/Execution/Executor/Once.antt =====
-- What executions of src/revenue_sentinel/execution/executor.py do when they are repeated.
use text.Mathlib.TextEquality.{eq_iff}
use mathlib.Core.Path.{subst}
use revenue_sentinel.Base.{
  ℕ, ◌≡◌, ◌≢◌, refl, sym, ◌∙◌, ap, true, false, String, none, some, List, [], ◌∷◌, ◌++◌, Result, ok,
  err, arith, inl, inr, find_sound, Option-cases,
}
use revenue_sentinel.Json.{Object}
use revenue_sentinel.Domain.{ActionStatus, executing, indeterminate}
use revenue_sentinel.Execution.Authorization.{ExecutionGrant}
use revenue_sentinel.Execution.Retry.{max_attempts, idempotency_key}
use revenue_sentinel.Execution.Executor.{
  ActionRecord, ExecutionResult, ExecutionError, Executing, holder, payload_of, result_of,
  new_claim, tool_for_action, resolve_existing, perform, claimed, routed, execute,
}
use revenue_sentinel.Execution.Executor.Attempts.{holder-save, Settled, perform-Settled}

-- What a claim that is found reads as: one still open becomes indeterminate.
abbrev pub known : ActionStatus → ActionStatus
known executing = indeterminate
known status = status

holder-claim :
    (key : String) (row : ActionRecord) (rows : List ActionRecord)
    → row.idempotency_key ≡ key
    → holder key rows ≡ none
    → holder key (rows ++ row ∷ []) ≡ some row
holder-claim key row [] is_key h = ground (arith, eq_iff row.idempotency_key key)
holder-claim key row (r ∷ rows) is_key h =
    ground (arith, holder-claim key row rows is_key, eq_iff r.idempotency_key key)

known_settled : (status : ActionStatus) → status ≢ executing → known status ≡ status
known_settled executing h = absurd (h refl)
known_settled _ h = refl

done_again :
    (row : ActionRecord) (payload : Object)
    → row.status ≢ executing
    → ◌≡◌ {A = ExecutionResult}
        (record (result_of row payload true) { status = known row.status })
        (record (result_of row payload false) { already_done = true })
unfolding result_of
done_again row payload over =
    ap
      (λ (s : ActionStatus).
        let r : ExecutionResult = record (result_of row payload true) { status = s } in r)
      (known_settled row.status over)

-- A call of `execute`, without the state that it starts from.
pub record Call : Type 0 where
  pub grant : ExecutionGrant
  pub incident_ref : String
  pub run_id : ℕ
  pub new_id : ℕ
  pub arguments : Object
  pub now : ℕ

module _ {W : Type 0} (call_tool : String → Object → W → Object × W)
    (digest : Object → String) where
  abbrev pub run : Call → Executing W → Result ExecutionError ExecutionResult × Executing W
  run c st = execute call_tool digest c.grant c.incident_ref c.run_id c.new_id c.arguments c.now st

  abbrev pub key_of : Call → String
  key_of c =
      idempotency_key digest c.incident_ref c.grant.action_type c.grant.target_ref c.arguments

  resolved :
      (row : ActionRecord) (status : ActionStatus) (st : Executing W)
      → row.status ≡ status
      → ((resolve_existing row status st).0
          ≡ ok (record (result_of row (payload_of row.result) true) { status = known row.status }))
        × ((resolve_existing row status st).1.world ≡ st.world)
        × ((resolve_existing row status st).1.slept ≡ st.slept)
  unfolding resolve_existing
  resolved row status st is_status = ground arith

  claimed_held :
      (c : Call) (tool : String) (row : ActionRecord) (st : Executing W)
      → tool_for_action c.grant.action_type ≡ some tool
      → holder (key_of c) st.actions ≡ some row
      → run c st ≡ resolve_existing row row.status st
  unfolding execute
  claimed_held c tool row st is_tool held =
      ap
        (λ o.
          routed call_tool digest c.grant c.incident_ref c.run_id c.new_id c.arguments c.now st o)
        is_tool
      ∙ ap (λ o. claimed call_tool c.grant tool (key_of c) c.run_id c.new_id c.arguments c.now st o)
          held

  claimed_free :
      (c : Call) (tool : String) (st : Executing W)
      → tool_for_action c.grant.action_type ≡ some tool
      → holder (key_of c) st.actions ≡ none
      → let row = new_claim c.grant (key_of c) c.run_id c.new_id in
        run c st
        ≡ perform call_tool max_attempts 1 row tool c.arguments c.now
            (record st { actions = st.actions ++ row ∷ [] })
  unfolding execute
  claimed_free c tool st is_tool free =
      ap
        (λ o.
          routed call_tool digest c.grant c.incident_ref c.run_id c.new_id c.arguments c.now st o)
        is_tool
      ∙ ap (λ o. claimed call_tool c.grant tool (key_of c) c.run_id c.new_id c.arguments c.now st o)
          free

  first_run :
      (c : Call) (tool : String) (st : Executing W)
      → tool_for_action c.grant.action_type ≡ some tool
      → holder (key_of c) st.actions ≡ none
      → Settled (key_of c) (run c st)
  unfolding new_claim
  first_run c tool st is_tool free =
      let row = new_claim c.grant (key_of c) c.run_id c.new_id in
      subst (Settled (key_of c)) (sym (claimed_free c tool st is_tool free)) (
        perform-Settled call_tool tool c.arguments c.now (key_of c) 2 1 row row
          (record st { actions = st.actions ++ row ∷ [] }) (omega arith) refl refl
          (holder-claim (key_of c) row st.actions refl free))

  Settled-parts :
      (key : String) (out : Result ExecutionError ExecutionResult × Executing W)
      → Settled key out
      → (res : ExecutionResult) × (row : ActionRecord) × (out.0 ≡ ok res)
        × (holder key out.1.actions ≡ some row)
        × (res ≡ result_of row (payload_of row.result) false)
        × (row.status ≢ executing)
  Settled-parts key (ok res, st) (row, held, is_res, over) = (res, row, refl, held, is_res, over)
  Settled-parts key (err e, st) h = absurd h

  held_after :
      (key : String) (row : ActionRecord) (status : ActionStatus) (st : Executing W)
      → holder key st.actions ≡ some row
      → holder key (resolve_existing row status st).1.actions ≢ none
  unfolding resolve_existing
  held_after key row executing st held =
      let is_key = (eq_iff row.idempotency_key key).0 (find_sound _ st.actions row held) in
      let lost = record row { status = indeterminate } in
      λ e. cc (holder-save key lost row st.actions is_key refl held)
  held_after key row _ st held = λ e. cc

  -- The result that stands on record for a key, and nothing done: no call, no sleep.
  abbrev pub OnRecord :
      ActionRecord → Executing W → Result ExecutionError ExecutionResult × Executing W → Type 0
  OnRecord row st (res, after) =
      (res ≡ ok (record (result_of row (payload_of row.result) true) { status = known row.status }))
      × (after.world ≡ st.world)
      × (after.slept ≡ st.slept)

  -- An effect whose key is held is never performed again: whatever the row's status is (succeeded,
  -- failed, also by a finding, indeterminate, or an open claim that a crash left behind) the client is not called,
  -- nothing is slept, and the stored result comes back marked as already done. An open claim reads
  -- as indeterminate.
  pub execute_held :
      (c : Call) (tool : String) (row : ActionRecord) (st : Executing W)
      → tool_for_action c.grant.action_type ≡ some tool
      → holder (key_of c) st.actions ≡ some row
      → OnRecord row st (run c st)
  execute_held c tool row st is_tool held =
      subst (OnRecord row st) (sym (claimed_held c tool row st is_tool held))
        (resolved row row.status st refl)

  -- `execute` returns: a routable action gives a result and never an error, whatever the client
  -- answers, and the key of the effect is held afterwards.
  pub execute_total :
      (c : Call) (tool : String) (st : Executing W)
      → tool_for_action c.grant.action_type ≡ some tool
      → (res : ExecutionResult) × ((run c st).0 ≡ ok res)
        × (holder (key_of c) (run c st).1.actions ≢ none)
  execute_total c tool st is_tool = elim (Option-cases (holder (key_of c) st.actions)) [
    | inl free ↦
        let (res, row, is_res, held, _, _) =
          Settled-parts (key_of c) (run c st) (first_run c tool st is_tool free) in
        (res, is_res, λ e. cc (e, held))
    | inr (row, held) ↦
        let now_held = held_after (key_of c) row row.status st held in
        let runs = claimed_held c tool row st is_tool held in
        (
          record (result_of row (payload_of row.result) true) { status = known row.status },
          (execute_held c tool row st is_tool held).0,
          rw runs now_held,
        )
  ]

  -- Re-running performs nothing: after a first execution of an effect on a free key, also one that
  -- failed, a second one
  -- with the same incident, action, target and arguments (in any run, under any grant, at any time)
  -- leaves the world as the first left it and returns the first one's result, marked as done.
  pub execute_twice :
      (c d : Call) (tool : String) (st : Executing W)
      → tool_for_action c.grant.action_type ≡ some tool
      → tool_for_action d.grant.action_type ≡ some tool
      → key_of d ≡ key_of c
      → holder (key_of c) st.actions ≡ none
      → (res : ExecutionResult) × ((run c st).0 ≡ ok res)
        × (res.already_done ≡ false)
        × ((run d (run c st).1).0 ≡ ok (record res { already_done = true }))
        × ((run d (run c st).1).1.world ≡ (run c st).1.world)
  unfolding result_of
  execute_twice c d tool st is_tool is_tool' same free =
      let (res, row, is_res, held, stored, over) =
        Settled-parts (key_of c) (run c st) (first_run c tool st is_tool free) in
      let again = execute_held d tool row (run c st).1 is_tool' (rw same held) in
      (
        res,
        is_res,
        ap (λ (r : ExecutionResult). r.already_done) stored,
        again.0
            ∙ ap ok (
                done_again row (payload_of row.result) over
                ∙ ap
                    (λ (r : ExecutionResult).
                      let x : ExecutionResult = record r { already_done = true } in x)
                    (sym stored)),
        again.1,
      )
