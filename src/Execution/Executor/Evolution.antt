-- ===== src/Execution/Executor/Evolution.antt =====
-- `execute` of src/revenue_sentinel/execution/executor.py moves the status of each row along its life.
use mathlib.Core.Path.{subst, ◌∙◌}
use revenue_sentinel.Base.{
  ℕ, zero, suc, ◌+◌, ◌≡◌, refl, sym, ap, Bool, true, false, not, ◌||◌, String, Option, none, some,
  List, [], ◌∷◌, ◌++◌, if◌then◌else◌, ◌==◌, arith, ==_refl, ◌≢◌, ◌⊎◌, inl, inr,
}
use revenue_sentinel.Json.{Object, get, is_true}
use revenue_sentinel.Domain.{ActionStatus, executing, succeeded, failed, indeterminate}
use revenue_sentinel.Execution.Retry.{max_attempts}
use revenue_sentinel.Execution.Executor.{
  ActionRecord, Executing, save, settle, sleep_before, perform, resolve_existing, claimed, execute,
  routed, can_retry, error_code, new_claim, holder, tool_for_action,
}
use revenue_sentinel.Execution.Executor.Attempts.{actions-sleep_before, not_last}
use revenue_sentinel.Execution.Executor.Once.{Call, run, key_of}
use revenue_sentinel.Execution.Reconciliation.{action_at}
use revenue_sentinel.Execution.Reconciliation.Findings.{action_at-save}
use revenue_sentinel.Execution.Lifecycle.{
  Move, execution, performs_well, performs_badly, is_lost, along, Distinct, Evolves, Evolves-refl,
  Evolves-save, Evolves-Only, Only, Only-trans, Only-save, Only-append, append_new, status_at,
  status_at-some, status_at-none,
}

-- The action of an id has an outcome.
abbrev Ended : ℕ → List ActionRecord → Type 0
Ended own rows = (status_at own rows ≡ some succeeded) ⊎ (status_at own rows ≡ some failed)

-- A run of the loop changes one row, which has an outcome then.
abbrev Closes : ℕ → List ActionRecord → List ActionRecord → Type 0
Closes own rows rows' = Only own rows rows' × Ended own rows'

after_Only : (own : ℕ) (a b c : List ActionRecord) → Only own a b → Closes own b c → Closes own a c
after_Only own a b c only closes = (Only-trans own a b c only closes.0, closes.1)

settles :
    {W : Type 0} (row : ActionRecord) (status : ActionStatus) (payload : Object) (at : Option ℕ)
    (st : Executing W)
    → action_at row.id st.actions ≡ some row
    → (status ≡ succeeded) ⊎ (status ≡ failed)
    → Closes row.id st.actions (settle row status payload at st).1.actions
unfolding settle
settles row status payload at st held outcome =
    let done : ActionRecord = record row {
      status = status;
      result = some payload;
      executed_at = at;
    } in
    let read =
      status_at-some row.id (save done st.actions) done (action_at-save done row st.actions held) in
    (
      Only-save done st.actions,
      elim outcome [ inl e ↦ inl (read ∙ ap some e) | inr e ↦ inr (read ∙ ap some e) ],
    )

resolves :
    {W : Type 0} (row : ActionRecord) (status : ActionStatus) (st : Executing W)
    → action_at row.id st.actions ≡ some row
    → row.status ≡ status
    → Evolves execution st.actions (resolve_existing row status st).1.actions
unfolding resolve_existing
resolves row executing st held is_status =
    Evolves-save execution (record row { status = indeterminate }) row st.actions held
      (subst (λ s. Move execution (some s) (some indeterminate)) (sym is_status) is_lost)
resolves row _ st held is_status = Evolves-refl execution st.actions

module _ {W : Type 0} (call_tool : String → Object → W → Object × W) (tool : String)
    (arguments : Object) (now : ℕ) where
  -- The rounds after the one of `tried`.
  abbrev later : ℕ → ℕ → ActionRecord → Executing W → List ActionRecord
  later left attempt tried after =
      (perform call_tool left (attempt + 1) tried tool arguments now
        (sleep_before attempt after)).1.actions

  branches :
      (left attempt : ℕ) (tried : ActionRecord) (payload : Object) (after : Executing W)
      (v w : Bool)
      → action_at tried.id after.actions ≡ some tried
      → (not (can_retry (error_code payload)) || attempt == max_attempts) ≡ w
      → (attempt ≢ max_attempts → Closes tried.id after.actions (later left attempt tried after))
      → Closes tried.id after.actions
          (if v
            then settle tried succeeded payload (some now) after
            else if w
            then settle tried failed payload tried.executed_at after
            else perform call_tool left
                (attempt + 1)
                tried
                tool
                arguments
                now
                (sleep_before attempt after)).1.actions
  branches left attempt tried payload after true w held is_w next =
      settles tried succeeded payload (some now) after held (inl refl)
  branches left attempt tried payload after false true held is_w next =
      settles tried failed payload tried.executed_at after held (inr refl)
  branches left attempt tried payload after false false held is_w next =
      next (not_last attempt (not (can_retry (error_code payload))) is_w)

  round-Closes :
      (left attempt : ℕ) (row r : ActionRecord) (st : Executing W)
      → action_at row.id st.actions ≡ some r
      → let tried : ActionRecord = record row { attempt_count = attempt } in
        let after : Executing W = record st {
          actions = save tried st.actions;
          world = (call_tool tool arguments st.world).1;
        } in
        (attempt ≢ max_attempts → Closes row.id after.actions (later left attempt tried after))
        → Closes row.id st.actions
            (perform call_tool (suc left) attempt row tool arguments now st).1.actions
  unfolding perform
  round-Closes left attempt row r st held next =
      let tried : ActionRecord = record row { attempt_count = attempt } in
      let called = call_tool tool arguments st.world in
      let after : Executing W = record st { actions = save tried st.actions; world = called.1 } in
      after_Only row.id st.actions (save tried st.actions) _ (Only-save tried st.actions) (
        branches left attempt tried called.0 after (is_true (get called.0 "ok"))
          (not (can_retry (error_code called.0)) || attempt == max_attempts)
          (action_at-save tried r st.actions held) refl next)

  slept-Closes :
      (left attempt : ℕ) (tried : ActionRecord) (after : Executing W)
      → Closes tried.id (sleep_before attempt after).actions (later left attempt tried after)
      → Closes tried.id after.actions (later left attempt tried after)
  slept-Closes left attempt tried after h =
      subst (λ rows. Closes tried.id rows (later left attempt tried after))
        (actions-sleep_before attempt after) h

  pub perform-Closes :
      (left attempt : ℕ) (row r : ActionRecord) (st : Executing W)
      → attempt + left ≡ max_attempts
      → action_at row.id st.actions ≡ some r
      → Closes row.id st.actions
          (perform call_tool (suc left) attempt row tool arguments now st).1.actions
  perform-Closes zero attempt row r st rounds held =
      round-Closes zero attempt row r st held (λ ne. absurd (ne (omega arith)))
  perform-Closes (suc left) attempt row r st rounds held =
      let tried : ActionRecord = record row { attempt_count = attempt } in
      let after : Executing W = record st {
        actions = save tried st.actions;
        world = (call_tool tool arguments st.world).1;
      } in
      round-Closes (suc left) attempt row r st held (λ ne.
        slept-Closes (suc left) attempt tried after (
          perform-Closes left (attempt + 1) tried tried (sleep_before attempt after) (omega arith) (
            ap (action_at row.id) (actions-sleep_before attempt after)
            ∙ action_at-save tried r st.actions held)))

-- A claim that closes in its execution.
claimed-Closes :
    (own : ℕ) (rows rows' : List ActionRecord)
    → action_at own rows ≡ none
    → Closes own rows rows'
    → Evolves execution rows rows'
claimed-Closes own rows rows' free (only, outcome) =
    Evolves-Only execution own rows rows' only (elim outcome [
      | inl well ↦ along (status_at-none own rows free) well performs_well
      | inr badly ↦ along (status_at-none own rows free) badly performs_badly
    ])

-- Where ids are distinct, a row that is found is the one of its id.
found_at :
    (key : String) (rows : List ActionRecord) (row : ActionRecord)
    → Distinct rows
    → holder key rows ≡ some row
    → action_at row.id rows ≡ some row
found_at key [] row d h = cc
found_at key (first ∷ rows) row d h =
    ground (arith, found_at key rows row d.1, d.0, ==_refl first.id)

module _ {W : Type 0} (call_tool : String → Object → W → Object × W) (digest : Object → String)
    (c : Call) (st : Executing W) (distinct : Distinct st.actions)
    (fresh : action_at c.new_id st.actions ≡ none) where
  claimed-Evolves :
      (tool : String) (held : Option ActionRecord)
      → holder (key_of call_tool digest c) st.actions ≡ held
      → Evolves execution st.actions
          (claimed call_tool c.grant tool
            (key_of call_tool digest c)
            c.run_id
            c.new_id
            c.arguments
            c.now
            st
            held).1.actions
  unfolding claimed
  claimed-Evolves tool (some row) h =
      resolves row row.status st (found_at _ st.actions row distinct h) refl
  claimed-Evolves tool none h =
      let row = new_claim c.grant (key_of call_tool digest c) c.run_id c.new_id in
      claimed-Closes c.new_id st.actions _ fresh (
        after_Only c.new_id st.actions (st.actions ++ row ∷ []) _ (Only-append row st.actions fresh)
          (perform-Closes call_tool tool c.arguments c.now 2 1 row row
            (record st { actions = st.actions ++ row ∷ [] }) (omega arith)
            (append_new row st.actions fresh)))

  routed-Evolves :
      (tool : Option String)
      → Evolves execution st.actions
          (routed call_tool digest c.grant c.incident_ref c.run_id c.new_id c.arguments c.now st
            tool).1.actions
  unfolding routed
  routed-Evolves none = Evolves-refl execution st.actions
  routed-Evolves (some tool) =
      claimed-Evolves tool (holder (key_of call_tool digest c) st.actions) refl

  pub execute-Evolves : Evolves execution st.actions (run call_tool digest c st).1.actions
  unfolding execute
  execute-Evolves = routed-Evolves (tool_for_action c.grant.action_type)
