-- ===== src/Execution/Lifecycle/Steps.antt =====
-- Executions and findings, in any order, as steps on the tables that they share: every row follows
-- the abstract machine of its status.
use mathlib.Core.Path.{subst, ◌∙◌}
use revenue_sentinel.Base.{
  ℕ, ◌≡◌, sym, ap, String, none, some, List, [], ◌∷◌, ◌++◌, refl, find_sound, ok, ==_iff, ◌⊎◌, inl,
  inr,
}
use revenue_sentinel.Json.{Object}
use revenue_sentinel.Domain.{ActionStatus, succeeded, failed, indeterminate}
use revenue_sentinel.Execution.Executor.{ActionRecord, Executing, new_claim, holder}
use revenue_sentinel.Execution.Executor.Once.{Call, run, key_of}
use revenue_sentinel.Execution.Executor.Evolution.{execute-Evolves}
use revenue_sentinel.Execution.Reconciliation.{
  action_at, Outcome, RunIncident, ReconciledEvent, Attested, reconcile, outcome_status, occurred,
  did_not_occur,
}
use revenue_sentinel.Execution.Reconciliation.Findings.{reconcile_iff}
use revenue_sentinel.Execution.Lifecycle.{
  Label, execution, crash, finding, Move, Lifecycle, found_done, found_undone, ends, goes, Distinct,
  status_at, Evolves, Evolves-save, Evolves-append, succeeded_final, failed_final,
}

-- All that the executor and the reconciliation read and write.
pub record Effects (W : Type 0) : Type 0 where
  pub executing : Executing W
  pub runs : List RunIncident
  pub trail : List ReconciledEvent

-- The part that the reconciliation works on.
abbrev pub attested_part : {W : Type 0} → Effects W → Attested
attested_part s = record { actions = s.executing.actions; runs = s.runs; trail = s.trail }

abbrev pub with_attested : {W : Type 0} → Effects W → Attested → Effects W
with_attested s a = record {
  executing = record s.executing { actions = a.actions };
  runs = a.runs;
  trail = a.trail;
}

module _ {W : Type 0} (call_tool : String → Object → W → Object × W)
    (digest : Object → String) where
  -- The row that a call claims, after some attempts.
  abbrev pub open_claim : Call → ℕ → ActionRecord
  open_claim c attempts = record (new_claim c.grant (key_of call_tool digest c) c.run_id c.new_id) {
    attempt_count = attempts;
  }

  -- One call of either service, or a call of `execute` that dies with its claim stored, whatever it has
  -- done to the world. A new row's id and key are not in use.
  pub data Step : Label → Effects W → Effects W → Type 0 where
    executes :
        (c : Call) (s : Effects W)
        → action_at c.new_id s.executing.actions ≡ none
        → Step execution s (record s { executing = (run call_tool digest c s.executing).1 })
    dies :
        (c : Call) (attempts : ℕ) (world : W) (s : Effects W)
        → action_at c.new_id s.executing.actions ≡ none
        → holder (key_of call_tool digest c) s.executing.actions ≡ none
        → Step crash s (record s {
          executing = record s.executing {
            actions = s.executing.actions ++ open_claim c attempts ∷ [];
            world = world;
          };
        })
    reconciles :
        (id : ℕ) (outcome : Outcome) (actor evidence : String) (now : ℕ) (s : Effects W)
        (done : ActionRecord) (after : Attested)
        → reconcile id outcome actor evidence now (attested_part s) ≡ ok (done, after)
        → Step finding s (with_attested s after)

  -- Any number of them, by what they are.
  pub data Steps : List Label → Effects W → Effects W → Type 0 where
    stop : (s : Effects W) → Steps [] s s
    next :
        (l : Label) (ls : List Label) (s t u : Effects W)
        → Step l s t
        → Steps ls t u
        → Steps (l ∷ ls) s u

settled_by : (outcome : Outcome) → Move finding (some indeterminate) (some (outcome_status outcome))
unfolding outcome_status
settled_by occurred = found_done
settled_by did_not_occur = found_undone

reconcile-Evolves :
    (id : ℕ) (outcome : Outcome) (actor evidence : String) (now : ℕ) (st : Attested)
    (done : ActionRecord) (after : Attested)
    → reconcile id outcome actor evidence now st ≡ ok (done, after)
    → Evolves finding st.actions after.actions
reconcile-Evolves id outcome actor evidence now st done after h =
    let (row, is_row, (unknown, _, _, _), is_done, is_after) =
      (reconcile_iff id outcome actor evidence now st done after).0 h in
    let same : row.id ≡ id = (==_iff row.id id).0 (find_sound _ st.actions row is_row) in
    let is_id : id ≡ done.id = sym (ap (λ (r : ActionRecord). r.id) is_done ∙ same) in
    let is_status : done.status ≡ outcome_status outcome =
      ap (λ (r : ActionRecord). r.status) is_done in
    subst (Evolves finding st.actions) (sym (ap (λ (s : Attested). s.actions) is_after)) (
      Evolves-save finding done row st.actions
        (subst (λ n. action_at n st.actions ≡ some row) is_id is_row)
        (subst (λ s. Move finding (some s) (some done.status)) (sym unknown)
          (subst (λ s. Move finding (some indeterminate) (some s)) (sym is_status)
            (settled_by outcome))))

module _ {W : Type 0} (call_tool : String → Object → W → Object × W)
    (digest : Object → String) where
  Step-Evolves :
      (l : Label) (s t : Effects W)
      → Step call_tool digest l s t
      → Distinct s.executing.actions
      → Evolves l s.executing.actions t.executing.actions
  unfolding new_claim
  Step-Evolves _ _ _ (executes c s fresh) d = execute-Evolves call_tool digest c s.executing d fresh
  Step-Evolves _ _ _ (dies c attempts world s fresh free) d =
      Evolves-append (open_claim call_tool digest c attempts) s.executing.actions refl fresh
  Step-Evolves _ _ _ (reconciles id outcome actor evidence now s done after h) d =
      reconcile-Evolves id outcome actor evidence now (attested_part s) done after h

  -- Executions, findings and executions that die after their claim, any number in any order, implement the
  -- abstract life of an action: from tables with distinct ids, with each of them the status that the table
  -- holds for any id rests or makes the one move of that life that it allows, and the ids stay distinct.
  pub refines_Lifecycle :
      (ls : List Label) (s t : Effects W)
      → Steps call_tool digest ls s t
      → Distinct s.executing.actions
      → Distinct t.executing.actions
        × ((id : ℕ)
            → Lifecycle ls (status_at id s.executing.actions) (status_at id t.executing.actions))
  refines_Lifecycle _ _ _ (stop s) d = (d, λ id. ends)
  refines_Lifecycle _ _ _ (next l ls s t u step rest) d =
      let first = Step-Evolves l s t step d in
      let (distinct, lives) = refines_Lifecycle ls t u rest (first.0 d) in
      (distinct, λ id. goes (first.1 id) (lives id))

  -- An outcome on record is final: after any executions and findings, from tables with distinct ids,
  -- an action that had succeeded, or failed, still reads so.
  pub outcome_final :
      (ls : List Label) (s t : Effects W) (id : ℕ) (status : ActionStatus)
      → Steps call_tool digest ls s t
      → Distinct s.executing.actions
      → (status ≡ succeeded) ⊎ (status ≡ failed)
      → status_at id s.executing.actions ≡ some status
      → status_at id t.executing.actions ≡ some status
  outcome_final ls s t id status steps d final h =
      let move = (refines_Lifecycle ls s t steps d).1 id in
      elim final [
        | inl e ↦ succeeded_final move (h ∙ ap some e) ∙ ap some (sym e)
        | inr e ↦ failed_final move (h ∙ ap some e) ∙ ap some (sym e)
      ]
