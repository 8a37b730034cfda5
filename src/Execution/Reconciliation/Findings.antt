-- ===== src/Execution/Reconciliation/Findings.antt =====
-- What `reconcile` of src/revenue_sentinel/execution/reconciliation.py accepts, and what it changes.
use mathlib.Core.Path.{subst, ◌∙◌}
use revenue_sentinel.Base.{
  ℕ, ◌≡◌, ◌≢◌, refl, sym, false, String, none, some, List, [], ◌∷◌, ◌++◌, find_sound, ap, ok, err,
  ==_iff, >>=-eq-ok, ok-injective, arith, ◌↔◌,
}
use revenue_sentinel.Base.Text.{strip, is_blank}
use revenue_sentinel.Domain.{indeterminate}
use revenue_sentinel.Execution.Executor.{ActionRecord, save}
use revenue_sentinel.Execution.Reconciliation.{
  Outcome, already_reconciled, Attested, action_at, get_action, attest, refusals, attested,
  reconciled_event, reconcile, outcome_status,
}

-- What a finding needs: the action's outcome is unknown and nobody has reported on it, and the
-- report names its author and says what was seen.
abbrev pub IsReportable : String → String → ActionRecord → Type 0
IsReportable actor evidence row =
    (row.status ≡ indeterminate)
    × (row.reconciled_by ≡ none)
    × (is_blank actor ≡ false)
    × (is_blank evidence ≡ false)

refusals-IsReportable :
    (actor evidence : String) (row : ActionRecord)
    → (refusals actor evidence row ≡ ok tt) ↔ IsReportable actor evidence row
unfolding refusals
refusals-IsReportable actor evidence row = ground arith

-- A row that is saved is the one read back by its id; the other ids read as before.
pub action_at-save :
    (row r : ActionRecord) (rows : List ActionRecord)
    → action_at row.id rows ≡ some r
    → action_at row.id (save row rows) ≡ some row
action_at-save row r [] h = cc
action_at-save row r (first ∷ rows) h = ground (arith, action_at-save row r rows)

pub action_at-save_other :
    (row : ActionRecord) (rows : List ActionRecord) (id : ℕ)
    → id ≢ row.id
    → action_at id (save row rows) ≡ action_at id rows
action_at-save_other row [] id other = refl
action_at-save_other row (first ∷ rows) id other =
    ground (arith, action_at-save_other row rows id other)

pub read_saved :
    (id : ℕ) (row r : ActionRecord) (rows : List ActionRecord)
    → row.id ≡ id
    → action_at id rows ≡ some r
    → action_at id (save row rows) ≡ some row
read_saved id row r rows same h =
    subst (λ n. action_at n (save row rows) ≡ some row) same
      (action_at-save row r rows (subst (λ n. action_at n rows ≡ some r) (sym same) h))

refusals-reconciled :
    (actor evidence : String) (row : ActionRecord) (who : String)
    → row.reconciled_by ≡ some who
    → refusals actor evidence row ≡ err (already_reconciled who)
unfolding refusals
refusals-reconciled actor evidence row who h = ground arith

get_action_ok :
    (id : ℕ) (st : Attested) (row : ActionRecord)
    → (get_action id st ≡ ok row) ↔ (action_at id st.actions ≡ some row)
unfolding get_action
get_action_ok id st row = ground arith

-- `reconcile` accepts a finding exactly where the action exists, its outcome is unknown, nobody has
-- reported on it and both texts say something; it then saves the row with the person's name, words
-- and time, keeps its key and its count of attempts, and appends one event to the trail.
pub reconcile_iff :
    (id : ℕ) (outcome : Outcome) (actor evidence : String) (now : ℕ) (st : Attested)
    (done : ActionRecord) (after : Attested)
    → (reconcile id outcome actor evidence now st ≡ ok (done, after)) ↔ (
        (row : ActionRecord) × (action_at id st.actions ≡ some row)
        × IsReportable actor evidence row
        × (done ≡ record row {
          status = outcome_status outcome;
          reconciled_by = some (strip actor);
          reconciled_at = some now;
          reconciliation_evidence = some (strip evidence);
        })
        × (after ≡ record st {
          actions = save done st.actions;
          trail = st.trail ++ reconciled_event outcome actor evidence now row st.runs ∷ [];
        }))
unfolding reconcile attested attest
reconcile_iff id outcome actor evidence now st done after = (
  λ h.
      let (row, is_row, rest) = >>=-eq-ok (get_action id st) _ h in
      let (_, checked, is_done) = >>=-eq-ok (refusals actor evidence row) _ rest in
      let both = ok-injective is_done in
      (
        row,
        (get_action_ok id st row).0 is_row,
        (refusals-IsReportable actor evidence row).0 checked,
        cc both,
        cc both,
      ),
  λ (row, is_row, reportable, is_done, is_after).
      rw
        (
          (get_action_ok id st row).1 is_row,
          (refusals-IsReportable actor evidence row).1 reportable,
        )
        (ap ok (cc (is_done, is_after))),
)

-- A finding is recorded once: after one is accepted for an action, every other about it, by whomever
-- and whatever it says, is refused as already reconciled, by the name of the first.
pub reconcile_once :
    (id : ℕ) (outcome : Outcome) (actor evidence : String) (now : ℕ) (st : Attested)
    (done : ActionRecord) (after : Attested)
    → reconcile id outcome actor evidence now st ≡ ok (done, after)
    → (outcome' : Outcome) (actor' evidence' : String) (now' : ℕ)
    → reconcile id outcome' actor' evidence' now' after ≡ err (already_reconciled (strip actor))
unfolding reconcile
reconcile_once id outcome actor evidence now st done after h outcome' actor' evidence' now' =
    let (row, is_row, reportable, is_done, is_after) =
      (reconcile_iff id outcome actor evidence now st done after).0 h in
    let same : row.id ≡ id = (==_iff row.id id).0 (find_sound _ st.actions row is_row) in
    let held : action_at id after.actions ≡ some done =
      ap (λ (s : Attested). action_at id s.actions) is_after
      ∙ read_saved id done row st.actions (ap (λ (r : ActionRecord). r.id) is_done ∙ same) is_row in
    let refused =
      refusals-reconciled actor' evidence' done (strip actor)
        (ap (λ (r : ActionRecord). r.reconciled_by) is_done) in
    rw ((get_action_ok id after done).1 held, refused) refl
