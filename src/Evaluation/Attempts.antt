-- ===== src/Evaluation/Attempts.antt =====
-- What an attempt of src/revenue_sentinel/evaluation/service.py stores.
use mathlib.Core.Path.{◌∙◌}
use revenue_sentinel.Base.{
  Bool, none, ℕ, suc, ◌+◌, ◌≤◌, ◌≡◌, refl, ap, arith, true, false, ◌&&◌, ◌||◌, String, List, [],
  ◌∷◌, ◌++◌, map, length, length-append, ◌↔◌, All,
}
use revenue_sentinel.Evaluation.{
  CheckResult, EvaluationRun, EvaluationResult, EvaluationOutcome, Evaluations, all_checks,
  all_passed, is_passed, count_passed, starts_with, section, result_row, result_rows, run_row,
  persist, evaluate_results,
}

passed_at_most : (checks : List CheckResult) → count_passed checks ≤ length checks
passed_at_most [] = omega arith
passed_at_most (check ∷ rest) = ground (arith, passed_at_most rest)

passed_all :
    (checks : List CheckResult) → (all_passed checks ≡ true) ↔ (count_passed checks ≡ length checks)
passed_all [] = (λ h. refl, λ h. refl)
passed_all (check ∷ rest) = ground (arith, passed_all rest, passed_at_most rest)

abbrev is_success : EvaluationOutcome → Bool
is_success EvaluationOutcome.passed = true
is_success EvaluationOutcome.failed = false

-- The check that a row tells of.
abbrev pub check_of : EvaluationResult → CheckResult
check_of row = record {
  name = row.check_name;
  passed = is_success row.outcome;
  expected = row.expected;
  actual = row.actual;
}

-- A row is of the attempt and of the workflow's run, and has a detail exactly if its check failed.
abbrev pub IsOf : ℕ → ℕ → EvaluationResult → Type 0
IsOf run_id workflow_run_id row =
    (row.evaluation_run_id ≡ run_id)
    × (row.workflow_run_id ≡ workflow_run_id)
    × ((row.detail ≡ none) ↔ (row.outcome ≡ EvaluationOutcome.passed))

check_of-result_row :
    (new_id run_id workflow_run_id : ℕ) (check : CheckResult)
    → check_of (result_row new_id run_id workflow_run_id check) ≡ check
unfolding result_row
check_of-result_row new_id run_id workflow_run_id check = ground arith

detail_of :
    (new_id run_id workflow_run_id : ℕ) (check : CheckResult) (passed : Bool)
    → check.passed ≡ passed
    → ((result_row new_id run_id workflow_run_id check).detail ≡ none)
      ↔ ((result_row new_id run_id workflow_run_id check).outcome ≡ EvaluationOutcome.passed)
unfolding result_row
detail_of new_id run_id workflow_run_id check true h = rw h (λ e. refl, λ e. refl)
detail_of new_id run_id workflow_run_id check false h = rw h (λ e. cc, λ e. cc)

result_row-IsOf :
    (new_id run_id workflow_run_id : ℕ) (check : CheckResult)
    → IsOf run_id workflow_run_id (result_row new_id run_id workflow_run_id check)
unfolding result_row
result_row-IsOf new_id run_id workflow_run_id check =
    (refl, refl, detail_of new_id run_id workflow_run_id check check.passed refl)

checks-result_rows :
    (new_id run_id workflow_run_id : ℕ) (checks : List CheckResult)
    → map check_of (result_rows new_id run_id workflow_run_id checks) ≡ checks
unfolding result_rows
checks-result_rows new_id run_id workflow_run_id [] = refl
checks-result_rows new_id run_id workflow_run_id (check ∷ rest) = cc (
  check_of-result_row new_id run_id workflow_run_id check,
  checks-result_rows (suc new_id) run_id workflow_run_id rest,
)

result_rows-IsOf :
    (new_id run_id workflow_run_id : ℕ) (checks : List CheckResult)
    → All (IsOf run_id workflow_run_id) (result_rows new_id run_id workflow_run_id checks)
unfolding result_rows
result_rows-IsOf new_id run_id workflow_run_id [] = tt
result_rows-IsOf new_id run_id workflow_run_id (check ∷ rest) = (
  result_row-IsOf new_id run_id workflow_run_id check,
  result_rows-IsOf (suc new_id) run_id workflow_run_id rest,
)

-- A check of the security list has one of the three prefixes.
abbrev pub HasSection : CheckResult → Type 0
HasSection check =
    (starts_with "injection_" check.name
      || (starts_with "invariant_" check.name || starts_with "bypass_" check.name))
    ≡ true

-- No name starts in two ways.
apart :
    (name : String)
    → ((starts_with "injection_" name && starts_with "invariant_" name) ≡ false)
      × ((starts_with "injection_" name && starts_with "bypass_" name) ≡ false)
      × ((starts_with "invariant_" name && starts_with "bypass_" name) ≡ false)
unfolding starts_with
apart String.[] = (refl, refl, refl)
apart (String.◌∷◌ c String.[]) = (ground arith, ground arith, ground arith)
apart (String.◌∷◌ c (String.◌∷◌ d String.[])) = (ground arith, ground arith, ground arith)
apart (String.◌∷◌ c (String.◌∷◌ d (String.◌∷◌ e rest))) = (ground arith, ground arith, ground arith)

sections-length :
    (everything : List CheckResult)
    → All HasSection everything
    → length (section "injection_" everything)
        + (length (section "invariant_" everything) + length (section "bypass_" everything))
      ≡ length everything
sections-length [] h = refl
sections-length (check ∷ rest) h =
    let (a, b, c) = apart check.name in ground (arith, a, b, c, h.0, sections-length rest h.1)

length-append_four :
    (a b c d : List CheckResult)
    → length (a ++ b ++ c ++ d) ≡ length a + (length b + (length c + length d))
length-append_four a b c d =
    omega (arith, length-append (a ++ b ++ c) d, length-append (a ++ b) c, length-append a b)

-- An attempt is stored whole beside those before it: its run has passed as many checks as it counts exactly
-- if the evaluation passed, it counts the workflow's checks and all the security checks, its results
-- give back every check in order with its outcome and texts, each names the attempt and the workflow's run
-- and has a detail exactly if its check failed, and what was stored before is as it was; this for security
-- checks whose names each start with the prefix of a section.
pub evaluate_results_lem :
    (workflow_run_id : ℕ) (workflow everything : List CheckResult) (occurred_at : ℕ)
    (st : Evaluations)
    → All HasSection everything
    → let out = evaluate_results workflow_run_id workflow everything occurred_at st in
      (run : EvaluationRun) × (rows : List EvaluationResult) × (out.1.runs ≡ st.runs ++ run ∷ [])
      × (out.1.results ≡ st.results ++ rows)
      × ((is_passed out.0 ≡ true) ↔ (run.passed ≡ run.total))
      × (run.total ≡ length workflow + length everything)
      × (map check_of rows ≡ all_checks out.0)
      × All (IsOf run.id workflow_run_id) rows
unfolding evaluate_results persist run_row is_passed all_checks
evaluate_results_lem workflow_run_id workflow everything occurred_at st h =
    let injection = section "injection_" everything in
    let invariants = section "invariant_" everything in
    let bypass = section "bypass_" everything in
    let checks = workflow ++ injection ++ invariants ++ bypass in
    let total : length checks ≡ length workflow + length everything =
      length-append_four workflow injection invariants bypass
      ∙ ap (λ n. length workflow + n) (sections-length everything h) in
    (
      run_row st.next_id occurred_at checks,
      result_rows (suc st.next_id) st.next_id workflow_run_id checks,
      refl,
      refl,
      passed_all checks,
      total,
      checks-result_rows (suc st.next_id) st.next_id workflow_run_id checks,
      result_rows-IsOf (suc st.next_id) st.next_id workflow_run_id checks,
    )
