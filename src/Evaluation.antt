-- ===== src/Evaluation.antt =====
-- src/revenue_sentinel/evaluation/service.py: the checks of a run, sorted into sections and stored.
--
-- The results of the rubric and of the security checks are arguments.
pub mod Attempts
use Prim.Native.Char.{code}
use Prim.Native.String.{◌++◌ as concat}
use revenue_sentinel.Base.{
  ℕ, suc, ◌+◌, Bool, true, false, ◌&&◌, ◌==◌, String, Option, none, some, List, [], ◌∷◌, ◌++◌, keep,
  length, if◌then◌else◌,
}

pub record CheckResult : Type 0 where
  pub name : String
  pub passed : Bool
  pub expected : String
  pub actual : String

pub record Evaluated : Type 0 where
  pub evaluation_run_id : ℕ
  pub workflow_run_id : ℕ
  pub workflow : List CheckResult
  pub injection : List CheckResult
  pub invariants : List CheckResult
  pub bypass : List CheckResult

-- `Evaluation.all_checks`.
unfoldable pub all_checks : Evaluated → List CheckResult
all_checks evaluation =
    evaluation.workflow ++ evaluation.injection ++ evaluation.invariants ++ evaluation.bypass

abbrev pub all_passed : List CheckResult → Bool
all_passed [] = true
all_passed (check ∷ rest) = check.passed && all_passed rest

-- `Evaluation.ok`.
unfoldable pub is_passed : Evaluated → Bool
is_passed evaluation = all_passed (all_checks evaluation)

-- `sum(1 for result in results if result.passed)`.
abbrev pub count_passed : List CheckResult → ℕ
count_passed [] = 0
count_passed (check ∷ rest) =
    let later = count_passed rest in if check.passed then suc later else later

-- `name.startswith(prefix)`.
unfoldable pub starts_with : String → String → Bool
starts_with String.[] name = true
starts_with (String.◌∷◌ c prefix) String.[] = false
starts_with (String.◌∷◌ c prefix) (String.◌∷◌ d name) =
    let rest = starts_with prefix name in code c == code d && rest

pub data EvaluationOutcome : Type 0 where
  passed failed : EvaluationOutcome

-- A row of `evaluation_runs`, and one of `evaluation_results`.
pub record EvaluationRun : Type 0 where
  pub id : ℕ
  pub suite_name : String
  pub suite_version : String
  pub started_at : ℕ
  pub ended_at : ℕ
  pub passed : ℕ
  pub total : ℕ

pub record EvaluationResult : Type 0 where
  pub id : ℕ
  pub evaluation_run_id : ℕ
  pub workflow_run_id : ℕ
  pub check_name : String
  pub outcome : EvaluationOutcome
  pub expected : String
  pub actual : String
  pub detail : Option String

-- The two tables, and the supply of ids.
pub record Evaluations : Type 0 where
  pub runs : List EvaluationRun
  pub results : List EvaluationResult
  pub next_id : ℕ

abbrev pub evaluator_version : String
evaluator_version = "evaluator/v1"

abbrev pub suite_name : String
suite_name = "workflow_and_security"

unfoldable pub result_row : ℕ → ℕ → ℕ → CheckResult → EvaluationResult
result_row new_id evaluation_run_id workflow_run_id check = record {
  id = new_id;
  evaluation_run_id = evaluation_run_id;
  workflow_run_id = workflow_run_id;
  check_name = check.name;
  outcome = if check.passed then EvaluationOutcome.passed else EvaluationOutcome.failed;
  expected = check.expected;
  actual = check.actual;
  detail =
      if check.passed then none else some (concat evaluator_version (concat ": " check.actual));
}

-- The loop of `_persist`, each row with the next id.
pub result_rows : ℕ → ℕ → ℕ → List CheckResult → List EvaluationResult
result_rows new_id evaluation_run_id workflow_run_id [] = []
result_rows new_id evaluation_run_id workflow_run_id (check ∷ rest) =
    result_row new_id evaluation_run_id workflow_run_id check
    ∷ result_rows (suc new_id) evaluation_run_id workflow_run_id rest

unfoldable pub run_row : ℕ → ℕ → List CheckResult → EvaluationRun
run_row new_id occurred_at results = record {
  id = new_id;
  suite_name = suite_name;
  suite_version = evaluator_version;
  started_at = occurred_at;
  ended_at = occurred_at;
  passed = count_passed results;
  total = length results;
}

-- `_persist`: the run, and the tables after it.
unfoldable pub persist : ℕ → List CheckResult → ℕ → Evaluations → EvaluationRun × Evaluations
unfolding result_rows
persist workflow_run_id results occurred_at st =
    let run = run_row st.next_id occurred_at results in
    (
      run,
      record st {
        runs = st.runs ++ run ∷ [];
        results = st.results ++ result_rows (suc st.next_id) run.id workflow_run_id results;
        next_id = suc st.next_id + length results;
      },
    )

abbrev pub section : String → List CheckResult → List CheckResult
section prefix everything = keep (λ (check : CheckResult). starts_with prefix check.name) everything

-- `evaluate`, of the two lists of results.
unfoldable pub evaluate_results :
    ℕ → List CheckResult → List CheckResult → ℕ → Evaluations → Evaluated × Evaluations
evaluate_results workflow_run_id workflow everything occurred_at st =
    let injection = section "injection_" everything in
    let invariants = section "invariant_" everything in
    let bypass = section "bypass_" everything in
    let (run, after) =
      persist workflow_run_id (workflow ++ injection ++ invariants ++ bypass) occurred_at st in
    (
      record {
        evaluation_run_id = run.id;
        workflow_run_id = workflow_run_id;
        workflow = workflow;
        injection = injection;
        invariants = invariants;
        bypass = bypass;
      },
      after,
    )
