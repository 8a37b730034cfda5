-- ===== src/Orchestration/Outcome.antt =====
-- src/revenue_sentinel/orchestration/runner.py: `_record_execution_outcome` and
-- `_record_resume_outcome`, what a pass of the execution does to the run and the incident.
pub mod Walk
use revenue_sentinel.Base.{
  ℕ, Bool, true, false, not, ◌||◌, String, Option, none, some, Result, ok, err, ◌>>=◌,
  if◌then◌else◌,
}
use revenue_sentinel.Domain.{
  IncidentStatus, strategized, awaiting_approval, executing, completed, WorkflowStatus,
}
use revenue_sentinel.Incidents.{IncidentError, Tracked, transition_incident}

-- The row of `workflow_runs`, as the two functions write it.
pub record WorkflowRun : Type 0 where
  pub id : ℕ
  pub status : WorkflowStatus
  pub current_node : Option String
  pub ended_at : Option ℕ

pub record Progress : Type 0 where
  pub run : WorkflowRun
  pub tracked : Tracked

abbrev pub executor_actor : String
executor_actor = "agent:execution"

abbrev pub graph_exit_node : String
graph_exit_node = "__end__"

abbrev pub execution_node : String
execution_node = "execute_actions"

abbrev pub strategy_reason : String
strategy_reason = "interventions ranked and policy decisions recorded"

abbrev pub resume_reason : String
resume_reason = "approval granted; remaining actions authorised"

-- The reasons of the audit rows quote counts of the phase: they are arguments.
pub record Reasons : Type 0 where
  pub authorised : String
  pub finished : String
  pub waiting : String

completed_run : ℕ → WorkflowRun → WorkflowRun
completed_run occurred_at run = record run {
  status = WorkflowStatus.completed;
  current_node = some graph_exit_node;
  ended_at = some occurred_at;
}

-- The two hops to `completed`, after the run is marked.
finish_run : String → String → ℕ → WorkflowRun → Tracked → Result IncidentError Progress
unfolding completed_run
finish_run authorised finished occurred_at run tracked = do
  moving ← transition_incident executing executor_actor authorised occurred_at tracked
  done ← transition_incident completed executor_actor finished occurred_at moving
  ok (record { run = completed_run occurred_at run; tracked = done })

pause_run : String → ℕ → WorkflowRun → Tracked → Result IncidentError Progress
pause_run waiting occurred_at run tracked = do
  paused ← transition_incident awaiting_approval executor_actor waiting occurred_at tracked
  ok (record {
    run = record run { status = WorkflowStatus.interrupted; current_node = some execution_node };
    tracked = paused;
  })

-- `_record_execution_outcome`, of a phase that is complete or not.
unfoldable pub record_execution_outcome :
    Bool → Reasons → ℕ → Progress → Result IncidentError Progress
unfolding finish_run pause_run
record_execution_outcome is_complete reasons occurred_at p = do
  strategy ← transition_incident strategized executor_actor strategy_reason occurred_at p.tracked
  if is_complete
      then finish_run reasons.authorised reasons.finished occurred_at p.run strategy
      else pause_run reasons.waiting occurred_at p.run strategy

abbrev pub is_completed : WorkflowStatus → Bool
is_completed WorkflowStatus.completed = true
is_completed _ = false

-- `_record_resume_outcome`.
unfoldable pub record_resume_outcome : Bool → Reasons → ℕ → Progress → Result IncidentError Progress
unfolding finish_run
record_resume_outcome is_complete reasons occurred_at p =
    if not is_complete || is_completed p.run.status
    then ok p
    else finish_run resume_reason reasons.finished occurred_at p.run p.tracked
