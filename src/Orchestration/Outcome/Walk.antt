-- ===== src/Orchestration/Outcome/Walk.antt =====
-- How a run and its incident move together in src/revenue_sentinel/orchestration/runner.py.
use revenue_sentinel.Base.{
  ℕ, ◌≡◌, refl, Bool, true, false, ◌||◌, String, some, ok, ok_of, Bool-cases, ◌⊎◌, inl, inr, ap,
}
use revenue_sentinel.Domain.{
  IncidentStatus, analyzed, strategized, awaiting_approval, executing, completed, WorkflowStatus,
}
use revenue_sentinel.Incidents.{Tracked, is_legal, transition_incident}
use revenue_sentinel.Incidents.Trail.{IsTracked, transition-IsTracked, transition_parts, goes}
use revenue_sentinel.Orchestration.Outcome.{
  WorkflowRun, Progress, Reasons, record_execution_outcome, record_resume_outcome, finish_run,
  pause_run, is_completed, executor_actor, strategy_reason, resume_reason, completed_run,
  execution_node,
}

-- Finished together, or paused together.
abbrev pub Together : WorkflowStatus → IncidentStatus → Type 0
Together WorkflowStatus.completed status = status ≡ completed
Together WorkflowStatus.interrupted status = status ≡ awaiting_approval
Together _ status = ⊥

-- A run and its incident between two passes, with the incident's history.
pub record IsSettled (p : Progress) : Type 0 where
  pub together : Together p.run.status p.tracked.incident.status
  pub history : IsTracked p.tracked

-- A legal transition is made.
moves :
    (to : IncidentStatus) (actor reason : String) (at : ℕ) (t : Tracked)
    → IsTracked t
    → is_legal t.incident.status to ≡ true
    → (u : Tracked) × (transition_incident to actor reason at t ≡ ok u)
      × (u.incident.status ≡ to)
      × IsTracked u
moves to actor reason at t history legal =
    let (u, is_u) =
      ok_of (transition_incident to actor reason at t) (goes to actor reason at t legal) in
    (
      u,
      is_u,
      (transition_parts to actor reason at t u is_u).1,
      transition-IsTracked to actor reason at t u history is_u,
    )

finishes :
    (authorised finished : String) (at : ℕ) (run : WorkflowRun) (t : Tracked)
    → IsTracked t
    → is_legal t.incident.status executing ≡ true
    → (p : Progress) × (finish_run authorised finished at run t ≡ ok p)
      × (p.run.status ≡ WorkflowStatus.completed)
      × IsSettled p
unfolding finish_run is_legal
finishes authorised finished at run t history legal =
    let (u, is_u, status, history') =
      moves executing executor_actor authorised at t history legal in
    let (v, is_v, status', history'') =
      moves completed executor_actor finished at u history'
        (ap (λ s. is_legal s completed) status) in
    (
      record { run = completed_run at run; tracked = v },
      rw (is_u, is_v),
      refl,
      record { together = status'; history = history'' },
    )

-- From an analysed incident a pass is always recorded. After a complete one the run and the incident
-- are completed; after one that waits for a person the run is interrupted and the incident awaits
-- approval. The trail tells all of it.
pub record_execution_outcome-IsSettled :
    (is_complete : Bool) (reasons : Reasons) (at : ℕ) (p : Progress)
    → IsTracked p.tracked
    → p.tracked.incident.status ≡ analyzed
    → (q : Progress) × (record_execution_outcome is_complete reasons at p ≡ ok q)
      × (is_completed q.run.status ≡ is_complete)
      × IsSettled q
unfolding record_execution_outcome is_legal finish_run pause_run
record_execution_outcome-IsSettled true reasons at p history status =
    let (u, is_u, s, h) =
      moves strategized executor_actor strategy_reason at p.tracked history
        (ap (λ s. is_legal s strategized) status) in
    let (q, is_q, done, settled) =
      finishes reasons.authorised reasons.finished at p.run u h
        (ap (λ s. is_legal s executing) s) in
    (q, rw is_u is_q, rw done, settled)
record_execution_outcome-IsSettled false reasons at p history status =
    let (u, is_u, s, h) =
      moves strategized executor_actor strategy_reason at p.tracked history
        (ap (λ s. is_legal s strategized) status) in
    let (v, is_v, s', h') =
      moves awaiting_approval executor_actor reasons.waiting at u h
        (ap (λ s. is_legal s awaiting_approval) s) in
    (
      record {
        run = record p.run {
          status = WorkflowStatus.interrupted;
          current_node = some execution_node;
        };
        tracked = v;
      },
      rw is_u (rw is_v),
      refl,
      record { together = s'; history = h' },
    )

paused_of :
    (run : WorkflowStatus) (incident : IncidentStatus)
    → Together run incident
    → is_completed run ≡ false
    → incident ≡ awaiting_approval
paused_of WorkflowStatus.completed incident h e = cc
paused_of WorkflowStatus.interrupted incident h e = h
paused_of WorkflowStatus.running incident h e = absurd h
paused_of WorkflowStatus.failed incident h e = absurd h

resumes :
    (reasons : Reasons) (at : ℕ) (p : Progress)
    → IsSettled p
    → is_completed p.run.status ≡ false
    → (q : Progress) × (record_resume_outcome true reasons at p ≡ ok q)
      × (is_completed q.run.status ≡ true)
      × IsSettled q
unfolding record_resume_outcome is_legal
resumes reasons at p settled unfinished =
    let waits = paused_of p.run.status p.tracked.incident.status settled.together unfinished in
    let (q, is_q, done, settled') =
      finishes resume_reason reasons.finished at p.run p.tracked settled.history
        (ap (λ s. is_legal s executing) waits) in
    (q, rw unfinished is_q, rw done, settled')

-- Resuming a settled run is always recorded, never refused, and run, incident and history agree
-- afterwards. Either nothing at all changes, or nothing waits any more and the run was not completed,
-- and it is completed then.
pub record_resume_outcome-IsSettled :
    (is_complete : Bool) (reasons : Reasons) (at : ℕ) (p : Progress)
    → IsSettled p
    → (q : Progress) × (record_resume_outcome is_complete reasons at p ≡ ok q)
      × ((q ≡ p) ⊎ ((is_complete ≡ true) × (is_completed p.run.status ≡ false)))
      × (is_completed q.run.status ≡ (is_complete || is_completed p.run.status))
      × IsSettled q
unfolding record_resume_outcome
record_resume_outcome-IsSettled false reasons at p settled = (p, refl, inl refl, refl, settled)
record_resume_outcome-IsSettled true reasons at p settled =
    elim (Bool-cases (is_completed p.run.status)) [
      | inl done ↦ (p, rw done, inl refl, done, settled)
      | inr unfinished ↦
          let (q, is_q, done, settled') = resumes reasons at p settled unfinished in
          (q, is_q, inr (refl, unfinished), done, settled')
    ]
