-- ===== src/Examples/Incidents.antt =====
-- The incident lifecycle and the outcome of a pass at concrete inputs.
use revenue_sentinel.Base.{◌≤◌, ◌⊎◌, true, false, none, some, List, [], ◌∷◌, length, ok, ◌≡◌, refl}
use revenue_sentinel.Domain.{
  IncidentStatus, detected, triaged, investigating, analyzed, strategized, awaiting_approval,
  executing, completed, WorkflowStatus, Severity,
}
use revenue_sentinel.Incidents.{
  Tracked, Incident, OpeningSignal, AuditChange, AuditEvent, is_legal, is_terminal,
  transition_incident,
}
use revenue_sentinel.Incidents.Paths.{path-bounded, IsPath}
use revenue_sentinel.Incidents.Trail.{IsTracked, replay, follow, transition-IsTracked}
use revenue_sentinel.Orchestration.Outcome.{
  Progress, Reasons, is_completed, record_execution_outcome, record_resume_outcome,
}
use revenue_sentinel.Orchestration.Outcome.Walk.{
  IsSettled, record_execution_outcome-IsSettled, record_resume_outcome-IsSettled,
}

abbrev signal : OpeningSignal
signal = record { id = 1; severity = Severity.high; account = some 10; opportunity = some 20 }

-- The way of the golden scenario.
abbrev golden_path : List IncidentStatus
golden_path =
    triaged ∷ investigating ∷ analyzed ∷ strategized ∷ awaiting_approval ∷ executing ∷ completed
    ∷ []

golden_path-IsPath : IsPath detected golden_path
unfolding is_legal
golden_path-IsPath = (refl, (refl, (refl, (refl, (refl, (refl, (refl, tt)))))))

path-bounded_example : length golden_path ≤ 7
path-bounded_example = path-bounded golden_path golden_path-IsPath

abbrev row : IncidentStatus → AuditChange → AuditEvent
row to change = record {
  incident_id = 5;
  change = change;
  actor = "agent:signal_agent";
  occurred_at = 100;
}

abbrev incident_in : IncidentStatus → Incident
incident_in status = record {
  id = 5;
  incident_ref = "INC-001";
  signal_id = 1;
  status = status;
  severity = Severity.high;
  account_id = 10;
  opportunity_id = 20;
  opened_at = 100;
  closed_at = none;
}

-- An incident just opened, and one that its investigation has analysed.
abbrev fresh : Tracked
fresh = record {
  incident = incident_in detected;
  trail = row detected AuditChange.incident_opened ∷ [];
}

abbrev moved_row : IncidentStatus → IncidentStatus → AuditEvent
moved_row from to = row to (AuditChange.incident_transitioned from to "next")

abbrev analysed : Tracked
analysed = record {
  incident = incident_in analyzed;
  trail =
      row detected AuditChange.incident_opened
      ∷ moved_row detected triaged
      ∷ moved_row triaged investigating
      ∷ moved_row investigating analyzed
      ∷ [];
}

fresh-IsTracked : IsTracked fresh
unfolding replay follow is_legal is_terminal
fresh-IsTracked = record { told = refl; open_unclosed = λ h. refl; terminal_closed = λ h. cc }

analysed-IsTracked : IsTracked analysed
unfolding replay follow is_legal is_terminal
analysed-IsTracked = record { told = refl; open_unclosed = λ h. refl; terminal_closed = λ h. cc }

abbrev triaged_state : Tracked
triaged_state = record {
  incident = incident_in triaged;
  trail = row detected AuditChange.incident_opened ∷ moved_row detected triaged ∷ [];
}

triages : transition_incident triaged "agent:signal_agent" "next" 100 fresh ≡ ok triaged_state
unfolding transition_incident is_legal is_terminal
triages = refl

transition-IsTracked_example : IsTracked triaged_state
transition-IsTracked_example =
    transition-IsTracked triaged "agent:signal_agent" "next" 100 fresh triaged_state fresh-IsTracked
      triages

abbrev reasons : Reasons
reasons = record { authorised = "authorised"; finished = "finished"; waiting = "waiting" }

abbrev investigated : Progress
investigated = record {
  run = record { id = 3; status = WorkflowStatus.running; current_node = none; ended_at = none };
  tracked = analysed;
}

record_execution_outcome-IsSettled_example :
    (q : Progress) × (record_execution_outcome false reasons 200 investigated ≡ ok q)
    × (is_completed q.run.status ≡ false)
    × IsSettled q
record_execution_outcome-IsSettled_example =
    record_execution_outcome-IsSettled false reasons 200 investigated analysed-IsTracked refl

abbrev waiting : Tracked
waiting = record {
  incident = incident_in awaiting_approval;
  trail =
      row detected AuditChange.incident_opened
      ∷ moved_row detected triaged
      ∷ moved_row triaged investigating
      ∷ moved_row investigating analyzed
      ∷ moved_row analyzed strategized
      ∷ moved_row strategized awaiting_approval
      ∷ [];
}

abbrev interrupted_run : Progress
interrupted_run = record {
  run = record {
    id = 3;
    status = WorkflowStatus.interrupted;
    current_node = none;
    ended_at = none;
  };
  tracked = waiting;
}

interrupted_run-IsSettled : IsSettled interrupted_run
unfolding replay follow is_legal is_terminal
interrupted_run-IsSettled = record {
  together = refl;
  history = record { told = refl; open_unclosed = λ h. refl; terminal_closed = λ h. cc };
}

record_resume_outcome-IsSettled_example :
    (q : Progress) × (record_resume_outcome true reasons 300 interrupted_run ≡ ok q)
    × ((q ≡ interrupted_run) ⊎ ((true ≡ true) × (is_completed interrupted_run.run.status ≡ false)))
    × (is_completed q.run.status ≡ true)
    × IsSettled q
record_resume_outcome-IsSettled_example =
    record_resume_outcome-IsSettled true reasons 300 interrupted_run interrupted_run-IsSettled
