-- ===== src/Incidents.antt =====
-- src/revenue_sentinel/incidents/lifecycle.py and service.py: the incident state machine, and the
-- service that moves an incident and writes the audit trail.
pub mod Trail
pub mod Paths
use revenue_sentinel.Base.{
  ℕ, Bool, true, false, String, Option, none, some, List, [], ◌∷◌, ◌++◌, Result, ok, err, ◌>>=◌,
  ◌>>◌, if◌then◌else◌,
}
use revenue_sentinel.Domain.{
  IncidentStatus, detected, triaged, investigating, analyzed, strategized, awaiting_approval,
  executing, completed, closed_rejected, expired, dismissed, failed, Severity,
}

-- `to_status in LEGAL_TRANSITIONS[from_status]`.
unfoldable pub is_legal : IncidentStatus → IncidentStatus → Bool
is_legal detected triaged = true
is_legal detected dismissed = true
is_legal triaged investigating = true
is_legal triaged dismissed = true
is_legal investigating analyzed = true
is_legal investigating failed = true
is_legal analyzed strategized = true
is_legal analyzed failed = true
is_legal strategized awaiting_approval = true
is_legal strategized executing = true
is_legal awaiting_approval executing = true
is_legal awaiting_approval closed_rejected = true
is_legal awaiting_approval expired = true
is_legal executing completed = true
is_legal _ _ = false

-- `status in TERMINAL_INCIDENT_STATUSES`.
unfoldable pub is_terminal : IncidentStatus → Bool
is_terminal completed = true
is_terminal closed_rejected = true
is_terminal expired = true
is_terminal dismissed = true
is_terminal failed = true
is_terminal _ = false

pub data IncidentError : Type 0 where
  illegal_transition : String → IncidentStatus → IncidentStatus → IncidentError
  missing_account : ℕ → IncidentError
  missing_opportunity : ℕ → IncidentError

unfoldable pub require_legal :
    String → IncidentStatus → IncidentStatus → Result IncidentError (Unit {0})
require_legal incident_ref from_status to_status =
    if is_legal from_status to_status
    then ok tt
    else err (illegal_transition incident_ref from_status to_status)

pub record Incident : Type 0 where
  pub id : ℕ
  pub incident_ref : String
  pub signal_id : ℕ
  pub status : IncidentStatus
  pub severity : Severity
  pub account_id : ℕ
  pub opportunity_id : ℕ
  pub opened_at : ℕ
  pub closed_at : Option ℕ

-- The rows of `audit_events` that the service writes: their event type, and of the payload what
-- tells of the incident's status.
pub data AuditChange : Type 0 where
  incident_opened : AuditChange
  incident_transitioned : IncidentStatus → IncidentStatus → String → AuditChange

pub record AuditEvent : Type 0 where
  pub incident_id : ℕ
  pub change : AuditChange
  pub actor : String
  pub occurred_at : ℕ

-- An incident's row, and the audit trail, oldest first.
pub record Tracked : Type 0 where
  pub incident : Incident
  pub trail : List AuditEvent

abbrev pub signal_agent_actor : String
signal_agent_actor = "agent:signal_agent"

record_audit_event : AuditChange → String → ℕ → Tracked → Tracked
record_audit_event change actor occurred_at t = record t {
  trail =
      t.trail
      ++ record {
        incident_id = t.incident.id;
        change = change;
        actor = actor;
        occurred_at = occurred_at;
      }
        ∷ [];
}

moved : IncidentStatus → ℕ → Incident → Incident
moved to_status occurred_at incident = record incident {
  status = to_status;
  closed_at = if is_terminal to_status then some occurred_at else incident.closed_at;
}

-- `transition_incident`: nothing is written before the check.
unfoldable pub transition_incident :
    IncidentStatus → String → String → ℕ → Tracked → Result IncidentError Tracked
unfolding require_legal record_audit_event moved
transition_incident to_status actor reason occurred_at t = do
  require_legal t.incident.incident_ref t.incident.status to_status
  ok (
      record_audit_event (incident_transitioned t.incident.status to_status reason) actor
        occurred_at (record t { incident = moved to_status occurred_at t.incident }))

-- The signal that opens an incident, with the account and the opportunity found for it.
pub record OpeningSignal : Type 0 where
  pub id : ℕ
  pub severity : Severity
  pub account : Option ℕ
  pub opportunity : Option ℕ

opened : OpeningSignal → ℕ → String → ℕ → ℕ → ℕ → Incident
opened signal new_id incident_ref account opportunity occurred_at = record {
  id = new_id;
  incident_ref = incident_ref;
  signal_id = signal.id;
  status = detected;
  severity = signal.severity;
  account_id = account;
  opportunity_id = opportunity;
  opened_at = occurred_at;
  closed_at = none;
}

open_found : OpeningSignal → ℕ → String → ℕ → Option ℕ → Option ℕ → Result IncidentError Tracked
unfolding opened record_audit_event
open_found signal new_id incident_ref occurred_at none opportunity = err (missing_account signal.id)
open_found signal new_id incident_ref occurred_at (some account) none =
    err (missing_opportunity signal.id)
open_found signal new_id incident_ref occurred_at (some account) (some opportunity) =
    transition_incident triaged signal_agent_actor "severity assigned from weighted pipeline value"
      occurred_at
      (record_audit_event incident_opened signal_agent_actor occurred_at (record {
        incident = opened signal new_id incident_ref account opportunity occurred_at;
        trail = [];
      }))

-- `open_incident_for_signal`. `new_id` and `incident_ref` come from the database.
unfoldable pub open_incident_for_signal :
    OpeningSignal → ℕ → String → ℕ → Result IncidentError Tracked
unfolding open_found transition_incident
open_incident_for_signal signal new_id incident_ref occurred_at =
    open_found signal new_id incident_ref occurred_at signal.account signal.opportunity
