-- ===== src/Incidents/Trail.antt =====
-- The audit trail of src/revenue_sentinel/incidents/service.py, replayed.
use mathlib.Core.Path.{ap₂}
use revenue_sentinel.Base.{
  ℕ, ◌≡◌, ◌≢◌, refl, sym, ap, ◌∙◌, true, false, ◌&&◌, ◌==◌, String, Option, none, some, List, [],
  ◌∷◌, ◌++◌, ok, arith, if◌then◌else◌, ok_of, is_ok,
}
use revenue_sentinel.Domain.{
  IncidentStatus, detected, triaged, investigating, analyzed, strategized, awaiting_approval,
  executing, completed, closed_rejected, expired, dismissed, failed,
}
use revenue_sentinel.Incidents.{
  is_legal, is_terminal, AuditChange, AuditEvent, incident_opened, incident_transitioned, Tracked,
  transition_incident, OpeningSignal, open_incident_for_signal, open_found, opened,
  record_audit_event, signal_agent_actor,
}

status_code : IncidentStatus → ℕ
status_code detected = 0
status_code triaged = 1
status_code investigating = 2
status_code analyzed = 3
status_code strategized = 4
status_code awaiting_approval = 5
status_code executing = 6
status_code completed = 7
status_code closed_rejected = 8
status_code expired = 9
status_code dismissed = 10
status_code failed = 11

-- What a reader of the trail makes of one more row: an incident is opened once, as detected, and each
-- transition leaves the status reached so far along a legal edge.
unfoldable pub follow : Option IncidentStatus → AuditChange → Option IncidentStatus
unfolding status_code
follow none incident_opened = some detected
follow (some s) (incident_transitioned from to reason) =
    if status_code s == status_code from && is_legal from to then some to else none
follow _ _ = none

pub replay_from : Option IncidentStatus → List AuditEvent → Option IncidentStatus
replay_from s [] = s
replay_from s (event ∷ events) = replay_from (follow s event.change) events

-- The status that the trail tells, if it is a history.
unfoldable pub replay : List AuditEvent → Option IncidentStatus
unfolding replay_from
replay trail = replay_from none trail

replay_from-append :
    (s : Option IncidentStatus) (trail : List AuditEvent) (event : AuditEvent)
    → replay_from s (trail ++ event ∷ []) ≡ follow (replay_from s trail) event.change
unfolding replay_from
replay_from-append s [] event = refl
replay_from-append s (e ∷ trail) event = replay_from-append (follow s e.change) trail event

follow_legal :
    (s t : IncidentStatus) (reason : String)
    → is_legal s t ≡ true
    → follow (some s) (incident_transitioned s t reason) ≡ some t
unfolding follow
follow_legal s t reason h = rw h (ground arith)

-- The status is what the trail tells, and the closing time is set exactly in a terminal status.
pub record IsTracked (t : Tracked) : Type 0 where
  pub told : replay t.trail ≡ some t.incident.status
  pub open_unclosed : is_terminal t.incident.status ≡ false → t.incident.closed_at ≡ none
  pub terminal_closed : is_terminal t.incident.status ≡ true → t.incident.closed_at ≢ none

-- The status that a transition reaches, and the trail one row longer.
pub transition_parts :
    (to : IncidentStatus) (actor reason : String) (at : ℕ) (t u : Tracked)
    → transition_incident to actor reason at t ≡ ok u
    → (is_legal t.incident.status to ≡ true)
      × (u.incident.status ≡ to)
      × (u.incident.closed_at ≡ (if is_terminal to then some at else t.incident.closed_at))
      × (u.trail
          ≡ t.trail
            ++ record {
              incident_id = t.incident.id;
              change = incident_transitioned t.incident.status to reason;
              actor = actor;
              occurred_at = at;
            }
              ∷ [])
unfolding transition_incident
transition_parts to actor reason at t u h = ground arith

told_after :
    (to : IncidentStatus) (actor reason : String) (at : ℕ) (t u : Tracked)
    → replay t.trail ≡ some t.incident.status
    → is_legal t.incident.status to ≡ true
    → u.incident.status ≡ to
    → u.trail
      ≡ t.trail
        ++ record {
          incident_id = t.incident.id;
          change = incident_transitioned t.incident.status to reason;
          actor = actor;
          occurred_at = at;
        }
          ∷ []
    → replay u.trail ≡ some u.incident.status
unfolding replay
told_after to actor reason at t u told legal status trail =
    let event : AuditEvent = record {
      incident_id = t.incident.id;
      change = incident_transitioned t.incident.status to reason;
      actor = actor;
      occurred_at = at;
    } in
    ap (replay_from none) trail
    ∙ replay_from-append none t.trail event
    ∙ ap (λ s. follow s event.change) told
    ∙ follow_legal t.incident.status to reason legal
    ∙ ap some (sym status)

no_edge_from_terminal : (s t : IncidentStatus) → is_legal s t ≡ true → is_terminal s ≡ false
unfolding is_legal is_terminal
no_edge_from_terminal s t h = ground arith

-- Every transition that is made keeps the history: the new trail tells the new status, and the
-- incident is closed exactly if that status is terminal.
pub transition-IsTracked :
    (to : IncidentStatus) (actor reason : String) (at : ℕ) (t u : Tracked)
    → IsTracked t
    → transition_incident to actor reason at t ≡ ok u
    → IsTracked u
transition-IsTracked to actor reason at t u tracked h =
    let (legal, status, closed, trail) = transition_parts to actor reason at t u h in
    record {
      told = told_after to actor reason at t u tracked.told legal status trail;
      open_unclosed =
          ground (arith, no_edge_from_terminal t.incident.status to, tracked.open_unclosed);
      terminal_closed = ground arith;
    }

-- The incident as `open_incident_for_signal` has it before the triage.
abbrev detected_state : OpeningSignal → ℕ → String → ℕ → ℕ → ℕ → Tracked
unfolding opened record_audit_event
detected_state signal id ref now account opportunity =
    record_audit_event incident_opened signal_agent_actor now
      (record { incident = opened signal id ref account opportunity now; trail = [] })

detected_state-IsTracked :
    (signal : OpeningSignal) (id : ℕ) (ref : String) (now account opportunity : ℕ)
    → IsTracked (detected_state signal id ref now account opportunity)
unfolding opened record_audit_event replay follow is_terminal
detected_state-IsTracked signal id ref now account opportunity = record {
  told = refl;
  open_unclosed = λ h. refl;
  terminal_closed = λ h. cc;
}

open_triages :
    (signal : OpeningSignal) (id : ℕ) (ref : String) (now account opportunity : ℕ)
    → (t : Tracked) × (open_found signal id ref now (some account) (some opportunity) ≡ ok t)
      × (t.incident.status ≡ triaged)
      × IsTracked t
unfolding open_found opened record_audit_event transition_incident is_legal
open_triages signal id ref now account opportunity =
    let (t, is_t) = ok_of (open_found signal id ref now (some account) (some opportunity)) refl in
    let start = detected_state signal id ref now account opportunity in
    (
      t,
      is_t,
      (transition_parts triaged signal_agent_actor _ now start t is_t).1,
      transition-IsTracked triaged signal_agent_actor _ now start t
          (detected_state-IsTracked signal id ref now account opportunity) is_t,
    )

-- Opening an incident goes through `detected`: it succeeds exactly when the account and the
-- opportunity are there, and then the incident is triaged, its trail has two rows and tells so.
pub open_incident_for_signal_lem :
    (signal : OpeningSignal) (id : ℕ) (ref : String) (now account opportunity : ℕ)
    → signal.account ≡ some account
    → signal.opportunity ≡ some opportunity
    → (t : Tracked) × (open_incident_for_signal signal id ref now ≡ ok t)
      × (t.incident.status ≡ triaged)
      × IsTracked t
unfolding open_incident_for_signal
open_incident_for_signal_lem signal id ref now account opportunity is_account is_opportunity =
    let (t, is_t, status, tracked) = open_triages signal id ref now account opportunity in
    (
      t,
      ap₂ (λ a o. open_found signal id ref now a o) is_account is_opportunity ∙ is_t,
      status,
      tracked,
    )

-- A legal transition is not refused.
pub goes :
    (to : IncidentStatus) (actor reason : String) (at : ℕ) (t : Tracked)
    → is_legal t.incident.status to ≡ true
    → is_ok (transition_incident to actor reason at t) ≡ true
unfolding transition_incident
goes to actor reason at t h = rw h
