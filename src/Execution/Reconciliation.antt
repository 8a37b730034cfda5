-- ===== src/Execution/Reconciliation.antt =====
-- src/revenue_sentinel/execution/reconciliation.py: a person's finding about an action of unknown outcome.
--
-- A table's rows stand in the order of their creation, which is the order of `created_at`.
pub mod Findings
use revenue_sentinel.Base.{
  ℕ, Bool, true, false, not, ◌&&◌, String, Option, none, some, List, [], ◌∷◌, ◌++◌, find, keep,
  Result, ok, err, ◌>>=◌, ◌>>◌, raise_if, if◌then◌else◌, ◌==◌,
}
use revenue_sentinel.Base.Text.{strip, is_blank}
use revenue_sentinel.Domain.{ActionStatus, ActionType, succeeded, failed, indeterminate}
use revenue_sentinel.Execution.Executor.{ActionRecord, save}

pub data Outcome : Type 0 where
  occurred did_not_occur : Outcome

-- `Outcome.status`.
unfoldable pub outcome_status : Outcome → ActionStatus
outcome_status occurred = succeeded
outcome_status did_not_occur = failed

-- `ReconciliationError`, by what it reports.
pub data ReconciliationError : Type 0 where
  no_action : ℕ → ReconciliationError
  already_reconciled : String → ReconciliationError
  not_indeterminate : ActionStatus → ReconciliationError
  actor_required : ReconciliationError
  evidence_required : ReconciliationError

-- The audit event, with the payload's fields that vary.
pub record ReconciledEvent : Type 0 where
  pub run_id : ℕ
  pub incident_id : Option ℕ
  pub actor : String
  pub action_record_id : ℕ
  pub previous_status : ActionStatus
  pub new_status : ActionStatus
  pub outcome : Outcome
  pub evidence : String
  pub idempotency_key : String
  pub attempt_count : ℕ
  pub occurred_at : ℕ

-- A row of `workflow_runs` joined with the incident that it belongs to.
pub record RunIncident : Type 0 where
  pub run_id : ℕ
  pub incident_id : ℕ
  pub incident_ref : String

-- The tables that the service reads and writes; the trail is oldest first.
pub record Attested : Type 0 where
  pub actions : List ActionRecord
  pub runs : List RunIncident
  pub trail : List ReconciledEvent

-- `session.get(ActionRecord, id)`.
abbrev pub action_at : ℕ → List ActionRecord → Option ActionRecord
action_at id = find (λ row. row.id == id)

found : ℕ → Option ActionRecord → Result ReconciliationError ActionRecord
found id none = err (no_action id)
found id (some row) = ok row

unfoldable pub get_action : ℕ → Attested → Result ReconciliationError ActionRecord
unfolding found
get_action id st = found id (action_at id st.actions)

-- `record.reconciled_by is not None`.
unreconciled : Option String → Result ReconciliationError (Unit {0})
unreconciled none = ok tt
unreconciled (some who) = err (already_reconciled who)

-- `record.status is not ActionStatus.INDETERMINATE`.
uncertain : ActionStatus → Result ReconciliationError (Unit {0})
uncertain indeterminate = ok tt
uncertain status = err (not_indeterminate status)

incident_of : Option RunIncident → Option ℕ
incident_of none = none
incident_of (some run) = some run.incident_id

-- The row that `reconcile` flushes.
unfoldable pub attest : Outcome → String → String → ℕ → ActionRecord → ActionRecord
attest outcome actor evidence now row = record row {
  status = outcome_status outcome;
  reconciled_by = some (strip actor);
  reconciled_at = some now;
  reconciliation_evidence = some (strip evidence);
}

unfoldable pub reconciled_event :
    Outcome → String → String → ℕ → ActionRecord → List RunIncident → ReconciledEvent
unfolding incident_of
reconciled_event outcome actor evidence now row runs = record {
  run_id = row.run_id;
  incident_id = incident_of (find (λ run. run.run_id == row.run_id) runs);
  actor = strip actor;
  action_record_id = row.id;
  previous_status = row.status;
  new_status = outcome_status outcome;
  outcome = outcome;
  evidence = strip evidence;
  idempotency_key = row.idempotency_key;
  attempt_count = row.attempt_count;
  occurred_at = now;
}

-- The refusals, in their order.
unfoldable pub refusals : String → String → ActionRecord → Result ReconciliationError (Unit {0})
unfolding unreconciled uncertain
refusals actor evidence row =
    unreconciled row.reconciled_by
    >> (uncertain row.status
        >> (raise_if (is_blank actor) actor_required
            >> raise_if (is_blank evidence) evidence_required))

-- The two flushes: the row, then the event.
unfoldable pub attested :
    Outcome → String → String → ℕ → ActionRecord → Attested → ActionRecord × Attested
attested outcome actor evidence now row st =
    let done = attest outcome actor evidence now row in
    (
      done,
      record st {
        actions = save done st.actions;
        trail = st.trail ++ reconciled_event outcome actor evidence now row st.runs ∷ [];
      },
    )

unfoldable pub reconcile :
    ℕ
    → Outcome
    → String
    → String
    → ℕ
    → Attested
    → Result ReconciliationError (ActionRecord × Attested)
reconcile id outcome actor evidence now st = get_action id st >>= λ row.
    refusals actor evidence row >> ok (attested outcome actor evidence now row st)

-- `UncertainAction`, less the time of the claim and the rendered command.
pub record UncertainAction : Type 0 where
  pub action_record_id : ℕ
  pub incident_ref : String
  pub action_type : ActionType
  pub target_ref : String
  pub idempotency_key : String
  pub attempt_count : ℕ
  pub integration_status : String

is_none : Option String → Bool
is_none none = true
is_none (some s) = false

is_indeterminate : ActionStatus → Bool
is_indeterminate indeterminate = true
is_indeterminate _ = false

-- The `where` of the query.
unfoldable pub awaits_finding : ActionRecord → Bool
unfolding is_none is_indeterminate
awaits_finding row = is_indeterminate row.status && is_none row.reconciled_by

-- The inner join with the run's incident: a row without one is dropped.
joined : ActionRecord → Option RunIncident → List UncertainAction → List UncertainAction
joined row none rest = rest
joined row (some run) rest =
    record {
      action_record_id = row.id;
      incident_ref = run.incident_ref;
      action_type = row.action_type;
      target_ref = row.target_ref;
      idempotency_key = row.idempotency_key;
      attempt_count = row.attempt_count;
      integration_status = "SIMULATED";
    }
    ∷ rest

join_incidents : List RunIncident → List ActionRecord → List UncertainAction
unfolding joined
join_incidents runs [] = []
join_incidents runs (row ∷ rows) =
    joined row (find (λ run. run.run_id == row.run_id) runs) (join_incidents runs rows)

unfoldable pub list_uncertain : Attested → List UncertainAction
unfolding join_incidents awaits_finding
list_uncertain st = join_incidents st.runs (keep awaits_finding st.actions)
