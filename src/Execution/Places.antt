-- ===== src/Execution/Places.antt =====
-- src/revenue_sentinel/execution/service.py: the account and the opportunity that a run acts on, looked up.
use revenue_sentinel.Base.{ℕ, ◌==◌, String, Option, none, some, List, find, Result, ok, err}
use revenue_sentinel.Domain.{ActionType}
use revenue_sentinel.Execution.Executor.{ExecutionError}

-- What the arguments read of the account, the opportunity and the incident.
pub record Subject : Type 0 where
  pub account_ref : String
  pub account_owner : String
  pub opportunity_ref : String
  pub opportunity_owner : String
  pub incident_ref : String

-- The columns that the lookups of a pass read, and its argument `incident_ref`.
pub record RunPlace : Type 0 where
  pub id : ℕ
  pub incident_id : ℕ

pub record IncidentPlace : Type 0 where
  pub id : ℕ
  pub account_id : ℕ
  pub opportunity_id : Option ℕ

pub record Party : Type 0 where
  pub id : ℕ
  pub ref : String
  pub owner : String

pub record Places : Type 0 where
  pub incident_ref : String
  pub runs : List RunPlace
  pub incidents : List IncidentPlace
  pub accounts : List Party
  pub opportunities : List Party

-- What leaves the pass as an exception: the three in the middle are raised by the lookups.
pub data PhaseError : Type 0 where
  unsupported_action : ActionType → PhaseError
  no_result : PhaseError
  no_opportunity : ℕ → PhaseError
  no_party : PhaseError
  not_executed : ExecutionError → PhaseError

-- The join of `_account_id` and `_opportunity_id`, over primary keys.
abbrev joined_incident : Places → Option RunPlace → Option IncidentPlace
joined_incident places none = none
joined_incident places (some run) =
    find (λ (incident : IncidentPlace). incident.id == run.incident_id) places.incidents

abbrev pub incident_of : Places → ℕ → Option IncidentPlace
incident_of places run_id =
    joined_incident places (find (λ (run : RunPlace). run.id == run_id) places.runs)

abbrev pub party : ℕ → List Party → Option Party
party id = find (λ (row : Party). row.id == id)

-- `account is None or opportunity is None`.
abbrev met : String → Option Party → Option Party → Result PhaseError Subject
met incident_ref (some account) (some opportunity) = ok (record {
  account_ref = account.ref;
  account_owner = account.owner;
  opportunity_ref = opportunity.ref;
  opportunity_owner = opportunity.owner;
  incident_ref = incident_ref;
})
met incident_ref (some account) none = err no_party
met incident_ref none opportunity = err no_party

abbrev located : Places → ℕ → Option Party → Option ℕ → Result PhaseError Subject
located places run_id account none = err (no_opportunity run_id)
located places run_id account (some opportunity_id) =
    met places.incident_ref account (party opportunity_id places.opportunities)

abbrev looked_up : Places → ℕ → Option IncidentPlace → Result PhaseError Subject
looked_up places run_id none = err no_result
looked_up places run_id (some incident) =
    located places run_id (party incident.account_id places.accounts) incident.opportunity_id

-- The lookups of `_process`, in their order; the tables do not change during a pass.
unfoldable pub subject_of : Places → ℕ → Result PhaseError Subject
subject_of places run_id = looked_up places run_id (incident_of places run_id)
