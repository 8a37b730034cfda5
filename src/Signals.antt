-- ===== src/Signals.antt =====
-- src/revenue_sentinel/signals: the contract of a detector, the one that is implemented, and the registry.
pub mod Stalled
pub mod Registry
use revenue_sentinel.Base.{ℕ, String, Option, List}
use revenue_sentinel.Domain.{SignalType, Severity, EventType, SourceSystem}
use revenue_sentinel.Domain.Gtm.{Account, Opportunity, UsageSnapshot}
use revenue_sentinel.Json.{Object}

-- `EventEnvelope`. Its trust level has one value, `untrusted`, and is left out.
pub record EventEnvelope : Type 0 where
  pub id : ℕ
  pub raw_event_id : ℕ
  pub schema_version : String
  pub event_type : EventType
  pub source_system : SourceSystem
  pub occurred_at : ℕ
  pub received_at : ℕ
  pub account_ref : Option String
  pub opportunity_ref : Option String
  pub attributes : Object

-- What a detector may look at.
pub record DetectionContext : Type 0 where
  pub evaluated_at : ℕ
  pub account : Account
  pub opportunity : Opportunity
  pub latest_sales_touch : Option ℕ
  pub usage_window : List UsageSnapshot
  pub events : List EventEnvelope

-- What a detector returns.
pub record SignalCandidate : Type 0 where
  pub signal_type : SignalType
  pub detector_version : String
  pub severity : Severity
  pub account_id : ℕ
  pub opportunity_id : Option ℕ
  pub detected_at : ℕ
  pub dedupe_key : String
  pub evidence_refs : List ℕ
