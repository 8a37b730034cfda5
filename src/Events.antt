-- ===== src/Events.antt =====
-- src/revenue_sentinel/events: from the mirror of the sources to signals and incidents.
pub mod Sources
pub mod Ingest
pub mod Normalize
pub mod Dispatch
pub mod Pipeline
use revenue_sentinel.Base.{ℕ, String, Option, List, Bool, ◌&&◌, str_eq}
use revenue_sentinel.Json.{Json, Object}
use revenue_sentinel.Domain.{SourceSystem, source_value, SignalType, Severity}
use revenue_sentinel.Domain.Gtm.{Mirror}
use revenue_sentinel.Signals.{EventEnvelope}
use revenue_sentinel.Incidents.{Tracked}

-- What the modules call of the language's library, on instants, dates, ids, decimals and texts.
-- `fromisoformat` is none where the text is no time with a zone; a decimal is given by its places and
-- its units in the last of them.
pub record Library : Type 0 where
  pub hexdigest : String → String
  pub isoformat : ℕ → String
  pub fromisoformat : String → Option ℕ
  pub date_isoformat : ℕ → String
  pub id_text : ℕ → String
  pub int_text : ℕ → String
  pub decimal_text : ℕ → ℕ → String
  pub uuid5 : ℕ → String → ℕ
  pub namespace_url : ℕ

-- A row of `raw_events`.
pub record RawEvent : Type 0 where
  pub id : ℕ
  pub source_system : SourceSystem
  pub source_event_id : String
  pub received_at : ℕ
  pub payload : Json
  pub ingest_batch_id : ℕ

-- A row of `signals`.
pub record Signal : Type 0 where
  pub id : ℕ
  pub signal_type : SignalType
  pub detector_version : String
  pub severity : Severity
  pub account_id : ℕ
  pub opportunity_id : Option ℕ
  pub detected_at : ℕ
  pub dedupe_key : String
  pub evidence_refs : List ℕ

-- The tables of a cycle, and the supplies of ids and of incident numbers. An incident stands with
-- its audit trail.
pub record Store : Type 0 where
  pub mirror : Mirror
  pub raw_events : List RawEvent
  pub normalized_events : List EventEnvelope
  pub signals : List Signal
  pub incidents : List Tracked
  pub next_id : ℕ
  pub next_incident : ℕ

-- The key of `UNIQUE (source_system, source_event_id)`.
abbrev pub same_source : RawEvent → RawEvent → Bool
same_source a b =
    str_eq (source_value a.source_system) (source_value b.source_system)
    && str_eq a.source_event_id b.source_event_id
