-- ===== src/Events/Pipeline.antt =====
-- src/revenue_sentinel/events/pipeline.py: one cycle of ingestion, and `allocate_incident_ref` of
-- incidents/service.py.
pub mod Twice
use revenue_sentinel.Base.{
  ℕ, suc, Bool, true, false, ◌==◌, String, Option, none, some, List, [], ◌∷◌, ◌++◌, any, length,
  map, Result, ok, err, ◌>>=◌, if◌then◌else◌,
}
use revenue_sentinel.Base.Int.{pos}
use revenue_sentinel.Base.Text.{codes, text_of}
use revenue_sentinel.Core.Refs.{RefError, format_ref}
use revenue_sentinel.Domain.Gtm.{Account, Opportunity, Mirror}
use revenue_sentinel.Signals.Stalled.{DetectionError}
use revenue_sentinel.Signals.Registry.{
  DetectorSettings, ConfigurationError, Detector, implemented_detectors,
}
use revenue_sentinel.Incidents.{IncidentError, Tracked, OpeningSignal, open_incident_for_signal}
use revenue_sentinel.Events.{Library, Signal, Store}
use revenue_sentinel.Events.Sources.{read_source_events, account_of, opportunity_of}
use revenue_sentinel.Events.Ingest.{IngestResult, ingest_source_events}
use revenue_sentinel.Events.Normalize.{NormalizeError, NormalizeResult, normalize_pending}
use revenue_sentinel.Events.Dispatch.{Detection, run_detectors, signals_created, deduplicated}

-- What a cycle raises.
pub data CycleError : Type 0 where
  normalization : NormalizeError → CycleError
  configuration : ConfigurationError → CycleError
  detection : DetectionError → CycleError
  reference : RefError → CycleError
  incident : IncidentError → CycleError
  second_incident : ℕ → CycleError

abbrev pub raised {ℓ κ} :
    {E : Type ℓ} {A : Type κ} → (E → CycleError) → Result E A → Result CycleError A
raised f (ok a) = ok a
raised f (err e) = err (f e)

pub record Settings : Type 0 where
  pub detector : DetectorSettings
  pub seed : ℕ

pub record IngestionSummary : Type 0 where
  pub evaluated_at : ℕ
  pub raw_offered : ℕ
  pub raw_inserted : ℕ
  pub normalized : ℕ
  pub contexts_evaluated : ℕ
  pub signals_created : ℕ
  pub signals_deduplicated : ℕ
  pub incidents_opened : ℕ
  pub incident_refs : List String

-- `allocate_incident_ref`: the sequence moves whatever becomes of the number.
unfoldable pub allocate_incident_ref : ℕ → Result RefError String
allocate_incident_ref number = format_ref (codes "INC") (pos number) 3 >>= λ ref. ok (text_of ref)

id_of_account : Option Account → Option ℕ
id_of_account none = none
id_of_account (some account) = some account.id

id_of_opportunity : Option Opportunity → Option ℕ
id_of_opportunity none = none
id_of_opportunity (some opportunity) = some opportunity.id

opportunity_found : Mirror → Option ℕ → Option ℕ
unfolding id_of_opportunity
opportunity_found mirror none = none
opportunity_found mirror (some id) = id_of_opportunity (opportunity_of mirror id)

-- The signal as the incident service reads it.
unfoldable pub opening_signal : Mirror → Signal → OpeningSignal
unfolding id_of_account opportunity_found
opening_signal mirror signal = record {
  id = signal.id;
  severity = signal.severity;
  account = id_of_account (account_of mirror signal.account_id);
  opportunity = opportunity_found mirror signal.opportunity_id;
}

-- `UNIQUE (signal_id)` of the incidents.
abbrev pub has_incident : ℕ → List Tracked → Bool
has_incident signal_id incidents =
    any (λ (t : Tracked). t.incident.signal_id == signal_id) incidents

-- The incident's row, unless the constraint refuses it.
inserted : ℕ → String → Tracked → Store → Result CycleError (String × Store)
inserted signal_id incident_ref opened st =
    if has_incident signal_id st.incidents
    then err (second_incident signal_id)
    else ok (
      incident_ref,
      record st {
        incidents = st.incidents ++ opened ∷ [];
        next_id = suc st.next_id;
        next_incident = suc st.next_incident;
      },
    )

-- `open_incident_for_signal` on the tables: the incident takes the next reference.
unfoldable pub open_one : ℕ → Signal → Store → Result CycleError (String × Store)
unfolding inserted
open_one occurred_at signal st = do
  incident_ref ← raised reference (allocate_incident_ref st.next_incident)
  opened ← raised incident (
      open_incident_for_signal (opening_signal st.mirror signal) st.next_id incident_ref
        occurred_at)
  inserted signal.id incident_ref opened st

-- The loop over the new signals, with the references that it collects.
pub open_incidents : ℕ → List Signal → Store → Result CycleError (List String × Store)
open_incidents occurred_at [] st = ok ([], st)
open_incidents occurred_at (signal ∷ rest) st = do
  first ← open_one occurred_at signal st
  others ← open_incidents occurred_at rest first.1
  ok (first.0 ∷ others.0, others.1)

unfoldable pub summarize :
    ℕ → IngestResult → NormalizeResult → Detection → List String → IngestionSummary
summarize evaluated_at ingested normalized detected incident_refs = record {
  evaluated_at = evaluated_at;
  raw_offered = ingested.offered;
  raw_inserted = ingested.inserted;
  normalized = normalized.normalized;
  contexts_evaluated = detected.contexts;
  signals_created = signals_created detected;
  signals_deduplicated = deduplicated detected;
  incidents_opened = length incident_refs;
  incident_refs = incident_refs;
}

module _ (lib : Library) (settings : Settings) where
  -- The cycle after the ingestion.
  unfoldable pub detect_and_open :
      ℕ → IngestResult → NormalizeResult → Store → Result CycleError (IngestionSummary × Store)
  unfolding open_incidents
  detect_and_open evaluated_at ingested normalized st = do
    detectors ← raised configuration (implemented_detectors settings.detector)
    detected ← raised detection (
        run_detectors lib settings.seed detectors st.mirror st.normalized_events evaluated_at
          st.signals)
    opened ← open_incidents evaluated_at detected.created (record st { signals = detected.signals })
    ok (summarize evaluated_at ingested normalized detected opened.0, opened.1)

  -- `run_ingestion_cycle`.
  unfoldable pub run_ingestion_cycle : ℕ → Store → Result CycleError (IngestionSummary × Store)
  run_ingestion_cycle evaluated_at st =
      let (ingested, stored) =
        ingest_source_events lib (read_source_events lib st.mirror) evaluated_at st in
      raised normalization (normalize_pending lib stored) >>= λ (normalized, ready).
      detect_and_open evaluated_at ingested normalized ready
