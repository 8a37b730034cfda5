-- ===== src/Events/Pipeline/Twice.antt =====
-- Two cycles of src/revenue_sentinel/events/pipeline.py at one instant.
use mathlib.Core.Path.{subst, ◌∙◌}
use revenue_sentinel.Base.{
  ℕ, suc, ◌≡◌, refl, sym, ap, Bool, true, false, String, Option, List, [], ◌∷◌, ◌++◌, map, All,
  Result, ok, err, ◌>>=◌, >>=-eq-ok, ok-injective, if◌then◌else◌,
}
use revenue_sentinel.Base.Sorting.{sort_by, text_leb}
use revenue_sentinel.Domain.Gtm.{Opportunity}
use revenue_sentinel.Signals.{DetectionContext}
use revenue_sentinel.Signals.Stalled.{DetectionError}
use revenue_sentinel.Signals.Registry.{Detector, implemented_detectors}
use revenue_sentinel.Incidents.{Tracked, open_incident_for_signal}
use revenue_sentinel.Events.{Library, Signal, Store}
use revenue_sentinel.Events.Sources.{SourceEvent, read_source_events}
use revenue_sentinel.Events.Ingest.{IngestResult, ingest_source_events}
use revenue_sentinel.Events.Ingest.Replay.{AllIngested, ingest-AllIngested, ingest_again}
use revenue_sentinel.Events.Normalize.{NormalizeResult, normalize_pending, is_pending}
use revenue_sentinel.Events.Normalize.Pending.{normalize_pending_done, normalize_pending_again}
use revenue_sentinel.Events.Dispatch.{Detection, run_detectors, build_detection_context}
use revenue_sentinel.Events.Dispatch.Reports.{AllReported, run_all-AllReported}
use revenue_sentinel.Events.Dispatch.Again.{Unchanged, run_all_again}
use revenue_sentinel.Events.Pipeline.{
  CycleError, raised, normalization, configuration, detection, reference, incident, Settings,
  IngestionSummary, allocate_incident_ref, opening_signal, has_incident, second_incident, inserted,
  open_one, open_incidents, summarize, detect_and_open, run_ingestion_cycle,
}

raised_ok :
    {E A : Type 0} (f : E → CycleError) (call : Result E A) (a : A)
    → raised f call ≡ ok a
    → call ≡ ok a
raised_ok f (ok b) a h = ap ok (ok-injective h)
raised_ok f (err e) a h = cc

-- The tables that opening incidents does not touch.
abbrev OnlyIncidents : Store → Store → Type 0
OnlyIncidents st after =
    (after.mirror ≡ st.mirror)
    × (after.raw_events ≡ st.raw_events)
    × (after.normalized_events ≡ st.normalized_events)
    × (after.signals ≡ st.signals)

-- Ingesting changes the raw events and the supply of ids.
ingest_lem :
    (lib : Library) (events : List SourceEvent) (now : ℕ) (st : Store)
    → let out = ingest_source_events lib events now st in
      out.1 ≡ record st { raw_events = out.1.raw_events; next_id = out.1.next_id }
unfolding ingest_source_events
ingest_lem lib [] now st = refl
ingest_lem lib (first ∷ rest) now st = refl

inserted-OnlyIncidents :
    (signal_id : ℕ) (incident_ref : String) (opened : Tracked) (st : Store) (out : String × Store)
    → inserted signal_id incident_ref opened st ≡ ok out
    → OnlyIncidents st out.1
unfolding inserted
inserted-OnlyIncidents signal_id incident_ref opened st out =
    by_key (has_incident signal_id st.incidents)
  where
    by_key :
        (held : Bool)
        → (if held
            then err (second_incident signal_id)
            else ok (
              incident_ref,
              record st {
                incidents = st.incidents ++ opened ∷ [];
                next_id = suc st.next_id;
                next_incident = suc st.next_incident;
              },
            ))
          ≡ ok out
        → OnlyIncidents st out.1
    by_key true h = cc
    by_key false h =
        subst (λ (o : String × Store). OnlyIncidents st o.1) (ok-injective h)
          (refl, refl, refl, refl)

open_one-OnlyIncidents :
    (now : ℕ) (signal : Signal) (st : Store) (out : String × Store)
    → open_one now signal st ≡ ok out
    → OnlyIncidents st out.1
unfolding open_one
open_one-OnlyIncidents now signal st out h =
    let (incident_ref, _, h1) =
      >>=-eq-ok (raised reference (allocate_incident_ref st.next_incident)) _ h in
    let (opened, _, h2) =
      >>=-eq-ok
        (raised incident
          (open_incident_for_signal (opening_signal st.mirror signal) st.next_id incident_ref now))
        _ h1 in
    inserted-OnlyIncidents signal.id incident_ref opened st out h2

open_incidents-OnlyIncidents :
    (now : ℕ) (signals : List Signal) (st : Store) (out : List String × Store)
    → open_incidents now signals st ≡ ok out
    → OnlyIncidents st out.1
unfolding open_incidents
open_incidents-OnlyIncidents now [] st out h =
    subst (λ (o : List String × Store). OnlyIncidents st o.1) (ok-injective h)
      (refl, refl, refl, refl)
open_incidents-OnlyIncidents now (signal ∷ rest) st out h =
    let (first, opened, h1) = >>=-eq-ok (open_one now signal st) _ h in
    let (others, more, h2) = >>=-eq-ok (open_incidents now rest first.1) _ h1 in
    let a = open_one-OnlyIncidents now signal st first opened in
    let b = open_incidents-OnlyIncidents now rest first.1 others more in
    subst (λ (o : List String × Store). OnlyIncidents st o.1) (ok-injective h2)
      (b.0 ∙ a.0, b.1 ∙ a.1, b.2 ∙ a.2, b.3 ∙ a.3)

module _ (lib : Library) (settings : Settings) (now : ℕ) where
  abbrev contexts : Store → List (Option DetectionContext)
  contexts st = map (build_detection_context st.mirror st.normalized_events now) (
      sort_by (λ (a b : Opportunity). text_leb a.opportunity_ref b.opportunity_ref)
        st.mirror.opportunities)

  abbrev nothing_yet : List Signal → Detection
  nothing_yet signals = record { contexts = 0; candidates = 0; created = []; signals = signals }

  -- Every event has its row, every row its envelope, and every report its signal.
  abbrev Complete : Store → Type 0
  Complete st =
      AllIngested lib (read_source_events lib st.mirror) st.raw_events
      × All (λ raw. is_pending st.normalized_events raw ≡ false) st.raw_events
      × ((detectors : List Detector) × (implemented_detectors settings.detector ≡ ok detectors)
          × AllReported lib settings.seed detectors (contexts st) st.signals)

  -- A cycle that returned, that created nothing and left every table as it was.
  abbrev pub CreatesNothing : Store → Result CycleError (IngestionSummary × Store) → Type 0
  CreatesNothing st (ok (summary, after)) =
      ((summary.raw_inserted ≡ 0)
        × (summary.normalized ≡ 0)
        × (summary.signals_created ≡ 0)
        × (summary.incidents_opened ≡ 0))
      × ((after.mirror ≡ st.mirror)
          × (after.raw_events ≡ st.raw_events)
          × (after.normalized_events ≡ st.normalized_events)
          × (after.signals ≡ st.signals)
          × (after.incidents ≡ st.incidents))
  CreatesNothing st (err e) = ⊥

  detected_quiet :
      (st : Store) (ingested : IngestResult) (normalized : NormalizeResult)
      (out : Result DetectionError Detection)
      → ingested.inserted ≡ 0
      → normalized.normalized ≡ 0
      → Unchanged lib settings.seed (nothing_yet st.signals) out
      → CreatesNothing st (
          raised detection out >>= λ detected.
          open_incidents now detected.created (record st { signals = detected.signals })
          >>= λ opened. ok (summarize now ingested normalized detected opened.0, opened.1))
  unfolding summarize open_incidents
  detected_quiet st ingested normalized (ok detected) none_in none_new (same, none_created) =
      rw none_created ((none_in, none_new, refl, refl), (refl, refl, refl, same, refl))
  detected_quiet st ingested normalized (err e) none_in none_new r = absurd r

  detect_quiet :
      (st : Store) (ingested : IngestResult) (normalized : NormalizeResult)
      → Complete st
      → ingested.inserted ≡ 0
      → normalized.normalized ≡ 0
      → CreatesNothing st (detect_and_open lib settings now ingested normalized st)
  unfolding detect_and_open run_detectors
  detect_quiet st ingested normalized complete none_in none_new =
      let (detectors, is_detectors, reported) = complete.2 in
      rw is_detectors (
        detected_quiet st ingested normalized
          (run_detectors lib settings.seed detectors st.mirror st.normalized_events now st.signals)
          none_in none_new
          (run_all_again lib settings.seed detectors (contexts st) (nothing_yet st.signals)
            reported))

  -- A cycle on complete tables creates nothing.
  again : (st : Store) → Complete st → CreatesNothing st (run_ingestion_cycle lib settings now st)
  unfolding run_ingestion_cycle
  again st complete =
      let events = read_source_events lib st.mirror in
      let out = ingest_source_events lib events now st in
      let (none_in, _, same) = ingest_again lib events now st complete.0 in
      let fresh : Store = record st { next_id = out.1.next_id } in
      let stored : out.1 ≡ fresh =
        ingest_lem lib events now st
        ∙ ap (λ rows. let s : Store = record st { raw_events = rows; next_id = out.1.next_id } in s)
            same in
      subst
        (λ s. CreatesNothing st (
          raised normalization (normalize_pending lib s) >>= λ (normalized, ready).
          detect_and_open lib settings now out.0 normalized ready))
        (sym stored)
        (rw (normalize_pending_again lib fresh complete.1)
          (detect_quiet fresh out.0 _ complete none_in refl))

  same_tables : (st after : Store) → OnlyIncidents st after → Complete st → Complete after
  same_tables st after (mirror, raw, envelopes, signals) complete =
      rw (mirror, raw, envelopes, signals) complete

  detected-Complete :
      (ready : Store) (ingested : IngestResult) (normalized : NormalizeResult)
      (summary : IngestionSummary) (after : Store)
      → AllIngested lib (read_source_events lib ready.mirror) ready.raw_events
      → All (λ raw. is_pending ready.normalized_events raw ≡ false) ready.raw_events
      → detect_and_open lib settings now ingested normalized ready ≡ ok (summary, after)
      → Complete after
  unfolding detect_and_open run_detectors
  detected-Complete ready ingested normalized summary after all_in all_done h =
      let (detectors, is_detectors, h1) =
        >>=-eq-ok (raised configuration (implemented_detectors settings.detector)) _ h in
      let (detected, ran, h2) =
        >>=-eq-ok
          (raised detection (
            run_detectors lib settings.seed detectors ready.mirror ready.normalized_events now
              ready.signals))
          _ h1 in
      let (opened, loop, h3) =
        >>=-eq-ok
          (open_incidents now detected.created (record ready { signals = detected.signals })) _
          h2 in
      let last : opened.1 ≡ after = ap (λ (p : IngestionSummary × Store). p.1) (ok-injective h3) in
      let (mirror, raw, envelopes, signals) =
        open_incidents-OnlyIncidents now detected.created
          (record ready { signals = detected.signals }) opened loop in
      let reported =
        run_all-AllReported lib settings.seed detectors (contexts ready) (nothing_yet ready.signals)
          detected (raised_ok detection _ detected ran) in
      subst Complete last (
        same_tables (record ready { signals = detected.signals }) opened.1
          (mirror, raw, envelopes, signals)
          (
            all_in,
            all_done,
            (detectors, raised_ok configuration _ detectors is_detectors, reported),
          ))

  -- Running the cycle again at the same instant, over an unchanged mirror, creates nothing: after a cycle that
  -- returned, the next one returns, it inserts no raw event, normalises none, creates no signal and
  -- opens no incident, and every table is as it was.
  pub cycle_again :
      (st after : Store) (summary : IngestionSummary)
      → run_ingestion_cycle lib settings now st ≡ ok (summary, after)
      → CreatesNothing after (run_ingestion_cycle lib settings now after)
  unfolding run_ingestion_cycle
  cycle_again st after summary h =
      let events = read_source_events lib st.mirror in
      let out = ingest_source_events lib events now st in
      let (pass, ran, more) = >>=-eq-ok (raised normalization (normalize_pending lib out.1)) _ h in
      let (all_done, untouched) =
        normalize_pending_done lib out.1 pass.1 pass.0 (raised_ok normalization _ pass ran) in
      let same_mirror : pass.1.mirror ≡ st.mirror =
        untouched.0 ∙ ap (λ (s : Store). s.mirror) (ingest_lem lib events now st) in
      let all_in : AllIngested lib (read_source_events lib pass.1.mirror) pass.1.raw_events =
        subst (λ m. AllIngested lib (read_source_events lib m) pass.1.raw_events) (sym same_mirror)
          (subst (λ rows. AllIngested lib events rows) (sym untouched.1)
            (ingest-AllIngested lib events now st)) in
      again after (detected-Complete pass.1 out.0 pass.0 summary after all_in all_done more)
