-- ===== src/Examples/Events.antt =====
-- The ingestion cycle at concrete inputs: one stalled opportunity.
use revenue_sentinel.Base.{
  ℕ, ◌+◌, ◌*◌, ◌==◌, if◌then◌else◌, true, none, some, [], ◌∷◌, ok, ◌≡◌, refl, arith, ok_of, ◌↔◌,
}
use revenue_sentinel.Base.Int.{pos}
use revenue_sentinel.Json.{field, empty, text}
use revenue_sentinel.Domain.{OpportunityStage, ActivityType, crm, crm_activity_logged, is_open}
use revenue_sentinel.Domain.Gtm.{
  Account, Opportunity, Activity, UsageSnapshot, Mirror, ActivityDirection,
}
use revenue_sentinel.Analytics.Windows.{microseconds_per_day}
use revenue_sentinel.Signals.{DetectionContext}
use revenue_sentinel.Signals.Stalled.{StalledOpportunityParams, evaluate_stalled}
use revenue_sentinel.Signals.Stalled.Fires.{IsStalled, reports, evaluate_stalled_iff}
use revenue_sentinel.Signals.Registry.{
  all_detectors, implemented_detectors, roadmap_detectors, build_stalled_opportunity_detector,
}
use revenue_sentinel.Events.{Library, Store}
use revenue_sentinel.Events.Sources.{SourceEvent}
use revenue_sentinel.Events.Ingest.{raw_row}
use revenue_sentinel.Events.Normalize.{build_envelope, schema_version, optional_ref, validated}
use revenue_sentinel.Events.Normalize.RoundTrip.{build_envelope-raw_row}
use revenue_sentinel.Base.Sorting.{sort_by, text_leb}
use revenue_sentinel.Base.Rounding.{round_half_even, round_half_up}
use revenue_sentinel.Base.Text.{decimal, text_of}
use revenue_sentinel.Core.Refs.{format_ref, ref_match, padded}
use revenue_sentinel.Json.{get}
use revenue_sentinel.Analytics.Windows.{
  days_since_last_sales_touch, week_over_week_growth, growth_ratio,
}
use revenue_sentinel.Analytics.Severity.{severity_for_weighted_value, first_band}
use revenue_sentinel.Signals.Stalled.{
  usage_growth_of, candidate, dedupe_key, window_start, key_material, evidence_refs_of,
}
use revenue_sentinel.Signals.Registry.{build_registry, is_implemented, evaluate}
use revenue_sentinel.Incidents.{
  open_incident_for_signal, transition_incident, is_legal, is_terminal,
}
use revenue_sentinel.Events.Sources.{read_source_events, precedes}
use revenue_sentinel.Events.Ingest.{ingest_source_events}
use revenue_sentinel.Events.Normalize.{normalize_pending, pending_events}
use revenue_sentinel.Events.Dispatch.{
  run_detectors, build_detection_context, persist_candidate, signal_row, deterministic_uuid,
}
use revenue_sentinel.Events.Pipeline.{
  detect_and_open, open_one, allocate_incident_ref, opening_signal, summarize,
}
use revenue_sentinel.Events.Pipeline.{Settings, IngestionSummary, run_ingestion_cycle}
use revenue_sentinel.Events.Pipeline.Twice.{CreatesNothing, cycle_again}

abbrev library : Library
library = record {
  hexdigest = λ s. s;
  isoformat = λ t. "day 10";
  fromisoformat = λ s. some (10 * microseconds_per_day);
  date_isoformat = λ d. if d == 20 then "first" else "later";
  id_text = λ i. "id";
  int_text = λ i. "1";
  decimal_text = λ p u. "0.00";
  uuid5 = λ n s. 77;
  namespace_url = 0;
}

abbrev account : Account
account = record { id = 1; account_ref = "ACC-1001" }

-- 180,000 dollars at a probability of 0.6.
abbrev opportunity : Opportunity
opportunity = record {
  id = 2;
  opportunity_ref = "OPP-2001";
  account_id = 1;
  name = "Platform";
  stage = OpportunityStage.proposal;
  amount = 180000000000;
  currency = "USD";
  expected_close_date = 90;
  probability = 6000;
  owner_id = "USR-1";
  updated_at = 10 * microseconds_per_day;
}

abbrev call_made : Activity
call_made = record {
  id = 3;
  account_id = 1;
  opportunity_id = some 2;
  activity_type = ActivityType.call;
  direction = ActivityDirection.outbound;
  occurred_at = 10 * microseconds_per_day;
  subject = "s";
  body = "b";
}

abbrev week : ℕ → ℕ → UsageSnapshot
week start events = record {
  account_id = 1;
  period_start = start;
  period_end = start + 7;
  active_users = 5;
  sessions = 9;
  feature_events = events;
  usage_score = 5000;
}

abbrev mirror : Mirror
mirror = record {
  accounts = account ∷ [];
  opportunities = opportunity ∷ [];
  activities = call_made ∷ [];
  usage_snapshots = week 20 1250 ∷ week 27 1750 ∷ [];
  engagement_events = [];
  support_issues = [];
}

abbrev settings : Settings
settings = record {
  detector = record {
    detector_min_amount_usd = pos 100000000000;
    detector_inactivity_days = 14;
    detector_usage_growth_pct = 40;
  };
  seed = 42;
}

abbrev start : Store
start = record {
  mirror = mirror;
  raw_events = [];
  normalized_events = [];
  signals = [];
  incidents = [];
  next_id = 100;
  next_incident = 1;
}

abbrev now : ℕ
now = 35 * microseconds_per_day

abbrev Runs : Type 0
Runs = (out : IngestionSummary × Store) × (run_ingestion_cycle library settings now start ≡ ok out)

first_cycle : Runs
unfolding run_ingestion_cycle read_source_events ingest_source_events raw_row normalize_pending
    pending_events build_envelope sort_by detect_and_open implemented_detectors all_detectors
    build_registry roadmap_detectors build_stalled_opportunity_detector is_implemented run_detectors
    build_detection_context evaluate evaluate_stalled days_since_last_sales_touch usage_growth_of
    week_over_week_growth growth_ratio round_half_even candidate severity_for_weighted_value
    round_half_up first_band dedupe_key window_start key_material evidence_refs_of persist_candidate
    signal_row deterministic_uuid open_one allocate_incident_ref format_ref ref_match padded decimal
    text_of opening_signal open_incident_for_signal transition_incident is_legal is_terminal
    summarize get precedes text_leb
first_cycle = ok_of (run_ingestion_cycle library settings now start) refl

-- The first cycle stores four events, finds the stall and opens one incident.
first_cycle_test :
    (first_cycle.0.0.raw_inserted ≡ 4)
    × (first_cycle.0.0.signals_created ≡ 1)
    × (first_cycle.0.0.incident_refs ≡ "INC-001" ∷ [])
unfolding first_cycle ok_of run_ingestion_cycle read_source_events ingest_source_events raw_row
    normalize_pending pending_events build_envelope sort_by detect_and_open implemented_detectors
    all_detectors build_registry roadmap_detectors build_stalled_opportunity_detector is_implemented
    run_detectors build_detection_context evaluate evaluate_stalled days_since_last_sales_touch
    usage_growth_of week_over_week_growth growth_ratio round_half_even candidate
    severity_for_weighted_value round_half_up first_band dedupe_key window_start key_material
    evidence_refs_of persist_candidate signal_row deterministic_uuid open_one allocate_incident_ref
    format_ref ref_match padded decimal text_of opening_signal open_incident_for_signal
    transition_incident is_legal is_terminal summarize get precedes text_leb
first_cycle_test = (refl, refl, refl)

cycle_again_example :
    CreatesNothing library settings now first_cycle.0.1
      (run_ingestion_cycle library settings now first_cycle.0.1)
cycle_again_example =
    cycle_again library settings now start first_cycle.0.1 first_cycle.0.0 first_cycle.1

-- The context of the opportunity, with no event to show for it.
abbrev context : DetectionContext
context = record {
  evaluated_at = now;
  account = account;
  opportunity = opportunity;
  latest_sales_touch = some (10 * microseconds_per_day);
  usage_window = mirror.usage_snapshots;
  events = [];
}

abbrev params : StalledOpportunityParams
params = record {
  min_amount_usd = pos 100000000000;
  inactivity_days = 14;
  usage_growth = pos 4000;
  open_stages = is_open;
}

evaluate_stalled_iff_example :
    (reports (evaluate_stalled library.hexdigest library.date_isoformat params context) ≡ true)
    ↔ IsStalled params context
evaluate_stalled_iff_example =
    evaluate_stalled_iff library.hexdigest library.date_isoformat params context (omega arith)

abbrev logged : SourceEvent
logged = record {
  source_system = crm;
  source_event_id = "crm:activity:id";
  event_type = crm_activity_logged;
  occurred_at = 10 * microseconds_per_day;
  payload = field "account_ref" (text "ACC-1001") empty;
}

build_envelope-raw_row_example :
    build_envelope library 101 (raw_row library 99 now 100 logged)
    ≡ ok (record {
      id = 101;
      raw_event_id = 100;
      schema_version = schema_version;
      event_type = crm_activity_logged;
      source_system = crm;
      occurred_at = 10 * microseconds_per_day;
      received_at = now;
      account_ref = some "ACC-1001";
      opportunity_ref = none;
      attributes = logged.payload;
    })
unfolding get optional_ref validated
build_envelope-raw_row_example =
    build_envelope-raw_row library 99 now 100 101 logged (some "ACC-1001") none refl refl refl refl
      refl refl
