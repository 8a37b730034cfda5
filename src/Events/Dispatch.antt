-- ===== src/Events/Dispatch.antt =====
-- src/revenue_sentinel/events/dispatcher.py: every implemented detector against every opportunity, and the
-- signals that come of it. `deterministic_uuid` is of core/ids.py.
--
-- The rows of the mirror pass the validation of the domain models, as the database's constraints ask. A
-- signal's id is made of its key: two keys are taken to have two ids.
pub mod Reports
pub mod Again
use Prim.Native.String.{◌++◌ as concat}
use revenue_sentinel.Base.{
  ℕ, suc, ◌+◌, ◌-◌, Bool, true, false, ◌&&◌, ◌||◌, leb, ◌==◌, max, String, str_eq, Option, none,
  some, List, [], ◌∷◌, ◌++◌, any, keep, map, length, Result, ok, err, ◌>>=◌, if◌then◌else◌,
}
use revenue_sentinel.Base.Sorting.{sort_by, text_leb}
use revenue_sentinel.Domain.{is_sales_touch}
use revenue_sentinel.Domain.Gtm.{Account, Opportunity, Activity, UsageSnapshot, Mirror}
use revenue_sentinel.Signals.{EventEnvelope, DetectionContext, SignalCandidate}
use revenue_sentinel.Signals.Stalled.{DetectionError, join_bars}
use revenue_sentinel.Signals.Registry.{Detector, evaluate}
use revenue_sentinel.Events.{Library, Signal}
use revenue_sentinel.Events.Sources.{account_of}

-- `deterministic_uuid` of a seed and key parts, of which there is one at least.
unfoldable pub deterministic_uuid : Library → ℕ → String → List String → ℕ
deterministic_uuid lib seed part parts =
    let namespace =
      lib.uuid5 lib.namespace_url
        (concat "https://revenue-sentinel.local/seed/" (lib.int_text seed)) in
    lib.uuid5 namespace (join_bars (part ∷ parts))

-- `func.max(...)`.
latest : List Activity → Option ℕ
latest [] = none
latest (a ∷ rest) = elim (latest rest) [
  | none ↦ some a.occurred_at
  | some t ↦ some (max a.occurred_at t)
]

abbrev is_opportunity : Option ℕ → ℕ → Bool
is_opportunity none id = false
is_opportunity (some opportunity_id) id = opportunity_id == id

abbrev is_text : Option String → String → Bool
is_text none s = false
is_text (some t) s = str_eq t s

context_of :
    Mirror → List EventEnvelope → ℕ → Opportunity → Option Account → Option DetectionContext
unfolding latest
context_of mirror events evaluated_at opportunity none = none
context_of mirror events evaluated_at opportunity (some account) = some (record {
  evaluated_at = evaluated_at;
  account = account;
  opportunity = opportunity;
  latest_sales_touch = latest (
      keep
        (λ (a : Activity).
          is_opportunity a.opportunity_id opportunity.id && is_sales_touch a.activity_type)
        mirror.activities);
  usage_window =
      sort_by (λ (a b : UsageSnapshot). leb a.period_start b.period_start)
        (keep (λ (u : UsageSnapshot). u.account_id == account.id) mirror.usage_snapshots);
  events =
      sort_by (λ (a b : EventEnvelope). leb a.occurred_at b.occurred_at)
        (keep
          (λ (e : EventEnvelope).
            is_text e.opportunity_ref opportunity.opportunity_ref
            || is_text e.account_ref account.account_ref)
          events);
})

-- `build_detection_context`.
unfoldable pub build_detection_context :
    Mirror → List EventEnvelope → ℕ → Opportunity → Option DetectionContext
unfolding context_of
build_detection_context mirror events evaluated_at opportunity =
    context_of mirror events evaluated_at opportunity (account_of mirror opportunity.account_id)

-- The count of a pass so far, the signals it created, and the table of signals.
pub record Detection : Type 0 where
  pub contexts : ℕ
  pub candidates : ℕ
  pub created : List Signal
  pub signals : List Signal

-- `DetectionResult.signals_created` and `deduplicated`.
abbrev pub signals_created : Detection → ℕ
signals_created d = length d.created

abbrev pub deduplicated : Detection → ℕ
deduplicated d = d.candidates - length d.created

unfoldable pub signal_row : Library → ℕ → SignalCandidate → Signal
signal_row lib seed candidate = record {
  id = deterministic_uuid lib seed "signal" (candidate.dedupe_key ∷ []);
  signal_type = candidate.signal_type;
  detector_version = candidate.detector_version;
  severity = candidate.severity;
  account_id = candidate.account_id;
  opportunity_id = candidate.opportunity_id;
  detected_at = candidate.detected_at;
  dedupe_key = candidate.dedupe_key;
  evidence_refs = candidate.evidence_refs;
}

-- A signal with the key is there.
abbrev pub is_known : String → List Signal → Bool
is_known key signals = any (λ (s : Signal). str_eq s.dedupe_key key) signals

-- `persist_candidate`, of what a detector returned: `on_conflict_do_nothing` on the key.
unfoldable pub persist_candidate : Library → ℕ → Option SignalCandidate → Detection → Detection
persist_candidate lib seed none d = d
persist_candidate lib seed (some candidate) d =
    let row = signal_row lib seed candidate in
    if is_known candidate.dedupe_key d.signals
    then record d { candidates = suc d.candidates }
    else record d {
      candidates = suc d.candidates;
      created = d.created ++ row ∷ [];
      signals = d.signals ++ row ∷ [];
    }

module _ (lib : Library) (seed : ℕ) where
  -- The inner loop, over the detectors.
  pub run_each : List Detector → DetectionContext → Detection → Result DetectionError Detection
  run_each [] context d = ok d
  run_each (detector ∷ rest) context d =
      evaluate lib.hexdigest lib.date_isoformat detector context >>= λ found.
      run_each rest context (persist_candidate lib seed found d)

  -- One opportunity: without an account it is passed over.
  pub run_context :
      List Detector → Option DetectionContext → Detection → Result DetectionError Detection
  unfolding run_each
  run_context detectors none d = ok d
  run_context detectors (some context) d =
      run_each detectors context (record d { contexts = suc d.contexts })

  -- The outer loop, over the opportunities' contexts.
  pub run_all :
      List Detector → List (Option DetectionContext) → Detection → Result DetectionError Detection
  unfolding run_context
  run_all detectors [] d = ok d
  run_all detectors (context ∷ rest) d = run_context detectors context d >>= run_all detectors rest

  -- `run_detectors`.
  unfoldable pub run_detectors :
      List Detector
      → Mirror
      → List EventEnvelope
      → ℕ
      → List Signal
      → Result DetectionError Detection
  unfolding run_all
  run_detectors detectors mirror events evaluated_at signals =
      run_all detectors
        (map (build_detection_context mirror events evaluated_at) (
          sort_by (λ (a b : Opportunity). text_leb a.opportunity_ref b.opportunity_ref)
            mirror.opportunities))
        (record { contexts = 0; candidates = 0; created = []; signals = signals })
