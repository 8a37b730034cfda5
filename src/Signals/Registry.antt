-- ===== src/Signals/Registry.antt =====
-- src/revenue_sentinel/signals/registry.py and detectors/roadmap.py: the registered detectors.
--
-- A contract's rationale is prose and left out. A dictionary is a list of pairs.
use revenue_sentinel.Base.{
  ℕ, ◌*◌, ◌≡◌, refl, Bool, true, false, String, str_eq, Option, none, some, List, [], ◌∷◌, ◌++◌,
  find, any, keep, Result, ok, err, ◌>>=◌, if◌then◌else◌, not, map,
}
use revenue_sentinel.Base.Int.{ℤ, pos}
use revenue_sentinel.Json.{Object, Json, field, empty, Items}
use revenue_sentinel.Domain.{
  SignalType, signal_value, stalled_opportunity, renewal_risk, deal_slippage, pqa_discovery,
  account_expansion, crm_data_quality, enrichment_cost_anomaly, campaign_underperformance, is_open,
}
use revenue_sentinel.Signals.{DetectionContext, SignalCandidate}
use revenue_sentinel.Signals.Stalled.{
  StalledOpportunityParams, DetectionError, evaluate_stalled, detector_version, not_implemented,
}

pub record RoadmapDetector : Type 0 where
  pub signal_type : SignalType
  pub version : String
  pub window : ℕ
  pub declared_params : Object

-- The two classes behind the protocol.
pub data Detector : Type 0 where
  stalled : StalledOpportunityParams → Detector
  roadmap : RoadmapDetector → Detector

unfoldable pub signal_type_of : Detector → SignalType
signal_type_of (stalled params) = stalled_opportunity
signal_type_of (roadmap contract) = contract.signal_type

unfoldable pub version_of : Detector → String
version_of (stalled params) = detector_version
version_of (roadmap contract) = contract.version

-- `window`, in days.
unfoldable pub window_of : Detector → ℕ
window_of (stalled params) = params.inactivity_days
window_of (roadmap contract) = contract.window

unfoldable pub is_implemented : Detector → Bool
is_implemented (stalled params) = true
is_implemented (roadmap contract) = false

unfoldable pub evaluate :
    (String → String)
    → (ℕ → String)
    → Detector
    → DetectionContext
    → Result DetectionError (Option SignalCandidate)
evaluate hexdigest isoformat (stalled params) context =
    evaluate_stalled hexdigest isoformat params context
evaluate hexdigest isoformat (roadmap contract) context = err (not_implemented contract.signal_type)

-- One number of the declared parameters.
abbrev declares : String → String → Object → Object
declares name value rest = field name (Json.number value) rest

contract : SignalType → String → ℕ → Object → RoadmapDetector
contract signal_type version window declared_params = record {
  signal_type = signal_type;
  version = version;
  window = window;
  declared_params = declared_params;
}

unfoldable pub roadmap_detectors : List RoadmapDetector
unfolding contract
roadmap_detectors =
    contract renewal_risk "renewal_risk/v0" 90 (
      declares "days_to_renewal" "90"
        (declares "usage_decline_pct" "25" (declares "min_arr_usd" "50000" empty)))
    ∷ contract deal_slippage "deal_slippage/v0" 30
        (declares "close_date_pushes" "2" (declares "lookback_days" "60" empty))
    ∷ contract pqa_discovery "pqa_discovery/v0" 14 (
        declares "min_active_users" "10"
          (declares "usage_growth_pct" "50" (field "has_open_opportunity" (Json.bool false) empty)))
    ∷ contract account_expansion "account_expansion/v0" 30
        (declares "seat_utilisation_pct" "90" (declares "feature_breadth" "5" empty))
    ∷ contract crm_data_quality "crm_data_quality/v0" 1 (
        field "required_fields"
          (Json.array (
            Items.item (Json.text "amount") (
              Items.item (Json.text "stage")
                (Items.item (Json.text "expected_close_date") Items.done))))
          empty)
    ∷ contract enrichment_cost_anomaly "enrichment_cost_anomaly/v0" 30
        (declares "spend_increase_pct" "40" (declares "baseline_months" "3" empty))
    ∷ contract campaign_underperformance "campaign_underperformance/v0" 30
        (declares "pipeline_target_pct" "60" (declares "min_spend_usd" "10000" empty))
    ∷ []

-- The settings that the detector is built from: an amount, days, and a percentage.
pub record DetectorSettings : Type 0 where
  pub detector_min_amount_usd : ℤ
  pub detector_inactivity_days : ℕ
  pub detector_usage_growth_pct : ℕ

-- `Decimal(pct) / Decimal(100)`, in ten-thousandths.
unfoldable pub build_stalled_opportunity_detector : DetectorSettings → StalledOpportunityParams
build_stalled_opportunity_detector settings = record {
  min_amount_usd = settings.detector_min_amount_usd;
  inactivity_days = settings.detector_inactivity_days;
  usage_growth = pos (settings.detector_usage_growth_pct * 100);
  open_stages = is_open;
}

-- `ConfigurationError`, by what it reports.
pub data ConfigurationError : Type 0 where
  duplicate_registration : SignalType → ConfigurationError
  missing_entries : List SignalType → ConfigurationError

abbrev pub same_type : SignalType → SignalType → Bool
same_type a b = str_eq (signal_value a) (signal_value b)

abbrev pub is_registered : List (SignalType × Detector) → SignalType → Bool
is_registered registry signal_type = any (λ entry. same_type entry.0 signal_type) registry

-- The members of `SignalType`, in their order.
abbrev pub signal_types : List SignalType
signal_types =
    stalled_opportunity ∷ renewal_risk ∷ deal_slippage ∷ pqa_discovery ∷ account_expansion
    ∷ crm_data_quality ∷ enrichment_cost_anomaly ∷ campaign_underperformance ∷ []

-- The loop over the contracts.
register :
    List RoadmapDetector
    → List (SignalType × Detector)
    → Result ConfigurationError (List (SignalType × Detector))
register [] registry = ok registry
register (detector ∷ rest) registry =
    let registered = register rest (registry ++ (detector.signal_type, roadmap detector) ∷ []) in
    if is_registered registry detector.signal_type
    then err (duplicate_registration detector.signal_type)
    else registered

check_missing :
    List (SignalType × Detector)
    → List SignalType
    → Result ConfigurationError (List (SignalType × Detector))
check_missing registry [] = ok registry
check_missing registry (t ∷ missing) = err (missing_entries (t ∷ missing))

unfoldable pub build_registry :
    DetectorSettings → Result ConfigurationError (List (SignalType × Detector))
unfolding register check_missing
build_registry settings =
    register roadmap_detectors
      ((stalled_opportunity, stalled (build_stalled_opportunity_detector settings)) ∷ [])
    >>= λ registry. check_missing registry (keep (λ t. not (is_registered registry t)) signal_types)

-- `registry[signal_type]`, of each in turn: a key that is missing is reported.
looked_up : SignalType → Option (SignalType × Detector) → Result ConfigurationError Detector
looked_up t none = err (missing_entries (t ∷ []))
looked_up t (some entry) = ok entry.1

in_order :
    List (SignalType × Detector) → List SignalType → Result ConfigurationError (List Detector)
unfolding looked_up
in_order registry [] = ok []
in_order registry (t ∷ rest) =
    looked_up t (find (λ entry. same_type entry.0 t) registry) >>= λ detector.
    in_order registry rest >>= λ detectors. ok (detector ∷ detectors)

unfoldable pub all_detectors : DetectorSettings → Result ConfigurationError (List Detector)
unfolding in_order
all_detectors settings = build_registry settings >>= λ registry. in_order registry signal_types

unfoldable pub implemented_detectors : DetectorSettings → Result ConfigurationError (List Detector)
implemented_detectors settings =
    all_detectors settings >>= λ detectors. ok (keep is_implemented detectors)

-- Whatever the settings, eight detectors are registered, one for each signal type in the order of the
-- types, and the dispatcher is given one of them: the detector of stalled opportunities.
pub detectors_lem :
    (settings : DetectorSettings)
    → (all_detectors settings
        ≡ ok
            (stalled (build_stalled_opportunity_detector settings) ∷ map roadmap roadmap_detectors))
      × (map signal_type_of
            (stalled (build_stalled_opportunity_detector settings) ∷ map roadmap roadmap_detectors)
          ≡ signal_types)
      × (implemented_detectors settings
          ≡ ok (stalled (build_stalled_opportunity_detector settings) ∷ []))
unfolding implemented_detectors all_detectors build_registry signal_type_of is_implemented
    roadmap_detectors
detectors_lem settings = (refl, refl, refl)
