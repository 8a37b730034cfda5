-- ===== src/Signals/Stalled.antt =====
-- src/revenue_sentinel/signals/detectors/stalled_opportunity.py: the detector of stalled opportunities.
--
-- `sha256(...).hexdigest()` and `date.isoformat()` are parameters, on texts and on dates. An id is a
-- number: the texts of ids are in the order of the numbers.
pub mod Fires
use Prim.Native.String.{◌++◌ as concat}
use revenue_sentinel.Base.{
  ℕ, ◌-◌, ◌*◌, ◌/◌, Bool, true, false, not, ltb, leb, String, str_eq, Option, none, some, List, [],
  ◌∷◌, map, keep, Result, ok, err, ◌>>=◌, if◌then◌else◌,
}
use revenue_sentinel.Base.Int.{ℤ, pos, int_leb}
use revenue_sentinel.Base.Sorting.{sort_by}
use revenue_sentinel.Domain.{
  OpportunityStage, is_open, EventType, crm_activity_logged, product_usage_rollup,
  crm_opportunity_updated, SignalType, signal_value, stalled_opportunity,
}
use revenue_sentinel.Domain.Gtm.{UsageSnapshot, Opportunity}
use revenue_sentinel.Analytics.Bands.{CalculationError}
use revenue_sentinel.Analytics.Windows.{
  days_since_last_sales_touch, week_over_week_growth, microseconds_per_day,
}
use revenue_sentinel.Analytics.Severity.{severity_for_weighted_value}
use revenue_sentinel.Signals.{EventEnvelope, DetectionContext, SignalCandidate}

abbrev pub detector_version : String
detector_version = "stalled_opportunity/v1"

abbrev pub supported_currency : String
supported_currency = "USD"

-- `StalledOpportunityParams`: an amount, days, and a growth.
pub record StalledOpportunityParams : Type 0 where
  pub min_amount_usd : ℤ
  pub inactivity_days : ℕ
  pub usage_growth : ℤ
  pub open_stages : OpportunityStage → Bool

-- What `evaluate` raises. The subtraction of the window leaves the calendar at its first day.
pub data DetectionError : Type 0 where
  calculation : CalculationError → DetectionError
  before_calendar : DetectionError
  not_implemented : SignalType → DetectionError

abbrev pub calculated {κ} : {A : Type κ} → Result CalculationError A → Result DetectionError A
calculated (ok a) = ok a
calculated (err e) = err (calculation e)

-- `usage_window[-2]` and `usage_window[-1]`, of two snapshots or more.
pub last_two : List UsageSnapshot → Option (UsageSnapshot × UsageSnapshot)
last_two [] = none
last_two (x ∷ []) = none
last_two (x ∷ y ∷ []) = some (x, y)
last_two (x ∷ y ∷ z ∷ rest) = last_two (y ∷ z ∷ rest)

-- The `try`: a growth that is not defined is none.
returned : Result CalculationError ℤ → Option ℤ
returned (ok growth) = some growth
returned (err e) = none

growth_of : Option (UsageSnapshot × UsageSnapshot) → Option ℤ
unfolding returned
growth_of none = none
growth_of (some (earlier, later)) =
    returned (week_over_week_growth (pos earlier.feature_events) (pos later.feature_events))

-- `_usage_growth`.
unfoldable pub usage_growth_of : DetectionContext → Option ℤ
unfolding growth_of last_two
usage_growth_of context = growth_of (last_two context.usage_window)

-- `days_inactive is None or days_inactive < inactivity_days`, negated.
abbrev pub is_silent : ℕ → Option ℕ → Bool
is_silent inactivity_days none = false
is_silent inactivity_days (some days) = leb inactivity_days days

-- `growth is None or growth < usage_growth`, negated.
abbrev pub is_growing : ℤ → Option ℤ → Bool
is_growing threshold none = false
is_growing threshold (some growth) = int_leb threshold growth

-- `str.join` with a bar.
abbrev pub join_bars : List String → String
join_bars [] = ""
join_bars (s ∷ []) = s
join_bars (s ∷ t ∷ rest) = concat s (concat "|" (join_bars (t ∷ rest)))

-- `(evaluated_at - self.window).date()`, for an instant whose zone is UTC, as the clock's is.
unfoldable pub window_start : ℕ → ℕ → Result DetectionError ℕ
window_start evaluated_at inactivity_days =
    if ltb evaluated_at (inactivity_days * microseconds_per_day)
    then err before_calendar
    else ok ((evaluated_at - inactivity_days * microseconds_per_day) / microseconds_per_day)

-- `event.event_type.value in relevant`.
abbrev pub is_relevant : EventType → Bool
is_relevant crm_activity_logged = true
is_relevant product_usage_rollup = true
is_relevant crm_opportunity_updated = true
is_relevant _ = false

-- `_evidence_refs`.
unfoldable pub evidence_refs_of : DetectionContext → List ℕ
evidence_refs_of context = sort_by leb (
    map (λ (event : EventEnvelope). event.id)
      (keep (λ (event : EventEnvelope). is_relevant event.event_type) context.events))

module _ (hexdigest : String → String) (isoformat : ℕ → String) where
  unfoldable pub key_material : String → ℕ → String
  key_material opportunity_ref date =
      join_bars (
        signal_value stalled_opportunity ∷ opportunity_ref ∷ detector_version ∷ isoformat date ∷ [])

  unfoldable pub dedupe_key :
      StalledOpportunityParams → DetectionContext → Result DetectionError String
  dedupe_key params context = window_start context.evaluated_at params.inactivity_days >>= λ date.
      ok (hexdigest (key_material context.opportunity.opportunity_ref date))

  unfoldable pub candidate :
      StalledOpportunityParams → DetectionContext → Result DetectionError SignalCandidate
  candidate params context = do
    severity ← calculated (
        severity_for_weighted_value (pos context.opportunity.amount)
          (pos context.opportunity.probability))
    key ← dedupe_key params context
    ok (record {
      signal_type = stalled_opportunity;
      detector_version = detector_version;
      severity = severity;
      account_id = context.account.id;
      opportunity_id = some context.opportunity.id;
      detected_at = context.evaluated_at;
      dedupe_key = key;
      evidence_refs = evidence_refs_of context;
    })

  -- `StalledOpportunityDetector.evaluate`.
  unfoldable pub evaluate_stalled :
      StalledOpportunityParams → DetectionContext → Result DetectionError (Option SignalCandidate)
  evaluate_stalled params context =
      let opportunity = context.opportunity in
      if not (params.open_stages opportunity.stage)
      then ok none
      else if not (str_eq opportunity.currency supported_currency)
      then ok none
      else if not (int_leb params.min_amount_usd (pos opportunity.amount))
      then ok none
      else (calculated (days_since_last_sales_touch context.latest_sales_touch context.evaluated_at)
          >>= λ days_inactive.
              if not (is_silent params.inactivity_days days_inactive)
              then ok none
              else if not (is_growing params.usage_growth (usage_growth_of context))
              then ok none
              else (candidate params context >>= λ c. ok (some c)))
