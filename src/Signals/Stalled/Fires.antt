-- ===== src/Signals/Stalled/Fires.antt =====
-- When the detector of src/revenue_sentinel/signals/detectors/stalled_opportunity.py fires.
use mathlib.Core.Path.{subst}
use revenue_sentinel.Base.{
  ℕ, ◌+◌, ◌-◌, ◌*◌, ◌/◌, ◌≤◌, Bool, true, false, not, ltb, leb, String, str_eq, Option, none, some,
  Result, ok, err, ◌>>=◌, if◌then◌else◌, ◌≡◌, refl, sym, arith, ◌↔◌, ok_of, le→ltb_false, ltb→lt,
  leb→le, le→leb, Bool-cases, inl, inr, ok-injective,
}
use revenue_sentinel.Base.Int.{ℤ, pos, int_leb}
use revenue_sentinel.Domain.{Severity}
use revenue_sentinel.Domain.Gtm.{UsageSnapshot}
use revenue_sentinel.Analytics.Bands.{CalculationError}
use revenue_sentinel.Analytics.Windows.{
  days_since_last_sales_touch, week_over_week_growth, microseconds_per_day,
}
use revenue_sentinel.Analytics.Impact.{one_factor}
use revenue_sentinel.Analytics.Severity.{severity_for_weighted_value}
use revenue_sentinel.Signals.{DetectionContext, SignalCandidate}
use revenue_sentinel.Signals.Stalled.{
  StalledOpportunityParams, DetectionError, calculated, usage_growth_of, growth_of, returned,
  last_two, is_silent, is_growing, window_start, dedupe_key, candidate, evaluate_stalled,
  supported_currency,
}

-- The condition that the detector reports, on an opportunity.
abbrev pub IsStalled : StalledOpportunityParams → DetectionContext → Type 0
IsStalled params context =
    (params.open_stages context.opportunity.stage ≡ true)
    × (str_eq context.opportunity.currency supported_currency ≡ true)
    × (int_leb params.min_amount_usd (pos context.opportunity.amount) ≡ true)
    × ((touch : ℕ) × (context.latest_sales_touch ≡ some touch)
        × (touch + params.inactivity_days * microseconds_per_day ≤ context.evaluated_at))
    × ((earlier : UsageSnapshot) × (later : UsageSnapshot) × (growth : ℤ) × (last_two
            context.usage_window
          ≡ some (earlier, later))
        × (week_over_week_growth (pos earlier.feature_events) (pos later.feature_events)
            ≡ ok growth)
        × (int_leb params.usage_growth growth ≡ true))

-- Whether a call of the detector reports a signal.
abbrev pub reports : Result DetectionError (Option SignalCandidate) → Bool
reports (ok (some c)) = true
reports _ = false

-- Whole days of silence reach a number exactly if so much time has passed.
silent_days :
    (days evaluated_at touch : ℕ)
    → touch ≤ evaluated_at
    → (leb days ((evaluated_at - touch) / microseconds_per_day) ≡ true)
      ↔ (touch + days * microseconds_per_day ≤ evaluated_at)
silent_days days evaluated_at touch h = (
  λ e. let long = leb→le days ((evaluated_at - touch) / 86400000000) e in omega arith,
  λ e. le→leb days ((evaluated_at - touch) / 86400000000) (omega arith),
)

some-injective : {A : Type 0} {a b : A} → ◌≡◌ {A = Option A} (some a) (some b) → a ≡ b
some-injective h = cc

guards :
    (a b c : Bool) (rest : Result DetectionError (Option SignalCandidate))
    → (reports
          (if not a then ok none else if not b then ok none else if not c then ok none else rest)
        ≡ true)
      ↔ ((a ≡ true) × (b ≡ true) × (c ≡ true) × (reports rest ≡ true))
guards true true true rest = (λ h. (refl, refl, refl, h), λ h. h.3)
guards true true false rest = (λ h. cc, λ h. cc h.2)
guards true false c rest = (λ h. cc, λ h. cc h.1)
guards false b c rest = (λ h. cc, λ h. cc h.0)

reports-some :
    (call : Result DetectionError SignalCandidate)
    → (c : SignalCandidate) × (call ≡ ok c)
    → reports (call >>= λ c. ok (some c)) ≡ true
reports-some call (c, h) = rw h refl

module _ (days : ℕ) (growing : Bool) (evaluated_at : ℕ)
    (call : Result DetectionError SignalCandidate) where
  abbrev quiet : Option ℕ → Result DetectionError (Option SignalCandidate)
  quiet silence =
      if not (is_silent days silence)
      then ok none
      else if not growing
      then ok none
      else (call >>= λ c. ok (some c))

  after_silence :
      (v w : Bool)
      → (v ≡ true → (c : SignalCandidate) × (call ≡ ok c))
      → (reports (if not v then ok none else if not w then ok none else (call >>= λ c. ok (some c)))
          ≡ true)
        ↔ ((v ≡ true) × (w ≡ true))
  after_silence true true given = (λ h. (refl, refl), λ h. reports-some call (given refl))
  after_silence true false given = (λ h. cc, λ h. cc h.1)
  after_silence false w given = (λ h. cc, λ h. cc h.0)

  quiet_iff :
      (touch : Option ℕ)
      → ((t : ℕ)
          → touch ≡ some t
          → t + days * microseconds_per_day ≤ evaluated_at
          → (c : SignalCandidate) × (call ≡ ok c))
      → (reports (calculated (days_since_last_sales_touch touch evaluated_at) >>= quiet) ≡ true) ↔ (
          ((t : ℕ) × (touch ≡ some t) × (t + days * microseconds_per_day ≤ evaluated_at))
          × (growing ≡ true))
  unfolding days_since_last_sales_touch
  quiet_iff none given = (λ h. cc, λ h. cc h.0.1)
  quiet_iff (some t) given = elim (Bool-cases (ltb evaluated_at t)) [
    | inl late ↦ rw late (
      λ h. cc,
      λ h.
          let same = some-injective h.0.1 in
          absurd (omega (arith, ltb→lt evaluated_at t late, same, h.0.2)),
    )
    | inr fine ↦
        let reach = silent_days days evaluated_at t (ground arith) in
        let core =
          after_silence (leb days ((evaluated_at - t) / microseconds_per_day)) growing
            (λ e. given t refl (reach.0 e)) in
        rw fine (
          λ h. let both = core.0 h in ((t, refl, reach.0 both.0), both.1),
          λ h.
              let same = sym (some-injective h.0.1) in
              core.1 (
                reach.1 (subst (λ u. u + days * microseconds_per_day ≤ evaluated_at) same h.0.2),
                h.1,
              ),
        )
  ]

returned_iff :
    (threshold : ℤ) (call : Result CalculationError ℤ)
    → (is_growing threshold (returned call) ≡ true)
      ↔ ((growth : ℤ) × (call ≡ ok growth) × (int_leb threshold growth ≡ true))
unfolding returned
returned_iff threshold (ok growth) = (
  λ h. (growth, refl, h),
  λ h. subst (λ g. int_leb threshold g ≡ true) (sym (ok-injective h.1)) h.2,
)
returned_iff threshold (err e) = (λ h. cc, λ h. cc h.1)

-- The growth that the detector compares is that of the last two snapshots.
growing_iff :
    (threshold : ℤ) (snapshots : Option (UsageSnapshot × UsageSnapshot))
    → (is_growing threshold (growth_of snapshots) ≡ true) ↔ (
        (earlier : UsageSnapshot) × (later : UsageSnapshot) × (growth : ℤ) × (snapshots
          ≡ some (earlier, later))
        × (week_over_week_growth (pos earlier.feature_events) (pos later.feature_events)
            ≡ ok growth)
        × (int_leb threshold growth ≡ true))
unfolding growth_of
growing_iff threshold none = (λ h. cc, λ h. cc h.3)
growing_iff threshold (some (x, y)) =
    let core =
      returned_iff threshold
        (week_over_week_growth (pos x.feature_events) (pos y.feature_events)) in
    (
      λ h. let (growth, is_growth, enough) = core.0 h in (x, y, growth, refl, is_growth, enough),
      λ (x', y', growth, same, is_growth, enough). core.1 (
        growth,
        subst
            (λ (p : UsageSnapshot × UsageSnapshot).
              week_over_week_growth (pos p.0.feature_events) (pos p.1.feature_events) ≡ ok growth)
            (sym (some-injective same)) is_growth,
        enough,
      ),
    )

severity_given :
    (amount probability : ℕ)
    → probability ≤ one_factor
    → (severity : Severity) × (severity_for_weighted_value (pos amount) (pos probability)
        ≡ ok severity)
unfolding severity_for_weighted_value
severity_given amount probability h =
    ok_of (severity_for_weighted_value (pos amount) (pos probability))
      (rw (le→ltb_false probability one_factor h) refl)

module _ (hexdigest : String → String) (isoformat : ℕ → String) (params : StalledOpportunityParams)
    (context : DetectionContext) where
  key_given :
      params.inactivity_days * microseconds_per_day ≤ context.evaluated_at
      → (key : String) × (dedupe_key hexdigest isoformat params context ≡ ok key)
  unfolding dedupe_key window_start
  key_given h = ok_of (dedupe_key hexdigest isoformat params context) (
      rw (le→ltb_false (params.inactivity_days * microseconds_per_day) context.evaluated_at h) refl)

  candidate_given :
      context.opportunity.probability ≤ one_factor
      → params.inactivity_days * microseconds_per_day ≤ context.evaluated_at
      → (c : SignalCandidate) × (candidate hexdigest isoformat params context ≡ ok c)
  unfolding candidate
  candidate_given fits h =
      let (severity, is_severity) =
        severity_given context.opportunity.amount context.opportunity.probability fits in
      let (key, is_key) = key_given h in
      ok_of (candidate hexdigest isoformat params context) (rw (is_severity, is_key) refl)

  -- The detector reports a signal exactly where the stage is open, the amount is in dollars and at
  -- least the floor, the last sales touch lies at least the window back, and the growth of usage from a
  -- first snapshot of some usage to the next, rounded to four places, is at least the threshold; this for
  -- a probability of at most one.
  pub evaluate_stalled_iff :
      context.opportunity.probability ≤ one_factor
      → (reports (evaluate_stalled hexdigest isoformat params context) ≡ true)
        ↔ IsStalled params context
  unfolding evaluate_stalled usage_growth_of
  evaluate_stalled_iff fits =
      let growing = is_growing params.usage_growth (usage_growth_of context) in
      let call = candidate hexdigest isoformat params context in
      let gate =
        guards (params.open_stages context.opportunity.stage)
          (str_eq context.opportunity.currency supported_currency)
          (int_leb params.min_amount_usd (pos context.opportunity.amount))
          (calculated (days_since_last_sales_touch context.latest_sales_touch context.evaluated_at)
            >>= quiet params.inactivity_days growing context.evaluated_at call) in
      let silence =
        quiet_iff params.inactivity_days growing context.evaluated_at call
          context.latest_sales_touch
          (λ t is_touch long. candidate_given fits (omega (arith, long))) in
      let growth = growing_iff params.usage_growth (last_two context.usage_window) in
      (
        λ h.
            let (is_open, in_dollars, enough, rest) = gate.0 h in
            let both = silence.0 rest in (is_open, in_dollars, enough, both.0, growth.0 both.1),
        λ h. gate.1 (h.0, h.1, h.2, silence.1 (h.3, growth.1 h.4)),
      )
