-- ===== src/Events/Dispatch/Reports.antt =====
-- The reports of a pass of src/revenue_sentinel/events/dispatcher.py are signals afterwards.
use text.Mathlib.TextPositions.{eq_refl}
use mathlib.Core.Path.{subst}
use revenue_sentinel.Base.{
  ℕ, suc, ◌≡◌, refl, sym, true, str_eq, String, Option, none, some, List, [], ◌∷◌, any-append, All,
  Result, ok, err, >>=-eq-ok, ok-injective, Bool-cases, inl, inr,
}
use revenue_sentinel.Signals.{DetectionContext, SignalCandidate}
use revenue_sentinel.Signals.Stalled.{DetectionError}
use revenue_sentinel.Signals.Registry.{Detector, evaluate}
use revenue_sentinel.Events.{Library, Signal}
use revenue_sentinel.Events.Dispatch.{
  Detection, signal_row, is_known, persist_candidate, run_each, run_context, run_all,
}

-- What a detector reports is a signal already, or it reports nothing.
abbrev pub Reported : Result DetectionError (Option SignalCandidate) → List Signal → Type 0
Reported (ok none) signals = Unit
Reported (ok (some c)) signals = is_known c.dedupe_key signals ≡ true
Reported (err e) signals = ⊥

known_still :
    (lib : Library) (seed : ℕ) (found : Option SignalCandidate) (key : String) (d : Detection)
    → is_known key d.signals ≡ true
    → is_known key (persist_candidate lib seed found d).signals ≡ true
unfolding persist_candidate
known_still lib seed none key d h = h
known_still lib seed (some c) key d h = elim (Bool-cases (is_known c.dedupe_key d.signals)) [
  | inl e ↦ rw e h
  | inr e ↦
      rw
        (
          e,
          any-append (λ (s : Signal). str_eq s.dedupe_key key) d.signals
              (signal_row lib seed c ∷ []),
          h,
        )
        refl
]

known_own :
    (lib : Library) (seed : ℕ) (c : SignalCandidate) (d : Detection)
    → is_known c.dedupe_key (persist_candidate lib seed (some c) d).signals ≡ true
unfolding persist_candidate signal_row
known_own lib seed c d = elim (Bool-cases (is_known c.dedupe_key d.signals)) [
  | inl e ↦ rw (e, e) refl
  | inr e ↦
      rw
        (
          e,
          any-append (λ (s : Signal). str_eq s.dedupe_key c.dedupe_key) d.signals
              (signal_row lib seed c ∷ []),
          e,
          eq_refl c.dedupe_key,
        )
        refl
]

module _ (lib : Library) (seed : ℕ) where
  abbrev pub reports_of :
      Detector → DetectionContext → Result DetectionError (Option SignalCandidate)
  reports_of detector context = evaluate lib.hexdigest lib.date_isoformat detector context

  -- Every detector's report on a context is a signal.
  abbrev pub ContextReported : List Detector → Option DetectionContext → List Signal → Type 0
  ContextReported detectors none signals = Unit
  ContextReported detectors (some context) signals =
      All (λ detector. Reported (reports_of detector context) signals) detectors

  -- Every report on the contexts is a signal.
  abbrev pub AllReported : List Detector → List (Option DetectionContext) → List Signal → Type 0
  AllReported detectors contexts signals =
      All (λ context. ContextReported detectors context signals) contexts

  each_known :
      (detectors : List Detector) (context : DetectionContext) (d after : Detection) (key : String)
      → run_each lib seed detectors context d ≡ ok after
      → is_known key d.signals ≡ true
      → is_known key after.signals ≡ true
  unfolding run_each
  each_known [] context d after key h there =
      subst (λ (x : Detection). is_known key x.signals ≡ true) (ok-injective h) there
  each_known (detector ∷ rest) context d after key h there =
      let (found, _, more) = >>=-eq-ok (reports_of detector context) _ h in
      each_known rest context (persist_candidate lib seed found d) after key more
        (known_still lib seed found key d there)

  context_known :
      (detectors : List Detector) (context : Option DetectionContext) (d after : Detection)
      (key : String)
      → run_context lib seed detectors context d ≡ ok after
      → is_known key d.signals ≡ true
      → is_known key after.signals ≡ true
  unfolding run_context
  context_known detectors none d after key h there =
      subst (λ (x : Detection). is_known key x.signals ≡ true) (ok-injective h) there
  context_known detectors (some context) d after key h there =
      each_known detectors context (record d { contexts = suc d.contexts }) after key h there

  all_known :
      (detectors : List Detector) (contexts : List (Option DetectionContext)) (d after : Detection)
      (key : String)
      → run_all lib seed detectors contexts d ≡ ok after
      → is_known key d.signals ≡ true
      → is_known key after.signals ≡ true
  unfolding run_all
  all_known detectors [] d after key h there =
      subst (λ (x : Detection). is_known key x.signals ≡ true) (ok-injective h) there
  all_known detectors (context ∷ rest) d after key h there =
      let (between, ran, more) = >>=-eq-ok (run_context lib seed detectors context d) _ h in
      all_known detectors rest between after key more
        (context_known detectors context d between key ran there)

  -- A report that is a signal stays one.
  found-Reported :
      (found : Option SignalCandidate) (before after : List Signal)
      → ((key : String) → is_known key before ≡ true → is_known key after ≡ true)
      → Reported (ok found) before
      → Reported (ok found) after
  found-Reported none before after on r = tt
  found-Reported (some c) before after on r = on c.dedupe_key r

  still-Reported :
      (call : Result DetectionError (Option SignalCandidate)) (before after : List Signal)
      → ((key : String) → is_known key before ≡ true → is_known key after ≡ true)
      → Reported call before
      → Reported call after
  still-Reported (ok found) before after on r = found-Reported found before after on r
  still-Reported (err e) before after on r = r

  each-Reported_on :
      (detectors : List Detector) (context : DetectionContext) (before after : List Signal)
      → ((key : String) → is_known key before ≡ true → is_known key after ≡ true)
      → All (λ detector. Reported (reports_of detector context) before) detectors
      → All (λ detector. Reported (reports_of detector context) after) detectors
  each-Reported_on [] context before after on r = tt
  each-Reported_on (detector ∷ rest) context before after on r = (
    still-Reported (reports_of detector context) before after on r.0,
    each-Reported_on rest context before after on r.1,
  )

  ContextReported-on :
      (detectors : List Detector) (context : Option DetectionContext) (before after : List Signal)
      → ((key : String) → is_known key before ≡ true → is_known key after ≡ true)
      → ContextReported detectors context before
      → ContextReported detectors context after
  ContextReported-on detectors none before after on r = tt
  ContextReported-on detectors (some context) before after on r =
      each-Reported_on detectors context before after on r

  persisted-Reported :
      (found : Option SignalCandidate) (d : Detection)
      → Reported (ok found) (persist_candidate lib seed found d).signals
  persisted-Reported none d = tt
  persisted-Reported (some c) d = known_own lib seed c d

  each-Reported :
      (detectors : List Detector) (context : DetectionContext) (d after : Detection)
      → run_each lib seed detectors context d ≡ ok after
      → All (λ detector. Reported (reports_of detector context) after.signals) detectors
  unfolding run_each
  each-Reported [] context d after h = tt
  each-Reported (detector ∷ rest) context d after h =
      let (found, called, more) = >>=-eq-ok (reports_of detector context) _ h in
      let next = persist_candidate lib seed found d in
      (
        subst (λ call. Reported call after.signals) (sym called)
            (found-Reported found next.signals after.signals
              (λ key. each_known rest context next after key more) (persisted-Reported found d)),
        each-Reported rest context next after more,
      )

  context-Reported :
      (detectors : List Detector) (context : Option DetectionContext) (d after : Detection)
      → run_context lib seed detectors context d ≡ ok after
      → ContextReported detectors context after.signals
  unfolding run_context
  context-Reported detectors none d after h = tt
  context-Reported detectors (some context) d after h =
      each-Reported detectors context (record d { contexts = suc d.contexts }) after h

  -- After a pass, every report on its contexts is a signal.
  pub run_all-AllReported :
      (detectors : List Detector) (contexts : List (Option DetectionContext)) (d after : Detection)
      → run_all lib seed detectors contexts d ≡ ok after
      → AllReported detectors contexts after.signals
  unfolding run_all
  run_all-AllReported detectors [] d after h = tt
  run_all-AllReported detectors (context ∷ rest) d after h =
      let (between, ran, more) = >>=-eq-ok (run_context lib seed detectors context d) _ h in
      (
        ContextReported-on detectors context between.signals after.signals
            (λ key. all_known detectors rest between after key more)
            (context-Reported detectors context d between ran),
        run_all-AllReported detectors rest between after more,
      )
