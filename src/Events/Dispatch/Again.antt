-- ===== src/Events/Dispatch/Again.antt =====
-- Detecting again, in src/revenue_sentinel/events/dispatcher.py.
use mathlib.Core.Path.{subst, ◌∙◌}
use revenue_sentinel.Base.{
  ℕ, suc, ◌≡◌, refl, sym, Option, none, some, List, [], ◌∷◌, All, Result, ok, err, ◌>>=◌,
}
use revenue_sentinel.Signals.{DetectionContext, SignalCandidate}
use revenue_sentinel.Signals.Stalled.{DetectionError}
use revenue_sentinel.Signals.Registry.{Detector}
use revenue_sentinel.Events.{Library}
use revenue_sentinel.Events.Dispatch.{Detection, persist_candidate, run_each, run_context, run_all}
use revenue_sentinel.Events.Dispatch.Reports.{Reported, reports_of, ContextReported, AllReported}

module _ (lib : Library) (seed : ℕ) where
  -- The signals and what was created are as they were, whatever was counted.
  abbrev pub Unchanged : Detection → Result DetectionError Detection → Type 0
  Unchanged d (ok after) = (after.signals ≡ d.signals) × (after.created ≡ d.created)
  Unchanged d (err e) = ⊥

  persist_known :
      (found : Option SignalCandidate) (d : Detection)
      → Reported (ok found) d.signals
      → ((persist_candidate lib seed found d).signals ≡ d.signals)
        × ((persist_candidate lib seed found d).created ≡ d.created)
  unfolding persist_candidate
  persist_known none d r = (refl, refl)
  persist_known (some c) d r = rw r (refl, refl)

  Unchanged-trans :
      (d e : Detection) (out : Result DetectionError Detection)
      → (e.signals ≡ d.signals) × (e.created ≡ d.created)
      → Unchanged e out
      → Unchanged d out
  Unchanged-trans d e (ok after) (s, c) (s', c') = (s' ∙ s, c' ∙ c)
  Unchanged-trans d e (err x) same r = r

  Reported-then :
      (d : Detection) (call : Result DetectionError (Option SignalCandidate))
      (rest : Option SignalCandidate → Result DetectionError Detection)
      → Reported call d.signals
      → ((found : Option SignalCandidate)
          → Reported (ok found) d.signals
          → Unchanged d (rest found))
      → Unchanged d (call >>= rest)
  Reported-then d (ok found) rest r next = next found r
  Reported-then d (err e) rest r next = absurd r

  Unchanged-then :
      (d : Detection) (call : Result DetectionError Detection)
      (rest : Detection → Result DetectionError Detection)
      → Unchanged d call
      → ((e : Detection) → (e.signals ≡ d.signals) × (e.created ≡ d.created) → Unchanged d (rest e))
      → Unchanged d (call >>= rest)
  Unchanged-then d (ok e) rest r next = next e r
  Unchanged-then d (err e) rest r next = absurd r

  each_again :
      (detectors : List Detector) (context : DetectionContext) (d : Detection)
      → All (λ detector. Reported (reports_of lib seed detector context) d.signals) detectors
      → Unchanged d (run_each lib seed detectors context d)
  unfolding run_each
  each_again [] context d r = (refl, refl)
  each_again (detector ∷ rest) context d r =
      Reported-then d (reports_of lib seed detector context)
        (λ found. run_each lib seed rest context (persist_candidate lib seed found d)) r.0
        λ found known.
          let next = persist_candidate lib seed found d in
          let same = persist_known found d known in
          Unchanged-trans d next (run_each lib seed rest context next) same (
            each_again rest context next (
              subst (λ s. All (λ detector. Reported (reports_of lib seed detector context) s) rest)
                (sym same.0) r.1))

  context_again :
      (detectors : List Detector) (context : Option DetectionContext) (d : Detection)
      → ContextReported lib seed detectors context d.signals
      → Unchanged d (run_context lib seed detectors context d)
  unfolding run_context
  context_again detectors none d r = (refl, refl)
  context_again detectors (some context) d r =
      let counted : Detection = record d { contexts = suc d.contexts } in
      Unchanged-trans d counted (run_each lib seed detectors context counted) (refl, refl)
        (each_again detectors context counted r)

  -- Where every report is a signal, a pass returns, and creates none.
  pub run_all_again :
      (detectors : List Detector) (contexts : List (Option DetectionContext)) (d : Detection)
      → AllReported lib seed detectors contexts d.signals
      → Unchanged d (run_all lib seed detectors contexts d)
  unfolding run_all
  run_all_again detectors [] d r = (refl, refl)
  run_all_again detectors (context ∷ rest) d r =
      Unchanged-then d (run_context lib seed detectors context d) (run_all lib seed detectors rest)
        (context_again detectors context d r.0)
        λ e same. Unchanged-trans d e (run_all lib seed detectors rest e) same (
          run_all_again detectors rest e
            (subst (λ s. AllReported lib seed detectors rest s) (sym same.0) r.1))
