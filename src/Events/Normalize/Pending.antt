-- ===== src/Events/Normalize/Pending.antt =====
-- Normalising again, in src/revenue_sentinel/events/normalize.py.
use mathlib.Core.Path.{subst, ◌∙◌}
use revenue_sentinel.Base.{
  ℕ, ◌-◌, ◌≡◌, refl, sym, ap, arith, Bool, true, false, List, [], ◌∷◌, ◌++◌, any, any-append, keep,
  keep-false, length, ◌==◌, All, All-keep, Bool-cases, inl, inr, ok, >>=-eq-ok, some, ok-injective,
}
use revenue_sentinel.Base.Sorting.{sort_by, sort_by-All}
use revenue_sentinel.Signals.{EventEnvelope}
use revenue_sentinel.Events.{Library, RawEvent, Store}
use revenue_sentinel.Events.Normalize.{
  NormalizeResult, build_envelope, is_pending, raw_precedes, pending_events, normalize_all,
  normalize_pending, as_object, event_type_of, occurred_at_of, optional_ref, validated,
}
use revenue_sentinel.Json.{get}
use revenue_sentinel.Base.Text.{codes}

abbrev is_envelope_of : ℕ → EventEnvelope → Bool
is_envelope_of id envelope = envelope.raw_event_id == id

-- Every step of the building passes the raw event's id on.
raw_event_id-build_envelope :
    (lib : Library) (new_id : ℕ) (raw : RawEvent) (envelope : EventEnvelope)
    → build_envelope lib new_id raw ≡ ok envelope
    → envelope.raw_event_id ≡ raw.id
unfolding build_envelope
raw_event_id-build_envelope lib new_id raw envelope h0 =
    let (payload, _, h1) = >>=-eq-ok (as_object (some raw.payload) "raw_events.payload") _ h0 in
    let (_, _, h2) = >>=-eq-ok (event_type_of raw.id (get payload "event_type")) _ h1 in
    let (_, _, h3) = >>=-eq-ok (occurred_at_of lib raw.id (get payload "occurred_at")) _ h2 in
    let (attributes, _, h4) =
      >>=-eq-ok (as_object (get payload "data") "raw_events.payload.data") _ h3 in
    let (account_ref, _, h5) =
      >>=-eq-ok (optional_ref "account_ref" (get attributes "account_ref")) _ h4 in
    let (opportunity_ref, _, h6) =
      >>=-eq-ok (optional_ref "opportunity_ref" (get attributes "opportunity_ref")) _ h5 in
    let (_, _, h7) = >>=-eq-ok (validated (codes "ACC-") account_ref) _ h6 in
    let (_, _, h8) = >>=-eq-ok (validated (codes "OPP-") opportunity_ref) _ h7 in
    ap (λ (e : EventEnvelope). e.raw_event_id) (sym (ok-injective h8))

own_append :
    (envelopes : List EventEnvelope) (envelope : EventEnvelope) (id : ℕ)
    → envelope.raw_event_id ≡ id
    → any (is_envelope_of id) (envelopes ++ envelope ∷ []) ≡ true
own_append [] envelope id h = ground arith
own_append (first ∷ rest) envelope id h = ground (arith, own_append rest envelope id h)

-- The tables that a pass does not touch.
abbrev pub Untouched : Store → Store → Type 0
Untouched st after =
    (after.mirror ≡ st.mirror)
    × (after.raw_events ≡ st.raw_events)
    × (after.signals ≡ st.signals)
    × (after.incidents ≡ st.incidents)
    × (after.next_incident ≡ st.next_incident)

-- A raw event has its envelope.
abbrev pub is_normalized : Store → ℕ → Bool
is_normalized st id = any (is_envelope_of id) st.normalized_events

normalized_still :
    (lib : Library) (rows : List RawEvent) (st after : Store) (id : ℕ)
    → normalize_all lib rows st ≡ ok after
    → is_normalized st id ≡ true
    → is_normalized after id ≡ true
unfolding normalize_all
normalized_still lib [] st after id h there =
    subst (λ s. is_normalized s id ≡ true) (ok-injective h) there
normalized_still lib (raw ∷ rest) st after id h there =
    let (envelope, built, more) = >>=-eq-ok (build_envelope lib st.next_id raw) _ h in
    normalized_still lib rest _ after id more
      (rw (any-append (is_envelope_of id) st.normalized_events (envelope ∷ []), there) refl)

-- A pass over rows gives each its envelope.
normalize_all-normalized :
    (lib : Library) (rows : List RawEvent) (st after : Store)
    → normalize_all lib rows st ≡ ok after
    → All (λ (raw : RawEvent). is_normalized after raw.id ≡ true) rows
unfolding normalize_all
normalize_all-normalized lib [] st after h = tt
normalize_all-normalized lib (raw ∷ rest) st after h =
    let (envelope, built, more) = >>=-eq-ok (build_envelope lib st.next_id raw) _ h in
    (
      normalized_still lib rest _ after raw.id more (
          own_append st.normalized_events envelope raw.id
            (raw_event_id-build_envelope lib st.next_id raw envelope built)),
      normalize_all-normalized lib rest _ after more,
    )

normalize_all-Untouched :
    (lib : Library) (rows : List RawEvent) (st after : Store)
    → normalize_all lib rows st ≡ ok after
    → Untouched st after
unfolding normalize_all
normalize_all-Untouched lib [] st after h =
    subst (Untouched st) (ok-injective h) (refl, refl, refl, refl, refl)
normalize_all-Untouched lib (raw ∷ rest) st after h =
    let (envelope, built, more) = >>=-eq-ok (build_envelope lib st.next_id raw) _ h in
    normalize_all-Untouched lib rest _ after more

-- What is kept by a test that nothing passes.
keep_none : {A : Type 0} (p : A → Bool) (xs : List A) → All (λ x. p x ≡ false) xs → keep p xs ≡ []
keep_none p [] h = refl
keep_none p (x ∷ xs) h = keep-false p x xs h.0 ∙ keep_none p xs h.1

not_pending :
    (st after : Store) (raw : RawEvent)
    → (is_pending st.normalized_events raw ≡ true → is_normalized after raw.id ≡ true)
    → (is_normalized st raw.id ≡ true → is_normalized after raw.id ≡ true)
    → is_pending after.normalized_events raw ≡ false
not_pending st after raw fresh old = elim (Bool-cases (is_normalized st raw.id)) [
  | inl e ↦ rw (old e) refl
  | inr e ↦ rw (fresh (rw e refl)) refl
]

All-map :
    {A : Type 0} {P Q : A → Type 0} → ((x : A) → P x → Q x) → (xs : List A) → All P xs → All Q xs
All-map f [] h = tt
All-map f (x ∷ xs) h = (f x h.0, All-map f xs h.1)

-- After a pass over the pending events none is pending, and no other table has changed.
pub normalize_pending_done :
    (lib : Library) (st after : Store) (result : NormalizeResult)
    → normalize_pending lib st ≡ ok (result, after)
    → All (λ raw. is_pending after.normalized_events raw ≡ false) after.raw_events
      × Untouched st after
unfolding normalize_pending pending_events
normalize_pending_done lib st after result h =
    let pending = pending_events st in
    let (done, ran, returned) = >>=-eq-ok (normalize_all lib pending st) _ h in
    let same : done ≡ after = ap (λ (p : NormalizeResult × Store). p.1) (ok-injective returned) in
    let ran' = subst (λ s. normalize_all lib pending st ≡ ok s) same ran in
    let untouched = normalize_all-Untouched lib pending st after ran' in
    let fresh =
      All-keep (λ (raw : RawEvent). is_normalized after raw.id ≡ true)
        (is_pending st.normalized_events) st.raw_events
        (sort_by-All raw_precedes (λ (raw : RawEvent). is_normalized after raw.id ≡ true)
          (keep (is_pending st.normalized_events) st.raw_events)
          (normalize_all-normalized lib pending st after ran')) in
    (
      subst (λ rows. All (λ raw. is_pending after.normalized_events raw ≡ false) rows)
          (sym untouched.1)
          (All-map
            (λ raw f.
              not_pending st after raw f (normalized_still lib pending st after raw.id ran'))
            st.raw_events fresh),
      untouched,
    )

minus_zero : (n : ℕ) → n - 0 ≡ n
minus_zero n = omega arith

-- Where nothing is pending, a pass normalises nothing, skips every raw event and changes no table.
pub normalize_pending_again :
    (lib : Library) (st : Store)
    → All (λ raw. is_pending st.normalized_events raw ≡ false) st.raw_events
    → normalize_pending lib st
      ≡ ok (record { normalized = 0; skipped_already_normalized = length st.raw_events }, st)
unfolding normalize_pending pending_events normalize_all sort_by
normalize_pending_again lib st h =
    rw (keep_none (is_pending st.normalized_events) st.raw_events h) (
      ap (λ n. ok (record { normalized = 0; skipped_already_normalized = n }, st))
        (minus_zero (length st.raw_events)))
