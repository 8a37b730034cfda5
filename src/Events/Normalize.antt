-- ===== src/Events/Normalize.antt =====
-- src/revenue_sentinel/events/normalize.py: raw payloads to the canonical envelope.
--
-- The rows are read in the order of the database: that of the source systems' declaration, then of the
-- event ids' code points. The constant trust level of an envelope is left out.
pub mod Pending
pub mod RoundTrip
use revenue_sentinel.Base.{
  ℕ, suc, ◌-◌, ◌≡◌, Bool, true, false, not, ◌&&◌, ◌||◌, leb, ltb, ◌==◌, String, str_eq, Option,
  none, some, List, [], ◌∷◌, ◌++◌, any, find, keep, length, Result, ok, err, ◌>>=◌, ◌>>◌, raise_if,
  if◌then◌else◌, refl,
}
use revenue_sentinel.Base.Text.{codes}
use revenue_sentinel.Base.Sorting.{sort_by, text_leb}
use revenue_sentinel.Core.Refs.{is_digit}
use revenue_sentinel.Json.{Json, Object, get}
use revenue_sentinel.Domain.{
  SourceSystem, crm, product, engagement, support, enrichment, EventType, event_value, is_emitted,
  crm_opportunity_updated, crm_activity_logged, product_usage_rollup, engagement_email_activity,
  engagement_meeting_held, support_issue_opened, crm_opportunity_stage_changed,
  crm_record_quality_flagged, enrichment_provider_usage_reported, campaign_performance_rollup,
}
use revenue_sentinel.Signals.{EventEnvelope}
use revenue_sentinel.Events.{Library, RawEvent, Store}

-- What is raised: `DomainValidationError` by what it reports, a text that is no time with a zone, or
-- an envelope that fails its validation.
pub data NormalizeError : Type 0 where
  not_an_object : String → NormalizeError
  no_event_type : ℕ → NormalizeError
  unknown_event_type : String → NormalizeError
  not_emitted : EventType → NormalizeError
  no_occurred_at : ℕ → NormalizeError
  bad_time : String → NormalizeError
  not_a_string : String → NormalizeError
  bad_reference : String → NormalizeError

pub record NormalizeResult : Type 0 where
  pub normalized : ℕ
  pub skipped_already_normalized : ℕ

abbrev pub schema_version : String
schema_version = "1.0"

-- `_as_object`, of a value that may be missing.
as_object : Option Json → String → Result NormalizeError Object
as_object (some (Json.object o)) label = ok o
as_object _ label = err (not_an_object label)

-- `_optional_ref`.
unfoldable pub optional_ref : String → Option Json → Result NormalizeError (Option String)
optional_ref key none = ok none
optional_ref key (some Json.null) = ok none
optional_ref key (some (Json.text value)) = ok (some value)
optional_ref key (some _) = err (not_a_string key)

-- The pattern of `AccountRef` and `OpportunityRef`: three characters, a dash and four digits.
four_digits : List ℕ → Bool
four_digits (a ∷ b ∷ c ∷ d ∷ []) = is_digit a && is_digit b && is_digit c && is_digit d
four_digits _ = false

is_ref : List ℕ → List ℕ → Bool
unfolding four_digits
is_ref (p ∷ prefix) (c ∷ text) = let rest = is_ref prefix text in p == c && rest
is_ref (p ∷ prefix) [] = false
is_ref [] text = four_digits text

unfoldable pub validated : List ℕ → Option String → Result NormalizeError (Option String)
unfolding is_ref
validated prefix none = ok none
validated prefix (some ref) =
    if is_ref prefix (codes ref) then ok (some ref) else err (bad_reference ref)

abbrev event_types : List EventType
event_types =
    crm_opportunity_updated ∷ crm_activity_logged ∷ product_usage_rollup ∷ engagement_email_activity
    ∷ engagement_meeting_held ∷ support_issue_opened ∷ crm_opportunity_stage_changed
    ∷ crm_record_quality_flagged ∷ enrichment_provider_usage_reported ∷ campaign_performance_rollup
    ∷ []

-- `EventType(raw_type)`.
known_type : String → Option EventType → Result NormalizeError EventType
known_type raw none = err (unknown_event_type raw)
known_type raw (some event_type) = ok event_type

emitted_type : EventType → Result NormalizeError EventType
emitted_type event_type =
    if is_emitted event_type then ok event_type else err (not_emitted event_type)

event_type_of : ℕ → Option Json → Result NormalizeError EventType
unfolding known_type emitted_type
event_type_of id (some (Json.text raw)) =
    known_type raw (find (λ t. str_eq (event_value t) raw) event_types) >>= emitted_type
event_type_of id _ = err (no_event_type id)

known_time : String → Option ℕ → Result NormalizeError ℕ
known_time raw none = err (bad_time raw)
known_time raw (some instant) = ok instant

occurred_at_of : Library → ℕ → Option Json → Result NormalizeError ℕ
unfolding known_time
occurred_at_of lib id (some (Json.text raw)) = known_time raw (lib.fromisoformat raw)
occurred_at_of lib id _ = err (no_occurred_at id)

-- `build_envelope`; `new_id` is the value of `new_id()`.
unfoldable pub build_envelope : Library → ℕ → RawEvent → Result NormalizeError EventEnvelope
unfolding as_object optional_ref validated event_type_of occurred_at_of
build_envelope lib new_id raw = do
  payload ← as_object (some raw.payload) "raw_events.payload"
  event_type ← event_type_of raw.id (get payload "event_type")
  occurred_at ← occurred_at_of lib raw.id (get payload "occurred_at")
  attributes ← as_object (get payload "data") "raw_events.payload.data"
  account_ref ← optional_ref "account_ref" (get attributes "account_ref")
  opportunity_ref ← optional_ref "opportunity_ref" (get attributes "opportunity_ref")
  account_ref ← validated (codes "ACC-") account_ref
  opportunity_ref ← validated (codes "OPP-") opportunity_ref
  ok (record {
    id = new_id;
    raw_event_id = raw.id;
    schema_version = schema_version;
    event_type = event_type;
    source_system = raw.source_system;
    occurred_at = occurred_at;
    received_at = raw.received_at;
    account_ref = account_ref;
    opportunity_ref = opportunity_ref;
    attributes = attributes;
  })

-- `RawEvent.id.not_in(already)`.
abbrev pub is_pending : List EventEnvelope → RawEvent → Bool
is_pending already raw =
    not (any (λ (envelope : EventEnvelope). envelope.raw_event_id == raw.id) already)

abbrev system_rank : SourceSystem → ℕ
system_rank crm = 0
system_rank product = 1
system_rank engagement = 2
system_rank support = 3
system_rank enrichment = 4

abbrev pub raw_precedes : RawEvent → RawEvent → Bool
raw_precedes a b =
    ltb (system_rank a.source_system) (system_rank b.source_system)
    || (system_rank a.source_system == system_rank b.source_system
        && text_leb a.source_event_id b.source_event_id)

-- The rows that are read.
unfoldable pub pending_events : Store → List RawEvent
pending_events st = sort_by raw_precedes (keep (is_pending st.normalized_events) st.raw_events)

-- The loop: an envelope that cannot be built ends it.
pub normalize_all : Library → List RawEvent → Store → Result NormalizeError Store
normalize_all lib [] st = ok st
normalize_all lib (raw ∷ rest) st = build_envelope lib st.next_id raw >>= λ envelope.
    normalize_all lib rest (record st {
      normalized_events = st.normalized_events ++ envelope ∷ [];
      next_id = suc st.next_id;
    })

-- `normalize_pending`.
unfoldable pub normalize_pending : Library → Store → Result NormalizeError (NormalizeResult × Store)
unfolding normalize_all
normalize_pending lib st =
    let pending = pending_events st in
    normalize_all lib pending st >>= λ after. ok (
      record {
        normalized = length pending;
        skipped_already_normalized = length st.raw_events - length pending;
      },
      after,
    )
