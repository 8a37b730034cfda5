-- ===== src/Events/Normalize/RoundTrip.antt =====
-- What src/revenue_sentinel/events/ingest.py stores is what normalize.py reads back.
use revenue_sentinel.Base.{ℕ, ◌≡◌, refl, true, String, Option, some, ok}
use revenue_sentinel.Base.Text.{codes}
use revenue_sentinel.Json.{Json, get}
use revenue_sentinel.Domain.{
  EventType, event_value, is_emitted, crm_opportunity_updated, crm_activity_logged,
  product_usage_rollup, engagement_email_activity, engagement_meeting_held, support_issue_opened,
}
use revenue_sentinel.Events.{Library}
use revenue_sentinel.Events.Sources.{SourceEvent}
use revenue_sentinel.Events.Ingest.{raw_row}
use revenue_sentinel.Events.Normalize.{
  build_envelope, event_type_of, optional_ref, validated, schema_version,
}

-- An emitted type is read back from its value.
event_type_of-value :
    (id : ℕ) (event_type : EventType)
    → is_emitted event_type ≡ true
    → event_type_of id (some (Json.text (event_value event_type))) ≡ ok event_type
unfolding event_type_of
event_type_of-value id crm_opportunity_updated h = refl
event_type_of-value id crm_activity_logged h = refl
event_type_of-value id product_usage_rollup h = refl
event_type_of-value id engagement_email_activity h = refl
event_type_of-value id engagement_meeting_held h = refl
event_type_of-value id support_issue_opened h = refl
event_type_of-value id _ h = cc

-- The row that ingestion writes for a source event is normalised to an envelope with the event's own type,
-- system, time and payload, for an event of an emitted type whose time the library reads back from
-- its text and whose references, where it has them, are well formed.
pub build_envelope-raw_row :
    (lib : Library) (batch_id received_at raw_id new_id : ℕ) (event : SourceEvent)
    (account_ref opportunity_ref : Option String)
    → lib.fromisoformat (lib.isoformat event.occurred_at) ≡ some event.occurred_at
    → is_emitted event.event_type ≡ true
    → optional_ref "account_ref" (get event.payload "account_ref") ≡ ok account_ref
    → validated (codes "ACC-") account_ref ≡ ok account_ref
    → optional_ref "opportunity_ref" (get event.payload "opportunity_ref") ≡ ok opportunity_ref
    → validated (codes "OPP-") opportunity_ref ≡ ok opportunity_ref
    → build_envelope lib new_id (raw_row lib batch_id received_at raw_id event)
      ≡ ok (record {
        id = new_id;
        raw_event_id = raw_id;
        schema_version = schema_version;
        event_type = event.event_type;
        source_system = event.source_system;
        occurred_at = event.occurred_at;
        received_at = received_at;
        account_ref = account_ref;
        opportunity_ref = opportunity_ref;
        attributes = event.payload;
      })
unfolding build_envelope raw_row get
build_envelope-raw_row lib batch_id received_at raw_id new_id event account_ref opportunity_ref time
      emitted a va o vo =
    rw (event_type_of-value raw_id event.event_type emitted, time, a, o, va, vo) refl
