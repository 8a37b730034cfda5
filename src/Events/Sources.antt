-- ===== src/Events/Sources.antt =====
-- src/revenue_sentinel/events/sources.py: the mirror replayed as source events.
--
-- The rows' times are read in UTC, so that a day begins at a multiple of its length.
use Prim.Native.Nat.{Ordering}
use Prim.Native.String.{◌++◌ as concat, compare as compare_texts}
use revenue_sentinel.Base.{
  ℕ, ◌*◌, ◌/◌, Bool, true, false, leb, ◌==◌, String, Option, none, some, List, ◌++◌, map, find,
}
use revenue_sentinel.Base.Sorting.{sort_by, text_leb}
use revenue_sentinel.Json.{Json, Object, empty, field, text, null, number}
use revenue_sentinel.Domain.{
  SourceSystem, source_value, crm, product, engagement, support, EventType, crm_opportunity_updated,
  crm_activity_logged, product_usage_rollup, engagement_meeting_held, engagement_email_activity,
  support_issue_opened, OpportunityStage, ActivityType,
}
use revenue_sentinel.Domain.Gtm.{
  Account, Opportunity, Activity, UsageSnapshot, EngagementEvent, SupportIssue, Mirror,
  ActivityDirection, EngagementChannel, EngagementEventType, SupportSeverity, SupportStatus,
}
use revenue_sentinel.Analytics.Windows.{microseconds_per_day}
use revenue_sentinel.Events.{Library}

pub record SourceEvent : Type 0 where
  pub source_system : SourceSystem
  pub source_event_id : String
  pub event_type : EventType
  pub occurred_at : ℕ
  pub payload : Object

-- The values of the vocabularies.
abbrev pub stage_value : OpportunityStage → String
stage_value OpportunityStage.discovery = "discovery"
stage_value OpportunityStage.proposal = "proposal"
stage_value OpportunityStage.negotiation = "negotiation"
stage_value OpportunityStage.closed_won = "closed_won"
stage_value OpportunityStage.closed_lost = "closed_lost"

abbrev pub activity_value : ActivityType → String
activity_value ActivityType.email = "email"
activity_value ActivityType.call = "call"
activity_value ActivityType.meeting = "meeting"
activity_value ActivityType.note = "note"

abbrev pub direction_value : ActivityDirection → String
direction_value ActivityDirection.inbound = "inbound"
direction_value ActivityDirection.outbound = "outbound"
direction_value ActivityDirection.internal = "internal"

abbrev pub channel_value : EngagementChannel → String
channel_value EngagementChannel.email = "email"
channel_value EngagementChannel.calendar = "calendar"
channel_value EngagementChannel.web = "web"

abbrev pub engagement_value : EngagementEventType → String
engagement_value EngagementEventType.sent = "sent"
engagement_value EngagementEventType.opened = "opened"
engagement_value EngagementEventType.clicked = "clicked"
engagement_value EngagementEventType.meeting_held = "meeting_held"

abbrev pub support_severity_value : SupportSeverity → String
support_severity_value SupportSeverity.p1 = "p1"
support_severity_value SupportSeverity.p2 = "p2"
support_severity_value SupportSeverity.p3 = "p3"
support_severity_value SupportSeverity.p4 = "p4"

abbrev pub support_status_value : SupportStatus → String
support_status_value SupportStatus.«open» = "open"
support_status_value SupportStatus.pending = "pending"
support_status_value SupportStatus.resolved = "resolved"
support_status_value SupportStatus.closed = "closed"

-- `account.account_ref if account else None`, as a value of a payload.
account_ref_json : Option Account → Json
account_ref_json none = null
account_ref_json (some account) = text account.account_ref

opportunity_ref_json : Option Opportunity → Json
opportunity_ref_json none = null
opportunity_ref_json (some opportunity) = text opportunity.opportunity_ref

-- `account.account_ref if account else "unknown"`.
known_account_ref : Option Account → String
known_account_ref none = "unknown"
known_account_ref (some account) = account.account_ref

engagement_event_type : EngagementEventType → EventType
engagement_event_type EngagementEventType.meeting_held = engagement_meeting_held
engagement_event_type _ = engagement_email_activity

-- `session.get(...)`.
abbrev pub account_of : Mirror → ℕ → Option Account
account_of mirror id = find (λ (a : Account). a.id == id) mirror.accounts

abbrev pub opportunity_of : Mirror → ℕ → Option Opportunity
opportunity_of mirror id = find (λ (o : Opportunity). o.id == id) mirror.opportunities

abbrev optional_opportunity : Mirror → Option ℕ → Option Opportunity
optional_opportunity mirror none = none
optional_opportunity mirror (some id) = opportunity_of mirror id

-- `(event.source_system.value, event.source_event_id)`, in order.
unfoldable pub precedes : SourceEvent → SourceEvent → Bool
precedes a b = elim (compare_texts (source_value a.source_system) (source_value b.source_system)) [
  | Ordering.lt ↦ true
  | Ordering.gt ↦ false
  | Ordering.eq ↦ text_leb a.source_event_id b.source_event_id
]

module _ (lib : Library) (mirror : Mirror) where
  opportunity_event : Opportunity → SourceEvent
  unfolding account_ref_json
  opportunity_event row = record {
    source_system = crm;
    source_event_id = concat "crm:opportunity:" row.opportunity_ref;
    event_type = crm_opportunity_updated;
    occurred_at = row.updated_at;
    payload = field "opportunity_ref" (text row.opportunity_ref) (
        field "account_ref" (account_ref_json (account_of mirror row.account_id)) (
          field "name" (text row.name) (
            field "stage" (text (stage_value row.stage)) (
              field "amount" (text (lib.decimal_text 2 (row.amount / 10000))) (
                field "currency" (text row.currency) (
                  field "probability" (text (lib.decimal_text 4 row.probability)) (
                    field "expected_close_date" (text (lib.date_isoformat row.expected_close_date))
                      (field "owner_id" (text row.owner_id) empty))))))));
  }

  activity_event : Activity → SourceEvent
  unfolding account_ref_json opportunity_ref_json
  activity_event row = record {
    source_system = crm;
    source_event_id = concat "crm:activity:" (lib.id_text row.id);
    event_type = crm_activity_logged;
    occurred_at = row.occurred_at;
    payload = field "account_ref" (account_ref_json (account_of mirror row.account_id)) (
        field "opportunity_ref"
          (opportunity_ref_json (optional_opportunity mirror row.opportunity_id))
          (field "activity_type" (text (activity_value row.activity_type)) (
            field "direction" (text (direction_value row.direction)) (
              field "occurred_at" (text (lib.isoformat row.occurred_at))
                (field "subject" (text row.subject) (field "body" (text row.body) empty))))));
  }

  usage_event : UsageSnapshot → SourceEvent
  unfolding known_account_ref
  usage_event row =
      let account_ref = known_account_ref (account_of mirror row.account_id) in
      record {
        source_system = product;
        source_event_id =
            concat "product:usage:"
              (concat account_ref (concat ":" (lib.date_isoformat row.period_start)));
        event_type = product_usage_rollup;
        occurred_at = row.period_end * microseconds_per_day;
        payload = field "account_ref" (text account_ref) (
            field "period_start" (text (lib.date_isoformat row.period_start)) (
              field "period_end" (text (lib.date_isoformat row.period_end)) (
                field "active_users" (number (lib.int_text row.active_users)) (
                  field "sessions" (number (lib.int_text row.sessions)) (
                    field "feature_events" (number (lib.int_text row.feature_events))
                      (field "usage_score" (text (lib.decimal_text 2 row.usage_score)) empty))))));
      }

  engagement_event : EngagementEvent → SourceEvent
  unfolding account_ref_json engagement_event_type
  engagement_event row = record {
    source_system = engagement;
    source_event_id = concat "engagement:" (lib.id_text row.id);
    event_type = engagement_event_type row.event_type;
    occurred_at = row.occurred_at;
    payload = field "account_ref" (account_ref_json (account_of mirror row.account_id)) (
        field "channel" (text (channel_value row.channel)) (
          field "event_type" (text (engagement_value row.event_type))
            (field "occurred_at" (text (lib.isoformat row.occurred_at)) empty)));
  }

  support_event : SupportIssue → SourceEvent
  unfolding account_ref_json
  support_event row = record {
    source_system = support;
    source_event_id = concat "support:issue:" row.external_ref;
    event_type = support_issue_opened;
    occurred_at = row.opened_at;
    payload = field "account_ref" (account_ref_json (account_of mirror row.account_id)) (
        field "external_ref" (text row.external_ref) (
          field "severity" (text (support_severity_value row.severity)) (
            field "status" (text (support_status_value row.status)) (
              field "opened_at" (text (lib.isoformat row.opened_at))
                (field "summary" (text row.summary) empty)))));
  }

  -- `read_source_events`: each table in the order of its query, then sorted.
  unfoldable pub read_source_events : List SourceEvent
  unfolding opportunity_event activity_event usage_event engagement_event support_event
  read_source_events = sort_by precedes (
      map opportunity_event
        (sort_by (λ a b. text_leb a.opportunity_ref b.opportunity_ref) mirror.opportunities)
      ++ map activity_event (sort_by (λ a b. leb a.occurred_at b.occurred_at) mirror.activities)
      ++ map usage_event (sort_by (λ a b. leb a.period_start b.period_start) mirror.usage_snapshots)
      ++ map engagement_event
          (sort_by (λ a b. leb a.occurred_at b.occurred_at) mirror.engagement_events)
      ++ map support_event
          (sort_by (λ a b. text_leb a.external_ref b.external_ref) mirror.support_issues))
