-- ===== src/Cost/Timeline.antt =====
-- src/revenue_sentinel/cost/timeline.py: one run's rows of four tables, merged in order.
--
-- Money is in microdollars; its text and that of a number are parameters.
pub mod Order
use mathlib.Core.Path.{◌∙◌}
use Prim.Native.String.{◌++◌ as concat}
use revenue_sentinel.Base.{
  ℕ, Bool, true, false, ◌&&◌, ◌||◌, ltb, leb, ◌==◌, String, Option, none, some, List, ◌++◌, map,
  keep, if◌then◌else◌, ◌≡◌, sym, arith,
}
use revenue_sentinel.Base.Sorting.{
  sort_by, text_leb, text_leb_total, text_leb_trans, text_leb_antisym,
}
use revenue_sentinel.Base.Sorting.Laws.{
  Reordered, IsOrdered, sort_by-Reordered, sort_by-IsOrdered, weaker-IsOrdered,
  sort_by-Reordered_eq, map-sort_by, map-Reordered,
}

pub data Source : Type 0 where
  audit_event model_call tool_call cost_entry : Source

-- `SOURCE_RANK`.
abbrev pub source_rank : Source → ℕ
source_rank audit_event = 0
source_rank model_call = 1
source_rank tool_call = 2
source_rank cost_entry = 3

pub record TimelineEvent : Type 0 where
  pub occurred_at : ℕ
  pub source : Source
  pub event_type : String
  pub detail : String
  pub trace_id : Option String
  pub span_id : Option String
  pub parent_span_id : Option String
  pub amount_usd : Option ℕ
  pub pricing_version : Option String
  pub integration_status : Option String

-- The columns that the timeline reads.
pub record ModelCallRow : Type 0 where
  pub run_id : ℕ
  pub created_at : ℕ
  pub node_name : String
  pub model_id : String
  pub input_tokens : ℕ
  pub output_tokens : ℕ
  pub is_replay : Bool
  pub trace_id : String
  pub span_id : String

pub record ToolCallRow : Type 0 where
  pub run_id : ℕ
  pub created_at : ℕ
  pub tool_name : String
  pub status : String
  pub duration_ms : ℕ
  pub trace_id : String
  pub span_id : String
  pub parent_span_id : Option String

pub record CostEntryRow : Type 0 where
  pub run_id : Option ℕ
  pub recorded_at : ℕ
  pub cost_type : String
  pub amount_usd : ℕ
  pub pricing_version : String

pub record AuditEventRow : Type 0 where
  pub run_id : Option ℕ
  pub incident_id : Option ℕ
  pub occurred_at : ℕ
  pub event_type : String
  pub actor : String

pub record Observed : Type 0 where
  pub model_calls : List ModelCallRow
  pub tool_calls : List ToolCallRow
  pub cost_entries : List CostEntryRow
  pub audit_events : List AuditEventRow

-- A column that may be null, compared.
abbrev is_id : Option ℕ → ℕ → Bool
is_id none id = false
is_id (some other) id = other == id

-- The same of two of them.
abbrev are_equal : Option ℕ → Option ℕ → Bool
are_equal column none = false
are_equal column (some id) = is_id column id

module _ (int_text usd_text : ℕ → String) where
  model_call_event : ModelCallRow → TimelineEvent
  model_call_event call = record {
    occurred_at = call.created_at;
    source = model_call;
    event_type = call.node_name;
    detail = concat call.model_id (
        concat " in=" (
          concat (int_text call.input_tokens) (
            concat " out=" (
              concat (int_text call.output_tokens) (if call.is_replay then " [replay]" else "")))));
    trace_id = some call.trace_id;
    span_id = some call.span_id;
    parent_span_id = none;
    amount_usd = none;
    pricing_version = none;
    integration_status = none;
  }

  tool_call_event : ToolCallRow → TimelineEvent
  tool_call_event tool = record {
    occurred_at = tool.created_at;
    source = tool_call;
    event_type = tool.tool_name;
    detail = concat tool.status (concat " in " (concat (int_text tool.duration_ms) "ms"));
    trace_id = some tool.trace_id;
    span_id = some tool.span_id;
    parent_span_id = tool.parent_span_id;
    amount_usd = none;
    pricing_version = none;
    integration_status = some "SIMULATED";
  }

  cost_entry_event : CostEntryRow → TimelineEvent
  cost_entry_event entry = record {
    occurred_at = entry.recorded_at;
    source = cost_entry;
    event_type = entry.cost_type;
    detail = concat "$" (usd_text entry.amount_usd);
    trace_id = none;
    span_id = none;
    parent_span_id = none;
    amount_usd = some entry.amount_usd;
    pricing_version = some entry.pricing_version;
    integration_status = none;
  }

  audit_event_event : AuditEventRow → TimelineEvent
  audit_event_event event = record {
    occurred_at = event.occurred_at;
    source = audit_event;
    event_type = event.event_type;
    detail = event.actor;
    trace_id = none;
    span_id = none;
    parent_span_id = none;
    amount_usd = none;
    pricing_version = none;
    integration_status = none;
  }

  -- The rows of the run, and of its incident: `incident_id` is that of the run's row.
  unfoldable pub collected : ℕ → Option ℕ → Observed → List TimelineEvent
  unfolding model_call_event tool_call_event cost_entry_event audit_event_event
  collected run_id incident_id rows =
      map model_call_event (keep (λ (c : ModelCallRow). c.run_id == run_id) rows.model_calls)
      ++ map tool_call_event (keep (λ (t : ToolCallRow). t.run_id == run_id) rows.tool_calls)
      ++ map cost_entry_event (keep (λ (e : CostEntryRow). is_id e.run_id run_id) rows.cost_entries)
      ++ map audit_event_event (
          keep (λ (a : AuditEventRow). is_id a.run_id run_id || are_equal a.incident_id incident_id)
            rows.audit_events)

-- `sort_key`.
pub record SortKey : Type 0 where
  pub occurred_at : ℕ
  pub rank : ℕ
  pub label : String

abbrev pub sort_key : TimelineEvent → SortKey
sort_key event = record {
  occurred_at = event.occurred_at;
  rank = source_rank event.source;
  label = concat event.event_type event.detail;
}

unfoldable pub key_leb : SortKey → SortKey → Bool
key_leb a b =
    if ltb a.occurred_at b.occurred_at
    then true
    else if ltb b.occurred_at a.occurred_at
    then false
    else if ltb a.rank b.rank
    then true
    else if ltb b.rank a.rank
    then false
    else text_leb a.label b.label

abbrev pub comes_before : TimelineEvent → TimelineEvent → Bool
comes_before a b = key_leb (sort_key a) (sort_key b)

unfoldable pub merged : List TimelineEvent → List TimelineEvent
merged events = sort_by comes_before events

-- `incident_timeline`.
unfoldable pub incident_timeline :
    (ℕ → String) → (ℕ → String) → ℕ → Option ℕ → Observed → List TimelineEvent
incident_timeline int_text usd_text run_id incident_id rows =
    merged (collected int_text usd_text run_id incident_id rows)
