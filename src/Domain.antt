-- ===== src/Domain.antt =====
-- src/revenue_sentinel/domain/enums.py: the closed vocabularies, a constructor for each member.
pub mod Gtm
use revenue_sentinel.Base.{ℕ, Bool, true, false, leb, if◌then◌else◌, String}

pub data RiskTier : Type 0 where
  read_or_compute internal_reversible customer_facing_or_material prohibited : RiskTier

-- `RiskTier` is an `IntEnum`: its members are ordered by these values.
abbrev pub tier_value : RiskTier → ℕ
tier_value read_or_compute = 0
tier_value internal_reversible = 1
tier_value customer_facing_or_material = 2
tier_value prohibited = 3

-- Python's `max` of two tiers: the first of equal ones.
abbrev pub max_tier : RiskTier → RiskTier → RiskTier
max_tier a b = if leb (tier_value b) (tier_value a) then a else b

pub data PolicyDecision : Type 0 where
  allow require_approval deny : PolicyDecision

pub data ApprovalStatus : Type 0 where
  pending approved rejected expired : ApprovalStatus

pub data ActionType : Type 0 where
  crm_task email_draft crm_field_update slack_approval_request : ActionType

pub data ProposedAction : Type 0 where
  crm_task email_draft crm_field_update slack_approval_request send_email_direct record_delete :
      ProposedAction

pub data ActionStatus : Type 0 where
  pending executing succeeded failed skipped indeterminate : ActionStatus

pub data IncidentStatus : Type 0 where
  detected triaged investigating analyzed strategized awaiting_approval executing completed
        closed_rejected expired dismissed failed :
      IncidentStatus

pub data WorkflowStatus : Type 0 where
  running interrupted completed failed : WorkflowStatus

pub data ToolCallStatus : Type 0 where
  success error denied : ToolCallStatus

pub data Severity : Type 0 where
  low medium high critical : Severity

pub data OpportunityStage : Type 0 where
  discovery proposal negotiation closed_won closed_lost : OpportunityStage

-- `stage in OPEN_STAGES`.
abbrev pub is_open : OpportunityStage → Bool
is_open discovery = true
is_open proposal = true
is_open negotiation = true
is_open _ = false

pub data BudgetScope : Type 0 where
  global incident run : BudgetScope

pub data ActivityType : Type 0 where
  email call meeting note : ActivityType

-- `activity_type in SALES_TOUCH_TYPES`.
abbrev pub is_sales_touch : ActivityType → Bool
is_sales_touch note = false
is_sales_touch _ = true

pub data SourceSystem : Type 0 where
  crm product engagement support enrichment : SourceSystem

pub data EventType : Type 0 where
  crm_opportunity_updated crm_activity_logged product_usage_rollup engagement_email_activity
        engagement_meeting_held support_issue_opened crm_opportunity_stage_changed
        crm_record_quality_flagged enrichment_provider_usage_reported campaign_performance_rollup :
      EventType

-- `event_type in EMITTED_EVENT_TYPES`.
abbrev pub is_emitted : EventType → Bool
is_emitted crm_opportunity_updated = true
is_emitted crm_activity_logged = true
is_emitted product_usage_rollup = true
is_emitted engagement_email_activity = true
is_emitted engagement_meeting_held = true
is_emitted support_issue_opened = true
is_emitted _ = false

pub data SignalType : Type 0 where
  stalled_opportunity renewal_risk deal_slippage pqa_discovery account_expansion crm_data_quality
        enrichment_cost_anomaly campaign_underperformance :
      SignalType

-- `SignalType.value`.
abbrev pub signal_value : SignalType → String
signal_value stalled_opportunity = "stalled_opportunity"
signal_value renewal_risk = "renewal_risk"
signal_value deal_slippage = "deal_slippage"
signal_value pqa_discovery = "pqa_discovery"
signal_value account_expansion = "account_expansion"
signal_value crm_data_quality = "crm_data_quality"
signal_value enrichment_cost_anomaly = "enrichment_cost_anomaly"
signal_value campaign_underperformance = "campaign_underperformance"

-- `EventType.value`.
abbrev pub event_value : EventType → String
event_value crm_opportunity_updated = "crm.opportunity.updated"
event_value crm_activity_logged = "crm.activity.logged"
event_value product_usage_rollup = "product.usage.rollup"
event_value engagement_email_activity = "engagement.email.activity"
event_value engagement_meeting_held = "engagement.meeting.held"
event_value support_issue_opened = "support.issue.opened"
event_value crm_opportunity_stage_changed = "crm.opportunity.stage_changed"
event_value crm_record_quality_flagged = "crm.record.quality_flagged"
event_value enrichment_provider_usage_reported = "enrichment.provider.usage_reported"
event_value campaign_performance_rollup = "campaign.performance.rollup"

-- `SourceSystem.value`.
abbrev pub source_value : SourceSystem → String
source_value crm = "crm"
source_value product = "product"
source_value engagement = "engagement"
source_value support = "support"
source_value enrichment = "enrichment"
