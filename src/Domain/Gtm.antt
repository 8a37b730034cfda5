-- ===== src/Domain/Gtm.antt =====
-- src/revenue_sentinel/domain/gtm.py: the mirror of the sales, product, engagement and support records.
--
-- The fields that the program reads. Amounts are units of 10^-6 dollars and probabilities
-- ten-thousandths, as in the impact calculation; `Money` and `Probability` are never negative.
-- An instant is a whole number of microseconds and a date a whole number of days of the calendar.
use revenue_sentinel.Base.{ℕ, String, Option, List}
use revenue_sentinel.Domain.{OpportunityStage, ActivityType}

pub record Account : Type 0 where
  pub id : ℕ
  pub account_ref : String

pub record Opportunity : Type 0 where
  pub id : ℕ
  pub opportunity_ref : String
  pub account_id : ℕ
  pub name : String
  pub stage : OpportunityStage
  pub amount : ℕ
  pub currency : String
  pub expected_close_date : ℕ
  pub probability : ℕ
  pub owner_id : String
  pub updated_at : ℕ

pub data ActivityDirection : Type 0 where
  inbound outbound internal : ActivityDirection

pub record Activity : Type 0 where
  pub id : ℕ
  pub account_id : ℕ
  pub opportunity_id : Option ℕ
  pub activity_type : ActivityType
  pub direction : ActivityDirection
  pub occurred_at : ℕ
  pub subject : String
  pub body : String

pub record UsageSnapshot : Type 0 where
  pub account_id : ℕ
  pub period_start : ℕ
  pub period_end : ℕ
  pub active_users : ℕ
  pub sessions : ℕ
  pub feature_events : ℕ
  pub usage_score : ℕ

pub data EngagementChannel : Type 0 where
  email calendar web : EngagementChannel

pub data EngagementEventType : Type 0 where
  sent opened clicked meeting_held : EngagementEventType

pub record EngagementEvent : Type 0 where
  pub id : ℕ
  pub account_id : ℕ
  pub channel : EngagementChannel
  pub event_type : EngagementEventType
  pub occurred_at : ℕ

pub data SupportSeverity : Type 0 where
  p1 p2 p3 p4 : SupportSeverity

pub data SupportStatus : Type 0 where
  «open» pending resolved closed : SupportStatus

pub record SupportIssue : Type 0 where
  pub account_id : ℕ
  pub external_ref : String
  pub severity : SupportSeverity
  pub status : SupportStatus
  pub opened_at : ℕ
  pub summary : String

-- The tables of the mirror.
pub record Mirror : Type 0 where
  pub accounts : List Account
  pub opportunities : List Opportunity
  pub activities : List Activity
  pub usage_snapshots : List UsageSnapshot
  pub engagement_events : List EngagementEvent
  pub support_issues : List SupportIssue
