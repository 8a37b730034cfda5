-- ===== src/Governance/Tiers.antt =====
-- src/revenue_sentinel/governance/tiers.py: which tier an action falls into.
pub mod Worst
pub mod Permits
use Prim.Native.String.{compare}
use Prim.Native.Nat.{Ordering}
use revenue_sentinel.Base.{
  Bool, true, false, String, str_eq, List, [], ◌∷◌, ◌++◌, Option, none, some, any, if◌then◌else◌,
}
use revenue_sentinel.Domain.{
  RiskTier, read_or_compute, internal_reversible, customer_facing_or_material, prohibited, max_tier,
  ProposedAction,
}

abbrev pub policy_version : String
policy_version = "policy/v1"

abbrev pub material_opportunity_fields : List String
material_opportunity_fields =
    "amount" ∷ "stage" ∷ "probability" ∷ "expected_close_date" ∷ "owner_id" ∷ []

abbrev pub non_material_opportunity_fields : List String
non_material_opportunity_fields = "description" ∷ "next_step" ∷ []

abbrev pub rule_internal_reversible : String
rule_internal_reversible = "tier1:internal-reversible"

abbrev pub rule_customer_facing : String
rule_customer_facing = "tier2:customer-facing"

abbrev pub rule_material_crm_field : String
rule_material_crm_field = "tier2:material-crm-field"

abbrev pub rule_non_material_crm_field : String
rule_non_material_crm_field = "tier1:non-material-crm-field"

abbrev pub rule_prohibited_capability : String
rule_prohibited_capability = "tier3:prohibited-capability"

abbrev pub rule_unclassified_field : String
rule_unclassified_field = "tier3:unclassified-crm-field"

abbrev pub rule_default_deny : String
rule_default_deny = "tier3:default-deny"

-- `item in items`, for texts.
abbrev pub member : String → List String → Bool
member x = any (str_eq x)

-- `sorted(items)`, by insertion.
precedes : String → String → Bool
precedes a b = elim (compare a b) [ Ordering.gt ↦ false | _ ↦ true ]

pub insert : String → List String → List String
insert x [] = x ∷ []
insert x (y ∷ ys) = if precedes x y then x ∷ y ∷ ys else y ∷ insert x ys

unfoldable pub sorted : List String → List String
unfolding insert precedes
sorted [] = []
sorted (x ∷ xs) = insert x (sorted xs)

-- `tuple(dict.fromkeys(items))`: the first occurrence of each, in order.
dedupe_from : List String → List String → List String
dedupe_from seen [] = []
dedupe_from seen (x ∷ xs) =
    let kept = x ∷ dedupe_from (x ∷ seen) xs in
    let dropped = dedupe_from seen xs in if member x seen then dropped else kept

unfoldable pub dedupe : List String → List String
unfolding dedupe_from
dedupe = dedupe_from []

abbrev pub Classified : Type 0
Classified = RiskTier × List String

-- The branches of the loop of `_classify_field_update`: the tier and the rule of one field.
unfoldable pub classify_field : String → RiskTier × String
classify_field name =
    if member name material_opportunity_fields
    then (customer_facing_or_material, rule_material_crm_field)
    else if member name non_material_opportunity_fields
    then (internal_reversible, rule_non_material_crm_field)
    else (prohibited, rule_unclassified_field)

-- The loop itself, over the sorted fields, with its two variables.
pub classify_loop : List String → RiskTier → List String → Classified
classify_loop [] tier matched = (tier, matched)
classify_loop (name ∷ names) tier matched =
    classify_loop names (max_tier tier (classify_field name).0)
      (matched ++ (classify_field name).1 ∷ [])

unfoldable pub classify_field_update : List String → Classified
unfolding classify_loop classify_field dedupe sorted
classify_field_update [] = (prohibited, rule_unclassified_field ∷ [])
classify_field_update (name ∷ names) =
    let (tier, matched) = classify_loop (sorted (name ∷ names)) read_or_compute [] in
    (tier, dedupe matched)

-- `ProposedAction.value` and `ProposedAction(value)`.
abbrev pub proposed_value : ProposedAction → String
proposed_value ProposedAction.crm_task = "crm_task"
proposed_value ProposedAction.email_draft = "email_draft"
proposed_value ProposedAction.crm_field_update = "crm_field_update"
proposed_value ProposedAction.slack_approval_request = "slack_approval_request"
proposed_value ProposedAction.send_email_direct = "send_email_direct"
proposed_value ProposedAction.record_delete = "record_delete"

unfoldable pub parse_proposed : String → Option ProposedAction
parse_proposed s =
    if str_eq s "crm_task"
    then some ProposedAction.crm_task
    else if str_eq s "email_draft"
    then some ProposedAction.email_draft
    else if str_eq s "crm_field_update"
    then some ProposedAction.crm_field_update
    else if str_eq s "slack_approval_request"
    then some ProposedAction.slack_approval_request
    else if str_eq s "send_email_direct"
    then some ProposedAction.send_email_direct
    else if str_eq s "record_delete"
    then some ProposedAction.record_delete
    else none

-- `_TIER_BY_ACTION.get`: `crm_field_update` has no entry.
unfoldable pub tier_by_action : ProposedAction → Option Classified
tier_by_action ProposedAction.crm_task = some (internal_reversible, rule_internal_reversible ∷ [])
tier_by_action ProposedAction.slack_approval_request =
    some (internal_reversible, rule_internal_reversible ∷ [])
tier_by_action ProposedAction.email_draft =
    some (customer_facing_or_material, rule_customer_facing ∷ [])
tier_by_action ProposedAction.send_email_direct = some (prohibited, rule_prohibited_capability ∷ [])
tier_by_action ProposedAction.record_delete = some (prohibited, rule_prohibited_capability ∷ [])
tier_by_action ProposedAction.crm_field_update = none

default_deny : Option Classified → Classified
default_deny none = (prohibited, rule_default_deny ∷ [])
default_deny (some classified) = classified

unfoldable pub classify_resolved : Option ProposedAction → List String → Classified
unfolding tier_by_action classify_field_update default_deny
classify_resolved none fields = (prohibited, rule_default_deny ∷ [])
classify_resolved (some ProposedAction.crm_field_update) fields = classify_field_update fields
classify_resolved (some action) fields = default_deny (tier_by_action action)

unfoldable pub classify : String → List String → Classified
unfolding classify_resolved parse_proposed
classify action fields = classify_resolved (parse_proposed action) fields
