-- ===== src/Governance/Tiers/Permits.antt =====
-- Which actions the classification of src/revenue_sentinel/governance/tiers.py permits.
use text.Mathlib.TextEquality.{eq_iff}
use revenue_sentinel.Base.{
  ◌≡◌, ◌≢◌, refl, ◌↔◌, List, [], ◌∷◌, true, false, ◌||◌, String, arith, All, none, some, Option,
}
use revenue_sentinel.Domain.{prohibited, customer_facing_or_material, allow, ProposedAction}
use revenue_sentinel.Governance.Tiers.{
  classify, classify_resolved, classify_field, classify_field_update, parse_proposed,
  proposed_value, member, material_opportunity_fields, non_material_opportunity_fields,
}
use revenue_sentinel.Governance.Tiers.Worst.{worst_tier, classify_field_update-worst_tier}
use revenue_sentinel.Governance.Rules.{decide}

-- A field that one of the two lists names.
abbrev pub IsListed : String → Type 0
IsListed name =
    (member name material_opportunity_fields || member name non_material_opportunity_fields) ≡ true

-- A field that only the list of harmless fields names.
abbrev pub IsHarmless : String → Type 0
IsHarmless name =
    (member name material_opportunity_fields ≡ false)
    × (member name non_material_opportunity_fields ≡ true)

worst-IsListed : (names : List String) → worst_tier names ≢ prohibited → All IsListed names
unfolding worst_tier classify_field
worst-IsListed [] h = tt
worst-IsListed (name ∷ names) h = ground (arith, worst-IsListed names)

IsListed-worst : (names : List String) → All IsListed names → worst_tier names ≢ prohibited
unfolding worst_tier classify_field
IsListed-worst [] h = λ e. cc
IsListed-worst (name ∷ names) h = ground (arith, IsListed-worst names h.1)

worst-IsHarmless : (names : List String) → decide (worst_tier names) ≡ allow → All IsHarmless names
unfolding worst_tier classify_field decide
worst-IsHarmless [] h = tt
worst-IsHarmless (name ∷ names) h = ground (arith, worst-IsHarmless names)

IsHarmless-worst : (names : List String) → All IsHarmless names → decide (worst_tier names) ≡ allow
unfolding worst_tier classify_field decide
IsHarmless-worst [] h = refl
IsHarmless-worst (name ∷ names) h = ground (arith, IsHarmless-worst names h.1)

update-permits :
    (names : List String)
    → names ≢ []
    → ((classify_field_update names).0 ≢ prohibited) ↔ All IsListed names
update-permits [] h = absurd (h refl)
update-permits (name ∷ names) h =
    rw classify_field_update-worst_tier
      (worst-IsListed (name ∷ names), IsListed-worst (name ∷ names))

update-allows :
    (names : List String)
    → names ≢ []
    → (decide (classify_field_update names).0 ≡ allow) ↔ All IsHarmless names
update-allows [] h = absurd (h refl)
update-allows (name ∷ names) h =
    rw classify_field_update-worst_tier
      (worst-IsHarmless (name ∷ names), IsHarmless-worst (name ∷ names))

update_of_nothing : (classify_field_update []).0 ≡ prohibited
unfolding classify_field_update
update_of_nothing = refl

-- An update that names a field, each of them listed.
abbrev pub IsListedUpdate : List String → Type 0
IsListedUpdate fields = (fields ≢ []) × All IsListed fields

abbrev pub IsHarmlessUpdate : List String → Type 0
IsHarmlessUpdate fields = (fields ≢ []) × All IsHarmless fields

update_not_denied :
    (fields : List String) → ((classify_field_update fields).0 ≢ prohibited) ↔ IsListedUpdate fields
update_not_denied [] = (λ h. absurd (h update_of_nothing), λ g. absurd (g.0 refl))
update_not_denied (name ∷ names) =
    let iff = update-permits (name ∷ names) (λ e. cc) in (λ h. (λ e. cc, iff.0 h), λ g. iff.1 g.1)

update_allowed :
    (fields : List String)
    → (decide (classify_field_update fields).0 ≡ allow) ↔ IsHarmlessUpdate fields
unfolding decide
update_allowed [] = (λ h. cc (h, update_of_nothing), λ g. absurd (g.0 refl))
update_allowed (name ∷ names) =
    let iff = update-allows (name ∷ names) (λ e. cc) in (λ h. (λ e. cc, iff.0 h), λ g. iff.1 g.1)

pub parse-proposed_value : (a : ProposedAction) → parse_proposed (proposed_value a) ≡ some a
unfolding parse_proposed
parse-proposed_value ProposedAction.crm_task = refl
parse-proposed_value ProposedAction.email_draft = refl
parse-proposed_value ProposedAction.crm_field_update = refl
parse-proposed_value ProposedAction.slack_approval_request = refl
parse-proposed_value ProposedAction.send_email_direct = refl
parse-proposed_value ProposedAction.record_delete = refl

parse_proposed-value :
    (s : String) (a : ProposedAction) → parse_proposed s ≡ some a → s ≡ proposed_value a
unfolding parse_proposed
parse_proposed-value s a h = ground (
  arith,
  eq_iff s "crm_task",
  eq_iff s "email_draft",
  eq_iff s "crm_field_update",
  eq_iff s "slack_approval_request",
  eq_iff s "send_email_direct",
  eq_iff s "record_delete",
)

-- The actions that are not denied: three of them, and an update whose fields are all listed.
pub data IsPermitted (fields : List String) : String → Type 0 where
  a_task : IsPermitted fields "crm_task"
  a_notice : IsPermitted fields "slack_approval_request"
  a_draft : IsPermitted fields "email_draft"
  an_update : IsListedUpdate fields → IsPermitted fields "crm_field_update"

-- Those that need no person.
pub data IsAutomatic (fields : List String) : String → Type 0 where
  a_task : IsAutomatic fields "crm_task"
  a_notice : IsAutomatic fields "slack_approval_request"
  an_update : IsHarmlessUpdate fields → IsAutomatic fields "crm_field_update"

denied_unknown : (fields : List String) → (classify_resolved none fields).0 ≡ prohibited
unfolding classify_resolved
denied_unknown fields = refl

unknown-ne-allow : (fields : List String) → ¬ (decide (classify_resolved none fields).0 ≡ allow)
unfolding classify_resolved decide
unknown-ne-allow fields h = cc

deny-ne-allow : ¬ (decide prohibited ≡ allow)
unfolding decide
deny-ne-allow h = cc

require-ne-allow : ¬ (decide customer_facing_or_material ≡ allow)
unfolding decide
require-ne-allow h = cc

resolved-IsPermitted :
    (a : ProposedAction) (fields : List String)
    → (classify_resolved (some a) fields).0 ≢ prohibited
    → IsPermitted fields (proposed_value a)
unfolding classify_resolved
resolved-IsPermitted ProposedAction.crm_task fields h = IsPermitted.a_task
resolved-IsPermitted ProposedAction.email_draft fields h = IsPermitted.a_draft
resolved-IsPermitted ProposedAction.crm_field_update fields h =
    IsPermitted.an_update ((update_not_denied fields).0 h)
resolved-IsPermitted ProposedAction.slack_approval_request fields h = IsPermitted.a_notice
resolved-IsPermitted ProposedAction.send_email_direct fields h = absurd (h refl)
resolved-IsPermitted ProposedAction.record_delete fields h = absurd (h refl)

resolved-IsAutomatic :
    (a : ProposedAction) (fields : List String)
    → decide (classify_resolved (some a) fields).0 ≡ allow
    → IsAutomatic fields (proposed_value a)
unfolding classify_resolved
resolved-IsAutomatic ProposedAction.crm_task fields h = IsAutomatic.a_task
resolved-IsAutomatic ProposedAction.email_draft fields h = absurd (require-ne-allow h)
resolved-IsAutomatic ProposedAction.crm_field_update fields h =
    IsAutomatic.an_update ((update_allowed fields).0 h)
resolved-IsAutomatic ProposedAction.slack_approval_request fields h = IsAutomatic.a_notice
resolved-IsAutomatic ProposedAction.send_email_direct fields h = absurd (deny-ne-allow h)
resolved-IsAutomatic ProposedAction.record_delete fields h = absurd (deny-ne-allow h)

module _ (action : String) (fields : List String) where
  classify_lem : classify action fields ≡ classify_resolved (parse_proposed action) fields
  unfolding classify
  classify_lem = refl

  IsPermitted-of :
      (parsed : Option ProposedAction)
      → parse_proposed action ≡ parsed
      → (classify_resolved parsed fields).0 ≢ prohibited
      → IsPermitted fields action
  IsPermitted-of none e h = absurd (h (denied_unknown fields))
  IsPermitted-of (some a) e h =
      rw (parse_proposed-value action a e) (resolved-IsPermitted a fields h)

  IsAutomatic-of :
      (parsed : Option ProposedAction)
      → parse_proposed action ≡ parsed
      → decide (classify_resolved parsed fields).0 ≡ allow
      → IsAutomatic fields action
  IsAutomatic-of none e h = absurd (unknown-ne-allow fields h)
  IsAutomatic-of (some a) e h =
      rw (parse_proposed-value action a e) (resolved-IsAutomatic a fields h)

of_permitted :
    {action : String} (fields : List String)
    → IsPermitted fields action
    → (classify action fields).0 ≢ prohibited
unfolding classify
of_permitted fields IsPermitted.a_task = λ e. cc
of_permitted fields IsPermitted.a_notice = λ e. cc
of_permitted fields IsPermitted.a_draft = λ e. cc
of_permitted fields (IsPermitted.an_update g) = (update_not_denied fields).1 g

of_automatic :
    {action : String} (fields : List String)
    → IsAutomatic fields action
    → decide (classify action fields).0 ≡ allow
unfolding classify decide
of_automatic fields IsAutomatic.a_task = refl
of_automatic fields IsAutomatic.a_notice = refl
of_automatic fields (IsAutomatic.an_update g) = (update_allowed fields).1 g

-- Default-deny. Whatever text names the action and whatever fields it names, `classify` gives a
-- tier below 3 exactly to a task, a Slack notice, an email draft, and a field update that names at
-- least one field and only fields of the two lists.
pub classify-IsPermitted :
    (action : String) (fields : List String)
    → ((classify action fields).0 ≢ prohibited) ↔ IsPermitted fields action
classify-IsPermitted action fields = (
  λ h. IsPermitted-of action fields (parse_proposed action) refl (rw classify_lem at h),
  of_permitted fields,
)

-- No person is asked exactly for a task, a Slack notice, and a field update that names at least
-- one field and only fields that are on the harmless list and not on the material one.
pub classify-IsAutomatic :
    (action : String) (fields : List String)
    → (decide (classify action fields).0 ≡ allow) ↔ IsAutomatic fields action
classify-IsAutomatic action fields = (
  λ h. IsAutomatic-of action fields (parse_proposed action) refl (rw classify_lem at h),
  of_automatic fields,
)
