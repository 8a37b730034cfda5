-- ===== src/Governance/Tiers/Worst.antt =====
-- The tier of a field update of src/revenue_sentinel/governance/tiers.py, from those of its fields.
use revenue_sentinel.Base.{
  ◌≡◌, refl, ap, ◌∙◌, List, [], ◌∷◌, ◌++◌, String, arith, Bool-cases, inl, inr,
}
use revenue_sentinel.Domain.{
  RiskTier, read_or_compute, internal_reversible, prohibited, customer_facing_or_material, max_tier,
}
use revenue_sentinel.Governance.Tiers.{
  classify_field, classify_loop, classify_field_update, insert, sorted, precedes,
}

-- The highest tier of the fields, 0 for none.
unfoldable pub worst_tier : List String → RiskTier
worst_tier [] = read_or_compute
worst_tier (name ∷ names) = max_tier (classify_field name).0 (worst_tier names)

pub max_tier_assoc : (a b c : RiskTier) → max_tier (max_tier a b) c ≡ max_tier a (max_tier b c)
max_tier_assoc a b c = ground arith

pub max_tier_comm : (a b : RiskTier) → max_tier a b ≡ max_tier b a
max_tier_comm a b = ground arith

max_tier_swap : (a b c : RiskTier) → max_tier a (max_tier b c) ≡ max_tier b (max_tier a c)
max_tier_swap a b c = ground arith

max_tier_least : (a : RiskTier) → max_tier read_or_compute a ≡ a
max_tier_least a = ground arith

loop-worst_tier :
    (names : List String) (tier : RiskTier) (matched : List String)
    → (classify_loop names tier matched).0 ≡ max_tier tier (worst_tier names)
unfolding classify_loop worst_tier
loop-worst_tier [] tier matched = elim tier as (λ t. (t ≡ max_tier t read_or_compute)) [
  | read_or_compute ↦ refl
  | internal_reversible ↦ refl
  | customer_facing_or_material ↦ refl
  | prohibited ↦ refl
]
loop-worst_tier (name ∷ names) tier matched =
    loop-worst_tier names (max_tier tier (classify_field name).0)
      (matched ++ (classify_field name).1 ∷ [])
    ∙ max_tier_assoc tier (classify_field name).0 (worst_tier names)

worst_tier-insert :
    (name : String) (names : List String)
    → worst_tier (insert name names) ≡ max_tier (classify_field name).0 (worst_tier names)
unfolding insert worst_tier
worst_tier-insert name [] = refl
worst_tier-insert name (n ∷ ns) = elim (Bool-cases (precedes name n)) [
  | inl first ↦ rw first
  | inr later ↦ rw later (
      rw (worst_tier-insert name ns)
        (max_tier_swap (classify_field n).0 (classify_field name).0 (worst_tier ns)))
]

worst_tier-sorted : (names : List String) → worst_tier (sorted names) ≡ worst_tier names
unfolding sorted worst_tier
worst_tier-sorted [] = refl
worst_tier-sorted (name ∷ names) =
    worst_tier-insert name (sorted names)
    ∙ ap (max_tier (classify_field name).0) (worst_tier-sorted names)

-- The tier of an update of at least one field is the highest tier of its fields.
pub classify_field_update-worst_tier :
    (name : String) (names : List String)
    → (classify_field_update (name ∷ names)).0 ≡ worst_tier (name ∷ names)
unfolding classify_field_update
classify_field_update-worst_tier name names =
    loop-worst_tier (sorted (name ∷ names)) read_or_compute []
    ∙ max_tier_least (worst_tier (sorted (name ∷ names)))
    ∙ worst_tier-sorted (name ∷ names)
