-- ===== src/Cost/Pricing/Worst.antt =====
-- The reservation of src/revenue_sentinel/cost/pricing.py against what a call can cost.
use text.Mathlib.TextEquality.{eq_iff}
use revenue_sentinel.Base.{ℕ, ◌+◌, ◌*◌, ◌≤◌, ◌<◌, String, ok, ◌≡◌, arith, refl}
use revenue_sentinel.Base.Int.{pos}
use revenue_sentinel.Base.Rounding.{round_half_even, round_half_even_mono, round_half_even_near}
use revenue_sentinel.Cost.Pricing.{
  ModelPrice, Usage, price_for, cost_of, exact_cost, worst_case_cost,
}

abbrev pub usage_of : ℕ → ℕ → ℕ → ℕ → Usage
usage_of input output cache_read cache_write = record {
  input_tokens = pos input;
  output_tokens = pos output;
  cache_read_tokens = pos cache_read;
  cache_write_tokens = pos cache_write;
}

-- A published price: the default multipliers, and a dollar for a million tokens at least.
abbrev IsPublished : ModelPrice → Type 0
IsPublished price =
    (price.cache_read_multiplier ≡ 10) × (price.cache_write_multiplier ≡ 125) × (100 ≤ price.input)

price_for-IsPublished :
    (model_id : String) (price : ModelPrice) → price_for model_id ≡ ok price → IsPublished price
unfolding price_for
price_for-IsPublished model_id price h = ground (
  arith,
  eq_iff model_id "claude-opus-5",
  eq_iff model_id "claude-sonnet-5",
  eq_iff model_id "claude-haiku-4-5",
)

cost_of-priced :
    (model_id : String) (price : ModelPrice) (i o r w : ℕ)
    → price_for model_id ≡ ok price
    → cost_of model_id (usage_of i o r w) ≡ ok (round_half_even (exact_cost price i o r w) 10000)
unfolding cost_of
cost_of-priced model_id price i o r w h = rw h refl

mul_mono : (a b c : ℕ) → a ≤ b → a * c ≤ b * c
mul_mono a b c h = grind arith

exact_le :
    (p q i o r w j k : ℕ)
    → i * 100 + r * 10 + w * 125 ≤ j * 100
    → o ≤ k
    → i * p * 100 + o * q * 100 + r * p * 10 + w * p * 125
      ≤ j * p * 100 + k * q * 100 + 0 * p * 10 + 0 * p * 125
exact_le p q i o r w j k hi ho =
    grind (arith, mul_mono (i * 100 + r * 10 + w * 125) (j * 100) p hi, mul_mono o k q ho)

exact_cost_le :
    (price : ModelPrice) (i o r w j k : ℕ)
    → IsPublished price
    → i * 100 + r * 10 + w * 125 ≤ j * 100
    → o ≤ k
    → exact_cost price i o r w ≤ exact_cost price j k 0 0
unfolding exact_cost
exact_cost_le price i o r w j k published hi ho =
    rw published.0 (rw published.1 (exact_le price.input price.output i o r w j k hi ho))

exact_lt :
    (p q n k : ℕ)
    → 5 ≤ n
    → 100 ≤ p
    → n * p * 100 + k * q * 100 + 0 * p * 10 + 0 * p * 125 + 10000
      < 0 * p * 100 + k * q * 100 + 0 * p * 10 + n * p * 125
exact_lt p q n k hn hp = grind (arith, mul_mono 5 n p hn)

exact_cost_lt :
    (price : ModelPrice) (n k : ℕ)
    → IsPublished price
    → 5 ≤ n
    → exact_cost price n k 0 0 + 10000 < exact_cost price 0 k 0 n
unfolding exact_cost
exact_cost_lt price n k published h =
    rw published.0 (rw published.1 (exact_lt price.input price.output n k h published.2))

rounded_lt : (x y : ℕ) → x + 10000 < y → round_half_even x 10000 < round_half_even y 10000
rounded_lt x y h =
    omega (
      arith,
      round_half_even_near x 10000 (omega arith),
      round_half_even_near y 10000 (omega arith),
    )

-- A call that stays within its reservation: tokens read from the cache count for a tenth, and those
-- written to it for one and a quarter.
pub cost_of-covered :
    (model_id : String) (price : ModelPrice) (i o r w j k : ℕ)
    → price_for model_id ≡ ok price
    → i * 100 + r * 10 + w * 125 ≤ j * 100
    → o ≤ k
    → (actual : ℕ) × (reserved : ℕ) × (cost_of model_id (usage_of i o r w) ≡ ok actual)
      × (worst_case_cost model_id (pos j) (pos k) ≡ ok reserved)
      × (actual ≤ reserved)
unfolding worst_case_cost
cost_of-covered model_id price i o r w j k known hi ho = (
  round_half_even (exact_cost price i o r w) 10000,
  round_half_even (exact_cost price j k 0 0) 10000,
  cost_of-priced model_id price i o r w known,
  cost_of-priced model_id price j k 0 0 known,
  round_half_even_mono (exact_cost price i o r w) (exact_cost price j k 0 0)
      (exact_cost_le price i o r w j k (price_for-IsPublished model_id price known) hi ho),
)

-- Tokens written to the cache cost more than the reservation for as many input tokens.
pub cache_write-exceeds :
    (model_id : String) (price : ModelPrice) (n k : ℕ)
    → price_for model_id ≡ ok price
    → 5 ≤ n
    → (actual : ℕ) × (reserved : ℕ) × (cost_of model_id (usage_of 0 k 0 n) ≡ ok actual)
      × (worst_case_cost model_id (pos n) (pos k) ≡ ok reserved)
      × (reserved < actual)
unfolding worst_case_cost
cache_write-exceeds model_id price n k known h = (
  round_half_even (exact_cost price 0 k 0 n) 10000,
  round_half_even (exact_cost price n k 0 0) 10000,
  cost_of-priced model_id price 0 k 0 n known,
  cost_of-priced model_id price n k 0 0 known,
  rounded_lt (exact_cost price n k 0 0) (exact_cost price 0 k 0 n)
      (exact_cost_lt price n k (price_for-IsPublished model_id price known) h),
)
