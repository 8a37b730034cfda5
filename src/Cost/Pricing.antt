-- ===== src/Cost/Pricing.antt =====
-- src/revenue_sentinel/cost/pricing.py: the price of a model call. Prices are in cents for a million
-- tokens and multipliers in hundredths, so that the exact total is a whole number of ten-thousandths
-- of a microdollar, which `quantize(MICRODOLLAR)` rounds.
pub mod Worst
use revenue_sentinel.Base.{
  ℕ, ◌+◌, ◌*◌, Bool, true, false, String, str_eq, Result, ok, err, ◌>>=◌, ◌>>◌, raise_if,
  if◌then◌else◌,
}
use revenue_sentinel.Base.Int.{ℤ, pos, is_negative, pos_part}
use revenue_sentinel.Base.Rounding.{round_half_even}

pub record ModelPrice : Type 0 where
  pub input : ℕ
  pub output : ℕ
  pub cache_read_multiplier : ℕ
  pub cache_write_multiplier : ℕ

-- A `ModelPrice` with the default multipliers, 0.1 and 1.25.
abbrev model_price : ℕ → ℕ → ModelPrice
model_price input output = record {
  input = input;
  output = output;
  cache_read_multiplier = 10;
  cache_write_multiplier = 125;
}

-- `CalculationError`, and its subclass `UnknownModelError`.
pub data PricingError : Type 0 where
  negative_tokens : String → ℤ → PricingError
  unknown_model : String → PricingError

-- `PRICE_TABLE.get` and the refusal of a model that is not in it.
unfoldable pub price_for : String → Result PricingError ModelPrice
price_for model_id =
    if str_eq model_id "claude-opus-5"
    then ok (model_price 500 2500)
    else if str_eq model_id "claude-sonnet-5"
    then ok (model_price 300 1500)
    else if str_eq model_id "claude-haiku-4-5"
    then ok (model_price 100 500)
    else err (unknown_model model_id)

-- The four counts of a call.
pub record Usage : Type 0 where
  pub input_tokens : ℤ
  pub output_tokens : ℤ
  pub cache_read_tokens : ℤ
  pub cache_write_tokens : ℤ

-- One round of the loop that checks the counts.
abbrev pub check_count : String → ℤ → Result PricingError (Unit {0})
check_count name value = raise_if (is_negative value) (negative_tokens name value)

abbrev pub check_counts : Usage → Result PricingError (Unit {0})
check_counts usage =
    check_count "input" usage.input_tokens
    >> (check_count "output" usage.output_tokens
        >> (check_count "cache_read" usage.cache_read_tokens
            >> check_count "cache_write" usage.cache_write_tokens))

-- The exact total of the four products, in ten-thousandths of a microdollar.
unfoldable pub exact_cost : ModelPrice → ℕ → ℕ → ℕ → ℕ → ℕ
exact_cost price input output cache_read cache_write =
    input * price.input * 100
    + output * price.output * 100
    + cache_read * price.input * price.cache_read_multiplier
    + cache_write * price.input * price.cache_write_multiplier

unfoldable pub cost_of : String → Usage → Result PricingError ℕ
cost_of model_id usage =
    check_counts usage
    >> (price_for model_id >>= λ price. ok (
        round_half_even
          (exact_cost price (pos_part usage.input_tokens) (pos_part usage.output_tokens)
            (pos_part usage.cache_read_tokens) (pos_part usage.cache_write_tokens))
          10000))

-- `cost_of` with the cache counts at their default, 0.
unfoldable pub worst_case_cost : String → ℤ → ℤ → Result PricingError ℕ
worst_case_cost model_id input_tokens max_output_tokens = cost_of model_id (record {
  input_tokens = input_tokens;
  output_tokens = max_output_tokens;
  cache_read_tokens = pos 0;
  cache_write_tokens = pos 0;
})
