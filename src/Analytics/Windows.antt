-- ===== src/Analytics/Windows.antt =====
-- src/revenue_sentinel/analytics/windows.py: days of silence and growth of usage.
--
-- An instant is a whole number of microseconds of the calendar, always with its zone. A growth is a whole
-- number of ten-thousandths with its sign. The 28 digits of the decimal context round a quotient of
-- counts below 2 ^ 31 to ten-thousandths as the exact fraction would be.
use revenue_sentinel.Base.{
  ℕ, suc, zero, ◌-◌, ◌*◌, ◌/◌, leb, ltb, ◌==◌, ◌||◌, ◌≡◌, refl, Option, none, some, Result, ok, err,
  ◌>>◌, raise_if, if◌then◌else◌,
}
use revenue_sentinel.Base.Int.{ℤ, pos, negsuc, is_negative, pos_part}
use revenue_sentinel.Base.Rounding.{round_half_even}
use revenue_sentinel.Analytics.Bands.{
  CalculationError, touch_after_evaluation, negative_count, zero_baseline,
}

abbrev pub microseconds_per_day : ℕ
microseconds_per_day = 86400000000

-- `delta.days` is negative exactly if the touch is later than the evaluation.
unfoldable pub days_since_last_sales_touch : Option ℕ → ℕ → Result CalculationError (Option ℕ)
days_since_last_sales_touch none evaluated_at = ok none
days_since_last_sales_touch (some touch) evaluated_at =
    if ltb evaluated_at touch
    then err touch_after_evaluation
    else ok (some ((evaluated_at - touch) / microseconds_per_day))

-- `GROWTH_PRECISION`: units in one.
abbrev pub growth_units : ℕ
growth_units = 10000

abbrev pub negated : ℕ → ℤ
negated zero = pos 0
negated (suc n) = negsuc n

-- `((later - earlier) / earlier).quantize(GROWTH_PRECISION)`.
unfoldable pub growth_ratio : ℕ → ℕ → ℤ
growth_ratio earlier later =
    if leb earlier later
    then pos (round_half_even ((later - earlier) * growth_units) earlier)
    else negated (round_half_even ((earlier - later) * growth_units) earlier)

unfoldable pub week_over_week_growth : ℤ → ℤ → Result CalculationError ℤ
week_over_week_growth earlier later =
    raise_if (is_negative earlier || is_negative later) negative_count
    >> (raise_if (pos_part earlier == 0) zero_baseline
        >> ok (growth_ratio (pos_part earlier) (pos_part later)))

growth_test : week_over_week_growth (pos 1250) (pos 1750) ≡ ok (pos 4000)
unfolding week_over_week_growth growth_ratio round_half_even
growth_test = refl

-- A growth just short of 40 % is reported as 40 %.
rounded_growth_test : week_over_week_growth (pos 20000) (pos 27999) ≡ ok (pos 4000)
unfolding week_over_week_growth growth_ratio round_half_even
rounded_growth_test = refl
