-- ===== src/Tests/LpRuns.antt =====
-- Liquidity arithmetic at concrete ticks.
use nvda_tranched_arc.Prelude.{◌≡◌, refl}
use nvda_tranched_arc.Number.{◌/◌, ◌≤◌, num}
use nvda_tranched_arc.Number.Rational.{ℚ, rational}
use nvda_tranched_arc.Number.RationalLaws.{exact, ordered}
use nvda_tranched_arc.Lp.{
  position_value_usd, token_amounts, liquidity_for_value, amounts_for_l, amounts_in_range,
  sqrt_at_tick,
}
use nvda_tranched_arc.Lp.Amounts.{BothNonneg, token_amounts_nonneg}
use nvda_tranched_arc.Lp.Value.{position_value_usd-liquidity_for_value}
use nvda_tranched_arc.Tests.Samples.{rational_math, positive}

token_amounts_nonneg_example :
    BothNonneg (token_amounts {R = ℚ} (num 3) (num 13 / num 10) (num 0) (num 6_000))
    × (num 0 ≤ position_value_usd {R = ℚ} (num 3) (num 13 / num 10) (num 0) (num 6_000))
token_amounts_nonneg_example =
    token_amounts_nonneg ordered positive (num 3) (num 13 / num 10) (num 0) (num 6_000) refl

position_value_usd-liquidity_for_value_example :
    position_value_usd {R = ℚ}
      (liquidity_for_value (num 250) (num 13 / num 10) (num 0) (num 6_000))
      (num 13 / num 10)
      (num 0)
      (num 6_000)
    ≡ num 250
unfolding position_value_usd amounts_for_l amounts_in_range sqrt_at_tick
position_value_usd-liquidity_for_value_example =
    position_value_usd-liquidity_for_value exact (num 250) (num 13 / num 10) (num 0) (num 6_000)
      refl refl
