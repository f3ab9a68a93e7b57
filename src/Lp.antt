-- ===== src/Lp.antt =====
-- The concentrated-liquidity arithmetic of research/cadcad/allocator/lp.py. Ticks are numbers like
-- the prices; `math.sqrt`, `**`, `math.log`, `math.floor`, `round` and `int` are parameters.
pub mod Amounts
pub mod Value
use Prim.Native.Nat.{◌^◌}
use nvda_tranched_arc.Prelude.{not, ◌&&◌, ◌||◌, Option, none, some, if◌then◌else◌}
use nvda_tranched_arc.Number.{Number, ◌+◌, ◌-◌, ◌*◌, ◌/◌, ◌<?◌, ◌≤?◌, num, min, max}

pub record Math (R : Type 0) : Type 0 where
  pub sqrt : R → R
  pub pow : R → R → R
  pub log : R → R
  pub floor : R → R
  pub round : R → R
  pub trunc : R → R

module _ {R : Type 0} ⦃n : Number R⦄ where
  -- Human units of a token amount: 6 decimals for USDG (token 0) and 18 for NVDA (token 1).
  abbrev pub usdg_unit : R
  usdg_unit = num 1_000_000

  abbrev pub nvda_unit : R
  nvda_unit = num 1_000_000_000_000_000_000

  abbrev pub price_unit : R
  price_unit = num 1_000_000_000_000

  abbrev pub half : R
  half = num 1 / num 2

  -- 1.0001
  abbrev pub tick_base : R
  tick_base = num 10_001 / num 10_000

module _ {R : Type 0} ⦃n : Number R⦄ ⦃m : Math R⦄ where
  unfoldable pub js_round : R → R
  js_round x = m.floor (x + half)

  unfoldable pub sqrt_at_tick : R → R
  sqrt_at_tick tick = m.sqrt (m.pow tick_base tick)

  unfoldable pub price_from_tick : R → R
  price_from_tick tick = price_unit / m.pow tick_base tick

  -- `none` is the `ValueError` of a price that is not positive.
  unfoldable pub tick_from_price : R → Option R
  tick_from_price price =
      if num 0 <? price then some (m.round (m.log (price_unit / price) / m.log tick_base)) else none

  -- 1e12 / (raw price), of a sqrtPriceX96.
  unfoldable pub price_from_sqrt_x96 : R → R
  price_from_sqrt_x96 sqrt_price_x96 =
      let sqrt_p = sqrt_price_x96 / num (2 ^ 96) in num 1 / (sqrt_p * sqrt_p * (num 1 / price_unit))

  -- The raw amounts by where the price lies: below, above or inside the range.
  unfoldable pub amounts_in_range : (liquidity sqrt_p sqrt_a sqrt_b : R) → R × R
  amounts_in_range liquidity sqrt_p sqrt_a sqrt_b =
      if sqrt_p ≤? sqrt_a
      then (liquidity * (num 1 / sqrt_a - num 1 / sqrt_b), num 0)
      else if sqrt_b ≤? sqrt_p
      then (num 0, liquidity * (sqrt_b - sqrt_a))
      else (liquidity * (num 1 / sqrt_p - num 1 / sqrt_b), liquidity * (sqrt_p - sqrt_a))

  unfoldable pub amounts_for_l : (l_norm sqrt_p tick_lower tick_upper : R) → R × R
  unfolding amounts_in_range
  amounts_for_l l_norm sqrt_p tick_lower tick_upper =
      let sqrt_a = sqrt_at_tick tick_lower in
      let sqrt_b = sqrt_at_tick tick_upper in
      if not (num 0 <? l_norm) || not (num 0 <? sqrt_p) || (tick_upper ≤? tick_lower)
      then (num 0, num 0)
      else if not (sqrt_a <? sqrt_b)
      then (num 0, num 0)
      else amounts_in_range (l_norm * nvda_unit) sqrt_p sqrt_a sqrt_b

  unfoldable pub position_value_usd : (l_norm sqrt_p tick_lower tick_upper : R) → R
  position_value_usd l_norm sqrt_p tick_lower tick_upper =
      let (x, y) = amounts_for_l l_norm sqrt_p tick_lower tick_upper in
      (x + y / (sqrt_p * sqrt_p)) / usdg_unit

  unfoldable pub token_amounts : (l_norm sqrt_p tick_lower tick_upper : R) → R × R
  token_amounts l_norm sqrt_p tick_lower tick_upper =
      let (x, y) = amounts_for_l l_norm sqrt_p tick_lower tick_upper in
      (x / usdg_unit, y / nvda_unit)

  unfoldable pub liquidity_for_value : (value_usd sqrt_p tick_lower tick_upper : R) → R
  liquidity_for_value value_usd sqrt_p tick_lower tick_upper =
      let per_l = position_value_usd (num 1) sqrt_p tick_lower tick_upper in
      if not (num 0 <? value_usd)
      then num 0
      else if not (num 0 <? per_l)
      then num 0
      else value_usd / per_l

  -- The amounts of one unit of liquidity, as `_il_for_range` computes them from a price.
  unfoldable pub il_amounts : (pa pb price : R) → R × R
  il_amounts pa pb price =
      let sqrt_a = m.sqrt pa in
      let sqrt_b = m.sqrt pb in
      let sqrt_price = m.sqrt price in
      if price ≤? pa
      then (num 1 / sqrt_a - num 1 / sqrt_b, num 0)
      else if pb ≤? price
      then (num 0, sqrt_b - sqrt_a)
      else (num 1 / sqrt_price - num 1 / sqrt_b, sqrt_price - sqrt_a)

  unfoldable pub il_for_range : (p0 p1 pa pb : R) → R
  il_for_range p0 p1 pa pb =
      let (x0, y0) = il_amounts pa pb p0 in
      let (x1, y1) = il_amounts pa pb p1 in
      let hodl = x0 + y0 / p1 in
      let lp = x1 + y1 / p1 in
      if not ((num 0 <? p0) && (num 0 <? p1) && (num 0 <? pa) && (pa <? pb))
      then num 0
      else if not (num 0 <? hodl)
      then num 0
      else js_round ((lp / hodl - num 1) * num 10_000)

  -- The ticks are numbers: the answer None to a missing or infinite tick is left out.
  unfoldable pub il_bps_for_ticks : (tick_start tick_end tick_lower tick_upper : R) → R
  unfolding il_for_range
  il_bps_for_ticks tick_start tick_end tick_lower tick_upper =
      let p = m.pow tick_base in
      if tick_upper ≤? tick_lower
      then num 0
      else il_for_range (p tick_start) (p tick_end) (p tick_lower) (p tick_upper)

  unfoldable pub il_bps_for_half_width : (price_start price_end half_width_bps : R) → R
  unfolding il_for_range
  il_bps_for_half_width p0 p1 half_width_bps =
      let w = half_width_bps / num 10_000 in
      let r = p1 / p0 in
      if not ((num 0 <? p0) && (num 0 <? p1))
      then num 0
      else if num 1 ≤? w
      then js_round ((num 2 * m.sqrt r / (num 1 + r) - num 1) * num 10_000)
      else il_for_range p0 p1 (p0 * (num 1 - w)) (p0 * (num 1 + w))

  unfoldable pub range_from_half_width : (current_tick half_width_bps : R) → R × R
  range_from_half_width current_tick half_width_bps =
      let w = min (num 99 / num 100) (half_width_bps / num 10_000) in
      let ticks = max (num 1) (m.round (m.log (num 1 + w) / m.log tick_base)) in
      let center = m.trunc current_tick in (center - ticks, center + ticks)
