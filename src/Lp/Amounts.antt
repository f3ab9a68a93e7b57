-- ===== src/Lp/Amounts.antt =====
-- The amounts of a position are not negative.
use nvda_tranched_arc.Prelude.{arith}
use nvda_tranched_arc.Number.{Number, ◌-◌, ◌*◌, ◌/◌, ◌≤◌, ◌<◌, num, IsOrdered}
use nvda_tranched_arc.Number.Order.{le_of_lt, lt_of_not-le, num_nonneg}
use nvda_tranched_arc.Lp.{
  Math, usdg_unit, nvda_unit, tick_base, sqrt_at_tick, amounts_in_range, amounts_for_l,
  token_amounts, position_value_usd,
}

-- `math.sqrt` and `**` give positive results for positive arguments.
pub record IsPositive (R : Type 0) ⦃n : Number R⦄ ⦃m : Math R⦄ : Type 0 where
  pub sqrt_pos : (a : R) → num 0 < a → num 0 < m.sqrt a
  pub pow_pos : (a t : R) → num 0 < a → num 0 < m.pow a t
  pub base_pos : num {R = R} 0 < tick_base

module _ {R : Type 0} ⦃n : Number R⦄ where
  abbrev pub BothNonneg : R × R → Type 0
  BothNonneg (x, y) = (num 0 ≤ x) × (num 0 ≤ y)

module _ {R : Type 0} ⦃n : Number R⦄ ⦃m : Math R⦄ (o : IsOrdered R) (p : IsPositive R) where
  open o use {le_refl, num-lt, add_nonneg, sub_nonneg, mul_nonneg, div_nonneg, div-le-div_left}

  pub sqrt_at_tick_pos : (t : R) → num 0 < sqrt_at_tick t
  unfolding sqrt_at_tick
  sqrt_at_tick_pos t = p.sqrt_pos _ (p.pow_pos tick_base t p.base_pos)

  inv_gap : (l a b : R) → num 0 ≤ l → num 0 < a → a ≤ b → num 0 ≤ l * (num 1 / a - num 1 / b)
  inv_gap l a b hl ha hab =
      mul_nonneg l _ hl
        (sub_nonneg (num 1 / a) (num 1 / b) (div-le-div_left (num 1) a b (num_nonneg o 1) ha hab))

  gap : (l a b : R) → num 0 ≤ l → a ≤ b → num 0 ≤ l * (b - a)
  gap l a b hl hab = mul_nonneg l (b - a) hl (sub_nonneg b a hab)

  amounts_in_range_nonneg :
      (l q a b : R)
      → num 0 ≤ l
      → num 0 < q
      → num 0 < a
      → a ≤ b
      → BothNonneg (amounts_in_range l q a b)
  unfolding amounts_in_range
  amounts_in_range_nonneg l q a b hl hq ha hab = ground (
    arith,
    le_refl (num 0),
    inv_gap l a b hl ha hab,
    gap l a b hl hab,
    inv_gap l q b hl hq,
    gap l a q hl,
    le_of_lt o q b,
    lt_of_not-le o q b,
    le_of_lt o a q,
    lt_of_not-le o a q,
  )

  -- At any price and tick range the raw amounts of a position are not negative.
  pub amounts_for_l_nonneg : (l q lo hi : R) → BothNonneg (amounts_for_l l q lo hi)
  unfolding amounts_for_l
  amounts_for_l_nonneg l q lo hi = ground (
    arith,
    le_refl (num 0),
    amounts_in_range_nonneg (l * nvda_unit) q (sqrt_at_tick lo) (sqrt_at_tick hi),
    mul_nonneg l nvda_unit,
    num_nonneg o 1_000_000_000_000_000_000,
    le_of_lt o (num 0) l,
    sqrt_at_tick_pos lo,
    le_of_lt o (sqrt_at_tick lo) (sqrt_at_tick hi),
  )

  -- At any price and tick range the token amounts of a position are not negative, and neither is
  -- its value, where the price's square is a positive number.
  pub token_amounts_nonneg :
      (l q lo hi : R)
      → num 0 < q * q
      → BothNonneg (token_amounts l q lo hi) × (num 0 ≤ position_value_usd l q lo hi)
  unfolding token_amounts position_value_usd
  token_amounts_nonneg l q lo hi hq =
      let a = amounts_for_l l q lo hi in
      let (x_pos, y_pos) = amounts_for_l_nonneg l q lo hi in
      let usdg_pos : num {R = R} 0 < usdg_unit = num-lt 0 1_000_000 (omega arith) in
      (
        (
          div_nonneg a.0 usdg_unit x_pos usdg_pos,
          div_nonneg a.1 nvda_unit y_pos (num-lt 0 1_000_000_000_000_000_000 (omega arith)),
        ),
        div_nonneg _ usdg_unit
            (add_nonneg a.0 (a.1 / (q * q)) x_pos (div_nonneg a.1 (q * q) y_pos hq)) usdg_pos,
      )
