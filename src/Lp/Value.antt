-- ===== src/Lp/Value.antt =====
-- Value is proportional to liquidity, so `liquidity_for_value` inverts `position_value_usd`.
use nvda_tranched_arc.Prelude.{◌≡◌, refl, arith}
use nvda_tranched_arc.Number.{Number, ◌+◌, ◌-◌, ◌*◌, ◌/◌, ◌<◌, num, IsExact}
use nvda_tranched_arc.Number.Algebra.{
  mul-div_assoc, div-mul_cancel, mul-zero, mul_assoc, mul-add, one-mul, div_pos,
}
use nvda_tranched_arc.Lp.{
  Math, usdg_unit, nvda_unit, sqrt_at_tick, amounts_in_range, amounts_for_l, position_value_usd,
  liquidity_for_value,
}

module _ {R : Type 0} ⦃n : Number R⦄ ⦃m : Math R⦄ (e : IsExact R) where
  abbrev scale : R → R × R → R × R
  scale k (x, y) = (k * x, k * y)

  scale_zero : (k : R) → (num 0, num 0) ≡ scale k (num 0, num 0)
  scale_zero k = rw mul-zero refl

  amounts_in_range-mul :
      (l k q a b : R)
      → amounts_in_range (l * k) q a b ≡ scale l (amounts_in_range (num 1 * k) q a b)
  unfolding amounts_in_range
  amounts_in_range-mul l k q a b = ground (
    arith,
    mul-zero e l,
    one-mul e k,
    mul_assoc e l k (num 1 / a - num 1 / b),
    mul_assoc e l k (b - a),
    mul_assoc e l k (num 1 / q - num 1 / b),
    mul_assoc e l k (q - a),
  )

  amounts_for_l-mul :
      (l q lo hi : R)
      → num 0 < l
      → amounts_for_l l q lo hi ≡ scale l (amounts_for_l (num 1) q lo hi)
  unfolding amounts_for_l
  amounts_for_l-mul l q lo hi h = ground (
    arith,
    e.ordered.num-lt 0 1 (omega arith),
    scale_zero l,
    amounts_in_range-mul l nvda_unit q (sqrt_at_tick lo) (sqrt_at_tick hi),
  )

  value-scale : (l x y s u : R) → (l * x + l * y / s) / u ≡ l * ((x + y / s) / u)
  value-scale l x y s u =
      rw (← mul-div_assoc e l y s, ← mul-add e l x (y / s), mul-div_assoc e l _ u)

  -- A position of positive liquidity is worth its liquidity times the value of one unit.
  pub position_value_usd-mul :
      (l q lo hi : R)
      → num 0 < l
      → position_value_usd l q lo hi ≡ l * position_value_usd (num 1) q lo hi
  unfolding position_value_usd
  position_value_usd-mul l q lo hi h =
      rw (amounts_for_l-mul l q lo hi h) (value-scale l _ _ (q * q) usdg_unit)

  -- Where one unit of liquidity is worth something, the liquidity for a positive value is worth
  -- that value.
  pub position_value_usd-liquidity_for_value :
      (v q lo hi : R)
      → num 0 < v
      → num 0 < position_value_usd (num 1) q lo hi
      → position_value_usd (liquidity_for_value v q lo hi) q lo hi ≡ v
  unfolding liquidity_for_value
  position_value_usd-liquidity_for_value v q lo hi hv hp =
      let per_l = position_value_usd (num 1) q lo hi in
      ground (
        arith,
        position_value_usd-mul (v / per_l) q lo hi (div_pos e v per_l hv hp),
        div-mul_cancel e v per_l hp,
      )
