-- ===== src/Model/Liquidate.antt =====
-- `_liquidate` of research/cadcad/allocator/model.py: the arm below a health factor of one.
use nvda_tranched_arc.Prelude.{
  ℕ, false, ◌≡◌, refl, ◌∙◌, [], ◌∷◌, ◌++◌, if◌then◌else◌, arith, Bool-cases, ◌⊎◌, inl, inr, sym,
}
use nvda_tranched_arc.Number.{
  Number, ◌+◌, ◌-◌, ◌*◌, ◌/◌, ◌<◌, ◌≤◌, ◌<?◌, ◌≤?◌, num, min, max, IsExact,
}
use nvda_tranched_arc.Number.Algebra.{
  ring, mul-one, one-le_plus, div-mul_cancel, mul-div_cancel, zero-mul,
}
use nvda_tranched_arc.Number.Order.{
  min-le_left, min-le_right, le_of_lt, le_of_not-lt, lt_of_not-le, lt_of_lt-le, le-min,
}
use nvda_tranched_arc.Lp.{Math}
use nvda_tranched_arc.Model.{Portfolio, Params, Arm, EventType}
use nvda_tranched_arc.Model.Accounts.{dust_usd, portfolio_nav, arm_equity}

module _ {R : Type 0} ⦃n : Number R⦄ where
  -- A negative value counts as nothing.
  abbrev pub collateral_of : Arm R → R → R
  collateral_of arm price = if arm.nvda * price ≤? num 0 then num 0 else arm.nvda * price

  abbrev pub health_factor : Params R → R → Arm R → R
  health_factor params price arm = params.lltv * collateral_of arm price / arm.debt

  unfoldable pub seized_of : (collateral_value debt bonus : R) → R
  seized_of collateral_value debt bonus = min collateral_value (debt * (num 1 + bonus))

  unfoldable pub repaid_of : (seized bonus : R) → R
  repaid_of seized bonus = if num 0 <? seized then seized / (num 1 + bonus) else num 0

  -- The arm after a liquidation at a bonus.
  unfoldable pub liquidated_arm : (bonus price : R) → Arm R → Arm R
  liquidated_arm bonus price arm =
      let collateral_value = collateral_of arm price in
      let seized = seized_of collateral_value arm.debt bonus in
      let remaining_debt = max (num 0) (arm.debt - repaid_of seized bonus) in
      let remaining_collateral = max (num 0) (collateral_value - seized) in
      let impair = min arm.usdg_lent remaining_debt in
      record {
        nvda =
            if num 0 <? collateral_value
            then arm.nvda * (remaining_collateral / collateral_value)
            else num 0;
        debt = num 0;
        usdg_lent = arm.usdg_lent - impair;
        bad_debt = arm.bad_debt + (remaining_debt - impair);
      }

module _ {R : Type 0} ⦃n : Number R⦄ ⦃m : Math R⦄ where
  unfoldable pub liquidate : Portfolio R → (sqrt_p price : R) → ℕ → Params R → Portfolio R
  liquidate pf sqrt_p price step params =
      let bonus = params.liquidation_bonus_bps / num 10_000 in
      let collateral_value = collateral_of pf.arm price in
      let hf = health_factor params price pf.arm in
      let seized = seized_of collateral_value pf.arm.debt bonus in
      let settled = record pf { arm = liquidated_arm bonus price pf.arm } in
      let loss = max (num 0) (portfolio_nav pf sqrt_p price - portfolio_nav settled sqrt_p price) in
      let event =
        EventType.liquidation hf collateral_value pf.arm.debt seized (repaid_of seized bonus)
          (max (num 0) (collateral_value - seized)) settled.arm.bad_debt loss in
      if pf.arm.debt ≤? dust_usd then pf else if num 1 ≤? hf then pf else record settled {
        cum = record (pf.cum) { liquidation_loss = pf.cum.liquidation_loss + loss };
        last_events = pf.last_events ++ (record { step = step; type = event } ∷ []);
      }

  -- What a liquidation costs and what it leaves.
  abbrev pub IsLiquidated : Portfolio R → (sqrt_p price : R) → Params R → Portfolio R → Type 0
  IsLiquidated pf sqrt_p price params after =
      ((after ≡ pf) × ((pf.arm.debt ≤ dust_usd) ⊎ (num 1 ≤ health_factor params price pf.arm)))
      ⊎ ((after.arm.debt ≡ num 0)
          × (portfolio_nav after sqrt_p price ≤ portfolio_nav pf sqrt_p price)
          × (portfolio_nav after sqrt_p price + after.cum.liquidation_loss
              ≡ portfolio_nav pf sqrt_p price + pf.cum.liquidation_loss))

module _ {R : Type 0} ⦃n : Number R⦄ (e : IsExact R) where
  open e use {ordered, le_antisymm, mul_pos}
  open e.ordered use {
    le_refl, le_trans, mul_comm, mul_nonneg, div_nonneg, sub_nonneg, sub-le, div-le-div_left,
    add-le-add_right, mul-le-mul_right, add_nonneg, div-le-div_right, num-lt,
  }

  max_id : (a : R) → num 0 ≤ a → max (num 0) a ≡ a
  unfolding max
  max_id a h = ground (arith, le_antisymm (num 0) a, le_of_not-lt e.ordered a (num 0))

  collateral_nonneg : (arm : Arm R) (price : R) → num 0 ≤ collateral_of arm price
  collateral_nonneg arm price = ground (
    arith,
    le_refl (num {R = R} 0),
    lt_of_not-le e.ordered (num 0) (arm.nvda * price),
    le_of_lt e.ordered (num 0) (arm.nvda * price),
  )

  collateral_value_of :
      (arm : Arm R) (price : R)
      → num 0 ≤ arm.nvda
      → num 0 ≤ price
      → collateral_of arm price ≡ arm.nvda * price
  collateral_value_of arm price h k =
      ground (arith, le_antisymm (num 0) (arm.nvda * price), mul_nonneg arm.nvda price h k)

  module _ (v d b : R) (hv : num 0 ≤ v) (hd : num 0 ≤ d) (hb : num 0 ≤ b) where
    one-lt_plus : num 0 < num 1 + b
    one-lt_plus =
        lt_of_lt-le e.ordered (num 0) (num 1) (num 1 + b) (num-lt 0 1 (omega arith))
          (one-le_plus e b hb)

    seized_nonneg : num 0 ≤ seized_of v d b
    unfolding seized_of
    seized_nonneg =
        le-min e.ordered v (d * (num 1 + b)) (num 0) hv
          (mul_nonneg d (num 1 + b) hd (le_of_lt e.ordered (num 0) (num 1 + b) one-lt_plus))

    div_one : (s : R) → s / num 1 ≡ s
    div_one s = rw (mul-one e s) at (mul-div_cancel e s (num 1) (num-lt 0 1 (omega arith)))

    -- Nothing is repaid beyond what is seized, nor beyond the debt.
    repaid-le_seized : (s : R) → num 0 ≤ s → repaid_of s b ≤ s
    unfolding repaid_of
    repaid-le_seized s h = ground (
      arith,
      h,
      (rw (div_one s) at (
          div-le-div_left s (num 1) (num 1 + b) h (num-lt 0 1 (omega arith)) (one-le_plus e b hb))),
    )

    repaid-le_debt : repaid_of (seized_of v d b) b ≤ d
    unfolding repaid_of seized_of
    repaid-le_debt = ground (
      arith,
      hd,
      (rw (mul-div_cancel e d (num 1 + b) one-lt_plus) at (
          div-le-div_right (min v (d * (num 1 + b))) (d * (num 1 + b)) (num 1 + b) one-lt_plus
            (min-le_right e.ordered v (d * (num 1 + b))))),
    )

  -- What the arm is worth falls by what the liquidator gains.
  equity_drop :
      (cv s l x d r i : R) → cv - s + (l - i) - num 0 - (x + (d - r - i)) ≡ cv + l - d - x - (s - r)
  equity_drop cv s l x d r i = simp (ring, e)

  swap_factors : (a b c : R) → a * b * c ≡ b * (a * c)
  swap_factors a b c = simp (ring, e)

  scaled_value : (k p w : R) → num 0 < k * p → k * (w / (k * p)) * p ≡ w
  scaled_value k p w h = rw (swap_factors k (w / (k * p)) p) (div-mul_cancel e w (k * p) h)

  sub_equal : (a b : R) → a ≡ num 0 → b ≡ num 0 → a - b ≡ num 0
  sub_equal a b h k = rw (h, k) (simp (ring, e))

  module _ (bonus price : R) (arm : Arm R) (hb : num 0 ≤ bonus) (hp : num 0 ≤ price)
      (hn : num 0 ≤ arm.nvda) (hd : num 0 ≤ arm.debt) where
    abbrev value : R
    value = arm.nvda * price

    abbrev seized : R
    seized = seized_of value arm.debt bonus

    abbrev repaid : R
    repaid = repaid_of seized bonus

    value_nonneg : num 0 ≤ value
    value_nonneg = mul_nonneg arm.nvda price hn hp

    seized-le_value : seized ≤ value
    unfolding seized_of
    seized-le_value = min-le_left e.ordered value (arm.debt * (num 1 + bonus))

    zero-seized : num 0 ≤ seized
    zero-seized = seized_nonneg value arm.debt bonus value_nonneg hd hb

    -- The collateral that is left is worth what was not seized.
    collateral_left : (liquidated_arm bonus price arm).nvda * price ≡ value - seized
    unfolding liquidated_arm
    collateral_left =
        rw
          (
            collateral_value_of arm price hn hp,
            max_id (value - seized) (sub_nonneg value seized seized-le_value),
          )
          (elim (Bool-cases (num 0 <? value)) [
            | inl h ↦ rw h (scaled_value arm.nvda price (value - seized) h)
            | inr h ↦
                let v0 =
                  le_antisymm value (num 0) (le_of_not-lt e.ordered value (num 0) h) value_nonneg in
                rw h (
                  zero-mul e price
                  ∙ sym (
                      sub_equal value seized v0 (
                        le_antisymm seized (num 0)
                          (le_trans seized value (num 0) seized-le_value
                            (le_of_not-lt e.ordered value (num 0) h))
                          zero-seized)))
          ])

    equity-liquidated_arm :
        arm_equity (liquidated_arm bonus price arm) price ≡ arm_equity arm price - (seized - repaid)
    unfolding liquidated_arm
    equity-liquidated_arm =
        rw
          (
            collateral_left,
            collateral_value_of arm price hn hp,
            max_id (arm.debt - repaid) (
                sub_nonneg arm.debt repaid
                  (repaid-le_debt value arm.debt bonus value_nonneg hd hb)),
          )
          (equity_drop value seized arm.usdg_lent arm.bad_debt arm.debt repaid
            (min arm.usdg_lent (arm.debt - repaid)))

module _ {R : Type 0} ⦃n : Number R⦄ ⦃m : Math R⦄ (e : IsExact R) where
  open e use {ordered}
  open e.ordered use {sub_nonneg, sub-le, num-lt, div_nonneg, le_trans}

  take_from_sum : (i v b c q g : R) → i + v + b + c + (q - g) ≡ i + v + b + c + q - g
  take_from_sum i v b c q g = simp (ring, e)

  rest_and_loss : (v g c : R) → v - g + (c + (v - (v - g))) ≡ v + c
  rest_and_loss v g c = simp (ring, e)

  module _ (pf : Portfolio R) (sqrt_p price : R) (params : Params R)
      (hb : num 0 ≤ params.liquidation_bonus_bps) (hp : num 0 ≤ price)
      (hn : num 0 ≤ pf.arm.nvda) where
    abbrev bonus : R
    bonus = params.liquidation_bonus_bps / num 10_000

    bonus_nonneg : num 0 ≤ bonus
    bonus_nonneg =
        div_nonneg params.liquidation_bonus_bps (num 10_000) hb (num-lt 0 10_000 (omega arith))

    abbrev lost : R
    lost = let s = seized_of (pf.arm.nvda * price) pf.arm.debt bonus in s - repaid_of s bonus

    abbrev after_arm : Portfolio R
    after_arm = record pf { arm = liquidated_arm bonus price pf.arm }

    nav-liquidated_arm :
        num 0 ≤ pf.arm.debt
        → portfolio_nav after_arm sqrt_p price ≡ portfolio_nav pf sqrt_p price - lost
    unfolding portfolio_nav
    nav-liquidated_arm hd =
        rw (equity-liquidated_arm e bonus price pf.arm bonus_nonneg hp hn hd)
          (take_from_sum pf.idle_usdg _ _ _ _ lost)

    lost_nonneg : num 0 ≤ pf.arm.debt → num 0 ≤ lost
    lost_nonneg hd =
        let s = seized_of (pf.arm.nvda * price) pf.arm.debt bonus in
        sub_nonneg s (repaid_of s bonus) (
          repaid-le_seized e (pf.arm.nvda * price) pf.arm.debt bonus
            (value_nonneg e bonus price pf.arm bonus_nonneg hp hn hd) hd bonus_nonneg s
            (zero-seized e bonus price pf.arm bonus_nonneg hp hn hd))

    loss_of_nav :
        (nav after : R)
        → num 0 ≤ lost
        → after ≡ nav - lost
        → (after ≤ nav) × ((c : R) → after + (c + max (num 0) (nav - after)) ≡ nav + c)
    loss_of_nav nav after h k = rw k (
      sub-le nav lost h,
      λ c.
          rw (max_id e (nav - (nav - lost)) (sub_nonneg nav (nav - lost) (sub-le nav lost h)))
            (rest_and_loss nav lost c),
    )

    debt_nonneg : (pf.arm.debt ≤? dust_usd) ≡ false → num 0 ≤ pf.arm.debt
    debt_nonneg h =
        le_trans (num 0) dust_usd pf.arm.debt
          (le_of_lt e.ordered (num 0) (num 1) (num-lt 0 1 (omega arith)))
          (le_of_lt e.ordered dust_usd pf.arm.debt (lt_of_not-le e.ordered dust_usd pf.arm.debt h))

    -- A liquidation changes nothing, because the debt is dust or the health factor is at least one,
    -- or it clears the debt, does not raise the portfolio's value and records as the loss exactly
    -- what the value falls by. The price, the collateral and the bonus are not negative.
    pub liquidate-IsLiquidated :
        (step : ℕ) → IsLiquidated pf sqrt_p price params (liquidate pf sqrt_p price step params)
    unfolding liquidate liquidated_arm portfolio_nav
    liquidate-IsLiquidated step = elim (Bool-cases (pf.arm.debt ≤? dust_usd)) [
      | inl h ↦ rw h (inl (refl, inl refl))
      | inr h ↦ elim (Bool-cases (num 1 ≤? health_factor params price pf.arm)) [
        | inl k ↦ rw (h, k) (inl (refl, inr refl))
        | inr k ↦
            let hd = debt_nonneg h in
            let l =
              loss_of_nav (portfolio_nav pf sqrt_p price) (portfolio_nav after_arm sqrt_p price)
                (lost_nonneg hd) (nav-liquidated_arm hd) in
            rw (h, k) (inr (refl, l.0, l.1 pf.cum.liquidation_loss))
      ]
    ]
