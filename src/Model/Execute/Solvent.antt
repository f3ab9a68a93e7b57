-- ===== src/Model/Execute/Solvent.antt =====
-- No balance goes below zero, and the caps on lending and debt hold.
use nvda_tranched_arc.Prelude.{
  ℕ, Bool, true, false, ◌≡◌, ◌⊎◌, inl, inr, Bool-cases, if◌then◌else◌, arith,
}
use nvda_tranched_arc.Number.{
  Number, ◌+◌, ◌-◌, ◌*◌, ◌/◌, ◌<?◌, ◌≤?◌, ◌≤◌, ◌<◌, num, min, max, IsOrdered, IsExact,
}
use nvda_tranched_arc.Number.Order.{
  min-le_left, min-le_right, le_of_lt, lt_of_le-lt, num_nonneg, not-lt_of_le,
}
use nvda_tranched_arc.Number.Algebra.{add-le_of_le-sub, add_comm}
use nvda_tranched_arc.Lp.{Math}
use nvda_tranched_arc.Allocator.Borrow.{bps, borrow_size, borrow_size_bounds}
use nvda_tranched_arc.Model.{Action, Portfolio, Params, Env}
use nvda_tranched_arc.Model.Accounts.{dust_usd, dust_nvda, pay_gas, pay_from, pay_from_fees}
use nvda_tranched_arc.Model.Execute.{
  Outcome, allocate_usdg, allocate_nvda, borrow_usdg, repay, withdraw_nvda, deallocate_usdg,
  withdrawable, perform, settle, execute_action,
}
use nvda_tranched_arc.Model.Execute.Value.{IsArmAction}

-- Every balance, debt and fee pocket is at least zero.
pub record IsSolvent {R : Type 0} ⦃n : Number R⦄ (pf : Portfolio R) : Type 0 where
  pub idle_usdg_nonneg : num 0 ≤ pf.idle_usdg
  pub idle_nvda_nonneg : num 0 ≤ pf.idle_nvda
  pub nvda_nonneg : num 0 ≤ pf.arm.nvda
  pub debt_nonneg : num 0 ≤ pf.arm.debt
  pub lent_nonneg : num 0 ≤ pf.arm.usdg_lent
  pub bad_debt_nonneg : num 0 ≤ pf.arm.bad_debt
  pub first_fees_nonneg : num 0 ≤ pf.first_book.fees
  pub second_fees_nonneg : num 0 ≤ pf.second_book.fees

module _ {R : Type 0} ⦃n : Number R⦄ (o : IsOrdered R) where
  open o use {le_refl, le_trans, add_nonneg, sub_nonneg, num-lt, div_nonneg}

  -- Taking the least of an amount and a balance from the balance.
  sub-min_nonneg : (a b : R) → num 0 ≤ b - min a b
  sub-min_nonneg a b = sub_nonneg b (min a b) (min-le_right o a b)

  sub-min_left_nonneg : (a b c : R) → num 0 ≤ b - min (min a b) c
  sub-min_left_nonneg a b c =
      sub_nonneg b (min (min a b) c)
        (le_trans _ (min a b) b (min-le_left o (min a b) c) (min-le_right o a b))

  plus_dust : (b a d : R) → num 0 ≤ b → num 0 ≤ d → d < a → num 0 ≤ b + a
  plus_dust b a d hb hd h = add_nonneg b a hb (le_trans (num 0) d a hd (le_of_lt o d a h))

  dust_usd_nonneg : num 0 ≤ dust_usd {R = R}
  dust_usd_nonneg = num_nonneg o 1

  dust_nvda_nonneg : num 0 ≤ dust_nvda {R = R}
  dust_nvda_nonneg = div_nonneg (num 1) (num 1_000) (num_nonneg o 1) (num-lt 0 1_000 (omega arith))

  allocate_usdg-IsSolvent :
      (cap a : R) (pf : Portfolio R) → IsSolvent pf → IsSolvent (allocate_usdg cap a pf).portfolio
  unfolding allocate_usdg
  allocate_usdg-IsSolvent cap a pf s =
      let room = max (num 0) (cap - pf.arm.usdg_lent) in
      let amount = min (min a pf.idle_usdg) room in
      ground (
        arith,
        sub-min_left_nonneg a pf.idle_usdg room,
        plus_dust pf.arm.usdg_lent amount dust_usd s.lent_nonneg dust_usd_nonneg,
      )

  allocate_nvda-IsSolvent :
      (cap price a : R) (pf : Portfolio R)
      → IsSolvent pf
      → IsSolvent (allocate_nvda cap price a pf).portfolio
  unfolding allocate_nvda
  allocate_nvda-IsSolvent cap price a pf s =
      let room = max (num 0) (cap - pf.arm.nvda * price) in
      let bound = if num 0 <? price then room / price else num 0 in
      let amount = min (min a pf.idle_nvda) bound in
      ground (
        arith,
        sub-min_left_nonneg a pf.idle_nvda bound,
        plus_dust pf.arm.nvda amount dust_nvda s.nvda_nonneg dust_nvda_nonneg,
      )

  borrow_usdg-IsSolvent :
      (params : Params R) (price a : R) (pf : Portfolio R)
      → IsSolvent pf
      → IsSolvent (borrow_usdg params price a pf).portfolio
  unfolding borrow_usdg
  borrow_usdg-IsSolvent params price a pf s =
      let max_debt =
        borrow_size (pf.arm.nvda * price) params.ltv_bps params.max_ltv_bps params.hard_cap_bps in
      let amount =
        min
          (min (min a (max (num 0) (max_debt - pf.arm.debt)))
            (max (num 0) (params.borrow_liquidity_usd - pf.arm.debt)))
          params.max_borrow_per_call_usd in
      ground (
        arith,
        plus_dust pf.idle_usdg amount dust_usd s.idle_usdg_nonneg dust_usd_nonneg,
        plus_dust pf.arm.debt amount dust_usd s.debt_nonneg dust_usd_nonneg,
      )

  repay-IsSolvent : (a : R) (pf : Portfolio R) → IsSolvent pf → IsSolvent (repay a pf).portfolio
  unfolding repay
  repay-IsSolvent a pf s =
      let bound = min a (pf.idle_usdg + pf.arm.usdg_lent) in
      let amount = min bound pf.arm.debt in
      ground (
        arith,
        sub-min_nonneg bound pf.arm.debt,
        sub-min_nonneg amount pf.idle_usdg,
        sub-min_nonneg (amount - min amount pf.idle_usdg) pf.arm.usdg_lent,
      )

  withdraw_nvda-IsSolvent :
      (params : Params R) (price a : R) (pf : Portfolio R)
      → IsSolvent pf
      → IsSolvent (withdraw_nvda params price a pf).portfolio
  unfolding withdraw_nvda
  withdraw_nvda-IsSolvent params price a pf s =
      let bound = min a (withdrawable params price pf.arm) in
      let amount = min bound pf.arm.nvda in
      ground (
        arith,
        sub-min_nonneg bound pf.arm.nvda,
        plus_dust pf.idle_nvda amount dust_nvda s.idle_nvda_nonneg dust_nvda_nonneg,
      )

  deallocate_usdg-IsSolvent :
      (a : R) (pf : Portfolio R) → IsSolvent pf → IsSolvent (deallocate_usdg a pf).portfolio
  unfolding deallocate_usdg
  deallocate_usdg-IsSolvent a pf s =
      let amount = min a pf.arm.usdg_lent in
      ground (
        arith,
        sub-min_nonneg a pf.arm.usdg_lent,
        plus_dust pf.idle_usdg amount dust_usd s.idle_usdg_nonneg dust_usd_nonneg,
      )

  either_nonneg : (b : Bool) (x y : R) → num 0 ≤ x → num 0 ≤ y → num 0 ≤ (if b then x else y)
  either_nonneg true x y hx hy = hx
  either_nonneg false x y hx hy = hy

  pay_from_nonneg : (pocket rest : R) → num 0 ≤ pocket → num 0 ≤ (pay_from pocket rest).0
  pay_from_nonneg pocket rest h = ground (arith, sub-min_nonneg rest pocket)

  pay_from_fees_nonneg : (fees rest : R) → num 0 ≤ fees → num 0 ≤ (pay_from_fees fees rest).0
  pay_from_fees_nonneg fees rest h = ground (arith, sub-min_nonneg rest fees)

  pay_gas-IsSolvent : (gas : R) (pf : Portfolio R) → IsSolvent pf → IsSolvent (pay_gas gas pf)
  unfolding pay_gas
  pay_gas-IsSolvent gas pf s =
      let idle = pay_from pf.idle_usdg gas in
      let lent = pay_from pf.arm.usdg_lent idle.1 in
      let first = pay_from_fees pf.first_book.fees lent.1 in
      let from_fees = num 0 <? lent.1 in
      elim (Bool-cases (gas ≤? num 0)) [
        | inl free ↦ rw free s
        | inr paid ↦ rw paid (record {
          idle_usdg_nonneg = pay_from_nonneg pf.idle_usdg gas s.idle_usdg_nonneg;
          idle_nvda_nonneg = s.idle_nvda_nonneg;
          nvda_nonneg = s.nvda_nonneg;
          debt_nonneg = s.debt_nonneg;
          lent_nonneg = pay_from_nonneg pf.arm.usdg_lent idle.1 s.lent_nonneg;
          bad_debt_nonneg = s.bad_debt_nonneg;
          first_fees_nonneg =
              either_nonneg from_fees _ _
                (pay_from_fees_nonneg pf.first_book.fees lent.1 s.first_fees_nonneg)
                s.first_fees_nonneg;
          second_fees_nonneg =
              either_nonneg from_fees _ _
                (pay_from_fees_nonneg pf.second_book.fees first.1 s.second_fees_nonneg)
                s.second_fees_nonneg;
        })
      ]

  perform-IsSolvent :
      ⦃m : Math R⦄ (params : Params R) (env : Env R) (action : Action R) (pf : Portfolio R)
      → IsArmAction action
      → IsSolvent pf
      → IsSolvent (perform params env action pf).portfolio
  unfolding perform
  perform-IsSolvent params env (Action.allocate_usdg a) pf h s = allocate_usdg-IsSolvent _ a pf s
  perform-IsSolvent params env (Action.allocate_nvda a) pf h s =
      allocate_nvda-IsSolvent _ env.price a pf s
  perform-IsSolvent params env (Action.borrow_usdg a) pf h s =
      borrow_usdg-IsSolvent params env.price a pf s
  perform-IsSolvent params env (Action.repay a) pf h s = repay-IsSolvent a pf s
  perform-IsSolvent params env (Action.withdraw_nvda a) pf h s =
      withdraw_nvda-IsSolvent params env.price a pf s
  perform-IsSolvent params env (Action.deallocate_usdg a) pf h s = deallocate_usdg-IsSolvent a pf s
  perform-IsSolvent params env _ pf h s = absurd h

  settle-IsSolvent :
      ⦃m : Math R⦄ (params : Params R) (env : Env R) (out : Outcome R)
      → IsSolvent out.portfolio
      → IsSolvent (settle params env out).0
  unfolding settle
  settle-IsSolvent params env out s =
      ground (arith, pay_gas-IsSolvent params.gas_cost_usd out.portfolio s)

  -- Executing an action on the arm, of whatever amount, and paying its gas leaves every balance of
  -- a solvent portfolio at zero or more.
  pub execute_action-IsSolvent :
      ⦃m : Math R⦄ (params : Params R) (env : Env R) (action : Action R) (step : ℕ)
      (pf : Portfolio R)
      → IsArmAction action
      → IsSolvent pf
      → IsSolvent (execute_action params env action step pf)
  unfolding execute_action
  execute_action-IsSolvent params env action step pf h s =
      let t =
        settle-IsSolvent params env (perform params env action pf)
          (perform-IsSolvent params env action pf h s) in
      record {
        idle_usdg_nonneg = t.idle_usdg_nonneg;
        idle_nvda_nonneg = t.idle_nvda_nonneg;
        nvda_nonneg = t.nvda_nonneg;
        debt_nonneg = t.debt_nonneg;
        lent_nonneg = t.lent_nonneg;
        bad_debt_nonneg = t.bad_debt_nonneg;
        first_fees_nonneg = t.first_fees_nonneg;
        second_fees_nonneg = t.second_fees_nonneg;
      }

module _ {R : Type 0} ⦃n : Number R⦄ (e : IsExact R) where
  open e.ordered use {le_refl, le_trans, num-lt}

  -- An amount above dust that fits the room under a cap keeps the total under the cap.
  fits :
      (a dust held cap : R)
      → num 0 ≤ dust
      → dust < a
      → a ≤ max (num 0) (cap - held)
      → held + a ≤ cap
  unfolding max
  fits a dust held cap hd ha h = rw (add_comm e held a) (
      add-le_of_le-sub e a cap held (
        ground
          (arith, lt_of_le-lt e.ordered (num 0) dust a hd ha, not-lt_of_le e.ordered a (num 0))))

  -- Lending ends at most at the lend cap, or changes nothing.
  pub allocate_usdg_cap :
      (cap a : R) (pf : Portfolio R)
      → let pf' = (allocate_usdg cap a pf).portfolio in (pf' ≡ pf) ⊎ (pf'.arm.usdg_lent ≤ cap)
  unfolding allocate_usdg
  allocate_usdg_cap cap a pf =
      let room = max (num 0) (cap - pf.arm.usdg_lent) in
      let amount = min (min a pf.idle_usdg) room in
      ground (
        arith,
        fits amount dust_usd pf.arm.usdg_lent cap (num_nonneg e.ordered 1),
        min-le_right e.ordered (min a pf.idle_usdg) room,
      )

  -- Borrowing changes nothing, or leaves the debt at most at the operator's share, the market's
  -- share and the hard-cap share of the collateral's value, for collateral and limits that are not
  -- negative.
  pub borrow_usdg_cap :
      (params : Params R) (price a : R) (pf : Portfolio R)
      → num 0 ≤ pf.arm.nvda * price
      → num 0 ≤ params.ltv_bps
      → num 0 ≤ params.max_ltv_bps
      → num 0 ≤ params.hard_cap_bps
      → let pf' = (borrow_usdg params price a pf).portfolio in
        (pf' ≡ pf)
        ⊎ ((pf'.arm.debt ≤ pf.arm.nvda * price * params.ltv_bps / bps)
            × (pf'.arm.debt ≤ pf.arm.nvda * price * params.max_ltv_bps / bps)
            × (pf'.arm.debt ≤ pf.arm.nvda * price * params.hard_cap_bps / bps))
  unfolding borrow_usdg
  borrow_usdg_cap params price a pf hv hl hm hc =
      let collateral = pf.arm.nvda * price in
      let max_debt = borrow_size collateral params.ltv_bps params.max_ltv_bps params.hard_cap_bps in
      let room = max (num 0) (max_debt - pf.arm.debt) in
      let borrow_room = max (num 0) (params.borrow_liquidity_usd - pf.arm.debt) in
      let amount = min (min (min a room) borrow_room) params.max_borrow_per_call_usd in
      let below_room : amount ≤ room =
        le_trans amount (min a room) room
          (le_trans amount (min (min a room) borrow_room) (min a room)
            (min-le_left e.ordered (min (min a room) borrow_room) params.max_borrow_per_call_usd)
            (min-le_left e.ordered (min a room) borrow_room))
          (min-le_right e.ordered a room) in
      let (_, by_ltv, by_max, by_cap) =
        borrow_size_bounds e.ordered collateral params.ltv_bps params.max_ltv_bps
          params.hard_cap_bps hv hl hm hc in
      ground (
        arith,
        below_room,
        fits amount dust_usd pf.arm.debt max_debt (num_nonneg e.ordered 1),
        le_trans (pf.arm.debt + amount) max_debt (collateral * params.ltv_bps / bps),
        le_trans (pf.arm.debt + amount) max_debt (collateral * params.max_ltv_bps / bps),
        le_trans (pf.arm.debt + amount) max_debt (collateral * params.hard_cap_bps / bps),
        by_ltv,
        by_max,
        by_cap,
      )
