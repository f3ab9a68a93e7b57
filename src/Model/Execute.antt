-- ===== src/Model/Execute.antt =====
-- `_execute_action` of research/cadcad/allocator/model.py: one keeper action on the portfolio.
pub mod Value
pub mod Solvent
use Prim.Native.Nat.{ℕ}
use nvda_tranched_arc.Prelude.{
  Bool, true, false, not, ◌&&◌, ◌||◌, Option, none, some, List, [], ◌∷◌, ◌++◌, if◌then◌else◌,
}
use nvda_tranched_arc.Number.{Number, ◌+◌, ◌-◌, ◌*◌, ◌/◌, ◌<?◌, num, min, max}
use nvda_tranched_arc.Lp.{Math}
use nvda_tranched_arc.Allocator.{BookName}
use nvda_tranched_arc.Allocator.Borrow.{borrow_size}
use nvda_tranched_arc.Allocator.Switch.{same_book}
use nvda_tranched_arc.Model.{Action, EventType, Event, Portfolio, Params, Env, Arm, book_at}
use nvda_tranched_arc.Model.Books.{book_has_positions}
use nvda_tranched_arc.Model.Accounts.{
  dust_usd, dust_nvda, mode_of, pay_gas, portfolio_nav, arm_caps, close_book,
}
use nvda_tranched_arc.Model.Funding.{fund_book}

-- What a branch of `_execute_action` leaves: the portfolio, the action under its final name, the
-- event and the cost so far.
pub record Outcome (R : Type 0) : Type 0 where
  pub portfolio : Portfolio R
  pub name : Action R
  pub event : Option (EventType R)
  pub cost : R

module _ {R : Type 0} ⦃n : Number R⦄ where
  abbrev pub done : Portfolio R → Action R → EventType R → Outcome R
  done pf name event = record { portfolio = pf; name = name; event = some event; cost = num 0 }

  -- `name = "HOLD"`
  abbrev pub held : Portfolio R → Outcome R
  held pf = record { portfolio = pf; name = Action.hold; event = none; cost = num 0 }

  abbrev pub with_arm : Portfolio R → (idle_usdg idle_nvda : R) → Arm R → Portfolio R
  with_arm pf idle_usdg idle_nvda arm = record pf {
    idle_usdg = idle_usdg;
    idle_nvda = idle_nvda;
    arm = arm;
  }

  unfoldable pub allocate_usdg : (lend_cap amount : R) → Portfolio R → Outcome R
  allocate_usdg lend_cap wanted pf =
      let arm = pf.arm in
      let amount = min (min wanted pf.idle_usdg) (max (num 0) (lend_cap - arm.usdg_lent)) in
      if dust_usd <? amount
      then done
          (with_arm pf (pf.idle_usdg - amount) pf.idle_nvda
            (record arm { usdg_lent = arm.usdg_lent + amount }))
          (Action.allocate_usdg wanted) (EventType.allocated_usdg amount)
      else held pf

  unfoldable pub allocate_nvda : (collateral_cap price amount : R) → Portfolio R → Outcome R
  allocate_nvda collateral_cap price wanted pf =
      let arm = pf.arm in
      let room = max (num 0) (collateral_cap - arm.nvda * price) in
      let amount = min (min wanted pf.idle_nvda) (if num 0 <? price then room / price else num 0) in
      if dust_nvda <? amount
      then done
          (with_arm pf pf.idle_usdg (pf.idle_nvda - amount)
            (record arm { nvda = arm.nvda + amount }))
          (Action.allocate_nvda wanted) (EventType.allocated_nvda amount)
      else held pf

  unfoldable pub borrow_usdg : Params R → (price amount : R) → Portfolio R → Outcome R
  borrow_usdg params price wanted pf =
      let arm = pf.arm in
      let max_debt =
        borrow_size (arm.nvda * price) params.ltv_bps params.max_ltv_bps params.hard_cap_bps in
      let borrow_room = max (num 0) (params.borrow_liquidity_usd - arm.debt) in
      let amount =
        min (min (min wanted (max (num 0) (max_debt - arm.debt))) borrow_room)
          params.max_borrow_per_call_usd in
      if dust_usd <? amount
      then done
          (with_arm pf (pf.idle_usdg + amount) pf.idle_nvda
            (record arm { debt = arm.debt + amount }))
          (Action.borrow_usdg wanted) (EventType.borrowed amount)
      else held pf

  unfoldable pub repay : (amount : R) → Portfolio R → Outcome R
  repay wanted pf =
      let arm = pf.arm in
      let amount = min (min wanted (pf.idle_usdg + arm.usdg_lent)) arm.debt in
      let from_idle = min amount pf.idle_usdg in
      let from_lend = min (amount - from_idle) arm.usdg_lent in
      if dust_usd <? amount
      then done
          (with_arm pf (pf.idle_usdg - from_idle) pf.idle_nvda
            (record arm { usdg_lent = arm.usdg_lent - from_lend; debt = arm.debt - amount }))
          (Action.repay wanted) (EventType.repaid amount from_idle from_lend)
      else held pf

  -- With debt, only what leaves the health factor at its minimum may go.
  abbrev pub withdrawable : Params R → R → Arm R → R
  withdrawable params price arm =
      let min_collateral =
        if (num 0 <? price) && (num 0 <? params.lltv)
        then arm.debt * params.min_health_factor / (params.lltv * price)
        else num 0 in
      if dust_usd <? arm.debt then max (num 0) (arm.nvda - min_collateral) else arm.nvda

  unfoldable pub withdraw_nvda : Params R → (price amount : R) → Portfolio R → Outcome R
  withdraw_nvda params price wanted pf =
      let arm = pf.arm in
      let amount = min (min wanted (withdrawable params price arm)) arm.nvda in
      if dust_nvda <? amount
      then done
          (with_arm pf pf.idle_usdg (pf.idle_nvda + amount)
            (record arm { nvda = arm.nvda - amount }))
          (Action.withdraw_nvda wanted) (EventType.withdrawn amount)
      else held pf

  unfoldable pub deallocate_usdg : (amount : R) → Portfolio R → Outcome R
  deallocate_usdg wanted pf =
      let arm = pf.arm in
      let amount = min wanted arm.usdg_lent in
      if dust_usd <? amount
      then done
          (with_arm pf (pf.idle_usdg + amount) pf.idle_nvda
            (record arm { usdg_lent = arm.usdg_lent - amount }))
          (Action.deallocate_usdg wanted) (EventType.deallocated amount)
      else held pf

module _ {R : Type 0} ⦃n : Number R⦄ ⦃m : Math R⦄ (params : Params R) (env : Env R) where
  unfoldable pub recall : (R → EventType R) → Action R → Portfolio R → Outcome R
  recall event name pf =
      let closed = close_book pf.active_book env.sqrt_p pf in done closed.0 name (event closed.1)

  unfoldable pub fund : BookName → Portfolio R → Outcome R
  fund target pf =
      let funded = fund_book target env params pf in
      if (dust_usd <? pf.arm.debt) || book_has_positions (book_at pf target)
      then held pf
      else if dust_usd <? funded.1
      then done funded.0 (Action.fund_book target) (EventType.funded target funded.1)
      else held funded.0

  -- Gas beyond one action's, for the second transaction of a re-centre.
  abbrev pub extra_gas : R
  extra_gas = params.gas_cost_usd * max (num 0) (params.recenter_gas_multiplier - num 1)

  unfoldable pub recenter : Portfolio R → Outcome R
  recenter pf =
      let active = pf.active_book in
      let closed = (close_book active env.sqrt_p pf).0 in
      let funded = fund_book active env params closed in
      let paid = pay_gas extra_gas funded.0 in
      if not (book_has_positions (book_at pf active))
      then held pf
      else if dust_usd <? funded.1
      then (if num 0 <? extra_gas
          then record {
            portfolio = paid;
            name = Action.recenter_book;
            event = some (EventType.recentered active funded.1);
            cost = paid.cum.gas - funded.0.cum.gas;
          }
          else done funded.0 Action.recenter_book (EventType.recentered active funded.1))
      else held funded.0

  abbrev pub close_if_positions : BookName → Portfolio R → Portfolio R
  close_if_positions index pf =
      if book_has_positions (book_at pf index) then (close_book index env.sqrt_p pf).0 else pf

  -- The switch cost is taken from the idle USDG.
  abbrev pub charge_switch : R → Portfolio R → Portfolio R
  charge_switch switch_cost pf = record pf {
    idle_usdg = max (num 0) (pf.idle_usdg - switch_cost);
    cum = record (pf.cum) { switch_cost = pf.cum.switch_cost + switch_cost };
  }

  unfoldable pub switch : BookName → Portfolio R → Outcome R
  switch target pf =
      let old_active = pf.active_book in
      let stays = same_book target old_active in
      let ready =
        close_if_positions old_active (if stays then pf else close_if_positions target pf) in
      let funded = fund_book target env params ready in
      let switch_cost = funded.1 * params.switch_cost_bps / num 10_000 in
      let event = EventType.switched target funded.1 switch_cost in
      if (dust_usd <? pf.arm.debt) || (stays && book_has_positions (book_at pf target))
      then held pf
      else if dust_usd <? funded.1
      then (if num 0 <? switch_cost
          then record {
            portfolio = charge_switch switch_cost funded.0;
            name = Action.switch_book target;
            event = some event;
            cost = switch_cost;
          }
          else done funded.0 (Action.switch_book target) event)
      else held funded.0

  -- The branch of an action.
  unfoldable pub perform : Action R → Portfolio R → Outcome R
  unfolding allocate_usdg allocate_nvda borrow_usdg repay withdraw_nvda deallocate_usdg recall fund
      recenter switch
  perform (Action.allocate_usdg amount) pf =
      allocate_usdg (arm_caps pf params env.sqrt_p env.price).1 amount pf
  perform (Action.allocate_nvda amount) pf =
      allocate_nvda (arm_caps pf params env.sqrt_p env.price).0 env.price amount pf
  perform (Action.borrow_usdg amount) pf = borrow_usdg params env.price amount pf
  perform Action.recall_book pf = recall EventType.recalled Action.recall_book pf
  perform (Action.repay amount) pf = repay amount pf
  perform (Action.withdraw_nvda amount) pf = withdraw_nvda params env.price amount pf
  perform (Action.deallocate_usdg amount) pf = deallocate_usdg amount pf
  perform (Action.fund_book target) pf = fund target pf
  perform Action.recenter_book pf = recenter pf
  perform (Action.switch_book target) pf = switch target pf
  perform Action.hodl_recall pf =
      let out = recall EventType.hodl_recalled Action.hodl_recall pf in
      record out { portfolio = record (out.portfolio) { hodl_mode = true } }
  perform Action.hold pf = held pf
  perform Action.init pf = record {
    portfolio = pf;
    name = Action.init;
    event = some EventType.unknown;
    cost = num 0;
  }

  -- `name not in ("HOLD", "INIT")`
  abbrev pub charges_gas : Action R → Bool
  charges_gas Action.hold = false
  charges_gas Action.init = false
  charges_gas _ = true

  abbrev pub count_action : Portfolio R → Portfolio R
  count_action pf = record pf { cum = record (pf.cum) { actions = pf.cum.actions + num 1 } }

  -- Gas is paid for every action that ends under its own name.
  unfoldable pub settle : Outcome R → Portfolio R × R
  settle out =
      if charges_gas out.name
      then (
        count_action (pay_gas params.gas_cost_usd out.portfolio),
        out.cost + params.gas_cost_usd,
      )
      else (out.portfolio, out.cost)

  abbrev pub events_of : ℕ → Option (EventType R) → List (Event R)
  events_of step none = []
  events_of step (some type) = record { step = step; type = type } ∷ []

  unfoldable pub execute_action : Action R → ℕ → Portfolio R → Portfolio R
  unfolding perform settle
  execute_action action step pf =
      let out = perform action pf in
      let settled = settle out in
      record (settled.0) {
        mode = mode_of settled.0;
        last_action = out.name;
        nav_before = portfolio_nav pf env.sqrt_p env.price;
        nav_after = portfolio_nav settled.0 env.sqrt_p env.price;
        last_costs = settled.1;
        last_events = settled.0.last_events ++ events_of step out.event;
      }
