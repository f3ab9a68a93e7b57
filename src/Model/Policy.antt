-- ===== src/Model/Policy.antt =====
-- The keeper's single actions of research/cadcad/allocator/model.py: the move into the arms, the
-- return, the sentinel, the re-centre and the surplus sweep. `None` is `none`; reasons are display
-- text.
pub mod CarriedOut
use nvda_tranched_arc.Prelude.{
  Bool, true, false, not, ◌&&◌, ◌||◌, Option, none, some, if◌then◌else◌,
}
use nvda_tranched_arc.Number.{Number, ◌+◌, ◌-◌, ◌*◌, ◌/◌, ◌<?◌, ◌≤?◌, num, min, max, abs}
use nvda_tranched_arc.Lp.{Math, price_from_tick}
use nvda_tranched_arc.Allocator.Borrow.{borrow_size}
use nvda_tranched_arc.Allocator.Entry.{EntryPlan, plan_arm_entry}
use nvda_tranched_arc.Allocator.Return.{ReturnPlan, plan_book_return}
use nvda_tranched_arc.Model.{Action, Portfolio, Params, Env, Arm, Book, book_at}
use nvda_tranched_arc.Model.Books.{book_has_positions}
use nvda_tranched_arc.Model.Accounts.{dust_usd, dust_nvda, portfolio_nav, arm_caps}

module _ {R : Type 0} ⦃n : Number R⦄ where
  -- `min(max(0, desired - debt), borrow_room, max_borrow_per_call_usd)`
  unfoldable pub borrow_amount : Params R → R → Arm R → R
  borrow_amount params price arm =
      let desired_debt =
        borrow_size (arm.nvda * price) params.ltv_bps params.max_ltv_bps params.hard_cap_bps in
      let borrow_room = max (num 0) (params.borrow_liquidity_usd - arm.debt) in
      min (min (max (num 0) (desired_debt - arm.debt)) borrow_room) params.max_borrow_per_call_usd

  abbrev pub entry_plan : Portfolio R → R → Params R → EntryPlan R
  entry_plan pf price params = plan_arm_entry (record {
    usdg_available = pf.idle_usdg;
    nvda_available = pf.idle_nvda;
    nvda_price = price;
    usdg_deployed = pf.arm.usdg_lent;
    nvda_deployed = pf.arm.nvda;
    ltv_bps = params.ltv_bps;
    max_ltv_bps = params.max_ltv_bps;
    morpho_share_bps = params.morpho_share_bps;
    nvda_step_bps = params.nvda_step_bps;
  })

  abbrev pub return_plan : Portfolio R → Params R → ReturnPlan R
  return_plan pf params =
      plan_book_return pf.arm.usdg_lent pf.arm.nvda pf.arm.debt params.book_step_bps dust_usd
        dust_nvda

  unfoldable pub return_to_books_action : Portfolio R → Params R → Action R
  return_to_books_action pf params =
      let arm = pf.arm in
      let plan = return_plan pf params in
      let repay = min (min plan.repay (max (num 0) (pf.idle_usdg + arm.usdg_lent))) arm.debt in
      if dust_usd <? arm.debt
      then (if dust_usd <? repay then Action.repay repay else Action.hold)
      else if dust_nvda <? arm.nvda
      then Action.withdraw_nvda (max (num 0) plan.collateral_out)
      else if dust_usd <? arm.usdg_lent
      then Action.deallocate_usdg (max (num 0) plan.usdg_out)
      else if not (book_has_positions (book_at pf pf.active_book))
      then Action.fund_book pf.active_book
      else Action.hold

  unfoldable pub sentinel_action : Portfolio R → Arm R → R → Params R → Option (Action R)
  sentinel_action pf arm price params =
      let hf = params.lltv * (arm.nvda * price) / arm.debt in
      let borrow_apr_bps = params.arm_borrow_apr * num 10_000 in
      let hf_trigger = hf <? params.min_health_factor in
      let apr_trigger = params.max_borrow_apr_bps <? borrow_apr_bps in
      let repay =
        min (min (arm.debt * params.delever_bps / num 10_000) (pf.idle_usdg + arm.usdg_lent))
          arm.debt in
      if not params.sentinel_enabled
      then none
      else if (arm.debt ≤? dust_usd) || (arm.nvda ≤? dust_nvda)
      then none
      else if not (hf_trigger || apr_trigger)
      then none
      else if repay ≤? dust_usd
      then none
      else some (Action.repay repay)

module _ {R : Type 0} ⦃n : Number R⦄ ⦃m : Math R⦄ where
  unfoldable pub deploy_to_arms_action : Portfolio R → Env R → Params R → Action R
  deploy_to_arms_action pf env params =
      let price = env.price in
      let arm = pf.arm in
      let caps = arm_caps pf params env.sqrt_p price in
      let plan = entry_plan pf price params in
      let lend_room = max (num 0) (caps.1 - arm.usdg_lent) in
      let usdg_move = min (min plan.usdg_move pf.idle_usdg) lend_room in
      let collateral_room = max (num 0) (caps.0 - arm.nvda * price) in
      let nvda_move =
        min (min plan.nvda_move pf.idle_nvda)
          (if num 0 <? price then collateral_room / price else num 0) in
      let borrow = borrow_amount params price arm in
      if dust_usd <? usdg_move
      then Action.allocate_usdg usdg_move
      else if dust_nvda <? nvda_move
      then Action.allocate_nvda nvda_move
      else if (dust_nvda <? arm.nvda) && (dust_usd <? borrow)
      then Action.borrow_usdg borrow
      else if book_has_positions (book_at pf pf.active_book)
      then Action.recall_book
      else Action.hold

  unfoldable pub recenter_action : Portfolio R → Env R → Params R → Option (Action R)
  recenter_action pf env params =
      let book = book_at pf pf.active_book in
      let entry_price = price_from_tick book.entry_tick in
      let move_bps = abs (env.price / entry_price - num 1) * num 10_000 in
      if params.recenter_threshold_bps ≤? num 0
      then none
      else if not (book_has_positions book)
      then none
      else if entry_price ≤? num 0
      then none
      else if params.recenter_threshold_bps ≤? move_bps
      then some Action.recenter_book
      else none

  -- The reserve that stays idle, in USD.
  abbrev pub surplus_reserve : Portfolio R → Env R → Params R → R
  surplus_reserve pf env params =
      max params.inventory_reserve_usd
        (params.inventory_reserve_pct * portfolio_nav pf env.sqrt_p env.price)

  -- Excess NVDA to the collateral arm.
  unfoldable pub surplus_nvda : Portfolio R → Env R → Params R → Option (Action R)
  surplus_nvda pf env params =
      let price = env.price in
      let reserve_nvda = surplus_reserve pf env params / price in
      let room = max (num 0) ((arm_caps pf params env.sqrt_p price).0 - pf.arm.nvda * price) in
      let excess = min (pf.idle_nvda - reserve_nvda) (room / price) in
      if reserve_nvda + params.surplus_nvda_min_usd / price <? pf.idle_nvda
      then (if dust_nvda <? excess then some (Action.allocate_nvda excess) else none)
      else none

  -- Borrow against the collateral.
  unfoldable pub surplus_borrow : Portfolio R → Env R → Params R → Option (Action R)
  surplus_borrow pf env params =
      let amount = borrow_amount params env.price pf.arm in
      if params.surplus_borrow && (dust_nvda <? pf.arm.nvda)
      then (if dust_usd <? amount then some (Action.borrow_usdg amount) else none)
      else none

  -- Excess USDG to the lend arm.
  unfoldable pub surplus_usdg : Portfolio R → Env R → Params R → Option (Action R)
  surplus_usdg pf env params =
      let reserve = surplus_reserve pf env params in
      let room = max (num 0) ((arm_caps pf params env.sqrt_p env.price).1 - pf.arm.usdg_lent) in
      let amount = min (pf.idle_usdg - reserve) room in
      if reserve + params.surplus_usdg_min_usd <? pf.idle_usdg
      then (if dust_usd <? amount then some (Action.allocate_usdg amount) else none)
      else none

  -- The first of two proposals.
  abbrev pub or_else : Option (Action R) → Option (Action R) → Option (Action R)
  or_else (some a) b = some a
  or_else none b = b

  unfoldable pub surplus_action : Portfolio R → Env R → Params R → Option (Action R)
  surplus_action pf env params =
      if not params.surplus_sweep
      then none
      else if env.price ≤? num 0
      then none
      else or_else (surplus_nvda pf env params)
          (or_else (surplus_borrow pf env params) (surplus_usdg pf env params))
