-- ===== src/Model/Income.antt =====
-- `s_portfolio_income` of research/cadcad/allocator/model.py: the fees of an hour, the pull and the
-- return of the guards, the arm's interest and its liquidation.
pub mod Value
pub mod Guards
pub mod Balance
pub mod Kept
use nvda_tranched_arc.Prelude.{
  ℕ, Bool, true, false, not, ◌&&◌, ◌||◌, Option, none, some, List, [], ◌∷◌, ◌++◌, if◌then◌else◌,
  ltb,
}
use nvda_tranched_arc.Number.{Number, ◌+◌, ◌-◌, ◌*◌, ◌/◌, ◌<?◌, ◌≤?◌, num}
use nvda_tranched_arc.Lp.{Math, token_amounts}
use nvda_tranched_arc.Allocator.{BookName, book_a, book_b}
use nvda_tranched_arc.Model.{
  Book, Arm, Portfolio, Params, Env, EventType, ScenarioRow, book_at, set_book, row_of, hours_since,
}
use nvda_tranched_arc.Model.Accounts.{mode_of, portfolio_nav}
use nvda_tranched_arc.Model.Funding.{swap_deficit, funding_scale}
use nvda_tranched_arc.Model.Decision.{first_guard_pull_bin, is_some}
use nvda_tranched_arc.Model.Fees.{FeeSplit, book_fee_for_hour}
use nvda_tranched_arc.Model.Windows.{hours_per_year, book_fee_il_window, guard_fee_il_window}
use nvda_tranched_arc.Model.Liquidate.{liquidate}

-- `step - last_pull_step >= delay`, for a delay that is not negative.
abbrev pub delay_over : (step : ℕ) (pulled delay : Option ℕ) → Bool
delay_over step pulled none = false
delay_over step pulled (some hours) = not (ltb (hours_since step pulled) hours)

module _ {R : Type 0} ⦃n : Number R⦄ where
  abbrev pub pips_of : Params R → BookName → R
  pips_of params book_a = params.fee_a
  pips_of params book_b = params.fee_b

  -- `int(params.get("fee_il_window_hours", 0)) or 4`
  abbrev pub gate_hours : Params R → ℕ
  gate_hours params = if ltb 0 params.fee_il_window_hours then params.fee_il_window_hours else 4

  abbrev pub add_event : ℕ → EventType R → Portfolio R → Portfolio R
  add_event step type pf = record pf {
    last_events = pf.last_events ++ (record { step = step; type = type } ∷ []);
  }

  -- The book without its guard.
  abbrev pub without_guard : ℕ → Book R → Book R
  without_guard step book = record book {
    guard_l = num 0;
    guard_present = false;
    last_pull_step = some step;
  }

  -- The fees of the hour go to the book and to the totals.
  unfoldable pub accrue : BookName → FeeSplit R → Portfolio R → Portfolio R
  accrue name fees pf =
      let book = book_at pf name in
      set_book name
        (record book { fees = book.fees + fees.total; cum_fees = book.cum_fees + fees.total })
        (record pf {
          cum = record (pf.cum) {
            fees = pf.cum.fees + fees.total;
            guard_fees = pf.cum.guard_fees + fees.guard;
          };
        })

  -- The guard may come back: it is gone, the base is there and the delay is over.
  unfoldable pub rearm_due : Book R → ℕ → Params R → Bool
  rearm_due book step params =
      (not book.guard_present && (num 0 <? book.base_l))
      && delay_over step book.last_pull_step params.guard_rearm_delay_hours

  -- The guard that the base's share of its target calls for.
  abbrev pub target_guard : Book R → R
  target_guard book =
      book.target_guard_l
      * (if num 0 <? book.target_base_l then book.base_l / book.target_base_l else num 0)

  -- The book with a guard around the tick.
  abbrev pub rearmed_book : Book R → Env R → Params R → (liquidity : R) → Book R
  rearmed_book book env params liquidity = record book {
    guard_l = liquidity;
    guard_lo = env.tick - params.guard_width_ticks;
    guard_hi = env.tick + params.guard_width_ticks;
    guard_present = true;
    last_pull_step = none;
  }

  -- A yearly rate per hour.
  abbrev pub hourly : R → R
  hourly apr = apr / hours_per_year

  -- The collateral's yield, with the cost of the debt on top where it is quoted net of it.
  unfoldable pub nvda_rate : Params R → Arm R → R → R
  nvda_rate params arm price =
      let collateral_value = arm.nvda * price in
      let ltv = if num 0 <? collateral_value then arm.debt / collateral_value else num 0 in
      let net = params.nvda_apr_is_net && ((num 0 <? arm.nvda) && (num 0 <? price)) in
      hourly (params.arm_nvda_apr + (if net then ltv * params.arm_borrow_apr else num 0))

  -- An hour of interest on the arm.
  unfoldable pub arm_interest : Params R → R → Portfolio R → Portfolio R
  arm_interest params price pf =
      let arm = pf.arm in
      let usdg_interest = arm.usdg_lent * hourly params.arm_usdg_apr in
      let borrow_cost = arm.debt * hourly params.arm_borrow_apr in
      let nvda_yield = arm.nvda * nvda_rate params arm price in
      record pf {
        arm = record arm {
          usdg_lent = arm.usdg_lent + usdg_interest;
          debt = arm.debt + borrow_cost;
          nvda = arm.nvda + nvda_yield;
        };
        cum = record (pf.cum) {
          arm_interest = pf.cum.arm_interest + usdg_interest;
          borrow_cost = pf.cum.borrow_cost + borrow_cost;
          nvda_yield = pf.cum.nvda_yield + nvda_yield * price;
        };
      }

module _ {R : Type 0} ⦃n : Number R⦄ ⦃m : Math R⦄ where
  -- The tokens of the guard become idle.
  unfoldable pub pull_guard :
      BookName → Env R → (step : ℕ) (fee_il : Bool) → Portfolio R → Portfolio R
  pull_guard name env step fee_il pf =
      let book = book_at pf name in
      let t = token_amounts book.guard_l env.sqrt_p book.guard_lo book.guard_hi in
      add_event step (EventType.guard_pulled name (t.0 + t.1 * env.price) fee_il) (
        set_book name (without_guard step book) (record pf {
          idle_usdg = pf.idle_usdg + t.0;
          idle_nvda = pf.idle_nvda + t.1;
          cum = record (pf.cum) { guard_pulls = pf.cum.guard_pulls + num 1 };
        }))

  -- A guard of a target liquidity, as far as the idle tokens go, after an optional swap.
  unfoldable pub rearm_guard : BookName → Env R → Params R → ℕ → Portfolio R → Portfolio R
  rearm_guard name env params step pf =
      let book = book_at pf name in
      let target = target_guard book in
      let req =
        token_amounts target env.sqrt_p (env.tick - params.guard_width_ticks)
          (env.tick + params.guard_width_ticks) in
      let ready =
        if params.funding_mode_swap
        then (swap_deficit pf req.0 req.1 env.price params.swap_cost_bps).0
        else pf in
      let scale = funding_scale (num 1) ready.idle_usdg ready.idle_nvda req.0 req.1 in
      let armed = rearmed_book (book_at ready name) env params (target * scale) in
      if scale ≤? num 0
      then ready
      else add_event step (EventType.guard_rearmed name (req.0 * scale + req.1 * scale * env.price))
          (set_book name armed (record ready {
            idle_usdg = ready.idle_usdg - req.0 * scale;
            idle_nvda = ready.idle_nvda - req.1 * scale;
          }))

  module _ (params : Params R) (env : Env R) (scenario : List (ScenarioRow R)) (step : ℕ) where
    -- The guard's fees no longer cover its loss.
    unfoldable pub fee_il_pull : BookName → Book R → Bool
    fee_il_pull name book =
        let w =
          guard_fee_il_window book step (gate_hours params) (pips_of params name) name
            params.fee_share_exact scenario in
        params.guard_rule_fee_il
        && (book.guard_present
            && ((num 0 <? w.il_apr_bps)
                && (w.fee_apr_bps <? params.guard_fee_il_hurdle * w.il_apr_bps)))

    -- The bin of the hour from which the guard is out.
    unfoldable pub pull_bin : BookName → Book R → Option ℕ
    pull_bin name book =
        if fee_il_pull name book
        then some 0
        else first_guard_pull_bin (row_of env name).five_min_moves params.guard_pull_threshold_bps

    -- Pull the guard in a bin, where there is one.
    abbrev pub pull_step : BookName → Option ℕ → Portfolio R → Portfolio R
    pull_step name bin pf =
        let book = book_at pf name in
        let pulls = is_some bin && (book.guard_present && (num 0 <? book.guard_l)) in
        let fees =
          book_fee_for_hour book (row_of env name).minutes (pips_of params name)
            (if pulls then bin else none) params.fee_share_exact in
        accrue name fees (if pulls then pull_guard name env step (fee_il_pull name book) pf else pf)

    -- The re-arm signal is good, or not asked for.
    unfoldable pub rearm_signal_ok : BookName → Book R → Bool
    rearm_signal_ok name book =
        let w =
          book_fee_il_window book step (gate_hours params) (pips_of params name) name
            params.fee_share_exact scenario in
        not params.rearm_gate
        || ((w.il_apr_bps ≤? num 0) || (params.guard_fee_il_hurdle * w.il_apr_bps ≤? w.fee_apr_bps))

    -- `before` is the book at the start of the hour, which the signals are read from.
    abbrev pub rearm_step : BookName → (before : Book R) → Portfolio R → Portfolio R
    rearm_step name before pf =
        let book = book_at pf name in
        if rearm_due book step params
          && ((num 0 <? target_guard book) && rearm_signal_ok name before)
        then rearm_guard name env params step pf
        else pf

    -- A round of the loop over the books.
    unfoldable pub book_income : BookName → Portfolio R → Portfolio R
    book_income name pf =
        let book = book_at pf name in
        if not book.deployed
        then pf
        else rearm_step name book (pull_step name (pull_bin name book) pf)

    unfoldable pub portfolio_income : Portfolio R → Portfolio R
    portfolio_income pf =
        let start = record pf { last_events = [] } in
        let earned = book_income book_b (book_income book_a start) in
        let after =
          liquidate (arm_interest params env.price earned) env.sqrt_p env.price step params in
        let moded = record after { mode = mode_of after } in
        record moded { nav_before = portfolio_nav moded env.sqrt_p env.price }
