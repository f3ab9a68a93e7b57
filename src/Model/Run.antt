-- ===== src/Model/Run.antt =====
-- The state of `build_initial_state`, `p_market`, the metrics and the wiring of
-- research/cadcad/allocator/model.py: the state of a run and what an hour does to it.
pub mod Peak
pub mod Identity
use Prim.Native.Nat.{◌+◌ as nat_add, min as nat_min, max as nat_max}
use nvda_tranched_arc.Prelude.{
  ℕ, zero, suc, Bool, true, false, Option, none, some, List, [], ◌∷◌, map, if◌then◌else◌,
}
use nvda_tranched_arc.Sequence.{length, get_or}
use nvda_tranched_arc.Number.{Number, ◌+◌, ◌-◌, ◌*◌, ◌/◌, ◌<?◌, num, max}
use nvda_tranched_arc.Lp.{Math}
use nvda_tranched_arc.Model.{Portfolio, Action, Event, EventType, ScenarioRow, Params, Env, book_at}
use nvda_tranched_arc.Model.Books.{book_value}
use nvda_tranched_arc.Model.Accounts.{portfolio_nav}
use nvda_tranched_arc.Model.Decision.{p_decision}
use nvda_tranched_arc.Model.Execute.{execute_action}
use nvda_tranched_arc.Model.Windows.{fee_il_streak}
use nvda_tranched_arc.Model.Income.{portfolio_income, pips_of, gate_hours}
use nvda_tranched_arc.Model.Marks.{BookMetric, p_marks}
use nvda_tranched_arc.Model.Start.{env_of, initial_portfolio}
use nvda_tranched_arc.Model.Ledger.{net_carry}

-- What `s_metrics` works out; the fields that it only copies are left out.
pub record HourMetrics (R : Type 0) : Type 0 where
  pub net_vs_hodl : R
  pub drawdown : R
  pub book_a_value : R
  pub book_b_value : R
  pub arm_equity : R
  pub arm_ltv : R
  -- `none` for infinity
  pub health_factor : Option R
  pub cum_net_carry : R
  pub cum_il_vs_hodl : R
  pub idle_value : R
  pub guard_pulls_hour : ℕ

pub record RunState (R : Type 0) : Type 0 where
  pub step : ℕ
  pub env : Env R
  pub portfolio : Portfolio R
  pub book_metrics : List (BookMetric R)
  pub decision : Action R
  pub nav : R
  pub hodl_nav : R
  pub peak_nav : R
  -- `none` for the empty dictionary
  pub metrics : Option (HourMetrics R)
  pub last_events : List (Event R)
  pub event_count : ℕ

abbrev pub is_pull : {R : Type 0} → EventType R → Bool
is_pull (EventType.guard_pulled name value fee_il) = true
is_pull _ = false

module _ {R : Type 0} ⦃n : Number R⦄ ⦃m : Math R⦄ where
  abbrev pub start_state : Params R → ScenarioRow R → RunState R
  start_state params row = record {
    step = 0;
    env = env_of params 0 row;
    portfolio = initial_portfolio params row;
    book_metrics = [];
    decision = Action.init;
    nav = params.initial_nav_usd;
    hodl_nav = params.initial_nav_usd;
    peak_nav = params.initial_nav_usd;
    metrics = none;
    last_events = [];
    event_count = 0;
  }

  -- The error of an empty scenario is `none`.
  unfoldable pub build_initial_state : List (ScenarioRow R) → Params R → Option (RunState R)
  build_initial_state [] params = none
  build_initial_state (row ∷ rows) params = some (start_state params row)

  -- `p_market` and `s_env`: the last row stands for every hour after it. The first row is given
  -- apart, since there is one.
  unfoldable pub market : Params R → ScenarioRow R → List (ScenarioRow R) → ℕ → Env R
  market params row rows step =
      env_of params step (get_or row (row ∷ rows) (nat_min step (length rows)))

  -- The streak that the policy `risk_fee_il` asks for.
  unfoldable pub streak_of : Params R → List (ScenarioRow R) → ℕ → Portfolio R → ℕ
  streak_of params scenario step pf =
      let name = pf.active_book in
      fee_il_streak (book_at pf name) scenario step (gate_hours params) (pips_of params name) name
        params.fee_il_hurdle params.fee_il_buffer_bps (nat_max 1 params.fee_il_confirm_hours)
        params.fee_share_exact

  unfoldable pub hodl_value : Portfolio R → (price : R) → R
  hodl_value pf price = pf.hodl_usdg + pf.hodl_nvda * price

  -- The pulls among the events of the hour.
  unfoldable pub count_pulls : List (Event R) → ℕ
  count_pulls [] = 0
  count_pulls (event ∷ events) =
      let rest = count_pulls events in if is_pull event.type then suc rest else rest

  unfoldable pub s_metrics : Params R → RunState R → HourMetrics R
  s_metrics params s =
      let pf = s.portfolio in
      let arm = pf.arm in
      let collateral = arm.nvda * s.env.price in
      let ltv = if num 0 <? collateral then arm.debt / collateral else num 0 in
      record {
        net_vs_hodl = s.nav - s.hodl_nav;
        drawdown = if num 0 <? s.peak_nav then s.nav / s.peak_nav - num 1 else num 0;
        book_a_value = book_value pf.first_book s.env.sqrt_p;
        book_b_value = book_value pf.second_book s.env.sqrt_p;
        arm_equity = arm.nvda * s.env.price + arm.usdg_lent - arm.debt - arm.bad_debt;
        arm_ltv = ltv;
        health_factor = if num 0 <? ltv then some (params.lltv / ltv) else none;
        cum_net_carry = net_carry pf.cum;
        cum_il_vs_hodl = s.nav - s.hodl_nav - net_carry pf.cum + pf.cum.liquidation_loss;
        idle_value = pf.idle_usdg + pf.idle_nvda * s.env.price;
        guard_pulls_hour = count_pulls pf.last_events;
      }

  -- The first five of `PSUBS`: the hour's row, its income, the marks, the decision and the action.
  abbrev pub act : Params R → ScenarioRow R → List (ScenarioRow R) → RunState R → RunState R
  act params row rows s =
      let scenario = row ∷ rows in
      let env = market params row rows s.step in
      let earned = portfolio_income params env scenario s.step s.portfolio in
      let marks = p_marks params env scenario s.step earned in
      let decision =
        p_decision earned env (map (λ (b : BookMetric R). b.candidate) marks) s.step
          (streak_of params scenario s.step earned) params in
      record s {
        env = env;
        portfolio = execute_action params env decision s.step earned;
        book_metrics = marks;
        decision = decision;
      }

  -- `s_nav`, `s_hodl_nav` and `s_peak_nav`
  abbrev pub value_up : RunState R → RunState R
  value_up s =
      let nav = portfolio_nav s.portfolio s.env.sqrt_p s.env.price in
      record s {
        nav = nav;
        hodl_nav = hodl_value s.portfolio s.env.price;
        peak_nav = max s.peak_nav nav;
      }

  -- `s_metrics`, `s_last_events`, `s_event_count` and `s_step`
  abbrev pub close_hour : Params R → RunState R → RunState R
  close_hour params s = record s {
    metrics = some (s_metrics params s);
    last_events = s.portfolio.last_events;
    event_count = nat_add s.event_count (length s.portfolio.last_events);
    step = suc s.step;
  }

  -- An hour: all of `PSUBS`.
  unfoldable pub hour_step :
      Params R → ScenarioRow R → List (ScenarioRow R) → RunState R → RunState R
  hour_step params row rows s = close_hour params (value_up (act params row rows s))

  unfoldable pub hour_steps :
      Params R → ScenarioRow R → List (ScenarioRow R) → ℕ → RunState R → RunState R
  hour_steps params row rows zero s = s
  hour_steps params row rows (suc k) s = hour_steps params row rows k (hour_step params row rows s)

  -- `run_model`: as many hours as asked for, or as the scenario has.
  unfoldable pub run_model : List (ScenarioRow R) → Params R → Option ℕ → Option (RunState R)
  unfolding build_initial_state
  run_model [] params hours = none
  run_model (row ∷ rows) params none =
      some (hour_steps params row rows (suc (length rows)) (start_state params row))
  run_model (row ∷ rows) params (some hours) =
      some (hour_steps params row rows hours (start_state params row))
