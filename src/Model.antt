-- ===== src/Model.antt =====
-- The state of research/cadcad/allocator/model.py: its dictionaries as records. The step at which
-- the guard was last pulled is `none` for the code's -1, and a re-arm delay is `none` where the code
-- has a negative number, which turns re-arming off.
pub mod Books
pub mod Accounts
pub mod Funding
pub mod Execute
pub mod Liquidate
pub mod Policy
pub mod Decision
pub mod Fees
pub mod Windows
pub mod Income
pub mod Ledger
pub mod Minutes
pub mod Marks
pub mod Start
pub mod Run
use nvda_tranched_arc.Number.{Number, ◌/◌, num}
use nvda_tranched_arc.Prelude.{ℕ, suc, Bool, true, false, Option, none, some, List}
use Prim.Native.Nat.{◌-◌}
use nvda_tranched_arc.Allocator.{BookName, book_a, book_b, Mode}

pub record Book (R : Type 0) : Type 0 where
  pub deployed : Bool
  pub base_l : R
  pub guard_l : R
  pub base_lo : R
  pub base_hi : R
  pub guard_lo : R
  pub guard_hi : R
  pub entry_tick : R
  pub fees : R
  pub guard_present : Bool
  pub last_pull_step : Option ℕ
  pub target_base_l : R
  pub target_guard_l : R
  pub cum_fees : R
  pub base_skew_ticks : R

pub record Arm (R : Type 0) : Type 0 where
  pub nvda : R
  pub debt : R
  pub usdg_lent : R
  pub bad_debt : R

pub record Cum (R : Type 0) : Type 0 where
  pub fees : R
  pub guard_fees : R
  pub arm_interest : R
  pub borrow_cost : R
  pub nvda_yield : R
  pub gas : R
  pub switch_cost : R
  pub swap_cost : R
  pub liquidation_loss : R
  pub guard_pulls : R
  pub actions : R

-- The names of the actions, with the fields of their dictionaries but the message.
pub data Action (R : Type 0) : Type 0 where
  init hold recall_book hodl_recall recenter_book : Action R
  allocate_usdg allocate_nvda borrow_usdg repay withdraw_nvda deallocate_usdg : R → Action R
  fund_book switch_book : BookName → Action R

-- The events with their amounts, without the message.
pub data EventType (R : Type 0) : Type 0 where
  allocated_usdg allocated_nvda borrowed withdrawn deallocated : R → EventType R
  unknown : EventType R
  recalled hodl_recalled : R → EventType R
  repaid : (amount_usd from_idle_usd from_lend_usd : R) → EventType R
  funded recentered : BookName → R → EventType R
  switched : BookName → (value_usd switch_cost_usd : R) → EventType R
  guard_pulled : BookName → (guard_value_usd : R) → (fee_il : Bool) → EventType R
  guard_rearmed : BookName → R → EventType R
  liquidation :
      (hf collateral_value debt seized repaid_usd remaining_collateral bad_debt loss : R)
      → EventType R

pub record Event (R : Type 0) : Type 0 where
  pub step : ℕ
  pub type : EventType R

pub record Portfolio (R : Type 0) : Type 0 where
  pub active_book : BookName
  pub first_book : Book R
  pub second_book : Book R
  pub idle_usdg : R
  pub idle_nvda : R
  pub arm : Arm R
  pub mode : Mode
  pub last_action : Action R
  pub last_events : List (Event R)
  pub last_costs : R
  pub nav_before : R
  pub nav_after : R
  pub hodl_usdg : R
  pub hodl_nvda : R
  pub cum : Cum R
  pub hodl_mode : Bool

-- One minute of a pool. The code keeps the fields of the minutes in parallel lists.
pub record Minute (R : Type 0) : Type 0 where
  pub tick : Option R
  pub volume : R
  pub vol_over_l : R
  pub vol_over_l2 : R

-- The `risk` of a pool's hour.
pub record RiskRow (R : Type 0) : Type 0 where
  pub volume_usd : R
  pub volatility_bps : R
  pub tick_first : R
  pub tick_last : R
  pub pool_liquidity_usd : R

-- A pool's hour in the scenario.
pub record BookRow (R : Type 0) : Type 0 where
  pub minutes : List (Minute R)
  pub five_min_moves : List R
  pub risk : RiskRow R
  pub volume_usd : R
  pub pool_l_mean : R
  pub pool_l_last : R
  pub depeg_proxy : R

-- An hour of the scenario; its quoted price is not read, since the tick's price replaces it.
pub record ScenarioRow (R : Type 0) : Type 0 where
  pub tick : R
  pub sqrt_p : R
  pub first_row : BookRow R
  pub second_row : BookRow R

-- The values of `depeg_mode`.
pub data DepegMode : Type 0 where
  off proxy shock : DepegMode

-- The values of `policy`.
pub data PolicyName : Type 0 where
  allocator hodl always_arms risk_only risk_fee_il always_a always_b : PolicyName

-- The parts of `params` that the modelled functions read.
pub record Params (R : Type 0) : Type 0 where
  pub fee_a : R
  pub fee_b : R
  pub initial_nav_usd : R
  pub book_capital_usd : R
  pub guard_share : R
  pub base_width_ticks : R
  pub guard_width_ticks : R
  pub range_half_width_bps : R
  pub ltv_bps : R
  pub max_ltv_bps : R
  pub hard_cap_bps : R
  pub morpho_share_bps : R
  pub nvda_step_bps : R
  pub book_step_bps : R
  pub switch_buffer_bps : R
  pub max_guard_pulls : ℕ
  pub guard_pull_threshold_bps : R
  pub guard_cooldown_hours : ℕ
  pub guard_rearm_delay_hours : Option ℕ
  pub risk_max_volatility_bps : R
  pub risk_min_volume_usd : R
  pub risk_min_fee_apr_bps : R
  pub min_pool_liquidity_usd : R
  pub arm_usdg_apr : R
  pub arm_nvda_apr : R
  pub arm_borrow_apr : R
  pub nvda_apr_is_net : Bool
  pub arm_abs_cap_usd : R
  pub arm_rel_cap_bps : R
  pub usdg_lend_abs_cap_usd : R
  pub usdg_lend_rel_cap_bps : R
  pub borrow_liquidity_usd : R
  pub max_borrow_per_call_usd : R
  pub lltv : R
  pub min_health_factor : R
  pub sentinel_enabled : Bool
  pub gas_cost_usd : R
  pub switch_cost_bps : R
  pub funding_mode_swap : Bool
  pub swap_cost_bps : R
  pub base_skew_inventory : Bool
  pub base_skew_max_ticks : ℕ
  pub recenter_threshold_bps : R
  pub recenter_gas_multiplier : R
  pub rearm_gate : Bool
  pub guard_rule_fee_il : Bool
  pub fee_share_exact : Bool
  pub surplus_sweep : Bool
  pub inventory_reserve_usd : R
  pub inventory_reserve_pct : R
  pub surplus_nvda_min_usd : R
  pub surplus_usdg_min_usd : R
  pub surplus_borrow : Bool
  pub fund_book_bps : R
  pub liquidation_bonus_bps : R
  pub max_borrow_apr_bps : R
  pub delever_bps : R
  pub fix_empty_book_guard : Bool
  pub policy : PolicyName
  pub warmup_hours : ℕ
  pub allocator_interval_hours : ℕ
  pub fee_il_confirm_hours : ℕ
  pub opportunity_window_hours : ℕ
  pub opportunity_check_hours : ℕ
  pub opportunity_buffer_bps : R
  pub opportunity_min_net_apr_bps : R
  pub fee_il_hurdle : R
  pub fee_il_window_hours : ℕ
  pub fee_il_buffer_bps : R
  pub guard_fee_il_hurdle : R
  pub risk_window_minutes : ℕ
  pub risk_use_rolling : Bool
  pub risk_window_scale_floor : Bool
  pub risk_window_scale_vol : Bool
  pub book_b_min_volume_window_usd : R
  pub book_b_volume_window_hours : ℕ
  pub book_b_max_share : R
  pub starts_in_second : Bool
  pub depeg_mode : DepegMode
  pub depeg_start : ℕ
  pub depeg_hours : ℕ
  pub controller_paused : Bool
  pub switch_frozen : Bool
  pub fix_hypothetical_range : Bool

-- The current hour: the scenario's row, the price of its tick and the pauses.
pub record Env (R : Type 0) : Type 0 where
  pub tick : R
  pub sqrt_p : R
  pub price : R
  pub depeg_paused : Bool
  pub controller_paused : Bool
  pub switch_frozen : Bool
  pub first_row : BookRow R
  pub second_row : BookRow R

-- `step - last_pull_step`, where no pull counts as step -1.
unfoldable pub hours_since : ℕ → Option ℕ → ℕ
hours_since step none = suc step
hours_since step (some pulled) = step - pulled

module _ {R : Type 0} where
  -- `env["bookA" if name == 0 else "bookB"]`
  abbrev pub row_of : Env R → BookName → BookRow R
  row_of env book_a = env.first_row
  row_of env book_b = env.second_row

  abbrev pub book_at : Portfolio R → BookName → Book R
  book_at pf book_a = pf.first_book
  book_at pf book_b = pf.second_book

  abbrev pub set_book : BookName → Book R → Portfolio R → Portfolio R
  set_book book_a b pf = record pf { first_book = b }
  set_book book_b b pf = record pf { second_book = b }

module _ {R : Type 0} ⦃n : Number R⦄ where
  -- `default_params`, for the parameters that are modelled.
  abbrev pub default_params : Params R
  default_params = record {
    fee_a = num 500;
    fee_b = num 3_000;
    initial_nav_usd = num 10_000;
    book_capital_usd = num 10_000;
    guard_share = num 1 / num 2;
    base_width_ticks = num 6_000;
    guard_width_ticks = num 600;
    range_half_width_bps = num 1_000;
    ltv_bps = num 2_937;
    max_ltv_bps = num 6_250;
    hard_cap_bps = num 3_000;
    morpho_share_bps = num 8_000;
    nvda_step_bps = num 1_000;
    book_step_bps = num 2_500;
    switch_buffer_bps = num 500;
    max_guard_pulls = 2;
    guard_pull_threshold_bps = num 200;
    guard_cooldown_hours = 0;
    guard_rearm_delay_hours = some 1;
    risk_max_volatility_bps = num 300;
    risk_min_volume_usd = num 10_000;
    risk_min_fee_apr_bps = num 0;
    min_pool_liquidity_usd = num 10_000;
    arm_usdg_apr = num 3 / num 100;
    arm_nvda_apr = num 3 / num 100;
    arm_borrow_apr = num 3 / num 100;
    nvda_apr_is_net = false;
    arm_abs_cap_usd = num 10_000;
    arm_rel_cap_bps = num 2_000;
    usdg_lend_abs_cap_usd = num 10_000;
    usdg_lend_rel_cap_bps = num 2_000;
    borrow_liquidity_usd = num 15_000;
    max_borrow_per_call_usd = num 10_000;
    lltv = num 625 / num 1_000;
    min_health_factor = num 3 / num 2;
    sentinel_enabled = true;
    gas_cost_usd = num 2 / num 100;
    switch_cost_bps = num 0;
    funding_mode_swap = false;
    swap_cost_bps = num 0;
    base_skew_inventory = false;
    base_skew_max_ticks = 0;
    recenter_threshold_bps = num 0;
    recenter_gas_multiplier = num 2;
    rearm_gate = false;
    guard_rule_fee_il = false;
    fee_share_exact = false;
    surplus_sweep = false;
    inventory_reserve_usd = num 1_000;
    inventory_reserve_pct = num 1 / num 10;
    surplus_nvda_min_usd = num 250;
    surplus_usdg_min_usd = num 250;
    surplus_borrow = true;
    fund_book_bps = num 9_000;
    liquidation_bonus_bps = num 500;
    max_borrow_apr_bps = num 3_000;
    delever_bps = num 1_000;
    fix_empty_book_guard = false;
    policy = allocator;
    warmup_hours = 0;
    allocator_interval_hours = 1;
    fee_il_confirm_hours = 1;
    opportunity_window_hours = 0;
    opportunity_check_hours = 1;
    opportunity_buffer_bps = num 500;
    opportunity_min_net_apr_bps = num 0;
    fee_il_hurdle = num 1;
    fee_il_window_hours = 0;
    fee_il_buffer_bps = num 500;
    guard_fee_il_hurdle = num 1;
    risk_window_minutes = 36;
    risk_use_rolling = false;
    risk_window_scale_floor = true;
    risk_window_scale_vol = true;
    book_b_min_volume_window_usd = num 0;
    book_b_volume_window_hours = 3;
    book_b_max_share = num 1;
    starts_in_second = false;
    depeg_mode = off;
    depeg_start = 0;
    depeg_hours = 0;
    controller_paused = false;
    switch_frozen = false;
    fix_hypothetical_range = false;
  }
