-- ===== src/FeeAllocator.antt =====
-- research/cadcad/fee_allocator/model.py: its state, its parameters and the weights. A scenario is a
-- first row and the rows after it, since the code reads a row of an empty one as an error.
pub mod Gate
pub mod Hour
pub mod Start
pub mod Allocation
use nvda_tranched_arc.Prelude.{ℕ, Bool, List, if◌then◌else◌}
use nvda_tranched_arc.Number.{Number, ◌+◌, ◌-◌, ◌*◌, ◌/◌, neg, ◌<?◌, ◌≤?◌, num, min, max}

-- A value for each of `POOLS`.
pub record Pools (R : Type 0) : Type 0 where
  pub p05 : R
  pub p15 : R
  pub p30 : R

-- What the model reads of a scenario row.
pub record Row (R : Type 0) : Type 0 where
  pub pool_a_fees_usd : R
  pub pool_b_fees_usd : R
  pub volume_usd : R
  pub volatility_bps : R
  pub max5m_move_bps : R
  pub guard_pulls : ℕ
  pub depeg_proxy : R
  pub depeg_paused : Bool

pub record Scenario (R : Type 0) : Type 0 where
  pub first : Row R
  pub rest : List (Row R)

pub data FeePolicy : Type 0 where
  static all_05 all_15 all_30 fee_check unknown : FeePolicy

pub record FeeParams (R : Type 0) : Type 0 where
  pub initial_nav : R
  pub fee_rate : Pools R
  pub capacity : Pools R
  pub vol15_mult : R
  pub vol30_mult : R
  pub policy : FeePolicy
  pub static_weights : Pools R
  pub weight_cap_30 : R
  pub share_cap_30 : R
  pub rebalance_hours : ℕ
  pub move_step : R
  pub switch_cost_bps : R
  pub gas_cost : R
  pub fee_buffer_usd : R
  pub risk_min_volume_usd : R
  pub risk_volume_window_hours : ℕ
  pub risk_max_volatility_bps : R
  pub risk_guard_pull_threshold_bps : R
  pub risk_max_guard_pulls : ℕ
  pub risk_depeg_bps : R
  -- A whole number of hours, as the default of 168.0 is.
  pub eval_hours : ℕ
  pub il_total : R
  pub hurdle_total : R
  pub horizon_hours : R

pub record Market (R : Type 0) : Type 0 where
  pub fee_rev : Pools R
  pub capacity : Pools R
  pub il_rate : R
  pub hurdle_rate : R

pub record FeeState (R : Type 0) : Type 0 where
  pub step : ℕ
  pub weights : Pools R
  pub targets : Pools R
  pub fees : Pools R
  pub cum_costs : R
  pub cum_il : R
  pub nav : R
  pub market : Market R

module _ {R : Type 0} ⦃n : Number R⦄ where
  abbrev pub all_in_05 : Pools R
  all_in_05 = record { p05 = num 1; p15 = num 0; p30 = num 0 }

  -- `sum` over the pools, which starts at zero.
  abbrev pub sum : Pools R → R
  sum v = num 0 + v.p05 + v.p15 + v.p30

  abbrev pub map_pools : (R → R) → Pools R → Pools R
  map_pools f v = record { p05 = f v.p05; p15 = f v.p15; p30 = f v.p30 }

  -- `_norm`
  unfoldable pub norm : Pools R → Pools R
  norm weights =
      let total = sum (map_pools (max (num 0)) weights) in
      if total ≤? num 0 then all_in_05 else map_pools (λ w. max (num 0) w / total) weights

  -- One weight moves towards its target by at most a step.
  abbrev pub moved_weight : (step old target : R) → R
  moved_weight step old target = old + max (neg step) (min step (target - old))

  -- `_next_weights`
  unfoldable pub next_weights : (old targets : Pools R) → R → Pools R
  next_weights old targets step = norm (record {
    p05 = moved_weight step old.p05 targets.p05;
    p15 = moved_weight step old.p15 targets.p15;
    p30 = moved_weight step old.p30 targets.p30;
  })

  unfoldable pub fee_switch_edge :
      (w nav fee_a_hour fee_b_hour cap_a cap_b eval_hours switch_bps gas buffer_usd : R) → R
  fee_switch_edge w nav fee_a_hour fee_b_hour cap_a cap_b eval_hours switch_bps gas buffer_usd =
      let tiny = num 1 / num 1_000_000_000 in
      let w' = max (num 0) (min (num 1) w) in
      let nav' = max (num 0) nav in
      let capital_b = w' * nav' in
      let s_a = nav' / (nav' + max tiny cap_a) in
      let s_b = if num 0 <? capital_b then capital_b / (capital_b + max tiny cap_b) else num 0 in
      let fees_a = w' * fee_a_hour * s_a * eval_hours in
      let fees_b = fee_b_hour * s_b * eval_hours in
      let cost = w' * nav' * switch_bps / num 10_000 + (if num 0 <? w' then gas else num 0) in
      fees_b - fees_a - cost - buffer_usd

  -- The 0.05 weight takes the rest.
  unfoldable pub rebalanced : Pools R → R → Pools R
  rebalanced old p30 =
      norm (record { p05 = max (num 0) (num 1 - old.p15 - p30); p15 = old.p15; p30 = p30 })
