-- ===== src/Tests/FeeRuns.antt =====
-- The fee allocator on a sample scenario of two rows.
use nvda_tranched_arc.Prelude.{◌≡◌, refl, false, [], ◌∷◌}
use nvda_tranched_arc.Number.{◌+◌, ◌-◌, ◌/◌, ◌≤◌, num}
use nvda_tranched_arc.Number.Rational.{ℚ, rational}
use nvda_tranched_arc.Number.RationalLaws.{exact}
use nvda_tranched_arc.Allocator.{high}
use nvda_tranched_arc.FeeAllocator.{
  Pools, Row, Scenario, FeeParams, FeeState, Market, fee_check, all_in_05,
}
use nvda_tranched_arc.FeeAllocator.Gate.{
  pool_b_risk, gate_reasons, trailing_volume, trailing_rows, sum_rows, count_rows, clamp_index,
}
use nvda_tranched_arc.FeeAllocator.Hour.{gate, p_targets}
use nvda_tranched_arc.FeeAllocator.Allocation.{IsAllocation, p_targets-gated, fee_model-IsSound}
use nvda_tranched_arc.FeeAllocator.Start.{p_metrics, fee_model}

abbrev nothing : Pools ℚ
nothing = record { p05 = num 0; p15 = num 0; p30 = num 0 }

abbrev thin_row : Row ℚ
thin_row = record {
  pool_a_fees_usd = num 40;
  pool_b_fees_usd = num 30;
  volume_usd = num 900;
  volatility_bps = num 24;
  max5m_move_bps = num 50;
  guard_pulls = 0;
  depeg_proxy = num 0;
  depeg_paused = false;
}

abbrev sample_rows : Scenario ℚ
sample_rows = record { first = thin_row; rest = thin_row ∷ [] }

abbrev sample_params : FeeParams ℚ
sample_params = record {
  initial_nav = num 100_000;
  fee_rate = record {
    p05 = num 5 / num 10_000;
    p15 = num 15 / num 10_000;
    p30 = num 3 / num 1_000;
  };
  capacity = record { p05 = num 8_066_000; p15 = num 539_100; p30 = num 539_100 };
  vol15_mult = num 2;
  vol30_mult = num 1;
  policy = fee_check;
  static_weights = all_in_05;
  weight_cap_30 = num 3 / num 10;
  share_cap_30 = num 5 / num 100;
  rebalance_hours = 24;
  move_step = num 5 / num 100;
  switch_cost_bps = num 5;
  gas_cost = num 2 / num 100;
  fee_buffer_usd = num 25;
  risk_min_volume_usd = num 2_000;
  risk_volume_window_hours = 3;
  risk_max_volatility_bps = num 300;
  risk_guard_pull_threshold_bps = num 200;
  risk_max_guard_pulls = 2;
  risk_depeg_bps = num 200;
  eval_hours = 168;
  il_total = num 972;
  hurdle_total = num 1_696;
  horizon_hours = num 1_080;
}

abbrev no_market : Market ℚ
no_market = record { fee_rev = nothing; capacity = nothing; il_rate = num 0; hurdle_rate = num 0 }

abbrev sample_state : FeeState ℚ
sample_state = record {
  step = 0;
  weights = record { p05 = num 4 / num 5; p15 = num 0; p30 = num 1 / num 5 };
  targets = all_in_05;
  fees = nothing;
  cum_costs = num 0;
  cum_il = num 0;
  nav = num 100_000;
  market = no_market;
}

sample-IsAllocation : IsAllocation sample_state.weights
sample-IsAllocation = record {
  p05_nonneg = refl;
  p15_nonneg = refl;
  p30_nonneg = refl;
  total = exact.le_antisymm _ _ refl refl;
}

sample_gate : gate sample_rows sample_params sample_state ≡ high
unfolding pool_b_risk gate_reasons trailing_volume trailing_rows sum_rows count_rows clamp_index
sample_gate = refl

p_targets-gated_example :
    (p_targets sample_rows sample_params fee_check sample_state).p30 ≤ num 1 / num 5
p_targets-gated_example =
    p_targets-gated exact sample_rows sample_params sample_state sample-IsAllocation refl
      sample_gate

fee_model-IsSound_example :
    let s = fee_model sample_rows sample_params 30 in
    IsAllocation s.weights
    × ((p_metrics sample_params s).net_after_il
        ≡ sample_params.initial_nav
          + (p_metrics sample_params s).fees_total
          - s.cum_costs
          - sample_params.initial_nav
          - s.cum_il)
fee_model-IsSound_example = fee_model-IsSound exact sample_rows sample_params 30
