-- ===== src/FeeAllocator/Start.antt =====
-- `build_initial_state`, `p_metrics` and `run_model` of research/cadcad/fee_allocator/model.py. The
-- market of the initial state, an empty dictionary there, is all zeros: the first block of an hour
-- replaces it before it is read.
use nvda_tranched_arc.Prelude.{ℕ, Bool, true, false, if◌then◌else◌}
use nvda_tranched_arc.Number.{Number, ◌-◌, ◌/◌, ◌<?◌, num}
use nvda_tranched_arc.FeeAllocator.{
  Pools, Scenario, FeeParams, FeeState, Market, FeePolicy, fee_check, all_in_05, sum, norm,
}
use nvda_tranched_arc.FeeAllocator.Hour.{run_hours}

abbrev pub is_fee_check : FeePolicy → Bool
is_fee_check fee_check = true
is_fee_check _ = false

-- What `p_metrics` works out; the fields that it only copies are left out.
pub record FeeMetrics (R : Type 0) : Type 0 where
  pub fees_total : R
  pub net_after_il : R
  pub fee_ratio_15 : R
  pub fee_ratio_30 : R

module _ {R : Type 0} ⦃n : Number R⦄ where
  abbrev pub no_fees : Pools R
  no_fees = record { p05 = num 0; p15 = num 0; p30 = num 0 }

  abbrev pub no_market : Market R
  no_market = record { fee_rev = no_fees; capacity = no_fees; il_rate = num 0; hurdle_rate = num 0 }

  abbrev pub start_weights : FeeParams R → Pools R
  start_weights params =
      if is_fee_check params.policy then all_in_05 else norm params.static_weights

  unfoldable pub initial_state : FeeParams R → FeeState R
  initial_state params = record {
    step = 0;
    weights = start_weights params;
    targets = start_weights params;
    fees = no_fees;
    cum_costs = num 0;
    cum_il = num 0;
    nav = params.initial_nav;
    market = no_market;
  }

  unfoldable pub p_metrics : FeeParams R → FeeState R → FeeMetrics R
  p_metrics params s =
      let rev = s.market.fee_rev in
      record {
        fees_total = sum s.fees;
        net_after_il = s.nav - params.initial_nav - s.cum_il;
        fee_ratio_15 = if num 0 <? rev.p05 then rev.p15 / rev.p05 else num 0;
        fee_ratio_30 = if num 0 <? rev.p05 then rev.p30 / rev.p05 else num 0;
      }

  -- `run_model` over a number of hours, which is also the horizon.
  unfoldable pub fee_model : Scenario R → FeeParams R → ℕ → FeeState R
  fee_model rows params hours =
      let over = record params { horizon_hours = num hours } in
      run_hours rows over hours (initial_state over)
