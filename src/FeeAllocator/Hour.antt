-- ===== src/FeeAllocator/Hour.antt =====
-- The policies and state updates of research/cadcad/fee_allocator/model.py, and an hour of its
-- update blocks: the updates of a block all read the state before the block.
use Prim.Native.Nat.{◌%◌, max as nat_max}
use nvda_tranched_arc.Prelude.{ℕ, zero, suc, ◌&&◌, if◌then◌else◌, ltb}
use nvda_tranched_arc.Number.{Number, ◌+◌, ◌-◌, ◌*◌, ◌/◌, ◌<?◌, ◌≤?◌, num, min, max, abs}
use nvda_tranched_arc.Allocator.{Risk, normal, high}
use nvda_tranched_arc.FeeAllocator.{
  Pools, Scenario, FeeParams, FeeState, Market, FeePolicy, static, all_05, all_15, all_30,
  fee_check, unknown, all_in_05, sum, norm, next_weights, fee_switch_edge, rebalanced,
}
use nvda_tranched_arc.FeeAllocator.Gate.{
  row_at, clamp_index, trailing_rows, sum_rows, count_rows, pool_b_risk,
}

module _ {R : Type 0} ⦃n : Number R⦄ (rows : Scenario R) (params : FeeParams R) where
  unfoldable pub p_market : FeeState R → Market R
  p_market s =
      let row = row_at rows (clamp_index rows s.step) in
      let horizon = max (num 1) params.horizon_hours in
      record {
        fee_rev = record {
          p05 = row.pool_a_fees_usd;
          p15 =
              row.pool_b_fees_usd * (params.fee_rate.p15 / params.fee_rate.p30) * params.vol15_mult;
          p30 = row.pool_b_fees_usd * params.vol30_mult;
        };
        capacity = params.capacity;
        il_rate = params.il_total / horizon / params.initial_nav;
        hurdle_rate = params.hurdle_total / horizon / params.initial_nav;
      }

  -- The edge of holding a weight in the 0.30 pool, over the trailing window's average fees.
  unfoldable pub edge_of : FeeState R → R → R
  edge_of s candidate =
      let window = trailing_rows rows (clamp_index rows s.step) params.eval_hours in
      let f05 = sum_rows (λ r. r.pool_a_fees_usd) (num 0) window / count_rows window in
      let f30 =
        sum_rows (λ r. r.pool_b_fees_usd) (num 0) window / count_rows window * params.vol30_mult in
      fee_switch_edge candidate (max (num 1) s.nav) f05 f30 s.market.capacity.p05
        s.market.capacity.p30 (num params.eval_hours) params.switch_cost_bps params.gas_cost
        params.fee_buffer_usd

  -- `w_target`
  abbrev pub target_weight : FeeState R → R
  target_weight s = min params.weight_cap_30 (
      max (num 0) (
        let nav = max (num 1) s.nav in
        if num 0 <? nav
        then params.share_cap_30 * s.market.capacity.p30 / (nav * (num 1 - params.share_cap_30))
        else num 0))

  abbrev pub step_down : R → R
  step_down w = max (num 0) (w - params.move_step)

  -- The new 0.30 weight by the gate's risk.
  unfoldable pub gated_weight : Risk → FeeState R → R
  gated_weight high s = step_down s.weights.p30
  gated_weight normal s =
      let w = s.weights.p30 in
      if num 0 <? edge_of s (target_weight s)
      then target_weight s
      else if (edge_of s w <? num 0) && (num 0 <? w)
      then step_down w
      else w

  abbrev pub gate : FeeState R → Risk
  gate s = pool_b_risk rows (clamp_index rows s.step) (max (num 1) s.nav) params s.weights.p30

  unfoldable pub p_targets : FeePolicy → FeeState R → Pools R
  p_targets static s = norm params.static_weights
  p_targets all_05 s = all_in_05
  p_targets all_15 s = record { p05 = num 0; p15 = num 1; p30 = num 0 }
  p_targets all_30 s = record { p05 = num 0; p15 = num 0; p30 = num 1 }
  p_targets fee_check s =
      if ltb (s.step % nat_max 1 params.rebalance_hours) 1
      then rebalanced s.weights (gated_weight (gate s) s)
      else s.weights
  p_targets unknown s = s.weights

  unfoldable pub s_costs : FeeState R → Pools R → R
  s_costs s new =
      let moved =
        sum (record {
          p05 = abs (new.p05 - s.weights.p05);
          p15 = abs (new.p15 - s.weights.p15);
          p30 = abs (new.p30 - s.weights.p30);
        })
        * s.nav in
      if moved ≤? num 1 / num 1_000_000_000
      then s.cum_costs
      else s.cum_costs + (moved * params.switch_cost_bps / num 10_000 + params.gas_cost)

  -- The fees after an hour of one pool.
  unfoldable pub accrued : (nav weight capacity fee_rev fees : R) → R
  accrued nav weight capacity fee_rev fees =
      let capital = weight * max (num 0) nav in
      let share = if num 0 <? capital + capacity then capital / (capital + capacity) else num 0 in
      fees + fee_rev * share

  unfoldable pub s_fees : FeeState R → Pools R
  s_fees s =
      let w = s.weights in
      let c = s.market.capacity in
      let v = s.market.fee_rev in
      record {
        p05 = accrued s.nav w.p05 c.p05 v.p05 s.fees.p05;
        p15 = accrued s.nav w.p15 c.p15 v.p15 s.fees.p15;
        p30 = accrued s.nav w.p30 c.p30 v.p30 s.fees.p30;
      }

  -- The market block, the block of the targets, weights and costs, and that of fees and IL.
  abbrev pub with_market : FeeState R → FeeState R
  with_market s = record s { market = p_market s }

  abbrev pub with_targets : FeeState R → FeeState R
  with_targets s =
      let targets = p_targets params.policy s in
      let new = next_weights s.weights targets params.move_step in
      record s { targets = targets; weights = new; cum_costs = s_costs s new }

  abbrev pub with_fees : FeeState R → FeeState R
  with_fees s = record s { fees = s_fees s; cum_il = s.cum_il + s.market.il_rate * s.nav }

  -- `s_nav`
  abbrev pub with_nav : FeeState R → FeeState R
  with_nav s = record s { nav = params.initial_nav + sum s.fees - s.cum_costs }

  unfoldable pub run_hour : FeeState R → FeeState R
  run_hour s =
      let after = with_nav (with_fees (with_targets (with_market s))) in
      record after { step = suc after.step }

  unfoldable pub run_hours : ℕ → FeeState R → FeeState R
  run_hours zero s = s
  run_hours (suc hours) s = run_hours hours (run_hour s)
