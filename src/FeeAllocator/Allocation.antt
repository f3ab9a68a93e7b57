-- ===== src/FeeAllocator/Allocation.antt =====
-- What an hour of research/cadcad/fee_allocator/model.py keeps.
use Prim.Native.Nat.{◌%◌, max as nat_max}
use nvda_tranched_arc.Prelude.{
  ltb, ℕ, zero, suc, false, ◌≡◌, refl, ◌∙◌, sym, ap, Bool-cases, inl, inr, arith, either,
}
use nvda_tranched_arc.Number.{Number, ◌+◌, ◌-◌, ◌/◌, ◌<◌, ◌≤◌, ◌≤?◌, num, max, IsExact}
use nvda_tranched_arc.Number.Algebra.{ring, add-div, div_self, mul-div_cancel, mul-one}
use nvda_tranched_arc.Number.Order.{le-max_left, max-le, lt_of_not-le, num_nonneg, le_of_not-lt}
use nvda_tranched_arc.Allocator.{high}
use nvda_tranched_arc.FeeAllocator.{
  Pools, Scenario, FeeParams, FeeState, all_in_05, fee_check, sum, map_pools, norm, next_weights,
  rebalanced,
}
use nvda_tranched_arc.FeeAllocator.Start.{fee_model, initial_state, p_metrics, is_fee_check}
use nvda_tranched_arc.FeeAllocator.Hour.{
  gate, gated_weight, p_targets, run_hour, run_hours, step_down,
}

-- Weights that share out the whole.
pub record IsAllocation {R : Type 0} ⦃n : Number R⦄ (w : Pools R) : Type 0 where
  pub p05_nonneg : num 0 ≤ w.p05
  pub p15_nonneg : num 0 ≤ w.p15
  pub p30_nonneg : num 0 ≤ w.p30
  pub total : w.p05 + w.p15 + w.p30 ≡ num 1

-- The weights are an allocation, and the value is the initial one with the fees less the costs.
pub record IsSound {R : Type 0} ⦃n : Number R⦄ (params : FeeParams R) (s : FeeState R)
    : Type 0 where
  pub allocation : IsAllocation s.weights
  pub value : s.nav ≡ params.initial_nav + sum s.fees - s.cum_costs

module _ {R : Type 0} ⦃n : Number R⦄ (e : IsExact R) where
  open e use {ordered, le_antisymm, zero-add}
  open e.ordered use {le_refl, le_trans, num-lt, div_nonneg, sub_nonneg, sub-le, add_nonneg}

  same_total : (a b c : R) → a + b + c ≡ num 0 + a + b + c
  same_total a b c = simp (ring, e)

  shares_sum :
      (a b c : R)
      → num 0 < num 0 + a + b + c
      → let t = num 0 + a + b + c in a / t + b / t + c / t ≡ num 1
  shares_sum a b c h =
      let t = num 0 + a + b + c in
      sym (add-div e (a + b) c t ∙ ap (λ x. x + c / t) (add-div e a b t))
      ∙ ap (λ x. x / t) (same_total a b c)
      ∙ div_self e t h

  norm-IsAllocation : (w : Pools R) → IsAllocation (norm w)
  unfolding norm
  norm-IsAllocation w = elim (Bool-cases (sum (map_pools (max (num 0)) w) ≤? num 0)) [
    | inl h ↦ rw h (record {
      p05_nonneg = num_nonneg ordered 1;
      p15_nonneg = num_nonneg ordered 0;
      p30_nonneg = num_nonneg ordered 0;
      total = simp (ring, e);
    })
    | inr h ↦
        let t = sum (map_pools (max (num 0)) w) in
        let pos = lt_of_not-le ordered (num 0) t h in
        rw h (record {
          p05_nonneg = div_nonneg (max (num 0) w.p05) t (le-max_left ordered (num 0) w.p05) pos;
          p15_nonneg = div_nonneg (max (num 0) w.p15) t (le-max_left ordered (num 0) w.p15) pos;
          p30_nonneg = div_nonneg (max (num 0) w.p30) t (le-max_left ordered (num 0) w.p30) pos;
          total = shares_sum (max (num 0) w.p05) (max (num 0) w.p15) (max (num 0) w.p30) pos;
        })
  ]

  max_keeps : (a : R) → num 0 ≤ a → max (num 0) a ≡ a
  unfolding max
  max_keeps a h = ground (arith, le_antisymm (num 0) a, le_of_not-lt ordered a (num 0))

  rest_sum : (a b : R) → num 0 + (num 1 - a - b) + a + b ≡ num 1
  rest_sum a b = simp (ring, e)

  div_one : (a : R) → a / num 1 ≡ a
  div_one a = rw (mul-one e a) at (mul-div_cancel e a (num 1) (num-lt 0 1 (omega arith)))

  one_pos : (num {R = R} 1 ≤? num 0) ≡ false
  one_pos = ground (arith, num-lt 0 1 (omega arith), e.ordered.lt-eq-not-le (num 0) (num 1))

  -- Where the weights leave room, nothing is scaled.
  rebalanced_exact :
      (old : Pools R) (p : R)
      → num 0 ≤ old.p15
      → num 0 ≤ p
      → num 0 ≤ num 1 - old.p15 - p
      → (rebalanced old p).p30 ≡ p
  unfolding rebalanced norm
  rebalanced_exact old p h k l =
      rw
        (
          max_keeps (num 1 - old.p15 - p) l,
          max_keeps old.p15 h,
          max_keeps p k,
          max_keeps (num 1 - old.p15 - p) l,
          rest_sum old.p15 p,
          one_pos,
        )
        (div_one p)

  module _ (rows : Scenario R) (params : FeeParams R) where
    run_hour-IsSound : (s : FeeState R) → IsSound params (run_hour rows params s)
    unfolding run_hour next_weights
    run_hour-IsSound s = record { allocation = norm-IsAllocation _; value = refl }

    -- The hours keep it.
    run_hours-IsSound :
        (hours : ℕ) (s : FeeState R)
        → IsSound params s
        → IsSound params (run_hours rows params hours s)
    unfolding run_hours
    run_hours-IsSound zero s h = h
    run_hours-IsSound (suc hours) s h =
        run_hours-IsSound hours (run_hour rows params s) (run_hour-IsSound s)

    room_left : (a b w q : R) → a + b + w ≡ num 1 → num 1 - b - q ≡ a + (w - q)
    room_left a b w q h = rw (← h) (simp (ring, e))

    -- While the risk gate of the 0.30 pool is HIGH, the targets of the fee check do not put more
    -- into that pool than it has, for weights that are an allocation and a step that is not negative.
    pub p_targets-gated :
        (s : FeeState R)
        → IsAllocation s.weights
        → num 0 ≤ params.move_step
        → gate rows params s ≡ high
        → (p_targets rows params fee_check s).p30 ≤ s.weights.p30
    unfolding p_targets gated_weight
    p_targets-gated s a hs hg =
        let w = s.weights in
        let q = step_down rows params w.p30 in
        let below =
          max-le ordered (num 0) (w.p30 - params.move_step) w.p30 a.p30_nonneg
            (sub-le w.p30 params.move_step hs) in
        let room : num 0 ≤ num 1 - w.p15 - q =
          rw (room_left w.p05 w.p15 w.p30 q a.total)
            (add_nonneg w.p05 (w.p30 - q) a.p05_nonneg (sub_nonneg w.p30 q below)) in
        let zero-le_q = le-max_left ordered (num 0) (w.p30 - params.move_step) in
        rw hg (elim (Bool-cases (ltb (s.step % nat_max 1 params.rebalance_hours) 1)) [
          | inl h ↦ rw (h, rebalanced_exact w q a.p15_nonneg zero-le_q room) below
          | inr h ↦ rw h (le_refl w.p30)
        ])

module _ {R : Type 0} ⦃n : Number R⦄ (e : IsExact R) where
  nothing_yet : (v : R) → v ≡ v + (num 0 + num 0 + num 0 + num 0) - num 0
  nothing_yet v = simp (ring, e)

  all_in_05-IsAllocation : IsAllocation {R = R} all_in_05
  all_in_05-IsAllocation = record {
    p05_nonneg = num_nonneg e.ordered 1;
    p15_nonneg = num_nonneg e.ordered 0;
    p30_nonneg = num_nonneg e.ordered 0;
    total = simp (ring, e);
  }

  initial_state-IsSound : (params : FeeParams R) → IsSound params (initial_state params)
  unfolding initial_state
  initial_state-IsSound params = record {
    allocation =
        either (λ (w : Pools R). IsAllocation w) (is_fee_check params.policy) all_in_05-IsAllocation
          (norm-IsAllocation e params.static_weights);
    value = nothing_yet params.initial_nav;
  }

  -- Whatever the parameters and the scenario, after any number of hours of a run the weights of the
  -- three pools are not negative and add up to one, and the value is the initial one with the fees
  -- less the costs, which is what the metrics report net of the impermanent loss.
  pub fee_model-IsSound :
      (rows : Scenario R) (params : FeeParams R) (hours : ℕ)
      → let s = fee_model rows params hours in
        IsAllocation s.weights
        × ((p_metrics params s).net_after_il
            ≡ params.initial_nav
              + (p_metrics params s).fees_total
              - s.cum_costs
              - params.initial_nav
              - s.cum_il)
  unfolding fee_model p_metrics
  fee_model-IsSound rows params hours =
      let over = record params { horizon_hours = num hours } in
      let s = run_hours rows over hours (initial_state over) in
      let h =
        run_hours-IsSound e rows over hours (initial_state over) (initial_state-IsSound over) in
      (h.allocation, ap (λ v. v - params.initial_nav - s.cum_il) h.value)
