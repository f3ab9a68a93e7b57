-- ===== src/Model/Run/Peak.antt =====
-- What holds after every hour of a run of research/cadcad/allocator/model.py.
use Prim.Native.Nat.{◌+◌ as nat_add}
use nvda_tranched_arc.Prelude.{
  ℕ, zero, suc, ◌≡◌, refl, ◌∙◌, ap, Option, none, some, List, ◌∷◌, either_by, arith,
}
use nvda_tranched_arc.Number.{Number, ◌/◌, ◌≤◌, ◌<?◌, num, IsExact}
use nvda_tranched_arc.Number.Order.{le-max_left, le-max_right}
use nvda_tranched_arc.Number.Algebra.{div_self, sub_self, sub-le-sub_right}
use nvda_tranched_arc.Lp.{Math}
use nvda_tranched_arc.Model.{Params, ScenarioRow}
use nvda_tranched_arc.Model.Accounts.{portfolio_nav}
use nvda_tranched_arc.Model.Run.{
  RunState, HourMetrics, act, value_up, hour_step, hour_steps, run_model, s_metrics, start_state,
}

module _ {R : Type 0} ⦃n : Number R⦄ ⦃m : Math R⦄ where
  -- There are no metrics, or their drawdown is not positive.
  abbrev pub HasDrawdown : Option (HourMetrics R) → Type 0
  HasDrawdown none = Unit
  HasDrawdown (some metrics) = metrics.drawdown ≤ num 0

  -- The state after `hours` hours from a first value: its step, its peak, its value and its drawdown.
  abbrev pub IsTracked : R → ℕ → RunState R → Type 0
  IsTracked first hours s =
      (s.step ≡ hours) × (first ≤ s.peak_nav) × (s.nav ≤ s.peak_nav) × HasDrawdown s.metrics

module _ {R : Type 0} ⦃n : Number R⦄ ⦃m : Math R⦄ (e : IsExact R) (params : Params R)
    (row : ScenarioRow R) (rows : List (ScenarioRow R)) where
  open e use {ordered}
  open e.ordered use {le_refl, le_trans, div-le-div_right, sub_nonneg}

  s_metrics-drawdown : (s : RunState R) → s.nav ≤ s.peak_nav → (s_metrics params s).drawdown ≤ num 0
  unfolding s_metrics
  s_metrics-drawdown s h =
      either_by (λ (z : R). z ≤ num 0) (num 0 <? s.peak_nav)
        (λ k.
          (rw (sub_self e (num 1)) at (
            rw (div_self e s.peak_nav k) at (
              sub-le-sub_right e (s.nav / s.peak_nav) (s.peak_nav / s.peak_nav) (num 1)
                (div-le-div_right s.nav s.peak_nav s.peak_nav k h)))))
        (λ _. le_refl (num {R = R} 0))

  hour_step-IsTracked :
      (first : R) (hours : ℕ) (s : RunState R)
      → IsTracked first hours s
      → IsTracked first (suc hours) (hour_step params row rows s)
  unfolding hour_step
  hour_step-IsTracked first hours s h =
      let after = value_up (act params row rows s) in
      let nav = portfolio_nav after.portfolio after.env.sqrt_p after.env.price in
      let top = le-max_right ordered s.peak_nav nav in
      (
        ap suc h.0,
        le_trans first s.peak_nav after.peak_nav h.1 (le-max_left ordered s.peak_nav nav),
        top,
        s_metrics-drawdown after top,
      )

  -- Another way to count the hours.
  recounted :
      (first : R) (k hours : ℕ) (s : RunState R)
      → k ≡ hours
      → IsTracked first k s
      → IsTracked first hours s
  recounted first k hours s e (h, p, v, d) = (h ∙ e, p, v, d)

  hour_steps-IsTracked :
      (first : R) (hours k : ℕ) (s : RunState R)
      → IsTracked first hours s
      → IsTracked first (nat_add k hours) (hour_steps params row rows k s)
  unfolding hour_steps
  hour_steps-IsTracked first hours zero s h = recounted first hours _ s (omega arith) h
  hour_steps-IsTracked first hours (suc k) s h =
      recounted first (nat_add k (suc hours)) _
        (hour_steps params row rows k (hour_step params row rows s)) (omega arith)
        (hour_steps-IsTracked first (suc hours) k (hour_step params row rows s)
          (hour_step-IsTracked first hours s h))

  -- After any number of hours the state counts them, the peak is at least the initial value and the
  -- current one, and the drawdown of the last metrics is not positive.
  pub run_model-IsTracked :
      (hours : ℕ)
      → (s : RunState R) × (run_model (row ∷ rows) params (some hours) ≡ some s)
        × IsTracked params.initial_nav_usd hours s
  unfolding run_model
  run_model-IsTracked hours =
      let first = params.initial_nav_usd in
      let refl_le = le_refl first in
      let h =
        hour_steps-IsTracked first 0 hours (start_state params row) (refl, refl_le, refl_le, tt) in
      let s = hour_steps params row rows hours (start_state params row) in
      (s, refl, recounted first (nat_add hours 0) hours s (omega arith) h)
