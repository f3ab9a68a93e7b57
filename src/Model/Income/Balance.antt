-- ===== src/Model/Income/Balance.antt =====
-- An hour of `s_portfolio_income` of research/cadcad/allocator/model.py: the value changes by what
-- the totals book.
use nvda_tranched_arc.Prelude.{
  ℕ, Bool, true, false, not, ◌&&◌, ◌≡◌, refl, ◌∙◌, ap, inl, inr, Option, List, [], if◌then◌else◌,
  either, either_by, arith, subst⁻¹, and_left, and_right, not-true, not-false,
}
use nvda_tranched_arc.Number.{Number, ◌+◌, ◌-◌, ◌*◌, ◌<◌, ◌≤◌, ◌<?◌, ◌≤?◌, num, IsExact}
use nvda_tranched_arc.Number.Algebra.{ring}
use nvda_tranched_arc.Number.Order.{le_of_lt}
use nvda_tranched_arc.Lp.{Math}
use nvda_tranched_arc.Allocator.{BookName, book_a, book_b}
use nvda_tranched_arc.Model.{Portfolio, Params, Env, Arm, Book, ScenarioRow, book_at, set_book}
use nvda_tranched_arc.Model.Books.{has_guard}
use nvda_tranched_arc.Model.Accounts.{portfolio_nav, dust_usd}
use nvda_tranched_arc.Model.Accounts.Close.{mark}
use nvda_tranched_arc.Model.Decision.{is_some}
use nvda_tranched_arc.Model.Windows.{hours_per_year}
use nvda_tranched_arc.Model.Fees.{FeeSplit}
use nvda_tranched_arc.Model.Ledger.{
  IsBalanced, kept, same, then_balanced, net_carry, net_income, unexplained,
}
use nvda_tranched_arc.Model.Liquidate.{liquidate, liquidate-IsLiquidated, health_factor}
use nvda_tranched_arc.Model.Income.{
  accrue, pull_guard, rearm_guard, arm_interest, pull_step, rearm_step, book_income,
  portfolio_income, rearm_due, target_guard, fee_il_pull, pull_bin, rearm_signal_ok, nvda_rate,
}
use nvda_tranched_arc.Model.Income.Value.{accrue-IsBalanced, arm_interest-IsBalanced}
use nvda_tranched_arc.Model.Income.Kept.{pull_step-deployed}
use nvda_tranched_arc.Model.Income.Guards.{
  pull_guard-IsBalanced, rearm_guard-IsBalanced, at_price, ready-keeps,
}

set_book-arm :
    {R : Type 0} (name : BookName) (b : Book R) (pf : Portfolio R)
    → (set_book name b pf).arm ≡ pf.arm
set_book-arm book_a b pf = refl
set_book-arm book_b b pf = refl

module _ {R : Type 0} ⦃n : Number R⦄ ⦃m : Math R⦄ (e : IsExact R) (q price : R) where
  module _ (hq : num 0 ≤ price) where
    loss_booked : (c v v' l l' : R) → c - l' ≡ c + v' - (v' + l')
    loss_booked c v v' l l' = simp (ring, e)

    loss_seen : (c v v' l : R) → c + v' - (v + l) ≡ c - l + (v' - v)
    loss_seen c v v' l = simp (ring, e)

    -- What is lost to the liquidator is booked as a loss.
    loss_moves : (v v' c l l' : R) → v' + l' ≡ v + l → c - l' ≡ c - l + (v' - v)
    loss_moves v v' c l l' h = loss_booked c v v' l l' ∙ ap (λ t. c + v' - t) h ∙ loss_seen c v v' l

    difference : (v v' : R) → v' ≡ v + (v' - v)
    difference v v' = simp (ring, e)

    liquidate-net_carry :
        (pf : Portfolio R) (step : ℕ) (params : Params R)
        → net_carry (liquidate pf q price step params).cum ≡ net_carry pf.cum
    unfolding liquidate net_carry
    liquidate-net_carry pf step params =
        let P : Portfolio R → Type 0 = λ (r : Portfolio R). net_carry r.cum ≡ net_carry pf.cum in
        either P (pf.arm.debt ≤? dust_usd) refl
          (either P (num 1 ≤? health_factor params price pf.arm) refl refl)

    liquidate-IsBalanced :
        (pf : Portfolio R) (step : ℕ) (params : Params R)
        → num 0 ≤ params.liquidation_bonus_bps
        → num 0 ≤ pf.arm.nvda
        → IsBalanced q price pf (liquidate pf q price step params)
    liquidate-IsBalanced pf step params hb hn =
        let after = liquidate pf q price step params in
        let c = liquidate-net_carry pf step params in
        elim (liquidate-IsLiquidated e pf q price params hb hq hn step) [
          | inl h ↦
              kept e q price pf after (ap (λ (r : Portfolio R). portfolio_nav r q price) h.0)
                (ap (λ (r : Portfolio R). net_income r.cum) h.0)
          | inr h ↦ record {
            change = portfolio_nav after q price - portfolio_nav pf q price;
            of_nav = difference (portfolio_nav pf q price) (portfolio_nav after q price);
            of_carry =
                ap (λ t. t - after.cum.liquidation_loss) c
                ∙ loss_moves (portfolio_nav pf q price) (portfolio_nav after q price)
                    (net_carry pf.cum) pf.cum.liquidation_loss after.cum.liquidation_loss h.2;
          }
        ]

module _ {R : Type 0} ⦃n : Number R⦄ ⦃m : Math R⦄ (e : IsExact R) (params : Params R) (env : Env R)
    (scenario : List (ScenarioRow R)) (step : ℕ) (hp : env.price ≡ mark e env.sqrt_p)
    (pos : num 0 < env.price) where
  open e use {ordered}
  open e.ordered use {le_refl, div_nonneg, add_nonneg, mul_nonneg, num-lt}

  abbrev Balanced : Portfolio R → Portfolio R → Type 0
  Balanced = IsBalanced env.sqrt_p env.price

  module _ (name : BookName) (pf : Portfolio R) (deployed : (book_at pf name).deployed ≡ true) where
    abbrev pulled : Bool → Portfolio R
    pulled b =
        if b
        then pull_guard name env step (fee_il_pull params env scenario step name (book_at pf name))
            pf
        else pf

    pulled-IsBalanced :
        (b : Bool) → (b ≡ true → has_guard (book_at pf name) ≡ true) → Balanced pf (pulled b)
    pulled-IsBalanced b h =
        either_by (λ r. Balanced pf r) b
          (λ k.
            at_price env.sqrt_p env.price (mark e env.sqrt_p) pf _ hp
              (pull_guard-IsBalanced e env.sqrt_p name env step _ pf refl deployed (h k)))
          (λ _. same e env.sqrt_p env.price pf)

    pull_step-IsBalanced :
        (bin : Option ℕ) → Balanced pf (pull_step params env scenario step name bin pf)
    pull_step-IsBalanced bin =
        let g = has_guard (book_at pf name) in
        let b = is_some bin && g in
        then_balanced e env.sqrt_p env.price pf (pulled b) _
          (pulled-IsBalanced b (and_right (is_some bin) g))
          (accrue-IsBalanced e env.sqrt_p env.price name _ (pulled b))

  rearm_due-gone : (b : Book R) → rearm_due b step params ≡ true → b.guard_present ≡ false
  unfolding rearm_due
  rearm_due-gone b h = not-true b.guard_present (
      and_left (not b.guard_present) (num 0 <? b.base_l)
        (and_left (not b.guard_present && (num 0 <? b.base_l)) _ h))

  rearm_step-IsBalanced :
      (name : BookName) (before : Book R) (pf : Portfolio R)
      → (book_at pf name).deployed ≡ true
      → Balanced pf (rearm_step params env scenario step name before pf)
  rearm_step-IsBalanced name before pf hd =
      let b = book_at pf name in
      let due = rearm_due b step params in
      let ok = rearm_signal_ok params env scenario step name before in
      either_by (λ r. Balanced pf r) (due && ((num 0 <? target_guard b) && ok))
        (λ h.
          rearm_guard-IsBalanced e name env params step pf hp pos hd
            (rearm_due-gone b (and_left due _ h))
            (and_left (num 0 <? target_guard b) ok (and_right due _ h)))
        (λ _. same e env.sqrt_p env.price pf)

  book_income-IsBalanced :
      (name : BookName) (pf : Portfolio R)
      → Balanced pf (book_income params env scenario step name pf)
  unfolding book_income
  book_income-IsBalanced name pf =
      either_by (λ r. Balanced pf r) (not (book_at pf name).deployed)
        (λ _. same e env.sqrt_p env.price pf)
        (λ h.
          let hd = not-false (book_at pf name).deployed h in
          let bin = pull_bin params env scenario step name (book_at pf name) in
          then_balanced e env.sqrt_p env.price pf _ _ (pull_step-IsBalanced name pf hd bin) (
            rearm_step-IsBalanced name (book_at pf name) _
              (pull_step-deployed params env scenario step name bin pf ∙ hd)))

  rearm_guard-arm :
      (name : BookName) (pf : Portfolio R) → (rearm_guard name env params step pf).arm ≡ pf.arm
  unfolding rearm_guard
  rearm_guard-arm name pf =
      let P : Portfolio R → Type 0 = λ (r : Portfolio R). r.arm ≡ pf.arm in
      let h = (ready-keeps e name env params step pf).0 in either P _ h (set_book-arm name _ _ ∙ h)

  pull_guard-arm :
      (name : BookName) (fee_il : Bool) (pf : Portfolio R)
      → (pull_guard name env step fee_il pf).arm ≡ pf.arm
  unfolding pull_guard
  pull_guard-arm name fee_il pf = set_book-arm name _ _

  accrue-arm :
      (name : BookName) (fees : FeeSplit R) (pf : Portfolio R) → (accrue name fees pf).arm ≡ pf.arm
  unfolding accrue
  accrue-arm name fees pf = set_book-arm name _ _

  pull_step-arm :
      (name : BookName) (bin : Option ℕ) (pf : Portfolio R)
      → (pull_step params env scenario step name bin pf).arm ≡ pf.arm
  pull_step-arm name bin pf =
      accrue-arm name _ _
      ∙ either (λ (r : Portfolio R). r.arm ≡ pf.arm) (is_some bin && has_guard (book_at pf name))
          (pull_guard-arm name _ pf) refl

  rearm_step-arm :
      (name : BookName) (before : Book R) (pf : Portfolio R)
      → (rearm_step params env scenario step name before pf).arm ≡ pf.arm
  rearm_step-arm name before pf =
      either (λ (r : Portfolio R). r.arm ≡ pf.arm)
        (rearm_due (book_at pf name) step params
          && ((num 0 <? target_guard (book_at pf name))
              && rearm_signal_ok params env scenario step name before))
        (rearm_guard-arm name pf) refl

  book_income-arm :
      (name : BookName) (pf : Portfolio R)
      → (book_income params env scenario step name pf).arm ≡ pf.arm
  unfolding book_income
  book_income-arm name pf =
      either (λ (r : Portfolio R). r.arm ≡ pf.arm) (not (book_at pf name).deployed) refl
        (rearm_step-arm name _ _ ∙ pull_step-arm name _ pf)

  nvda_rate_nonneg :
      (arm : Arm R)
      → num 0 ≤ arm.nvda
      → num 0 ≤ arm.debt
      → num 0 ≤ params.arm_nvda_apr
      → num 0 ≤ params.arm_borrow_apr
      → num 0 ≤ nvda_rate params arm env.price
  unfolding nvda_rate
  nvda_rate_nonneg arm hn hd ha hb =
      let value = arm.nvda * env.price in
      let ltv_nonneg =
        either_by (λ (z : R). num 0 ≤ z) (num 0 <? value) (λ h. div_nonneg arm.debt value hd h)
          (λ _. le_refl (num {R = R} 0)) in
      div_nonneg _ hours_per_year
        (add_nonneg params.arm_nvda_apr _ ha (
          either (λ (z : R). num 0 ≤ z)
            (params.nvda_apr_is_net && ((num 0 <? arm.nvda) && (num 0 <? env.price)))
            (mul_nonneg _ params.arm_borrow_apr ltv_nonneg hb) (le_refl (num {R = R} 0))))
        (num-lt 0 8760 (omega arith))

  module _ (pf : Portfolio R) (hb : num 0 ≤ params.liquidation_bonus_bps)
      (ha : num 0 ≤ params.arm_nvda_apr) (hr : num 0 ≤ params.arm_borrow_apr)
      (hn : num 0 ≤ pf.arm.nvda) (hd : num 0 ≤ pf.arm.debt) where
    abbrev started : Portfolio R
    started = record pf { last_events = [] }

    abbrev earned : Portfolio R
    earned =
        book_income params env scenario step book_b
          (book_income params env scenario step book_a started)

    abbrev charged : Portfolio R
    charged = arm_interest params env.price earned

    pub earned-arm : earned.arm ≡ pf.arm
    earned-arm = book_income-arm book_b _ ∙ book_income-arm book_a started

    charged-nvda : num 0 ≤ charged.arm.nvda
    unfolding arm_interest
    charged-nvda =
        subst⁻¹ (λ (arm : Arm R). num 0 ≤ arm.nvda + arm.nvda * nvda_rate params arm env.price)
          earned-arm
          (add_nonneg pf.arm.nvda _ hn
            (mul_nonneg pf.arm.nvda _ hn (nvda_rate_nonneg pf.arm hn hd ha hr)))

    charged-IsBalanced : Balanced started charged
    charged-IsBalanced =
        let first = book_income params env scenario step book_a started in
        then_balanced e env.sqrt_p env.price started earned charged
          (then_balanced e env.sqrt_p env.price started first earned
            (book_income-IsBalanced book_a started) (book_income-IsBalanced book_b first))
          (arm_interest-IsBalanced e env.sqrt_p env.price params earned)

    abbrev settled : Portfolio R
    settled = liquidate charged env.sqrt_p env.price step params

    settled-IsBalanced : Balanced started settled
    settled-IsBalanced =
        then_balanced e env.sqrt_p env.price started charged settled charged-IsBalanced (
          liquidate-IsBalanced e env.sqrt_p env.price (le_of_lt ordered (num 0) env.price pos)
            charged step params hb charged-nvda)

    hour-IsBalanced :
        IsBalanced env.sqrt_p env.price pf (portfolio_income params env scenario step pf)
    unfolding portfolio_income portfolio_nav
    hour-IsBalanced = record {
      change = settled-IsBalanced.change;
      of_nav = settled-IsBalanced.of_nav;
      of_carry = settled-IsBalanced.of_carry;
    }

    -- In an hour of income, with its fees, its guards, its interest and its liquidation, the value
    -- changes by exactly what the cumulative totals change by, when the price is the one that the
    -- square root price stands for and is positive, and when the rates, the bonus, the arm's
    -- collateral and its debt are not negative.
    pub portfolio_income-net_income :
        let after = portfolio_income params env scenario step pf in
        portfolio_nav after env.sqrt_p env.price - net_income after.cum
        ≡ portfolio_nav pf env.sqrt_p env.price - net_income pf.cum
    portfolio_income-net_income = unexplained e env.sqrt_p env.price pf _ hour-IsBalanced
