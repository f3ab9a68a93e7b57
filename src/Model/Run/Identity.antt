-- ===== src/Model/Run/Identity.antt =====
-- An hour of a run of research/cadcad/allocator/model.py: the value moves with the price and with what
-- the totals book.
use nvda_tranched_arc.Prelude.{
  ℕ, Bool, true, false, ◌&&◌, ◌||◌, ◌≡◌, refl, ◌∙◌, sym, List, ◌∷◌, Bool-cases, inl, inr, either,
  arith, subst⁻¹, false≢true,
}
use nvda_tranched_arc.Number.{Number, ◌+◌, ◌-◌, ◌*◌, ◌/◌, ◌<◌, ◌≤◌, ◌≤?◌, num, IsExact}
use nvda_tranched_arc.Number.Order.{min-le_left}
use nvda_tranched_arc.Lp.{Math}
use nvda_tranched_arc.Model.{Portfolio, Params, Env, Book, Arm, Action, ScenarioRow}
use nvda_tranched_arc.Model.Books.{book_has_positions, has_base, has_guard}
use nvda_tranched_arc.Model.Accounts.{portfolio_nav, dust_usd}
use nvda_tranched_arc.Model.Accounts.Close.{mark}
use nvda_tranched_arc.Model.Windows.{hours_per_year}
use nvda_tranched_arc.Model.Liquidate.{liquidate, liquidated_arm, health_factor}
use nvda_tranched_arc.Model.Execute.{execute_action}
use nvda_tranched_arc.Model.Ledger.{net_income}
use nvda_tranched_arc.Model.Ledger.Actions.{IsClean, execute_action-net_income}
use nvda_tranched_arc.Model.Income.{arm_interest, portfolio_income}
use nvda_tranched_arc.Model.Income.Kept.{IsKept, portfolio_income-AreKept}
use nvda_tranched_arc.Model.Income.Balance.{earned-arm, portfolio_income-net_income}
use nvda_tranched_arc.Model.Run.{RunState, market, act, hour_step}

based_positions : (d a g : Bool) → d ≡ true → a ≡ true → (d && (a || g)) ≡ true
based_positions d a g h k = rw (h, k) refl

module _ {R : Type 0} ⦃n : Number R⦄ where
  -- A deployed book has a base, and a book that is not deployed has no fees.
  pub record IsFunded (b : Book R) : Type 0 where
    pub has_base : b.deployed ≡ true → num 0 < b.base_l
    pub no_fees : b.deployed ≡ false → b.fees ≡ num 0

  -- The rates and limits are not negative, and a switch is free.
  pub record IsFair (params : Params R) : Type 0 where
    pub bonus : num 0 ≤ params.liquidation_bonus_bps
    pub nvda_apr : num 0 ≤ params.arm_nvda_apr
    pub borrow_apr : num 0 ≤ params.arm_borrow_apr
    pub usdg_apr : num 0 ≤ params.arm_usdg_apr
    pub free_switch : params.switch_cost_bps ≡ num 0

  -- The arm owes and owns nothing negative, and both books are funded.
  pub record IsReady (pf : Portfolio R) : Type 0 where
    pub nvda : num 0 ≤ pf.arm.nvda
    pub debt : num 0 ≤ pf.arm.debt
    pub usdg_lent : num 0 ≤ pf.arm.usdg_lent
    pub first : IsFunded pf.first_book
    pub second : IsFunded pf.second_book

  -- A kept book without positions is not deployed, so it has no fees.
  kept-IsClean : (b after : Book R) → IsFunded b → IsKept b after → IsClean after
  unfolding book_has_positions
  kept-IsClean b after f k none = elim (Bool-cases b.deployed) [
    | inl h ↦
        let base = subst⁻¹ (λ (l : R). num 0 < l) k.base_l (f.has_base h) in
        absurd (
          false≢true (
            sym none
            ∙ based_positions after.deployed (has_base after) (has_guard after) (k.deployed ∙ h)
                base))
    | inr h ↦ k.fees h ∙ f.no_fees h
  ]

module _ {R : Type 0} ⦃n : Number R⦄ ⦃m : Math R⦄ (e : IsExact R) (params : Params R) where
  open e use {ordered}
  open e.ordered use {sub_nonneg, add_nonneg, mul_nonneg, div_nonneg, num-lt}

  liquidate-lent_nonneg :
      (pf : Portfolio R) (q price : R) (step : ℕ)
      → num 0 ≤ pf.arm.usdg_lent
      → num 0 ≤ (liquidate pf q price step params).arm.usdg_lent
  unfolding liquidate liquidated_arm
  liquidate-lent_nonneg pf q price step h =
      let P : Portfolio R → Type 0 = λ (r : Portfolio R). num 0 ≤ r.arm.usdg_lent in
      either P (pf.arm.debt ≤? dust_usd) h (
        either P (num 1 ≤? health_factor params price pf.arm) h
          (sub_nonneg pf.arm.usdg_lent _ (min-le_left ordered pf.arm.usdg_lent _)))

  module _ (fair : IsFair params) (env : Env R) (scenario : List (ScenarioRow R)) (step : ℕ)
      (hp : env.price ≡ mark e env.sqrt_p) (pos : num 0 < env.price) (pf : Portfolio R)
      (ready : IsReady pf) where
    income-lent_nonneg : num 0 ≤ (portfolio_income params env scenario step pf).arm.usdg_lent
    unfolding portfolio_income arm_interest
    income-lent_nonneg =
        let rate = params.arm_usdg_apr / hours_per_year in
        liquidate-lent_nonneg _ env.sqrt_p env.price step (
          subst⁻¹ (λ (a : Arm R). num 0 ≤ a.usdg_lent + a.usdg_lent * rate)
            (earned-arm e params env scenario step hp pos pf fair.bonus fair.nvda_apr
              fair.borrow_apr ready.nvda ready.debt)
            (add_nonneg pf.arm.usdg_lent _ ready.usdg_lent (
              mul_nonneg pf.arm.usdg_lent rate ready.usdg_lent (
                div_nonneg params.arm_usdg_apr hours_per_year fair.usdg_apr
                  (num-lt 0 8_760 (omega arith))))))

    income_then-net_income :
        (action : Action R)
        → let after =
            execute_action params env action step (portfolio_income params env scenario step pf) in
          portfolio_nav after env.sqrt_p env.price - net_income after.cum
          ≡ portfolio_nav pf env.sqrt_p env.price - net_income pf.cum
    income_then-net_income action =
        let paid = portfolio_income params env scenario step pf in
        let k = portfolio_income-AreKept params env scenario step pf in
        execute_action-net_income e env params hp pos fair.free_switch paid income-lent_nonneg
          (kept-IsClean pf.first_book paid.first_book ready.first k.0)
          (kept-IsClean pf.second_book paid.second_book ready.second k.1) action step
        ∙ portfolio_income-net_income e params env scenario step hp pos pf fair.bonus fair.nvda_apr
            fair.borrow_apr ready.nvda ready.debt

  -- In an hour of a run, with its income, its marks, whatever the policy decides and its execution,
  -- the value at the hour's price changes by exactly what the cumulative totals change by. The tick's
  -- price is positive and the one that the square root price stands for, the rates and limits are not
  -- negative, a switch is free, the arm's balances are not negative, a deployed book has a base, and a
  -- book that is not deployed has no fees.
  pub hour_step-net_income :
      (row : ScenarioRow R) (rows : List (ScenarioRow R)) (s : RunState R)
      → IsFair params
      → (market params row rows s.step).price ≡ mark e (market params row rows s.step).sqrt_p
      → num 0 < (market params row rows s.step).price
      → IsReady s.portfolio
      → let after = hour_step params row rows s in
        let q = after.env.sqrt_p in
        let price = after.env.price in
        portfolio_nav after.portfolio q price - net_income after.portfolio.cum
        ≡ portfolio_nav s.portfolio q price - net_income s.portfolio.cum
  unfolding hour_step
  hour_step-net_income row rows s fair hp pos ready =
      income_then-net_income fair (market params row rows s.step) (row ∷ rows) s.step hp pos
        s.portfolio ready (act params row rows s).decision
