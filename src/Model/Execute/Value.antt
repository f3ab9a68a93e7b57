-- ===== src/Model/Execute/Value.antt =====
-- What the arm's actions do to the portfolio's value.
use nvda_tranched_arc.Prelude.{◌≡◌, refl, if◌then◌else◌, arith}
use nvda_tranched_arc.Number.{Number, ◌+◌, ◌-◌, ◌*◌, ◌/◌, neg, ◌<?◌, ◌≤◌, num, min, max, IsExact}
use nvda_tranched_arc.Number.Algebra.{ring, sub_self, add-zero, sub-le_of_le-add}
use nvda_tranched_arc.Number.Order.{min-le_left, min-le_right, not-lt_of_le}
use nvda_tranched_arc.Allocator.Borrow.{borrow_size}
use nvda_tranched_arc.Lp.{Math}
use nvda_tranched_arc.Model.{Action, Portfolio, Params, Env, Arm}
use nvda_tranched_arc.Model.Accounts.{portfolio_nav, arm_equity}
use nvda_tranched_arc.Model.Execute.{
  with_arm, allocate_usdg, allocate_nvda, borrow_usdg, repay, withdraw_nvda, deallocate_usdg,
  withdrawable, perform,
}

-- The six actions on the arm.
abbrev pub IsArmAction : {R : Type 0} → Action R → Type 0
IsArmAction (Action.allocate_usdg a) = Unit
IsArmAction (Action.allocate_nvda a) = Unit
IsArmAction (Action.borrow_usdg a) = Unit
IsArmAction (Action.repay a) = Unit
IsArmAction (Action.withdraw_nvda a) = Unit
IsArmAction (Action.deallocate_usdg a) = Unit
IsArmAction _ = ⊥

module _ {R : Type 0} ⦃n : Number R⦄ ⦃m : Math R⦄ (e : IsExact R) (q price : R) where
  abbrev nav : Portfolio R → R
  nav pf = portfolio_nav pf q price

  equity_split :
      (arm : Arm R)
      → arm_equity arm price ≡ arm.nvda * price + (arm.usdg_lent - arm.debt) - arm.bad_debt
  equity_split arm = simp (ring, e)

  moved_sum :
      (i v b c k l x du dv : R)
      → i + du + (v + dv) * price + b + c + ((k - dv) * price + (l - du) - x)
        ≡ i + v * price + b + c + (k * price + l - x)
  moved_sum i v b c k l x du dv = simp (ring, e)

  -- The value of a portfolio whose tokens and arm were replaced.
  moved :
      (pf : Portfolio R) (u v : R) (arm : Arm R) (du dv : R)
      → u ≡ pf.idle_usdg + du
      → v ≡ pf.idle_nvda + dv
      → arm.nvda ≡ pf.arm.nvda - dv
      → arm.usdg_lent - arm.debt ≡ pf.arm.usdg_lent - pf.arm.debt - du
      → arm.bad_debt ≡ pf.arm.bad_debt
      → nav (with_arm pf u v arm) ≡ nav pf
  unfolding portfolio_nav
  moved pf u v arm du dv eu ev en el eb =
      rw (equity_split arm, equity_split pf.arm, eu, ev, en, el, eb)
        (moved_sum pf.idle_usdg pf.idle_nvda _ _ pf.arm.nvda (pf.arm.usdg_lent - pf.arm.debt)
          pf.arm.bad_debt du dv)

  -- `du` of USDG and `dv` of NVDA move from the arm to the idle tokens.
  shift_usdg : (i a : R) → i - a ≡ i + neg a
  shift_usdg i a = simp (ring, e)

  no_shift : (i : R) → i ≡ i + num 0
  no_shift i = simp (ring, e)

  no_shift_sub : (i : R) → i ≡ i - num 0
  no_shift_sub i = simp (ring, e)

  lend : (l d a : R) → l + a - d ≡ l - d - neg a
  lend l d a = simp (ring, e)

  unlend : (l d a : R) → l - a - d ≡ l - d - a
  unlend l d a = simp (ring, e)

  owe : (l d a : R) → l - (d + a) ≡ l - d - a
  owe l d a = simp (ring, e)

  put : (k a : R) → k + a ≡ k - neg a
  put k a = simp (ring, e)

  settle_debt : (l d a f g : R) → f + g ≡ a → l - g - (d - a) ≡ l - d - neg f
  settle_debt l d a f g h = rw (← h) (simp (ring, e))

  -- Lending idle USDG moves value and makes none.
  allocate_usdg-nav :
      (cap a : R) (pf : Portfolio R) → nav (allocate_usdg cap a pf).portfolio ≡ nav pf
  unfolding allocate_usdg
  allocate_usdg-nav cap a pf =
      let amount = min (min a pf.idle_usdg) (max (num 0) (cap - pf.arm.usdg_lent)) in
      let arm = record (pf.arm) { usdg_lent = pf.arm.usdg_lent + amount } in
      ground (
        arith,
        moved pf (pf.idle_usdg - amount) pf.idle_nvda arm (neg amount) (num 0)
            (shift_usdg pf.idle_usdg amount) (no_shift pf.idle_nvda) (no_shift_sub pf.arm.nvda)
            (lend pf.arm.usdg_lent pf.arm.debt amount) refl,
      )

  allocate_nvda-nav :
      (cap a : R) (pf : Portfolio R) → nav (allocate_nvda cap price a pf).portfolio ≡ nav pf
  unfolding allocate_nvda
  allocate_nvda-nav cap a pf =
      let room = max (num 0) (cap - pf.arm.nvda * price) in
      let amount = min (min a pf.idle_nvda) (if num 0 <? price then room / price else num 0) in
      let arm = record (pf.arm) { nvda = pf.arm.nvda + amount } in
      ground (
        arith,
        moved pf pf.idle_usdg (pf.idle_nvda - amount) arm (num 0) (neg amount)
            (no_shift pf.idle_usdg) (shift_usdg pf.idle_nvda amount) (put pf.arm.nvda amount)
            (no_shift_sub (pf.arm.usdg_lent - pf.arm.debt)) refl,
      )

  borrow_usdg-nav :
      (params : Params R) (a : R) (pf : Portfolio R)
      → nav (borrow_usdg params price a pf).portfolio ≡ nav pf
  unfolding borrow_usdg
  borrow_usdg-nav params a pf =
      let max_debt =
        borrow_size (pf.arm.nvda * price) params.ltv_bps params.max_ltv_bps params.hard_cap_bps in
      let amount =
        min
          (min (min a (max (num 0) (max_debt - pf.arm.debt)))
            (max (num 0) (params.borrow_liquidity_usd - pf.arm.debt)))
          params.max_borrow_per_call_usd in
      let arm = record (pf.arm) { debt = pf.arm.debt + amount } in
      ground (
        arith,
        moved pf (pf.idle_usdg + amount) pf.idle_nvda arm amount (num 0) refl
            (no_shift pf.idle_nvda) (no_shift_sub pf.arm.nvda)
            (owe pf.arm.usdg_lent pf.arm.debt amount) refl,
      )

  withdraw_nvda-nav :
      (params : Params R) (a : R) (pf : Portfolio R)
      → nav (withdraw_nvda params price a pf).portfolio ≡ nav pf
  unfolding withdraw_nvda
  withdraw_nvda-nav params a pf =
      let amount = min (min a (withdrawable params price pf.arm)) pf.arm.nvda in
      let arm = record (pf.arm) { nvda = pf.arm.nvda - amount } in
      ground (
        arith,
        moved pf pf.idle_usdg (pf.idle_nvda + amount) arm (num 0) amount (no_shift pf.idle_usdg)
            refl refl (no_shift_sub (pf.arm.usdg_lent - pf.arm.debt)) refl,
      )

  deallocate_usdg-nav : (a : R) (pf : Portfolio R) → nav (deallocate_usdg a pf).portfolio ≡ nav pf
  unfolding deallocate_usdg
  deallocate_usdg-nav a pf =
      let amount = min a pf.arm.usdg_lent in
      let arm = record (pf.arm) { usdg_lent = pf.arm.usdg_lent - amount } in
      ground (
        arith,
        moved pf (pf.idle_usdg + amount) pf.idle_nvda arm amount (num 0) refl
            (no_shift pf.idle_nvda) (no_shift_sub pf.arm.nvda)
            (unlend pf.arm.usdg_lent pf.arm.debt amount) refl,
      )

  rest_of : (a i : R) → i + (a - i) ≡ a
  rest_of a i = simp (ring, e)

  -- An amount that the idle and the lent USDG cover is taken from the two in full.
  sources_cover : (a i l : R) → num 0 ≤ l → a ≤ i + l → min a i + min (a - min a i) l ≡ a
  unfolding min
  sources_cover a i l hl h = ground (
    arith,
    rest_of a i,
    rest_of a a,
    sub_self e a,
    not-lt_of_le e.ordered (num 0) l hl,
    not-lt_of_le e.ordered (a - i) l,
    sub-le_of_le-add e a i l h,
    add-zero e a,
  )

  repay-nav :
      (a : R) (pf : Portfolio R) → num 0 ≤ pf.arm.usdg_lent → nav (repay a pf).portfolio ≡ nav pf
  unfolding repay
  repay-nav a pf hl =
      let available = pf.idle_usdg + pf.arm.usdg_lent in
      let amount = min (min a available) pf.arm.debt in
      let from_idle = min amount pf.idle_usdg in
      let from_lend = min (amount - from_idle) pf.arm.usdg_lent in
      let covered =
        e.ordered.le_trans amount (min a available) available
          (min-le_left e.ordered (min a available) pf.arm.debt)
          (min-le_right e.ordered a available) in
      let arm = record (pf.arm) {
        usdg_lent = pf.arm.usdg_lent - from_lend;
        debt = pf.arm.debt - amount;
      } in
      ground (
        arith,
        moved pf (pf.idle_usdg - from_idle) pf.idle_nvda arm (neg from_idle) (num 0)
            (shift_usdg pf.idle_usdg from_idle) (no_shift pf.idle_nvda) (no_shift_sub pf.arm.nvda)
            (settle_debt pf.arm.usdg_lent pf.arm.debt amount from_idle from_lend
              (sources_cover amount pf.idle_usdg pf.arm.usdg_lent hl covered))
            refl,
      )

-- An action on the arm, of whatever amount, leaves the portfolio's value as it was, before gas:
-- lending, posting collateral, borrowing, repaying, withdrawing and pulling back only move tokens
-- between the idle inventory and the arm. The lent USDG is not negative.
pub perform-arm_nav :
    {R : Type 0} ⦃n : Number R⦄ ⦃m : Math R⦄ (e : IsExact R) (params : Params R) (env : Env R)
    (action : Action R) (pf : Portfolio R)
    → IsArmAction action
    → num 0 ≤ pf.arm.usdg_lent
    → portfolio_nav (perform params env action pf).portfolio env.sqrt_p env.price
      ≡ portfolio_nav pf env.sqrt_p env.price
unfolding perform
perform-arm_nav e params env (Action.allocate_usdg a) pf h hl =
    allocate_usdg-nav e env.sqrt_p env.price _ a pf
perform-arm_nav e params env (Action.allocate_nvda a) pf h hl =
    allocate_nvda-nav e env.sqrt_p env.price _ a pf
perform-arm_nav e params env (Action.borrow_usdg a) pf h hl =
    borrow_usdg-nav e env.sqrt_p env.price params a pf
perform-arm_nav e params env (Action.repay a) pf h hl = repay-nav e env.sqrt_p env.price a pf hl
perform-arm_nav e params env (Action.withdraw_nvda a) pf h hl =
    withdraw_nvda-nav e env.sqrt_p env.price params a pf
perform-arm_nav e params env (Action.deallocate_usdg a) pf h hl =
    deallocate_usdg-nav e env.sqrt_p env.price a pf
perform-arm_nav e params env _ pf h hl = absurd h
