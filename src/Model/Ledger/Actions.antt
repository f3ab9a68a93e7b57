-- ===== src/Model/Ledger/Actions.antt =====
-- `_execute_action` of research/cadcad/allocator/model.py books what it costs.
use Prim.Native.Nat.{ℕ}
use nvda_tranched_arc.Prelude.{
  Bool, true, false, not, ◌&&◌, ◌||◌, ◌≡◌, refl, ◌∙◌, sym, ap, if◌then◌else◌, arith, either,
  either_by, List, and_left, not-false, or_right, false≢true,
}
use nvda_tranched_arc.Number.{Number, ◌+◌, ◌-◌, ◌*◌, ◌/◌, ◌<◌, ◌≤◌, ◌<?◌, num, IsExact}
use nvda_tranched_arc.Number.Algebra.{ring, zero-mul, mul-zero}
use nvda_tranched_arc.Number.Order.{lt_irrefl}
use nvda_tranched_arc.Lp.{Math, position_value_usd}
use nvda_tranched_arc.Allocator.{BookName, Mode, book_a, book_b}
use nvda_tranched_arc.Allocator.Switch.{same_book}
use nvda_tranched_arc.Model.{Portfolio, Params, Env, Book, Action, Event, EventType, book_at}
use nvda_tranched_arc.Model.Books.{has_base, has_guard, book_value, book_has_positions}
use nvda_tranched_arc.Model.Accounts.{portfolio_nav, close_book, pay_gas, dust_usd}
use nvda_tranched_arc.Model.Accounts.Close.{mark, close_book-nav, pick_else}
use nvda_tranched_arc.Model.Funding.{fund_book}
use nvda_tranched_arc.Model.Execute.{
  Outcome, perform, settle, execute_action, recall, fund, recenter, switch, extra_gas,
  close_if_positions, charges_gas, allocate_usdg, allocate_nvda, borrow_usdg, repay, withdraw_nvda,
  deallocate_usdg, count_action,
}
use nvda_tranched_arc.Model.Execute.Value.{IsArmAction, perform-arm_nav}
use nvda_tranched_arc.Model.Ledger.{
  IsBalanced, kept, same, then_balanced, net_income, net_carry, unexplained,
}
use nvda_tranched_arc.Model.Ledger.Gas.{pay_gas-IsBalanced}
use nvda_tranched_arc.Model.Ledger.Fund.{fund_book-IsBalanced}
use nvda_tranched_arc.Model.Income.Guards.{set_book-cum, at_price}

module _ {R : Type 0} ⦃n : Number R⦄ where
  -- A book without positions has no fees either.
  abbrev pub IsClean : Book R → Type 0
  IsClean b = book_has_positions b ≡ false → b.fees ≡ num 0

module _ {R : Type 0} ⦃n : Number R⦄ ⦃m : Math R⦄ (e : IsExact R) (env : Env R) (params : Params R)
    (hp : env.price ≡ mark e env.sqrt_p) (pos : num 0 < env.price) where
  open e use {ordered}

  abbrev q : R
  q = env.sqrt_p

  abbrev Balanced : Portfolio R → Portfolio R → Type 0
  Balanced = IsBalanced env.sqrt_p env.price

  abbrev Paid : Portfolio R → Outcome R → Type 0
  Paid pf out = Balanced pf out.portfolio

  same_paid : (pf : Portfolio R) → Balanced pf pf
  same_paid = same e q env.price

  close_book-cum : (index : BookName) (pf : Portfolio R) → (close_book index q pf).0.cum ≡ pf.cum
  unfolding close_book
  close_book-cum index pf =
      either (λ (r : Portfolio R × R). r.0.cum ≡ pf.cum) (not (book_at pf index).deployed) refl
        (set_book-cum index _ _)

  close_book-IsBalanced :
      (index : BookName) (pf : Portfolio R) → Balanced pf (close_book index q pf).0
  close_book-IsBalanced index pf = at_price q env.price (mark e q) pf _ hp (
      kept e q (mark e q) pf _ (close_book-nav e q index pf)
        (ap net_income (close_book-cum index pf)))

  empty_value :
      (d a g : Bool) (f x y : R)
      → (d && (a || g)) ≡ false
      → f ≡ num 0
      → (if not d then f else f + (if a then x else num 0) + (if g then y else num 0)) ≡ num 0
  empty_value true true g f x y h k = cc h
  empty_value true false true f x y h k = cc h
  empty_value true false false f x y h k = rw k (simp (ring, e))
  empty_value false a g f x y h k = k

  -- A book that is clean and has no positions is worth nothing.
  clean-value : (b : Book R) → IsClean b → book_has_positions b ≡ false → book_value b q ≡ num 0
  unfolding book_value book_has_positions
  clean-value b clean h =
      empty_value b.deployed (has_base b) (has_guard b) b.fees
        (position_value_usd b.base_l q b.base_lo b.base_hi)
        (position_value_usd b.guard_l q b.guard_lo b.guard_hi) h (clean h)

  closed-value :
      (index : BookName) (pf : Portfolio R)
      → (book_at pf index).deployed ≡ true
      → book_value (book_at (close_book index q pf).0 index) q ≡ num 0
  unfolding close_book book_value
  closed-value book_a pf h =
      ap (λ (r : Portfolio R × R). book_value r.0.first_book q)
        (pick_else pf.first_book.deployed _ _ h)
  closed-value book_b pf h =
      ap (λ (r : Portfolio R × R). book_value r.0.second_book q)
        (pick_else pf.second_book.deployed _ _ h)

  positions-deployed : (b : Book R) → book_has_positions b ≡ true → b.deployed ≡ true
  unfolding book_has_positions
  positions-deployed b h = and_left b.deployed _ h

  recall-Paid :
      (event : R → EventType R) (name : Action R) (pf : Portfolio R)
      → Paid pf (recall params env event name pf)
  unfolding recall
  recall-Paid event name pf = close_book-IsBalanced pf.active_book pf

  fund-Paid :
      (target : BookName) (pf : Portfolio R)
      → IsClean (book_at pf target)
      → Paid pf (fund params env target pf)
  unfolding fund
  fund-Paid target pf clean =
      let b = book_at pf target in
      either_by (λ (o : Outcome R). Paid pf o) ((dust_usd <? pf.arm.debt) || book_has_positions b)
        (λ _. same_paid pf)
        (λ h.
          let funded =
            fund_book-IsBalanced e env params hp pos target pf
              (clean-value b clean (or_right (dust_usd <? pf.arm.debt) (book_has_positions b) h)) in
          either (λ (o : Outcome R). Paid pf o) (dust_usd <? (fund_book target env params pf).1)
            funded funded)

  recenter-Paid : (pf : Portfolio R) → Paid pf (recenter params env pf)
  unfolding recenter
  recenter-Paid pf =
      let active = pf.active_book in
      let b = book_at pf active in
      let closed = (close_book active q pf).0 in
      let funded = fund_book active env params closed in
      either_by (λ (o : Outcome R). Paid pf o) (not (book_has_positions b)) (λ _. same_paid pf)
        (λ h.
          let value = closed-value active pf (positions-deployed b (not-false _ h)) in
          let moved =
            then_balanced e q env.price pf closed funded.0 (close_book-IsBalanced active pf)
              (fund_book-IsBalanced e env params hp pos active closed value) in
          let gas =
            then_balanced e q env.price pf funded.0 _ moved
              (pay_gas-IsBalanced e q env.price (extra_gas params env) funded.0) in
          either (λ (o : Outcome R). Paid pf o) (dust_usd <? funded.1)
            (either (λ (o : Outcome R). Paid pf o) (num 0 <? extra_gas params env) gas moved) moved)

  abbrev close_if : BookName → Portfolio R → Portfolio R
  close_if = close_if_positions params env

  close_if-IsBalanced : (index : BookName) (pf : Portfolio R) → Balanced pf (close_if index pf)
  close_if-IsBalanced index pf =
      either (λ r. Balanced pf r) (book_has_positions (book_at pf index))
        (close_book-IsBalanced index pf) (same_paid pf)

  close_if-value :
      (index : BookName) (pf : Portfolio R)
      → IsClean (book_at pf index)
      → book_value (book_at (close_if index pf) index) q ≡ num 0
  close_if-value index pf clean =
      let b = book_at pf index in
      either_by (λ (r : Portfolio R). book_value (book_at r index) q ≡ num 0) (book_has_positions b)
        (λ h. closed-value index pf (positions-deployed b h)) (clean-value b clean)

  close_if-second : (pf : Portfolio R) → (close_if book_a pf).second_book ≡ pf.second_book
  unfolding close_book
  close_if-second pf =
      let P : Portfolio R → Type 0 = λ (r : Portfolio R). r.second_book ≡ pf.second_book in
      either P (book_has_positions pf.first_book)
        (either (λ (r : Portfolio R × R). P r.0) (not pf.first_book.deployed) refl refl) refl

  close_if-first : (pf : Portfolio R) → (close_if book_b pf).first_book ≡ pf.first_book
  unfolding close_book
  close_if-first pf =
      let P : Portfolio R → Type 0 = λ (r : Portfolio R). r.first_book ≡ pf.first_book in
      either P (book_has_positions pf.second_book)
        (either (λ (r : Portfolio R × R). P r.0) (not pf.second_book.deployed) refl refl) refl

  -- What a switch closes before it funds.
  abbrev switch_ready : (target active : BookName) → Portfolio R → Portfolio R
  switch_ready target active pf =
      close_if active (if same_book target active then pf else close_if target pf)

  switch_ready-IsBalanced :
      (target active : BookName) (pf : Portfolio R) → Balanced pf (switch_ready target active pf)
  switch_ready-IsBalanced target active pf =
      let first = if same_book target active then pf else close_if target pf in
      then_balanced e q env.price pf first _
        (either (λ r. Balanced pf r) (same_book target active) (same_paid pf)
          (close_if-IsBalanced target pf))
        (close_if-IsBalanced active first)

  switch_ready-value :
      (target active : BookName) (pf : Portfolio R)
      → IsClean (book_at pf target)
      → book_value (book_at (switch_ready target active pf) target) q ≡ num 0
  switch_ready-value book_a book_a pf clean = close_if-value book_a pf clean
  switch_ready-value book_b book_b pf clean = close_if-value book_b pf clean
  switch_ready-value book_a book_b pf clean =
      ap (λ b. book_value b q) (close_if-first (close_if book_a pf))
      ∙ close_if-value book_a pf clean
  switch_ready-value book_b book_a pf clean =
      ap (λ b. book_value b q) (close_if-second (close_if book_b pf))
      ∙ close_if-value book_b pf clean

  free : (v b d : R) → b ≡ num 0 → (num 0 <? v * b / d) ≡ false
  free v b d h =
      rw (h, mul-zero e v, e.div-eq-mul (num 0) d, zero-mul e (num 1 / d))
        (lt_irrefl ordered (num 0))

  switch-Paid :
      (target : BookName) (pf : Portfolio R)
      → IsClean (book_at pf target)
      → params.switch_cost_bps ≡ num 0
      → Paid pf (switch params env target pf)
  unfolding switch
  switch-Paid target pf clean h =
      let ready = switch_ready target pf.active_book pf in
      let funded = fund_book target env params ready in
      let moved =
        then_balanced e q env.price pf ready funded.0
          (switch_ready-IsBalanced target pf.active_book pf)
          (fund_book-IsBalanced e env params hp pos target ready
            (switch_ready-value target pf.active_book pf clean)) in
      let P : Outcome R → Type 0 = λ (o : Outcome R). Paid pf o in
      let stays = same_book target pf.active_book in
      let cost = funded.1 * params.switch_cost_bps / num 10_000 in
      either P ((dust_usd <? pf.arm.debt) || (stays && book_has_positions (book_at pf target)))
        (same_paid pf)
        (either P (dust_usd <? funded.1)
          (either_by P (num 0 <? cost)
            (λ k.
              absurd (false≢true (sym (free funded.1 params.switch_cost_bps (num 10_000) h) ∙ k)))
            (λ _. moved))
          moved)

  arm-cum :
      (action : Action R) (pf : Portfolio R)
      → IsArmAction action
      → (perform params env action pf).portfolio.cum ≡ pf.cum
  unfolding perform allocate_usdg allocate_nvda borrow_usdg repay withdraw_nvda deallocate_usdg
  arm-cum (Action.allocate_usdg a) pf h = ground arith
  arm-cum (Action.allocate_nvda a) pf h = ground arith
  arm-cum (Action.borrow_usdg a) pf h = ground arith
  arm-cum (Action.repay a) pf h = ground arith
  arm-cum (Action.withdraw_nvda a) pf h = ground arith
  arm-cum (Action.deallocate_usdg a) pf h = ground arith
  arm-cum _ pf h = absurd h

  arm-Paid :
      (action : Action R) (pf : Portfolio R)
      → IsArmAction action
      → num 0 ≤ pf.arm.usdg_lent
      → Paid pf (perform params env action pf)
  arm-Paid action pf h hl =
      kept e q env.price pf _ (perform-arm_nav e params env action pf h hl)
        (ap net_income (arm-cum action pf h))

  -- Labels, events and the count of the actions are neither value nor carry.
  relabelled :
      (pf after : Portfolio R)
      → Balanced pf after
      → (mode : Mode) (name : Action R) (before value cost : R) (events : List (Event R))
        (hodl : Bool)
      → Balanced pf (record after {
        mode = mode;
        last_action = name;
        nav_before = before;
        nav_after = value;
        last_costs = cost;
        last_events = events;
        hodl_mode = hodl;
      })
  unfolding portfolio_nav
  relabelled pf after h mode name before value cost events hodl = record {
    change = h.change;
    of_nav = h.of_nav;
    of_carry = h.of_carry;
  }

  counted :
      (pf after : Portfolio R) → Balanced pf after → Balanced pf (count_action params env after)
  unfolding portfolio_nav net_carry
  counted pf after h = record { change = h.change; of_nav = h.of_nav; of_carry = h.of_carry }

  module _ (free_switch : params.switch_cost_bps ≡ num 0) (pf : Portfolio R)
      (lent : num 0 ≤ pf.arm.usdg_lent) (first : IsClean pf.first_book)
      (second : IsClean pf.second_book) where
    both-IsClean : (name : BookName) → IsClean (book_at pf name)
    both-IsClean book_a = first
    both-IsClean book_b = second

    perform-Paid : (action : Action R) → Paid pf (perform params env action pf)
    unfolding perform
    perform-Paid (Action.allocate_usdg a) = arm-Paid (Action.allocate_usdg a) pf tt lent
    perform-Paid (Action.allocate_nvda a) = arm-Paid (Action.allocate_nvda a) pf tt lent
    perform-Paid (Action.borrow_usdg a) = arm-Paid (Action.borrow_usdg a) pf tt lent
    perform-Paid (Action.repay a) = arm-Paid (Action.repay a) pf tt lent
    perform-Paid (Action.withdraw_nvda a) = arm-Paid (Action.withdraw_nvda a) pf tt lent
    perform-Paid (Action.deallocate_usdg a) = arm-Paid (Action.deallocate_usdg a) pf tt lent
    perform-Paid Action.recall_book = recall-Paid EventType.recalled Action.recall_book pf
    perform-Paid (Action.fund_book target) = fund-Paid target pf (both-IsClean target)
    perform-Paid Action.recenter_book = recenter-Paid pf
    perform-Paid (Action.switch_book target) =
        switch-Paid target pf (both-IsClean target) free_switch
    perform-Paid Action.hold = same_paid pf
    perform-Paid Action.init = same_paid pf
    perform-Paid Action.hodl_recall =
        relabelled pf _ (recall-Paid EventType.hodl_recalled Action.hodl_recall pf) _ _ _ _ _ _ true

    settle-IsBalanced :
        (action : Action R) → Balanced pf (settle params env (perform params env action pf)).0
    unfolding settle
    settle-IsBalanced action =
        let out = perform params env action pf in
        let paid = pay_gas params.gas_cost_usd out.portfolio in
        either (λ (r : Portfolio R × R). Balanced pf r.0) (charges_gas params env out.name)
          (counted pf paid (
            then_balanced e q env.price pf out.portfolio paid (perform-Paid action)
              (pay_gas-IsBalanced e q env.price params.gas_cost_usd out.portfolio)))
          (perform-Paid action)

    action-IsBalanced :
        (action : Action R) (step : ℕ) → Balanced pf (execute_action params env action step pf)
    unfolding execute_action
    action-IsBalanced action step = relabelled pf _ (settle-IsBalanced action) _ _ _ _ _ _ _

    -- Every action, with its gas, changes the value by exactly what the cumulative totals change by,
    -- at the price that the square root price stands for, when that is positive, no switch cost is
    -- set, the lent USDG is not negative and a book without positions holds no fees.
    pub execute_action-net_income :
        (action : Action R) (step : ℕ)
        → let after = execute_action params env action step pf in
          portfolio_nav after env.sqrt_p env.price - net_income after.cum
          ≡ portfolio_nav pf env.sqrt_p env.price - net_income pf.cum
    execute_action-net_income action step =
        unexplained e q env.price pf _ (action-IsBalanced action step)
