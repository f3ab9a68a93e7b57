-- ===== src/Model/Policy/CarriedOut.antt =====
-- The actions that the keeper proposes are carried out in full by `_execute_action`.
use nvda_tranched_arc.Prelude.{
  Bool, true, false, not, ◌&&◌, ◌||◌, ◌≡◌, refl, Option, none, some, if◌then◌else◌, arith,
}
use nvda_tranched_arc.Number.{
  Number, ◌+◌, ◌-◌, ◌*◌, ◌/◌, ◌<◌, ◌≤◌, ◌<?◌, ◌≤?◌, num, min, max, IsOrdered,
}
use nvda_tranched_arc.Number.Order.{
  min-le_left, min-le_right, le_of_lt, lt_of_lt-le, lt_of_not-le, not-lt_of_le, le-max_left,
}
use nvda_tranched_arc.Lp.{Math}
use nvda_tranched_arc.Allocator.Borrow.{borrow_size}
use nvda_tranched_arc.Model.{Action, EventType, Portfolio, Params, Env, book_at}
use nvda_tranched_arc.Model.Books.{book_has_positions}
use nvda_tranched_arc.Model.Accounts.{dust_usd, dust_nvda, arm_caps, portfolio_nav}
use nvda_tranched_arc.Model.Execute.{perform, allocate_usdg, allocate_nvda, borrow_usdg, repay}
use nvda_tranched_arc.Model.Policy.{
  borrow_amount, entry_plan, return_plan, return_to_books_action, sentinel_action,
  deploy_to_arms_action, surplus_reserve, surplus_nvda, surplus_borrow, surplus_usdg,
  surplus_action, or_else,
}

-- What an outcome records when lending, posting, borrowing or repaying takes the whole amount.
abbrev pub Records : {R : Type 0} → Action R → Option (EventType R) → Type 0
Records (Action.allocate_usdg a) event = event ≡ some (EventType.allocated_usdg a)
Records (Action.allocate_nvda a) event = event ≡ some (EventType.allocated_nvda a)
Records (Action.borrow_usdg a) event = event ≡ some (EventType.borrowed a)
Records {R} (Action.repay a) event = (idle lent : R) × (event ≡ some (EventType.repaid a idle lent))
Records _ event = Unit

-- The execution of an action records all of it.
pub record IsCarriedOut {R : Type 0} ⦃n : Number R⦄ ⦃m : Math R⦄ (params : Params R) (env : Env R)
    (pf : Portfolio R) (action : Action R) : Type 0 where
  pub recorded : Records action (perform params env action pf).event

abbrev pub Proposed : {R : Type 0} → (Action R → Type 0) → Option (Action R) → Type 0
Proposed P none = Unit
Proposed P (some action) = P action

-- The same of a proposal, where there is one.
pub record IsFeasible {R : Type 0} ⦃n : Number R⦄ ⦃m : Math R⦄ (params : Params R) (env : Env R)
    (pf : Portfolio R) (proposal : Option (Action R)) : Type 0 where
  pub feasible : Proposed (IsCarriedOut params env pf) proposal

module _ {R : Type 0} ⦃n : Number R⦄ (o : IsOrdered R) where
  open o use {le_refl, le_trans, num-lt, sub-le}

  pub if_case :
      {A : Type 0} (P : A → Type 0) (b : Bool) (x y : A)
      → (b ≡ true → P x)
      → (b ≡ false → P y)
      → P (if b then x else y)
  if_case P true x y h k = h refl
  if_case P false x y h k = k refl

  pub and_right : (a b : Bool) → a && b ≡ true → b ≡ true
  and_right a b h = ground arith

  min_keeps : (a b : R) → a ≤ b → min a b ≡ a
  unfolding min
  min_keeps a b h = ground (arith, not-lt_of_le o a b h)

  -- The least of three is unchanged by the second and the third bound again.
  min_again : (p i r : R) → min (min (min (min p i) r) i) r ≡ min (min p i) r
  min_again p i r =
      rw
        (min_keeps (min (min p i) r) i
          (le_trans (min (min p i) r) (min p i) i (min-le_left o (min p i) r) (min-le_right o p i)))
        (min_keeps (min (min p i) r) r (min-le_right o (min p i) r))

  -- The same for the first of three bounds.
  min_thrice : (a r c : R) → min (min (min (min (min a r) c) a) r) c ≡ min (min a r) c
  min_thrice a r c =
      let x = min (min a r) c in
      let xm = min-le_left o (min a r) c in
      rw
        (
          min_keeps x a (le_trans x (min a r) a xm (min-le_left o a r)),
          min_keeps x r (le_trans x (min a r) r xm (min-le_right o a r)),
        )
        (min_keeps x c (min-le_right o (min a r) c))

  allocate_usdg-carried :
      (lend_cap p : R) (pf : Portfolio R)
      → let a = min (min p pf.idle_usdg) (max (num 0) (lend_cap - pf.arm.usdg_lent)) in
        dust_usd < a → (allocate_usdg lend_cap a pf).event ≡ some (EventType.allocated_usdg a)
  unfolding allocate_usdg
  allocate_usdg-carried lend_cap p pf h =
      rw (min_again p pf.idle_usdg (max (num 0) (lend_cap - pf.arm.usdg_lent)), h) refl

  allocate_nvda-carried :
      (cap price p : R) (pf : Portfolio R)
      → let room = max (num 0) (cap - pf.arm.nvda * price) in
        let a = min (min p pf.idle_nvda) (if num 0 <? price then room / price else num 0) in
        dust_nvda < a → (allocate_nvda cap price a pf).event ≡ some (EventType.allocated_nvda a)
  unfolding allocate_nvda
  allocate_nvda-carried cap price p pf h =
      rw
        (
          min_again p pf.idle_nvda
              (if num 0 <? price then max (num 0) (cap - pf.arm.nvda * price) / price else num 0),
          h,
        )
        refl

  borrow_usdg-carried :
      (params : Params R) (price : R) (pf : Portfolio R)
      → let a = borrow_amount params price pf.arm in
        dust_usd < a → (borrow_usdg params price a pf).event ≡ some (EventType.borrowed a)
  unfolding borrow_usdg borrow_amount
  borrow_usdg-carried params price pf h =
      let desired =
        borrow_size (pf.arm.nvda * price) params.ltv_bps params.max_ltv_bps params.hard_cap_bps in
      rw
        (
          min_thrice (max (num 0) (desired - pf.arm.debt))
              (max (num 0) (params.borrow_liquidity_usd - pf.arm.debt))
              params.max_borrow_per_call_usd,
          h,
        )
        refl

  repay-carried :
      (p : R) (pf : Portfolio R)
      → let a = min (min p (pf.idle_usdg + pf.arm.usdg_lent)) pf.arm.debt in
        dust_usd < a → (idle lent : R) × ((repay a pf).event ≡ some (EventType.repaid a idle lent))
  unfolding repay
  repay-carried p pf h =
      let a = min (min p (pf.idle_usdg + pf.arm.usdg_lent)) pf.arm.debt in
      let i = min a pf.idle_usdg in
      (
        i,
        min (a - i) pf.arm.usdg_lent,
        rw (min_again p (pf.idle_usdg + pf.arm.usdg_lent) pf.arm.debt, h) refl,
      )

  -- An excess over a reserve is within the holding.
  excess_again : (i r room : R) → num 0 ≤ r → min (min (min (i - r) room) i) room ≡ min (i - r) room
  excess_again i r room h =
      let x = min (i - r) room in
      rw (min_keeps x i (le_trans x (i - r) i (min-le_left o (i - r) room) (sub-le i r h)))
        (min_keeps x room (min-le_right o (i - r) room))

  -- The return's repayment: no more than the USDG there is.
  clamped_repay : (p i d : R) → dust_usd < min (min p (max (num 0) i)) d → max (num 0) i ≡ i
  unfolding max
  clamped_repay p i d h =
      let m = max (num 0) i in
      ground (
        arith,
        h,
        lt_of_lt-le o dust_usd (min (min p m) d) m h (
            le_trans (min (min p m) d) (min p m) m (min-le_left o (min p m) d)
              (min-le_right o p m)),
        not-lt_of_le o (num 0) (num 1) (le_of_lt o (num 0) (num 1) (num-lt 0 1 (omega arith))),
      )

  return_repay-carried :
      (p : R) (pf : Portfolio R)
      → let a = min (min p (max (num 0) (pf.idle_usdg + pf.arm.usdg_lent))) pf.arm.debt in
        dust_usd < a → (idle lent : R) × ((repay a pf).event ≡ some (EventType.repaid a idle lent))
  return_repay-carried p pf h =
      let same = clamped_repay p (pf.idle_usdg + pf.arm.usdg_lent) pf.arm.debt h in
      rw same (repay-carried p pf (rw same at h))

  lend_excess-carried :
      (lend_cap reserve : R) (pf : Portfolio R)
      → num 0 ≤ reserve
      → let a = min (pf.idle_usdg - reserve) (max (num 0) (lend_cap - pf.arm.usdg_lent)) in
        dust_usd < a → (allocate_usdg lend_cap a pf).event ≡ some (EventType.allocated_usdg a)
  unfolding allocate_usdg
  lend_excess-carried lend_cap reserve pf hr h =
      let room = max (num 0) (lend_cap - pf.arm.usdg_lent) in
      let a = min (pf.idle_usdg - reserve) room in
      rw (excess_again pf.idle_usdg reserve room hr, h) refl

  post_excess-carried :
      (cap reserve price : R) (pf : Portfolio R)
      → num 0 ≤ reserve
      → num 0 < price
      → let a = min (pf.idle_nvda - reserve) (max (num 0) (cap - pf.arm.nvda * price) / price) in
        dust_nvda < a → (allocate_nvda cap price a pf).event ≡ some (EventType.allocated_nvda a)
  unfolding allocate_nvda
  post_excess-carried cap reserve price pf hr hp h =
      rw
        (
          hp,
          excess_again pf.idle_nvda reserve (max (num 0) (cap - pf.arm.nvda * price) / price) hr,
          h,
        )
        refl

module _ {R : Type 0} ⦃n : Number R⦄ ⦃m : Math R⦄ (o : IsOrdered R) (params : Params R)
    (env : Env R) (pf : Portfolio R) where
  open o use {le_trans, div_nonneg}

  abbrev Carried : Action R → Type 0
  Carried = IsCarriedOut params env pf

  abbrev AllCarried : Option (Action R) → Type 0
  AllCarried = IsFeasible params env pf

  -- The portfolio can do in full what the move into the arms proposes.
  pub deploy_to_arms_action-IsCarriedOut : Carried (deploy_to_arms_action pf env params)
  unfolding deploy_to_arms_action perform
  deploy_to_arms_action-IsCarriedOut =
      if_case o Carried _ _ _
        (λ h. record {
          recorded =
              allocate_usdg-carried o (arm_caps pf params env.sqrt_p env.price).1
                (entry_plan pf env.price params).usdg_move pf h;
        })
        (λ _.
          if_case o Carried _ _ _
            (λ h. record {
              recorded =
                  allocate_nvda-carried o (arm_caps pf params env.sqrt_p env.price).0 env.price
                    (entry_plan pf env.price params).nvda_move pf h;
            })
            (λ _.
              if_case o Carried _ _ _
                (λ h. record {
                  recorded = borrow_usdg-carried o params env.price pf (
                      and_right o (dust_nvda <? pf.arm.nvda)
                        (dust_usd <? borrow_amount params env.price pf.arm) h);
                })
                (λ _.
                  if_case o Carried (book_has_positions (book_at pf pf.active_book))
                    Action.recall_book Action.hold (λ _. record { recorded = tt })
                    (λ _. record { recorded = tt }))))

  pub return_to_books_action-IsCarriedOut : Carried (return_to_books_action pf params)
  unfolding return_to_books_action perform
  return_to_books_action-IsCarriedOut =
      if_case o Carried (dust_usd <? pf.arm.debt) _ _
        (λ _.
          if_case o Carried
            (dust_usd
              <? min
                  (min (return_plan pf params).repay
                    (max (num 0) (pf.idle_usdg + pf.arm.usdg_lent)))
                  pf.arm.debt)
            _ _
            (λ h. record { recorded = return_repay-carried o (return_plan pf params).repay pf h })
            (λ _. record { recorded = tt }))
        (λ _.
          if_case o Carried (dust_nvda <? pf.arm.nvda) _ _ (λ _. record { recorded = tt })
            (λ _.
              if_case o Carried (dust_usd <? pf.arm.usdg_lent) _ _ (λ _. record { recorded = tt })
                (λ _.
                  if_case o Carried (not (book_has_positions (book_at pf pf.active_book))) _ _
                    (λ _. record { recorded = tt }) (λ _. record { recorded = tt }))))

  pub sentinel_action-IsCarriedOut : AllCarried (sentinel_action pf pf.arm env.price params)
  unfolding sentinel_action perform
  sentinel_action-IsCarriedOut =
      let p = pf.arm.debt * params.delever_bps / num 10_000 in
      if_case o AllCarried (not params.sentinel_enabled) _ _ (λ _. record { feasible = tt })
        (λ _.
          if_case o AllCarried ((pf.arm.debt ≤? dust_usd) || (pf.arm.nvda ≤? dust_nvda)) _ _
            (λ _. record { feasible = tt })
            (λ _.
              if_case o AllCarried
                (not (
                  (params.lltv * (pf.arm.nvda * env.price) / pf.arm.debt
                    <? params.min_health_factor)
                  || (params.max_borrow_apr_bps <? params.arm_borrow_apr * num 10_000)))
                _ _ (λ _. record { feasible = tt })
                (λ _.
                  if_case o AllCarried
                    (min (min p (pf.idle_usdg + pf.arm.usdg_lent)) pf.arm.debt ≤? dust_usd) _ _
                    (λ _. record { feasible = tt })
                    (λ h. record {
                      feasible = record {
                        recorded = repay-carried o p pf (
                            lt_of_not-le o dust_usd
                              (min (min p (pf.idle_usdg + pf.arm.usdg_lent)) pf.arm.debt) h);
                      };
                    }))))

  surplus_borrow-IsCarriedOut : AllCarried (surplus_borrow pf env params)
  unfolding surplus_borrow perform
  surplus_borrow-IsCarriedOut =
      if_case o AllCarried (params.surplus_borrow && (dust_nvda <? pf.arm.nvda)) _ _
        (λ _.
          if_case o AllCarried (dust_usd <? borrow_amount params env.price pf.arm) _ _
            (λ h. record {
              feasible = record { recorded = borrow_usdg-carried o params env.price pf h };
            })
            (λ _. record { feasible = tt }))
        (λ _. record { feasible = tt })

  module _ (hr : num 0 ≤ params.inventory_reserve_usd) where
    reserve_nonneg : num 0 ≤ surplus_reserve pf env params
    reserve_nonneg =
        le_trans (num 0) params.inventory_reserve_usd (surplus_reserve pf env params) hr (
          le-max_left o params.inventory_reserve_usd
            (params.inventory_reserve_pct * portfolio_nav pf env.sqrt_p env.price))

    surplus_usdg-IsCarriedOut : AllCarried (surplus_usdg pf env params)
    unfolding surplus_usdg perform
    surplus_usdg-IsCarriedOut =
        if_case o AllCarried
          (surplus_reserve pf env params + params.surplus_usdg_min_usd <? pf.idle_usdg) _ _
          (λ _.
            if_case o AllCarried
              (dust_usd
                <? min (pf.idle_usdg - surplus_reserve pf env params)
                    (max (num 0) ((arm_caps pf params env.sqrt_p env.price).1 - pf.arm.usdg_lent)))
              _ _
              (λ h. record {
                feasible = record {
                  recorded =
                      lend_excess-carried o (arm_caps pf params env.sqrt_p env.price).1
                        (surplus_reserve pf env params) pf reserve_nonneg h;
                };
              })
              (λ _. record { feasible = tt }))
          (λ _. record { feasible = tt })

    surplus_nvda-IsCarriedOut : num 0 < env.price → AllCarried (surplus_nvda pf env params)
    unfolding surplus_nvda perform
    surplus_nvda-IsCarriedOut hp =
        if_case o AllCarried
          (surplus_reserve pf env params / env.price + params.surplus_nvda_min_usd / env.price
            <? pf.idle_nvda)
          _ _
          (λ _.
            if_case o AllCarried
              (dust_nvda
                <? min (pf.idle_nvda - surplus_reserve pf env params / env.price) (
                    max (num 0)
                      ((arm_caps pf params env.sqrt_p env.price).0 - pf.arm.nvda * env.price)
                    / env.price))
              _ _
              (λ h. record {
                feasible = record {
                  recorded =
                      post_excess-carried o (arm_caps pf params env.sqrt_p env.price).0
                        (surplus_reserve pf env params / env.price) env.price pf
                        (div_nonneg (surplus_reserve pf env params) env.price reserve_nonneg hp) hp
                        h;
                };
              })
              (λ _. record { feasible = tt }))
          (λ _. record { feasible = tt })

    or_else-AllCarried :
        (a b : Option (Action R)) → AllCarried a → AllCarried b → AllCarried (or_else a b)
    or_else-AllCarried none b h k = k
    or_else-AllCarried (some a) b h k = h

    pub surplus_action-IsCarriedOut : AllCarried (surplus_action pf env params)
    unfolding surplus_action
    surplus_action-IsCarriedOut =
        if_case o AllCarried (not params.surplus_sweep) _ _ (λ _. record { feasible = tt })
          (λ _.
            if_case o AllCarried (env.price ≤? num 0) _ _ (λ _. record { feasible = tt })
              (λ h.
                or_else-AllCarried (surplus_nvda pf env params) _
                  (surplus_nvda-IsCarriedOut (lt_of_not-le o (num 0) env.price h))
                  (or_else-AllCarried (surplus_borrow pf env params) (surplus_usdg pf env params)
                    surplus_borrow-IsCarriedOut surplus_usdg-IsCarriedOut)))
