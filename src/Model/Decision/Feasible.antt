-- ===== src/Model/Decision/Feasible.antt =====
-- Whatever `p_decision` of research/cadcad/allocator/model.py decides, the portfolio can carry out.
use nvda_tranched_arc.Prelude.{
  ℕ, Bool, true, false, not, ◌&&◌, ◌||◌, Option, none, some, List, if◌then◌else◌, ltb, either,
}
use Prim.Native.Nat.{max as nat_max}
use nvda_tranched_arc.Number.{Number, ◌+◌, ◌-◌, ◌*◌, ◌/◌, ◌<?◌, ◌≤?◌, ◌≤◌, num, max, abs, IsOrdered}
use nvda_tranched_arc.Lp.{Math, price_from_tick}
use nvda_tranched_arc.Allocator.{BookName, book_a, book_b}
use nvda_tranched_arc.Allocator.Switch.{Candidate, SwitchAction, decide_pool_switch, same_book}
use nvda_tranched_arc.Model.{
  Action, Book, Portfolio, Params, Env, book_at, PolicyName, allocator, hodl, always_arms,
  risk_only, risk_fee_il, always_a, always_b,
}
use nvda_tranched_arc.Model.Books.{book_has_positions}
use nvda_tranched_arc.Model.Policy.{
  recenter_action, surplus_action, deploy_to_arms_action, return_to_books_action, sentinel_action,
}
use nvda_tranched_arc.Model.Policy.CarriedOut.{
  IsCarriedOut, IsFeasible, deploy_to_arms_action-IsCarriedOut, return_to_books_action-IsCarriedOut,
  sentinel_action-IsCarriedOut, surplus_action-IsCarriedOut,
}
use nvda_tranched_arc.Model.Decision.{
  always_action, opportunity_action, return_or_hold, or_action, hold_book_action, risk_action,
  switched_action, allocator_action, policy_action, p_decision, paused_action, is_some, is_arms,
  is_due, other_book, is_paused, metric_at, risk_high_of, net_of, name_or, guard_off, warms_up,
}

module _ {R : Type 0} ⦃n : Number R⦄ ⦃m : Math R⦄ (o : IsOrdered R) (params : Params R)
    (env : Env R) (pf : Portfolio R) (hr : num 0 ≤ params.inventory_reserve_usd) where
  abbrev Done : Action R → Type 0
  Done = IsCarriedOut params env pf

  or_action-Done :
      (p : Option (Action R)) (a : Action R)
      → IsFeasible params env pf p
      → Done a
      → Done (or_action p a)
  or_action-Done none a h k = k
  or_action-Done (some p) a h k = h.feasible

  hold-Done : Done Action.hold
  hold-Done = record { recorded = tt }

  switch-Done : (b : BookName) → Done (Action.switch_book b)
  switch-Done b = record { recorded = tt }

  abbrev deploy-Done : Done (deploy_to_arms_action pf env params)
  deploy-Done = deploy_to_arms_action-IsCarriedOut o params env pf

  return-Done : Done (return_to_books_action pf params)
  return-Done = return_to_books_action-IsCarriedOut o params env pf

  no_proposal : IsFeasible params env pf none
  no_proposal = record { feasible = tt }

  recenter-Done : Done Action.recenter_book
  recenter-Done = record { recorded = tt }

  recall-Done : Done Action.recall_book
  recall-Done = record { recorded = tt }

  proposed : (a : Action R) → Done a → IsFeasible params env pf (some a)
  proposed a h = record { feasible = h }

  abbrev deployed : Bool
  deployed = book_has_positions (book_at pf pf.active_book)

  recenter-IsFeasible : IsFeasible params env pf (recenter_action pf env params)
  unfolding recenter_action
  recenter-IsFeasible =
      let entry_price = price_from_tick (book_at pf pf.active_book).entry_tick in
      let move_bps = abs (env.price / entry_price - num 1) * num 10_000 in
      either (IsFeasible params env pf) (params.recenter_threshold_bps ≤? num 0) no_proposal (
        either (IsFeasible params env pf) (not deployed) no_proposal (
          either (IsFeasible params env pf) (entry_price ≤? num 0) no_proposal (
            either (IsFeasible params env pf) (params.recenter_threshold_bps ≤? move_bps)
              (proposed Action.recenter_book recenter-Done) no_proposal)))

  paused-Done : (book : Book R) → Done (paused_action book)
  paused-Done book = either Done (book_has_positions book) recall-Done hold-Done

  return_or_hold-Done : Done (return_or_hold pf params)
  unfolding return_or_hold
  return_or_hold-Done = either Done (is_arms pf.mode || not deployed) return-Done hold-Done

  always-Done : (target : BookName) → Done (always_action target pf)
  unfolding always_action
  always-Done target =
      let stays = same_book target pf.active_book in
      either Done (not stays && deployed) (switch-Done target) (
        either Done (stays && book_has_positions (book_at pf target)) hold-Done
          (record { recorded = tt }))

  switched-Done : (a : SwitchAction R) → Done (switched_action pf env params a)
  unfolding switched_action
  switched-Done SwitchAction.arms = deploy-Done
  switched-Done (SwitchAction.hold_best name) = return_or_hold-Done
  switched-Done (SwitchAction.hold_current name) = return_or_hold-Done
  switched-Done (SwitchAction.switch name net) =
      either Done (is_arms pf.mode) return-Done (switch-Done name)

  sentinel-first :
      (book : Book R) (a : Action R)
      → Done a
      → Done (
          if is_paused env
          then paused_action book
          else or_action (sentinel_action pf pf.arm env.price params) a)
  sentinel-first book a h = either Done (is_paused env) (paused-Done book) (
      or_action-Done (sentinel_action pf pf.arm env.price params) a
        (sentinel_action-IsCarriedOut o params env pf) h)

  module _ (metrics : List (Candidate R)) (step streak : ℕ) where
    opportunity-IsFeasible : IsFeasible params env pf (opportunity_action pf metrics step params)
    unfolding opportunity_action
    opportunity-IsFeasible =
        let other = metric_at metrics (other_book pf.active_book) in
        let name = name_or (other_book pf.active_book) other in
        either (IsFeasible params env pf)
          (ltb 0 params.opportunity_window_hours
            && (deployed && (not (is_arms pf.mode) && is_due step params.opportunity_check_hours)))
          (either (IsFeasible params env pf)
            (not (risk_high_of other)
              && (max params.opportunity_min_net_apr_bps
                    (net_of (metric_at metrics pf.active_book) + params.opportunity_buffer_bps)
                  <? net_of other))
            (proposed (Action.switch_book name) (switch-Done name)) no_proposal)
          no_proposal

    hold_book-Done :
        (gated : Bool) → Done (hold_book_action pf env metrics step streak params gated)
    unfolding hold_book_action
    hold_book-Done gated = or_action-Done (recenter_action pf env params) _ recenter-IsFeasible (
        either Done
          ((gated && deployed) && not (ltb streak (nat_max 1 params.fee_il_confirm_hours)))
          deploy-Done
          (or_action-Done
            (if deployed && not (is_arms pf.mode) then surplus_action pf env params else none) _
            (either (IsFeasible params env pf) (deployed && not (is_arms pf.mode))
              (surplus_action-IsCarriedOut o params env pf hr) no_proposal)
            (or_action-Done (opportunity_action pf metrics step params) (return_or_hold pf params)
              opportunity-IsFeasible return_or_hold-Done)))

    risk-Done : (gated : Bool) → Done (risk_action pf env metrics step streak params gated)
    unfolding risk_action
    risk-Done gated =
        let active = pf.active_book in
        let risk_high = risk_high_of (metric_at metrics active) in
        sentinel-first (book_at pf active) _ (
          either Done
            ((same_book active book_b && risk_high)
              && (is_some (metric_at metrics book_a)
                  && not (risk_high_of (metric_at metrics book_a))))
            (switch-Done book_a)
            (either Done
              ((deployed && guard_off params env step active (book_at pf active)) || risk_high)
              deploy-Done (hold_book-Done gated)))

    allocator-Done : Done (allocator_action pf env metrics step params)
    unfolding allocator_action
    allocator-Done =
        let active = pf.active_book in
        let off = guard_off params env step active (book_at pf active) in
        let decision = decide_pool_switch metrics (some active) params.switch_buffer_bps in
        sentinel-first (book_at pf active) _ (
          either Done
            ((if params.fix_empty_book_guard then deployed && off else off)
              || risk_high_of (metric_at metrics active))
            deploy-Done
            (or_action-Done (if is_arms pf.mode then none else recenter_action pf env params) _
              (either (IsFeasible params env pf) (is_arms pf.mode) no_proposal recenter-IsFeasible)
              (either Done
                (not (is_arms pf.mode) && not (is_due step params.opportunity_check_hours))
                hold-Done (switched-Done decision.action))))

    policy-Done :
        (policy : PolicyName) → Done (policy_action policy pf env metrics step streak params)
    unfolding policy_action
    policy-Done hodl = hold-Done
    policy-Done always_arms = deploy-Done
    policy-Done always_a = always-Done book_a
    policy-Done always_b = always-Done book_b
    policy-Done risk_only =
        either Done (is_due step params.allocator_interval_hours) (risk-Done false) hold-Done
    policy-Done risk_fee_il = risk-Done true
    policy-Done allocator =
        either Done (is_due step params.allocator_interval_hours) allocator-Done hold-Done

    -- If a policy decides to lend, post, borrow or repay an amount, executing the decision on the same
    -- portfolio takes the whole amount: it is neither capped nor turned into a hold. The reserve of
    -- the surplus sweep is not negative.
    pub p_decision-IsCarriedOut :
        IsCarriedOut params env pf (p_decision pf env metrics step streak params)
    unfolding p_decision
    p_decision-IsCarriedOut =
        either Done (ltb step params.warmup_hours && warms_up params.policy) hold-Done
          (policy-Done params.policy)
