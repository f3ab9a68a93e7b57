-- ===== src/Model/Decision.antt =====
-- `p_decision` of research/cadcad/allocator/model.py: the action of the hour. What `_fee_il_streak`
-- counts is an argument, `streak`.
pub mod Feasible
pub mod Pull
use Prim.Native.Nat.{◌%◌, max as nat_max}
use nvda_tranched_arc.Prelude.{
  ℕ, suc, Bool, true, false, not, ◌&&◌, ◌||◌, Option, none, some, List, [], ◌∷◌, if◌then◌else◌, ltb,
}
use nvda_tranched_arc.Number.{Number, ◌+◌, ◌<?◌, num, max}
use nvda_tranched_arc.Lp.{Math}
use nvda_tranched_arc.Allocator.{BookName, book_a, book_b, Mode, books, arms, Risk, normal, high}
use nvda_tranched_arc.Allocator.Switch.{Candidate, SwitchAction, decide_pool_switch, same_book}
use nvda_tranched_arc.Model.{
  Action, Book, Portfolio, Params, Env, book_at, PolicyName, allocator, hodl, always_arms,
  risk_only, risk_fee_il, always_a, always_b, hours_since, row_of,
}
use nvda_tranched_arc.Model.Books.{book_has_positions}
use nvda_tranched_arc.Model.Policy.{
  deploy_to_arms_action, return_to_books_action, sentinel_action, recenter_action, surplus_action,
}

abbrev pub is_some : {A : Type 0} → Option A → Bool
is_some none = false
is_some (some a) = true

abbrev pub is_arms : Mode → Bool
is_arms arms = true
is_arms books = false

abbrev pub is_high : Risk → Bool
is_high high = true
is_high normal = false

abbrev pub other_book : BookName → BookName
other_book book_a = book_b
other_book book_b = book_a

-- `step % max(1, hours) == 0`
abbrev pub is_due : (step hours : ℕ) → Bool
is_due step hours = ltb (step % nat_max 1 hours) 1

abbrev pub warms_up : PolicyName → Bool
warms_up hodl = false
warms_up always_arms = false
warms_up _ = true

-- The index among all the bins of an index among all but the first.
abbrev pub next_bin : Option ℕ → Option ℕ
next_bin none = none
next_bin (some i) = some (suc i)

module _ {R : Type 0} ⦃n : Number R⦄ where
  -- The first five-minute bin above the pull threshold.
  unfoldable pub first_guard_pull_bin : List R → R → Option ℕ
  first_guard_pull_bin [] threshold = none
  first_guard_pull_bin (move ∷ moves) threshold =
      let later = first_guard_pull_bin moves threshold in
      if threshold <? move then some 0 else next_bin later

  unfoldable pub count_guard_pulls : List R → R → ℕ
  count_guard_pulls moves threshold =
      if is_some (first_guard_pull_bin moves threshold) then 1 else 0

  -- `metrics[i]`, where the list is long enough.
  abbrev pub metric_at : List (Candidate R) → BookName → Option (Candidate R)
  metric_at [] name = none
  metric_at (c ∷ cs) book_a = some c
  metric_at (c ∷ []) book_b = none
  metric_at (c ∷ d ∷ cs) book_b = some d

  abbrev pub risk_high_of : Option (Candidate R) → Bool
  risk_high_of none = false
  risk_high_of (some c) = is_high c.risk

  abbrev pub net_of : Option (Candidate R) → R
  net_of none = num 0
  net_of (some c) = c.net_apr_bps

  abbrev pub name_or : BookName → Option (Candidate R) → BookName
  name_or default none = default
  name_or default (some c) = c.name

  abbrev pub is_paused : Env R → Bool
  is_paused env = env.depeg_paused || (env.controller_paused || env.switch_frozen)

  -- The guard is absent, was pulled recently or is pulled too often this hour.
  unfoldable pub guard_off : Params R → Env R → ℕ → BookName → Book R → Bool
  unfolding first_guard_pull_bin count_guard_pulls
  guard_off params env step active book =
      not book.guard_present
      || ((is_some book.last_pull_step
            && ltb (hours_since step book.last_pull_step) params.guard_cooldown_hours)
          || ltb params.max_guard_pulls (
              count_guard_pulls (row_of env active).five_min_moves params.guard_pull_threshold_bps))

  -- Recall while a pause is on.
  abbrev pub paused_action : Book R → Action R
  paused_action book = if book_has_positions book then Action.recall_book else Action.hold

  -- The policies `always_a` and `always_b`.
  unfoldable pub always_action : BookName → Portfolio R → Action R
  always_action target pf =
      let stays = same_book target pf.active_book in
      if not stays && book_has_positions (book_at pf pf.active_book)
      then Action.switch_book target
      else if stays && book_has_positions (book_at pf target)
      then Action.hold
      else Action.fund_book target

  -- A better opportunity in the other book.
  unfoldable pub opportunity_action :
      Portfolio R → List (Candidate R) → ℕ → Params R → Option (Action R)
  opportunity_action pf metrics step params =
      let other = metric_at metrics (other_book pf.active_book) in
      let cur_net = net_of (metric_at metrics pf.active_book) in
      let wanted =
        max params.opportunity_min_net_apr_bps (cur_net + params.opportunity_buffer_bps) in
      if ltb 0 params.opportunity_window_hours
        && (book_has_positions (book_at pf pf.active_book)
            && (not (is_arms pf.mode) && is_due step params.opportunity_check_hours))
      then (if not (risk_high_of other) && (wanted <? net_of other)
          then some (Action.switch_book (name_or (other_book pf.active_book) other))
          else none)
      else none

  -- Return from the arms or fund an empty book; otherwise hold.
  unfoldable pub return_or_hold : Portfolio R → Params R → Action R
  return_or_hold pf params =
      if is_arms pf.mode || not (book_has_positions (book_at pf pf.active_book))
      then return_to_books_action pf params
      else Action.hold

  -- The first proposal that is made.
  abbrev pub or_action : Option (Action R) → Action R → Action R
  or_action none a = a
  or_action (some p) a = p

module _ {R : Type 0} ⦃n : Number R⦄ ⦃m : Math R⦄ where
  -- `risk_only` and `risk_fee_il` once the risk is normal.
  unfoldable pub hold_book_action :
      Portfolio R
      → Env R
      → List (Candidate R)
      → (step streak : ℕ) → Params R
      → (gated : Bool) → Action R
  hold_book_action pf env metrics step streak params gated =
      let deployed = book_has_positions (book_at pf pf.active_book) in
      let surplus =
        if deployed && not (is_arms pf.mode) then surplus_action pf env params else none in
      let rest =
        or_action surplus
          (or_action (opportunity_action pf metrics step params) (return_or_hold pf params)) in
      let after_recenter =
        if (gated && deployed) && not (ltb streak (nat_max 1 params.fee_il_confirm_hours))
        then deploy_to_arms_action pf env params
        else rest in
      or_action (recenter_action pf env params) after_recenter

  -- `risk_only` and `risk_fee_il`.
  unfoldable pub risk_action :
      Portfolio R
      → Env R
      → List (Candidate R)
      → (step streak : ℕ) → Params R
      → (gated : Bool) → Action R
  risk_action pf env metrics step streak params gated =
      let active = pf.active_book in
      let book = book_at pf active in
      let risk_high = risk_high_of (metric_at metrics active) in
      let guard_trigger = book_has_positions book && guard_off params env step active book in
      let normal_action =
        if (same_book active book_b && risk_high)
          && (is_some (metric_at metrics book_a) && not (risk_high_of (metric_at metrics book_a)))
        then Action.switch_book book_a
        else if guard_trigger || risk_high
        then deploy_to_arms_action pf env params
        else hold_book_action pf env metrics step streak params gated in
      if is_paused env
      then paused_action book
      else or_action (sentinel_action pf pf.arm env.price params) normal_action

  -- What follows from the pool switch decision.
  unfoldable pub switched_action : Portfolio R → Env R → Params R → SwitchAction R → Action R
  switched_action pf env params SwitchAction.arms = deploy_to_arms_action pf env params
  switched_action pf env params (SwitchAction.hold_best name) = return_or_hold pf params
  switched_action pf env params (SwitchAction.hold_current name) = return_or_hold pf params
  switched_action pf env params (SwitchAction.switch name net) =
      if is_arms pf.mode then return_to_books_action pf params else Action.switch_book name

  -- The policy `allocator`.
  unfoldable pub allocator_action :
      Portfolio R → Env R → List (Candidate R) → ℕ → Params R → Action R
  allocator_action pf env metrics step params =
      let active = pf.active_book in
      let book = book_at pf active in
      let risk_high = risk_high_of (metric_at metrics active) in
      let off = guard_off params env step active book in
      let guard_trigger =
        if params.fix_empty_book_guard then book_has_positions book && off else off in
      let recenter = if is_arms pf.mode then none else recenter_action pf env params in
      let decision = decide_pool_switch metrics (some active) params.switch_buffer_bps in
      let scan =
        if not (is_arms pf.mode) && not (is_due step params.opportunity_check_hours)
        then Action.hold
        else switched_action pf env params decision.action in
      let normal_action =
        if guard_trigger || risk_high
        then deploy_to_arms_action pf env params
        else or_action recenter scan in
      if is_paused env
      then paused_action book
      else or_action (sentinel_action pf pf.arm env.price params) normal_action

  -- The action of a policy after the warm-up.
  unfoldable pub policy_action :
      PolicyName
      → Portfolio R
      → Env R
      → List (Candidate R)
      → (step streak : ℕ) → Params R
      → Action R
  policy_action hodl pf env metrics step streak params = Action.hold
  policy_action always_arms pf env metrics step streak params = deploy_to_arms_action pf env params
  policy_action always_a pf env metrics step streak params = always_action book_a pf
  policy_action always_b pf env metrics step streak params = always_action book_b pf
  policy_action risk_only pf env metrics step streak params =
      if is_due step params.allocator_interval_hours
      then risk_action pf env metrics step streak params false
      else Action.hold
  policy_action risk_fee_il pf env metrics step streak params =
      risk_action pf env metrics step streak params true
  policy_action allocator pf env metrics step streak params =
      if is_due step params.allocator_interval_hours
      then allocator_action pf env metrics step params
      else Action.hold

  unfoldable pub p_decision :
      Portfolio R → Env R → List (Candidate R) → (step streak : ℕ) → Params R → Action R
  p_decision pf env metrics step streak params =
      if ltb step params.warmup_hours && warms_up params.policy
      then Action.hold
      else policy_action params.policy pf env metrics step streak params
