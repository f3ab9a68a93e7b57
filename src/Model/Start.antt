-- ===== src/Model/Start.antt =====
-- `_depeg_flag`, `_book_template` and the portfolio of `build_initial_state` of
-- research/cadcad/allocator/model.py: the start of a run.
pub mod Worth
use Prim.Native.Nat.{◌+◌ as nat_add}
use nvda_tranched_arc.Prelude.{ℕ, Bool, true, false, not, ◌&&◌, none, [], if◌then◌else◌, ltb}
use nvda_tranched_arc.Number.{Number, ◌+◌, ◌-◌, ◌*◌, ◌==?◌, num, min, max}
use nvda_tranched_arc.Lp.{Math, liquidity_for_value, price_from_tick}
use nvda_tranched_arc.Allocator.{BookName, book_a, book_b, books, arms}
use nvda_tranched_arc.Model.{
  Book, Arm, Cum, Portfolio, Action, ScenarioRow, DepegMode, PolicyName, Params, Env, set_book, off,
  proxy, shock, hodl, always_arms, always_b,
}
use nvda_tranched_arc.Model.Books.{book_tokens}

-- The policies that start without a book.
abbrev pub starts_idle : PolicyName → Bool
starts_idle hodl = true
starts_idle always_arms = true
starts_idle _ = false

abbrev pub is_always_b : PolicyName → Bool
is_always_b always_b = true
is_always_b _ = false

abbrev pub is_always_arms : PolicyName → Bool
is_always_arms always_arms = true
is_always_arms _ = false

module _ {R : Type 0} ⦃n : Number R⦄ ⦃m : Math R⦄ where
  unfoldable pub depeg_of : DepegMode → Params R → ℕ → ScenarioRow R → Bool
  depeg_of off params step row = false
  depeg_of proxy params step row = not (m.trunc row.first_row.depeg_proxy ==? num 0)
  depeg_of shock params step row =
      not (ltb step params.depeg_start) && ltb step (nat_add params.depeg_start params.depeg_hours)

  -- `_depeg_flag`, as the truth value that its readers take.
  abbrev pub depeg_flag : Params R → ℕ → ScenarioRow R → Bool
  depeg_flag params step row = depeg_of params.depeg_mode params step row

  abbrev pub no_arm : Arm R
  no_arm = record { nvda = num 0; debt = num 0; usdg_lent = num 0; bad_debt = num 0 }

  abbrev pub zero_totals : Cum R
  zero_totals = record {
    fees = num 0;
    guard_fees = num 0;
    arm_interest = num 0;
    borrow_cost = num 0;
    nvda_yield = num 0;
    gas = num 0;
    switch_cost = num 0;
    swap_cost = num 0;
    liquidation_loss = num 0;
    guard_pulls = num 0;
    actions = num 0;
  }

  unfoldable pub book_template : (tick sqrt_p base_capital guard_capital : R) → Params R → Book R
  book_template tick sqrt_p base_capital guard_capital params =
      let base_lo = tick - params.base_width_ticks in
      let base_hi = tick + params.base_width_ticks in
      let guard_lo = tick - params.guard_width_ticks in
      let guard_hi = tick + params.guard_width_ticks in
      record {
        deployed = false;
        base_l = num 0;
        guard_l = num 0;
        base_lo = base_lo;
        base_hi = base_hi;
        guard_lo = guard_lo;
        guard_hi = guard_hi;
        entry_tick = tick;
        fees = num 0;
        guard_present = false;
        last_pull_step = none;
        target_base_l = liquidity_for_value base_capital sqrt_p base_lo base_hi;
        target_guard_l = liquidity_for_value guard_capital sqrt_p guard_lo guard_hi;
        cum_fees = num 0;
        base_skew_ticks = num 0;
      }

  -- The book at its target.
  abbrev pub at_target : Book R → Book R
  at_target book = record book {
    deployed = true;
    base_l = book.target_base_l;
    guard_l = book.target_guard_l;
    guard_present = true;
  }

  -- The environment of an hour.
  unfoldable pub env_of : Params R → ℕ → ScenarioRow R → Env R
  env_of params step row = record {
    tick = row.tick;
    sqrt_p = row.sqrt_p;
    price = price_from_tick row.tick;
    depeg_paused = depeg_flag params step row;
    controller_paused = params.controller_paused;
    switch_frozen = params.switch_frozen;
    first_row = row.first_row;
    second_row = row.second_row;
  }

  -- The capital of the book at the start.
  abbrev pub start_capital : Params R → R
  start_capital params = min params.book_capital_usd params.initial_nav_usd

  abbrev pub start_template : Params R → ScenarioRow R → Book R
  start_template params row =
      let capital = start_capital params in
      book_template row.tick row.sqrt_p (capital * (num 1 - params.guard_share))
        (capital * params.guard_share) params

  -- The tokens of the book that is held, with the quote that is not deployed.
  abbrev pub hold_tokens : Params R → ScenarioRow R → R × R
  hold_tokens params row =
      let t = book_tokens (at_target (start_template params row)) row.sqrt_p in
      (t.0 + max (num 0) (params.initial_nav_usd - start_capital params), t.1)

  -- The portfolio with the held tokens idle, or with the active book at its target.
  unfoldable pub opening :
      (idle : Bool) (active : BookName) → Params R → ScenarioRow R → Portfolio R
  opening idle active params row =
      let template = start_template params row in
      let hold = hold_tokens params row in
      let pf : Portfolio R = record {
        active_book = active;
        first_book = template;
        second_book = template;
        idle_usdg =
            if idle then hold.0 else max (num 0) (params.initial_nav_usd - start_capital params);
        idle_nvda = if idle then hold.1 else num 0;
        arm = no_arm;
        mode = if is_always_arms params.policy then arms else books;
        last_action = Action.init;
        last_events = [];
        last_costs = num 0;
        nav_before = params.initial_nav_usd;
        nav_after = params.initial_nav_usd;
        hodl_usdg = hold.0;
        hodl_nvda = hold.1;
        cum = zero_totals;
        hodl_mode = false;
      } in
      if idle then pf else set_book active (at_target template) pf

  abbrev pub start_book : Params R → BookName
  start_book params =
      if is_always_b params.policy
      then book_b
      else if params.starts_in_second
      then book_b
      else book_a

  unfoldable pub initial_portfolio : Params R → ScenarioRow R → Portfolio R
  initial_portfolio params row = opening (starts_idle params.policy) (start_book params) params row
