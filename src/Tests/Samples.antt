-- ===== src/Tests/Samples.antt =====
-- The rationals with stand-ins for `math` functions, and sample parameters and portfolios.
use nvda_tranched_arc.Prelude.{true, false, refl, none, some, [], ◌∷◌, if◌then◌else◌, arith}
use nvda_tranched_arc.Number.{Number, ◌+◌, ◌-◌, ◌*◌, ◌/◌, ◌<◌, ◌≤?◌, num, IsExact}
use nvda_tranched_arc.Number.Rational.{ℚ, rational}
use nvda_tranched_arc.Number.RationalLaws.{exact}
use nvda_tranched_arc.Number.Order.{lt_of_lt-le}
use nvda_tranched_arc.Number.Algebra.{one-le_plus}
use nvda_tranched_arc.Lp.{Math}
use nvda_tranched_arc.Lp.Amounts.{IsPositive}
use nvda_tranched_arc.Allocator.{book_a, arms}
use nvda_tranched_arc.Model.{Book, Arm, Cum, Portfolio, Env, Action, BookRow}

module _ {R : Type 0} ⦃n : Number R⦄ where
  -- First order in a positive exponent, which is positive and rises with it.
  abbrev pub growth : R → R → R
  growth b t = if num 0 ≤? (b - num 1) * t then num 1 + (b - num 1) * t else b

  growth_pos : IsExact R → (b t : R) → num 0 < b → num 0 < growth b t
  growth_pos e b t h =
      let x = (b - num 1) * t in
      ground (
        arith,
        lt_of_lt-le e.ordered (num 0) (num 1) (num 1 + x),
        e.ordered.num-lt 0 1 (omega arith),
        one-le_plus e x,
      )

instance abbrev pub rational_math : Math ℚ
rational_math = record {
  sqrt = λ a. a;
  pow = growth;
  log = λ a. a - num 1;
  floor = λ a. a;
  round = λ a. a;
  trunc = λ a. a;
}

pub positive : IsPositive ℚ
positive = record {
  sqrt_pos = λ a h. h;
  pow_pos = λ b t h. growth_pos exact b t h;
  base_pos = refl;
}

abbrev pub sample_book : Book ℚ
sample_book = record {
  deployed = true;
  base_l = num 2 / num 1_000_000;
  guard_l = num 0;
  base_lo = num 0;
  base_hi = num 6_000;
  guard_lo = num 2_700;
  guard_hi = num 3_300;
  entry_tick = num 3_000;
  fees = num 3;
  guard_present = false;
  last_pull_step = some 4;
  target_base_l = num 2 / num 1_000_000;
  target_guard_l = num 1 / num 1_000_000;
  cum_fees = num 3;
  base_skew_ticks = num 0;
}

abbrev pub empty_book : Book ℚ
empty_book = record sample_book {
  deployed = false;
  base_l = num 0;
  fees = num 0;
  last_pull_step = none;
}

abbrev pub sample_arm : Arm ℚ
sample_arm = record { nvda = num 40; debt = num 900; usdg_lent = num 700; bad_debt = num 0 }

abbrev pub no_totals : Cum ℚ
no_totals = record {
  fees = num 0;
  guard_fees = num 0;
  arm_interest = num 0;
  borrow_cost = num 0;
  nvda_yield = num 0;
  gas = num 0;
  switch_cost = num 0;
  swap_cost = num 0;
  liquidation_loss = num 0;
  guard_pulls = num 0;
  actions = num 0;
}

abbrev pub sample_portfolio : Portfolio ℚ
sample_portfolio = record {
  active_book = book_a;
  first_book = sample_book;
  second_book = empty_book;
  idle_usdg = num 500;
  idle_nvda = num 12;
  arm = sample_arm;
  mode = arms;
  last_action = Action.hold;
  last_events = [];
  last_costs = num 0;
  nav_before = num 0;
  nav_after = num 0;
  hodl_usdg = num 0;
  hodl_nvda = num 0;
  cum = no_totals;
  hodl_mode = false;
}

-- A minute in the range of the sample book and one without trades.
abbrev pub sample_row : BookRow ℚ
sample_row = record {
  minutes =
      record { tick = some (num 3_000); volume = num 500; vol_over_l = num 20; vol_over_l2 = num 1 }
      ∷ record { tick = none; volume = num 0; vol_over_l = num 0; vol_over_l2 = num 0 }
      ∷ [];
  five_min_moves = num 20 ∷ num 250 ∷ [];
  risk = record {
    volume_usd = num 40_000;
    volatility_bps = num 30;
    tick_first = num 2_990;
    tick_last = num 3_000;
    pool_liquidity_usd = num 50_000;
  };
  volume_usd = num 70_000;
  pool_l_mean = num 25;
  pool_l_last = num 24;
  depeg_proxy = num 0;
}

abbrev pub sample_env : Env ℚ
sample_env = record {
  tick = num 3_000;
  sqrt_p = num 13 / num 10;
  price = num 150;
  depeg_paused = false;
  controller_paused = false;
  switch_frozen = false;
  first_row = sample_row;
  second_row = sample_row;
}
