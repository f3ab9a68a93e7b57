-- ===== src/Tests/HourRuns.antt =====
-- The start of a run, its hours and its marks on a short tape.
use nvda_tranched_arc.Prelude.{ℕ, zero, suc, false, ◌≡◌, refl, some, List, [], ◌∷◌, arith, ltb}
use nvda_tranched_arc.Sequence.{get_or, take, length}
use nvda_tranched_arc.Number.{◌-◌, ◌/◌, num, min}
use nvda_tranched_arc.Number.Rational.{ℚ, rational}
use nvda_tranched_arc.Number.RationalLaws.{exact}
use nvda_tranched_arc.Lp.{
  price_from_tick, liquidity_for_value, position_value_usd, amounts_for_l, amounts_in_range,
  sqrt_at_tick,
}
use nvda_tranched_arc.Allocator.{book_b}
use nvda_tranched_arc.Model.{Minute, ScenarioRow, default_params}
use nvda_tranched_arc.Model.Accounts.{portfolio_nav}
use nvda_tranched_arc.Model.Accounts.Close.{mark}
use nvda_tranched_arc.Model.Minutes.{window_stats, rolling_minutes, suffix, join_minutes, window_of}
use nvda_tranched_arc.Model.Minutes.Volatility.{IsNear, window_stats-IsNear}
use nvda_tranched_arc.Allocator.Switch.{All}
use nvda_tranched_arc.Model.Minutes.Rolling.{rolling_minutes-suffix}
use nvda_tranched_arc.Model.Marks.{
  candidate, base_risk, floor_scale, risk_view, vol_scale, guard_for_risk,
}
use nvda_tranched_arc.Model.Books.{book_has_positions}
use nvda_tranched_arc.Allocator.Assess.{assess_book_risk}
use nvda_tranched_arc.Model.Marks.Normal.{IsAcceptable, candidate-IsAcceptable}
use nvda_tranched_arc.Model.Start.{initial_portfolio, opening, book_template, env_of}
use nvda_tranched_arc.Model.Start.Worth.{initial_portfolio-nav}
use nvda_tranched_arc.Model.Run.{RunState, run_model, start_state, hour_step, market}
use nvda_tranched_arc.Model.Run.Identity.{IsFair, IsReady, hour_step-net_income}
use nvda_tranched_arc.Model.Ledger.{net_income}
use nvda_tranched_arc.Model.Run.Peak.{IsTracked, run_model-IsTracked}
use nvda_tranched_arc.Tests.Samples.{rational_math, sample_row, sample_env, empty_book}

-- Many minutes with a trade each.
abbrev busy : ℕ → List (Minute ℚ)
busy zero = []
busy (suc k) =
    record { tick = some (num 3_000); volume = num 500; vol_over_l = num 20; vol_over_l2 = num 1 }
    ∷ busy k

abbrev hour : ScenarioRow ℚ
hour = record {
  tick = num 3_000;
  sqrt_p = num 13 / num 10;
  first_row = record sample_row { minutes = busy 60 };
  second_row = record sample_row { minutes = busy 60 };
}

initial_portfolio-nav_example :
    portfolio_nav (initial_portfolio default_params hour) hour.sqrt_p (mark exact hour.sqrt_p)
    ≡ default_params.initial_nav_usd
unfolding min position_value_usd amounts_for_l amounts_in_range sqrt_at_tick
initial_portfolio-nav_example =
    initial_portfolio-nav exact default_params hour refl refl refl refl refl

run_model-IsTracked_example :
    (s : RunState ℚ) × (run_model (hour ∷ hour ∷ []) default_params (some 5) ≡ some s)
    × IsTracked default_params.initial_nav_usd 5 s
run_model-IsTracked_example = run_model-IsTracked exact default_params hour (hour ∷ []) 5

rolling_minutes-suffix_example :
    rolling_minutes (hour ∷ hour ∷ hour ∷ []) 1 36 book_b
    ≡ suffix (window_of 36) (join_minutes book_b (take 2 (hour ∷ hour ∷ hour ∷ [])))
unfolding length
rolling_minutes-suffix_example =
    rolling_minutes-suffix book_b (hour ∷ hour ∷ hour ∷ []) 1 36 (refl, (refl, (refl, tt)))
      (omega arith)

candidate-IsAcceptable_example :
    IsAcceptable default_params sample_env
      (hour ∷ [])
      book_b
      empty_book
      false
      (candidate default_params sample_env (hour ∷ []) 0 book_b empty_book false (num 10_000))
unfolding candidate ltb base_risk assess_book_risk floor_scale risk_view vol_scale guard_for_risk
    book_has_positions
candidate-IsAcceptable_example =
    candidate-IsAcceptable default_params sample_env (hour ∷ []) 0 book_b empty_book false
      (num 10_000) refl

-- The hour at a price of one, in whole units.
abbrev flat_hour : ScenarioRow ℚ
flat_hour = record hour { tick = num 0; sqrt_p = num 1 }

abbrev flat_state : RunState ℚ
flat_state = start_state default_params flat_hour

default_params-IsFair : IsFair (default_params {R = ℚ})
default_params-IsFair = record {
  bonus = refl;
  nvda_apr = refl;
  borrow_apr = refl;
  usdg_apr = refl;
  free_switch = refl;
}

flat_state-IsReady : IsReady flat_state.portfolio
unfolding initial_portfolio opening book_template liquidity_for_value min position_value_usd
    amounts_for_l amounts_in_range sqrt_at_tick
flat_state-IsReady = record {
  nvda = refl;
  debt = refl;
  usdg_lent = refl;
  first = record { has_base = λ h. refl; no_fees = λ h. refl };
  second = record { has_base = λ h. cc h; no_fees = λ h. refl };
}

hour_step-net_income_example :
    let after = hour_step default_params flat_hour (hour ∷ []) flat_state in
    let q = after.env.sqrt_p in
    let price = after.env.price in
    portfolio_nav after.portfolio q price - net_income after.portfolio.cum
    ≡ portfolio_nav flat_state.portfolio q price - net_income flat_state.portfolio.cum
unfolding market env_of price_from_tick get_or length
hour_step-net_income_example =
    hour_step-net_income exact default_params flat_hour (hour ∷ []) flat_state default_params-IsFair
      (exact.le_antisymm _ _ refl refl) refl flat_state-IsReady

window_stats-IsNear_example :
    All (λ (m : Minute ℚ). IsNear (window_stats sample_row.minutes) m.tick) sample_row.minutes
window_stats-IsNear_example = window_stats-IsNear exact sample_row.minutes
