-- ===== src/Tests/IncomeRuns.antt =====
-- An hour's fees, income and action on sample portfolios.
use Prim.Native.Nat.{◌≤◌ as nat_le}
use nvda_tranched_arc.Prelude.{true, false, ◌≡◌, ◌↔◌, refl, none, some, List, [], ◌∷◌, arith}
use nvda_tranched_arc.Number.{◌-◌, ◌*◌, ◌/◌, ◌≤◌, num}
use nvda_tranched_arc.Number.Rational.{ℚ, rational}
use nvda_tranched_arc.Number.RationalLaws.{exact}
use nvda_tranched_arc.Lp.{price_unit}
use nvda_tranched_arc.Allocator.{book_a, book_b}
use nvda_tranched_arc.Model.{Book, Minute, Env, Portfolio, Action, ScenarioRow, default_params}
use nvda_tranched_arc.Model.Accounts.{portfolio_nav, pay_gas}
use nvda_tranched_arc.Model.Books.{book_has_positions}
use nvda_tranched_arc.Model.Fees.{book_fee_for_hour, fee_rate, book_fee_parts}
use nvda_tranched_arc.Model.Fees.Bounds.{HasLiquidity, IsSplit, book_fee_for_hour-IsSplit}
use nvda_tranched_arc.Model.Fees.Expansion.{IsAtMost, book_fee_parts-IsAtMost}
use nvda_tranched_arc.Model.Fees.Revenue.{book_fee_for_hour-le_revenue, volume_from}
use nvda_tranched_arc.Model.Windows.{fee_il_streak, below_buffer}
use nvda_tranched_arc.Model.Windows.Streak.{AllBelow, fee_il_streak-full}
use nvda_tranched_arc.Model.Funding.{swap_deficit}
use nvda_tranched_arc.Model.Execute.{execute_action}
use nvda_tranched_arc.Model.Income.{portfolio_income}
use nvda_tranched_arc.Model.Income.Balance.{portfolio_income-net_income}
use nvda_tranched_arc.Model.Ledger.{net_income}
use nvda_tranched_arc.Model.Ledger.Swap.{IsSwap, swap_deficit-IsSwap}
use nvda_tranched_arc.Model.Ledger.Gas.{IsPaid, pay_gas-IsPaid}
use nvda_tranched_arc.Model.Ledger.Actions.{IsClean, execute_action-net_income}
use nvda_tranched_arc.Tests.Samples.{
  rational_math, empty_book, sample_book, sample_row, sample_env, sample_portfolio,
}

abbrev guarded_book : Book ℚ
guarded_book = record sample_book {
  guard_l = num 1 / num 1_000_000;
  guard_present = true;
  last_pull_step = none;
}

abbrev marked_env : Env ℚ
marked_env = record sample_env { price = price_unit / (num 13 / num 10 * (num 13 / num 10)) }

abbrev guarded_portfolio : Portfolio ℚ
guarded_portfolio = record sample_portfolio { first_book = guarded_book }

abbrev tape : List (ScenarioRow ℚ)
tape =
    record {
      tick = num 3_000;
      sqrt_p = num 13 / num 10;
      first_row = sample_row;
      second_row = sample_row;
    }
    ∷ []

has_liquidity : HasLiquidity guarded_book
has_liquidity = record { base_nonneg = refl; guard_nonneg = refl }

guarded-IsClean : IsClean guarded_book
unfolding book_has_positions
guarded-IsClean h = cc h

empty-IsClean : IsClean empty_book
empty-IsClean h = refl

book_fee_for_hour-IsSplit_example :
    IsSplit (book_fee_for_hour guarded_book sample_row.minutes (num 500) (some 6) false)
book_fee_for_hour-IsSplit_example =
    book_fee_for_hour-IsSplit exact guarded_book sample_row.minutes (num 500) (some 6) false
      has_liquidity

abbrev priced_minutes : List (Minute ℚ)
priced_minutes =
    record {
      tick = some (num 3_000);
      volume = num 500;
      vol_over_l = num 500 / num 25;
      vol_over_l2 = num 500 / num 25 / num 25;
    }
    ∷ []

book_fee_parts-IsAtMost_example :
    IsAtMost
      (book_fee_parts guarded_book priced_minutes (num 500) false)
      (book_fee_parts guarded_book priced_minutes (num 500) true)
book_fee_parts-IsAtMost_example =
    book_fee_parts-IsAtMost exact guarded_book priced_minutes (num 500) refl has_liquidity (
      record {
        pool_l = num 25;
        pool_pos = refl;
        volume_nonneg = refl;
        over_l = refl;
        over_l2 = refl;
      },
      tt,
    )

book_fee_for_hour-le_revenue_example :
    (book_fee_for_hour guarded_book sample_row.minutes (num 500) none true).total
    ≤ fee_rate (num 500) * volume_from (num 0) sample_row.minutes
book_fee_for_hour-le_revenue_example =
    book_fee_for_hour-le_revenue exact guarded_book sample_row.minutes (num 500) refl
      (refl, (refl, tt)) none has_liquidity

fee_il_streak-full_example :
    let streak = fee_il_streak guarded_book tape 0 4 (num 500) book_a (num 1) (num 500) 2 false in
    let below = below_buffer guarded_book tape 4 (num 500) book_a (num 1) (num 500) false in
    (nat_le streak 2) × ((streak ≡ 2) ↔ AllBelow below 0 2 0)
fee_il_streak-full_example =
    fee_il_streak-full guarded_book tape 4 (num 500) book_a (num 1) (num 500) false 0 2
      (omega arith)

swap_deficit-IsSwap_example :
    IsSwap
      (num 13 / num 10)
      (num 150)
      sample_portfolio
      (swap_deficit sample_portfolio (num 900) (num 1) (num 150) (num 30))
swap_deficit-IsSwap_example =
    swap_deficit-IsSwap exact (num 13 / num 10) (num 150) refl sample_portfolio (num 900) (num 1)
      (num 30)

pay_gas-IsPaid_example :
    IsPaid
      (num 13 / num 10)
      (num 150)
      (num 600)
      sample_portfolio
      (pay_gas (num 600) sample_portfolio)
pay_gas-IsPaid_example = pay_gas-IsPaid exact (num 13 / num 10) (num 150) (num 600) sample_portfolio

portfolio_income-net_income_example :
    let after = portfolio_income default_params marked_env tape 7 guarded_portfolio in
    portfolio_nav after marked_env.sqrt_p marked_env.price - net_income after.cum
    ≡ portfolio_nav guarded_portfolio marked_env.sqrt_p marked_env.price
      - net_income guarded_portfolio.cum
portfolio_income-net_income_example =
    portfolio_income-net_income exact default_params marked_env tape 7 refl refl guarded_portfolio
      refl refl refl refl refl

execute_action-net_income_example :
    let after =
      execute_action default_params marked_env (Action.switch_book book_b) 7 guarded_portfolio in
    portfolio_nav after marked_env.sqrt_p marked_env.price - net_income after.cum
    ≡ portfolio_nav guarded_portfolio marked_env.sqrt_p marked_env.price
      - net_income guarded_portfolio.cum
execute_action-net_income_example =
    execute_action-net_income exact marked_env default_params refl refl refl guarded_portfolio refl
      guarded-IsClean empty-IsClean (Action.switch_book book_b) 7
