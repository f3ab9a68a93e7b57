-- ===== src/Tests/ModelRuns.antt =====
-- The portfolio's operations on a sample portfolio.
use nvda_tranched_arc.Prelude.{◌≡◌, refl, ◌⊎◌}
use nvda_tranched_arc.Number.{◌*◌, ◌/◌, ◌≤◌, num}
use nvda_tranched_arc.Number.Rational.{ℚ, rational}
use nvda_tranched_arc.Number.RationalLaws.{exact, ordered}
use nvda_tranched_arc.Lp.Amounts.{BothNonneg}
use nvda_tranched_arc.Lp.{price_unit}
use nvda_tranched_arc.Allocator.{book_a}
use nvda_tranched_arc.Allocator.Borrow.{bps}
use nvda_tranched_arc.Model.{Action, default_params}
use nvda_tranched_arc.Model.Books.{book_tokens, book_value, book_tokens_nonneg}
use nvda_tranched_arc.Model.Accounts.{portfolio_nav, close_book}
use nvda_tranched_arc.Model.Accounts.Close.{close_book-nav}
use nvda_tranched_arc.Model.Execute.{perform, execute_action, allocate_usdg, borrow_usdg}
use nvda_tranched_arc.Model.Execute.Value.{perform-arm_nav}
use nvda_tranched_arc.Model.Execute.Solvent.{
  IsSolvent, execute_action-IsSolvent, allocate_usdg_cap, borrow_usdg_cap,
}
use nvda_tranched_arc.Tests.Samples.{
  rational_math, positive, sample_book, sample_portfolio, sample_env,
}

book_tokens_nonneg_example :
    BothNonneg (book_tokens sample_book (num 13 / num 10))
    × (num 0 ≤ book_value sample_book (num 13 / num 10))
book_tokens_nonneg_example =
    book_tokens_nonneg ordered positive sample_book (num 13 / num 10) refl refl

perform-arm_nav_example :
    portfolio_nav
      (perform default_params sample_env (Action.repay (num 800)) sample_portfolio).portfolio
      (num 13 / num 10)
      (num 150)
    ≡ portfolio_nav sample_portfolio (num 13 / num 10) (num 150)
perform-arm_nav_example =
    perform-arm_nav exact default_params sample_env (Action.repay (num 800)) sample_portfolio tt
      refl

sample-IsSolvent : IsSolvent sample_portfolio
sample-IsSolvent = record {
  idle_usdg_nonneg = refl;
  idle_nvda_nonneg = refl;
  nvda_nonneg = refl;
  debt_nonneg = refl;
  lent_nonneg = refl;
  bad_debt_nonneg = refl;
  first_fees_nonneg = refl;
  second_fees_nonneg = refl;
}

execute_action-IsSolvent_example :
    IsSolvent (execute_action default_params sample_env (Action.repay (num 800)) 9 sample_portfolio)
execute_action-IsSolvent_example =
    execute_action-IsSolvent ordered default_params sample_env (Action.repay (num 800)) 9
      sample_portfolio tt sample-IsSolvent

allocate_usdg_cap_example :
    let pf' = (allocate_usdg (num 1_000) (num 400) sample_portfolio).portfolio in
    (pf' ≡ sample_portfolio) ⊎ (pf'.arm.usdg_lent ≤ num 1_000)
allocate_usdg_cap_example = allocate_usdg_cap exact (num 1_000) (num 400) sample_portfolio

borrow_usdg_cap_example :
    let pf' = (borrow_usdg default_params (num 150) (num 600) sample_portfolio).portfolio in
    (pf' ≡ sample_portfolio)
    ⊎ ((pf'.arm.debt ≤ num 40 * num 150 * num 2_937 / bps)
        × (pf'.arm.debt ≤ num 40 * num 150 * num 6_250 / bps)
        × (pf'.arm.debt ≤ num 40 * num 150 * num 3_000 / bps))
borrow_usdg_cap_example =
    borrow_usdg_cap exact default_params (num 150) (num 600) sample_portfolio refl refl refl refl

close_book-nav_example :
    let q : ℚ = num 13 / num 10 in
    portfolio_nav (close_book book_a q sample_portfolio).0 q (price_unit / (q * q))
    ≡ portfolio_nav sample_portfolio q (price_unit / (q * q))
close_book-nav_example = close_book-nav exact (num 13 / num 10) book_a sample_portfolio
