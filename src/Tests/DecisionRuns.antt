-- ===== src/Tests/DecisionRuns.antt =====
-- The keeper's decisions and a liquidation on a sample portfolio.
use nvda_tranched_arc.Prelude.{refl, List, [], ◌∷◌}
use nvda_tranched_arc.Number.{◌/◌, num}
use nvda_tranched_arc.Number.Rational.{ℚ, rational}
use nvda_tranched_arc.Number.RationalLaws.{exact, ordered}
use nvda_tranched_arc.Allocator.{book_a, book_b, normal, high}
use nvda_tranched_arc.Allocator.Switch.{Candidate}
use nvda_tranched_arc.Model.{default_params}
use nvda_tranched_arc.Model.Policy.CarriedOut.{IsCarriedOut}
use nvda_tranched_arc.Model.Decision.{p_decision, first_guard_pull_bin}
use nvda_tranched_arc.Model.Decision.Pull.{IsFirstLoud, first_guard_pull_bin-IsFirstLoud}
use nvda_tranched_arc.Model.Decision.Feasible.{p_decision-IsCarriedOut}
use nvda_tranched_arc.Model.Liquidate.{IsLiquidated, liquidate, liquidate-IsLiquidated}
use nvda_tranched_arc.Tests.Samples.{rational_math, sample_portfolio, sample_env}

abbrev sample_metrics : List (Candidate ℚ)
sample_metrics =
    record { name = book_a; risk = high; net_apr_bps = num 300 }
    ∷ record { name = book_b; risk = normal; net_apr_bps = num 900 }
    ∷ []

p_decision-IsCarriedOut_example :
    IsCarriedOut default_params sample_env sample_portfolio
      (p_decision sample_portfolio sample_env sample_metrics 9 0 default_params)
p_decision-IsCarriedOut_example =
    p_decision-IsCarriedOut ordered default_params sample_env sample_portfolio refl sample_metrics 9
      0

liquidate-IsLiquidated_example :
    IsLiquidated sample_portfolio
      (num 13 / num 10)
      (num 20)
      default_params
      (liquidate sample_portfolio (num 13 / num 10) (num 20) 9 default_params)
liquidate-IsLiquidated_example =
    liquidate-IsLiquidated exact sample_portfolio (num 13 / num 10) (num 20) default_params refl
      refl refl 9

first_guard_pull_bin-IsFirstLoud_example :
    IsFirstLoud {R = ℚ}
      (num 200)
      (num 20 ∷ num 250 ∷ num 900 ∷ [])
      (first_guard_pull_bin {R = ℚ} (num 20 ∷ num 250 ∷ num 900 ∷ []) (num 200))
first_guard_pull_bin-IsFirstLoud_example =
    first_guard_pull_bin-IsFirstLoud (num 200) (num 20 ∷ num 250 ∷ num 900 ∷ [])
