-- ===== src/Model/Marks/Normal.antt =====
-- What a NORMAL risk of `_candidate` of research/cadcad/allocator/model.py guarantees.
use nvda_tranched_arc.Prelude.{
  ℕ, Bool, true, false, ◌&&◌, ◌≡◌, refl, List, Bool-cases, inl, inr, arith,
}
use nvda_tranched_arc.Number.{Number, ◌<?◌, ◌≤?◌}
use nvda_tranched_arc.Lp.{Math}
use nvda_tranched_arc.Allocator.{BookName, book_a, book_b, Risk, normal}
use nvda_tranched_arc.Allocator.Assess.{RiskReason, RiskThresholds, assess_book_risk}
use nvda_tranched_arc.Model.{Book, BookRow, ScenarioRow, Params, Env, row_of}
use nvda_tranched_arc.Model.Minutes.{WindowStats}
use nvda_tranched_arc.Model.Marks.{
  BookMetric, raise_if, second_book_risk, book_risk, base_risk, candidate, guard_for_risk,
  thresholds_of, is_eligible, looks_back,
}

module _ {R : Type 0} ⦃n : Number R⦄ where
  raise_if-normal :
      (b : Bool) (reason : RiskReason R) (r : Risk × List (RiskReason R))
      → (raise_if b reason r).0 ≡ normal
      → (b ≡ false) × (r.0 ≡ normal)
  raise_if-normal true reason r h = cc h
  raise_if-normal false reason r h = (refl, h)

  -- What a book shows when none of the limits raises its risk.
  abbrev pub IsCalm : (volume volatility fee : R) (guard depeg : Bool) → RiskThresholds R → Type 0
  IsCalm volume volatility fee guard depeg t =
      (depeg ≡ false)
      × (guard ≡ true)
      × ((t.max_volatility_bps ≤? volatility) ≡ false)
      × ((volume <? t.min_volume_usd) ≡ false)

  assess_book_risk-IsCalm :
      (fee volume volatility : R) (guard depeg : Bool) (t : RiskThresholds R)
      → (assess_book_risk fee volume volatility guard depeg t).risk ≡ normal
      → IsCalm volume volatility fee guard depeg t
  unfolding assess_book_risk
  assess_book_risk-IsCalm fee volume volatility guard depeg t h = ground arith

module _ {R : Type 0} ⦃n : Number R⦄ ⦃m : Math R⦄ where
  second_book_risk-normal :
      (params : Params R) (scenario : List (ScenarioRow R)) (step : ℕ) (share : R)
      (r : Risk × List (RiskReason R))
      → (second_book_risk params scenario step share r).0 ≡ normal
      → ((params.book_b_max_share <? share) ≡ false) × (r.0 ≡ normal)
  unfolding second_book_risk
  second_book_risk-normal params scenario step share r h =
      let (few, rest) = raise_if-normal (params.book_b_max_share <? share) _ _ h in
      (few, (raise_if-normal _ _ r rest).1)

  -- The share of the second book is within its limit, when an opportunity window is on.
  abbrev pub IsSmall : Params R → BookName → (share : R) → Type 0
  IsSmall params book_a share = Unit
  IsSmall params book_b share = (params.book_b_max_share <? share) ≡ false

  book_risk-normal :
      (params : Params R) (scenario : List (ScenarioRow R)) (step : ℕ) (name : BookName) (share : R)
      (r : Risk × List (RiskReason R))
      → (book_risk params scenario step name share r).0 ≡ normal
      → IsSmall params name share × (r.0 ≡ normal)
  unfolding book_risk
  book_risk-normal params scenario step book_a share r h = (tt, h)
  book_risk-normal params scenario step book_b share r h =
      second_book_risk-normal params scenario step share r h

  -- What a NORMAL book guarantees.
  abbrev pub IsAcceptable :
      Params R
      → Env R
      → List (ScenarioRow R)
      → BookName
      → Book R
      → (active : Bool) → BookMetric R
      → Type 0
  IsAcceptable params env scenario name book active b =
      (is_eligible params (row_of env name) ≡ true)
      × IsCalm b.stats.volume_usd b.stats.volatility_bps b.sighting.fee_apr_bps
          (guard_for_risk book active params) (active && env.depeg_paused) (thresholds_of params)
      × (looks_back params scenario ≡ true → IsSmall params name b.sighting.share)

  base_risk-normal :
      (params : Params R) (env : Env R) (book : Book R) (active : Bool) (row : BookRow R) (fee : R)
      (stats : WindowStats R)
      → (base_risk params env book active row fee stats).0 ≡ normal
      → (is_eligible params row ≡ true)
        × IsCalm stats.volume_usd stats.volatility_bps fee
            (guard_for_risk book active params)
            (active && env.depeg_paused)
            (thresholds_of params)
  unfolding base_risk
  base_risk-normal params env book active row fee stats h =
      elim (Bool-cases (is_eligible params row)) [
        | inl k ↦
            (k, assess_book_risk-IsCalm fee stats.volume_usd stats.volatility_bps _ _ _ (rw k at h))
        | inr k ↦ cc (rw k at h)
      ]

  -- A book that the marks call NORMAL has the pool's minimum liquidity, no pause of the peg while it
  -- is active, its guard, or one that counts as there, a volatility below its limit and a volume that
  -- reaches its floor; with an opportunity window, the second book's share is within its limit too.
  pub candidate-IsAcceptable :
      (params : Params R) (env : Env R) (scenario : List (ScenarioRow R)) (step : ℕ)
      (name : BookName) (book : Book R) (active : Bool) (hypo_capital : R)
      → let b = candidate params env scenario step name book active hypo_capital in
        b.candidate.risk ≡ normal → IsAcceptable params env scenario name book active b
  unfolding candidate
  candidate-IsAcceptable params env scenario step name book active hypo_capital h =
      elim (Bool-cases (looks_back params scenario)) [
        | inl k ↦
            let (small, r) = book_risk-normal params scenario step name _ _ (rw k at h) in
            let calm = base_risk-normal params env book active (row_of env name) _ _ r in
            (calm.0, calm.1, λ _. small)
        | inr k ↦
            let calm = base_risk-normal params env book active (row_of env name) _ _ (rw k at h) in
            (calm.0, calm.1, λ j. cc (k, j))
      ]
