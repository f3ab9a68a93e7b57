-- ===== src/Model/Marks.antt =====
-- `_candidate` and `p_marks` of research/cadcad/allocator/model.py: what the keeper sees of a book.
pub mod Normal
use Prim.Native.Nat.{◌-◌ as nat_sub, min as nat_min, max as nat_max}
use nvda_tranched_arc.Prelude.{
  ℕ, suc, Bool, true, false, not, ◌&&◌, List, [], ◌∷◌, ◌++◌, if◌then◌else◌, ltb,
}
use nvda_tranched_arc.Sequence.{is_empty, slice}
use nvda_tranched_arc.Number.{Number, ◌+◌, ◌-◌, ◌*◌, ◌/◌, ◌<?◌, ◌≤?◌, ◌==?◌, num, max, abs}
use nvda_tranched_arc.Lp.{
  Math, js_round, position_value_usd, liquidity_for_value, range_from_half_width, il_bps_for_ticks,
}
use nvda_tranched_arc.Allocator.{BookName, book_a, book_b, Risk, high}
use nvda_tranched_arc.Allocator.Assess.{
  RiskReason, RiskThresholds, assess_book_risk, thin_active_liquidity, book_b_volume, book_b_share,
}
use nvda_tranched_arc.Allocator.Switch.{Candidate, same_book}
use nvda_tranched_arc.Model.{
  Book, BookRow, Minute, ScenarioRow, Params, Env, Portfolio, book_at, row_of,
}
use nvda_tranched_arc.Model.Books.{book_has_positions, book_value, book_active_l}
use nvda_tranched_arc.Model.Accounts.{portfolio_nav}
use nvda_tranched_arc.Model.Fees.{book_fee_parts, fee_rate}
use nvda_tranched_arc.Model.Windows.{hours_per_year, tiny, sum_hours, book_row, book_fee_il_window}
use nvda_tranched_arc.Model.Minutes.{WindowStats, rolling_minutes, window_stats, last_of_hour}
use nvda_tranched_arc.Model.Income.{pips_of}

-- What a branch of `_candidate` finds out about the position, or about the one it imagines.
pub record Sighting (R : Type 0) : Type 0 where
  pub value_usd : R
  pub fee_apr_bps : R
  pub il_bps : R
  pub share : R
  pub deployed : Bool
  pub guard_present : Bool

-- The minutes and the statistics of the risk window.
pub record RiskView (R : Type 0) : Type 0 where
  pub minutes : List (Minute R)
  pub stats : WindowStats R

-- The signals of the opportunity window.
pub record Opportunity (R : Type 0) : Type 0 where
  pub fee_apr_bps : R
  pub il_apr_bps : R
  pub net_apr_bps : R
  pub volume_usd : R

-- The dictionary that `_candidate` returns; `candidate` holds the name, the risk and the net APR.
pub record BookMetric (R : Type 0) : Type 0 where
  pub candidate : Candidate R
  pub active : Bool
  pub sighting : Sighting R
  pub il_apr_bps : R
  pub opportunity : Opportunity R
  pub reasons : List (RiskReason R)
  pub stats : WindowStats R
  pub pool_liquidity_usd : R
  pub eligible : Bool

module _ {R : Type 0} ⦃n : Number R⦄ where
  -- `float(row.get("poolLMean") or row.get("poolLLast") or 0.0)`
  abbrev pub pool_liquidity : BookRow R → R
  pool_liquidity row = if row.pool_l_mean ==? num 0 then row.pool_l_last else row.pool_l_mean

  -- The share of a book among the pool's liquidity.
  unfoldable pub pool_share : (active_l pool_l : R) → R
  pool_share active_l pool_l =
      if (num 0 <? active_l) && (num 0 ≤? pool_l) then active_l / (pool_l + active_l) else num 0

  abbrev pub risk_window : Params R → ℕ
  risk_window params = nat_max 1 params.risk_window_minutes

  -- `HOURS_PER_YEAR / (risk_window / 60.0)`
  abbrev pub ann_risk : Params R → R
  ann_risk params = hours_per_year / (num (risk_window params) / num 60)

  unfoldable pub floor_scale : Params R → R
  floor_scale params =
      if params.risk_use_rolling && params.risk_window_scale_floor
      then num (risk_window params) / num 36
      else num 1

  -- The minutes of the window across the hours, or the last ones of this hour's row.
  unfoldable pub risk_view : Params R → List (ScenarioRow R) → ℕ → BookName → BookRow R → RiskView R
  risk_view params scenario step name row =
      let rolling = rolling_minutes scenario step (risk_window params) name in
      if params.risk_use_rolling && not (is_empty scenario)
      then record { minutes = rolling; stats = window_stats rolling }
      else record {
        minutes = last_of_hour (nat_max 1 (nat_min 60 (risk_window params))) row.minutes;
        stats = record {
          volume_usd = row.risk.volume_usd;
          volatility_bps = row.risk.volatility_bps;
          tick_first = row.risk.tick_first;
          tick_last = row.risk.tick_last;
        };
      }

  -- The book as it would be funded at a tick.
  unfoldable pub target_sleeves : Book R → (tick : R) → Params R → Book R
  target_sleeves book tick params = record book {
    deployed = true;
    base_l = book.target_base_l;
    guard_l = book.target_guard_l;
    base_lo = tick - params.base_width_ticks;
    base_hi = tick + params.base_width_ticks;
    guard_lo = tick - params.guard_width_ticks;
    guard_hi = tick + params.guard_width_ticks;
    guard_present = true;
    fees = num 0;
  }

  -- `l * sum(volOverL) - l * l * sum(volOverL2)`
  unfoldable pub sum_over : (Minute R → R) → R → List (Minute R) → R
  sum_over f total [] = total
  sum_over f total (m ∷ ms) = sum_over f (total + f m) ms

  -- The hours of a window that ends with this step.
  abbrev pub hours_back : List (ScenarioRow R) → (step hours : ℕ) → List (ScenarioRow R)
  hours_back scenario step hours = slice scenario (nat_sub (suc step) hours) (suc step)

  abbrev pub volume_back : BookName → List (ScenarioRow R) → (step hours : ℕ) → R
  volume_back name scenario step hours =
      sum_hours (λ row. (book_row name row).volume_usd) (num 0) (hours_back scenario step hours)

  abbrev pub no_opportunity : Opportunity R
  no_opportunity = record {
    fee_apr_bps = num 0;
    il_apr_bps = num 0;
    net_apr_bps = num 0;
    volume_usd = num 0;
  }

  -- `risk["risk"] = "HIGH"` with one more reason.
  abbrev pub raise_if :
      Bool → RiskReason R → Risk × List (RiskReason R) → Risk × List (RiskReason R)
  raise_if true reason (risk, reasons) = (high, reasons ++ (reason ∷ []))
  raise_if false reason r = r

module _ {R : Type 0} ⦃n : Number R⦄ ⦃m : Math R⦄ where
  unfoldable pub vol_scale : Params R → R
  vol_scale params =
      if params.risk_use_rolling && params.risk_window_scale_vol
      then m.sqrt (num (risk_window params) / num 36)
      else num 1

  -- `js_round(fee_window * ann_risk / book_value_usd * 10_000)`
  abbrev pub apr_bps : Params R → (fees value : R) → R
  apr_bps params fees value = js_round (fees * ann_risk params / value * num 10_000)

  module _ (params : Params R) (env : Env R) (book : Book R) (name : BookName) (row : BookRow R)
      (view : RiskView R) where
    abbrev pub parts_total : Book R → R
    parts_total b =
        (book_fee_parts b view.minutes (pips_of params name) params.fee_share_exact).total

    -- A book with positions.
    unfoldable pub deployed_sighting : Sighting R
    deployed_sighting =
        let value = max (book_value book env.sqrt_p) tiny in
        let has_base = num 0 <? book.base_l in
        record {
          value_usd = value;
          fee_apr_bps = apr_bps params (parts_total book) value;
          il_bps =
              il_bps_for_ticks view.stats.tick_first view.stats.tick_last
                (if has_base then book.base_lo else book.guard_lo)
                (if has_base then book.base_hi else book.guard_hi);
          share = pool_share (book_active_l book env.tick) (pool_liquidity row);
          deployed = true;
          guard_present = book.guard_present;
        }

    -- An empty book at its target, under `fix_hypothetical_range`.
    unfoldable pub target_sighting : Sighting R
    target_sighting =
        let temp = target_sleeves book env.tick params in
        let value =
          max
            (position_value_usd temp.base_l env.sqrt_p temp.base_lo temp.base_hi
              + position_value_usd temp.guard_l env.sqrt_p temp.guard_lo temp.guard_hi)
            tiny in
        record {
          value_usd = value;
          fee_apr_bps = apr_bps params (parts_total temp) value;
          il_bps =
              il_bps_for_ticks view.stats.tick_first view.stats.tick_last temp.base_lo temp.base_hi;
          share = pool_share (temp.base_l + temp.guard_l) (pool_liquidity row);
          deployed = false;
          guard_present = false;
        }

    -- An empty book with all the capital in the keeper's range.
    unfoldable pub hypothetical_sighting : (hypo_capital : R) → Sighting R
    hypothetical_sighting hypo_capital =
        let capital = max hypo_capital (num 1) in
        let range = range_from_half_width env.tick params.range_half_width_bps in
        let l = liquidity_for_value capital env.sqrt_p range.0 range.1 in
        let fees =
          fee_rate (pips_of params name)
          * (l * sum_over (λ (v : Minute R). v.vol_over_l) (num 0) view.minutes
              - l * l * sum_over (λ (v : Minute R). v.vol_over_l2) (num 0) view.minutes) in
        record {
          value_usd = capital;
          fee_apr_bps = apr_bps params fees capital;
          il_bps = il_bps_for_ticks view.stats.tick_first view.stats.tick_last range.0 range.1;
          share = if num 0 <? l then l / (pool_liquidity row + l) else num 0;
          deployed = false;
          guard_present = false;
        }

    unfoldable pub sighting_of : (hypo_capital : R) → Sighting R
    sighting_of hypo_capital =
        if book_has_positions book
        then deployed_sighting
        else if params.fix_hypothetical_range
        then target_sighting
        else hypothetical_sighting hypo_capital

  -- Whether the guard counts as there.
  unfoldable pub guard_for_risk : Book R → (active : Bool) → Params R → Bool
  guard_for_risk book active params =
      if book_has_positions book
      then book.guard_present
      else if active
      then params.fix_empty_book_guard
      else true

  abbrev pub thresholds_of : Params R → RiskThresholds R
  thresholds_of params = record {
    max_volatility_bps = params.risk_max_volatility_bps * vol_scale params;
    min_volume_usd = params.risk_min_volume_usd * floor_scale params;
    min_fee_apr_bps = params.risk_min_fee_apr_bps;
  }

  abbrev pub is_eligible : Params R → BookRow R → Bool
  is_eligible params row = params.min_pool_liquidity_usd ≤? row.risk.pool_liquidity_usd

  -- The risk of the book before the opportunity window; thin liquidity replaces the reasons.
  unfoldable pub base_risk :
      Params R
      → Env R
      → Book R
      → (active : Bool) → BookRow R
      → (fee_apr_bps : R) → WindowStats R
      → Risk × List (RiskReason R)
  base_risk params env book active row fee_apr_bps stats =
      let risk =
        assess_book_risk fee_apr_bps stats.volume_usd stats.volatility_bps
          (guard_for_risk book active params) (active && env.depeg_paused) (thresholds_of params) in
      if is_eligible params row
      then (risk.risk, risk.reasons)
      else (high, thin_active_liquidity ∷ [])

  -- The signals of the opportunity window, of the book or of the one that would be funded.
  unfoldable pub opportunity_of :
      Params R → Env R → List (ScenarioRow R) → ℕ → BookName → Book R → Opportunity R
  opportunity_of params env scenario step name book =
      let hours = params.opportunity_window_hours in
      let window_book =
        if book_has_positions book then book else target_sleeves book env.tick params in
      let w =
        book_fee_il_window window_book step hours (pips_of params name) name params.fee_share_exact
          scenario in
      record {
        fee_apr_bps = w.fee_apr_bps;
        il_apr_bps = w.il_apr_bps;
        net_apr_bps = w.fee_apr_bps - params.fee_il_hurdle * abs w.il_apr_bps;
        volume_usd = volume_back name scenario step hours;
      }

  -- The second book's own limits.
  unfoldable pub second_book_risk :
      Params R
      → List (ScenarioRow R)
      → ℕ
      → (share : R) → Risk × List (RiskReason R)
      → Risk × List (RiskReason R)
  second_book_risk params scenario step share risk =
      let hours = nat_max params.opportunity_window_hours params.book_b_volume_window_hours in
      let volume = volume_back book_b scenario step hours in
      let floor = params.book_b_min_volume_window_usd in
      raise_if (params.book_b_max_share <? share) book_b_share
        (raise_if ((num 0 <? floor) && (volume <? floor)) book_b_volume risk)

  -- The limits of the second book apply to it alone.
  unfoldable pub book_risk :
      Params R
      → List (ScenarioRow R)
      → ℕ
      → BookName
      → (share : R) → Risk × List (RiskReason R)
      → Risk × List (RiskReason R)
  book_risk params scenario step book_a share risk = risk
  book_risk params scenario step book_b share risk =
      second_book_risk params scenario step share risk

  -- The opportunity window is on.
  abbrev pub looks_back : Params R → List (ScenarioRow R) → Bool
  looks_back params scenario = ltb 0 params.opportunity_window_hours && not (is_empty scenario)

  unfoldable pub candidate :
      Params R
      → Env R
      → List (ScenarioRow R)
      → ℕ
      → BookName
      → Book R
      → (active : Bool) → (hypo_capital : R) → BookMetric R
  candidate params env scenario step name book active hypo_capital =
      let row = row_of env name in
      let view = risk_view params scenario step name row in
      let sighting = sighting_of params env book name row view hypo_capital in
      let il_apr_bps = js_round (sighting.il_bps * ann_risk params) in
      let risk = base_risk params env book active row sighting.fee_apr_bps view.stats in
      let back = looks_back params scenario in
      let opportunity =
        if back then opportunity_of params env scenario step name book else no_opportunity in
      let final_risk =
        if back then book_risk params scenario step name sighting.share risk else risk in
      record {
        candidate = record {
          name = name;
          risk = final_risk.0;
          net_apr_bps =
              if back
              then opportunity.net_apr_bps
              else sighting.fee_apr_bps - params.fee_il_hurdle * abs il_apr_bps;
        };
        active = active;
        sighting = sighting;
        il_apr_bps = il_apr_bps;
        opportunity = opportunity;
        reasons = final_risk.1;
        stats = view.stats;
        pool_liquidity_usd = row.risk.pool_liquidity_usd;
        eligible = is_eligible params row;
      }

  -- The metrics of both books; an empty active book counts with the whole portfolio's value.
  unfoldable pub p_marks :
      Params R → Env R → List (ScenarioRow R) → ℕ → Portfolio R → List (BookMetric R)
  p_marks params env scenario step pf =
      let active_value = book_value (book_at pf pf.active_book) env.sqrt_p in
      let hypo_capital =
        if num 0 <? active_value then active_value else portfolio_nav pf env.sqrt_p env.price in
      let metric = λ (name : BookName).
        candidate params env scenario step name (book_at pf name) (same_book pf.active_book name)
          hypo_capital in
      metric book_a ∷ metric book_b ∷ []
