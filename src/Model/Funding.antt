-- ===== src/Model/Funding.antt =====
-- `_swap_deficit`, `_choose_base_skew` and `_fund_book` of research/cadcad/allocator/model.py.
use Prim.Native.Nat.{ℕ, zero, suc, ◌*◌ as nat_mul, ◌/◌ as nat_div, max as nat_max}
use nvda_tranched_arc.Prelude.{true, ◌&&◌, ◌||◌, none, List, [], ◌∷◌, if◌then◌else◌}
use nvda_tranched_arc.Number.{Number, ◌+◌, ◌-◌, ◌*◌, ◌/◌, ◌<?◌, ◌≤?◌, ◌==?◌, num, min, max, abs}
use nvda_tranched_arc.Lp.{Math, token_amounts}
use nvda_tranched_arc.Allocator.{BookName}
use nvda_tranched_arc.Model.{Book, Portfolio, Params, Env, book_at, set_book}

module _ {R : Type 0} ⦃n : Number R⦄ where
  -- 1e-9
  abbrev pub epsilon : R
  epsilon = num 1 / num 1_000_000_000

  abbrev pub add_swap_cost : R → Portfolio R → Portfolio R
  add_swap_cost cost pf = record pf {
    cum = record (pf.cum) { swap_cost = pf.cum.swap_cost + cost };
  }

  -- Sell NVDA for the missing USDG.
  unfoldable pub fill_usdg : Portfolio R → (x_req y_req price c : R) → Portfolio R × R
  fill_usdg pf x_req y_req price c =
      let short = x_req - pf.idle_usdg in
      let sell_value = short / (num 1 - c) in
      let nvda_sell = sell_value / price in
      if nvda_sell ≤? pf.idle_nvda - y_req + epsilon
      then (
        add_swap_cost (sell_value * c)
            (record pf { idle_nvda = pf.idle_nvda - nvda_sell; idle_usdg = pf.idle_usdg + short }),
        sell_value * c,
      )
      else (pf, num 0)

  -- Sell USDG for the missing NVDA.
  unfoldable pub fill_nvda : Portfolio R → (x_req y_req price c : R) → Portfolio R × R
  fill_nvda pf x_req y_req price c =
      let short_nvda = y_req - pf.idle_nvda in
      let sell_value = short_nvda * price / (num 1 - c) in
      if sell_value ≤? pf.idle_usdg - x_req + epsilon
      then (
        add_swap_cost (sell_value * c) (record pf {
          idle_usdg = pf.idle_usdg - sell_value;
          idle_nvda = pf.idle_nvda + short_nvda;
        }),
        sell_value * c,
      )
      else (pf, num 0)

  unfoldable pub swap_deficit : Portfolio R → (x_req y_req price cost_bps : R) → Portfolio R × R
  unfolding fill_usdg fill_nvda
  swap_deficit pf x_req y_req price cost_bps =
      let ceiling = num 99 / num 100 in
      let c = max (num 0) (min ceiling (cost_bps / num 10_000)) in
      if price ≤? num 0
      then (pf, num 0)
      else if ceiling ≤? c
      then (pf, num 0)
      else if (pf.idle_usdg <? x_req) && (y_req <? pf.idle_nvda)
      then fill_usdg pf x_req y_req price c
      else if (pf.idle_nvda <? y_req) && (x_req <? pf.idle_usdg)
      then fill_nvda pf x_req y_req price c
      else (pf, num 0)

  -- The terms of `range(-start, …, step)` from the `k`-th on.
  range_from : (left k start step : ℕ) → List R
  range_from zero k start step = []
  range_from (suc left) k start step =
      (num (nat_mul k step) - num start) ∷ range_from left (suc k) start step

  -- `sorted(set([0] + xs))` of a rising list.
  with_zero : List R → List R
  with_zero [] = num 0 ∷ []
  with_zero (x ∷ xs) =
      let rest = with_zero xs in
      if num 0 <? x then num 0 ∷ x ∷ xs else if x ==? num 0 then x ∷ xs else x ∷ rest

  unfoldable pub skew_offsets : ℕ → List R
  unfolding range_from with_zero
  skew_offsets max_skew =
      let step = nat_max 1 (nat_div max_skew 40) in
      with_zero (range_from (suc (nat_div (nat_mul 2 max_skew) step)) 0 max_skew step)

  -- How much of both requirements the available tokens cover, at most `cap`.
  unfoldable pub funding_scale : (cap x_avail y_avail x_req y_req : R) → R
  funding_scale cap x_avail y_avail x_req y_req =
      let after_x = if num 0 <? x_req then min cap (x_avail / x_req) else cap in
      if num 0 <? y_req then min after_x (y_avail / y_req) else after_x

module _ {R : Type 0} ⦃n : Number R⦄ ⦃m : Math R⦄ where
  -- The tokens that both sleeves of a book need.
  unfoldable pub required_tokens :
      (target_base target_guard sqrt_p base_lo base_hi guard_lo guard_hi : R) → R × R
  required_tokens target_base target_guard sqrt_p base_lo base_hi guard_lo guard_hi =
      let base = token_amounts target_base sqrt_p base_lo base_hi in
      let guard = token_amounts target_guard sqrt_p guard_lo guard_hi in
      (base.0 + guard.0, base.1 + guard.1)

  -- The value that a base offset deploys.
  deployable : Portfolio R → Book R → Env R → Params R → R → R
  deployable pf book env params off =
      let tick = env.tick in
      let req =
        required_tokens book.target_base_l book.target_guard_l env.sqrt_p
          (tick + off - params.base_width_ticks) (tick + off + params.base_width_ticks)
          (tick - params.guard_width_ticks) (tick + params.guard_width_ticks) in
      funding_scale (num 1) pf.idle_usdg pf.idle_nvda req.0 req.1 * (req.0 + req.1 * env.price)

  -- The best offset and its value so far; ties go to the smaller shift.
  best_offset : (R → R) → List R → R × R → R × R
  best_offset value [] best = best
  best_offset value (off ∷ offs) (best_dep, best_off) =
      let dep = value off in
      let better =
        (best_dep + epsilon <? dep)
        || ((abs (dep - best_dep) ≤? epsilon) && (abs off <? abs best_off)) in
      best_offset value offs (if better then (dep, off) else (best_dep, best_off))

  unfoldable pub choose_base_skew : Portfolio R → Book R → Env R → Params R → R
  unfolding deployable best_offset skew_offsets
  choose_base_skew pf book env params =
      let offsets = skew_offsets params.base_skew_max_ticks in
      if num {R = R} params.base_skew_max_ticks ≤? num 0
      then num 0
      else if (book.target_base_l ≤? num 0) && (book.target_guard_l ≤? num 0)
      then num 0
      else (best_offset (deployable pf book env params) offsets (num 0 - num 1, num 0)).1

  -- `min(10_000, max(0, fund_book_bps))`
  abbrev pub fund_bps_of : Params R → R
  fund_bps_of params = min (num 10_000) (max (num 0) params.fund_book_bps)

  -- The portfolio after an optional swap, and the scale at which the book is funded.
  unfoldable pub funding_plan : Portfolio R → Env R → Params R → (x_req y_req : R) → Portfolio R × R
  funding_plan pf env params x_req y_req =
      let fund_bps = fund_bps_of params in
      let swapped =
        (swap_deficit pf (x_req * fund_bps / num 10_000) (y_req * fund_bps / num 10_000) env.price
          params.swap_cost_bps).0 in
      if params.funding_mode_swap
      then (
        swapped,
        funding_scale (fund_bps / num 10_000) swapped.idle_usdg swapped.idle_nvda x_req y_req,
      )
      else (
        pf,
        funding_scale (num 1) (pf.idle_usdg * fund_bps / num 10_000)
            (pf.idle_nvda * fund_bps / num 10_000) x_req y_req,
      )

  -- The book as funded at a scale.
  abbrev pub funded_book : Book R → Env R → Params R → (skew scale : R) → Book R
  funded_book book env params skew scale = record book {
    deployed = true;
    base_l = book.target_base_l * scale;
    guard_l = book.target_guard_l * scale;
    base_lo = env.tick + skew - params.base_width_ticks;
    base_hi = env.tick + skew + params.base_width_ticks;
    guard_lo = env.tick - params.guard_width_ticks;
    guard_hi = env.tick + params.guard_width_ticks;
    entry_tick = env.tick;
    base_skew_ticks = skew;
    fees = num 0;
    guard_present = true;
    last_pull_step = none;
  }

  -- What is taken out of the idle tokens, and the book that becomes active.
  abbrev pub deploy : BookName → Book R → (x_req y_req scale : R) → Portfolio R → Portfolio R
  deploy target book x_req y_req scale pf = set_book target book (record pf {
    idle_usdg = pf.idle_usdg - x_req * scale;
    idle_nvda = pf.idle_nvda - y_req * scale;
    active_book = target;
  })

  -- The portfolio after funding, and the USD value that was deployed.
  unfoldable pub fund_book : BookName → Env R → Params R → Portfolio R → Portfolio R × R
  fund_book target env params pf =
      let book = book_at pf target in
      let skew =
        if params.base_skew_inventory then choose_base_skew pf book env params else num 0 in
      let req =
        required_tokens book.target_base_l book.target_guard_l env.sqrt_p
          (env.tick + skew - params.base_width_ticks) (env.tick + skew + params.base_width_ticks)
          (env.tick - params.guard_width_ticks) (env.tick + params.guard_width_ticks) in
      let plan = funding_plan pf env params req.0 req.1 in
      let scale = plan.1 in
      if (req.0 ≤? num 0) && (req.1 ≤? num 0)
      then (pf, num 0)
      else if scale ≤? num 0
      then (plan.0, num 0)
      else (
        deploy target (funded_book book env params skew scale) req.0 req.1 scale plan.0,
        req.0 * scale + req.1 * scale * env.price,
      )
