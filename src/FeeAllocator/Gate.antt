-- ===== src/FeeAllocator/Gate.antt =====
-- `_trailing_volume` and `pool_b_risk` of research/cadcad/fee_allocator/model.py.
use Prim.Native.Nat.{◌-◌ as nat_sub, max as nat_max, min as nat_min}
use nvda_tranched_arc.Prelude.{
  ℕ, zero, suc, Bool, true, false, ◌||◌, List, [], ◌∷◌, ◌++◌, if◌then◌else◌, ltb,
}
use nvda_tranched_arc.Sequence.{take, drop, length}
use nvda_tranched_arc.Number.{Number, ◌+◌, ◌-◌, ◌*◌, ◌/◌, ◌<?◌, ◌≤?◌, num, min, max}
use nvda_tranched_arc.Allocator.{Risk, normal, high}
use nvda_tranched_arc.FeeAllocator.{Row, Scenario, FeeParams}

pub data GateReason : Type 0 where
  volume volatility guard depeg share_cap : GateReason

abbrev pub reason_if : Bool → GateReason → List GateReason
reason_if true r = r ∷ []
reason_if false r = []

abbrev pub gate_of : List GateReason → Risk
gate_of [] = normal
gate_of (r ∷ rs) = high

module _ {R : Type 0} where
  abbrev pub rows_of : Scenario R → List (Row R)
  rows_of s = s.first ∷ s.rest

  -- `rows[idx]`, where an index beyond the end is the last one.
  row_from : Row R → List (Row R) → ℕ → Row R
  row_from row [] idx = row
  row_from row (r ∷ rs) zero = row
  row_from row (r ∷ rs) (suc idx) = row_from r rs idx

  unfoldable pub row_at : Scenario R → ℕ → Row R
  unfolding row_from
  row_at s idx = row_from s.first s.rest idx

  -- `min(step, len(rows) - 1)`
  unfoldable pub clamp_index : Scenario R → ℕ → ℕ
  unfolding length
  clamp_index s step = nat_min step (length s.rest)

  -- `rows[max(0, idx - window + 1) : idx + 1]`
  unfoldable pub trailing_rows : Scenario R → (idx window : ℕ) → List (Row R)
  unfolding take drop
  trailing_rows s idx window =
      let start = nat_sub (suc idx) (nat_max 1 window) in
      take (nat_sub (suc idx) start) (drop start (rows_of s))

module _ {R : Type 0} ⦃n : Number R⦄ where
  unfoldable pub sum_rows : (Row R → R) → R → List (Row R) → R
  sum_rows f total [] = total
  sum_rows f total (r ∷ rs) = sum_rows f (total + f r) rs

  -- `max(1, len(rows))`
  unfoldable pub count_rows : List (Row R) → R
  unfolding length
  count_rows rows = num (nat_max 1 (length rows))

  unfoldable pub trailing_volume : Scenario R → (idx window : ℕ) → R → R
  trailing_volume s idx window vol_mult =
      let rows = trailing_rows s idx window in
      sum_rows (λ r. r.volume_usd) (num 0) rows / count_rows rows * vol_mult

  -- `share_cap * cap_b / (nav * (1.0 - share_cap)) if nav > 0 else 0.0`
  unfoldable pub cap_safe_weight : FeeParams R → R → R
  cap_safe_weight params nav =
      if num 0 <? nav
      then params.share_cap_30 * params.capacity.p30 / (nav * (num 1 - params.share_cap_30))
      else num 0

  unfoldable pub gate_reasons : Scenario R → ℕ → R → FeeParams R → R → List GateReason
  gate_reasons s step nav params w =
      let idx = clamp_index s step in
      let row = row_at s idx in
      let nav' = max (num 0) nav in
      let w' = max (num 0) (min (num 1) w) in
      let cap_b = params.capacity.p30 in
      let capital_b = w' * nav' in
      let share = if num 0 <? capital_b + cap_b then capital_b / (capital_b + cap_b) else num 0 in
      let average = trailing_volume s idx params.risk_volume_window_hours params.vol30_mult in
      let tolerance = num 1 + num 1 / num 1_000_000_000 in
      reason_if (average <? params.risk_min_volume_usd) volume
      ++ (reason_if (params.risk_max_volatility_bps <? row.volatility_bps) volatility
          ++ (reason_if
                ((params.risk_guard_pull_threshold_bps <? row.max5m_move_bps)
                  || ltb params.risk_max_guard_pulls row.guard_pulls)
                guard
              ++ (reason_if ((params.risk_depeg_bps <? row.depeg_proxy) || row.depeg_paused) depeg
                  ++ reason_if
                      ((params.share_cap_30 * tolerance <? share)
                        || (cap_safe_weight params nav' ≤? num 0))
                      share_cap)))

  -- The `risk` of `pool_b_risk`.
  unfoldable pub pool_b_risk : Scenario R → ℕ → R → FeeParams R → R → Risk
  pool_b_risk s step nav params w = gate_of (gate_reasons s step nav params w)
