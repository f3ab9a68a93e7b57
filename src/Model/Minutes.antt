-- ===== src/Model/Minutes.antt =====
-- `_rolling_minutes`, `_slice_minutes` and `_window_stats` of research/cadcad/allocator/model.py: the
-- minutes that a signal looks back on. A minute is a record, where the code keeps parallel lists.
pub mod Rolling
pub mod Volatility
use Prim.Native.Nat.{◌+◌ as nat_add, ◌-◌ as nat_sub, ◌/◌ as nat_div, min as nat_min, max as nat_max}
use nvda_tranched_arc.Prelude.{ℕ, suc, Option, none, some, List, [], ◌∷◌, ◌++◌}
use nvda_tranched_arc.Sequence.{length, drop, slice}
use nvda_tranched_arc.Number.{Number, ◌-◌, ◌+◌, num, min, max}
use nvda_tranched_arc.Allocator.{BookName}
use nvda_tranched_arc.Model.{Minute, ScenarioRow}
use nvda_tranched_arc.Model.Windows.{book_row}

-- `v[-window:]`, for a window that is not empty.
unfoldable pub suffix : {A : Type 0} → ℕ → List A → List A
suffix window xs = drop (nat_sub (length xs) window) xs

-- `max(1, min(1_440, int(window_minutes)))`
abbrev pub window_of : ℕ → ℕ
window_of window_minutes = nat_max 1 (nat_min 1_440 window_minutes)

module _ {R : Type 0} where
  -- The minutes of some hours, one hour after the other.
  unfoldable pub join_minutes : BookName → List (ScenarioRow R) → List (Minute R)
  join_minutes name [] = []
  join_minutes name (row ∷ rows) = (book_row name row).minutes ++ join_minutes name rows

  unfoldable pub rolling_minutes :
      List (ScenarioRow R) → (step window_minutes : ℕ) → BookName → List (Minute R)
  rolling_minutes scenario step window_minutes name =
      let window = window_of window_minutes in
      let rows_needed = nat_div (nat_add window 59) 60 in
      let start = nat_sub (suc step) rows_needed in
      let end = nat_min step (nat_sub (length scenario) 1) in
      suffix window (join_minutes name (slice scenario start (suc end)))

  -- `_slice_minutes(row["minutes"], 60 - risk_minutes, 60)`
  unfoldable pub last_of_hour : (risk_minutes : ℕ) → List (Minute R) → List (Minute R)
  last_of_hour risk_minutes minutes = slice minutes (nat_sub 60 risk_minutes) 60

-- The volume, the volatility and the first and last tick of a window.
pub record WindowStats (R : Type 0) : Type 0 where
  pub volume_usd : R
  pub volatility_bps : R
  pub tick_first : R
  pub tick_last : R

-- The ticks of a window, once there is one.
pub record TickRange (R : Type 0) : Type 0 where
  pub first : R
  pub last : R
  pub lowest : R
  pub highest : R

module _ {R : Type 0} ⦃n : Number R⦄ where
  unfoldable pub volume_of : R → List (Minute R) → R
  volume_of total [] = total
  volume_of total (m ∷ ms) = volume_of (total + m.volume) ms

  -- One more tick.
  unfoldable pub see_tick : Option R → Option (TickRange R) → Option (TickRange R)
  see_tick none range = range
  see_tick (some t) none = some (record { first = t; last = t; lowest = t; highest = t })
  see_tick (some t) (some r) =
      some
        (record { first = r.first; last = t; lowest = min r.lowest t; highest = max r.highest t })

  unfoldable pub ticks_of : Option (TickRange R) → List (Minute R) → Option (TickRange R)
  ticks_of range [] = range
  ticks_of range (m ∷ ms) = ticks_of (see_tick m.tick range) ms

  unfoldable pub stats_of : R → Option (TickRange R) → WindowStats R
  stats_of volume none = record {
    volume_usd = volume;
    volatility_bps = num 0;
    tick_first = num 0;
    tick_last = num 0;
  }
  stats_of volume (some r) = record {
    volume_usd = volume;
    volatility_bps = r.highest - r.lowest;
    tick_first = r.first;
    tick_last = r.last;
  }

  unfoldable pub window_stats : List (Minute R) → WindowStats R
  window_stats minutes = stats_of (volume_of (num 0) minutes) (ticks_of none minutes)
