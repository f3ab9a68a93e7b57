-- ===== src/Model/Windows.antt =====
-- The rolling signals of research/cadcad/allocator/model.py: `_book_fee_il_window`,
-- `_guard_fee_il_window` and `_fee_il_streak`.
pub mod Streak
use Prim.Native.Nat.{◌-◌ as nat_sub, min as nat_min}
use nvda_tranched_arc.Prelude.{
  ℕ, zero, suc, Bool, not, ◌||◌, none, List, [], ◌∷◌, if◌then◌else◌, ltb,
}
use nvda_tranched_arc.Sequence.{length, slice, get_or}
use nvda_tranched_arc.Number.{Number, ◌+◌, ◌-◌, ◌*◌, ◌/◌, ◌<?◌, ◌≤?◌, num, max, abs}
use nvda_tranched_arc.Lp.{Math, position_value_usd, il_bps_for_ticks}
use nvda_tranched_arc.Allocator.{BookName, book_a, book_b}
use nvda_tranched_arc.Model.{Book, BookRow, ScenarioRow}
use nvda_tranched_arc.Model.Books.{book_has_positions, book_value}
use nvda_tranched_arc.Model.Fees.{FeeSplit, book_fee_for_hour}

-- The fees and the impermanent loss of a window, as yearly rates and as amounts.
pub record FeeIlWindow (R : Type 0) : Type 0 where
  pub fee_apr_bps : R
  pub il_apr_bps : R
  pub fee_usd : R
  pub il_bps : R
  pub value_usd : R

-- `scenario[j][book_key]`
abbrev pub book_row : {R : Type 0} → BookName → ScenarioRow R → BookRow R
book_row book_a row = row.first_row
book_row book_b row = row.second_row

module _ {R : Type 0} ⦃n : Number R⦄ where
  -- 365 * 24
  abbrev pub hours_per_year : R
  hours_per_year = num 8_760

  -- 1e-9
  abbrev pub tiny : R
  tiny = num 1 / num 1_000_000_000

  abbrev pub no_window : FeeIlWindow R
  no_window = record {
    fee_apr_bps = num 0;
    il_apr_bps = num 0;
    fee_usd = num 0;
    il_bps = num 0;
    value_usd = num 0;
  }

  -- A sum over the window's hours.
  unfoldable pub sum_hours : (ScenarioRow R → R) → R → List (ScenarioRow R) → R
  sum_hours f total [] = total
  sum_hours f total (row ∷ rows) = sum_hours f (total + f row) rows

  -- The signal from the window's fees, its value and its first and last tick.
  unfoldable pub signal : (total value il_bps : R) → ℕ → FeeIlWindow R
  signal total value il_bps hours =
      let ann = hours_per_year / num hours in
      record {
        fee_apr_bps = total / value * ann * num 10_000;
        il_apr_bps = abs il_bps * ann;
        fee_usd = total;
        il_bps = il_bps;
        value_usd = value;
      }

module _ {R : Type 0} ⦃n : Number R⦄ ⦃m : Math R⦄ (book : Book R) (step hours : ℕ) (fee_pips : R)
    (name : BookName) (exact : Bool) where
  -- The fees of the book as it stands in a scenario's hour.
  abbrev pub hour_fees : ScenarioRow R → FeeSplit R
  hour_fees row = book_fee_for_hour book (book_row name row).minutes fee_pips none exact

  -- The hours from `start` up to `end`, marked at `end`.
  unfoldable pub window_signal :
      (fees : FeeSplit R → R) (value : R → R) (lo hi : R) → List (ScenarioRow R) → FeeIlWindow R
  window_signal fees value lo hi [] = no_window
  window_signal fees value lo hi (r ∷ rows) =
      let scenario = r ∷ rows in
      let end = nat_min step (length rows) in
      let start = nat_sub end hours in
      let first = get_or r scenario start in
      let last = get_or r scenario end in
      let total = sum_hours (λ row. fees (hour_fees row)) (num 0) (slice scenario start end) in
      if ltb start end
      then signal total (max (value last.sqrt_p) tiny) (il_bps_for_ticks first.tick last.tick lo hi)
          hours
      else no_window

  unfoldable pub book_fee_il_window : List (ScenarioRow R) → FeeIlWindow R
  book_fee_il_window scenario =
      let has_base = num 0 <? book.base_l in
      let lo = if has_base then book.base_lo else book.guard_lo in
      let hi = if has_base then book.base_hi else book.guard_hi in
      if not (book_has_positions book) || not (ltb 0 hours)
      then no_window
      else window_signal (λ s. s.total) (book_value book) lo hi scenario

  unfoldable pub guard_fee_il_window : List (ScenarioRow R) → FeeIlWindow R
  guard_fee_il_window scenario =
      let value = λ (q : R). position_value_usd book.guard_l q book.guard_lo book.guard_hi in
      if not book.guard_present || ((book.guard_l ≤? num 0) || not (ltb 0 hours))
      then no_window
      else window_signal (λ s. s.guard) value book.guard_lo book.guard_hi scenario

-- The hours in a row, back from `step`, at which a test holds; at most `left` are looked at.
unfoldable pub streak_from : (ℕ → Bool) → (step left k : ℕ) → ℕ
streak_from below step zero k = 0
streak_from below step (suc left) k =
    let rest = streak_from below step left (suc k) in
    if ltb step k then 0 else if below (nat_sub step k) then suc rest else 0

module _ {R : Type 0} ⦃n : Number R⦄ ⦃m : Math R⦄ where
  -- The fees less the hurdle's share of the loss are below the buffer at an hour.
  unfoldable pub below_buffer :
      Book R
      → List (ScenarioRow R)
      → (hours : ℕ) (fee_pips : R) → BookName
      → (hurdle buffer_bps : R) → (exact : Bool) → ℕ
      → Bool
  below_buffer book scenario hours fee_pips name hurdle buffer_bps exact step =
      let w = book_fee_il_window book step hours fee_pips name exact scenario in
      w.fee_apr_bps - hurdle * w.il_apr_bps <? buffer_bps

  unfoldable pub fee_il_streak :
      Book R
      → List (ScenarioRow R)
      → (step hours : ℕ) (fee_pips : R) → BookName
      → (hurdle buffer_bps : R) → (confirm_hours : ℕ) (exact : Bool) → ℕ
  fee_il_streak book scenario step hours fee_pips name hurdle buffer_bps confirm_hours exact =
      let below = below_buffer book scenario hours fee_pips name hurdle buffer_bps exact in
      if ltb 1 confirm_hours
      then streak_from below step confirm_hours 0
      else if below step
      then 1
      else 0
