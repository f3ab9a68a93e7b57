-- ===== src/Model/Fees.antt =====
-- `book_fee_parts` and `book_fee_for_hour` of research/cadcad/allocator/model.py: the fees of one
-- book in one hour.
pub mod Bounds
pub mod Shares
pub mod Expansion
pub mod Pulled
pub mod Revenue
use nvda_tranched_arc.Prelude.{ℕ, Bool, not, ◌&&◌, Option, none, some, List, [], ◌∷◌, if◌then◌else◌}
use nvda_tranched_arc.Sequence.{is_empty}
use nvda_tranched_arc.Number.{Number, ◌+◌, ◌-◌, ◌*◌, ◌/◌, ◌<?◌, ◌≤?◌, num, min, max}
use nvda_tranched_arc.Model.{Book, Minute}
use nvda_tranched_arc.Model.Books.{book_has_positions}

-- A total, what is earned while both sleeves are in range, and what the base earns alone.
pub record FeeParts (R : Type 0) : Type 0 where
  pub total : R
  pub both : R
  pub base_only : R

-- A total, the guard's part and the base's.
pub record FeeSplit (R : Type 0) : Type 0 where
  pub total : R
  pub guard : R
  pub base : R

-- The sums of the loop over the minutes, by which sleeves are in range.
pub record FeeSums (R : Type 0) : Type 0 where
  pub v1_both : R
  pub v2_both : R
  pub v1_guard_only : R
  pub v2_guard_only : R
  pub v1_base_only : R
  pub v2_base_only : R
  pub exact_both : R
  pub exact_guard_only : R
  pub exact_base_only : R

-- Which sleeves a minute's tick is in the range of.
pub data Sleeves : Type 0 where
  both guard_only base_only neither : Sleeves

module _ {R : Type 0} ⦃n : Number R⦄ where
  abbrev pub no_sums : FeeSums R
  no_sums = record {
    v1_both = num 0;
    v2_both = num 0;
    v1_guard_only = num 0;
    v2_guard_only = num 0;
    v1_base_only = num 0;
    v2_base_only = num 0;
    exact_both = num 0;
    exact_guard_only = num 0;
    exact_base_only = num 0;
  }

  -- `float(book.get("guard_L", 0.0)) if book.get("guard_present") else 0.0`
  abbrev pub guard_liquidity : Book R → R
  guard_liquidity book = if book.guard_present then book.guard_l else num 0

  abbrev pub both_liquidity : Book R → R
  both_liquidity book = book.base_l + guard_liquidity book

  -- `float(fee_pips) / 1e6`
  abbrev pub fee_rate : R → R
  fee_rate fee_pips = fee_pips / num 1_000_000

  unfoldable pub sleeves_at : Book R → R → Sleeves
  sleeves_at book t =
      let base_in = (num 0 <? book.base_l) && ((book.base_lo ≤? t) && (t <? book.base_hi)) in
      let guard_in =
        (num 0 <? guard_liquidity book) && ((book.guard_lo ≤? t) && (t <? book.guard_hi)) in
      if guard_in && base_in
      then both
      else if guard_in
      then guard_only
      else if base_in
      then base_only
      else neither

  -- `rate * vol * l / (pool_l + l)` with `pool_l = vol / v1`
  unfoldable pub exact_share : (rate vol v1 l : R) → R
  exact_share rate vol v1 l = rate * vol * l / (vol / v1 + l)

  -- What a minute adds to one of the exact sums. With both sleeves in range both have liquidity, so
  -- the code's next case is not tried.
  abbrev pub exact_of : (exact : Bool) (rate l : R) → Minute R → R → R
  exact_of exact rate l minute sum =
      let vol = minute.volume in
      let v1 = minute.vol_over_l in
      if exact && (((num 0 <? vol) && (num 0 <? v1)) && (num 0 <? l))
      then sum + exact_share rate vol v1 l
      else sum

  unfoldable pub add_minute :
      (exact : Bool) (rate : R) → Book R → Minute R → Sleeves → FeeSums R → FeeSums R
  add_minute exact rate book minute both sums = record sums {
    v1_both = sums.v1_both + minute.vol_over_l;
    v2_both = sums.v2_both + minute.vol_over_l2;
    exact_both = exact_of exact rate (both_liquidity book) minute sums.exact_both;
  }
  add_minute exact rate book minute guard_only sums = record sums {
    v1_guard_only = sums.v1_guard_only + minute.vol_over_l;
    v2_guard_only = sums.v2_guard_only + minute.vol_over_l2;
    exact_guard_only = exact_of exact rate (guard_liquidity book) minute sums.exact_guard_only;
  }
  add_minute exact rate book minute base_only sums = record sums {
    v1_base_only = sums.v1_base_only + minute.vol_over_l;
    v2_base_only = sums.v2_base_only + minute.vol_over_l2;
    exact_base_only = exact_of exact rate book.base_l minute sums.exact_base_only;
  }
  add_minute exact rate book minute neither sums = sums

  -- A minute without a tick adds nothing.
  unfoldable pub add_tick :
      (exact : Bool) (rate : R) → Book R → Minute R → Option R → FeeSums R → FeeSums R
  add_tick exact rate book minute none sums = sums
  add_tick exact rate book minute (some t) sums =
      add_minute exact rate book minute (sleeves_at book t) sums

  unfoldable pub sum_minutes :
      (exact : Bool) (rate : R) → Book R → List (Minute R) → FeeSums R → FeeSums R
  sum_minutes exact rate book [] sums = sums
  sum_minutes exact rate book (minute ∷ minutes) sums =
      sum_minutes exact rate book minutes (add_tick exact rate book minute minute.tick sums)

  -- The second-order expansion of a share, `rate * (l * v1 - l * l * v2)`.
  unfoldable pub expansion : (rate l v1 v2 : R) → R
  expansion rate l v1 v2 = rate * (l * v1 - l * l * v2)

  abbrev pub parts_of : (both_fee guard_only_fee base_only_fee : R) → FeeParts R
  parts_of both_fee guard_only_fee base_only_fee = record {
    total = max (num 0) (both_fee + guard_only_fee + base_only_fee);
    both = max (num 0) both_fee;
    base_only = max (num 0) base_only_fee;
  }

  abbrev pub no_parts : FeeParts R
  no_parts = record { total = num 0; both = num 0; base_only = num 0 }

  unfoldable pub book_fee_parts :
      Book R → List (Minute R) → (fee_pips : R) (exact : Bool) → FeeParts R
  book_fee_parts book minutes fee_pips exact =
      let rate = fee_rate fee_pips in
      let base_l = book.base_l in
      let guard_l = guard_liquidity book in
      let s = sum_minutes exact rate book minutes no_sums in
      if not (book_has_positions book)
      then no_parts
      else if is_empty minutes
      then no_parts
      else if exact
      then parts_of s.exact_both s.exact_guard_only s.exact_base_only
      else parts_of (expansion rate (both_liquidity book) s.v1_both s.v2_both)
          (expansion rate guard_l s.v1_guard_only s.v2_guard_only)
          (expansion rate base_l s.v1_base_only s.v2_base_only)

  -- The part of the hour before the bin of a pull.
  abbrev pub fraction_of : ℕ → R
  fraction_of bin = max (num 0) (min (num 1) (num bin / num 12))

  abbrev pub guard_both_fee : R → Option ℕ → R
  guard_both_fee guard_share none = guard_share
  guard_both_fee guard_share (some bin) = guard_share * fraction_of bin

  abbrev pub no_split : FeeSplit R
  no_split = record { total = num 0; guard = num 0; base = num 0 }

  unfoldable pub book_fee_for_hour :
      Book R → List (Minute R) → (fee_pips : R) → Option ℕ → (exact : Bool) → FeeSplit R
  book_fee_for_hour book minutes fee_pips first_pull_bin exact =
      let parts = book_fee_parts book minutes fee_pips exact in
      let both_l = both_liquidity book in
      let guard_share = parts.both * guard_liquidity book / both_l in
      let base_share = parts.both * book.base_l / both_l in
      let guard_only = max (num 0) (parts.total - parts.both - parts.base_only) in
      let guard_fee = guard_only + guard_both_fee guard_share first_pull_bin in
      let base_fee = parts.base_only + base_share in
      if not (book_has_positions book)
      then no_split
      else if both_l ≤? num 0
      then record { total = parts.total; guard = num 0; base = parts.total }
      else record { total = guard_fee + base_fee; guard = guard_fee; base = base_fee }
