-- ===== src/Model/Fees/Revenue.antt =====
-- In the exact fee mode a book earns at most the pool's fee revenue.
use nvda_tranched_arc.Prelude.{
  ℕ, Bool, true, false, not, ◌&&◌, ◌≡◌, Option, none, some, List, [], ◌∷◌, Bool-cases, inl, inr,
  arith, either, either_by, ◌∙◌, sym, ap,
}
use nvda_tranched_arc.Sequence.{is_empty}
use nvda_tranched_arc.Number.{Number, ◌+◌, ◌-◌, ◌*◌, ◌/◌, ◌<◌, ◌≤◌, ◌<?◌, ◌≤?◌, num, IsExact}
use nvda_tranched_arc.Number.Algebra.{
  ring, add-div, mul-div_cancel, add-le-add, le-add_right, max_keeps, add-zero, mul-zero,
}
use nvda_tranched_arc.Number.Order.{le_of_lt, lt_of_lt-le, lt_of_not-le}
use nvda_tranched_arc.Model.{Book, Minute}
use nvda_tranched_arc.Model.Books.{book_has_positions}
use nvda_tranched_arc.Model.Fees.Bounds.{HasLiquidity}
use nvda_tranched_arc.Model.Fees.Pulled.{pulled-le}
use nvda_tranched_arc.Model.Fees.{
  FeeParts, FeeSums, Sleeves, both, guard_only, base_only, neither, guard_liquidity, both_liquidity,
  fee_rate, sleeves_at, exact_share, add_minute, add_tick, sum_minutes, book_fee_parts,
  book_fee_for_hour, no_sums, exact_of, no_parts, parts_of,
}

module _ {R : Type 0} ⦃n : Number R⦄ where
  -- What was earned up to a volume.
  pub record IsEarned (rate : R) (s : FeeSums R) (w : R) : Type 0 where
    pub both_nonneg : num 0 ≤ s.exact_both
    pub guard_nonneg : num 0 ≤ s.exact_guard_only
    pub base_nonneg : num 0 ≤ s.exact_base_only
    pub within : s.exact_both + s.exact_guard_only + s.exact_base_only ≤ rate * w

  -- The volume of the minutes on top of `w`.
  abbrev pub volume_from : R → List (Minute R) → R
  volume_from w [] = w
  volume_from w (minute ∷ minutes) = volume_from (w + minute.volume) minutes

  abbrev pub NonnegVolumes : List (Minute R) → Type 0
  NonnegVolumes [] = Unit
  NonnegVolumes (minute ∷ minutes) = (num 0 ≤ minute.volume) × NonnegVolumes minutes

module _ {R : Type 0} ⦃n : Number R⦄ (e : IsExact R) (rate : R) (hr : num 0 ≤ rate) where
  open e use {ordered, zero-add}
  open e.ordered use {
    le_refl, le_trans, add_nonneg, mul_nonneg, div_nonneg, mul-le-mul_right, add-le-add_right,
    div-le-div_right, mul_comm,
  }

  -- A share of the volume's fee is at most the fee.
  share-le : (a pool l : R) → num 0 ≤ a → num 0 ≤ pool → num 0 < l → a * l / (pool + l) ≤ a
  share-le a pool l ha hp hl =
      let grows : l ≤ pool + l = rw (zero-add l) at (add-le-add_right (num 0) pool l hp) in
      let pos = lt_of_lt-le ordered (num 0) l (pool + l) hl grows in
      rw (mul-div_cancel e a (pool + l) pos) at (
        div-le-div_right (a * l) (a * (pool + l)) (pool + l) pos
          (rw (mul_comm a l, mul_comm a (pool + l)) (mul-le-mul_right l (pool + l) a ha grows)))

  tests : (a b c d : Bool) → a && ((b && c) && d) ≡ true → (b ≡ true) × (c ≡ true) × (d ≡ true)
  tests a b c d h = ground arith

  swap_last : (sum share rest : R) → sum + share + rest ≡ sum + rest + share
  swap_last sum share rest = simp (ring, e)

  more_volume :
      (s : FeeSums R) (w vol : R) → num 0 ≤ vol → IsEarned rate s w → IsEarned rate s (w + vol)
  more_volume s w vol hv h = record {
    both_nonneg = h.both_nonneg;
    guard_nonneg = h.guard_nonneg;
    base_nonneg = h.base_nonneg;
    within = rw (e.mul-add rate w vol) (
        le_trans _ (rate * w) (rate * w + rate * vol) h.within
          (le-add_right e (rate * w) (rate * vol) (mul_nonneg rate vol hr hv)));
  }

  -- A minute adds at most its volume's fee to one of the sums; `rest` are the other two.
  exact_of-IsEarned :
      (exact : Bool) (l : R) (minute : Minute R) (sum rest w : R)
      → num 0 ≤ minute.volume
      → num 0 ≤ sum
      → sum + rest ≤ rate * w
      → let sum' = exact_of exact rate l minute sum in
        (num 0 ≤ sum') × (sum' + rest ≤ rate * (w + minute.volume))
  unfolding exact_share
  exact_of-IsEarned exact l minute sum rest w hv hs h =
      let vol = minute.volume in
      let v1 = minute.vol_over_l in
      let fee_nonneg = mul_nonneg rate vol hr hv in
      let share = rate * vol * l / (vol / v1 + l) in
      either_by (λ x. (num 0 ≤ x) × (x + rest ≤ rate * (w + vol)))
        (exact && (((num 0 <? vol) && (num 0 <? v1)) && (num 0 <? l)))
        (λ t.
          let (vol_pos, v1_pos, l_pos) = tests exact (num 0 <? vol) (num 0 <? v1) (num 0 <? l) t in
          let pool_nonneg = div_nonneg vol v1 hv v1_pos in
          let total_pos =
            lt_of_lt-le ordered (num 0) l (vol / v1 + l) l_pos
              (rw (e.ordered.add_comm (vol / v1) l) (le-add_right e l (vol / v1) pool_nonneg)) in
          (
            add_nonneg sum share hs (
                div_nonneg (rate * vol * l) (vol / v1 + l)
                  (mul_nonneg (rate * vol) l fee_nonneg (le_of_lt ordered (num 0) l l_pos))
                  total_pos),
            rw (swap_last sum share rest, e.mul-add rate w vol)
                (add-le-add e (sum + rest) (rate * w) share (rate * vol) h
                  (share-le (rate * vol) (vol / v1) l fee_nonneg pool_nonneg l_pos)),
          ))
        (λ t. (
          hs,
          rw (e.mul-add rate w vol) (
              le_trans (sum + rest) (rate * w) (rate * w + rate * vol) h
                (le-add_right e (rate * w) (rate * vol) fee_nonneg)),
        ))

  same_sum : (b g o : R) → b + g + o ≡ b + (g + o)
  same_sum b g o = simp (ring, e)

  guard_first : (b g o : R) → b + g + o ≡ g + (b + o)
  guard_first b g o = simp (ring, e)

  base_first : (b g o : R) → b + g + o ≡ o + (b + g)
  base_first b g o = simp (ring, e)

  add_minute-IsEarned :
      (exact : Bool) (book : Book R) (minute : Minute R) (sleeves : Sleeves) (s : FeeSums R) (w : R)
      → num 0 ≤ minute.volume
      → IsEarned rate s w
      → IsEarned rate (add_minute exact rate book minute sleeves s) (w + minute.volume)
  unfolding add_minute
  add_minute-IsEarned exact book minute both s w hv h =
      let (nonneg, within) =
        exact_of-IsEarned exact (both_liquidity book) minute s.exact_both
          (s.exact_guard_only + s.exact_base_only) w hv h.both_nonneg
          (rw (← same_sum s.exact_both s.exact_guard_only s.exact_base_only) h.within) in
      record {
        both_nonneg = nonneg;
        guard_nonneg = h.guard_nonneg;
        base_nonneg = h.base_nonneg;
        within = rw (same_sum _ s.exact_guard_only s.exact_base_only) within;
      }
  add_minute-IsEarned exact book minute guard_only s w hv h =
      let (nonneg, within) =
        exact_of-IsEarned exact (guard_liquidity book) minute s.exact_guard_only
          (s.exact_both + s.exact_base_only) w hv h.guard_nonneg
          (rw (← guard_first s.exact_both s.exact_guard_only s.exact_base_only) h.within) in
      record {
        both_nonneg = h.both_nonneg;
        guard_nonneg = nonneg;
        base_nonneg = h.base_nonneg;
        within = rw (guard_first s.exact_both _ s.exact_base_only) within;
      }
  add_minute-IsEarned exact book minute base_only s w hv h =
      let (nonneg, within) =
        exact_of-IsEarned exact book.base_l minute s.exact_base_only
          (s.exact_both + s.exact_guard_only) w hv h.base_nonneg
          (rw (← base_first s.exact_both s.exact_guard_only s.exact_base_only) h.within) in
      record {
        both_nonneg = h.both_nonneg;
        guard_nonneg = h.guard_nonneg;
        base_nonneg = nonneg;
        within = rw (base_first s.exact_both s.exact_guard_only _) within;
      }
  add_minute-IsEarned exact book minute neither s w hv h = more_volume s w minute.volume hv h

  add_tick-IsEarned :
      (exact : Bool) (book : Book R) (minute : Minute R) (tick : Option R) (s : FeeSums R) (w : R)
      → num 0 ≤ minute.volume
      → IsEarned rate s w
      → IsEarned rate (add_tick exact rate book minute tick s) (w + minute.volume)
  unfolding add_tick
  add_tick-IsEarned exact book minute none s w hv h = more_volume s w minute.volume hv h
  add_tick-IsEarned exact book minute (some t) s w hv h =
      add_minute-IsEarned exact book minute (sleeves_at book t) s w hv h

  sum_minutes-IsEarned :
      (exact : Bool) (book : Book R) (minutes : List (Minute R)) (s : FeeSums R) (w : R)
      → NonnegVolumes minutes
      → IsEarned rate s w
      → IsEarned rate (sum_minutes exact rate book minutes s) (volume_from w minutes)
  unfolding sum_minutes
  sum_minutes-IsEarned exact book [] s w hv h = h
  sum_minutes-IsEarned exact book (minute ∷ minutes) s w hv h =
      sum_minutes-IsEarned exact book minutes _ (w + minute.volume) hv.1
        (add_tick-IsEarned exact book minute minute.tick s w hv.0 h)

  -- What the exact mode shows of the parts.
  abbrev IsConsistent : R → FeeParts R → Type 0
  IsConsistent w p =
      (num 0 ≤ p.both)
      × (num 0 ≤ p.base_only)
      × (p.both + p.base_only ≤ p.total)
      × (p.total ≤ rate * w)

  no_sums-IsEarned : IsEarned rate no_sums (num 0)
  no_sums-IsEarned = record {
    both_nonneg = le_refl (num 0);
    guard_nonneg = le_refl (num 0);
    base_nonneg = le_refl (num 0);
    within = rw (mul-zero e rate, add-zero e (num 0), add-zero e (num 0)) (le_refl (num 0));
  }

  without_guard : (b g o : R) → b + o + g ≡ b + g + o
  without_guard b g o = simp (ring, e)

  earned-IsConsistent :
      (s : FeeSums R) (w : R)
      → IsEarned rate s w
      → IsConsistent w (parts_of s.exact_both s.exact_guard_only s.exact_base_only)
  earned-IsConsistent s w h =
      let b = s.exact_both in
      let g = s.exact_guard_only in
      let o = s.exact_base_only in
      let t = add_nonneg (b + g) o (add_nonneg b g h.both_nonneg h.guard_nonneg) h.base_nonneg in
      rw (max_keeps e b h.both_nonneg, max_keeps e o h.base_nonneg, max_keeps e (b + g + o) t)
        (
          h.both_nonneg,
          h.base_nonneg,
          (rw (without_guard b g o) at (le-add_right e (b + o) g h.guard_nonneg)),
          h.within,
        )

  no_parts-IsConsistent : (s : FeeSums R) (w : R) → IsEarned rate s w → IsConsistent w no_parts
  no_parts-IsConsistent s w h =
      let t =
        add_nonneg (s.exact_both + s.exact_guard_only) s.exact_base_only
          (add_nonneg s.exact_both s.exact_guard_only h.both_nonneg h.guard_nonneg) h.base_nonneg in
      (
        le_refl (num 0),
        le_refl (num 0),
        rw (add-zero e (num 0)) (le_refl (num 0)),
        le_trans (num 0) _ (rate * w) t h.within,
      )

module _ {R : Type 0} ⦃n : Number R⦄ (e : IsExact R) where
  open e use {ordered}
  open e.ordered use {le_refl, le_trans, add_nonneg, div_nonneg, num-lt, sub_nonneg}

  module _ (book : Book R) (minutes : List (Minute R)) (fee_pips : R) (hf : num 0 ≤ fee_pips)
      (hv : NonnegVolumes minutes) where
    rate_nonneg : num 0 ≤ fee_rate fee_pips
    rate_nonneg = div_nonneg fee_pips (num 1_000_000) hf (num-lt 0 1_000_000 (omega arith))

    abbrev revenue : R
    revenue = fee_rate fee_pips * volume_from (num 0) minutes

    parts-IsConsistent :
        IsConsistent e
          (fee_rate fee_pips)
          rate_nonneg
          (volume_from (num 0) minutes)
          (book_fee_parts book minutes fee_pips true)
    unfolding book_fee_parts
    parts-IsConsistent =
        let w = volume_from (num 0) minutes in
        let rate = fee_rate fee_pips in
        let s = sum_minutes true rate book minutes no_sums in
        let earned =
          sum_minutes-IsEarned e rate rate_nonneg true book minutes no_sums (num 0) hv
            (no_sums-IsEarned e rate rate_nonneg) in
        let none = no_parts-IsConsistent e rate rate_nonneg s w earned in
        either (IsConsistent e rate rate_nonneg w) (not (book_has_positions book)) none (
          either (IsConsistent e rate rate_nonneg w) (is_empty minutes) none
            (earned-IsConsistent e rate rate_nonneg s w earned))

    split_again : (t b o g h : R) → (t - b - o) + g + (o + h) ≡ t + (g + h) - b
    split_again t b o g h = simp (ring, e)

    swap_scaled : (b x y : R) → b * y + b * x ≡ b * (x + y)
    swap_scaled b x y = simp (ring, e)

    both_shares : (b x y : R) → num 0 < x + y → b * y / (x + y) + b * x / (x + y) ≡ b
    both_shares b x y h =
        sym (add-div e (b * y) (b * x) (x + y))
        ∙ ap (λ t. t / (x + y)) (swap_scaled b x y)
        ∙ mul-div_cancel e b (x + y) h

    drop_again : (t b : R) → t + b - b ≡ t
    drop_again t b = simp (ring, e)

    apart : (t b o : R) → t - b - o ≡ t - (b + o)
    apart t b o = simp (ring, e)

    rest_nonneg : (t b o : R) → b + o ≤ t → num 0 ≤ t - b - o
    rest_nonneg t b o h = rw (apart t b o) (sub_nonneg t (b + o) h)

    whole :
        book_has_positions book ≡ true
        → (both_liquidity book ≤? num 0) ≡ false
        → (book_fee_for_hour book minutes fee_pips none true).total
          ≡ (book_fee_parts book minutes fee_pips true).total
    unfolding book_fee_for_hour
    whole inside full =
        let p = book_fee_parts book minutes fee_pips true in
        let x = book.base_l in
        let y = guard_liquidity book in
        let (_, _, within, _) = parts-IsConsistent in
        let pos = lt_of_not-le ordered (num 0) (x + y) full in
        rw
          (
            inside,
            full,
            max_keeps e (p.total - p.both - p.base_only)
                (rest_nonneg p.total p.both p.base_only within),
          )
          (split_again p.total p.both p.base_only (p.both * y / (x + y)) (p.both * x / (x + y))
            ∙ ap (λ t. p.total + t - p.both) (both_shares p.both x y pos)
            ∙ drop_again p.total p.both)

    hour-le_revenue : (book_fee_for_hour book minutes fee_pips none true).total ≤ revenue
    unfolding book_fee_for_hour
    hour-le_revenue =
        let p = book_fee_parts book minutes fee_pips true in
        let (b, o, within, bounded) = parts-IsConsistent in
        let total_nonneg =
          le_trans (num 0) (p.both + p.base_only) p.total (add_nonneg p.both p.base_only b o)
            within in
        elim (Bool-cases (book_has_positions book)) [
          | inr out ↦ rw out (le_trans (num 0) p.total revenue total_nonneg bounded)
          | inl inside ↦ elim (Bool-cases (both_liquidity book ≤? num 0)) [
            | inl empty ↦ rw (inside, empty) bounded
            | inr full ↦ rw (whole inside full) bounded
          ]
        ]

    -- In the exact mode the fees of an hour, with or without a pull of the guard, are at most the fee
    -- of the pool's volume over the minutes, for a fee, volumes and liquidity that are not negative.
    pub book_fee_for_hour-le_revenue :
        (bin : Option ℕ)
        → HasLiquidity book
        → (book_fee_for_hour book minutes fee_pips bin true).total ≤ revenue
    book_fee_for_hour-le_revenue none h = hour-le_revenue
    book_fee_for_hour-le_revenue (some bin) h =
        le_trans _ (book_fee_for_hour book minutes fee_pips none true).total revenue
          (pulled-le e book minutes fee_pips bin true h) hour-le_revenue
