-- ===== src/Model/Fees/Expansion.antt =====
-- The two modes of the fee share: the expansion earns at most what the exact share earns.
use nvda_tranched_arc.Prelude.{
  true, false, Option, none, some, List, [], ◌∷◌, Bool-cases, inl, inr, arith, subst⁻¹,
}
use nvda_tranched_arc.Sequence.{is_empty}
use nvda_tranched_arc.Number.{Number, ◌+◌, ◌≤◌, num, max, IsExact}
use nvda_tranched_arc.Number.Algebra.{add-le-add}
use nvda_tranched_arc.Number.Order.{le-max_left, le-max_right, max-le}
use nvda_tranched_arc.Model.{Book, Minute}
use nvda_tranched_arc.Model.Books.{book_has_positions}
use nvda_tranched_arc.Model.Fees.Bounds.{HasLiquidity, guard_liquidity_nonneg}
use nvda_tranched_arc.Model.Fees.{
  FeeParts, FeeSums, Sleeves, both, guard_only, base_only, neither, guard_liquidity, both_liquidity,
  fee_rate, sleeves_at, expansion, add_minute, add_tick, sum_minutes, book_fee_parts, no_sums,
  no_parts, parts_of,
}
use nvda_tranched_arc.Model.Fees.Shares.{IsPriced, exact_of-le, no_volume}

module _ {R : Type 0} ⦃n : Number R⦄ where
  abbrev pub ArePriced : List (Minute R) → Type 0
  ArePriced [] = Unit
  ArePriced (minute ∷ minutes) = IsPriced minute × ArePriced minutes

  -- Every part of one is at most that of the other.
  abbrev pub IsAtMost : FeeParts R → FeeParts R → Type 0
  IsAtMost p r = (p.total ≤ r.total) × (p.both ≤ r.both) × (p.base_only ≤ r.base_only)

module _ {R : Type 0} ⦃n : Number R⦄ (e : IsExact R) (rate : R) (hr : num 0 ≤ rate) where
  open e use {ordered, zero-add, le_antisymm}
  open e.ordered use {
    le_refl, le_trans, add_nonneg, mul_nonneg, div_nonneg, sub-le, div-le-div_right, mul_comm,
    add-le-add_right,
  }

  -- Each expansion of the first sums is at most the exact sum of the second.
  record IsUnder (book : Book R) (s t : FeeSums R) : Type 0 where
    both_under : expansion rate (both_liquidity book) s.v1_both s.v2_both ≤ t.exact_both
    guard_under :
        expansion rate (guard_liquidity book) s.v1_guard_only s.v2_guard_only ≤ t.exact_guard_only
    base_under : expansion rate book.base_l s.v1_base_only s.v2_base_only ≤ t.exact_base_only

  module _ (book : Book R) (hb : HasLiquidity book) where
    guard_nonneg : num 0 ≤ guard_liquidity book
    guard_nonneg = guard_liquidity_nonneg e book hb

    both_nonneg : num 0 ≤ both_liquidity book
    both_nonneg = add_nonneg book.base_l (guard_liquidity book) hb.base_nonneg guard_nonneg

    add_minute-IsUnder :
        (minute : Minute R) (sleeves : Sleeves) (s t : FeeSums R)
        → IsPriced minute
        → IsUnder book s t
        → IsUnder book
            (add_minute false rate book minute sleeves s)
            (add_minute true rate book minute sleeves t)
    unfolding add_minute
    add_minute-IsUnder minute both s t p h = record {
      both_under =
          exact_of-le e rate hr (both_liquidity book) minute s.v1_both s.v2_both t.exact_both
            both_nonneg p h.both_under;
      guard_under = h.guard_under;
      base_under = h.base_under;
    }
    add_minute-IsUnder minute guard_only s t p h = record {
      both_under = h.both_under;
      guard_under =
          exact_of-le e rate hr (guard_liquidity book) minute s.v1_guard_only s.v2_guard_only
            t.exact_guard_only guard_nonneg p h.guard_under;
      base_under = h.base_under;
    }
    add_minute-IsUnder minute base_only s t p h = record {
      both_under = h.both_under;
      guard_under = h.guard_under;
      base_under =
          exact_of-le e rate hr book.base_l minute s.v1_base_only s.v2_base_only t.exact_base_only
            hb.base_nonneg p h.base_under;
    }
    add_minute-IsUnder minute neither s t p h = h

    add_tick-IsUnder :
        (minute : Minute R) (tick : Option R) (s t : FeeSums R)
        → IsPriced minute
        → IsUnder book s t
        → IsUnder book
            (add_tick false rate book minute tick s)
            (add_tick true rate book minute tick t)
    unfolding add_tick
    add_tick-IsUnder minute none s t p h = h
    add_tick-IsUnder minute (some i) s t p h = add_minute-IsUnder minute (sleeves_at book i) s t p h

    sum_minutes-IsUnder :
        (minutes : List (Minute R)) (s t : FeeSums R)
        → ArePriced minutes
        → IsUnder book s t
        → IsUnder book
            (sum_minutes false rate book minutes s)
            (sum_minutes true rate book minutes t)
    unfolding sum_minutes
    sum_minutes-IsUnder [] s t p h = h
    sum_minutes-IsUnder (minute ∷ minutes) s t p h =
        sum_minutes-IsUnder minutes _ _ p.1 (add_tick-IsUnder minute minute.tick s t p.0 h)

    nothing-le : (l : R) → expansion rate l (num 0) (num 0) ≤ num 0
    unfolding expansion
    nothing-le l = subst⁻¹ (λ z. z ≤ num 0) (no_volume e rate hr l) (le_refl (num 0))

    no_sums-IsUnder : IsUnder book no_sums no_sums
    no_sums-IsUnder = record {
      both_under = nothing-le (both_liquidity book);
      guard_under = nothing-le (guard_liquidity book);
      base_under = nothing-le book.base_l;
    }

  max-le-max : (a b : R) → a ≤ b → max (num 0) a ≤ max (num 0) b
  max-le-max a b h =
      max-le ordered (num 0) a (max (num 0) b) (le-max_left ordered (num 0) b)
        (le_trans a b (max (num 0) b) h (le-max_right ordered (num 0) b))

  parts_of-IsAtMost :
      (b g o b' g' o' : R)
      → b ≤ b'
      → g ≤ g'
      → o ≤ o'
      → IsAtMost (parts_of b g o) (parts_of b' g' o')
  parts_of-IsAtMost b g o b' g' o' h k j = (
    max-le-max (b + g + o) (b' + g' + o') (add-le-add e _ _ o o' (add-le-add e b b' g g' h k) j),
    max-le-max b b' h,
    max-le-max o o' j,
  )

  no_parts-IsAtMost : IsAtMost {R = R} no_parts no_parts
  no_parts-IsAtMost = (le_refl (num 0), le_refl (num 0), le_refl (num 0))

-- The expansion of a book's fees in an hour is at most the exact share, in total, for what both
-- sleeves earn in range and for what the base earns alone. Each minute's sums are its volume over the
-- liquidity of a pool and over that liquidity's square; volumes, the fee and the liquidity of the
-- sleeves are not negative.
pub book_fee_parts-IsAtMost :
    {R : Type 0} ⦃n : Number R⦄ (e : IsExact R) (book : Book R) (minutes : List (Minute R))
    (fee_pips : R)
    → num 0 ≤ fee_pips
    → HasLiquidity book
    → ArePriced minutes
    → IsAtMost
        (book_fee_parts book minutes fee_pips false)
        (book_fee_parts book minutes fee_pips true)
unfolding book_fee_parts
book_fee_parts-IsAtMost e book minutes fee_pips hf hb p =
    let rate = fee_rate fee_pips in
    let hr =
      e.ordered.div_nonneg fee_pips (num 1_000_000) hf
        (e.ordered.num-lt 0 1_000_000 (omega arith)) in
    let none = no_parts-IsAtMost e rate hr in
    elim (Bool-cases (book_has_positions book)) [
      | inr out ↦ rw out none
      | inl inside ↦ elim (Bool-cases (is_empty minutes)) [
        | inl empty ↦ rw (inside, empty) none
        | inr full ↦
            let h =
              sum_minutes-IsUnder e rate hr book hb minutes no_sums no_sums p
                (no_sums-IsUnder e rate hr book hb) in
            rw (inside, full)
              (parts_of-IsAtMost e rate hr _ _ _ _ _ _ h.both_under h.guard_under h.base_under)
      ]
    ]
