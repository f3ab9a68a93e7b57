-- ===== src/Model/Fees/Bounds.antt =====
-- The fees of an hour: how they are split.
use nvda_tranched_arc.Prelude.{
  ℕ, Bool, not, ◌≡◌, refl, Option, none, some, List, Bool-cases, inl, inr, arith, either, sym,
}
use nvda_tranched_arc.Sequence.{is_empty}
use nvda_tranched_arc.Number.{Number, ◌+◌, ◌*◌, ◌/◌, ◌≤◌, ◌≤?◌, num, min, IsExact}
use nvda_tranched_arc.Number.Order.{le-max_left, max-le, min-le_left, num_nonneg, lt_of_not-le}
use nvda_tranched_arc.Model.{Book, Minute}
use nvda_tranched_arc.Model.Books.{book_has_positions}
use nvda_tranched_arc.Model.Fees.{
  FeeParts, FeeSplit, guard_liquidity, both_liquidity, book_fee_parts, book_fee_for_hour,
  fraction_of, guard_both_fee, no_parts, parts_of,
}

-- The liquidity of both sleeves is not negative.
pub record HasLiquidity {R : Type 0} ⦃n : Number R⦄ (book : Book R) : Type 0 where
  pub base_nonneg : num 0 ≤ book.base_l
  pub guard_nonneg : num 0 ≤ book.guard_l

-- A split adds up, and no part of it is negative.
pub record IsSplit {R : Type 0} ⦃n : Number R⦄ (s : FeeSplit R) : Type 0 where
  pub guard_nonneg : num 0 ≤ s.guard
  pub base_nonneg : num 0 ≤ s.base
  pub adds_up : s.total ≡ s.guard + s.base

module _ {R : Type 0} ⦃n : Number R⦄ (e : IsExact R) where
  open e use {ordered, zero-add, le_antisymm}
  open e.ordered use {
    le_refl, le_trans, add_nonneg, mul_nonneg, div_nonneg, num-lt, mul-le-mul_right,
    add-le-add_right, div-le-div_right, sub_nonneg, sub-le,
  }

  pub guard_liquidity_nonneg : (book : Book R) → HasLiquidity book → num 0 ≤ guard_liquidity book
  guard_liquidity_nonneg book h = ground (arith, h.guard_nonneg, le_refl (num {R = R} 0))

  fraction_nonneg : (bin : ℕ) → num {R = R} 0 ≤ fraction_of bin
  fraction_nonneg bin = le-max_left ordered (num 0) (min (num 1) (num bin / num 12))

  fraction-le_one : (bin : ℕ) → fraction_of bin ≤ num {R = R} 1
  fraction-le_one bin =
      max-le ordered (num 0) (min (num 1) (num bin / num 12)) (num 1) (num_nonneg ordered 1)
        (min-le_left ordered (num 1) (num bin / num 12))

  guard_both_nonneg : (g : R) (bin : Option ℕ) → num 0 ≤ g → num 0 ≤ guard_both_fee g bin
  guard_both_nonneg g none h = h
  guard_both_nonneg g (some bin) h = mul_nonneg g (fraction_of bin) h (fraction_nonneg bin)

  abbrev pub NonnegParts : FeeParts R → Type 0
  NonnegParts p = (num 0 ≤ p.total) × (num 0 ≤ p.both) × (num 0 ≤ p.base_only)

  no_parts_nonneg : NonnegParts no_parts
  no_parts_nonneg = (le_refl (num 0), le_refl (num 0), le_refl (num 0))

  parts_of_nonneg : (b g o : R) → NonnegParts (parts_of b g o)
  parts_of_nonneg b g o =
      (le-max_left ordered (num 0) _, le-max_left ordered (num 0) b, le-max_left ordered (num 0) o)

  pub parts_nonneg :
      (book : Book R) (minutes : List (Minute R)) (fee_pips : R) (exact : Bool)
      → NonnegParts (book_fee_parts book minutes fee_pips exact)
  unfolding book_fee_parts
  parts_nonneg book minutes fee_pips exact =
      either NonnegParts (not (book_has_positions book)) no_parts_nonneg (
        either NonnegParts (is_empty minutes) no_parts_nonneg
          (either NonnegParts exact (parts_of_nonneg _ _ _) (parts_of_nonneg _ _ _)))

  -- An hour's fees are the guard's and the base's together, neither of them negative, whether or not
  -- the guard is pulled, where the liquidity of the sleeves is not negative.
  pub book_fee_for_hour-IsSplit :
      (book : Book R) (minutes : List (Minute R)) (fee_pips : R) (bin : Option ℕ) (exact : Bool)
      → HasLiquidity book
      → IsSplit (book_fee_for_hour book minutes fee_pips bin exact)
  unfolding book_fee_for_hour
  book_fee_for_hour-IsSplit book minutes fee_pips bin exact h =
      let p = book_fee_parts book minutes fee_pips exact in
      let (total, both_fee, base_fee) = parts_nonneg book minutes fee_pips exact in
      let l = both_liquidity book in
      elim (Bool-cases (book_has_positions book)) [
        | inr out ↦ rw out (record {
          guard_nonneg = le_refl (num 0);
          base_nonneg = le_refl (num 0);
          adds_up = sym (zero-add (num 0));
        })
        | inl inside ↦ elim (Bool-cases (l ≤? num 0)) [
          | inl empty ↦
              rw (inside, empty)
                (record {
                  guard_nonneg = le_refl (num 0);
                  base_nonneg = total;
                  adds_up = sym (zero-add p.total);
                })
          | inr full ↦
              let pos = lt_of_not-le ordered (num 0) l full in
              let g = p.both * guard_liquidity book / l in
              rw (inside, full)
                (record {
                  guard_nonneg =
                      add_nonneg _ (guard_both_fee g bin) (le-max_left ordered (num 0) _) (
                        guard_both_nonneg g bin (
                          div_nonneg _ l
                            (mul_nonneg p.both _ both_fee (guard_liquidity_nonneg book h)) pos));
                  base_nonneg =
                      add_nonneg p.base_only _ base_fee
                        (div_nonneg _ l (mul_nonneg p.both book.base_l both_fee h.base_nonneg) pos);
                  adds_up = refl;
                })
        ]
      ]
