-- ===== src/Model/Fees/Pulled.antt =====
-- What a pull of the guard takes from the fees of an hour.
use nvda_tranched_arc.Prelude.{
  ℕ, Bool, ◌≡◌, refl, none, some, List, Bool-cases, inl, inr, arith, false, ap, ◌∙◌, subst⁻¹,
}
use nvda_tranched_arc.Number.{Number, ◌+◌, ◌-◌, ◌*◌, ◌/◌, ◌≤◌, ◌≤?◌, num, min, max, IsExact}
use nvda_tranched_arc.Number.Algebra.{ring, max_keeps, zero-mul, le-add_right}
use nvda_tranched_arc.Number.Order.{min-le_left, le-min, num_nonneg, lt_of_not-le}
use nvda_tranched_arc.Model.{Book, Minute}
use nvda_tranched_arc.Model.Books.{book_has_positions}
use nvda_tranched_arc.Model.Fees.{
  guard_liquidity, both_liquidity, book_fee_parts, book_fee_for_hour, guard_both_fee, no_parts,
}
use nvda_tranched_arc.Model.Fees.Bounds.{HasLiquidity, guard_liquidity_nonneg, parts_nonneg}

module _ {R : Type 0} ⦃n : Number R⦄ where
  -- The part of a share that is earned from the bin of a pull on: `1 - bin / 12` of it, and nothing
  -- of it where the bin is past the hour.
  abbrev pub rest_of_hour : ℕ → R
  rest_of_hour bin = num 1 - min (num 1) (num bin / num 12)

module _ {R : Type 0} ⦃n : Number R⦄ (e : IsExact R) where
  open e use {ordered, zero-add, le_antisymm}
  open e.ordered use {
    le_refl, le_trans, add_nonneg, mul_nonneg, div_nonneg, num-lt, mul-le-mul_right,
    add-le-add_right, div-le-div_right, sub_nonneg, sub-le,
  }

  without_rest : (g f : R) → g * f ≡ g - g * (num 1 - f)
  without_rest g f = simp (ring, e)

  after_sum : (a g x : R) → a + (g - x) ≡ a + g - x
  after_sum a g x = simp (ring, e)

  before_sum : (a x b : R) → a - x + b ≡ a + b - x
  before_sum a x b = simp (ring, e)

  zero_less : (x : R) → x ≡ num 0 → num 0 ≡ num 0 - x
  zero_less x h = rw h (simp (ring, e))

  less_zero : (t x : R) → x ≡ num 0 → t ≡ t - x
  less_zero t x h = rw h (simp (ring, e))

  no_part : (g l r : R) → num 0 * g / l * r ≡ num 0
  no_part g l r = rw (zero-mul e g, e.div-eq-mul (num 0) l, zero-mul e (num 1 / l)) (zero-mul e r)

  guard_both-lost : (g : R) (bin : ℕ) → guard_both_fee g (some bin) ≡ g - g * rest_of_hour bin
  guard_both-lost g bin =
      let f : R = min (num 1) (num bin / num 12) in
      let f_nonneg =
        le-min ordered (num 1) (num bin / num 12) (num 0) (num_nonneg ordered 1)
          (div_nonneg (num bin) (num 12) (num_nonneg ordered bin) (num-lt 0 12 (omega arith))) in
      ap (λ z. g * z) (max_keeps e f f_nonneg) ∙ without_rest g f

  rest_nonneg : (bin : ℕ) → num {R = R} 0 ≤ rest_of_hour bin
  rest_nonneg bin =
      sub_nonneg (num 1) (min (num 1) (num bin / num 12))
        (min-le_left ordered (num 1) (num bin / num 12))

  -- Without liquidity the guard has no part of what both sleeves earn.
  guard_without_liquidity :
      (book : Book R)
      → HasLiquidity book
      → both_liquidity book ≤ num 0
      → guard_liquidity book ≡ num 0
  guard_without_liquidity book h empty =
      let g_nonneg = guard_liquidity_nonneg e book h in
      let g = guard_liquidity book in
      le_antisymm g (num 0)
        (le_trans g (g + book.base_l) (num 0) (le-add_right e g book.base_l h.base_nonneg)
          (rw (e.ordered.add_comm g book.base_l) empty))
        g_nonneg

  parts_outside :
      (book : Book R) (minutes : List (Minute R)) (fee_pips : R) (exact : Bool)
      → book_has_positions book ≡ false
      → book_fee_parts book minutes fee_pips exact ≡ no_parts
  unfolding book_fee_parts
  parts_outside book minutes fee_pips exact out = rw out refl

  -- Where nothing is lost, a difference of nothing.
  nothing_lost : (a t x : R) → x ≡ num 0 → (num 0 ≤ x) × (num 0 ≡ num 0 - x) × (a ≡ a) × (t ≡ t - x)
  nothing_lost a t x h =
      (subst⁻¹ (λ z. num 0 ≤ z) h (le_refl (num 0)), zero_less x h, refl, less_zero t x h)

  pub book_fee_for_hour-pulled :
      (book : Book R) (minutes : List (Minute R)) (fee_pips : R) (bin : ℕ) (exact : Bool)
      → HasLiquidity book
      → let kept = book_fee_for_hour book minutes fee_pips none exact in
        let pulled = book_fee_for_hour book minutes fee_pips (some bin) exact in
        let both_fee = (book_fee_parts book minutes fee_pips exact).both in
        let share = both_fee * guard_liquidity book / both_liquidity book in
        let lost = share * rest_of_hour bin in
        (num 0 ≤ lost)
        × (pulled.guard ≡ kept.guard - lost)
        × (pulled.base ≡ kept.base)
        × (pulled.total ≡ kept.total - lost)
  unfolding book_fee_for_hour
  book_fee_for_hour-pulled book minutes fee_pips bin exact h =
      let p = book_fee_parts book minutes fee_pips exact in
      let l = both_liquidity book in
      let liquidity = guard_liquidity book in
      let share : R = p.both * liquidity / l in
      let rest : R = rest_of_hour bin in
      let lost = share * rest in
      let guard_only = max (num 0) (p.total - p.both - p.base_only) in
      elim (Bool-cases (book_has_positions book)) [
        | inr out ↦ rw out (
            nothing_lost (num 0) (num 0) lost (
              ap (λ z. z.both * liquidity / l * rest)
                (parts_outside book minutes fee_pips exact out)
              ∙ no_part liquidity l rest))
        | inl inside ↦ elim (Bool-cases (l ≤? num 0)) [
          | inl empty ↦
              rw (inside, empty)
                (nothing_lost p.total p.total lost (
                  ap (λ z. p.both * z / l * rest) (guard_without_liquidity book h empty)
                  ∙ ap (λ z. z / l * rest) (e.ordered.mul_comm p.both (num 0))
                  ∙ no_part p.both l rest))
          | inr full ↦
              let share_nonneg =
                div_nonneg (p.both * liquidity) l
                  (mul_nonneg p.both _ (parts_nonneg e book minutes fee_pips exact).1
                    (guard_liquidity_nonneg e book h))
                  (lt_of_not-le ordered (num 0) l full) in
              let guard_falls =
                ap (λ z. guard_only + z) (guard_both-lost share bin)
                ∙ after_sum guard_only share lost in
              rw (inside, full)
                (
                  mul_nonneg share rest share_nonneg (rest_nonneg bin),
                  guard_falls,
                  refl,
                  ap (λ z. z + (p.base_only + p.both * book.base_l / l)) guard_falls
                      ∙ before_sum (guard_only + share) lost _,
                )
        ]
      ]

  -- So a pull does not raise the total.
  pub pulled-le :
      (book : Book R) (minutes : List (Minute R)) (fee_pips : R) (bin : ℕ) (exact : Bool)
      → HasLiquidity book
      → (book_fee_for_hour book minutes fee_pips (some bin) exact).total
        ≤ (book_fee_for_hour book minutes fee_pips none exact).total
  pulled-le book minutes fee_pips bin exact h =
      let kept = book_fee_for_hour book minutes fee_pips none exact in
      let (lost_nonneg, _, _, total) = book_fee_for_hour-pulled book minutes fee_pips bin exact h in
      subst⁻¹ (λ z. z ≤ kept.total) total (sub-le kept.total _ lost_nonneg)
