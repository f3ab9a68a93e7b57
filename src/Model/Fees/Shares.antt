-- ===== src/Model/Fees/Shares.antt =====
-- The expansion of one minute's share against the exact share.
use nvda_tranched_arc.Prelude.{true, ◌≡◌, Bool-cases, inl, inr, ◌∙◌, sym, ap, subst⁻¹}
use nvda_tranched_arc.Number.{Number, ◌+◌, ◌-◌, ◌*◌, ◌/◌, ◌<◌, ◌≤◌, ◌<?◌, num, IsExact}
use nvda_tranched_arc.Number.Algebra.{
  ring, mul-div_cancel, div-mul_cancel, add-le-add, div_pos, zero-mul, add-zero, le-add_right,
}
use nvda_tranched_arc.Number.Order.{le_of_lt, le_of_not-lt, lt_of_lt-le}
use nvda_tranched_arc.Model.{Minute}
use nvda_tranched_arc.Model.Fees.{exact_share, expansion, exact_of}

-- A minute whose sums are of one volume in a pool of some liquidity.
pub record IsPriced {R : Type 0} ⦃n : Number R⦄ (minute : Minute R) : Type 0 where
  pub pool_l : R
  pub pool_pos : num 0 < pool_l
  pub volume_nonneg : num 0 ≤ minute.volume
  pub over_l : minute.vol_over_l ≡ minute.volume / pool_l
  pub over_l2 : minute.vol_over_l2 ≡ minute.volume / pool_l / pool_l

module _ {R : Type 0} ⦃n : Number R⦄ (e : IsExact R) (rate : R) (hr : num 0 ≤ rate) where
  open e use {ordered, zero-add, le_antisymm}
  open e.ordered use {
    le_refl, le_trans, add_nonneg, mul_nonneg, div_nonneg, sub-le, div-le-div_right, mul_comm,
    add-le-add_right,
  }

  expansion-add :
      (l a b v w : R)
      → rate * (l * (a + v) - l * l * (b + w))
        ≡ rate * (l * a - l * l * b) + rate * (l * v - l * l * w)
  expansion-add l a b v w = simp (ring, e)

  cross :
      (l pool w : R)
      → rate * (l * (w * pool) - l * l * w) * (pool + l)
        ≡ rate * (w * pool * pool) * l - rate * l * w * (l * l)
  cross l pool w = simp (ring, e)

  le_of_mul-le : (x y t : R) → num 0 < t → x * t ≤ y → x ≤ y / t
  le_of_mul-le x y t ht h = rw (mul-div_cancel e x t ht) at (div-le-div_right (x * t) y t ht h)

  -- A volume over its part per liquidity is the liquidity.
  pool_of : (vol pool : R) → num 0 < vol → num 0 < pool → vol / (vol / pool) ≡ pool
  pool_of vol pool hv hp =
      let v1 : R = vol / pool in
      ap (λ z. z / v1) (sym (div-mul_cancel e vol pool hp) ∙ mul_comm v1 pool)
      ∙ mul-div_cancel e pool v1 (div_pos e vol pool hv hp)

  -- The expansion of a minute's share is at most the exact share.
  minute-le :
      (l vol pool : R)
      → num 0 < l
      → num 0 < vol
      → num 0 < pool
      → rate * (l * (vol / pool) - l * l * (vol / pool / pool))
        ≤ rate * vol * l / (vol / (vol / pool) + l)
  minute-le l vol pool hl hv hp =
      let v1 : R = vol / pool in
      let w : R = v1 / pool in
      let v1_of : v1 ≡ w * pool = sym (div-mul_cancel e v1 pool hp) in
      let vol_of : vol ≡ w * pool * pool =
        sym (div-mul_cancel e vol pool hp) ∙ ap (λ z. z * pool) v1_of in
      let nonneg = λ (x : R) (h : num 0 < x). le_of_lt ordered (num 0) x h in
      let l_nonneg = nonneg l hl in
      let w_nonneg = div_nonneg v1 pool (div_nonneg vol pool (nonneg vol hv) hp) hp in
      let total_pos =
        lt_of_lt-le ordered (num 0) pool (pool + l) hp (le-add_right e pool l l_nonneg) in
      subst⁻¹ (λ z. rate * (l * v1 - l * l * w) ≤ rate * vol * l / (z + l)) (pool_of vol pool hv hp)
        (le_of_mul-le (rate * (l * v1 - l * l * w)) (rate * vol * l) (pool + l) total_pos (
          subst⁻¹ (λ z. z ≤ rate * vol * l)
            (ap (λ z. rate * (l * z - l * l * w) * (pool + l)) v1_of ∙ cross l pool w)
            (subst⁻¹ (λ z. rate * (w * pool * pool) * l - rate * l * w * (l * l) ≤ rate * z * l)
              vol_of
              (sub-le (rate * (w * pool * pool) * l) (rate * l * w * (l * l)) (
                mul_nonneg (rate * l * w) (l * l)
                  (mul_nonneg (rate * l) w (mul_nonneg rate l hr l_nonneg) w_nonneg)
                  (mul_nonneg l l l_nonneg l_nonneg))))))

  zero-div : (a : R) → num 0 / a ≡ num 0
  zero-div a = e.div-eq-mul (num 0) a ∙ zero-mul e (num 1 / a)

  pub no_volume : (l : R) → rate * (l * num 0 - l * l * num 0) ≡ num 0
  no_volume l = simp (ring, e)

  no_liquidity : (v w : R) → rate * (num 0 * v - num 0 * num 0 * w) ≡ num 0
  no_liquidity v w = simp (ring, e)

  -- Where the minute adds nothing to the expansion.
  add_nothing :
      (l a b v w sum : R)
      → rate * (l * v - l * l * w) ≡ num 0
      → rate * (l * a - l * l * b) ≤ sum
      → rate * (l * (a + v) - l * l * (b + w)) ≤ sum
  add_nothing l a b v w sum h k =
      let x : R = rate * (l * a - l * l * b) in
      subst⁻¹ (λ z. z ≤ sum) (expansion-add l a b v w ∙ ap (λ z. x + z) h ∙ add-zero e x) k

  -- A minute keeps an expansion below the exact sum.
  pub exact_of-le :
      (l : R) (minute : Minute R) (a b sum : R)
      → num 0 ≤ l
      → IsPriced minute
      → expansion rate l a b ≤ sum
      → expansion rate l (a + minute.vol_over_l) (b + minute.vol_over_l2)
        ≤ exact_of true rate l minute sum
  unfolding expansion exact_share
  exact_of-le l minute a b sum hl h k =
      let vol = minute.volume in
      let pool = h.pool_l in
      elim (Bool-cases (num 0 <? vol)) [
        | inl some_vol ↦ elim (Bool-cases (num 0 <? l)) [
          | inl some_l ↦
              let v1_pos = div_pos e vol pool some_vol h.pool_pos in
              let x : R = rate * (l * a - l * l * b) in
              rw (h.over_l, h.over_l2, some_vol, v1_pos, some_l)
                (subst⁻¹ (λ z. z ≤ sum + rate * vol * l / (vol / (vol / pool) + l))
                  (expansion-add l a b (vol / pool) (vol / pool / pool))
                  (add-le-add e x sum _ _ k (minute-le l vol pool some_l some_vol h.pool_pos)))
          | inr no_l ↦
              let v1_pos = div_pos e vol pool some_vol h.pool_pos in
              let zero = le_antisymm l (num 0) (le_of_not-lt ordered l (num 0) no_l) hl in
              rw (h.over_l, h.over_l2, some_vol, v1_pos, no_l)
                (add_nothing l a b (vol / pool) (vol / pool / pool) sum
                  (ap (λ z. rate * (z * (vol / pool) - z * z * (vol / pool / pool))) zero
                    ∙ no_liquidity (vol / pool) (vol / pool / pool))
                  k)
        ]
        | inr no_vol ↦
            let zero =
              le_antisymm vol (num 0) (le_of_not-lt ordered vol (num 0) no_vol) h.volume_nonneg in
            let v1_zero : vol / pool ≡ num 0 = ap (λ z. z / pool) zero ∙ zero-div pool in
            let w_zero : vol / pool / pool ≡ num 0 = ap (λ z. z / pool) v1_zero ∙ zero-div pool in
            rw (h.over_l, h.over_l2, no_vol)
              (add_nothing l a b (vol / pool) (vol / pool / pool) sum
                (ap (λ z. rate * (l * z - l * l * (vol / pool / pool))) v1_zero
                  ∙ ap (λ z. rate * (l * num 0 - l * l * z)) w_zero
                  ∙ no_volume l)
                k)
      ]
