-- ===== src/Allocator/Return/Done.antt =====
-- Where `plan_book_return` of research/cadcad/allocator/allocator.py leads when its steps are followed.
use Prim.Native.Nat.{◌+◌ as nat_add, ◌≤◌ as nat_le}
use nvda_tranched_arc.Prelude.{
  ℕ, zero, suc, subst⁻¹, ◌≡◌, refl, sym, ap, ◌∙◌, List, [], ◌∷◌, arith, Bool-cases, ◌⊎◌, inl, inr,
  false≢true,
}
use nvda_tranched_arc.Number.{Number, ◌+◌, ◌-◌, ◌*◌, ◌≤◌, ◌<◌, ◌<?◌, num, min, ◌/◌, IsExact}
use nvda_tranched_arc.Number.Order.{lt_of_lt-le, lt_irrefl, le_of_not-lt, num_nonneg, le_of_lt}
use nvda_tranched_arc.Number.Algebra.{sub_self, zero-mul, one-mul, add-mul, sub-le_of_le-add}
use nvda_tranched_arc.Allocator.Entry.{clamp_pos}
use nvda_tranched_arc.Allocator.Borrow.{bps}
use nvda_tranched_arc.Allocator.Return.{
  ReturnStep, ReturnPlan, plan_book_return, plan_book_return-IsOrderly, take_slice, repay_slice,
  collateral_slice,
}

-- What is still lent, posted and owed.
pub record Outstanding (R : Type 0) : Type 0 where
  pub usdg : R
  pub collateral : R
  pub debt : R

-- The step size and the dust limits of the keeper.
pub record Pace (R : Type 0) : Type 0 where
  pub step_bps : R
  pub dust_usdg : R
  pub dust_nvda : R

module _ {R : Type 0} ⦃n : Number R⦄ where
  abbrev pub steps_for : Pace R → Outstanding R → List (ReturnStep R)
  steps_for pace o =
      (plan_book_return o.usdg o.collateral o.debt pace.step_bps pace.dust_usdg
        pace.dust_nvda).steps

  abbrev follow : List (ReturnStep R) → Outstanding R → Outstanding R
  follow [] o = o
  follow (ReturnStep.repay_nvda x ∷ _) o = record o { debt = o.debt - x }
  follow (ReturnStep.withdraw_nvda x ∷ _) o = record o { collateral = o.collateral - x }
  follow (ReturnStep.deallocate_usdg x ∷ _) o = record o { usdg = o.usdg - x }

  abbrev pub rounds : Pace R → ℕ → Outstanding R → Outstanding R
  rounds pace zero o = o
  rounds pace (suc k) o = rounds pace k (follow (steps_for pace o) o)

module _ {R : Type 0} ⦃n : Number R⦄ (e : IsExact R) where
  open e use {ordered, num-add}
  open e.ordered use {le_refl, le_trans, mul_nonneg, lt-eq-not-le, add-le-add_right}

  -- A slice is all of the holding, or at least the dust.
  IsSlice : (held dust taken : R) → Type 0
  IsSlice held dust taken = (taken ≡ held) ⊎ (dust ≤ taken)

  repay_slice-IsSlice :
      (debt step dust : R) → num 0 < debt → IsSlice debt dust (repay_slice debt step dust)
  unfolding repay_slice IsSlice
  repay_slice-IsSlice debt step dust h = elim (Bool-cases (debt * step <? dust)) [
    | inl k ↦ rw (h, k) (inl refl)
    | inr k ↦ rw (h, k) (inr (le_of_not-lt ordered dust (debt * step) k))
  ]

  take_slice-IsSlice :
      (held step dust : R) → num 0 < held → IsSlice held dust (take_slice held step dust)
  unfolding take_slice IsSlice
  take_slice-IsSlice held step dust h =
      ground (arith, lt-eq-not-le (num 0) held, le_of_not-lt ordered dust (held * step))

  collateral_slice-IsSlice :
      (c step dust : R) → num 0 < c → IsSlice c dust (collateral_slice c step dust)
  unfolding collateral_slice IsSlice
  collateral_slice-IsSlice c step dust h =
      ground (arith, lt-eq-not-le (num 0) c, le_of_not-lt ordered dust (c * step))

  num_suc-mul : (k : ℕ) (x : R) → num (suc k) * x ≡ x + num k * x
  num_suc-mul k x =
      ap (λ z. z * x) (ap num (omega arith) ∙ num-add 1 k)
      ∙ add-mul e (num 1) (num k) x
      ∙ ap (λ z. z + num k * x) (one-mul e x)

  -- One slice less is one dust less.
  less_dust :
      (k : ℕ) (held dust taken : R)
      → num 0 ≤ dust
      → IsSlice held dust taken
      → held ≤ num (suc k) * dust
      → held - taken ≤ num k * dust
  unfolding IsSlice
  less_dust k held dust taken hd (inl s) h =
      subst⁻¹ (λ x. held - x ≤ num k * dust) s
        (subst⁻¹ (λ x. x ≤ num k * dust) (sub_self e held)
          (mul_nonneg (num k) dust (num_nonneg ordered k) hd))
  less_dust k held dust taken hd (inr s) h = sub-le_of_le-add e held taken (num k * dust) (
      le_trans held (num (suc k) * dust) (taken + num k * dust) h (
        subst⁻¹ (λ x. x ≤ taken + num k * dust) (num_suc-mul k dust)
          (add-le-add_right dust taken (num k * dust) s)))

  -- A slice takes one from the number of dusts that a holding is within.
  spend :
      (k : ℕ) (held dust taken : R)
      → num 0 ≤ dust
      → num 0 < held
      → IsSlice held dust taken
      → held ≤ num k * dust
      → (j : ℕ) × (suc j ≡ k) × (held - taken ≤ num j * dust)
  spend zero held dust taken hd hh s h = absurd (
      false≢true (
        sym (lt_irrefl ordered (num 0))
        ∙ lt_of_lt-le ordered (num 0) held (num 0) hh (rw (zero-mul e dust) at h)))
  spend (suc k) held dust taken hd hh s h = (k, refl, less_dust k held dust taken hd s h)

  module _ (pace : Pace R) (hu : num 0 < pace.dust_usdg) (hn : num 0 < pace.dust_nvda) where
    plan : Outstanding R → ReturnPlan R
    plan o = plan_book_return o.usdg o.collateral o.debt pace.step_bps pace.dust_usdg pace.dust_nvda

    repay-IsSlice :
        (o : Outstanding R) → num 0 < o.debt → IsSlice o.debt pace.dust_usdg ((plan o).repay)
    unfolding plan plan_book_return
    repay-IsSlice o h =
        let step = min bps pace.step_bps / bps in
        rw (clamp_pos ordered o.debt h) (repay_slice-IsSlice o.debt step pace.dust_usdg h)

    collateral_out-IsSlice :
        (o : Outstanding R)
        → num 0 < o.collateral
        → IsSlice o.collateral pace.dust_nvda ((plan o).collateral_out)
    unfolding plan plan_book_return
    collateral_out-IsSlice o h =
        let step = min bps pace.step_bps / bps in
        rw (clamp_pos ordered o.collateral h)
          (collateral_slice-IsSlice o.collateral step pace.dust_nvda h)

    usdg_out-IsSlice :
        (o : Outstanding R) → num 0 < o.usdg → IsSlice o.usdg pace.dust_usdg ((plan o).usdg_out)
    unfolding plan plan_book_return
    usdg_out-IsSlice o h =
        let step = min bps pace.step_bps / bps in
        rw (clamp_pos ordered o.usdg h) (take_slice-IsSlice o.usdg step pace.dust_usdg h)

    spend_debt :
        (o : Outstanding R) (k : ℕ)
        → num 0 < o.debt
        → o.debt ≤ num k * pace.dust_usdg
        → (j : ℕ) × (suc j ≡ k) × (o.debt - (plan o).repay ≤ num j * pace.dust_usdg)
    spend_debt o k h =
        spend k o.debt pace.dust_usdg ((plan o).repay) (le_of_lt ordered (num 0) pace.dust_usdg hu)
          h (repay-IsSlice o h)

    spend_collateral :
        (o : Outstanding R) (k : ℕ)
        → num 0 < o.collateral
        → o.collateral ≤ num k * pace.dust_nvda
        → (j : ℕ) × (suc j ≡ k) × (o.collateral - (plan o).collateral_out ≤ num j * pace.dust_nvda)
    spend_collateral o k h =
        spend k o.collateral pace.dust_nvda ((plan o).collateral_out)
          (le_of_lt ordered (num 0) pace.dust_nvda hn) h (collateral_out-IsSlice o h)

    spend_usdg :
        (o : Outstanding R) (k : ℕ)
        → num 0 < o.usdg
        → o.usdg ≤ num k * pace.dust_usdg
        → (j : ℕ) × (suc j ≡ k) × (o.usdg - (plan o).usdg_out ≤ num j * pace.dust_usdg)
    spend_usdg o k h =
        spend k o.usdg pace.dust_usdg ((plan o).usdg_out)
          (le_of_lt ordered (num 0) pace.dust_usdg hu) h (usdg_out-IsSlice o h)

    -- What is lent, posted and owed, counted in dust limits.
    abbrev pub IsWithin : (lent posted owed : ℕ) → Outstanding R → Type 0
    IsWithin lent posted owed o =
        (o.usdg ≤ num lent * pace.dust_usdg)
        × (o.collateral ≤ num posted * pace.dust_nvda)
        × (o.debt ≤ num owed * pace.dust_usdg)

    -- Nothing is owed, posted or lent, and the plan has no step.
    abbrev pub IsReturned : Outstanding R → Type 0
    IsReturned o =
        (o.debt ≤ num 0) × (o.collateral ≤ num 0) × (o.usdg ≤ num 0) × (steps_for pace o ≡ [])

    -- Nothing is left of what is within no dust limit.
    none_left : (held dust : R) → held ≤ num 0 → held ≤ num 0 * dust
    none_left held dust h = rw (zero-mul e dust) h

    -- For dust limits above zero: once the plan has been followed for as many rounds as there are dust
    -- limits in what is lent, posted and owed, nothing is left of these and the plan has no step.
    pub plan_book_return-IsDone :
        (k lent posted owed : ℕ) (o : Outstanding R)
        → nat_le (nat_add lent (nat_add posted owed)) k
        → IsWithin lent posted owed o
        → IsReturned (rounds pace k o)
    unfolding plan
    plan_book_return-IsDone zero lent posted owed o hk (wu, wc, wd) =
        elim (plan_book_return-IsOrderly e o.usdg o.collateral o.debt pace.step_bps pace.dust_usdg
          pace.dust_nvda hu hn) [
            | inl (hd, _, _, _) ↦ let s = spend_debt o owed hd wd in absurd (omega (arith, s.1, hk))
            | inr (inl (_, hc, _, _, _)) ↦
                let s = spend_collateral o posted hc wc in absurd (omega (arith, s.1, hk))
            | inr (inr (inl (_, _, h, _, _, _))) ↦
                let s = spend_usdg o lent h wu in absurd (omega (arith, s.1, hk))
            | inr (inr (inr done)) ↦ done
          ]
    plan_book_return-IsDone (suc k) lent posted owed o hk (wu, wc, wd) =
        let Ends = λ (l : List (ReturnStep R)). IsReturned (rounds pace k (follow l o)) in
        elim (plan_book_return-IsOrderly e o.usdg o.collateral o.debt pace.step_bps pace.dust_usdg
          pace.dust_nvda hu hn) [
            | inl (hd, l, _, _) ↦
                let s = spend_debt o owed hd wd in
                subst⁻¹ Ends l (
                  plan_book_return-IsDone k lent posted s.0 _ (omega (arith, s.1, hk))
                    (wu, wc, s.2))
            | inr (inl (_, hc, l, _, _)) ↦
                let s = spend_collateral o posted hc wc in
                subst⁻¹ Ends l
                  (plan_book_return-IsDone k lent s.0 owed _ (omega (arith, s.1, hk)) (wu, s.2, wd))
            | inr (inr (inl (_, _, h, l, _, _))) ↦
                let s = spend_usdg o lent h wu in
                subst⁻¹ Ends l (
                  plan_book_return-IsDone k s.0 posted owed _ (omega (arith, s.1, hk))
                    (s.2, wc, wd))
            | inr (inr (inr (hd, hc, h, l))) ↦ subst⁻¹ Ends l (
                plan_book_return-IsDone k 0 0 0 o (omega arith)
                  (none_left _ _ h, none_left _ _ hc, none_left _ _ hd))
          ]
