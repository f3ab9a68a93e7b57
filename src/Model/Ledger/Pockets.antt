-- ===== src/Model/Ledger/Pockets.antt =====
-- A pocket that `_pay_gas` of research/cadcad/allocator/model.py pays from, and what remains to pay.
use nvda_tranched_arc.Prelude.{
  ◌&&◌, ◌≡◌, ◌∙◌, sym, subst⁻¹, inl, inr, Bool-cases, false≢true, and_left, and_right, either,
  either_by,
}
use nvda_tranched_arc.Number.{Number, ◌+◌, ◌-◌, ◌≤◌, ◌<◌, ◌<?◌, num, min, IsExact}
use nvda_tranched_arc.Number.Algebra.{ring, sub_self}
use nvda_tranched_arc.Number.Order.{
  min-le_left, le_of_lt, le_of_not-lt, le-min, lt_irrefl, lt_of_lt-le,
}
use nvda_tranched_arc.Model.Accounts.{pay_from, pay_from_fees}

module _ {R : Type 0} ⦃n : Number R⦄ (e : IsExact R) where
  open e use {ordered, le_antisymm}
  open e.ordered use {sub_nonneg, sub-le, le_refl, le_trans}

  taken : (p r t : R) → p - t ≡ p + (r - t - r)
  taken p r t = simp (ring, e)

  not_taken : (p r : R) → p ≡ p + (r - r)
  not_taken p r = simp (ring, e)

  -- What a pocket loses is what is paid.
  pub pay_from-sum : (p r : R) → (pay_from p r).0 ≡ p + ((pay_from p r).1 - r)
  pay_from-sum p r =
      either (λ (t : R × R). t.0 ≡ p + (t.1 - r)) ((num 0 <? r) && (num 0 <? p))
        (taken p r (min r p)) (not_taken p r)

  pub pay_from_fees-sum : (p r : R) → (pay_from_fees p r).0 ≡ p + ((pay_from_fees p r).1 - r)
  pay_from_fees-sum p r =
      either (λ (t : R × R). t.0 ≡ p + (t.1 - r)) (num 0 <? p) (taken p r (min r p)) (not_taken p r)

  pub pay_from_nonneg : (p r : R) → num 0 ≤ r → num 0 ≤ (pay_from p r).1
  pay_from_nonneg p r h =
      either (λ (t : R × R). num 0 ≤ t.1) ((num 0 <? r) && (num 0 <? p))
        (sub_nonneg r (min r p) (min-le_left ordered r p)) h

  pub pay_from_fees_nonneg : (p r : R) → num 0 ≤ r → num 0 ≤ (pay_from_fees p r).1
  pay_from_fees_nonneg p r h =
      either (λ (t : R × R). num 0 ≤ t.1) (num 0 <? p)
        (sub_nonneg r (min r p) (min-le_left ordered r p)) h

  pub pay_from-le : (p r : R) → num 0 ≤ r → (pay_from p r).1 ≤ r
  pay_from-le p r h =
      either_by (λ (t : R × R). t.1 ≤ r) ((num 0 <? r) && (num 0 <? p))
        (λ k.
          sub-le r (min r p) (
            le-min ordered r p (num 0) h (le_of_lt ordered (num 0) p (and_right (num 0 <? r) _ k))))
        (λ _. le_refl r)

  pub pay_from_fees-le : (p r : R) → num 0 ≤ r → (pay_from_fees p r).1 ≤ r
  pay_from_fees-le p r h =
      either_by (λ (t : R × R). t.1 ≤ r) (num 0 <? p)
        (λ k. sub-le r (min r p) (le-min ordered r p (num 0) h (le_of_lt ordered (num 0) p k)))
        (λ _. le_refl r)

  -- A pocket that does not pay all is taken whole.
  taken_whole : (p r : R) → num 0 < r - min r p → p - min r p ≤ num 0
  unfolding min
  taken_whole p r h = elim (Bool-cases (p <? r)) [
    | inl k ↦ rw k (subst⁻¹ (λ z. z ≤ num 0) (sub_self e p) (le_refl (num 0)))
    | inr k ↦ absurd (false≢true (sym (lt_irrefl ordered (num 0)) ∙ (rw (k, sub_self e r) at h)))
  ]

  pos_before : (p r : R) → num 0 ≤ r → num 0 ≤ p → num 0 < r - min r p → num 0 < r
  pos_before p r h k l =
      lt_of_lt-le ordered (num 0) (r - min r p) r l
        (sub-le r (min r p) (le-min ordered r p (num 0) h k))

  pub pocket-emptied :
      (p r : R) → num 0 ≤ r → num 0 < (pay_from p r).1 → ((pay_from p r).0 ≤ num 0) × (num 0 < r)
  pocket-emptied p r h =
      either_by (λ (t : R × R). num 0 < t.1 → (t.0 ≤ num 0) × (num 0 < r))
        ((num 0 <? r) && (num 0 <? p)) (λ k l. (taken_whole p r l, and_left (num 0 <? r) _ k))
        (λ k l. (le_of_not-lt ordered p (num 0) (rw l at k), l))

  pub fees-emptied :
      (p r : R)
      → num 0 ≤ r
      → num 0 < (pay_from_fees p r).1
      → ((pay_from_fees p r).0 ≤ num 0) × (num 0 < r)
  fees-emptied p r h =
      either_by (λ (t : R × R). num 0 < t.1 → (t.0 ≤ num 0) × (num 0 < r)) (num 0 <? p)
        (λ k l. (taken_whole p r l, pos_before p r h (le_of_lt ordered (num 0) p k) l))
        (λ k l. (le_of_not-lt ordered p (num 0) k, l))
