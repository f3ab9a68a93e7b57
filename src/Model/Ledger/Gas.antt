-- ===== src/Model/Ledger/Gas.antt =====
-- `_pay_gas` of research/cadcad/allocator/model.py books what it pays.
use nvda_tranched_arc.Prelude.{
  Bool, true, false, not, ◌≡◌, refl, ◌∙◌, sym, ap, subst⁻¹, ◌⊎◌, inl, inr, Bool-cases,
  if◌then◌else◌, either_by,
}
use nvda_tranched_arc.Number.{Number, ◌+◌, ◌-◌, ◌*◌, neg, ◌≤◌, ◌<?◌, ◌≤?◌, num, max, IsExact}
use nvda_tranched_arc.Number.Algebra.{
  ring, max_keeps, sub-add_cancel, sub_self, sub-eq-add, add-sub_left,
}
use nvda_tranched_arc.Number.Order.{lt_of_not-le, le_of_lt, le_of_not-lt, le-max_left}
use nvda_tranched_arc.Allocator.Entry.{clamp_neg}
use nvda_tranched_arc.Lp.{Math}
use nvda_tranched_arc.Model.{Portfolio, Book}
use nvda_tranched_arc.Model.Books.{book_value, base_value, guard_value}
use nvda_tranched_arc.Model.Accounts.{portfolio_nav, pay_gas, pay_from, pay_from_fees}
use nvda_tranched_arc.Model.Ledger.{IsBalanced, net_carry, net_income}
use nvda_tranched_arc.Model.Ledger.Pockets.{
  pay_from-sum, pay_from_fees-sum, pay_from_nonneg, pay_from_fees_nonneg, pay_from-le,
  pay_from_fees-le, pocket-emptied, fees-emptied,
}

-- What is left in the pockets that gas is paid from is at most nothing.
abbrev pub IsEmptied : {R : Type 0} ⦃n : Number R⦄ → Portfolio R → Type 0
IsEmptied pf =
    (pf.idle_usdg ≤ num 0)
    × (pf.arm.usdg_lent ≤ num 0)
    × (pf.first_book.fees ≤ num 0)
    × (pf.second_book.fees ≤ num 0)

-- What a payment of gas does: the value falls by what is added to the total of gas, which is at least
-- nothing and at most the gas, and no other total changes; it is the gas, or every pocket is empty.
pub record IsPaid {R : Type 0} ⦃n : Number R⦄ ⦃m : Math R⦄ (q price gas : R)
    (pf after : Portfolio R) : Type 0 where
  pub of_nav : portfolio_nav after q price ≡ portfolio_nav pf q price - (after.cum.gas - pf.cum.gas)
  pub of_cum : after.cum ≡ record (pf.cum) { gas = after.cum.gas }
  pub booked_nonneg : num 0 ≤ after.cum.gas - pf.cum.gas
  pub booked_le : after.cum.gas - pf.cum.gas ≤ max (num 0) gas
  pub is_complete : (after.cum.gas - pf.cum.gas ≡ max (num 0) gas) ⊎ IsEmptied after

module _ {R : Type 0} ⦃n : Number R⦄ ⦃m : Math R⦄ (e : IsExact R) (q price : R) where
  open e use {ordered, le_antisymm}
  open e.ordered use {sub_nonneg, sub-le, le_refl, le_trans}

  difference : (f t : R) → t ≡ f + (t - f)
  difference f t = sym (sub-add_cancel e t f) ∙ e.ordered.add_comm (t - f) f

  moved_last : (f d x y : R) → f + d + x + y ≡ f + x + y + d
  moved_last f d x y = simp (ring, e)

  fees_either :
      (d : Bool) (f t x y : R)
      → (if not d then t else t + x + y) ≡ (if not d then f else f + x + y) + (t - f)
  fees_either false f t x y = difference f t
  fees_either true f t x y = ap (λ z. z + x + y) (difference f t) ∙ moved_last f (t - f) x y

  fees_set :
      (book : Book R) (f : R)
      → book_value (record book { fees = f }) q ≡ book_value book q + (f - book.fees)
  unfolding book_value
  fees_set book f = fees_either book.deployed book.fees f (base_value book q) (guard_value book q)

  -- The portfolio with other pockets and another total of gas.
  abbrev pockets : Portfolio R → (i l f g gas : R) → Portfolio R
  pockets pf i l f g gas = record pf {
    idle_usdg = i;
    arm = record (pf.arm) { usdg_lent = l };
    first_book = record (pf.first_book) { fees = f };
    second_book = record (pf.second_book) { fees = g };
    cum = record (pf.cum) { gas = gas };
  }

  pockets_sum :
      (i i' v b c k l l' d x f f' g g' p : R)
      → i' + v * p + (b + (f' - f)) + (c + (g' - g)) + (k * p + l' - d - x)
        ≡ i + v * p + b + c + (k * p + l - d - x) + (i' - i + (l' - l) + (f' - f) + (g' - g))
  pockets_sum i i' v b c k l l' d x f f' g g' p = simp (ring, e)

  gas_carry :
      (f g y b a a' s w l : R)
      → f + g + y - b - a' - s - w - l ≡ f + g + y - b - a - s - w - l + neg (a' - a)
  gas_carry f g y b a a' s w l = simp (ring, e)

  pockets-nav :
      (pf : Portfolio R) (i l f g gas : R)
      → i
          - pf.idle_usdg
          + (l - pf.arm.usdg_lent)
          + (f - pf.first_book.fees)
          + (g - pf.second_book.fees)
        ≡ neg (gas - pf.cum.gas)
      → portfolio_nav (pockets pf i l f g gas) q price
        ≡ portfolio_nav pf q price - (gas - pf.cum.gas)
  unfolding portfolio_nav
  pockets-nav pf i l f g gas h =
      let arm = pf.arm in
      let b = book_value pf.first_book q in
      let c = book_value pf.second_book q in
      ap
        (λ z.
          i
          + pf.idle_nvda * price
          + z
          + book_value (record (pf.second_book) { fees = g }) q
          + (arm.nvda * price + l - arm.debt - arm.bad_debt))
        (fees_set pf.first_book f)
      ∙ ap
          (λ z.
            i
            + pf.idle_nvda * price
            + (b + (f - pf.first_book.fees))
            + z
            + (arm.nvda * price + l - arm.debt - arm.bad_debt))
          (fees_set pf.second_book g)
      ∙ pockets_sum pf.idle_usdg i pf.idle_nvda b c arm.nvda arm.usdg_lent l arm.debt arm.bad_debt
          pf.first_book.fees f pf.second_book.fees g price
      ∙ ap (λ z. portfolio_nav pf q price + z) h
      ∙ sym (sub-eq-add e (portfolio_nav pf q price) (gas - pf.cum.gas))

  minus_zero : (x : R) → x ≡ x - num 0
  minus_zero x = simp (ring, e)

  all_pay :
      (i i' l l' f f' g g' a gas r s t u : R)
      → i' ≡ i + (r - gas)
      → l' ≡ l + (s - r)
      → f' ≡ f + (t - s)
      → g' ≡ g + (u - t)
      → i' - i + (l' - l) + (f' - f) + (g' - g) ≡ neg (a + (gas - u) - a)
  all_pay i i' l l' f f' g g' a gas r s t u h k o p = rw (h, k, o, p) (simp (ring, e))

  two_pay :
      (i i' l l' f g a gas r s : R)
      → i' ≡ i + (r - gas)
      → l' ≡ l + (s - r)
      → i' - i + (l' - l) + (f - f) + (g - g) ≡ neg (a + (gas - s) - a)
  two_pay i i' l l' f g a gas r s h k = rw (h, k) (simp (ring, e))

  module _ (gas : R) (pf : Portfolio R) (hg : num 0 ≤ gas) where
    abbrev idle : R × R
    idle = pay_from pf.idle_usdg gas

    abbrev lent : R × R
    lent = pay_from pf.arm.usdg_lent idle.1

    abbrev first : R × R
    first = pay_from_fees pf.first_book.fees lent.1

    abbrev second : R × R
    second = pay_from_fees pf.second_book.fees first.1

    abbrev remaining : Bool → R
    remaining b = if b then second.1 else lent.1

    lent_nonneg : num 0 ≤ lent.1
    lent_nonneg = pay_from_nonneg e pf.arm.usdg_lent idle.1 (pay_from_nonneg e pf.idle_usdg gas hg)

    paid_sum :
        (b : Bool)
        → idle.0
            - pf.idle_usdg
            + (lent.0 - pf.arm.usdg_lent)
            + ((if b then first.0 else pf.first_book.fees) - pf.first_book.fees)
            + ((if b then second.0 else pf.second_book.fees) - pf.second_book.fees)
          ≡ neg (pf.cum.gas + (gas - max (num 0) (remaining b)) - pf.cum.gas)
    paid_sum true =
        let left =
          pay_from_fees_nonneg e pf.second_book.fees first.1
            (pay_from_fees_nonneg e pf.first_book.fees lent.1 lent_nonneg) in
        all_pay pf.idle_usdg idle.0 pf.arm.usdg_lent lent.0 pf.first_book.fees first.0
          pf.second_book.fees second.0 pf.cum.gas gas idle.1 lent.1 first.1 second.1
          (pay_from-sum e pf.idle_usdg gas) (pay_from-sum e pf.arm.usdg_lent idle.1)
          (pay_from_fees-sum e pf.first_book.fees lent.1)
          (pay_from_fees-sum e pf.second_book.fees first.1)
        ∙ ap (λ z. neg (pf.cum.gas + (gas - z) - pf.cum.gas)) (sym (max_keeps e second.1 left))
    paid_sum false =
        two_pay pf.idle_usdg idle.0 pf.arm.usdg_lent lent.0 pf.first_book.fees pf.second_book.fees
          pf.cum.gas gas idle.1 lent.1 (pay_from-sum e pf.idle_usdg gas)
          (pay_from-sum e pf.arm.usdg_lent idle.1)
        ∙ ap (λ z. neg (pf.cum.gas + (gas - z) - pf.cum.gas)) (sym (max_keeps e lent.1 lent_nonneg))

    remaining_nonneg : (b : Bool) → num 0 ≤ remaining b
    remaining_nonneg true =
        pay_from_fees_nonneg e pf.second_book.fees first.1
          (pay_from_fees_nonneg e pf.first_book.fees lent.1 lent_nonneg)
    remaining_nonneg false = lent_nonneg

    lent-le : lent.1 ≤ gas
    lent-le =
        le_trans lent.1 idle.1 gas
          (pay_from-le e pf.arm.usdg_lent idle.1 (pay_from_nonneg e pf.idle_usdg gas hg))
          (pay_from-le e pf.idle_usdg gas hg)

    remaining-le : (b : Bool) → remaining b ≤ gas
    remaining-le true =
        let first_nonneg = pay_from_fees_nonneg e pf.first_book.fees lent.1 lent_nonneg in
        le_trans second.1 first.1 gas (pay_from_fees-le e pf.second_book.fees first.1 first_nonneg)
          (le_trans first.1 lent.1 gas (pay_from_fees-le e pf.first_book.fees lent.1 lent_nonneg)
            lent-le)
    remaining-le false = lent-le

    abbrev paid : Bool → Portfolio R
    paid b =
        pockets pf idle.0 lent.0 (if b then first.0 else pf.first_book.fees)
          (if b then second.0 else pf.second_book.fees)
          (pf.cum.gas + (gas - max (num 0) (remaining b)))

    booked : (b : Bool) → (paid b).cum.gas - pf.cum.gas ≡ gas - remaining b
    booked b =
        add-sub_left e pf.cum.gas (gas - max (num 0) (remaining b))
        ∙ ap (λ z. gas - z) (max_keeps e (remaining b) (remaining_nonneg b))

    nothing_remains :
        (b : Bool) → (num 0 <? lent.1) ≡ b → (remaining b ≡ num 0) ⊎ IsEmptied (paid b)
    nothing_remains true h = elim (Bool-cases (second.1 ≤? num 0)) [
      | inl k ↦ inl (le_antisymm second.1 (num 0) k (remaining_nonneg true))
      | inr k ↦
          let idle_nonneg = pay_from_nonneg e pf.idle_usdg gas hg in
          let first_nonneg = pay_from_fees_nonneg e pf.first_book.fees lent.1 lent_nonneg in
          let (no_second, first_pos) =
            fees-emptied e pf.second_book.fees first.1 first_nonneg
              (lt_of_not-le ordered (num 0) second.1 k) in
          let (no_first, lent_pos) =
            fees-emptied e pf.first_book.fees lent.1 lent_nonneg first_pos in
          let (no_lent, idle_pos) = pocket-emptied e pf.arm.usdg_lent idle.1 idle_nonneg lent_pos in
          let (no_idle, _) = pocket-emptied e pf.idle_usdg gas hg idle_pos in
          inr (no_idle, no_lent, no_first, no_second)
    ]
    nothing_remains false h =
        inl (le_antisymm lent.1 (num 0) (le_of_not-lt ordered lent.1 (num 0) h) lent_nonneg)

    paid-IsPaid : (b : Bool) → (num 0 <? lent.1) ≡ b → IsPaid q price gas pf (paid b)
    paid-IsPaid b h =
        let rest = remaining b in
        let whole = max_keeps e gas hg in
        record {
          of_nav = pockets-nav pf idle.0 lent.0 _ _ _ (paid_sum b);
          of_cum = refl;
          booked_nonneg =
              subst⁻¹ (λ z. num 0 ≤ z) (booked b) (sub_nonneg gas rest (remaining-le b));
          booked_le =
              subst⁻¹ (λ z. z ≤ max (num 0) gas) (booked b)
                (subst⁻¹ (λ z. gas - rest ≤ z) whole (sub-le gas rest (remaining_nonneg b)));
          is_complete = elim (nothing_remains b h) [
            | inl k ↦ inl (booked b ∙ ap (λ z. gas - z) k ∙ sym (minus_zero gas) ∙ sym whole)
            | inr k ↦ inr k
          ];
        }

  no_gas : (gas : R) (pf : Portfolio R) → gas ≤ num 0 → IsPaid q price gas pf pf
  no_gas gas pf h =
      let none = sub_self e pf.cum.gas in
      record {
        of_nav =
            minus_zero (portfolio_nav pf q price)
            ∙ ap (λ z. portfolio_nav pf q price - z) (sym none);
        of_cum = refl;
        booked_nonneg = subst⁻¹ (λ z. num 0 ≤ z) none (le_refl (num 0));
        booked_le = subst⁻¹ (λ z. z ≤ max (num 0) gas) none (le-max_left ordered (num 0) gas);
        is_complete = inl (none ∙ sym (clamp_neg ordered gas h));
      }

  -- A payment of gas lowers the value by exactly what it adds to the total of gas, and changes no
  -- other total. What it adds is not negative and at most the gas; it is the whole gas, or nothing is
  -- left of the idle USDG, the lent USDG and the fees of both books. Gas that is not positive counts
  -- as nothing.
  pub pay_gas-IsPaid : (gas : R) (pf : Portfolio R) → IsPaid q price gas pf (pay_gas gas pf)
  unfolding pay_gas
  pay_gas-IsPaid gas pf =
      either_by (λ r. IsPaid q price gas pf r) (gas ≤? num 0) (no_gas gas pf)
        (λ h.
          let gas_nonneg = le_of_lt ordered (num 0) gas (lt_of_not-le ordered (num 0) gas h) in
          paid-IsPaid gas pf gas_nonneg (num 0 <? (lent gas pf gas_nonneg).1) refl)

  -- So the value and the carry fall by the same amount.
  pub pay_gas-IsBalanced : (gas : R) (pf : Portfolio R) → IsBalanced q price pf (pay_gas gas pf)
  unfolding net_carry
  pay_gas-IsBalanced gas pf =
      let h = pay_gas-IsPaid gas pf in
      let added = (pay_gas gas pf).cum.gas - pf.cum.gas in
      let cum = pf.cum in
      record {
        change = neg added;
        of_nav = h.of_nav ∙ sub-eq-add e (portfolio_nav pf q price) added;
        of_carry =
            ap net_income h.of_cum
            ∙ gas_carry cum.fees cum.arm_interest cum.nvda_yield cum.borrow_cost cum.gas
                ((pay_gas gas pf).cum.gas) cum.switch_cost cum.swap_cost cum.liquidation_loss;
      }
