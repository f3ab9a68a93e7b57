-- ===== src/Model/Income/Value.antt =====
-- The hour's income of research/cadcad/allocator/model.py adds to the value what it adds to the carry.
use nvda_tranched_arc.Prelude.{Bool, true, false, not, ◌≡◌, refl, ◌∙◌, ap, if◌then◌else◌}
use nvda_tranched_arc.Number.{Number, ◌+◌, ◌-◌, ◌*◌, IsExact}
use nvda_tranched_arc.Number.Algebra.{ring}
use nvda_tranched_arc.Lp.{Math}
use nvda_tranched_arc.Allocator.{BookName, book_a, book_b}
use nvda_tranched_arc.Model.{Portfolio, Params, Book}
use nvda_tranched_arc.Model.Books.{book_value, base_value, guard_value}
use nvda_tranched_arc.Model.Accounts.{portfolio_nav, arm_equity}
use nvda_tranched_arc.Model.Fees.{FeeSplit}
use nvda_tranched_arc.Model.Ledger.{IsBalanced, net_carry}
use nvda_tranched_arc.Model.Income.{accrue, arm_interest, nvda_rate, hourly}

module _ {R : Type 0} ⦃n : Number R⦄ ⦃m : Math R⦄ (e : IsExact R) (q price : R) where
  abbrev Balanced : Portfolio R → Portfolio R → Type 0
  Balanced = IsBalanced q price

  carry_rises :
      (f g y b a s w l c : R)
      → f + c + g + y - b - a - s - w - l ≡ f + g + y - b - a - s - w - l + c
  carry_rises f g y b a s w l c = simp (ring, e)

  rises_either :
      (d : Bool) (f t x y : R)
      → (if not d then f + t else f + t + x + y) ≡ (if not d then f else f + x + y) + t
  rises_either true f t x y = simp (ring, e)
  rises_either false f t x y = refl

  fees_rise :
      (book : Book R) (t u : R)
      → book_value (record book { fees = book.fees + t; cum_fees = u }) q ≡ book_value book q + t
  unfolding book_value
  fees_rise book t u =
      rises_either book.deployed book.fees t (base_value book q) (guard_value book q)

  first_rises : (h b c a t : R) → h + (b + t) + c + a ≡ h + b + c + a + t
  first_rises h b c a t = simp (ring, e)

  second_rises : (h b c a t : R) → h + b + (c + t) + a ≡ h + b + c + a + t
  second_rises h b c a t = simp (ring, e)

  -- The value with another value of a book.
  abbrev with_first : Portfolio R → R → R
  with_first pf b =
      pf.idle_usdg
      + pf.idle_nvda * price
      + b
      + book_value pf.second_book q
      + arm_equity pf.arm price

  abbrev with_second : Portfolio R → R → R
  with_second pf b =
      pf.idle_usdg + pf.idle_nvda * price + book_value pf.first_book q + b + arm_equity pf.arm price

  -- The fees of an hour are value and carry.
  pub accrue-IsBalanced :
      (name : BookName) (fees : FeeSplit R) (pf : Portfolio R) → Balanced pf (accrue name fees pf)
  unfolding accrue portfolio_nav net_carry
  accrue-IsBalanced book_a fees pf =
      let cum = pf.cum in
      record {
        change = fees.total;
        of_nav =
            ap (with_first pf) (fees_rise pf.first_book fees.total _)
            ∙ first_rises _ (book_value pf.first_book q) _ _ fees.total;
        of_carry =
            carry_rises cum.fees cum.arm_interest cum.nvda_yield cum.borrow_cost cum.gas
              cum.switch_cost cum.swap_cost cum.liquidation_loss fees.total;
      }
  accrue-IsBalanced book_b fees pf =
      let cum = pf.cum in
      record {
        change = fees.total;
        of_nav =
            ap (with_second pf) (fees_rise pf.second_book fees.total _)
            ∙ second_rises _ _ (book_value pf.second_book q) _ fees.total;
        of_carry =
            carry_rises cum.fees cum.arm_interest cum.nvda_yield cum.borrow_cost cum.gas
              cum.switch_cost cum.swap_cost cum.liquidation_loss fees.total;
      }

  interest_value :
      (i v b c k l d x u w y p : R)
      → i + v * p + b + c + ((k + y) * p + (l + u) - (d + w) - x)
        ≡ i + v * p + b + c + (k * p + l - d - x) + (u + y * p - w)
  interest_value i v b c k l d x u w y p = simp (ring, e)

  interest_carry :
      (f g y b a s w l u z t : R)
      → f + (g + u) + (y + z) - (b + t) - a - s - w - l
        ≡ f + g + y - b - a - s - w - l + (u + z - t)
  interest_carry f g y b a s w l u z t = simp (ring, e)

  -- An hour of interest is value and carry.
  pub arm_interest-IsBalanced :
      (params : Params R) (pf : Portfolio R) → Balanced pf (arm_interest params price pf)
  unfolding arm_interest portfolio_nav net_carry
  arm_interest-IsBalanced params pf =
      let arm = pf.arm in
      let cum = pf.cum in
      let u = arm.usdg_lent * hourly params.arm_usdg_apr in
      let w = arm.debt * hourly params.arm_borrow_apr in
      let y = arm.nvda * nvda_rate params arm price in
      record {
        change = u + y * price - w;
        of_nav =
            interest_value pf.idle_usdg pf.idle_nvda _ _ arm.nvda arm.usdg_lent arm.debt
              arm.bad_debt u w y price;
        of_carry =
            interest_carry cum.fees cum.arm_interest cum.nvda_yield cum.borrow_cost cum.gas
              cum.switch_cost cum.swap_cost cum.liquidation_loss u (y * price) w;
      }
