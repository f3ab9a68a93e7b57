-- ===== src/Model/Ledger/Swap.antt =====
-- `_swap_deficit` of research/cadcad/allocator/model.py costs exactly what it books.
use nvda_tranched_arc.Prelude.{
  false, ◌&&◌, ◌≡◌, refl, ◌∙◌, sym, ap, arith, either, either_by, and_left,
}
use nvda_tranched_arc.Number.{
  Number, ◌+◌, ◌-◌, ◌*◌, ◌/◌, neg, ◌<◌, ◌≤◌, ◌<?◌, ◌≤?◌, num, min, max, IsExact,
}
use nvda_tranched_arc.Number.Algebra.{ring, sub-eq-add, div-mul_cancel, div_self, sub_pos}
use nvda_tranched_arc.Number.Order.{lt_of_not-le, le_of_lt, lt_of_lt-le, le-max_left}
use nvda_tranched_arc.Lp.{Math}
use nvda_tranched_arc.Model.{Portfolio}
use nvda_tranched_arc.Model.Accounts.{portfolio_nav}
use nvda_tranched_arc.Model.Funding.{fill_usdg, fill_nvda, swap_deficit, epsilon}
use nvda_tranched_arc.Model.Ledger.{IsBalanced, net_carry, net_income}

-- What a swap returns: a cost that is not negative, by which the value falls and which is added to the
-- total of the swap costs, and to no other total.
pub record IsSwap {R : Type 0} ⦃n : Number R⦄ ⦃m : Math R⦄ (q price : R) (pf : Portfolio R)
    (r : Portfolio R × R) : Type 0 where
  pub cost_nonneg : num 0 ≤ r.1
  pub of_nav : portfolio_nav r.0 q price ≡ portfolio_nav pf q price - r.1
  pub of_cum : r.0.cum ≡ record (pf.cum) { swap_cost = pf.cum.swap_cost + r.1 }

module _ {R : Type 0} ⦃n : Number R⦄ ⦃m : Math R⦄ (e : IsExact R) (q price : R)
    (hp : num 0 < price) where
  open e use {ordered}
  open e.ordered use {num-lt, div-le-div_right, le_refl, mul_nonneg, div_nonneg, sub_nonneg}

  abbrev Swapped : Portfolio R → Portfolio R × R → Type 0
  Swapped = IsSwap q price

  carry_falls :
      (f g y b a s w l c : R)
      → f + g + y - b - a - s - (w + c) - l ≡ f + g + y - b - a - s - w - l + neg c
  carry_falls f g y b a s w l c = simp (ring, e)

  plus_zero : (x : R) → x ≡ x + num 0
  plus_zero x = simp (ring, e)

  minus_zero : (x : R) → x ≡ x - num 0
  minus_zero x = simp (ring, e)

  unchanged : (pf : Portfolio R) → Swapped pf (pf, num 0)
  unchanged pf = record {
    cost_nonneg = le_refl (num 0);
    of_nav = minus_zero (portfolio_nav pf q price);
    of_cum = ap (λ z. record (pf.cum) { swap_cost = z }) (plus_zero pf.cum.swap_cost);
  }

  usdg_bought :
      (i v b c a short sold : R) (p : R)
      → i + short + (v - sold) * p + b + c + a ≡ i + v * p + b + c + a - (sold * p - short)
  usdg_bought i v b c a short sold p = simp (ring, e)

  lost_part : (v c : R) → v - v * (num 1 - c) ≡ v * c
  lost_part v c = simp (ring, e)

  cost_of_value :
      (short c : R) → num 0 < num 1 - c → let v = short / (num 1 - c) in v - short ≡ v * c
  cost_of_value short c hc =
      let v : R = short / (num 1 - c) in
      ap (λ t. v - t) (sym (div-mul_cancel e short (num 1 - c) hc)) ∙ lost_part v c

  cost_nonneg :
      (short c : R)
      → num 0 ≤ short
      → num 0 ≤ c
      → num 0 < num 1 - c
      → num 0 ≤ short / (num 1 - c) * c
  cost_nonneg short c hs h hc = mul_nonneg _ c (div_nonneg short (num 1 - c) hs hc) h

  fill_usdg-IsSwap :
      (pf : Portfolio R) (x y c : R)
      → num 0 ≤ c
      → num 0 < num 1 - c
      → pf.idle_usdg < x
      → Swapped pf (fill_usdg pf x y price c)
  unfolding fill_usdg portfolio_nav
  fill_usdg-IsSwap pf x y c h hc below =
      let short = x - pf.idle_usdg in
      let v = short / (num 1 - c) in
      let sold = v / price in
      either (λ r. Swapped pf r) (sold ≤? pf.idle_nvda - y + epsilon)
        (record {
          cost_nonneg =
              cost_nonneg short c
                (sub_nonneg x pf.idle_usdg (le_of_lt ordered pf.idle_usdg x below)) h hc;
          of_nav =
              usdg_bought pf.idle_usdg pf.idle_nvda _ _ _ short sold price
              ∙ ap (λ t. portfolio_nav pf q price - t)
                  (ap (λ t. t - short) (div-mul_cancel e v price hp) ∙ cost_of_value short c hc);
          of_cum = refl;
        })
        (unchanged pf)

  nvda_bought :
      (i v b c a short sold : R) (p : R)
      → i - sold + (v + short) * p + b + c + a ≡ i + v * p + b + c + a - (sold - short * p)
  nvda_bought i v b c a short sold p = simp (ring, e)

  fill_nvda-IsSwap :
      (pf : Portfolio R) (x y c : R)
      → num 0 ≤ c
      → num 0 < num 1 - c
      → pf.idle_nvda < y
      → Swapped pf (fill_nvda pf x y price c)
  unfolding fill_nvda portfolio_nav
  fill_nvda-IsSwap pf x y c h hc below =
      let short = y - pf.idle_nvda in
      let v = short * price / (num 1 - c) in
      either (λ r. Swapped pf r) (v ≤? pf.idle_usdg - x + epsilon)
        (record {
          cost_nonneg =
              cost_nonneg (short * price) c
                (mul_nonneg short price
                  (sub_nonneg y pf.idle_nvda (le_of_lt ordered pf.idle_nvda y below))
                  (le_of_lt ordered (num 0) price hp))
                h hc;
          of_nav =
              nvda_bought pf.idle_usdg pf.idle_nvda _ _ _ short v price
              ∙ ap (λ t. portfolio_nav pf q price - t) (cost_of_value (short * price) c hc);
          of_cum = refl;
        })
        (unchanged pf)

  abbrev ceiling : R
  ceiling = num 99 / num 100

  below_one : (c : R) → (ceiling ≤? c) ≡ false → num 0 < num 1 - c
  below_one c h =
      let hundred = num-lt 0 100 (omega arith) in
      let cap : ceiling ≤ num 1 = rw (div_self e (num 100) hundred) at (
        div-le-div_right (num 99) (num 100) (num 100) hundred
          (le_of_lt ordered (num 99) (num 100) (num-lt 99 100 (omega arith)))) in
      sub_pos e c (num 1)
        (lt_of_lt-le ordered c ceiling (num 1) (lt_of_not-le ordered c ceiling h) cap)

  -- At a positive price the cost that a swap returns is not negative: the value falls by exactly this
  -- cost, and it is added to the total of the swap costs and to no other total.
  pub swap_deficit-IsSwap :
      (pf : Portfolio R) (x y cost_bps : R) → IsSwap q price pf (swap_deficit pf x y price cost_bps)
  unfolding swap_deficit
  swap_deficit-IsSwap pf x y cost_bps =
      let c = max (num 0) (min ceiling (cost_bps / num 10_000)) in
      let c_nonneg = le-max_left ordered (num 0) (min ceiling (cost_bps / num 10_000)) in
      let none = unchanged pf in
      either (λ r. Swapped pf r) (price ≤? num 0) none
        (either_by (λ r. Swapped pf r) (ceiling ≤? c) (λ _. none)
          (λ h.
            let hc = below_one c h in
            either_by (λ r. Swapped pf r) ((pf.idle_usdg <? x) && (y <? pf.idle_nvda))
              (λ k. fill_usdg-IsSwap pf x y c c_nonneg hc (and_left _ _ k))
              (λ _.
                either_by (λ r. Swapped pf r) ((pf.idle_nvda <? y) && (x <? pf.idle_usdg))
                  (λ k. fill_nvda-IsSwap pf x y c c_nonneg hc (and_left _ _ k)) (λ _. none))))

  -- So the value and the carry fall by the same cost.
  pub swap_deficit-IsBalanced :
      (pf : Portfolio R) (x y cost_bps : R)
      → IsBalanced q price pf (swap_deficit pf x y price cost_bps).0
  unfolding net_carry
  swap_deficit-IsBalanced pf x y cost_bps =
      let h = swap_deficit-IsSwap pf x y cost_bps in
      let cost = (swap_deficit pf x y price cost_bps).1 in
      let cum = pf.cum in
      record {
        change = neg cost;
        of_nav = h.of_nav ∙ sub-eq-add e (portfolio_nav pf q price) cost;
        of_carry =
            ap net_income h.of_cum
            ∙ carry_falls cum.fees cum.arm_interest cum.nvda_yield cum.borrow_cost cum.gas
                cum.switch_cost cum.swap_cost cum.liquidation_loss cost;
      }

-- A swap leaves the books and the arm alone.
pub swap_deficit-keeps :
    {R : Type 0} ⦃n : Number R⦄ (pf : Portfolio R) (x y price cost_bps : R)
    → let after = (swap_deficit pf x y price cost_bps).0 in
      (after.arm ≡ pf.arm)
      × (after.first_book ≡ pf.first_book)
      × (after.second_book ≡ pf.second_book)
unfolding swap_deficit fill_usdg fill_nvda
swap_deficit-keeps {R} pf x y price cost_bps =
    let P = λ (r : Portfolio R × R).
      (r.0.arm ≡ pf.arm) × (r.0.first_book ≡ pf.first_book) × (r.0.second_book ≡ pf.second_book) in
    let c = max (num 0) (min (num 99 / num 100) (cost_bps / num 10_000)) in
    let s = (x - pf.idle_usdg) / (num 1 - c) / price in
    let t = (y - pf.idle_nvda) * price / (num 1 - c) in
    either P (price ≤? num 0) (refl, refl, refl)
      (either P (num 99 / num 100 ≤? c) (refl, refl, refl)
        (either P ((pf.idle_usdg <? x) && (y <? pf.idle_nvda))
          (either P (s ≤? pf.idle_nvda - y + epsilon) (refl, refl, refl) (refl, refl, refl))
          (either P ((pf.idle_nvda <? y) && (x <? pf.idle_usdg))
            (either P (t ≤? pf.idle_usdg - x + epsilon) (refl, refl, refl) (refl, refl, refl))
            (refl, refl, refl))))
