-- ===== src/Model/Ledger/Fund.antt =====
-- `_fund_book` of research/cadcad/allocator/model.py moves idle tokens into a book.
use nvda_tranched_arc.Prelude.{
  Bool, true, false, ◌&&◌, ◌≡◌, refl, ◌∙◌, sym, ap, if◌then◌else◌, Bool-cases, inl, inr, either,
  either_by,
}
use nvda_tranched_arc.Number.{Number, ◌+◌, ◌-◌, ◌*◌, ◌/◌, ◌<◌, ◌≤◌, ◌<?◌, ◌≤?◌, num, IsExact}
use nvda_tranched_arc.Number.Algebra.{ring, zero-mul}
use nvda_tranched_arc.Number.Order.{lt_of_not-le, le_of_not-lt, le_of_lt, not-lt_of_le}
use nvda_tranched_arc.Lp.{
  Math, token_amounts, position_value_usd, amounts_for_l, usdg_unit, nvda_unit,
}
use nvda_tranched_arc.Allocator.{BookName, book_a, book_b}
use nvda_tranched_arc.Model.{Portfolio, Params, Env, Book, book_at}
use nvda_tranched_arc.Model.Books.{book_value}
use nvda_tranched_arc.Model.Accounts.{portfolio_nav, arm_equity}
use nvda_tranched_arc.Model.Accounts.Close.{mark}
use nvda_tranched_arc.Model.Funding.{
  swap_deficit, funding_plan, fund_book, funded_book, deploy, required_tokens, choose_base_skew,
  fund_bps_of,
}
use nvda_tranched_arc.Model.Ledger.{IsBalanced, kept, same, then_balanced, net_income}
use nvda_tranched_arc.Model.Ledger.Swap.{swap_deficit-IsBalanced, swap_deficit-keeps}
use nvda_tranched_arc.Model.Income.Guards.{position-scaled, ready-book, set_book-cum, at_price}

module _ {R : Type 0} ⦃n : Number R⦄ ⦃m : Math R⦄ (e : IsExact R) (q : R) where
  open e use {ordered, mul_pos, div-eq-mul}
  open e.ordered use {mul-le-mul_right}

  abbrev price : R
  price = mark e q

  zero_part : (u : R) → num 0 / u ≡ num 0
  zero_part u = div-eq-mul (num 0) u ∙ zero-mul e (num 1 / u)

  -- No liquidity has no tokens.
  no_tokens : (l lo hi : R) → (num 0 <? l) ≡ false → token_amounts l q lo hi ≡ (num 0, num 0)
  unfolding token_amounts amounts_for_l
  no_tokens l lo hi h = rw (h, zero_part usdg_unit, zero_part nvda_unit) refl

  nothing : (s p : R) → num 0 ≡ num 0 * s + num 0 * s * p
  nothing s p = simp (ring, e)

  none_counted :
      (b : Bool) (v : R) (t : R × R) (s p : R)
      → b ≡ false
      → t ≡ (num 0, num 0)
      → (if b then v else num 0) ≡ t.0 * s + t.1 * s * p
  none_counted true v t s p h k = cc h
  none_counted false v t s p h k = nothing s p ∙ ap (λ (t : R × R). t.0 * s + t.1 * s * p) (sym k)

  some_counted : (b : Bool) (v w : R) → b ≡ true → v ≡ w → (if b then v else num 0) ≡ w
  some_counted true v w h k = k
  some_counted false v w h k = cc h

  -- A sleeve is worth the tokens that go into it.
  sleeve-scaled :
      (l s lo hi : R)
      → num 0 < s
      → let t = token_amounts l q lo hi in
        (if num 0 <? l * s then position_value_usd (l * s) q lo hi else num 0)
        ≡ t.0 * s + t.1 * s * price
  sleeve-scaled l s lo hi hs = elim (Bool-cases (num 0 <? l)) [
    | inl h ↦ some_counted _ _ _ (mul_pos l s h hs) (position-scaled e q l s lo hi h hs)
    | inr h ↦
        let none_in : l * s ≤ num 0 = rw (zero-mul e s) at (
          mul-le-mul_right l (num 0) s (le_of_lt ordered (num 0) s hs)
            (le_of_not-lt ordered l (num 0) h)) in
        none_counted _ _ _ s price (not-lt_of_le ordered (l * s) (num 0) none_in)
          (no_tokens l lo hi h)
  ]

  both_sleeves :
      (a b c d s p : R)
      → num 0 + (a * s + b * s * p) + (c * s + d * s * p) ≡ (a + c) * s + (b + d) * s * p
  both_sleeves a b c d s p = simp (ring, e)

  both_parts : (x y u v : R) → x ≡ u → y ≡ v → num 0 + x + y ≡ num 0 + u + v
  both_parts x y u v h k = ap (λ z. num 0 + z + y) h ∙ ap (λ z. num 0 + u + z) k

  -- The tokens that a book needs around the tick.
  abbrev needed : Book R → Env R → Params R → (skew : R) → R × R
  needed b env params skew =
      required_tokens b.target_base_l b.target_guard_l q (env.tick + skew - params.base_width_ticks)
        (env.tick + skew + params.base_width_ticks) (env.tick - params.guard_width_ticks)
        (env.tick + params.guard_width_ticks)

  -- A funded book is worth the tokens that were put in.
  funded-value :
      (b : Book R) (env : Env R) (params : Params R) (skew s : R)
      → num 0 < s
      → let t = needed b env params skew in
        book_value (funded_book b env params skew s) q ≡ t.0 * s + t.1 * s * price
  unfolding book_value required_tokens
  funded-value b env params skew s hs =
      both_parts _ _ _ _
        (sleeve-scaled b.target_base_l s (env.tick + skew - params.base_width_ticks)
          (env.tick + skew + params.base_width_ticks) hs)
        (sleeve-scaled b.target_guard_l s (env.tick - params.guard_width_ticks)
          (env.tick + params.guard_width_ticks) hs)
      ∙ both_sleeves _ _ _ _ s price

  moved_first :
      (i v p c a x y : R) → i - x + (v - y) * p + (x + y * p) + c + a ≡ i + v * p + num 0 + c + a
  moved_first i v p c a x y = simp (ring, e)

  moved_second :
      (i v p b a x y : R) → i - x + (v - y) * p + b + (x + y * p) + a ≡ i + v * p + b + num 0 + a
  moved_second i v p b a x y = simp (ring, e)

  funded_first :
      (i v p b c a x y : R)
      → b ≡ x + y * p
      → i - x + (v - y) * p + b + c + a ≡ i + v * p + num 0 + c + a
  funded_first i v p b c a x y h =
      ap (λ z. i - x + (v - y) * p + z + c + a) h ∙ moved_first i v p c a x y

  funded_second :
      (i v p b c a x y : R)
      → c ≡ x + y * p
      → i - x + (v - y) * p + b + c + a ≡ i + v * p + b + num 0 + a
  funded_second i v p b c a x y h =
      ap (λ z. i - x + (v - y) * p + b + z + a) h ∙ moved_second i v p b a x y

  -- A book that is worth nothing is funded at no change of the value.
  deploy-nav :
      (target : BookName) (b : Book R) (x y s : R) (pf : Portfolio R)
      → book_value (book_at pf target) q ≡ num 0
      → book_value b q ≡ x * s + y * s * price
      → portfolio_nav (deploy target b x y s pf) q price ≡ portfolio_nav pf q price
  unfolding portfolio_nav
  deploy-nav book_a b x y s pf h k =
      funded_first pf.idle_usdg pf.idle_nvda price (book_value b q) (book_value pf.second_book q)
        (arm_equity pf.arm price) (x * s) (y * s) k
      ∙ ap
          (λ z.
            pf.idle_usdg
            + pf.idle_nvda * price
            + z
            + book_value pf.second_book q
            + arm_equity pf.arm price)
          (sym h)
  deploy-nav book_b b x y s pf h k =
      funded_second pf.idle_usdg pf.idle_nvda price (book_value pf.first_book q) (book_value b q)
        (arm_equity pf.arm price) (x * s) (y * s) k
      ∙ ap
          (λ z.
            pf.idle_usdg
            + pf.idle_nvda * price
            + book_value pf.first_book q
            + z
            + arm_equity pf.arm price)
          (sym h)

module _ {R : Type 0} ⦃n : Number R⦄ ⦃m : Math R⦄ (e : IsExact R) (env : Env R) (params : Params R)
    (hp : env.price ≡ mark e env.sqrt_p) (pos : num 0 < env.price) where
  open e use {ordered}

  abbrev Balanced : Portfolio R → Portfolio R → Type 0
  Balanced = IsBalanced env.sqrt_p env.price

  funding_plan-IsBalanced :
      (pf : Portfolio R) (x y : R) → Balanced pf (funding_plan pf env params x y).0
  unfolding funding_plan
  funding_plan-IsBalanced pf x y =
      either (λ (r : Portfolio R × R). Balanced pf r.0) params.funding_mode_swap
        (swap_deficit-IsBalanced e env.sqrt_p env.price pos pf _ _ params.swap_cost_bps)
        (same e env.sqrt_p env.price pf)

  funding_plan-book :
      (name : BookName) (pf : Portfolio R) (x y : R)
      → book_at (funding_plan pf env params x y).0 name ≡ book_at pf name
  unfolding funding_plan
  funding_plan-book name pf x y =
      let scale = fund_bps_of params in
      let after =
        (swap_deficit pf (x * scale / num 10_000) (y * scale / num 10_000) env.price
          params.swap_cost_bps).0 in
      let k =
        swap_deficit-keeps pf (x * scale / num 10_000) (y * scale / num 10_000) env.price
          params.swap_cost_bps in
      either (λ (r : Portfolio R × R). book_at r.0 name ≡ book_at pf name) params.funding_mode_swap
        (ready-book name pf after (k.1, k.2)) refl

  -- Funding a book that is worth nothing moves tokens and books the cost of its swap.
  pub fund_book-IsBalanced :
      (target : BookName) (pf : Portfolio R)
      → book_value (book_at pf target) env.sqrt_p ≡ num 0
      → Balanced pf (fund_book target env params pf).0
  unfolding fund_book
  fund_book-IsBalanced target pf h =
      let q = env.sqrt_p in
      let book = book_at pf target in
      let skew =
        if params.base_skew_inventory then choose_base_skew pf book env params else num 0 in
      let req = needed e q book env params skew in
      let plan = funding_plan pf env params req.0 req.1 in
      let planned = funding_plan-IsBalanced pf req.0 req.1 in
      either (λ (r : Portfolio R × R). Balanced pf r.0) ((req.0 ≤? num 0) && (req.1 ≤? num 0))
        (same e q env.price pf)
        (either_by (λ (r : Portfolio R × R). Balanced pf r.0) (plan.1 ≤? num 0) (λ _. planned)
          (λ k.
            let s_pos = lt_of_not-le ordered (num 0) plan.1 k in
            then_balanced e q env.price pf plan.0 _ planned (
              at_price q env.price (mark e q) plan.0 _ hp (
                kept e q (mark e q) plan.0 _
                  (deploy-nav e q target _ req.0 req.1 plan.1 plan.0
                    (ap (λ b. book_value b q) (funding_plan-book target pf req.0 req.1) ∙ h)
                    (funded-value e q book env params skew plan.1 s_pos))
                  (ap net_income (set_book-cum target _ _))))))
