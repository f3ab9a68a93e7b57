-- ===== src/Model/Accounts/Close.antt =====
-- What `_close_book` of research/cadcad/allocator/model.py does to the portfolio's value.
use nvda_tranched_arc.Prelude.{
  Bool, true, false, not, ◌≡◌, ◌∙◌, sym, ap, arith, Bool-cases, inl, inr, if◌then◌else◌,
}
use nvda_tranched_arc.Number.{Number, ◌+◌, ◌*◌, ◌/◌, num, IsExact}
use nvda_tranched_arc.Number.Algebra.{ring, mul-one}
use nvda_tranched_arc.Lp.{
  Math, price_unit, usdg_unit, nvda_unit, position_value_usd, token_amounts, amounts_for_l,
}
use nvda_tranched_arc.Allocator.{BookName, book_a, book_b}
use nvda_tranched_arc.Model.{Book, Portfolio}
use nvda_tranched_arc.Model.Books.{book_value, book_tokens, has_base, has_guard}
use nvda_tranched_arc.Model.Accounts.{portfolio_nav, close_book, arm_equity}

module _ {A : Type 0} where
  pub pick_else : (b : Bool) (x y : A) → b ≡ true → (if not b then x else y) ≡ y
  pick_else b x y h = ap (λ c. if not c then x else y) h

  pub pick_then : (b : Bool) (x y : A) → b ≡ false → (if not b then x else y) ≡ x
  pick_then b x y h = ap (λ c. if not c then x else y) h

module _ {R : Type 0} ⦃n : Number R⦄ ⦃m : Math R⦄ (e : IsExact R) (q : R) where
  open e use {ordered, div-eq-mul, mul-inv, num-mul, one-mul}
  open e.ordered use {num-lt}

  -- The price of the one mark convention.
  abbrev pub mark : R
  mark = price_unit / (q * q)

  abbrev unit_inverse : R
  unit_inverse = num 1 / usdg_unit

  regroup : (a u p v : R) → a * (u * p * v) ≡ u * a * (v * p)
  regroup a u p v = simp (ring, e)

  -- One whole NVDA token is a unit of USDG times the price's unit.
  unit_ratio : unit_inverse ≡ num 1 / nvda_unit * price_unit
  unit_ratio =
      sym (mul-one e unit_inverse)
      ∙ ap (λ t. unit_inverse * t) (sym (mul-inv nvda_unit (num-lt 0 _ (omega arith))))
      ∙ ap (λ t. unit_inverse * (t * (num 1 / nvda_unit))) (num-mul 1_000_000 1_000_000_000_000)
      ∙ regroup unit_inverse usdg_unit price_unit (num 1 / nvda_unit)
      ∙ ap (λ t. t * (num 1 / nvda_unit * price_unit))
          (mul-inv usdg_unit (num-lt 0 _ (omega arith)))
      ∙ one-mul (num 1 / nvda_unit * price_unit)

  marked : (x y u v p w : R) → u ≡ v * p → (x + y * w) * u ≡ x * u + y * v * (p * w)
  marked x y u v p w h = rw h (simp (ring, e))

  pub position-marked :
      (l lo hi : R)
      → let t = token_amounts l q lo hi in position_value_usd l q lo hi ≡ t.0 + t.1 * mark
  unfolding position_value_usd token_amounts
  position-marked l lo hi =
      let x = (amounts_for_l l q lo hi).0 in
      let y = (amounts_for_l l q lo hi).1 in
      rw
        (
          div-eq-mul y (q * q),
          div-eq-mul (x + y * (num 1 / (q * q))) usdg_unit,
          div-eq-mul x usdg_unit,
          div-eq-mul y nvda_unit,
          div-eq-mul price_unit (q * q),
        )
        (marked x y unit_inverse (num 1 / nvda_unit) price_unit (num 1 / (q * q)) unit_ratio)

  sleeves : (f a b c d p : R) → f + (a + b * p) + (c + d * p) ≡ a + c + f + (b + d) * p
  sleeves f a b c d p = simp (ring, e)

  sleeve-marked :
      (b : Bool) (v : R) (t : R × R)
      → v ≡ t.0 + t.1 * mark
      → let t' = if b then t else (num 0, num 0) in (if b then v else num 0) ≡ t'.0 + t'.1 * mark
  sleeve-marked true v t h = h
  sleeve-marked false v t h = simp (ring, e)

  pub book-marked :
      (book : Book R)
      → book.deployed ≡ true
      → let t = book_tokens book q in book_value book q ≡ t.0 + book.fees + t.1 * mark
  unfolding book_value book_tokens
  book-marked book h =
      rw
        (
          h,
          sleeve-marked (has_base book) _ _ (position-marked book.base_l book.base_lo book.base_hi),
          sleeve-marked (has_guard book) _ _
              (position-marked book.guard_l book.guard_lo book.guard_hi),
        )
        (sleeves book.fees _ _ _ _ mark)

  moved_first :
      (i j p x y b c : R) → i + x + (j + y) * p + num 0 + b + c ≡ i + j * p + (x + y * p) + b + c
  moved_first i j p x y b c = simp (ring, e)

  moved_second :
      (i j p x y b c : R) → i + x + (j + y) * p + b + num 0 + c ≡ i + j * p + b + (x + y * p) + c
  moved_second i j p x y b c = simp (ring, e)

  -- Closing a book keeps the portfolio's value, where the price is the one that the square-root price
  -- stands for.
  pub close_book-nav :
      (index : BookName) (pf : Portfolio R)
      → portfolio_nav (close_book index q pf).0 q mark ≡ portfolio_nav pf q mark
  unfolding close_book portfolio_nav book_value
  close_book-nav book_a pf = elim (Bool-cases pf.first_book.deployed) [
    | inl h ↦
        let t = book_tokens pf.first_book q in
        let b = book_value pf.second_book q in
        let c = arm_equity pf.arm mark in
        ap (λ (r : Portfolio R × R). portfolio_nav r.0 q mark)
          (pick_else pf.first_book.deployed _ _ h)
        ∙ moved_first pf.idle_usdg pf.idle_nvda mark (t.0 + pf.first_book.fees) t.1 b c
        ∙ ap (λ v. pf.idle_usdg + pf.idle_nvda * mark + v + b + c)
            (sym (book-marked pf.first_book h))
    | inr h ↦
        ap (λ (r : Portfolio R × R). portfolio_nav r.0 q mark)
          (pick_then pf.first_book.deployed _ _ h)
  ]
  close_book-nav book_b pf = elim (Bool-cases pf.second_book.deployed) [
    | inl h ↦
        let t = book_tokens pf.second_book q in
        let b = book_value pf.first_book q in
        let c = arm_equity pf.arm mark in
        ap (λ (r : Portfolio R × R). portfolio_nav r.0 q mark)
          (pick_else pf.second_book.deployed _ _ h)
        ∙ moved_second pf.idle_usdg pf.idle_nvda mark (t.0 + pf.second_book.fees) t.1 b c
        ∙ ap (λ v. pf.idle_usdg + pf.idle_nvda * mark + b + v + c)
            (sym (book-marked pf.second_book h))
    | inr h ↦
        ap (λ (r : Portfolio R × R). portfolio_nav r.0 q mark)
          (pick_then pf.second_book.deployed _ _ h)
  ]
