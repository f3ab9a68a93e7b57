-- ===== src/Model/Income/Guards.antt =====
-- Pulling a guard and putting it back move value between the book and the idle tokens.
use nvda_tranched_arc.Prelude.{
  ℕ, Bool, true, false, not, ◌&&◌, ◌≡◌, refl, ◌∙◌, sym, ap, if◌then◌else◌, either, either_by,
}
use nvda_tranched_arc.Number.{Number, ◌+◌, ◌-◌, ◌*◌, ◌<◌, ◌<?◌, ◌≤?◌, num, IsExact}
use nvda_tranched_arc.Number.Algebra.{ring}
use nvda_tranched_arc.Number.Order.{lt_of_not-le}
use nvda_tranched_arc.Lp.{Math, token_amounts, position_value_usd}
use nvda_tranched_arc.Lp.Value.{position_value_usd-mul}
use nvda_tranched_arc.Allocator.{BookName, book_a, book_b}
use nvda_tranched_arc.Model.{Portfolio, Params, Env, Book, EventType, book_at, set_book}
use nvda_tranched_arc.Model.Books.{book_value, has_guard, base_value}
use nvda_tranched_arc.Model.Accounts.{portfolio_nav, arm_equity}
use nvda_tranched_arc.Model.Accounts.Close.{mark, position-marked}
use nvda_tranched_arc.Model.Funding.{swap_deficit, funding_scale}
use nvda_tranched_arc.Model.Ledger.{IsBalanced, kept, same, then_balanced, net_carry, net_income}
use nvda_tranched_arc.Model.Ledger.Swap.{swap_deficit-IsBalanced, swap_deficit-keeps}
use nvda_tranched_arc.Model.Income.{
  pull_guard, rearm_guard, add_event, without_guard, rearmed_book, target_guard,
}

module _ {R : Type 0} ⦃n : Number R⦄ ⦃m : Math R⦄ (e : IsExact R) (q : R) where
  open e use {ordered, mul_pos}

  abbrev price : R
  price = mark e q

  split_guard :
      (d g : Bool) (f x y : R)
      → d ≡ true
      → g ≡ true
      → (if not d then f else f + x + (if g then y else num 0))
        ≡ (if not d then f else f + x + num 0) + y
  split_guard true true f x y h k = simp (ring, e)
  split_guard true false f x y h k = cc k
  split_guard false g f x y h k = cc h

  -- A book is worth its guard on top of what it is worth without it.
  guard_part :
      (step : ℕ) (book : Book R)
      → book.deployed ≡ true
      → has_guard book ≡ true
      → book_value book q
        ≡ book_value (without_guard step book) q
          + position_value_usd book.guard_l q book.guard_lo book.guard_hi
  unfolding book_value
  guard_part step book h k =
      split_guard book.deployed (has_guard book) book.fees (base_value book q)
        (position_value_usd book.guard_l q book.guard_lo book.guard_hi) h k

  first_out :
      (i v p b c a x y : R)
      → i + x + (v + y) * p + b + c + a ≡ i + v * p + (b + (x + y * p)) + c + a
  first_out i v p b c a x y = simp (ring, e)

  second_out :
      (i v p b c a x y : R)
      → i + x + (v + y) * p + b + c + a ≡ i + v * p + b + (c + (x + y * p)) + a
  second_out i v p b c a x y = simp (ring, e)

  first_in :
      (i v p b c a x y : R)
      → i - x + (v - y) * p + (b + (x + y * p)) + c + a ≡ i + v * p + b + c + a
  first_in i v p b c a x y = simp (ring, e)

  second_in :
      (i v p b c a x y : R)
      → i - x + (v - y) * p + b + (c + (x + y * p)) + a ≡ i + v * p + b + c + a
  second_in i v p b c a x y = simp (ring, e)

  -- A book's value with a guard, by the tokens of the guard.
  with_tokens :
      (step : ℕ) (book : Book R)
      → book.deployed ≡ true
      → has_guard book ≡ true
      → let t = token_amounts book.guard_l q book.guard_lo book.guard_hi in
        book_value (without_guard step book) q + (t.0 + t.1 * price) ≡ book_value book q
  with_tokens step book h k =
      ap (λ z. book_value (without_guard step book) q + z)
        (sym (position-marked e q book.guard_l book.guard_lo book.guard_hi))
      ∙ sym (guard_part step book h k)

  pub pull_guard-IsBalanced :
      (name : BookName) (env : Env R) (step : ℕ) (fee_il : Bool) (pf : Portfolio R)
      → env.sqrt_p ≡ q
      → (book_at pf name).deployed ≡ true
      → has_guard (book_at pf name) ≡ true
      → IsBalanced q price pf (pull_guard name env step fee_il pf)
  unfolding pull_guard portfolio_nav net_carry
  pull_guard-IsBalanced book_a env step fee_il pf hq h k =
      let b = pf.first_book in
      let t = token_amounts b.guard_l q b.guard_lo b.guard_hi in
      rw hq (
        kept e q price pf _
          (first_out pf.idle_usdg pf.idle_nvda price (book_value (without_guard step b) q)
              (book_value pf.second_book q) (arm_equity pf.arm price) t.0 t.1
            ∙ ap
                (λ z.
                  pf.idle_usdg
                  + pf.idle_nvda * price
                  + z
                  + book_value pf.second_book q
                  + arm_equity pf.arm price)
                (with_tokens step b h k))
          refl)
  pull_guard-IsBalanced book_b env step fee_il pf hq h k =
      let b = pf.second_book in
      let t = token_amounts b.guard_l q b.guard_lo b.guard_hi in
      rw hq (
        kept e q price pf _
          (second_out pf.idle_usdg pf.idle_nvda price (book_value pf.first_book q)
              (book_value (without_guard step b) q) (arm_equity pf.arm price) t.0 t.1
            ∙ ap
                (λ z.
                  pf.idle_usdg
                  + pf.idle_nvda * price
                  + book_value pf.first_book q
                  + z
                  + arm_equity pf.arm price)
                (with_tokens step b h k))
          refl)

  scaled_value : (s u x y p : R) → u ≡ x + y * p → s * u ≡ x * s + y * s * p
  scaled_value s u x y p h = rw h (simp (ring, e))

  times_unit : (t s u : R) → t * s * u ≡ s * (t * u)
  times_unit t s u = simp (ring, e)

  -- A position of scaled liquidity is worth the scaled tokens.
  pub position-scaled :
      (l s lo hi : R)
      → num 0 < l
      → num 0 < s
      → let t = token_amounts l q lo hi in
        position_value_usd (l * s) q lo hi ≡ t.0 * s + t.1 * s * price
  position-scaled l s lo hi hl hs =
      let t = token_amounts l q lo hi in
      position_value_usd-mul e (l * s) q lo hi (mul_pos l s hl hs)
      ∙ times_unit l s (position_value_usd (num 1) q lo hi)
      ∙ ap (λ z. s * z) (sym (position_value_usd-mul e l q lo hi hl))
      ∙ scaled_value s (position_value_usd l q lo hi) t.0 t.1 price (position-marked e q l lo hi)

  add_guard :
      (d g g' : Bool) (f x y z : R)
      → d ≡ true
      → g ≡ false
      → g' ≡ true
      → (if not d then f else f + x + (if g' then y else num 0))
        ≡ (if not d then f else f + x + (if g then z else num 0)) + y
  add_guard true true g' f x y z h k l = cc k
  add_guard true false true f x y z h k l = simp (ring, e)
  add_guard true false false f x y z h k l = cc l
  add_guard false g g' f x y z h k l = cc h

  -- A book is worth more by the guard that it gets.
  armed-value :
      (b : Book R) (env : Env R) (params : Params R) (l s : R)
      → env.sqrt_p ≡ q
      → b.deployed ≡ true
      → b.guard_present ≡ false
      → num 0 < l
      → num 0 < s
      → let t =
          token_amounts l q
            (env.tick - params.guard_width_ticks)
            (env.tick + params.guard_width_ticks) in
        book_value (rearmed_book b env params (l * s)) q
        ≡ book_value b q + (t.0 * s + t.1 * s * price)
  unfolding book_value
  armed-value b env params l s hq hd hg hl hs =
      add_guard b.deployed (has_guard b) (num 0 <? l * s) b.fees (base_value b q) _
        (position_value_usd b.guard_l q b.guard_lo b.guard_hi) hd
        (ap (λ g. g && (num 0 <? b.guard_l)) hg) (mul_pos l s hl hs)
      ∙ ap (λ z. book_value b q + z)
          (position-scaled l s (env.tick - params.guard_width_ticks)
            (env.tick + params.guard_width_ticks) hl hs)

  -- The portfolio with a guard put into a book.
  abbrev put_guard : BookName → Env R → Params R → (l s : R) → R × R → Portfolio R → Portfolio R
  put_guard name env params l s t pf =
      set_book name (rearmed_book (book_at pf name) env params (l * s))
        (record pf { idle_usdg = pf.idle_usdg - t.0 * s; idle_nvda = pf.idle_nvda - t.1 * s })

  put_guard-nav :
      (name : BookName) (env : Env R) (params : Params R) (l s : R) (pf : Portfolio R)
      → env.sqrt_p ≡ q
      → (book_at pf name).deployed ≡ true
      → (book_at pf name).guard_present ≡ false
      → num 0 < l
      → num 0 < s
      → let t =
          token_amounts l q
            (env.tick - params.guard_width_ticks)
            (env.tick + params.guard_width_ticks) in
        portfolio_nav (put_guard name env params l s t pf) q price ≡ portfolio_nav pf q price
  unfolding portfolio_nav
  put_guard-nav book_a env params l s pf hq hd hg hl hs =
      let t =
        token_amounts l q (env.tick - params.guard_width_ticks)
          (env.tick + params.guard_width_ticks) in
      ap
        (λ z.
          pf.idle_usdg
          - t.0 * s
          + (pf.idle_nvda - t.1 * s) * price
          + z
          + book_value pf.second_book q
          + arm_equity pf.arm price)
        (armed-value pf.first_book env params l s hq hd hg hl hs)
      ∙ first_in pf.idle_usdg pf.idle_nvda price _ _ _ (t.0 * s) (t.1 * s)
  put_guard-nav book_b env params l s pf hq hd hg hl hs =
      let t =
        token_amounts l q (env.tick - params.guard_width_ticks)
          (env.tick + params.guard_width_ticks) in
      ap
        (λ z.
          pf.idle_usdg
          - t.0 * s
          + (pf.idle_nvda - t.1 * s) * price
          + book_value pf.first_book q
          + z
          + arm_equity pf.arm price)
        (armed-value pf.second_book env params l s hq hd hg hl hs)
      ∙ second_in pf.idle_usdg pf.idle_nvda price _ _ _ (t.0 * s) (t.1 * s)

-- An event changes neither the value nor the carry.
pub with_event :
    {R : Type 0} ⦃n : Number R⦄ ⦃m : Math R⦄ (e : IsExact R) (q p : R) (step : ℕ)
    (type : EventType R) (pf after : Portfolio R)
    → IsBalanced q p pf after
    → IsBalanced q p pf (add_event step type after)
unfolding portfolio_nav
with_event e q p step type pf after h = record {
  change = h.change;
  of_nav = h.of_nav;
  of_carry = h.of_carry;
}

-- A balance at the price that a portfolio is marked at.
pub at_price :
    {R : Type 0} ⦃n : Number R⦄ ⦃m : Math R⦄ (q p k : R) (pf after : Portfolio R)
    → p ≡ k
    → IsBalanced q k pf after
    → IsBalanced q p pf after
at_price q p k pf after h b = rw h b

-- What a swap leaves of a book.
pub ready-book :
    {R : Type 0} (name : BookName) (pf after : Portfolio R)
    → (after.first_book ≡ pf.first_book) × (after.second_book ≡ pf.second_book)
    → book_at after name ≡ book_at pf name
ready-book book_a pf after h = h.0
ready-book book_b pf after h = h.1

pub set_book-cum :
    {R : Type 0} (name : BookName) (b : Book R) (pf : Portfolio R)
    → (set_book name b pf).cum ≡ pf.cum
set_book-cum book_a b pf = refl
set_book-cum book_b b pf = refl

module _ {R : Type 0} ⦃n : Number R⦄ ⦃m : Math R⦄ (e : IsExact R) (name : BookName) (env : Env R)
    (params : Params R) (step : ℕ) (pf : Portfolio R) where
  open e use {ordered}

  abbrev marked : R
  marked = mark e env.sqrt_p

  abbrev target : R
  target = target_guard (book_at pf name)

  abbrev tokens : R × R
  tokens =
      token_amounts target env.sqrt_p (env.tick - params.guard_width_ticks)
        (env.tick + params.guard_width_ticks)

  abbrev swapped : Portfolio R
  swapped = (swap_deficit pf tokens.0 tokens.1 env.price params.swap_cost_bps).0

  abbrev ready : Portfolio R
  ready = if params.funding_mode_swap then swapped else pf

  pub ready-keeps :
      (ready.arm ≡ pf.arm)
      × (ready.first_book ≡ pf.first_book)
      × (ready.second_book ≡ pf.second_book)
  ready-keeps =
      either
        (λ (r : Portfolio R).
          (r.arm ≡ pf.arm) × (r.first_book ≡ pf.first_book) × (r.second_book ≡ pf.second_book))
        params.funding_mode_swap
        (swap_deficit-keeps pf tokens.0 tokens.1 env.price params.swap_cost_bps) (refl, refl, refl)

  module _ (hp : env.price ≡ marked) (pos : num 0 < env.price)
      (hd : (book_at pf name).deployed ≡ true) (hg : (book_at pf name).guard_present ≡ false)
      (hl : num 0 < target) where
    ready-IsBalanced : IsBalanced env.sqrt_p env.price pf ready
    ready-IsBalanced =
        either (λ r. IsBalanced env.sqrt_p env.price pf r) params.funding_mode_swap
          (swap_deficit-IsBalanced e env.sqrt_p env.price pos pf tokens.0 tokens.1
            params.swap_cost_bps)
          (same e env.sqrt_p env.price pf)

    put-IsBalanced :
        (s : R)
        → num 0 < s
        → IsBalanced env.sqrt_p env.price ready
            (put_guard e env.sqrt_p name env params target s tokens ready)
    put-IsBalanced s hs =
        let b : book_at ready name ≡ book_at pf name =
          ready-book name pf ready (ready-keeps.1, ready-keeps.2) in
        let d = ap (λ (x : Book R). x.deployed) b ∙ hd in
        let g = ap (λ (x : Book R). x.guard_present) b ∙ hg in
        at_price env.sqrt_p env.price marked ready _ hp (
          kept e env.sqrt_p marked ready _
            (put_guard-nav e env.sqrt_p name env params target s ready refl d g hl hs)
            (ap net_income (set_book-cum name _ _)))

    pub rearm_guard-IsBalanced :
        IsBalanced env.sqrt_p env.price pf (rearm_guard name env params step pf)
    unfolding rearm_guard
    rearm_guard-IsBalanced =
        let scale = funding_scale (num 1) ready.idle_usdg ready.idle_nvda tokens.0 tokens.1 in
        either_by (λ r. IsBalanced env.sqrt_p env.price pf r) (scale ≤? num 0)
          (λ _. ready-IsBalanced)
          (λ h.
            let p = put-IsBalanced scale (lt_of_not-le ordered (num 0) scale h) in
            with_event e env.sqrt_p env.price step _ pf _
              (then_balanced e env.sqrt_p env.price pf ready _ ready-IsBalanced p))
