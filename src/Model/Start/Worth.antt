-- ===== src/Model/Start/Worth.antt =====
-- What the portfolio of `build_initial_state` of research/cadcad/allocator/model.py is worth.
use nvda_tranched_arc.Prelude.{Bool, true, false, ◌≡◌, refl, ◌∙◌, sym, ap, if◌then◌else◌, arith}
use nvda_tranched_arc.Number.{Number, ◌+◌, ◌-◌, ◌*◌, ◌<◌, num, max, IsExact}
use nvda_tranched_arc.Number.Order.{min-le_right}
use nvda_tranched_arc.Number.Algebra.{ring, max_keeps, div_pos}
use nvda_tranched_arc.Lp.{Math, position_value_usd, liquidity_for_value}
use nvda_tranched_arc.Lp.Value.{position_value_usd-liquidity_for_value}
use nvda_tranched_arc.Allocator.{BookName, book_a, book_b}
use nvda_tranched_arc.Model.{Params, ScenarioRow}
use nvda_tranched_arc.Model.Books.{book_value, book_tokens}
use nvda_tranched_arc.Model.Accounts.{portfolio_nav}
use nvda_tranched_arc.Model.Accounts.Close.{mark, book-marked}
use nvda_tranched_arc.Model.Start.{
  book_template, at_target, start_capital, start_template, initial_portfolio, opening, start_book,
  starts_idle,
}

module _ {R : Type 0} ⦃n : Number R⦄ ⦃m : Math R⦄ (e : IsExact R) where
  open e use {ordered, mul_pos}
  open e.ordered use {sub_nonneg}

  -- Where one unit of liquidity is worth something, a positive value needs some liquidity.
  liquidity_for_value_pos :
      (v q lo hi : R)
      → num 0 < v
      → num 0 < position_value_usd (num 1) q lo hi
      → num 0 < liquidity_for_value v q lo hi
  unfolding liquidity_for_value
  liquidity_for_value_pos v q lo hi hv hp =
      ground (arith, div_pos e v (position_value_usd (num 1) q lo hi) hv hp)

  both_counted :
      (a b : Bool) (x y f : R)
      → a ≡ true
      → b ≡ true
      → f + (if a then x else num 0) + (if b then y else num 0) ≡ f + x + y
  both_counted a b x y f h k = rw (h, k) refl

  split_capital : (c s : R) → num 0 + c * (num 1 - s) + c * s ≡ c
  split_capital c s = simp (ring, e)

  idle_sum :
      (x y f d p c i : R)
      → x + f + y * p ≡ c
      → d ≡ i - c
      → f ≡ num 0
      → x + d + y * p + num 0 + num 0 + (num 0 * p + num 0 - num 0 - num 0) ≡ i
  idle_sum x y f d p c i h k l = rw (k, ← h, l) (simp (ring, e))

  first_sum :
      (d p c i : R)
      → d ≡ i - c
      → d + num 0 * p + c + num 0 + (num 0 * p + num 0 - num 0 - num 0) ≡ i
  first_sum d p c i k = rw k (simp (ring, e))

  second_sum :
      (d p c i : R)
      → d ≡ i - c
      → d + num 0 * p + num 0 + c + (num 0 * p + num 0 - num 0 - num 0) ≡ i
  second_sum d p c i k = rw k (simp (ring, e))

  module _ (params : Params R) (row : ScenarioRow R) (hc : num 0 < start_capital params)
      (hs : num 0 < params.guard_share) (ht : num 0 < num 1 - params.guard_share)
      (hb : num 0
        < position_value_usd
            (num 1)
            row.sqrt_p
            (row.tick - params.base_width_ticks)
            (row.tick + params.base_width_ticks))
      (hg : num 0
        < position_value_usd
            (num 1)
            row.sqrt_p
            (row.tick - params.guard_width_ticks)
            (row.tick + params.guard_width_ticks)) where
    abbrev capital : R
    capital = start_capital params

    abbrev base_capital : R
    base_capital = capital * (num 1 - params.guard_share)

    abbrev guard_capital : R
    guard_capital = capital * params.guard_share

    target-value : book_value (at_target (start_template params row)) row.sqrt_p ≡ capital
    unfolding book_value book_template
    target-value =
        let base_pos = mul_pos capital (num 1 - params.guard_share) hc ht in
        let guard_pos = mul_pos capital params.guard_share hc hs in
        both_counted _ _ _ _ (num 0)
          (liquidity_for_value_pos base_capital row.sqrt_p _ _ base_pos hb)
          (liquidity_for_value_pos guard_capital row.sqrt_p _ _ guard_pos hg)
        ∙ ap
            (λ z.
              num 0
              + z
              + position_value_usd
                  (liquidity_for_value guard_capital row.sqrt_p
                    (row.tick - params.guard_width_ticks) (row.tick + params.guard_width_ticks))
                  row.sqrt_p (row.tick - params.guard_width_ticks)
                  (row.tick + params.guard_width_ticks))
            (position_value_usd-liquidity_for_value e base_capital row.sqrt_p _ _ base_pos hb)
        ∙ ap (λ z. num 0 + base_capital + z)
            (position_value_usd-liquidity_for_value e guard_capital row.sqrt_p _ _ guard_pos hg)
        ∙ split_capital capital params.guard_share

    held-value :
        let t = book_tokens (at_target (start_template params row)) row.sqrt_p in
        t.0 + num 0 + t.1 * mark e row.sqrt_p ≡ capital
    unfolding book_template
    held-value =
        sym (book-marked e row.sqrt_p (at_target (start_template params row)) refl) ∙ target-value

    abbrev rest : R
    rest = max (num 0) (params.initial_nav_usd - capital)

    rest_kept : rest ≡ params.initial_nav_usd - capital
    rest_kept = max_keeps e (params.initial_nav_usd - capital) (
        sub_nonneg params.initial_nav_usd capital
          (min-le_right ordered params.book_capital_usd params.initial_nav_usd))

    abbrev p : R
    p = mark e row.sqrt_p

    opening-nav :
        (idle : Bool) (active : BookName)
        → portfolio_nav (opening idle active params row) row.sqrt_p p ≡ params.initial_nav_usd
    unfolding opening portfolio_nav book_value book_template
    opening-nav true active =
        let t = book_tokens (at_target (start_template params row)) row.sqrt_p in
        idle_sum t.0 t.1 (num 0) rest p capital params.initial_nav_usd held-value rest_kept refl
    opening-nav false book_a =
        ap (λ z. rest + num 0 * p + z + num 0 + (num 0 * p + num 0 - num 0 - num 0)) target-value
        ∙ first_sum rest p capital params.initial_nav_usd rest_kept
    opening-nav false book_b =
        ap (λ z. rest + num 0 * p + num 0 + z + (num 0 * p + num 0 - num 0 - num 0)) target-value
        ∙ second_sum rest p capital params.initial_nav_usd rest_kept

    -- Whatever the policy, a run starts with the initial value: the book's capital at the price that
    -- the square root price stands for, with the rest in quote. The capital and both its shares are
    -- positive, and one unit of liquidity is worth something in either range.
    pub initial_portfolio-nav :
        portfolio_nav (initial_portfolio params row) row.sqrt_p (mark e row.sqrt_p)
        ≡ params.initial_nav_usd
    unfolding initial_portfolio
    initial_portfolio-nav = opening-nav (starts_idle params.policy) (start_book params)
