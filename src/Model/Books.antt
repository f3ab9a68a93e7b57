-- ===== src/Model/Books.antt =====
-- Book accounting of research/cadcad/allocator/model.py, on one book.
use nvda_tranched_arc.Prelude.{Bool, true, false, not, ◌&&◌, ◌||◌, if◌then◌else◌}
use nvda_tranched_arc.Number.{Number, ◌+◌, ◌≤◌, ◌<◌, ◌<?◌, ◌≤?◌, num, ◌*◌, IsOrdered}
use nvda_tranched_arc.Lp.{Math, position_value_usd, token_amounts}
use nvda_tranched_arc.Lp.Amounts.{IsPositive, token_amounts_nonneg, BothNonneg}
use nvda_tranched_arc.Model.{Book}

module _ {R : Type 0} ⦃n : Number R⦄ where
  abbrev pub has_base : Book R → Bool
  has_base book = num 0 <? book.base_l

  abbrev pub has_guard : Book R → Bool
  has_guard book = book.guard_present && (num 0 <? book.guard_l)

  unfoldable pub book_has_positions : Book R → Bool
  book_has_positions book = book.deployed && (has_base book || has_guard book)

  -- The liquidity that is in range at a tick.
  unfoldable pub book_active_l : Book R → R → R
  book_active_l book tick =
      let base =
        if has_base book && ((book.base_lo ≤? tick) && (tick <? book.base_hi))
        then book.base_l
        else num 0 in
      let guard =
        if has_guard book && ((book.guard_lo ≤? tick) && (tick <? book.guard_hi))
        then book.guard_l
        else num 0 in
      if not book.deployed then num 0 else base + guard

module _ {R : Type 0} ⦃n : Number R⦄ ⦃m : Math R⦄ where
  abbrev pub base_value : Book R → R → R
  base_value book sqrt_p =
      if has_base book
      then position_value_usd book.base_l sqrt_p book.base_lo book.base_hi
      else num 0

  abbrev pub guard_value : Book R → R → R
  guard_value book sqrt_p =
      if has_guard book
      then position_value_usd book.guard_l sqrt_p book.guard_lo book.guard_hi
      else num 0

  unfoldable pub book_value : Book R → R → R
  book_value book sqrt_p =
      if not book.deployed
      then book.fees
      else book.fees + base_value book sqrt_p + guard_value book sqrt_p

  abbrev pub base_tokens : Book R → R → R × R
  base_tokens book sqrt_p =
      if has_base book
      then token_amounts book.base_l sqrt_p book.base_lo book.base_hi
      else (num 0, num 0)

  abbrev pub guard_tokens : Book R → R → R × R
  guard_tokens book sqrt_p =
      if has_guard book
      then token_amounts book.guard_l sqrt_p book.guard_lo book.guard_hi
      else (num 0, num 0)

  unfoldable pub book_tokens : Book R → R → R × R
  book_tokens book sqrt_p =
      let base = base_tokens book sqrt_p in
      let guard = guard_tokens book sqrt_p in
      if not book.deployed then (num 0, num 0) else (base.0 + guard.0, base.1 + guard.1)

module _ {R : Type 0} ⦃n : Number R⦄ ⦃m : Math R⦄ (o : IsOrdered R) (p : IsPositive R) where
  open o use {le_refl, add_nonneg}

  pair_nonneg : (b : Bool) (x : R × R) → BothNonneg x → BothNonneg (if b then x else (num 0, num 0))
  pair_nonneg true x h = h
  pair_nonneg false x h = (le_refl (num 0), le_refl (num 0))

  value_nonneg : (b : Bool) (x : R) → num 0 ≤ x → num 0 ≤ (if b then x else num 0)
  value_nonneg true x h = h
  value_nonneg false x h = le_refl (num 0)

  both_or_none :
      (b : Bool) (x : R × R) → BothNonneg x → BothNonneg (if not b then (num 0, num 0) else x)
  both_or_none true x h = h
  both_or_none false x h = (le_refl (num 0), le_refl (num 0))

  fees_or_all : (b : Bool) (f x : R) → num 0 ≤ f → num 0 ≤ x → num 0 ≤ (if not b then f else x)
  fees_or_all true f x hf hx = hx
  fees_or_all false f x hf hx = hf

  -- The tokens of a book are not negative, and neither is its value where its fees are not, at a
  -- price whose square is a positive number.
  pub book_tokens_nonneg :
      (book : Book R) (sqrt_p : R)
      → num 0 < sqrt_p * sqrt_p
      → num 0 ≤ book.fees
      → BothNonneg (book_tokens book sqrt_p) × (num 0 ≤ book_value book sqrt_p)
  unfolding book_tokens book_value
  book_tokens_nonneg book sqrt_p hq hf =
      let (b, bv) = token_amounts_nonneg o p book.base_l sqrt_p book.base_lo book.base_hi hq in
      let (g, gv) = token_amounts_nonneg o p book.guard_l sqrt_p book.guard_lo book.guard_hi hq in
      let base = pair_nonneg (has_base book) _ b in
      let guard = pair_nonneg (has_guard book) _ g in
      let base_v = value_nonneg (has_base book) _ bv in
      let guard_v = value_nonneg (has_guard book) _ gv in
      let b_sum = add_nonneg book.fees (base_value book sqrt_p) hf base_v in
      (
        both_or_none book.deployed _ (add_nonneg _ _ base.0 guard.0, add_nonneg _ _ base.1 guard.1),
        fees_or_all book.deployed book.fees _ hf (add_nonneg _ _ b_sum guard_v),
      )
