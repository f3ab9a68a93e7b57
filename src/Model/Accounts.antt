-- ===== src/Model/Accounts.antt =====
-- Portfolio accounting of research/cadcad/allocator/model.py: value, mode, caps, gas and the close
-- of a book.
pub mod Close
use nvda_tranched_arc.Prelude.{false, not, ◌&&◌, ◌||◌, none, if◌then◌else◌}
use nvda_tranched_arc.Number.{Number, ◌+◌, ◌-◌, ◌*◌, ◌/◌, ◌<?◌, ◌≤?◌, num, min, max}
use nvda_tranched_arc.Lp.{Math, price_unit}
use nvda_tranched_arc.Allocator.{BookName, Mode, books, arms}
use nvda_tranched_arc.Model.{Book, Arm, Portfolio, Params, book_at, set_book}
use nvda_tranched_arc.Model.Books.{book_value, book_tokens}

module _ {R : Type 0} ⦃n : Number R⦄ where
  -- 1.0 USD and 0.001 NVDA
  abbrev pub dust_usd : R
  dust_usd = num 1

  abbrev pub dust_nvda : R
  dust_nvda = num 1 / num 1_000

  abbrev pub arm_equity : Arm R → R → R
  arm_equity arm price = arm.nvda * price + arm.usdg_lent - arm.debt - arm.bad_debt

  -- `_mode`
  unfoldable pub mode_of : Portfolio R → Mode
  mode_of pf =
      let arm = pf.arm in
      if (num 0 <? arm.nvda)
        || ((num 0 <? arm.debt) || ((num 0 <? arm.usdg_lent) || (num 0 <? arm.bad_debt)))
      then arms
      else books

  -- The gas that is left to pay after a pocket, and what the pocket keeps. An empty pocket is
  -- skipped.
  abbrev pub pay_from : (pocket remaining : R) → R × R
  pay_from pocket remaining =
      let take = min remaining pocket in
      if (num 0 <? remaining) && (num 0 <? pocket)
      then (pocket - take, remaining - take)
      else (pocket, remaining)

  -- As `pay_from`, for the books' fees: the loop does not test what remains.
  abbrev pub pay_from_fees : (fees remaining : R) → R × R
  pay_from_fees fees remaining =
      let take = min remaining fees in
      if num 0 <? fees then (fees - take, remaining - take) else (fees, remaining)

  unfoldable pub pay_gas : R → Portfolio R → Portfolio R
  pay_gas gas pf =
      let idle = pay_from pf.idle_usdg gas in
      let lent = pay_from pf.arm.usdg_lent idle.1 in
      let first = pay_from_fees pf.first_book.fees lent.1 in
      let second = pay_from_fees pf.second_book.fees first.1 in
      let from_fees = num 0 <? lent.1 in
      let remaining = if from_fees then second.1 else lent.1 in
      if gas ≤? num 0 then pf else record pf {
        idle_usdg = idle.0;
        arm = record (pf.arm) { usdg_lent = lent.0 };
        first_book = record (pf.first_book) {
          fees = if from_fees then first.0 else pf.first_book.fees;
        };
        second_book = record (pf.second_book) {
          fees = if from_fees then second.0 else pf.second_book.fees;
        };
        cum = record (pf.cum) { gas = pf.cum.gas + (gas - max (num 0) remaining) };
      }

module _ {R : Type 0} ⦃n : Number R⦄ ⦃m : Math R⦄ where
  unfoldable pub portfolio_nav : Portfolio R → (sqrt_p price : R) → R
  portfolio_nav pf sqrt_p price =
      pf.idle_usdg
      + pf.idle_nvda * price
      + book_value pf.first_book sqrt_p
      + book_value pf.second_book sqrt_p
      + arm_equity pf.arm price

  -- `_arm_caps`: the collateral cap and the lend cap, in USD.
  unfoldable pub arm_caps : Portfolio R → Params R → (sqrt_p price : R) → R × R
  arm_caps pf params sqrt_p price =
      let nav = portfolio_nav pf sqrt_p price in
      let collateral_cap = min params.arm_abs_cap_usd (params.arm_rel_cap_bps * nav / num 10_000) in
      let lend_cap =
        min params.usdg_lend_abs_cap_usd (params.usdg_lend_rel_cap_bps * nav / num 10_000) in
      (max (num 0) collateral_cap, max (num 0) lend_cap)

  abbrev pub emptied : Book R → Book R
  emptied book = record book {
    deployed = false;
    base_l = num 0;
    guard_l = num 0;
    guard_present = false;
    fees = num 0;
    last_pull_step = none;
  }

  -- `_close_book`: the portfolio with the book's tokens and fees idle, and what was realized.
  unfoldable pub close_book : BookName → R → Portfolio R → Portfolio R × R
  close_book index sqrt_p pf =
      let book = book_at pf index in
      let tokens = book_tokens book sqrt_p in
      let closed = record pf {
        idle_usdg = pf.idle_usdg + (tokens.0 + book.fees);
        idle_nvda = pf.idle_nvda + tokens.1;
      } in
      if not book.deployed then (pf, num 0) else (
        set_book index (emptied book) closed,
        tokens.0 + book.fees + tokens.1 * (price_unit / (sqrt_p * sqrt_p)),
      )
