-- ===== src/Model/Income/Kept.antt =====
-- What an hour of `s_portfolio_income` of research/cadcad/allocator/model.py leaves of the books.
use nvda_tranched_arc.Prelude.{
  ℕ, Bool, true, false, not, ◌&&◌, ◌≡◌, refl, ◌∙◌, Option, none, List, [], if◌then◌else◌, either,
  either_by, not-false, subst⁻¹,
}
use nvda_tranched_arc.Number.{Number, ◌+◌, ◌-◌, ◌*◌, ◌<?◌, ◌≤?◌, num}
use nvda_tranched_arc.Lp.{Math, token_amounts}
use nvda_tranched_arc.Allocator.{BookName, book_a, book_b}
use nvda_tranched_arc.Model.{
  Portfolio, Params, Env, Book, Event, EventType, ScenarioRow, row_of, book_at, set_book,
}
use nvda_tranched_arc.Model.Books.{has_guard}
use nvda_tranched_arc.Model.Accounts.{dust_usd}
use nvda_tranched_arc.Model.Decision.{is_some}
use nvda_tranched_arc.Model.Fees.{FeeSplit, book_fee_for_hour}
use nvda_tranched_arc.Model.Funding.{swap_deficit, funding_scale}
use nvda_tranched_arc.Model.Ledger.Swap.{swap_deficit-keeps}
use nvda_tranched_arc.Model.Liquidate.{liquidate, health_factor}
use nvda_tranched_arc.Model.Income.{
  accrue, pull_guard, rearm_guard, arm_interest, pull_step, rearm_step, book_income,
  portfolio_income, rearm_due, target_guard, rearmed_book, pips_of, add_event, fee_il_pull,
  pull_bin, rearm_signal_ok,
}

-- The base of a book is as it was, and so are the fees of a book that is not deployed.
pub record IsKept {R : Type 0} (b after : Book R) : Type 0 where
  pub deployed : after.deployed ≡ b.deployed
  pub base_l : after.base_l ≡ b.base_l
  pub fees : b.deployed ≡ false → after.fees ≡ b.fees

-- Both books are kept.
abbrev pub AreKept : {R : Type 0} → Portfolio R → Portfolio R → Type 0
AreKept pf after = IsKept pf.first_book after.first_book × IsKept pf.second_book after.second_book

not_both : (b : Bool) → b ≡ true → b ≡ false → ⊥
not_both b h k = cc (h, k)

module _ {R : Type 0} where
  IsKept-self : (b : Book R) → IsKept b b
  IsKept-self b = record { deployed = refl; base_l = refl; fees = λ h. refl }

  IsKept-then : (a b c : Book R) → IsKept a b → IsKept b c → IsKept a c
  IsKept-then a b c h k = record {
    deployed = k.deployed ∙ h.deployed;
    base_l = k.base_l ∙ h.base_l;
    fees = λ d. k.fees (h.deployed ∙ d) ∙ h.fees d;
  }

  pub same-AreKept : (pf : Portfolio R) → AreKept pf pf
  same-AreKept pf = (IsKept-self pf.first_book, IsKept-self pf.second_book)

  pub then-AreKept : (a b c : Portfolio R) → AreKept a b → AreKept b c → AreKept a c
  then-AreKept a b c h k = (
    IsKept-then a.first_book b.first_book c.first_book h.0 k.0,
    IsKept-then a.second_book b.second_book c.second_book h.1 k.1,
  )

  -- A deployed book with its base keeps what has to be kept.
  deployed-IsKept :
      (b after : Book R)
      → b.deployed ≡ true
      → after.deployed ≡ b.deployed
      → after.base_l ≡ b.base_l
      → IsKept b after
  deployed-IsKept b after h d l = record {
    deployed = d;
    base_l = l;
    fees = λ k. absurd (not_both b.deployed h k);
  }

  same_books :
      (pf after : Portfolio R)
      → after.first_book ≡ pf.first_book
      → after.second_book ≡ pf.second_book
      → AreKept pf after
  same_books pf after h k = (
    subst⁻¹ (λ b. IsKept pf.first_book b) h (IsKept-self pf.first_book),
    subst⁻¹ (λ b. IsKept pf.second_book b) k (IsKept-self pf.second_book),
  )

module _ {R : Type 0} ⦃n : Number R⦄ ⦃m : Math R⦄ (params : Params R) (env : Env R)
    (scenario : List (ScenarioRow R)) (step : ℕ) where
  pull_guard-deployed :
      (name : BookName) (fee_il : Bool) (pf : Portfolio R)
      → (book_at (pull_guard name env step fee_il pf) name).deployed ≡ (book_at pf name).deployed
  unfolding pull_guard
  pull_guard-deployed book_a fee_il pf = refl
  pull_guard-deployed book_b fee_il pf = refl

  accrue-deployed :
      (name : BookName) (fees : FeeSplit R) (pf : Portfolio R)
      → (book_at (accrue name fees pf) name).deployed ≡ (book_at pf name).deployed
  unfolding accrue
  accrue-deployed book_a fees pf = refl
  accrue-deployed book_b fees pf = refl

  pub pull_step-deployed :
      (name : BookName) (bin : Option ℕ) (pf : Portfolio R)
      → (book_at (pull_step params env scenario step name bin pf) name).deployed
        ≡ (book_at pf name).deployed
  pull_step-deployed name bin pf =
      accrue-deployed name _ _
      ∙ either (λ (r : Portfolio R). (book_at r name).deployed ≡ (book_at pf name).deployed)
          (is_some bin && has_guard (book_at pf name)) (pull_guard-deployed name _ pf) refl

  accrue-AreKept :
      (name : BookName) (fees : FeeSplit R) (pf : Portfolio R)
      → (book_at pf name).deployed ≡ true
      → AreKept pf (accrue name fees pf)
  unfolding accrue
  accrue-AreKept book_a fees pf h =
      (deployed-IsKept pf.first_book _ h refl refl, IsKept-self pf.second_book)
  accrue-AreKept book_b fees pf h =
      (IsKept-self pf.first_book, deployed-IsKept pf.second_book _ h refl refl)

  pull_guard-AreKept :
      (name : BookName) (fee_il : Bool) (pf : Portfolio R)
      → (book_at pf name).deployed ≡ true
      → AreKept pf (pull_guard name env step fee_il pf)
  unfolding pull_guard
  pull_guard-AreKept book_a fee_il pf h =
      (deployed-IsKept pf.first_book _ h refl refl, IsKept-self pf.second_book)
  pull_guard-AreKept book_b fee_il pf h =
      (IsKept-self pf.first_book, deployed-IsKept pf.second_book _ h refl refl)

  pull_step-AreKept :
      (name : BookName) (bin : Option ℕ) (pf : Portfolio R)
      → (book_at pf name).deployed ≡ true
      → AreKept pf (pull_step params env scenario step name bin pf)
  pull_step-AreKept name bin pf h =
      let b = is_some bin && has_guard (book_at pf name) in
      let after =
        if b
        then pull_guard name env step (fee_il_pull params env scenario step name (book_at pf name))
            pf
        else pf in
      let kept =
        either (λ (r : Portfolio R). AreKept pf r) b (pull_guard-AreKept name _ pf h)
          (same-AreKept pf) in
      let d =
        either (λ (r : Portfolio R). (book_at r name).deployed ≡ (book_at pf name).deployed) b
          (pull_guard-deployed name _ pf) refl in
      let fees =
        book_fee_for_hour (book_at pf name) (row_of env name).minutes (pips_of params name)
          (if b then bin else none) params.fee_share_exact in
      then-AreKept pf after (accrue name fees after) kept (accrue-AreKept name fees after (d ∙ h))

  armed-AreKept :
      (name : BookName) (l i v : R) (events : List (Event R)) (pf : Portfolio R)
      → AreKept pf
          (record (set_book name
            (rearmed_book (book_at pf name) env params l)
            (record pf { idle_usdg = i; idle_nvda = v })) { last_events = events })
  armed-AreKept book_a l i v events pf =
      (record { deployed = refl; base_l = refl; fees = λ h. refl }, IsKept-self pf.second_book)
  armed-AreKept book_b l i v events pf =
      (IsKept-self pf.first_book, record { deployed = refl; base_l = refl; fees = λ h. refl })

  rearm_guard-AreKept :
      (name : BookName) (pf : Portfolio R) → AreKept pf (rearm_guard name env params step pf)
  unfolding rearm_guard
  rearm_guard-AreKept name pf =
      let target = target_guard (book_at pf name) in
      let req =
        token_amounts target env.sqrt_p (env.tick - params.guard_width_ticks)
          (env.tick + params.guard_width_ticks) in
      let swapped = (swap_deficit pf req.0 req.1 env.price params.swap_cost_bps).0 in
      let ready = if params.funding_mode_swap then swapped else pf in
      let k = swap_deficit-keeps pf req.0 req.1 env.price params.swap_cost_bps in
      let kept =
        either (λ (r : Portfolio R). AreKept pf r) params.funding_mode_swap
          (same_books pf swapped k.1 k.2) (same-AreKept pf) in
      let scale = funding_scale (num 1) ready.idle_usdg ready.idle_nvda req.0 req.1 in
      let armed =
        add_event step (EventType.guard_rearmed name (req.0 * scale + req.1 * scale * env.price)) (
          set_book name (rearmed_book (book_at ready name) env params (target * scale))
            (record ready {
              idle_usdg = ready.idle_usdg - req.0 * scale;
              idle_nvda = ready.idle_nvda - req.1 * scale;
            })) in
      either (λ (r : Portfolio R). AreKept pf r) (scale ≤? num 0) kept
        (then-AreKept pf ready armed kept (
          armed-AreKept name (target * scale) (ready.idle_usdg - req.0 * scale)
            (ready.idle_nvda - req.1 * scale) armed.last_events ready))

  rearm_step-AreKept :
      (name : BookName) (before : Book R) (pf : Portfolio R)
      → (book_at pf name).deployed ≡ true
      → AreKept pf (rearm_step params env scenario step name before pf)
  rearm_step-AreKept name before pf h =
      either (λ (r : Portfolio R). AreKept pf r)
        (rearm_due (book_at pf name) step params
          && ((num 0 <? target_guard (book_at pf name))
              && rearm_signal_ok params env scenario step name before))
        (rearm_guard-AreKept name pf) (same-AreKept pf)

  book_income-AreKept :
      (name : BookName) (pf : Portfolio R)
      → AreKept pf (book_income params env scenario step name pf)
  unfolding book_income
  book_income-AreKept name pf =
      let b = book_at pf name in
      either_by (λ (r : Portfolio R). AreKept pf r) (not b.deployed) (λ _. same-AreKept pf)
        (λ h.
          let bin = pull_bin params env scenario step name b in
          let hd = not-false b.deployed h in
          let pulled = pull_step params env scenario step name bin pf in
          then-AreKept pf pulled (rearm_step params env scenario step name b pulled)
            (pull_step-AreKept name bin pf hd)
            (rearm_step-AreKept name b pulled (pull_step-deployed name bin pf ∙ hd)))

  liquidate-AreKept :
      (pf : Portfolio R) → AreKept pf (liquidate pf env.sqrt_p env.price step params)
  unfolding liquidate
  liquidate-AreKept pf =
      let P : Portfolio R → Type 0 = λ (r : Portfolio R). AreKept pf r in
      either P (pf.arm.debt ≤? dust_usd) (same-AreKept pf) (
        either P (num 1 ≤? health_factor params env.price pf.arm) (same-AreKept pf)
          (same-AreKept pf))

  -- The income keeps both books.
  pub portfolio_income-AreKept :
      (pf : Portfolio R) → AreKept pf (portfolio_income params env scenario step pf)
  unfolding portfolio_income arm_interest
  portfolio_income-AreKept pf =
      let start = record pf { last_events = [] } in
      let first = book_income params env scenario step book_a start in
      let earned = book_income params env scenario step book_b first in
      let charged = arm_interest params env.price earned in
      let settled = liquidate charged env.sqrt_p env.price step params in
      then-AreKept start first settled (book_income-AreKept book_a start) (
        then-AreKept first earned settled (book_income-AreKept book_b first)
          (liquidate-AreKept charged))
