-- ===== src/Tests/AllocatorRuns.antt =====
-- The keeper's rules at concrete figures.
use nvda_tranched_arc.Prelude.{
  arith, true, false, not, ◌&&◌, ◌||◌, ◌≡◌, refl, ◌↔◌, some, List, [], ◌∷◌,
}
use nvda_tranched_arc.Number.{◌+◌, ◌*◌, ◌/◌, ◌≤◌, ◌<?◌, ◌≤?◌, num, min, max}
use nvda_tranched_arc.Number.Rational.{ℚ, rational}
use nvda_tranched_arc.Number.RationalLaws.{exact, ordered}
use nvda_tranched_arc.Allocator.{book_a, book_b, normal, high}
use nvda_tranched_arc.Allocator.Assess.{
  default_risk_thresholds, assess_book_risk, assess_book_risk-high_iff,
}
use nvda_tranched_arc.Allocator.Borrow.{bps, borrow_size, borrow_size_bounds}
use nvda_tranched_arc.Allocator.Entry.{
  EntryInput, clamp, plan_arm_entry, plan_arm_entry_bounds, plan_arm_entry-usdg_move,
}
use nvda_tranched_arc.Allocator.Return.{plan_book_return, IsOrderly, plan_book_return-IsOrderly}
use nvda_tranched_arc.Allocator.Return.Done.{
  Outstanding, Pace, rounds, IsReturned, plan_book_return-IsDone,
}
use nvda_tranched_arc.Allocator.Switch.{
  Candidate, IsJustified, decide_pool_switch, decide_pool_switch-IsJustified, SwitchAction,
}

-- Volume of 9,000 USD is below the floor of 10,000.
thin_volume :
    (assess_book_risk {R = ℚ}
      (num 40)
      (num 9_000)
      (num 120)
      true
      false
      default_risk_thresholds).risk
    ≡ high
unfolding assess_book_risk
thin_volume = refl

assess_book_risk-high_iff_example :
    let r =
      assess_book_risk {R = ℚ} (num 40) (num 9_000) (num 120) true false default_risk_thresholds in
    (r.risk ≡ high) ↔ (
      false
        || not true
        || (num {R = ℚ} 300 ≤? num 120)
        || (num {R = ℚ} 9_000 <? num 10_000)
        || ((num {R = ℚ} 0 <? num 0) && (num {R = ℚ} 40 <? num 0))
      ≡ true)
assess_book_risk-high_iff_example =
    assess_book_risk-high_iff (num 40) (num 9_000) (num 120) true false default_risk_thresholds

borrow_size_bounds_example :
    let debt : ℚ = borrow_size (num 1_000) (num 2_937) (num 6_250) (num 3_000) in
    (num 0 ≤ debt)
    × (debt ≤ num 1_000 * num 2_937 / bps)
    × (debt ≤ num 1_000 * num 6_250 / bps)
    × (debt ≤ num 1_000 * num 3_000 / bps)
borrow_size_bounds_example =
    borrow_size_bounds ordered (num 1_000) (num 2_937) (num 6_250) (num 3_000) refl refl refl refl

abbrev entry : EntryInput ℚ
entry = record {
  usdg_available = num 5_000;
  nvda_available = num 20;
  nvda_price = num 150;
  usdg_deployed = num 0;
  nvda_deployed = num 0;
  ltv_bps = num 2_937;
  max_ltv_bps = num 6_250;
  morpho_share_bps = num 8_000;
  nvda_step_bps = num 1_000;
}

first_slice : (plan_arm_entry entry).usdg_move ≡ num 4_000
unfolding plan_arm_entry min max
first_slice = exact.le_antisymm _ _ refl refl

plan_arm_entry_bounds_example :
    let p = plan_arm_entry entry in
    (num 0 ≤ p.nvda_move)
    × (p.nvda_move ≤ clamp (num 20))
    × (num 0 ≤ p.borrow)
    × (p.borrow ≤ p.nvda_move * clamp (num 150) * num 3_000 / bps)
plan_arm_entry_bounds_example = plan_arm_entry_bounds ordered entry refl refl refl

plan_arm_entry-usdg_move_example :
    let p = plan_arm_entry entry in
    let usdg = clamp entry.usdg_available in
    let usdg_in = clamp entry.usdg_deployed in
    (num 0 ≤ p.usdg_move)
    × (p.usdg_move ≤ usdg)
    × (usdg_in + p.usdg_move
        ≤ max usdg_in ((usdg + usdg_in) * min bps entry.morpho_share_bps / bps))
plan_arm_entry-usdg_move_example = plan_arm_entry-usdg_move exact entry

plan_book_return-IsOrderly_example :
    IsOrderly
      (num {R = ℚ} 700)
      (num 40)
      (num 900)
      (plan_book_return (num 700) (num 40) (num 900) (num 2_500) (num 1) (num 1 / num 1_000))
plan_book_return-IsOrderly_example =
    plan_book_return-IsOrderly exact (num 700) (num 40) (num 900) (num 2_500) (num 1)
      (num 1 / num 1_000) refl refl

abbrev pace : Pace ℚ
pace = record { step_bps = num 2_500; dust_usdg = num 1; dust_nvda = num 1 / num 10 }

abbrev outstanding : Outstanding ℚ
outstanding = record { usdg = num 2; collateral = num 1 / num 5; debt = num 3 }

plan_book_return-IsDone_example : IsReturned exact pace refl refl (rounds pace 7 outstanding)
plan_book_return-IsDone_example =
    plan_book_return-IsDone exact pace refl refl 7 2 2 3 outstanding (omega arith)
      (refl, refl, refl)

abbrev pools : List (Candidate ℚ)
pools =
    record { name = book_a; risk = normal; net_apr_bps = num 900 }
    ∷ record { name = book_b; risk = normal; net_apr_bps = num 1_500 }
    ∷ []

takes_the_lead :
    (decide_pool_switch pools (some book_a) (num 500)).action
    ≡ SwitchAction.switch book_b (num 1_500)
unfolding decide_pool_switch
takes_the_lead = refl

decide_pool_switch-IsJustified_example :
    IsJustified pools
      (some book_a)
      (num 500)
      (decide_pool_switch pools (some book_a) (num 500)).action
decide_pool_switch-IsJustified_example =
    decide_pool_switch-IsJustified ordered pools (some book_a) (num 500)
