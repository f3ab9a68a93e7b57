-- ===== src/Model/Windows/Streak.antt =====
-- What a streak of the fee and loss gate counts.
use Prim.Native.Nat.{◌-◌, ◌≤◌, ◌<◌}
use nvda_tranched_arc.Prelude.{
  ℕ, zero, suc, Bool, true, false, ◌≡◌, refl, ap, ◌↔◌, if◌then◌else◌, ltb, List, arith, Bool-cases,
  inl, inr,
}
use nvda_tranched_arc.Number.{Number}
use nvda_tranched_arc.Lp.{Math}
use nvda_tranched_arc.Allocator.{BookName}
use nvda_tranched_arc.Model.{Book, ScenarioRow}
use nvda_tranched_arc.Model.Windows.{streak_from, below_buffer, fee_il_streak}

-- `k` of the hours back from `step` on, `left` of them, exist and pass the test.
abbrev pub AllBelow : (ℕ → Bool) → (step left k : ℕ) → Type 0
AllBelow below step zero k = Unit
AllBelow below step (suc left) k =
    (k ≤ step) × (below (step - k) ≡ true) × AllBelow below step left (suc k)

pub ltb-true : (a b : ℕ) → ltb a b ≡ true → a < b
unfolding ltb
ltb-true a zero h = cc
ltb-true zero (suc b) h = omega arith
ltb-true (suc a) (suc b) h = omega (arith, ltb-true a b h)

pub ltb-false : (a b : ℕ) → ltb a b ≡ false → b ≤ a
unfolding ltb
ltb-false a zero h = omega arith
ltb-false zero (suc b) h = cc
ltb-false (suc a) (suc b) h = omega (arith, ltb-false a b h)

streak_from-le : (below : ℕ → Bool) (step left k : ℕ) → streak_from below step left k ≤ left
unfolding streak_from
streak_from-le below step zero k = omega arith
streak_from-le below step (suc left) k = ground (arith, streak_from-le below step left (suc k))

zero-suc : (k : ℕ) → ◌≡◌ {A = ℕ} 0 (suc k) → ⊥
zero-suc k h = omega (arith, h)

streak_from-full :
    (below : ℕ → Bool) (step left k : ℕ)
    → (streak_from below step left k ≡ left) ↔ AllBelow below step left k
unfolding streak_from
streak_from-full below step zero k = (λ h. tt, λ h. refl)
streak_from-full below step (suc left) k =
    let ih = streak_from-full below step left (suc k) in
    elim (Bool-cases (ltb step k)) [
      | inl out ↦
          rw out
            (λ h. absurd (zero-suc left h), λ h. absurd (omega (arith, ltb-true step k out, h.0)))
      | inr back ↦ elim (Bool-cases (below (step - k))) [
        | inr above ↦ rw (back, above) (λ h. absurd (zero-suc left h), λ h. cc h.1)
        | inl low ↦
            rw (back, low)
              (λ h. (ltb-false step k back, refl, ih.0 (omega (arith, h))), λ h. ap suc (ih.1 h.2))
      ]
    ]

one_hour :
    (below : ℕ → Bool) (step : ℕ) → (if below step then 1 else 0) ≡ streak_from below step 1 0
unfolding streak_from ltb
one_hour below step = let e : step - 0 ≡ step = omega arith in rw e refl

module _ {R : Type 0} ⦃n : Number R⦄ ⦃m : Math R⦄ (book : Book R) (scenario : List (ScenarioRow R))
    (hours : ℕ) (fee_pips : R) (name : BookName) (hurdle buffer_bps : R) (exact : Bool) where
  -- The streak reaches the hours to confirm exactly when that many hours, back from the current one,
  -- exist and each of them is below the buffer; it never exceeds them. At least one hour is to be
  -- confirmed.
  pub fee_il_streak-full :
      (step confirm_hours : ℕ)
      → 1 ≤ confirm_hours
      → let streak =
          fee_il_streak book scenario step hours fee_pips name hurdle buffer_bps confirm_hours
            exact in
        let below = below_buffer book scenario hours fee_pips name hurdle buffer_bps exact in
        (streak ≤ confirm_hours) × ((streak ≡ confirm_hours) ↔ AllBelow below step confirm_hours 0)
  unfolding fee_il_streak
  fee_il_streak-full step confirm_hours h =
      let below = below_buffer book scenario hours fee_pips name hurdle buffer_bps exact in
      elim (Bool-cases (ltb 1 confirm_hours)) [
        | inl many ↦
            rw many (
              streak_from-le below step confirm_hours 0,
              streak_from-full below step confirm_hours 0,
            )
        | inr one ↦
            let e : confirm_hours ≡ 1 = omega (arith, ltb-false 1 confirm_hours one, h) in
            rw (one, e, one_hour below step)
              (streak_from-le below step 1 0, streak_from-full below step 1 0)
      ]
