-- ===== src/Allocator/Return.antt =====
-- `plan_book_return` of research/cadcad/allocator/allocator.py: one slice of the return to the books.
pub mod Done
use nvda_tranched_arc.Prelude.{
  ◌&&◌, ◌||◌, ◌≡◌, List, [], ◌∷◌, if◌then◌else◌, arith, Bool-cases, ◌⊎◌, inl, inr,
}
use nvda_tranched_arc.Number.{
  Number, ◌*◌, ◌/◌, ◌≤◌, ◌<◌, ◌<?◌, ◌≤?◌, ◌==?◌, num, min, IsOrdered, IsExact,
}
use nvda_tranched_arc.Number.Order.{
  le_of_lt, min-le_left, lt_of_lt-le, le_of_not-lt, lt_of_not-le, lt_irrefl,
}
use nvda_tranched_arc.Number.Algebra.{div_self}
use nvda_tranched_arc.Allocator.Borrow.{bps, bps_pos}
use nvda_tranched_arc.Allocator.Entry.{clamp, clamp_pos, clamp_neg}

pub data ReturnStep (R : Type 0) : Type 0 where
  repay_nvda withdraw_nvda deallocate_usdg : R → ReturnStep R

pub record ReturnPlan (R : Type 0) : Type 0 where
  pub steps : List (ReturnStep R)
  pub usdg_out : R
  pub repay : R
  pub collateral_out : R

module _ {R : Type 0} ⦃n : Number R⦄ where
  -- A slice, or all of it where the holding or the slice is dust.
  unfoldable pub take_slice : (held step dust : R) → R
  take_slice held step dust =
      if held ==? num 0
      then num 0
      else if (held ≤? dust) || (held * step <? dust)
      then held
      else held * step

  unfoldable pub repay_slice : (debt step dust : R) → R
  repay_slice debt step dust =
      let repay_raw = if num 0 <? debt then debt * step else num 0 in
      if (num 0 <? debt) && (repay_raw <? dust) then debt else repay_raw

  -- `collateral_raw = collateral * step if collateral > 0 else 0.0`
  unfoldable pub collateral_slice : (collateral step dust : R) → R
  collateral_slice collateral step dust =
      let collateral_raw = if num 0 <? collateral then collateral * step else num 0 in
      if collateral ==? num 0
      then num 0
      else if (collateral ≤? dust) || (collateral_raw <? dust)
      then collateral
      else collateral_raw

  return_steps : (debt repay collateral_out usdg_take : R) → List (ReturnStep R)
  return_steps debt repay collateral_out usdg_take =
      if (num 0 <? debt) && (num 0 <? repay)
      then ReturnStep.repay_nvda repay ∷ []
      else if (debt ==? num 0) && (num 0 <? collateral_out)
      then ReturnStep.withdraw_nvda collateral_out ∷ []
      else if num 0 <? usdg_take
      then ReturnStep.deallocate_usdg usdg_take ∷ []
      else []

  unfoldable pub plan_book_return :
      (usdg_deployed nvda_collateral debt step_bps dust_usdg dust_nvda : R) → ReturnPlan R
  unfolding return_steps
  plan_book_return usdg_deployed nvda_collateral debt step_bps dust_usdg dust_nvda =
      let step = min bps step_bps / bps in
      let debt_ = clamp debt in
      let usdg_take = take_slice (clamp usdg_deployed) step dust_usdg in
      let repay = repay_slice debt_ step dust_usdg in
      let collateral_out = collateral_slice (clamp nvda_collateral) step dust_nvda in
      record {
        steps = return_steps debt_ repay collateral_out usdg_take;
        usdg_out = usdg_take;
        repay = repay;
        collateral_out = collateral_out;
      }

  -- What is left decides the one next step.
  abbrev pub IsOrderly : (usdg collateral debt : R) → ReturnPlan R → Type 0
  IsOrderly usdg collateral debt p =
      ((num 0 < debt)
        × (p.steps ≡ ReturnStep.repay_nvda p.repay ∷ [])
        × (num 0 < p.repay)
        × (p.repay ≤ debt))
      ⊎ ((debt ≤ num 0)
          × (num 0 < collateral)
          × (p.steps ≡ ReturnStep.withdraw_nvda p.collateral_out ∷ [])
          × (num 0 < p.collateral_out)
          × (p.collateral_out ≤ collateral))
      ⊎ ((debt ≤ num 0)
          × (collateral ≤ num 0)
          × (num 0 < usdg)
          × (p.steps ≡ ReturnStep.deallocate_usdg p.usdg_out ∷ [])
          × (num 0 < p.usdg_out)
          × (p.usdg_out ≤ usdg))
      ⊎ ((debt ≤ num 0) × (collateral ≤ num 0) × (usdg ≤ num 0) × (p.steps ≡ []))

module _ {R : Type 0} ⦃n : Number R⦄ (o : IsOrdered R) where
  open o use {le_refl, le_trans, le_total, mul_nonneg, div_nonneg, div-le-div_right, lt-eq-not-le}

  -- A slice of a positive holding is positive, for dust above zero.
  take_slice_pos :
      (held step dust : R) → num 0 < dust → num 0 < held → num 0 < take_slice held step dust
  unfolding take_slice
  take_slice_pos held step dust hd hh = ground (
    arith,
    lt-eq-not-le (num 0) held,
    lt_of_lt-le o (num 0) dust (held * step) hd,
    le_of_not-lt o dust (held * step),
  )

  repay_slice_pos :
      (debt step dust : R) → num 0 < dust → num 0 < debt → num 0 < repay_slice debt step dust
  unfolding repay_slice
  repay_slice_pos debt step dust hd hh =
      ground (arith, lt_of_lt-le o (num 0) dust (debt * step) hd, le_of_not-lt o dust (debt * step))

  collateral_slice_pos :
      (c step dust : R) → num 0 < dust → num 0 < c → num 0 < collateral_slice c step dust
  unfolding collateral_slice
  collateral_slice_pos c step dust hd hh = ground (
    arith,
    lt-eq-not-le (num 0) c,
    lt_of_lt-le o (num 0) dust (c * step) hd,
    le_of_not-lt o dust (c * step),
  )

  take_slice_zero : (step dust : R) → take_slice (num 0) step dust ≡ num 0
  unfolding take_slice
  take_slice_zero step dust = ground (arith, le_refl (num 0))

  repay_slice_zero : (step dust : R) → repay_slice (num 0) step dust ≡ num 0
  unfolding repay_slice
  repay_slice_zero step dust = ground (arith, lt_irrefl o (num 0))

  collateral_slice_zero : (step dust : R) → collateral_slice (num 0) step dust ≡ num 0
  unfolding collateral_slice
  collateral_slice_zero step dust = ground (arith, le_refl (num 0))

  steps_repay :
      (d r c u : R) → num 0 < d → num 0 < r → return_steps d r c u ≡ ReturnStep.repay_nvda r ∷ []
  unfolding return_steps
  steps_repay d r c u hd hr = ground arith

  steps_withdraw :
      (r c u : R) → num 0 < c → return_steps (num 0) r c u ≡ ReturnStep.withdraw_nvda c ∷ []
  unfolding return_steps
  steps_withdraw r c u hc = ground (arith, lt_irrefl o (num 0), le_refl (num 0))

  steps_deallocate :
      (r u : R) → num 0 < u → return_steps (num 0) r (num 0) u ≡ ReturnStep.deallocate_usdg u ∷ []
  unfolding return_steps
  steps_deallocate r u hu = ground (arith, lt_irrefl o (num 0), le_refl (num 0))

  steps_none : (r : R) → return_steps (num 0) r (num 0) (num 0) ≡ []
  unfolding return_steps
  steps_none r = ground (arith, lt_irrefl o (num 0))

  pos_cases : (a : R) → (num 0 < a) ⊎ (a ≤ num 0)
  pos_cases a = elim (Bool-cases (a ≤? num 0)) [
    | inl h ↦ inr h
    | inr h ↦ inl (lt_of_not-le o (num 0) a h)
  ]

module _ {R : Type 0} ⦃n : Number R⦄ (e : IsExact R) where
  open e use {ordered, one-mul}
  open e.ordered use {le_refl, mul_comm, mul-le-mul_right, div-le-div_right}

  step-le_one : (step_bps : R) → min bps step_bps / bps ≤ num 1
  step-le_one step_bps = rw (div_self e bps (bps_pos ordered)) at (
      div-le-div_right (min bps step_bps) bps bps (bps_pos ordered)
        (min-le_left ordered bps step_bps))

  -- The share of a holding that a step takes is within the holding.
  step-within : (held step_bps : R) → num 0 < held → held * (min bps step_bps / bps) ≤ held
  step-within held step_bps h =
      let step = min bps step_bps / bps in
      rw (mul_comm held step) (
        rw (one-mul held) at (
          mul-le-mul_right step (num 1) held (le_of_lt ordered (num 0) held h)
            (step-le_one step_bps)))

  take_slice-le :
      (held step dust : R) → num 0 < held → held * step ≤ held → take_slice held step dust ≤ held
  unfolding take_slice
  take_slice-le held step dust h k = ground (arith, le_refl held, le_of_lt ordered (num 0) held h)

  repay_slice-le :
      (debt step dust : R) → num 0 < debt → debt * step ≤ debt → repay_slice debt step dust ≤ debt
  unfolding repay_slice
  repay_slice-le debt step dust h k = ground (arith, le_refl debt)

  collateral_slice-le :
      (c step dust : R) → num 0 < c → c * step ≤ c → collateral_slice c step dust ≤ c
  unfolding collateral_slice
  collateral_slice-le c step dust h k = ground (arith, le_refl c, le_of_lt ordered (num 0) c h)

  -- For dust limits above zero: while debt is left the only step repays a positive amount, at most
  -- the debt; without debt, while collateral is left the only step withdraws a positive amount, at
  -- most the collateral; without either, while USDG is lent the only step pulls a positive amount, at
  -- most what is lent; and with nothing left there is no step.
  pub plan_book_return-IsOrderly :
      (usdg collateral debt step_bps dust_usdg dust_nvda : R)
      → num 0 < dust_usdg
      → num 0 < dust_nvda
      → IsOrderly usdg collateral debt
          (plan_book_return usdg collateral debt step_bps dust_usdg dust_nvda)
  unfolding plan_book_return
  plan_book_return-IsOrderly usdg collateral debt step_bps dust_usdg dust_nvda hdu hdn =
      let step = min bps step_bps / bps in
      elim (pos_cases ordered debt) [
        | inl hd ↦ inl (
          hd,
          rw (clamp_pos ordered debt hd) (
              steps_repay ordered debt _ _ _ hd
                (repay_slice_pos ordered debt step dust_usdg hdu hd)),
          rw (clamp_pos ordered debt hd) (repay_slice_pos ordered debt step dust_usdg hdu hd),
          rw (clamp_pos ordered debt hd)
              (repay_slice-le debt step dust_usdg hd (step-within debt step_bps hd)),
        )
        | inr hd ↦ elim (pos_cases ordered collateral) [
          | inl hc ↦
              let out = collateral_slice_pos ordered collateral step dust_nvda hdn hc in
              inr (
                inl (
                  hd,
                  hc,
                  rw (clamp_neg ordered debt hd, clamp_pos ordered collateral hc)
                      (steps_withdraw ordered _ _ _ out),
                  rw (clamp_pos ordered collateral hc) out,
                  rw (clamp_pos ordered collateral hc) (
                      collateral_slice-le collateral step dust_nvda hc
                        (step-within collateral step_bps hc)),
                ))
          | inr hc ↦ elim (pos_cases ordered usdg) [
            | inl hu ↦
                let out = take_slice_pos ordered usdg step dust_usdg hdu hu in
                inr (
                  inr (
                    inl (
                      hd,
                      hc,
                      hu,
                      rw
                          (
                            clamp_neg ordered debt hd,
                            clamp_neg ordered collateral hc,
                            clamp_pos ordered usdg hu,
                            collateral_slice_zero ordered step dust_nvda,
                          )
                          (steps_deallocate ordered _ _ out),
                      rw (clamp_pos ordered usdg hu) out,
                      rw (clamp_pos ordered usdg hu)
                          (take_slice-le usdg step dust_usdg hu (step-within usdg step_bps hu)),
                    )))
            | inr hu ↦ inr (
                inr (
                  inr (
                    hd,
                    hc,
                    hu,
                    rw
                        (
                          clamp_neg ordered debt hd,
                          clamp_neg ordered collateral hc,
                          clamp_neg ordered usdg hu,
                          collateral_slice_zero ordered step dust_nvda,
                          take_slice_zero ordered step dust_usdg,
                        )
                        (steps_none ordered _),
                  )))
          ]
        ]
      ]
