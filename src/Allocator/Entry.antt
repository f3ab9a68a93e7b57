-- ===== src/Allocator/Entry.antt =====
-- `plan_arm_entry` of research/cadcad/allocator/allocator.py: one slice of the move into the arms.
use nvda_tranched_arc.Prelude.{
  Bool, true, false, ◌≡◌, List, [], ◌∷◌, ◌++◌, Bool-cases, inl, inr, if◌then◌else◌, arith,
}
use nvda_tranched_arc.Number.{
  Number, ◌+◌, ◌-◌, ◌*◌, ◌/◌, ◌≤◌, ◌<◌, ◌<?◌, num, min, max, IsOrdered, IsExact,
}
use nvda_tranched_arc.Number.Order.{
  min-le_left, min-le_right, le-min, le-max_right, le_of_lt, le-max_left, max-le, not-lt_of_le,
  num_nonneg,
}
use nvda_tranched_arc.Number.Algebra.{add-le-add_left, sub-add_cancel, add-zero}
use nvda_tranched_arc.Allocator.Borrow.{bps, bps_pos, borrow_size, borrow_size_bounds}

-- The steps of a plan; the notes that go with them are display text.
pub data EntryStep (R : Type 0) : Type 0 where
  allocate_usdg allocate_nvda borrow_usdg : R → EntryStep R

pub record EntryPlan (R : Type 0) : Type 0 where
  pub usdg_move : R
  pub nvda_move : R
  pub borrow : R
  pub ltv_bps : R
  pub steps : List (EntryStep R)

pub record EntryInput (R : Type 0) : Type 0 where
  pub usdg_available : R
  pub nvda_available : R
  pub nvda_price : R
  pub usdg_deployed : R
  pub nvda_deployed : R
  pub ltv_bps : R
  pub max_ltv_bps : R
  pub morpho_share_bps : R
  pub nvda_step_bps : R

module _ {R : Type 0} ⦃n : Number R⦄ where
  abbrev pub clamp : R → R
  clamp a = max (num 0) a

  -- `total * min(10_000, share) / BPS`
  abbrev pub share_of : R → R → R
  share_of total share_bps = total * min bps share_bps / bps

  unfoldable pub usdg_move_of : (usdg usdg_in share_bps : R) → R
  usdg_move_of usdg usdg_in share_bps =
      let usdg_target = share_of (usdg + usdg_in) share_bps in
      max (num 0) (if usdg_in <? usdg_target then min (usdg_target - usdg_in) usdg else num 0)

  unfoldable pub nvda_move_of : (nvda nvda_in step_bps : R) → R
  nvda_move_of nvda nvda_in step_bps = min (share_of (nvda + nvda_in) step_bps) nvda

  abbrev pub step_if : Bool → List (EntryStep R) → List (EntryStep R)
  step_if true s = s
  step_if false s = []

  unfoldable pub plan_arm_entry : EntryInput R → EntryPlan R
  unfolding usdg_move_of nvda_move_of
  plan_arm_entry i =
      let usdg_move =
        usdg_move_of (clamp i.usdg_available) (clamp i.usdg_deployed) i.morpho_share_bps in
      let nvda_move =
        nvda_move_of (clamp i.nvda_available) (clamp i.nvda_deployed) i.nvda_step_bps in
      let collateral_value = nvda_move * clamp i.nvda_price in
      let borrow = borrow_size collateral_value i.ltv_bps i.max_ltv_bps (num 3_000) in
      record {
        usdg_move = usdg_move;
        nvda_move = nvda_move;
        borrow = borrow;
        ltv_bps = min (min i.ltv_bps i.max_ltv_bps) (num 3_000);
        steps =
            step_if (num 0 <? usdg_move) (EntryStep.allocate_usdg usdg_move ∷ [])
            ++ (step_if (num 0 <? nvda_move) (EntryStep.allocate_nvda nvda_move ∷ [])
                ++ step_if (num 0 <? borrow)
                    (EntryStep.borrow_usdg borrow ∷ EntryStep.allocate_usdg borrow ∷ []));
      }

module _ {R : Type 0} ⦃n : Number R⦄ (o : IsOrdered R) where
  open o use {le_refl, le_trans, add_nonneg, mul_nonneg, div_nonneg}

  pub clamp_nonneg : (a : R) → num 0 ≤ clamp a
  clamp_nonneg a = le-max_left o (num 0) a

  pub clamp_pos : (a : R) → num 0 < a → clamp a ≡ a
  unfolding max
  clamp_pos a h = ground arith

  pub clamp_neg : (a : R) → a ≤ num 0 → clamp a ≡ num 0
  unfolding max
  clamp_neg a h = ground (arith, not-lt_of_le o a (num 0))

  share_of_nonneg : (t s : R) → num 0 ≤ t → num 0 ≤ s → num 0 ≤ share_of t s
  share_of_nonneg t s ht hs =
      div_nonneg (t * min bps s) bps
        (mul_nonneg t (min bps s) ht (le-min o bps s (num 0) (num_nonneg o 10_000) hs)) (bps_pos o)

  usdg_move_bounds :
      (usdg usdg_in s : R)
      → num 0 ≤ usdg
      → (num 0 ≤ usdg_move_of usdg usdg_in s) × (usdg_move_of usdg usdg_in s ≤ usdg)
  unfolding usdg_move_of
  usdg_move_bounds usdg usdg_in s h =
      let gap = share_of (usdg + usdg_in) s - usdg_in in
      (le-max_left o (num 0) _, max-le o (num 0) _ usdg h (ground (arith, min-le_right o gap usdg)))

  nvda_move_bounds :
      (nvda nvda_in s : R)
      → num 0 ≤ nvda
      → num 0 ≤ nvda_in
      → num 0 ≤ s
      → (num 0 ≤ nvda_move_of nvda nvda_in s) × (nvda_move_of nvda nvda_in s ≤ nvda)
  unfolding nvda_move_of
  nvda_move_bounds nvda nvda_in s h hin hs =
      let slice = share_of (nvda + nvda_in) s in
      (
        le-min o slice nvda (num 0)
            (share_of_nonneg (nvda + nvda_in) s (add_nonneg nvda nvda_in h hin) hs) h,
        min-le_right o slice nvda,
      )

  -- With an NVDA step and limits that are not negative a plan moves between nothing and the (clamped)
  -- idle NVDA, and borrows between nothing and 30% of the value of the NVDA that it moves.
  pub plan_arm_entry_bounds :
      (i : EntryInput R)
      → num 0 ≤ i.nvda_step_bps
      → num 0 ≤ i.ltv_bps
      → num 0 ≤ i.max_ltv_bps
      → let p = plan_arm_entry i in
        (num 0 ≤ p.nvda_move)
        × (p.nvda_move ≤ clamp i.nvda_available)
        × (num 0 ≤ p.borrow)
        × (p.borrow ≤ p.nvda_move * clamp i.nvda_price * num 3_000 / bps)
  unfolding plan_arm_entry
  plan_arm_entry_bounds i hs hl hm =
      let (v0, v1) =
        nvda_move_bounds (clamp i.nvda_available) (clamp i.nvda_deployed) i.nvda_step_bps
          (clamp_nonneg i.nvda_available) (clamp_nonneg i.nvda_deployed) hs in
      let (b0, _, _, b3) =
        borrow_size_bounds o
          (nvda_move_of (clamp i.nvda_available) (clamp i.nvda_deployed) i.nvda_step_bps
            * clamp i.nvda_price)
          i.ltv_bps i.max_ltv_bps (num 3_000)
          (mul_nonneg _ (clamp i.nvda_price) v0 (clamp_nonneg i.nvda_price)) hl hm
          (num_nonneg o 3_000) in
      (v0, v1, b0, b3)

module _ {R : Type 0} ⦃n : Number R⦄ (e : IsExact R) where
  open e use {ordered}
  open e.ordered use {le_refl, le_trans, sub_nonneg, add_comm}

  -- What a move makes of the lent USDG stays at what it was or within the target.
  usdg_move-target :
      (usdg usdg_in s : R)
      → num 0 ≤ usdg
      → usdg_in + usdg_move_of usdg usdg_in s ≤ max usdg_in (share_of (usdg + usdg_in) s)
  unfolding usdg_move_of
  usdg_move-target usdg usdg_in s h =
      let target = share_of (usdg + usdg_in) s in
      elim (Bool-cases (usdg_in <? target)) [
        | inl below ↦ rw below (
            le_trans _ (usdg_in + (target - usdg_in)) _
              (add-le-add_left e _ (target - usdg_in) usdg_in (
                max-le ordered (num 0) _ (target - usdg_in)
                  (sub_nonneg target usdg_in (le_of_lt ordered usdg_in target below))
                  (min-le_left ordered (target - usdg_in) usdg)))
              (rw (add_comm usdg_in (target - usdg_in), sub-add_cancel e target usdg_in)
                (le-max_right ordered usdg_in target)))
        | inr above ↦ rw above (
            le_trans _ (usdg_in + num 0) _
              (add-le-add_left e _ (num 0) usdg_in
                (max-le ordered (num 0) (num 0) (num 0) (le_refl (num 0)) (le_refl (num 0))))
              (rw (add-zero e usdg_in) (le-max_left ordered usdg_in target)))
      ]

  -- Whatever the inputs, a plan moves between nothing and the (clamped) idle USDG, and what is lent
  -- after the move is at most what was, or within the share of all the USDG that the plan may lend.
  pub plan_arm_entry-usdg_move :
      (i : EntryInput R)
      → let p = plan_arm_entry i in
        let usdg = clamp i.usdg_available in
        let usdg_in = clamp i.usdg_deployed in
        (num 0 ≤ p.usdg_move)
        × (p.usdg_move ≤ usdg)
        × (usdg_in + p.usdg_move
            ≤ max usdg_in ((usdg + usdg_in) * min bps i.morpho_share_bps / bps))
  unfolding plan_arm_entry
  plan_arm_entry-usdg_move i =
      let usdg = clamp i.usdg_available in
      let usdg_in = clamp i.usdg_deployed in
      let (u0, u1) =
        usdg_move_bounds ordered usdg usdg_in i.morpho_share_bps
          (clamp_nonneg ordered i.usdg_available) in
      (
        u0,
        u1,
        usdg_move-target usdg usdg_in i.morpho_share_bps (clamp_nonneg ordered i.usdg_available),
      )
