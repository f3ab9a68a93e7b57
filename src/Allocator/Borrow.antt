-- ===== src/Allocator/Borrow.antt =====
-- `borrow_size` of research/cadcad/allocator/allocator.py.
use nvda_tranched_arc.Prelude.{if◌then◌else◌, arith}
use nvda_tranched_arc.Number.{Number, ◌*◌, ◌/◌, ◌≤◌, ◌<◌, ◌≤?◌, num, min, IsOrdered}
use nvda_tranched_arc.Number.Order.{min-le_left, min-le_right, le_of_lt, lt_of_not-le}

module _ {R : Type 0} ⦃n : Number R⦄ where
  -- One hundred percent in basis points.
  abbrev pub bps : R
  bps = num 10_000

  abbrev pub borrow_cap : R → R → R → R
  borrow_cap ltv_bps max_ltv_bps hard_cap_bps = min (min ltv_bps max_ltv_bps) hard_cap_bps

  unfoldable pub borrow_size : R → R → R → R → R
  borrow_size collateral_value ltv_bps max_ltv_bps hard_cap_bps =
      let cap = borrow_cap ltv_bps max_ltv_bps hard_cap_bps in
      if cap ≤? num 0 then num 0 else collateral_value * cap / bps

module _ {R : Type 0} ⦃n : Number R⦄ (o : IsOrdered R) where
  open o use {
    le_refl, le_trans, num-lt, mul_comm, mul_nonneg, div_nonneg, mul-le-mul_right, div-le-div_right,
  }

  pub bps_pos : num {R = R} 0 < bps
  bps_pos = num-lt 0 10_000 (omega arith)

  share_mono : (v a b : R) → num 0 ≤ v → a ≤ b → v * a / bps ≤ v * b / bps
  share_mono v a b h k =
      div-le-div_right (v * a) (v * b) bps bps_pos
        (rw (mul_comm v a, mul_comm v b) (mul-le-mul_right a b v h k))

  share_nonneg : (v a : R) → num 0 ≤ v → num 0 ≤ a → num 0 ≤ v * a / bps
  share_nonneg v a h k = div_nonneg (v * a) bps (mul_nonneg v a h k) bps_pos

  borrow_size-le_share :
      (v l m c b : R)
      → num 0 ≤ v
      → num 0 ≤ b
      → borrow_cap l m c ≤ b
      → borrow_size v l m c ≤ v * b / bps
  unfolding borrow_size
  borrow_size-le_share v l m c b hv hb hc =
      ground (arith, share_nonneg v b hv hb, share_mono v (borrow_cap l m c) b hv hc)

  pub borrow_size_nonneg : (v l m c : R) → num 0 ≤ v → num 0 ≤ borrow_size v l m c
  unfolding borrow_size
  borrow_size_nonneg v l m c hv = ground (
    arith,
    le_refl (num 0),
    lt_of_not-le o (num 0) (borrow_cap l m c),
    le_of_lt o (num 0) (borrow_cap l m c),
    share_nonneg v (borrow_cap l m c) hv,
  )

  -- For collateral and limits that are not negative, the debt is not negative and is at most each
  -- of the three limits' share of the collateral: the operator's target, the market's maximum and
  -- the hard cap.
  pub borrow_size_bounds :
      (v l m c : R)
      → num 0 ≤ v
      → num 0 ≤ l
      → num 0 ≤ m
      → num 0 ≤ c
      → (num 0 ≤ borrow_size v l m c)
        × (borrow_size v l m c ≤ v * l / bps)
        × (borrow_size v l m c ≤ v * m / bps)
        × (borrow_size v l m c ≤ v * c / bps)
  borrow_size_bounds v l m c hv hl hm hc =
      let inner = min-le_left o (min l m) c in
      (
        borrow_size_nonneg v l m c hv,
        borrow_size-le_share v l m c l hv hl (le_trans _ (min l m) l inner (min-le_left o l m)),
        borrow_size-le_share v l m c m hv hm (le_trans _ (min l m) m inner (min-le_right o l m)),
        borrow_size-le_share v l m c c hv hc (min-le_right o (min l m) c),
      )
