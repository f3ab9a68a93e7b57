-- ===== src/Model/Minutes/Volatility.antt =====
-- The volatility of `_window_stats` of research/cadcad/allocator/model.py spans the window's ticks.
use nvda_tranched_arc.Prelude.{◌≡◌, refl, ◌∙◌, Option, none, some, List, [], ◌∷◌, subst⁻¹}
use nvda_tranched_arc.Number.{Number, ◌-◌, ◌≤◌, neg, num, min, max, IsExact}
use nvda_tranched_arc.Number.Order.{min-le_left, min-le_right, le-max_left, le-max_right}
use nvda_tranched_arc.Number.Algebra.{add-le-add, sub-eq-add, neg-le-neg}
use nvda_tranched_arc.Allocator.Switch.{All, All-map}
use nvda_tranched_arc.Model.{Minute}
use nvda_tranched_arc.Model.Minutes.{
  WindowStats, TickRange, see_tick, ticks_of, stats_of, volume_of, window_stats,
}

module _ {R : Type 0} ⦃n : Number R⦄ where
  -- A minute's tick, if there is one, lies in a range.
  abbrev IsWithin : TickRange R → Option R → Type 0
  IsWithin r none = Unit
  IsWithin r (some t) = (r.lowest ≤ t) × (t ≤ r.highest)

  -- A range that covers another one and starts with the same tick.
  record IsWider (r s : TickRange R) : Type 0 where
    first : s.first ≡ r.first
    lowest : s.lowest ≤ r.lowest
    highest : r.highest ≤ s.highest

  -- A minute's tick is no further from the first tick than the volatility.
  abbrev pub IsNear : WindowStats R → Option R → Type 0
  IsNear w none = Unit
  IsNear w (some t) = (t - w.tick_first ≤ w.volatility_bps) × (w.tick_first - t ≤ w.volatility_bps)

module _ {R : Type 0} ⦃n : Number R⦄ (e : IsExact R) where
  open e use {ordered}
  open e.ordered use {le_refl, le_trans}

  -- What a range has seen after some minutes.
  abbrev Seen : TickRange R → List (Minute R) → Type 0
  Seen r ms =
      (s : TickRange R) × (ticks_of (some r) ms ≡ some s)
      × IsWider r s
      × All (λ (m : Minute R). IsWithin s m.tick) ms

  IsWider-self : (r : TickRange R) → IsWider r r
  IsWider-self r = record { first = refl; lowest = le_refl r.lowest; highest = le_refl r.highest }

  IsWider-then : (r s t : TickRange R) → IsWider r s → IsWider s t → IsWider r t
  IsWider-then r s t h k = record {
    first = k.first ∙ h.first;
    lowest = le_trans t.lowest s.lowest r.lowest k.lowest h.lowest;
    highest = le_trans r.highest s.highest t.highest h.highest k.highest;
  }

  within-IsWider :
      (r s : TickRange R) (t : R)
      → IsWider r s
      → (r.lowest ≤ t) × (t ≤ r.highest)
      → (s.lowest ≤ t) × (t ≤ s.highest)
  within-IsWider r s t h k =
      (le_trans s.lowest r.lowest t h.lowest k.0, le_trans t r.highest s.highest k.1 h.highest)

  -- One minute, before minutes that are seen from any range.
  see_step :
      (t : Option R) (r : TickRange R) (ms : List (Minute R))
      → ((s : TickRange R) → Seen s ms)
      → (s : TickRange R) × (ticks_of (see_tick t (some r)) ms ≡ some s)
        × IsWider r s
        × (IsWithin s t × All (λ (m : Minute R). IsWithin s m.tick) ms)
  unfolding see_tick
  see_step none r ms ih = let (s, found, wide, all) = ih r in (s, found, wide, (tt, all))
  see_step (some t) r ms ih =
      let r' : TickRange R = record {
        first = r.first;
        last = t;
        lowest = min r.lowest t;
        highest = max r.highest t;
      } in
      let (s, found, wide, all) = ih r' in
      let grown : IsWider r r' = record {
        first = refl;
        lowest = min-le_left ordered r.lowest t;
        highest = le-max_left ordered r.highest t;
      } in
      (
        s,
        found,
        IsWider-then r r' s grown wide,
        (
          within-IsWider r' s t wide
              (min-le_right ordered r.lowest t, le-max_right ordered r.highest t),
          all,
        ),
      )

  seen : (r : TickRange R) (ms : List (Minute R)) → Seen r ms
  unfolding ticks_of
  seen r [] = (r, refl, IsWider-self r, tt)
  seen r (m ∷ ms) = see_step m.tick r ms (λ s. seen s ms)

  -- A difference of two ticks in a range is at most its width.
  near : (lo hi a b : R) → lo ≤ a → b ≤ hi → b - a ≤ hi - lo
  near lo hi a b h k =
      rw (sub-eq-add e b a, sub-eq-add e hi lo)
        (add-le-add e b hi (neg a) (neg lo) k (neg-le-neg e lo a h))

  within-IsNear :
      (s : TickRange R) (volume : R) (t : Option R)
      → (s.lowest ≤ s.first)
      → (s.first ≤ s.highest)
      → IsWithin s t
      → IsNear (stats_of volume (some s)) t
  unfolding stats_of
  within-IsNear s volume none lo hi h = tt
  within-IsNear s volume (some t) lo hi h =
      (near s.lowest s.highest s.first t lo h.1, near s.lowest s.highest t s.first h.0 hi)

  All-IsNear :
      (s : TickRange R) (volume : R) (ms : List (Minute R))
      → (s.lowest ≤ s.first)
      → (s.first ≤ s.highest)
      → All (λ (m : Minute R). IsWithin s m.tick) ms
      → All (λ (m : Minute R). IsNear (stats_of volume (some s)) m.tick) ms
  All-IsNear s volume ms lo hi h =
      All-map (λ (m : Minute R). IsWithin s m.tick) _ (λ m k. within-IsNear s volume m.tick lo hi k)
        ms h

  -- From the first tick on.
  found-IsNear :
      (t : R) (volume : R) (ms : List (Minute R))
      → All
          (λ (m : Minute R). IsNear (stats_of volume (ticks_of (see_tick (some t) none) ms)) m.tick)
          ms
        × IsNear (stats_of volume (ticks_of (see_tick (some t) none) ms)) (some t)
  unfolding see_tick
  found-IsNear t volume ms =
      let r : TickRange R = record { first = t; last = t; lowest = t; highest = t } in
      let (s, found, wide, all) = seen r ms in
      let lo = subst⁻¹ (λ (x : R). s.lowest ≤ x) wide.first wide.lowest in
      let hi = subst⁻¹ (λ (x : R). x ≤ s.highest) wide.first wide.highest in
      rw found (
        All-IsNear s volume ms lo hi all,
        within-IsNear s volume (some t) lo hi (wide.lowest, wide.highest),
      )

  -- Minutes without a tick come before the first one.
  first-IsNear :
      (t : Option R) (volume : R) (ms : List (Minute R))
      → All (λ (m : Minute R). IsNear (stats_of volume (ticks_of none ms)) m.tick) ms
      → let w = stats_of volume (ticks_of (see_tick t none) ms) in
        IsNear w t × All (λ (m : Minute R). IsNear w m.tick) ms
  unfolding see_tick
  first-IsNear none volume ms ih = (tt, ih)
  first-IsNear (some t) volume ms ih = let h = found-IsNear t volume ms in (h.1, h.0)

  window-IsNear :
      (volume : R) (ms : List (Minute R))
      → All (λ (m : Minute R). IsNear (stats_of volume (ticks_of none ms)) m.tick) ms
  unfolding ticks_of
  window-IsNear volume [] = tt
  window-IsNear volume (m ∷ ms) = first-IsNear m.tick volume ms (window-IsNear volume ms)

  -- The volatility of a window is at least the distance of any of its ticks from the first one, up or
  -- down, whether or not the window has minutes without a tick.
  pub window_stats-IsNear :
      (minutes : List (Minute R))
      → All (λ (m : Minute R). IsNear (window_stats minutes) m.tick) minutes
  unfolding window_stats
  window_stats-IsNear minutes = window-IsNear (volume_of (num 0) minutes) minutes
