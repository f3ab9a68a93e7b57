-- ===== src/Number/Order.antt =====
-- What follows from the order of doubles alone.
use nvda_tranched_arc.Prelude.{ℕ, zero, suc, false, ◌≡◌, ◌⊎◌, inl, inr, Bool-cases, arith}
use nvda_tranched_arc.Number.{Number, ◌≤◌, ◌<◌, ◌<?◌, ◌≤?◌, num, min, max, IsOrdered}

module _ {R : Type 0} ⦃n : Number R⦄ (o : IsOrdered R) where
  open o use {le_refl, le_trans, le_total, lt-eq-not-le, num-lt}

  pub le_cases : (a b : R) → (a ≤ b) ⊎ (b ≤ a)
  le_cases a b = elim (Bool-cases (a ≤? b)) [ inl h ↦ inl h | inr h ↦ inr (le_total a b h) ]

  pub le_of_lt : (a b : R) → a < b → a ≤ b
  le_of_lt a b h = ground (arith, le_total b a, lt-eq-not-le a b)

  pub not-lt_of_le : (a b : R) → a ≤ b → (b <? a) ≡ false
  not-lt_of_le a b h = ground (arith, lt-eq-not-le b a)

  pub le_of_not-lt : (a b : R) → (b <? a) ≡ false → a ≤ b
  le_of_not-lt a b h = ground (arith, lt-eq-not-le b a)

  pub lt_of_not-le : (a b : R) → (b ≤? a) ≡ false → a < b
  lt_of_not-le a b h = ground (arith, lt-eq-not-le a b)

  pub lt_of_le-lt : (a b c : R) → a ≤ b → b < c → a < c
  lt_of_le-lt a b c h k = ground (arith, lt-eq-not-le a c, lt-eq-not-le b c, le_trans c a b)

  pub lt_of_lt-le : (a b c : R) → a < b → b ≤ c → a < c
  lt_of_lt-le a b c h k = ground (arith, lt-eq-not-le a c, lt-eq-not-le a b, le_trans b c a)

  pub lt_irrefl : (a : R) → (a <? a) ≡ false
  lt_irrefl a = ground (arith, lt-eq-not-le a a, le_refl a)

  pub min-le_left : (a b : R) → min a b ≤ a
  unfolding min
  min-le_left a b = ground (arith, le_refl a, le_of_lt b a)

  pub min-le_right : (a b : R) → min a b ≤ b
  unfolding min
  min-le_right a b = ground (arith, le_refl b, le_of_not-lt a b)

  pub le-min : (a b c : R) → c ≤ a → c ≤ b → c ≤ min a b
  unfolding min
  le-min a b c h k = ground arith

  pub le-max_left : (a b : R) → a ≤ max a b
  unfolding max
  le-max_left a b = ground (arith, le_refl a, le_of_lt a b)

  pub le-max_right : (a b : R) → b ≤ max a b
  unfolding max
  le-max_right a b = ground (arith, le_refl b, le_of_not-lt b a)

  pub max-le : (a b c : R) → a ≤ c → b ≤ c → max a b ≤ c
  unfolding max
  max-le a b c h k = ground arith

  pub lt-min : (a b c : R) → c < a → c < b → c < min a b
  unfolding min
  lt-min a b c h k = ground arith

  pub num_nonneg : (k : ℕ) → num {R = R} 0 ≤ num k
  num_nonneg zero = le_refl (num 0)
  num_nonneg (suc k) = le_of_lt (num 0) (num (suc k)) (num-lt 0 (suc k) (omega arith))
