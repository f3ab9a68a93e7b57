-- ===== src/Number.antt =====
-- Python's numbers: the operations and comparisons of `float` (and of `int` where the code mixes
-- the two) that the models call. The laws are in two records. `IsOrdered` holds of finite doubles
-- as they are computed, since rounding is monotone and comparisons are exact; `IsExact` reads the
-- arithmetic as that of exact numbers, without rounding.
pub mod Order
pub mod Algebra
mod Fractions
pub mod Rational
pub mod RationalLaws
use nvda_tranched_arc.Prelude.{ℕ, Bool, true, false, not, ◌&&◌, ◌≡◌, if◌then◌else◌}
use Prim.Native.Nat.{◌+◌ as nat_add, ◌*◌ as nat_mul, ◌<◌ as nat_lt}

pub record Number (R : Type 0) : Type 0 where
  pub num : ℕ → R
  pub add : R → R → R
  pub sub : R → R → R
  pub mul : R → R → R
  pub div : R → R → R
  pub neg : R → R
  pub lt : R → R → Bool
  pub le : R → R → Bool

module _ {R : Type 0} ⦃n : Number R⦄ where
  infixl 65 ◌+◌ ◌-◌
  infixl 70 ◌*◌ ◌/◌
  infix 50 ◌==?◌ ◌<?◌ ◌≤?◌ ◌≤◌ ◌<◌
  abbrev pub ◌+◌ : R → R → R
  ◌+◌ = n.add

  abbrev pub ◌-◌ : R → R → R
  ◌-◌ = n.sub

  abbrev pub ◌*◌ : R → R → R
  ◌*◌ = n.mul

  abbrev pub ◌/◌ : R → R → R
  ◌/◌ = n.div

  abbrev pub neg : R → R
  neg = n.neg

  abbrev pub ◌<?◌ : R → R → Bool
  ◌<?◌ = n.lt

  abbrev pub ◌≤?◌ : R → R → Bool
  ◌≤?◌ = n.le

  abbrev pub ◌≤◌ : R → R → Type 0
  a ≤ b = n.le a b ≡ true

  abbrev pub ◌<◌ : R → R → Type 0
  a < b = n.lt a b ≡ true

  -- The literal of a whole number.
  abbrev pub num : ℕ → R
  num = n.num

  -- Python's `==` of numbers.
  abbrev pub ◌==?◌ : R → R → Bool
  a ==? b = (a ≤? b) && (b ≤? a)

  -- Python keeps the first of two arguments that compare equal.
  unfoldable pub min : R → R → R
  min a b = if b <? a then b else a

  unfoldable pub max : R → R → R
  max a b = if a <? b then b else a

  unfoldable pub abs : R → R
  abs a = if a <? num 0 then neg a else a

-- What comparisons and rounded operations of finite doubles obey, away from NaN and overflow; `num-lt`
-- for the naturals up to 2 ^ 53, which a double holds exactly. The code's literals and counts are
-- such naturals.
pub record IsOrdered (R : Type 0) ⦃n : Number R⦄ : Type 0 where
  pub le_refl : (a : R) → a ≤ a
  pub le_trans : (a b c : R) → a ≤ b → b ≤ c → a ≤ c
  pub le_total : (a b : R) → (a ≤? b) ≡ false → b ≤ a
  pub lt-eq-not-le : (a b : R) → (a <? b) ≡ not (b ≤? a)
  pub num-lt : (k m : ℕ) → nat_lt k m → num {R = R} k < num m
  pub add_comm : (a b : R) → a + b ≡ b + a
  pub mul_comm : (a b : R) → a * b ≡ b * a
  pub add_nonneg : (a b : R) → num 0 ≤ a → num 0 ≤ b → num 0 ≤ a + b
  pub sub_nonneg : (a b : R) → b ≤ a → num 0 ≤ a - b
  pub sub-le : (a b : R) → num 0 ≤ b → a - b ≤ a
  pub mul_nonneg : (a b : R) → num 0 ≤ a → num 0 ≤ b → num 0 ≤ a * b
  pub div_nonneg : (a b : R) → num 0 ≤ a → num 0 < b → num 0 ≤ a / b
  pub add-le-add_right : (a b c : R) → a ≤ b → a + c ≤ b + c
  pub mul-le-mul_right : (a b c : R) → num 0 ≤ c → a ≤ b → a * c ≤ b * c
  pub div-le-div_left : (a b c : R) → num 0 ≤ a → num 0 < b → b ≤ c → a / c ≤ a / b
  pub div-le-div_right : (a b c : R) → num 0 < c → a ≤ b → a / c ≤ b / c

-- The laws of an ordered field; division is by positive numbers only.
pub record IsExact (R : Type 0) ⦃n : Number R⦄ : Type 0 where
  pub ordered : IsOrdered R
  pub le_antisymm : (a b : R) → a ≤ b → b ≤ a → a ≡ b
  pub mul_pos : (a b : R) → num 0 < a → num 0 < b → num 0 < a * b
  pub num-add : (k m : ℕ) → num (nat_add k m) ≡ num {R = R} k + num m
  pub num-mul : (k m : ℕ) → num (nat_mul k m) ≡ num {R = R} k * num m
  pub add_assoc : (a b c : R) → a + b + c ≡ a + (b + c)
  pub zero-add : (a : R) → num 0 + a ≡ a
  pub add-neg : (a : R) → a + neg a ≡ num 0
  pub sub-eq-add : (a b : R) → a - b ≡ a + neg b
  pub mul_assoc : (a b c : R) → a * b * c ≡ a * (b * c)
  pub one-mul : (a : R) → num 1 * a ≡ a
  pub mul-add : (a b c : R) → a * (b + c) ≡ a * b + a * c
  pub div-eq-mul : (a b : R) → a / b ≡ a * (num 1 / b)
  pub mul-inv : (a : R) → num 0 < a → a * (num 1 / a) ≡ num 1
