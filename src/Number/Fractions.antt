-- ===== src/Number/Fractions.antt =====
-- Fractions (up - down) / (den + 1), equal across representations by cross multiplication.
use Prim.Native.Nat.{ℕ, suc, ◌+◌, ◌-◌, ◌*◌, ◌≤◌, ◌<◌, compare, Ordering}
use mathlib.Core.Path.{◌≡◌, sym, ap}
use mathlib.Core.Bool.{Bool, true, false}
use mathlib.Core.Logic.{◌⊎◌, inl, inr}
use native.Mathlib.Omega.{arith}
use native.Mathlib.Nat.{
  eq_of_mul-eq-mul_right, le_of_mul-le-mul_right, mul-le-mul_right, lt_of_mul-lt-mul_right,
  mul-lt-mul_of_pos_right,
}

abbrev pub leb : ℕ → ℕ → Bool
leb a b = elim (compare a b) [ Ordering.gt ↦ false | _ ↦ true ]

-- (up - down) / (den + 1)
pub record Fraction : Type 0 where
  pub up : ℕ
  pub down : ℕ
  pub den : ℕ

abbrev pub over : Fraction → ℕ
over x = suc x.den

-- The numerators brought over one denominator, negative parts on the other side.
abbrev pub left : Fraction → Fraction → ℕ
left x y = x.up * suc y.den + y.down * suc x.den

infix 4 ◌∼◌
abbrev pub ◌∼◌ : Fraction → Fraction → Type 0
x ∼ y = left x y ≡ left y x

abbrev pub sum : Fraction → Fraction → Fraction
sum x y = record {
  up = x.up * suc y.den + y.up * suc x.den;
  down = x.down * suc y.den + y.down * suc x.den;
  den = x.den * y.den + x.den + y.den;
}

abbrev pub minus : Fraction → Fraction
minus x = record { up = x.down; down = x.up; den = x.den }

abbrev pub product : Fraction → Fraction → Fraction
product x y = record {
  up = x.up * y.up + x.down * y.down;
  down = x.up * y.down + x.down * y.up;
  den = x.den * y.den + x.den + y.den;
}

pub sum_congr : (x x' y : Fraction) → x ∼ x' → sum x y ∼ sum x' y
sum_congr x x' y h = omega (arith, ap (λ (t : ℕ). t * suc y.den * suc y.den) h)

pub product_congr : (x x' y : Fraction) → x ∼ x' → product x y ∼ product x' y
product_congr x x' y h =
    omega (arith, ap (λ (t : ℕ). t * y.up * suc y.den) h, ap (λ (t : ℕ). t * y.down * suc y.den) h)

abbrev pub below : Fraction → Fraction → Bool
below x y = leb (left x y) (left y x)

cross_le : (x x' y : Fraction) → x ∼ x' → left x y ≤ left y x → left x' y ≤ left y x'
cross_le x x' y h k =
    le_of_mul-le-mul_right {k = suc x.den}
      (omega (arith, mul-le-mul_right (suc x'.den) k, ap (λ (t : ℕ). t * suc y.den) h))
      (omega arith)

cross_ge : (x x' y : Fraction) → x ∼ x' → left y x ≤ left x y → left y x' ≤ left x' y
cross_ge x x' y h k =
    le_of_mul-le-mul_right {k = suc x.den}
      (omega (arith, mul-le-mul_right (suc x'.den) k, ap (λ (t : ℕ). t * suc y.den) h))
      (omega arith)

leb_congr : (a b c d : ℕ) → (a ≤ b → c ≤ d) → (c ≤ d → a ≤ b) → leb a b ≡ leb c d
leb_congr a b c d f g = ground (arith, f, g)

pub below_congr_left : (x x' y : Fraction) → x ∼ x' → below x y ≡ below x' y
below_congr_left x x' y h =
    leb_congr (left x y) (left y x) (left x' y) (left y x') (cross_le x x' y h)
      (cross_le x' x y (sym h))

pub below_congr_right : (x y y' : Fraction) → y ∼ y' → below x y ≡ below x y'
below_congr_right x y y' h =
    leb_congr (left x y) (left y x) (left x y') (left y' x) (cross_ge y y' x h)
      (cross_ge y' y x (sym h))

pub trichotomy : (a b : ℕ) → (a < b) ⊎ ((a ≡ b) ⊎ (b < a))
trichotomy a b = ground arith

-- The reciprocal, by the sign of the numerator; that of zero is zero.
abbrev pub recip_by : Ordering → Fraction → Fraction
recip_by Ordering.gt x = record { up = suc x.den; down = 0; den = x.up - x.down - 1 }
recip_by Ordering.lt x = record { up = 0; down = suc x.den; den = x.down - x.up - 1 }
recip_by Ordering.eq x = record { up = 0; down = 0; den = 0 }

abbrev pub recip : Fraction → Fraction
recip x = recip_by (compare x.up x.down) x

pub recip_pos : (x : Fraction) → x.down < x.up → recip x ≡ recip_by Ordering.gt x
recip_pos x h = ground arith

pub recip_neg : (x : Fraction) → x.up < x.down → recip x ≡ recip_by Ordering.lt x
recip_neg x h = ground arith

pub recip_zero : (x : Fraction) → x.up ≡ x.down → recip x ≡ recip_by Ordering.eq x
recip_zero x h = ground arith

positive_congr : (x x' : Fraction) → x ∼ x' → x.down < x.up → x'.down < x'.up
positive_congr x x' h p =
    lt_of_mul-lt-mul_right (suc x.den)
      (omega (arith, h, mul-lt-mul_of_pos_right {k = suc x'.den} p (omega arith)))

negative_congr : (x x' : Fraction) → x ∼ x' → x.up < x.down → x'.up < x'.down
negative_congr x x' h p =
    lt_of_mul-lt-mul_right (suc x.den)
      (omega (arith, h, mul-lt-mul_of_pos_right {k = suc x'.den} p (omega arith)))

recip_cross :
    (d k e d' k' e' : ℕ)
    → (d + suc k) * suc e' + d' * suc e ≡ (d' + suc k') * suc e + d * suc e'
    → suc e * suc k' ≡ suc e' * suc k
recip_cross d k e d' k' e' h = omega arith

pub gap : (u d : ℕ) → d < u → d + suc (u - d - 1) ≡ u
gap u d h = omega arith

zero_congr : (x x' : Fraction) → x ∼ x' → x.down ≡ x.up → x'.up ≡ x'.down
zero_congr x x' h e =
    eq_of_mul-eq-mul_right (suc x.den) (omega arith) x'.up x'.down
      (omega (arith, h, ap (λ (t : ℕ). t * suc x'.den) e))

pub recip_congr : (x x' : Fraction) → x ∼ x' → recip x ∼ recip x'
recip_congr x x' h = elim (trichotomy x.down x.up) [
  | inl p ↦
      let p' = positive_congr x x' h p in
      rw (recip_pos x p, recip_pos x' p')
        (omega (
          arith,
          recip_cross x.down (x.up - x.down - 1) x.den x'.down (x'.up - x'.down - 1) x'.den
              (rw (gap x.up x.down p, gap x'.up x'.down p') h),
        ))
  | inr (inl e) ↦ rw (recip_zero x (sym e), recip_zero x' (zero_congr x x' h e))
  | inr (inr p) ↦
      let p' = negative_congr x x' h p in
      rw (recip_neg x p, recip_neg x' p')
        (omega (
          arith,
          recip_cross x.up (x.down - x.up - 1) x.den x'.up (x'.down - x'.up - 1) x'.den
              (rw (gap x.down x.up p, gap x'.down x'.up p') (omega (arith, h))),
        ))
]

pub minus_congr : (x x' : Fraction) → x ∼ x' → minus x ∼ minus x'
minus_congr x x' h = omega arith

pub sum_congr_right : (x y y' : Fraction) → y ∼ y' → sum x y ∼ sum x y'
sum_congr_right x y y' h = omega (arith, ap (λ (t : ℕ). t * suc x.den * suc x.den) h)

pub product_congr_right : (x y y' : Fraction) → y ∼ y' → product x y ∼ product x y'
product_congr_right x y y' h =
    omega (arith, ap (λ (t : ℕ). t * x.up * suc x.den) h, ap (λ (t : ℕ). t * x.down * suc x.den) h)

-- A fraction and the same one over `k` times the denominator.
pub scaled :
    (x y : Fraction) (k : ℕ)
    → y.up ≡ x.up * k
    → y.down ≡ x.down * k
    → suc y.den ≡ suc x.den * k
    → x ∼ y
scaled x y k u d e = rw (u, d, e) (omega arith)

pub of_below : (x y : Fraction) → below x y ≡ true → left x y ≤ left y x
of_below x y h = ground arith

pub to_below : (x y : Fraction) → left x y ≤ left y x → below x y ≡ true
to_below x y h = ground arith
