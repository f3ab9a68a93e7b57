-- ===== src/Number/RationalLaws.antt =====
-- The rationals obey the laws of exact arithmetic.
use Prim.Native.Nat.{ℕ, suc, ◌+◌, ◌-◌, ◌*◌, ◌≤◌, ◌<◌}
use mathlib.Core.Path.{◌≡◌, refl, sym, ap, ◌∙◌}
use mathlib.Core.Bool.{true, false, not, Bool-set}
use mathlib.Core.Quot
use mathlib.Core.Quot.{Quot-set}
use mathlib.Core.HLevel.{Π_prop}
use native.Mathlib.Nat.{
  lt_of_mul-lt-mul_right, mul-lt-mul_of_pos_right, le_of_mul-le-mul_right,
  mul-le-mul_right as nat_mono,
}
use native.Mathlib.Omega.{arith}
use nvda_tranched_arc.Number.{IsOrdered, IsExact}
use nvda_tranched_arc.Number.Fractions.{
  scaled, of_below, to_below, Fraction, ◌∼◌, left, sum, minus, product, recip, gap, recip_pos,
}
use nvda_tranched_arc.Number.Rational.{
  ℚ, point, ◌+ℚ◌, ◌*ℚ◌, neg_ℚ, recip_ℚ, le_ℚ, nat_ℚ, rational, on_fraction, eq_on_two, eq_on_three,
}

add_comm : (p q : ℚ) → p +ℚ q ≡ q +ℚ p
add_comm = eq_on_two ◌+ℚ◌ (λ p q. q +ℚ p) (λ x y. Quot.sound (omega arith))

add_assoc : (p q r : ℚ) → p +ℚ q +ℚ r ≡ p +ℚ (q +ℚ r)
add_assoc =
    eq_on_three (λ p q r. p +ℚ q +ℚ r) (λ p q r. p +ℚ (q +ℚ r))
      (λ x y z.
        Quot.sound
          (scaled (sum (sum x y) z) (sum x (sum y z)) 1 (omega arith) (omega arith) (omega arith)))

mul_comm : (p q : ℚ) → p *ℚ q ≡ q *ℚ p
mul_comm = eq_on_two ◌*ℚ◌ (λ p q. q *ℚ p) (λ x y. Quot.sound (omega arith))

mul_assoc : (p q r : ℚ) → p *ℚ q *ℚ r ≡ p *ℚ (q *ℚ r)
mul_assoc =
    eq_on_three (λ p q r. p *ℚ q *ℚ r) (λ p q r. p *ℚ (q *ℚ r)) (λ x y z. Quot.sound (omega arith))

mul-add : (p q r : ℚ) → p *ℚ (q +ℚ r) ≡ p *ℚ q +ℚ p *ℚ r
mul-add =
    eq_on_three (λ p q r. p *ℚ (q +ℚ r)) (λ p q r. p *ℚ q +ℚ p *ℚ r)
      (λ x y z. Quot.sound (
        scaled (product x (sum y z)) (sum (product x y) (product x z)) (suc x.den) (omega arith)
          (omega arith) (omega arith)))

zero-add : (p : ℚ) → nat_ℚ 0 +ℚ p ≡ p
zero-add =
    on_fraction {P = λ p. nat_ℚ 0 +ℚ p ≡ p} (λ p. Quot-set _ _) (λ x. Quot.sound (omega arith))

one-mul : (p : ℚ) → nat_ℚ 1 *ℚ p ≡ p
one-mul =
    on_fraction {P = λ p. nat_ℚ 1 *ℚ p ≡ p} (λ p. Quot-set _ _) (λ x. Quot.sound (omega arith))

add-neg : (p : ℚ) → p +ℚ neg_ℚ p ≡ nat_ℚ 0
add-neg =
    on_fraction {P = λ p. p +ℚ neg_ℚ p ≡ nat_ℚ 0} (λ p. Quot-set _ _)
      (λ x. Quot.sound (omega arith))

module _ {P : ℚ → ℚ → Type 0} (P_prop : (p q : ℚ) → IsProp (P p q)) where
  on_two : ((x y : Fraction) → P (point x) (point y)) → (p q : ℚ) → P p q
  on_two h p q =
      Quot.ind {β = λ p. P p q} (λ p. P_prop p q)
        (λ x. Quot.ind {β = λ q. P (point x) q} (λ q. P_prop (point x) q) (h x) q) p

module _ {P : ℚ → ℚ → ℚ → Type 0} (P_prop : (p q r : ℚ) → IsProp (P p q r)) where
  on_three : ((x y z : Fraction) → P (point x) (point y) (point z)) → (p q r : ℚ) → P p q r
  on_three h p q r =
      Quot.ind {β = λ p. P p q r} (λ p. P_prop p q r)
        (λ x. on_two {P = P (point x)} (P_prop (point x)) (h x) q r) p

le_refl : (p : ℚ) → le_ℚ p p ≡ true
le_refl =
    on_fraction {P = λ p. le_ℚ p p ≡ true} (λ p. Bool-set _ _) (λ x. to_below x x (omega arith))

cross_trans : (x y z : Fraction) → left x y ≤ left y x → left y z ≤ left z y → left x z ≤ left z x
cross_trans x y z h k =
    le_of_mul-le-mul_right {k = suc y.den}
      (omega (arith, nat_mono (suc z.den) h, nat_mono (suc x.den) k)) (omega arith)

le_trans : (p q r : ℚ) → le_ℚ p q ≡ true → le_ℚ q r ≡ true → le_ℚ p r ≡ true
le_trans =
    on_three {P = λ p q r. le_ℚ p q ≡ true → le_ℚ q r ≡ true → le_ℚ p r ≡ true}
      (λ p q r. Π_prop (λ _. Π_prop (λ _. Bool-set _ _)))
      (λ x y z h k. to_below x z (cross_trans x y z (of_below x y h) (of_below y z k)))

le_total : (p q : ℚ) → le_ℚ p q ≡ false → le_ℚ q p ≡ true
le_total =
    on_two {P = λ p q. le_ℚ p q ≡ false → le_ℚ q p ≡ true} (λ p q. Π_prop (λ _. Bool-set _ _))
      (λ x y h. ground arith)

le_antisymm : (p q : ℚ) → le_ℚ p q ≡ true → le_ℚ q p ≡ true → p ≡ q
le_antisymm =
    on_two {P = λ p q. le_ℚ p q ≡ true → le_ℚ q p ≡ true → p ≡ q}
      (λ p q. Π_prop (λ _. Π_prop (λ _. Quot-set _ _)))
      (λ x y h k. Quot.sound (omega (arith, of_below x y h, of_below y x k)))

num-lt : (k m : ℕ) → k < m → not (le_ℚ (nat_ℚ m) (nat_ℚ k)) ≡ true
num-lt k m h = ground arith

IsNonneg : Fraction → Type 0
IsNonneg x = x.down ≤ x.up

of_nonneg : (x : Fraction) → le_ℚ (nat_ℚ 0) (point x) ≡ true → x.down ≤ x.up
of_nonneg x h = omega (arith, of_below _ x h)

to_nonneg : (x : Fraction) → x.down ≤ x.up → le_ℚ (nat_ℚ 0) (point x) ≡ true
to_nonneg x h = to_below _ x (omega arith)

of_positive : (x : Fraction) → not (le_ℚ (point x) (nat_ℚ 0)) ≡ true → x.down < x.up
of_positive x h = ground arith

to_positive : (x : Fraction) → x.down < x.up → not (le_ℚ (point x) (nat_ℚ 0)) ≡ true
to_positive x h = ground arith

add_nonneg :
    (p q : ℚ) → le_ℚ (nat_ℚ 0) p ≡ true → le_ℚ (nat_ℚ 0) q ≡ true → le_ℚ (nat_ℚ 0) (p +ℚ q) ≡ true
add_nonneg =
    on_two
      {P = λ p q.
        le_ℚ (nat_ℚ 0) p ≡ true → le_ℚ (nat_ℚ 0) q ≡ true → le_ℚ (nat_ℚ 0) (p +ℚ q) ≡ true}
      (λ p q. Π_prop (λ _. Π_prop (λ _. Bool-set _ _)))
      (λ x y h k.
        to_nonneg (sum x y) (
          omega
            (arith, nat_mono (suc y.den) (of_nonneg x h), nat_mono (suc x.den) (of_nonneg y k))))

sub_nonneg : (p q : ℚ) → le_ℚ q p ≡ true → le_ℚ (nat_ℚ 0) (p +ℚ neg_ℚ q) ≡ true
sub_nonneg =
    on_two {P = λ p q. le_ℚ q p ≡ true → le_ℚ (nat_ℚ 0) (p +ℚ neg_ℚ q) ≡ true}
      (λ p q. Π_prop (λ _. Bool-set _ _))
      (λ x y h. to_nonneg (sum x (minus y)) (omega (arith, of_below y x h)))

sub-le : (p q : ℚ) → le_ℚ (nat_ℚ 0) q ≡ true → le_ℚ (p +ℚ neg_ℚ q) p ≡ true
sub-le =
    on_two {P = λ p q. le_ℚ (nat_ℚ 0) q ≡ true → le_ℚ (p +ℚ neg_ℚ q) p ≡ true}
      (λ p q. Π_prop (λ _. Bool-set _ _))
      (λ x y h.
        to_below (sum x (minus y)) x
          (omega (arith, nat_mono (suc x.den * suc x.den) (of_nonneg y h))))

product_sign : (a k b l : ℕ) → (a + k) * b + a * (b + l) ≤ (a + k) * (b + l) + a * b
product_sign a k b l = omega arith

product-IsNonneg : (x y : Fraction) → IsNonneg x → IsNonneg y → IsNonneg (product x y)
unfolding IsNonneg
product-IsNonneg x y h k =
    rw (x_split, y_split) at (product_sign x.down (x.up - x.down) y.down (y.up - y.down))
  where
    x_split : x.down + (x.up - x.down) ≡ x.up
    x_split = omega arith

    y_split : y.down + (y.up - y.down) ≡ y.up
    y_split = omega arith

mul_nonneg :
    (p q : ℚ) → le_ℚ (nat_ℚ 0) p ≡ true → le_ℚ (nat_ℚ 0) q ≡ true → le_ℚ (nat_ℚ 0) (p *ℚ q) ≡ true
unfolding IsNonneg
mul_nonneg =
    on_two
      {P = λ p q.
        le_ℚ (nat_ℚ 0) p ≡ true → le_ℚ (nat_ℚ 0) q ≡ true → le_ℚ (nat_ℚ 0) (p *ℚ q) ≡ true}
      (λ p q. Π_prop (λ _. Π_prop (λ _. Bool-set _ _)))
      (λ x y h k. to_nonneg (product x y) (product-IsNonneg x y (of_nonneg x h) (of_nonneg y k)))

recip_nonneg : (q : ℚ) → not (le_ℚ q (nat_ℚ 0)) ≡ true → le_ℚ (nat_ℚ 0) (recip_ℚ q) ≡ true
recip_nonneg =
    on_fraction {P = λ q. not (le_ℚ q (nat_ℚ 0)) ≡ true → le_ℚ (nat_ℚ 0) (recip_ℚ q) ≡ true}
      (λ q. Π_prop (λ _. Bool-set _ _))
      (λ x h. to_nonneg (recip x) (rw (recip_pos x (of_positive x h)) (omega arith)))

product_mono :
    (x y z : Fraction) (k : ℕ)
    → z.up ≡ z.down + k
    → left x y ≤ left y x
    → left (product x z) (product y z) ≤ left (product y z) (product x z)
product_mono x y z k e h = rw e (omega (arith, nat_mono (k * suc z.den) h))

mul-le-mul_right :
    (p q r : ℚ) → le_ℚ (nat_ℚ 0) r ≡ true → le_ℚ p q ≡ true → le_ℚ (p *ℚ r) (q *ℚ r) ≡ true
mul-le-mul_right =
    on_three
      {P = λ p q r. le_ℚ (nat_ℚ 0) r ≡ true → le_ℚ p q ≡ true → le_ℚ (p *ℚ r) (q *ℚ r) ≡ true}
      (λ p q r. Π_prop (λ _. Π_prop (λ _. Bool-set _ _)))
      (λ x y z h k.
        to_below (product x z) (product y z)
          (product_mono x y z (z.up - z.down) (omega (arith, of_nonneg z h)) (of_below x y k)))

add-le-add_right : (p q r : ℚ) → le_ℚ p q ≡ true → le_ℚ (p +ℚ r) (q +ℚ r) ≡ true
add-le-add_right =
    on_three {P = λ p q r. le_ℚ p q ≡ true → le_ℚ (p +ℚ r) (q +ℚ r) ≡ true}
      (λ p q r. Π_prop (λ _. Bool-set _ _))
      (λ x y z h.
        to_below (sum x z) (sum y z)
          (omega (arith, nat_mono (suc z.den * suc z.den) (of_below x y h))))

product_positive :
    (a k b l : ℕ) → (a + suc k) * b + a * (b + suc l) < (a + suc k) * (b + suc l) + a * b
product_positive a k b l = omega arith

mul_pos :
    (p q : ℚ)
    → not (le_ℚ p (nat_ℚ 0)) ≡ true
    → not (le_ℚ q (nat_ℚ 0)) ≡ true
    → not (le_ℚ (p *ℚ q) (nat_ℚ 0)) ≡ true
mul_pos =
    on_two
      {P = λ p q.
        not (le_ℚ p (nat_ℚ 0)) ≡ true
        → not (le_ℚ q (nat_ℚ 0)) ≡ true
        → not (le_ℚ (p *ℚ q) (nat_ℚ 0)) ≡ true}
      (λ p q. Π_prop (λ _. Π_prop (λ _. Bool-set _ _)))
      (λ x y h k. to_positive (product x y) (
        rw (gap x.up x.down (of_positive x h), gap y.up y.down (of_positive y k)) at
          (product_positive x.down (x.up - x.down - 1) y.down (y.up - y.down - 1))))

positive_le : (x y : Fraction) → x.down < x.up → left x y ≤ left y x → y.down < y.up
positive_le x y p h =
    lt_of_mul-lt-mul_right (suc x.den)
      (omega (arith, h, mul-lt-mul_of_pos_right {k = suc y.den} p (omega arith)))

recip_cross_le :
    (x y : Fraction) (k l : ℕ)
    → x.up ≡ x.down + suc k
    → y.up ≡ y.down + suc l
    → left x y ≤ left y x
    → suc y.den * suc k ≤ suc x.den * suc l
recip_cross_le x y k l e f h =
    let h' : (x.down + suc k) * suc y.den + y.down * suc x.den
        ≤ (y.down + suc l) * suc x.den + x.down * suc y.den =
      rw (← e, ← f) h in
    omega arith

recip_antitone :
    (q r : ℚ)
    → not (le_ℚ q (nat_ℚ 0)) ≡ true
    → le_ℚ q r ≡ true
    → le_ℚ (recip_ℚ r) (recip_ℚ q) ≡ true
recip_antitone =
    on_two
      {P = λ q r.
        not (le_ℚ q (nat_ℚ 0)) ≡ true → le_ℚ q r ≡ true → le_ℚ (recip_ℚ r) (recip_ℚ q) ≡ true}
      (λ q r. Π_prop (λ _. Π_prop (λ _. Bool-set _ _)))
      (λ x y h k.
        let px = of_positive x h in
        let le = of_below x y k in
        let py = positive_le x y px le in
        rw (recip_pos x px, recip_pos y py)
          (to_below _ _ (
            omega (
              arith,
              recip_cross_le x y (x.up - x.down - 1) (y.up - y.down - 1) (omega arith) (omega arith)
                  le,
            ))))

div-le-div_left :
    (p q r : ℚ)
    → le_ℚ (nat_ℚ 0) p ≡ true
    → not (le_ℚ q (nat_ℚ 0)) ≡ true
    → le_ℚ q r ≡ true
    → le_ℚ (p *ℚ recip_ℚ r) (p *ℚ recip_ℚ q) ≡ true
div-le-div_left p q r hp hq h =
    rw (mul_comm p (recip_ℚ r), mul_comm p (recip_ℚ q))
      (mul-le-mul_right (recip_ℚ r) (recip_ℚ q) p hp (recip_antitone q r hq h))

recip_unit :
    (x : Fraction) (k : ℕ)
    → x.up ≡ x.down + suc k
    → product x (record { up = suc x.den; down = 0; den = k })
      ∼ record { up = 1; down = 0; den = 0 }
recip_unit x k e = rw e (omega arith)

mul-inv : (p : ℚ) → not (le_ℚ p (nat_ℚ 0)) ≡ true → p *ℚ (nat_ℚ 1 *ℚ recip_ℚ p) ≡ nat_ℚ 1
mul-inv =
    on_fraction {P = λ p. not (le_ℚ p (nat_ℚ 0)) ≡ true → p *ℚ (nat_ℚ 1 *ℚ recip_ℚ p) ≡ nat_ℚ 1}
      (λ p. Π_prop (λ _. Quot-set _ _))
      (λ x h.
        ap (λ q. point x *ℚ q) (one-mul (recip_ℚ (point x)))
        ∙ rw (recip_pos x (of_positive x h)) (
            Quot.sound
              (recip_unit x (x.up - x.down - 1) (sym (gap x.up x.down (of_positive x h))))))

pub ordered : IsOrdered ℚ
ordered = record {
  le_refl = le_refl;
  le_trans = le_trans;
  le_total = le_total;
  lt-eq-not-le = λ p q. refl;
  num-lt = num-lt;
  add_comm = add_comm;
  mul_comm = mul_comm;
  add_nonneg = add_nonneg;
  sub_nonneg = sub_nonneg;
  sub-le = sub-le;
  mul_nonneg = mul_nonneg;
  div_nonneg = λ p q h k. mul_nonneg p (recip_ℚ q) h (recip_nonneg q k);
  add-le-add_right = add-le-add_right;
  mul-le-mul_right = mul-le-mul_right;
  div-le-div_left = div-le-div_left;
  div-le-div_right = λ p q r h k. mul-le-mul_right p q (recip_ℚ r) (recip_nonneg r h) k;
}

pub exact : IsExact ℚ
exact = record {
  ordered = ordered;
  le_antisymm = le_antisymm;
  mul_pos = mul_pos;
  num-add = λ k m. Quot.sound (omega arith);
  num-mul = λ k m. Quot.sound (omega arith);
  add_assoc = add_assoc;
  zero-add = zero-add;
  add-neg = add-neg;
  sub-eq-add = λ p q. refl;
  mul_assoc = mul_assoc;
  one-mul = one-mul;
  mul-add = mul-add;
  div-eq-mul = λ p q. rw one-mul;
  mul-inv = mul-inv;
}
