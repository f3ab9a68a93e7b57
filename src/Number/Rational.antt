-- ===== src/Number/Rational.antt =====
-- Rational numbers: fractions up to cross multiplication. They are the numbers of the concrete runs.
use Prim.Native.Nat.{ℕ}
use mathlib.Core.Path.{◌≡◌}
use mathlib.Core.Bool.{Bool, not, Bool-set}
use mathlib.Core.Quot
use mathlib.Core.Quot.{Quot, Quot-set}
use nvda_tranched_arc.Number.{Number}
use nvda_tranched_arc.Number.Fractions.{
  Fraction, ◌∼◌, sum, product, minus, recip, below, sum_congr, sum_congr_right, product_congr,
  product_congr_right, minus_congr, recip_congr, below_congr_left, below_congr_right,
}

abbrev pub ℚ : Type 0
ℚ = Quot ◌∼◌

-- A function of two fractions that respects their equality on each side.
module _ {A : Type 0} (A_set : IsSet A) (f : Fraction → Fraction → A)
    (on_left : (x x' y : Fraction) → x ∼ x' → f x y ≡ f x' y)
    (on_right : (x y y' : Fraction) → y ∼ y' → f x y ≡ f x y') where
  abbrev pub lift₂ : ℚ → ℚ → A
  lift₂ p q =
      Quot.lift A_set (λ x. Quot.lift A_set (f x) (on_right x) q)
        (λ x x' h.
          Quot.ind
            {β = λ q. Quot.lift A_set (f x) (on_right x) q ≡ Quot.lift A_set (f x') (on_right x') q}
            (λ q. A_set _ _) (λ y. on_left x x' y h) q)
        p

abbrev pub point : Fraction → ℚ
point = Quot.mk

infixl 65 ◌+ℚ◌
infixl 70 ◌*ℚ◌
abbrev pub ◌+ℚ◌ : ℚ → ℚ → ℚ
◌+ℚ◌ =
    lift₂ Quot-set (λ x y. point (sum x y)) (λ x x' y h. Quot.sound (sum_congr x x' y h))
      (λ x y y' h. Quot.sound (sum_congr_right x y y' h))

abbrev pub ◌*ℚ◌ : ℚ → ℚ → ℚ
◌*ℚ◌ =
    lift₂ Quot-set (λ x y. point (product x y)) (λ x x' y h. Quot.sound (product_congr x x' y h))
      (λ x y y' h. Quot.sound (product_congr_right x y y' h))

abbrev pub neg_ℚ : ℚ → ℚ
neg_ℚ = Quot.lift Quot-set (λ x. point (minus x)) (λ x x' h. Quot.sound (minus_congr x x' h))

abbrev pub recip_ℚ : ℚ → ℚ
recip_ℚ = Quot.lift Quot-set (λ x. point (recip x)) (λ x x' h. Quot.sound (recip_congr x x' h))

abbrev pub le_ℚ : ℚ → ℚ → Bool
le_ℚ = lift₂ Bool-set below below_congr_left below_congr_right

abbrev pub nat_ℚ : ℕ → ℚ
nat_ℚ k = point (record { up = k; down = 0; den = 0 })

instance abbrev pub rational : Number ℚ
rational = record {
  num = nat_ℚ;
  add = ◌+ℚ◌;
  sub = λ p q. p +ℚ neg_ℚ q;
  mul = ◌*ℚ◌;
  div = λ p q. p *ℚ recip_ℚ q;
  neg = neg_ℚ;
  lt = λ p q. not (le_ℚ q p);
  le = le_ℚ;
}

-- Statements about one, two or three rationals need only be shown of fractions.
module _ {P : ℚ → Type 0} (P_prop : (p : ℚ) → IsProp (P p)) where
  pub on_fraction : ((x : Fraction) → P (point x)) → (p : ℚ) → P p
  on_fraction h = Quot.ind P_prop h

module _ (f g : ℚ → ℚ → ℚ) where
  pub eq_on_two :
      ((x y : Fraction) → f (point x) (point y) ≡ g (point x) (point y)) → (p q : ℚ) → f p q ≡ g p q
  eq_on_two h p q =
      Quot.ind {β = λ p. f p q ≡ g p q} (λ p. Quot-set _ _)
        (λ x. Quot.ind {β = λ q. f (point x) q ≡ g (point x) q} (λ q. Quot-set _ _) (h x) q) p

module _ (f g : ℚ → ℚ → ℚ → ℚ) where
  pub eq_on_three :
      ((x y z : Fraction) → f (point x) (point y) (point z) ≡ g (point x) (point y) (point z))
      → (p q r : ℚ) → f p q r ≡ g p q r
  eq_on_three h p q r =
      Quot.ind {β = λ p. f p q r ≡ g p q r} (λ p. Quot-set _ _)
        (λ x. eq_on_two (f (point x)) (g (point x)) (h x) q r) p
