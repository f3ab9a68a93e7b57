-- ===== src/Number/Algebra.antt =====
-- What follows from exact arithmetic.
use nvda_tranched_arc.Prelude.{
  ◌≡◌, sym, ap, ◌∙◌, ◌≡⟨◌⟩◌, ◌∎, Bool-cases, inl, inr, false≢true, arith,
}
use nvda_tranched_arc.Number.Order.{
  le_of_lt, le_of_not-lt, not-lt_of_le, lt_of_not-le, lt_irrefl, num_nonneg,
}
use nvda_tranched_arc.Number.{
  Number, ◌+◌, ◌-◌, ◌*◌, ◌/◌, neg, ◌≤◌, ◌<◌, ◌≤?◌, ◌<?◌, num, IsExact, max,
}

module _ {R : Type 0} ⦃n : Number R⦄ (e : IsExact R) where
  -- The laws of the record, with the record as an argument that `simp` fills.
  pub add_comm : (a b : R) → a + b ≡ b + a
  add_comm = e.ordered.add_comm

  pub add_assoc : (a b c : R) → a + b + c ≡ a + (b + c)
  add_assoc = e.add_assoc

  pub zero-add : (a : R) → num 0 + a ≡ a
  zero-add = e.zero-add

  pub add-neg : (a : R) → a + neg a ≡ num 0
  add-neg = e.add-neg

  pub sub-eq-add : (a b : R) → a - b ≡ a + neg b
  sub-eq-add = e.sub-eq-add

  pub mul_comm : (a b : R) → a * b ≡ b * a
  mul_comm = e.ordered.mul_comm

  pub mul_assoc : (a b c : R) → a * b * c ≡ a * (b * c)
  mul_assoc = e.mul_assoc

  pub one-mul : (a : R) → num 1 * a ≡ a
  one-mul = e.one-mul

  pub mul-add : (a b c : R) → a * (b + c) ≡ a * b + a * c
  mul-add = e.mul-add

  pub add_left_comm : (a b c : R) → a + (b + c) ≡ b + (a + c)
  add_left_comm a b c = rw (← add_assoc, add_comm a b, add_assoc)

  pub add-zero : (a : R) → a + num 0 ≡ a
  add-zero a = rw (add_comm, zero-add)

  pub add-neg_cancel : (a b : R) → a + (neg a + b) ≡ b
  add-neg_cancel a b = rw (← add_assoc, add-neg, zero-add)

  pub neg-zero : neg (num 0) ≡ num {R = R} 0
  neg-zero = sym (zero-add (neg (num 0))) ∙ add-neg (num 0)

  -- Whatever adds up to zero with `a` is its negative.
  pub neg_unique : (a b : R) → a + b ≡ num 0 → b ≡ neg a
  neg_unique a b h =
      b
      ≡⟨ sym (zero-add b) ⟩ num 0 + b
      ≡⟨ (rw (← add-neg a, add_comm a, add_assoc)) ⟩ neg a + (a + b)
      ≡⟨ (rw (h, add-zero)) ⟩ neg a ∎

  pub neg-neg : (a : R) → neg (neg a) ≡ a
  neg-neg a = sym (neg_unique (neg a) a (rw (add_comm, add-neg)))

  -- A sum sorted by `simp` may hold other terms between `a` and its negative.
  pub cancel_last_1 : (a b : R) → a + (b + (neg a)) ≡ b
  cancel_last_1 a b = rw (add_left_comm, add-neg, add-zero)

  pub cancel_1 : (a b z : R) → a + (b + (neg a + (z))) ≡ b + (z)
  cancel_1 a b z = rw (add_left_comm, add-neg_cancel)

  pub cancel_last_2 : (a b c : R) → a + (b + (c + (neg a))) ≡ b + (c)
  cancel_last_2 a b c = rw (add_left_comm a b, cancel_last_1 a c)

  pub cancel_2 : (a b c z : R) → a + (b + (c + (neg a + (z)))) ≡ b + (c + (z))
  cancel_2 a b c z = rw (add_left_comm a b, cancel_1 a c z)

  pub cancel_last_3 : (a b c d : R) → a + (b + (c + (d + (neg a)))) ≡ b + (c + (d))
  cancel_last_3 a b c d = rw (add_left_comm a b, cancel_last_2 a c d)

  pub cancel_3 : (a b c d z : R) → a + (b + (c + (d + (neg a + (z))))) ≡ b + (c + (d + (z)))
  cancel_3 a b c d z = rw (add_left_comm a b, cancel_2 a c d z)

  pub cancel_last_4 : (a b c d f : R) → a + (b + (c + (d + (f + (neg a))))) ≡ b + (c + (d + (f)))
  cancel_last_4 a b c d f = rw (add_left_comm a b, cancel_last_3 a c d f)

  pub cancel_4 :
      (a b c d f z : R) → a + (b + (c + (d + (f + (neg a + (z)))))) ≡ b + (c + (d + (f + (z))))
  cancel_4 a b c d f z = rw (add_left_comm a b, cancel_3 a c d f z)

  pub cancel_last_5 :
      (a b c d f g : R) → a + (b + (c + (d + (f + (g + (neg a)))))) ≡ b + (c + (d + (f + (g))))
  cancel_last_5 a b c d f g = rw (add_left_comm a b, cancel_last_4 a c d f g)

  pub cancel_5 :
      (a b c d f g z : R)
      → a + (b + (c + (d + (f + (g + (neg a + (z))))))) ≡ b + (c + (d + (f + (g + (z)))))
  cancel_5 a b c d f g z = rw (add_left_comm a b, cancel_4 a c d f g z)

  pub neg-add : (a b : R) → neg (a + b) ≡ neg a + neg b
  neg-add a b = sym (neg_unique (a + b) (neg a + neg b) (simp (add_assoc, cancel_1) (add-neg b)))

  zero_of_double : (a : R) → a + a ≡ a → a ≡ num 0
  zero_of_double a h =
      a
      ≡⟨ sym (add-zero a) ⟩ a + num 0
      ≡⟨ (rw (← add-neg a, ← add_assoc)) ⟩ a + a + neg a
      ≡⟨ (rw (h, add-neg)) ⟩ num 0 ∎

  pub zero-mul : (a : R) → num 0 * a ≡ num 0
  zero-mul a = zero_of_double (num 0 * a) (rw (mul_comm, ← mul-add, zero-add))

  pub mul-zero : (a : R) → a * num 0 ≡ num 0
  mul-zero a = rw (mul_comm, zero-mul)

  pub mul-neg : (a b : R) → a * neg b ≡ neg (a * b)
  mul-neg a b = neg_unique (a * b) (a * neg b) (rw (← mul-add, add-neg, mul-zero))

  pub mul_left_comm : (a b c : R) → a * (b * c) ≡ b * (a * c)
  mul_left_comm a b c = rw (← mul_assoc, mul_comm a b, mul_assoc)

  pub mul-one : (a : R) → a * num 1 ≡ a
  mul-one a = rw (mul_comm, one-mul)

  pub neg-mul : (a b : R) → neg a * b ≡ neg (a * b)
  neg-mul a b = rw (mul_comm, mul-neg, mul_comm)

  pub add-mul : (a b c : R) → (a + b) * c ≡ a * c + b * c
  add-mul a b c = rw (mul_comm, mul-add, mul_comm a c, mul_comm b c)

-- Both sides multiplied out, sorted and cancelled; `simp (ring, e)` closes an identity.
pub ruleset ring = (
  add_comm, add_assoc, add_left_comm, add-zero, zero-add, add-neg, add-neg_cancel, neg-zero,
  neg-neg, neg-add, mul_comm, mul_assoc, mul_left_comm, mul-add, add-mul, mul-one, one-mul,
  mul-zero, zero-mul, mul-neg, neg-mul, sub-eq-add, cancel_last_1, cancel_1, cancel_last_2,
  cancel_2, cancel_last_3, cancel_3, cancel_last_4, cancel_4, cancel_last_5, cancel_5,
)

module _ {R : Type 0} ⦃n : Number R⦄ (e : IsExact R) where
  open e.ordered use {le_trans, mul-le-mul_right}

  pub sub-add_cancel : (a b : R) → a - b + b ≡ a
  sub-add_cancel a b = simp (ring, e)

  pub add-sub_cancel : (a b : R) → a + b - b ≡ a
  add-sub_cancel a b = simp (ring, e)

  pub add-sub_left : (a b : R) → a + b - a ≡ b
  add-sub_left a b = simp (ring, e)

  pub sub_self : (a : R) → a - a ≡ num 0
  sub_self a = simp (ring, e)

  pub add-le-add_left : (a b c : R) → a ≤ b → c + a ≤ c + b
  add-le-add_left a b c h =
      rw (e.ordered.add_comm c a, e.ordered.add_comm c b) (e.ordered.add-le-add_right a b c h)

  pub one-le_plus : (a : R) → num 0 ≤ a → num 1 ≤ num 1 + a
  one-le_plus a h = rw (add-zero e (num 1)) at (add-le-add_left (num 0) a (num 1) h)

  pub le-add_right : (a b : R) → num 0 ≤ b → a ≤ a + b
  le-add_right a b h = rw (add-zero e a) at (add-le-add_left (num 0) b a h)

  pub add-le-add : (a b c d : R) → a ≤ b → c ≤ d → a + c ≤ b + d
  add-le-add a b c d h k =
      le_trans (a + c) (b + c) (b + d) (e.ordered.add-le-add_right a b c h)
        (add-le-add_left c d b k)

  pub add-le_of_le-sub : (a b c : R) → a ≤ b - c → a + c ≤ b
  add-le_of_le-sub a b c h = rw (sub-add_cancel b c) at (e.ordered.add-le-add_right a (b - c) c h)

  pub sub-le-sub_right : (a b c : R) → a ≤ b → a - c ≤ b - c
  sub-le-sub_right a b c h =
      rw (e.sub-eq-add a c, e.sub-eq-add b c) (e.ordered.add-le-add_right a b (neg c) h)

  pub sub-le_of_le-add : (a b c : R) → a ≤ b + c → a - b ≤ c
  sub-le_of_le-add a b c h = rw (add-sub_left b c) at (sub-le-sub_right a (b + c) b h)

  pub le_of_sub_nonneg : (a b : R) → num 0 ≤ a - b → b ≤ a
  le_of_sub_nonneg a b h = rw (zero-add e b) at (add-le_of_le-sub (num 0) a b h)

  pub neg-le-neg : (a b : R) → a ≤ b → neg b ≤ neg a
  neg-le-neg a b h =
      le_of_sub_nonneg (neg a) (neg b) (rw (sub_neg_neg a b) (e.ordered.sub_nonneg b a h))
    where
      sub_neg_neg : (a b : R) → neg a - neg b ≡ b - a
      sub_neg_neg a b = simp (ring, e)

  pub div-mul_cancel : (a b : R) → num 0 < b → a / b * b ≡ a
  div-mul_cancel a b h =
      rw (e.div-eq-mul, mul_assoc e, e.ordered.mul_comm (num 1 / b) b, e.mul-inv b h, mul-one e)

  pub mul-div_cancel : (a b : R) → num 0 < b → a * b / b ≡ a
  mul-div_cancel a b h = rw (e.div-eq-mul, mul_assoc e, e.mul-inv b h, mul-one e)

  pub mul-div_assoc : (a b c : R) → a * (b / c) ≡ a * b / c
  mul-div_assoc a b c = rw (e.div-eq-mul b c, e.div-eq-mul (a * b) c, mul_assoc e)

  pub add-div : (a b c : R) → (a + b) / c ≡ a / c + b / c
  add-div a b c = rw (e.div-eq-mul (a + b) c, add-mul e, ← e.div-eq-mul a c, ← e.div-eq-mul b c)

  pub div_self : (a : R) → num 0 < a → a / a ≡ num 1
  div_self a h = rw (e.div-eq-mul, e.mul-inv a h)

  pub mul-le_of_le-div : (a b c : R) → num 0 < c → a ≤ b / c → a * c ≤ b
  mul-le_of_le-div a b c p h =
      rw (div-mul_cancel b c p) at (mul-le-mul_right a (b / c) c (le_of_lt e.ordered (num 0) c p) h)

  zero_ne_one : num 0 ≡ num {R = R} 1 → ⊥
  zero_ne_one h =
      false≢true
        (sym (lt_irrefl e.ordered (num 0)) ∙ (rw (← h) at (e.ordered.num-lt 0 1 (omega arith))))

  pub inv_pos : (a : R) → num 0 < a → num 0 < num 1 / a
  inv_pos a h = elim (Bool-cases (num 1 / a ≤? num 0)) [
    | inl low ↦
        let zero =
          e.le_antisymm (num 1 / a) (num 0) low
            (e.ordered.div_nonneg (num 1) a (num_nonneg e.ordered 1) h) in
        absurd (zero_ne_one (sym (mul-zero e a) ∙ (ap (λ t. a * t) (sym zero) ∙ e.mul-inv a h)))
    | inr up ↦ lt_of_not-le e.ordered (num 0) (num 1 / a) up
  ]

  pub div_pos : (a b : R) → num 0 < a → num 0 < b → num 0 < a / b
  div_pos a b h k = rw (e.div-eq-mul a b) (e.mul_pos a (num 1 / b) h (inv_pos b k))

  pub max_keeps : (a : R) → num 0 ≤ a → max (num 0) a ≡ a
  unfolding max
  max_keeps a h = ground (arith, e.le_antisymm (num 0) a, le_of_not-lt e.ordered a (num 0))

  pub sub_pos : (a b : R) → a < b → num 0 < b - a
  sub_pos a b h = elim (Bool-cases (num 0 <? b - a)) [
    | inl k ↦ k
    | inr k ↦
        let falls = rw (sub-add_cancel b a) at (
          e.ordered.add-le-add_right (b - a) (num 0) a
            (le_of_not-lt e.ordered (b - a) (num 0) k)) in
        cc (h, not-lt_of_le e.ordered b a (rw (zero-add e a) at falls))
  ]
