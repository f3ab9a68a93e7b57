-- ===== src/Prelude.antt =====
-- The names that the other modules share.
pub use mathlib.Core.Path.{◌≡◌, refl, sym, ap, subst⁻¹, ◌∙◌, ◌≡⟨◌⟩◌, ◌∎}
pub use mathlib.Core.Logic.{◌≢◌, ◌↔◌, ◌⊎◌, inl, inr}
pub use mathlib.Core.Bool.{Bool, true, false, not, ◌&&◌, ◌||◌, false≢true}
pub use mathlib.Core.Option.{Option, none, some}
pub use mathlib.Core.List.{List, [], ◌∷◌, ◌++◌, map}
pub use native.Mathlib.Omega.{arith}
pub use Prim.Native.Nat.{ℕ, zero, suc}

infix 1 if◌then◌else◌
abbrev pub if◌then◌else◌ {ℓ} : {A : Type ℓ} → Bool → A → A → A
if true then x else y = x
if false then x else y = y

-- To split on a computed test and keep the equation.
pub Bool-cases : (b : Bool) → (b ≡ true) ⊎ (b ≡ false)
Bool-cases true = inl refl
Bool-cases false = inr refl

-- A property of both branches of a test.
pub either : {A : Type 0} (P : A → Type 0) (b : Bool) {x y : A} → P x → P y → P (if b then x else y)
either P true h k = h
either P false h k = k

-- As `either`, with the outcome of the test.
pub either_by :
    {A : Type 0} (P : A → Type 0) (b : Bool) {x y : A}
    → (b ≡ true → P x)
    → (b ≡ false → P y)
    → P (if b then x else y)
either_by P true h k = h refl
either_by P false h k = k refl

-- What a connective says of its parts.
pub and_left : (a b : Bool) → (a && b) ≡ true → a ≡ true
and_left true b h = refl
and_left false b h = h

pub and_right : (a b : Bool) → (a && b) ≡ true → b ≡ true
and_right true b h = h
and_right false b h = absurd (false≢true h)

pub not-true : (a : Bool) → not a ≡ true → a ≡ false
not-true true h = sym h
not-true false h = refl

pub not-false : (a : Bool) → not a ≡ false → a ≡ true
not-false true h = refl
not-false false h = sym h

pub or_right : (a b : Bool) → (a || b) ≡ false → b ≡ false
or_right true b h = absurd (false≢true (sym h))
or_right false b h = h

-- `<` on the integers that are never negative.
unfoldable pub ltb : ℕ → ℕ → Bool
ltb k zero = false
ltb zero (suc m) = true
ltb (suc k) (suc m) = ltb k m
