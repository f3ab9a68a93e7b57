-- ===== src/Sequence.antt =====
-- Python's list slices and indices, over the native numbers.
use nvda_tranched_arc.Prelude.{Bool, true, false, ℕ, zero, suc, List, [], ◌∷◌}
use Prim.Native.Nat.{◌-◌}

module _ {A : Type 0} where
  -- `not xs`
  abbrev pub is_empty : List A → Bool
  is_empty [] = true
  is_empty (x ∷ xs) = false

  unfoldable pub take : ℕ → List A → List A
  take zero xs = []
  take (suc k) [] = []
  take (suc k) (x ∷ xs) = x ∷ take k xs

  unfoldable pub drop : ℕ → List A → List A
  drop zero xs = xs
  drop (suc k) [] = []
  drop (suc k) (x ∷ xs) = drop k xs

  unfoldable pub length : List A → ℕ
  length [] = 0
  length (x ∷ xs) = suc (length xs)

  -- `xs[start:stop]` for `start` and `stop` that are not negative.
  unfoldable pub slice : List A → (start stop : ℕ) → List A
  slice xs start stop = take (stop - start) (drop start xs)

  -- `xs[idx]`, where the default stands for an index out of range.
  unfoldable pub get_or : A → List A → ℕ → A
  get_or default [] idx = default
  get_or default (x ∷ xs) zero = x
  get_or default (x ∷ xs) (suc idx) = get_or default xs idx
