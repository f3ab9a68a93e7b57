-- ===== src/Model/Decision/Pull.antt =====
-- The pull proxy of research/cadcad/allocator/model.py: `first_guard_pull_bin`.
use nvda_tranched_arc.Prelude.{ℕ, false, ◌≡◌, Option, none, some, List, [], ◌∷◌, either_by}
use nvda_tranched_arc.Sequence.{take, drop}
use nvda_tranched_arc.Number.{Number, ◌<?◌, ◌<◌}
use nvda_tranched_arc.Allocator.Switch.{All}
use nvda_tranched_arc.Model.Decision.{first_guard_pull_bin, next_bin}

module _ {R : Type 0} ⦃n : Number R⦄ (threshold : R) where
  -- A move that does not exceed the threshold.
  abbrev pub IsQuiet : R → Type 0
  IsQuiet move = (threshold <? move) ≡ false

  -- The first of some moves exceeds the threshold.
  abbrev pub StartsLoud : List R → Type 0
  StartsLoud [] = ⊥
  StartsLoud (move ∷ moves) = threshold < move

  -- Every bin is quiet, or the bin is loud and those before it are quiet.
  abbrev pub IsFirstLoud : List R → Option ℕ → Type 0
  IsFirstLoud moves none = All IsQuiet moves
  IsFirstLoud moves (some i) = StartsLoud (drop i moves) × All IsQuiet (take i moves)

  quiet_first :
      (move : R) (moves : List R) (bin : Option ℕ)
      → IsQuiet move
      → IsFirstLoud moves bin
      → IsFirstLoud (move ∷ moves) (next_bin bin)
  unfolding take drop
  quiet_first move moves none h k = (h, k)
  quiet_first move moves (some i) h k = (k.0, (h, k.1))

  -- The pull bin is the first whose move exceeds the threshold, and there is none exactly when no move
  -- does.
  pub first_guard_pull_bin-IsFirstLoud :
      (moves : List R) → IsFirstLoud moves (first_guard_pull_bin moves threshold)
  unfolding first_guard_pull_bin take drop
  first_guard_pull_bin-IsFirstLoud [] = tt
  first_guard_pull_bin-IsFirstLoud (move ∷ moves) =
      either_by (λ (b : Option ℕ). IsFirstLoud (move ∷ moves) b) (threshold <? move) (λ h. (h, tt))
        (λ h. quiet_first move moves _ h (first_guard_pull_bin-IsFirstLoud moves))
