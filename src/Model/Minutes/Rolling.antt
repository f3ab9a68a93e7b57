-- ===== src/Model/Minutes/Rolling.antt =====
-- `_rolling_minutes` of research/cadcad/allocator/model.py against the whole tape.
use Prim.Native.Nat.{◌+◌, ◌-◌, ◌*◌, ◌≤◌, ◌/◌, min}
use nvda_tranched_arc.Prelude.{
  ℕ, zero, suc, ◌≡◌, refl, ◌∙◌, sym, ap, List, [], ◌∷◌, ◌++◌, arith, ltb, Bool-cases, inl, inr,
}
use nvda_tranched_arc.Sequence.{length, take, drop, slice}
use nvda_tranched_arc.Allocator.{BookName}
use nvda_tranched_arc.Allocator.Switch.{All}
use nvda_tranched_arc.Model.{ScenarioRow}
use nvda_tranched_arc.Model.Windows.{book_row}
use nvda_tranched_arc.Model.Windows.Streak.{ltb-true, ltb-false}
use nvda_tranched_arc.Model.Minutes.{suffix, join_minutes, window_of, rolling_minutes}

module _ {A : Type 0} where
  length-append : (xs ys : List A) → length (xs ++ ys) ≡ length xs + length ys
  unfolding length
  length-append [] ys = omega arith
  length-append (x ∷ xs) ys = ap suc (length-append xs ys) ∙ (omega arith)

  length-take : (k : ℕ) (xs : List A) → k ≤ length xs → length (take k xs) ≡ k
  unfolding length take
  length-take zero xs h = refl
  length-take (suc k) [] h = omega arith
  length-take (suc k) (x ∷ xs) h = ap suc (length-take k xs (omega arith))

  -- A part that is long enough has the whole suffix.
  suffix-append : (k : ℕ) (xs ys : List A) → k ≤ length ys → suffix k (xs ++ ys) ≡ suffix k ys
  unfolding suffix length drop
  suffix-append k [] ys h = refl
  suffix-append k (x ∷ xs) ys h =
      let long : k ≤ length (xs ++ ys) = rw (length-append xs ys) (omega arith) in
      let one_more : suc (length (xs ++ ys)) - k ≡ suc (length (xs ++ ys) - k) = omega arith in
      ap (λ j. drop j (x ∷ (xs ++ ys))) one_more ∙ suffix-append k xs ys h

  take_nil : (k : ℕ) → take {A = A} k [] ≡ []
  unfolding take
  take_nil zero = refl
  take_nil (suc k) = refl

  slice-take : (start stop : ℕ) (xs : List A) → slice xs start stop ≡ drop start (take stop xs)
  unfolding slice take drop
  slice-take zero stop xs = ap (λ j. take j xs) (omega arith)
  slice-take (suc start) zero xs =
      let none_left : 0 - suc start ≡ 0 = omega arith in
      ap (λ j. take j (drop (suc start) xs)) none_left
  slice-take (suc start) (suc stop) [] = take_nil (suc stop - suc start)
  slice-take (suc start) (suc stop) (x ∷ xs) =
      let less : suc stop - suc start ≡ stop - start = omega arith in
      ap (λ j. take j (drop start xs)) less ∙ slice-take start stop xs

module _ {R : Type 0} (name : BookName) where
  -- An hour has all of its minutes.
  abbrev pub IsWhole : ScenarioRow R → Type 0
  IsWhole row = length (book_row name row).minutes ≡ 60

  length-join_minutes :
      (rows : List (ScenarioRow R))
      → All IsWhole rows
      → length (join_minutes name rows) ≡ length rows * 60
  unfolding length join_minutes
  length-join_minutes [] h = refl
  length-join_minutes (row ∷ rows) (h, hs) =
      length-append (book_row name row).minutes (join_minutes name rows)
      ∙ ap (λ k. k + length (join_minutes name rows)) h
      ∙ ap (λ k. 60 + k) (length-join_minutes rows hs)
      ∙ (omega arith)

  All-take : (k : ℕ) (rows : List (ScenarioRow R)) → All IsWhole rows → All IsWhole (take k rows)
  unfolding take
  All-take zero rows h = tt
  All-take (suc k) [] h = tt
  All-take (suc k) (row ∷ rows) (h, hs) = (h, All-take k rows hs)

  -- The hours before those that the window needs do not matter.
  suffix-drop :
      (w k : ℕ) (rows : List (ScenarioRow R))
      → All IsWhole rows
      → w ≤ (length rows - k) * 60
      → suffix w (join_minutes name (drop k rows)) ≡ suffix w (join_minutes name rows)
  unfolding drop join_minutes length
  suffix-drop w zero rows h long = refl
  suffix-drop w (suc k) [] h long = refl
  suffix-drop w (suc k) (row ∷ rows) (h, hs) long =
      let enough : w ≤ length (join_minutes name rows) =
        rw (length-join_minutes rows hs) (omega arith) in
      suffix-drop w k rows hs (omega arith)
      ∙ sym (suffix-append w (book_row name row).minutes (join_minutes name rows) enough)

  drop_none :
      (w : ℕ) (rows : List (ScenarioRow R))
      → suffix w (join_minutes name (drop 0 rows)) ≡ suffix w (join_minutes name rows)
  unfolding drop
  drop_none w rows = refl

  -- In a tape of whole hours, the rolling window of an hour on the tape is the last minutes of
  -- everything up to that hour: the hours that the code leaves out do not change it.
  pub rolling_minutes-suffix :
      (scenario : List (ScenarioRow R)) (step window_minutes : ℕ)
      → All IsWhole scenario
      → suc step ≤ length scenario
      → rolling_minutes scenario step window_minutes name
        ≡ suffix (window_of window_minutes) (join_minutes name (take (suc step) scenario))
  unfolding rolling_minutes
  rolling_minutes-suffix scenario step window_minutes h inside =
      let w = window_of window_minutes in
      let r = (w + 59) / 60 in
      let past = take (suc step) scenario in
      let last : min step (length scenario - 1) ≡ step = omega arith in
      ap (λ j. suffix w (join_minutes name (slice scenario (suc step - r) (suc j)))) last
      ∙ ap (λ rows. suffix w (join_minutes name rows))
          (slice-take (suc step - r) (suc step) scenario)
      ∙ elim (Bool-cases (ltb (suc step) r)) [
        | inl few ↦
            let all_hours : suc step - r ≡ 0 = omega (arith, ltb-true (suc step) r few) in
            ap (λ j. suffix w (join_minutes name (drop j past))) all_hours ∙ drop_none w past
        | inr enough ↦
            let covered : w ≤ (suc step - (suc step - r)) * 60 =
              omega (arith, ltb-false (suc step) r enough) in
            suffix-drop w (suc step - r) past (All-take (suc step) scenario h)
              (rw (length-take (suc step) scenario inside) covered)
      ]
