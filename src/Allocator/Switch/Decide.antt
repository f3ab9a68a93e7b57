-- ===== src/Allocator/Switch/Decide.antt =====
-- `choose_book` and `decide_pool_switch` of research/cadcad/allocator/allocator.py.
use nvda_tranched_arc.Prelude.{
  Bool, true, false, ◌≡◌, refl, ◌⊎◌, inl, inr, Bool-cases, Option, none, some, List, [], ◌∷◌,
  if◌then◌else◌,
}
use nvda_tranched_arc.Number.{Number, ◌+◌, ◌≤◌, ◌<◌, ◌<?◌, ◌≤?◌, IsOrdered}
use nvda_tranched_arc.Number.Order.{lt_of_not-le, lt_of_le-lt}
use nvda_tranched_arc.Allocator.{BookName, book_a, book_b}
use nvda_tranched_arc.Allocator.Switch.Ranking.{
  Candidate, All, Contains, eligible, ranking, IsRanked, All-of_ranking, All-map, All-get,
  ranking-Contains, ranking-IsRanked,
}

abbrev pub same_book : BookName → BookName → Bool
same_book book_a book_a = true
same_book book_b book_b = true
same_book _ _ = false

abbrev pub is_current : Option BookName → BookName → Bool
is_current none b = false
is_current (some c) b = same_book c b

-- The actions with what their dictionaries hold; the messages are display text.
pub data SwitchAction (R : Type 0) : Type 0 where
  arms : SwitchAction R
  hold_best hold_current : BookName → SwitchAction R
  switch : BookName → R → SwitchAction R

pub record SwitchDecision (R : Type 0) : Type 0 where
  pub action : SwitchAction R
  pub ranked : List (Candidate R)

module _ {R : Type 0} ⦃n : Number R⦄ where
  unfoldable pub choose_book : (book_apr_a book_apr_b : R) → BookName → BookName
  choose_book a b active_book = if a <? b then book_b else if b <? a then book_a else active_book

  -- `next((c for c in ranked if c.get("name") == current_pool), None)`
  find_current : Option BookName → List (Candidate R) → Option (Candidate R)
  find_current current [] = none
  find_current current (c ∷ cs) =
      if is_current current c.name then some c else find_current current cs

  abbrev lead : (best : Candidate R) (buffer : R) → Option (Candidate R) → SwitchAction R
  lead best buffer none = SwitchAction.switch best.name best.net_apr_bps
  lead best buffer (some c) =
      if best.net_apr_bps ≤? c.net_apr_bps + buffer
      then SwitchAction.hold_current c.name
      else SwitchAction.switch best.name best.net_apr_bps

  switch_action : Option BookName → R → List (Candidate R) → SwitchAction R
  switch_action current buffer [] = SwitchAction.arms
  switch_action current buffer (best ∷ rest) =
      if best.net_apr_bps ≤? buffer
      then SwitchAction.arms
      else if is_current current best.name
      then SwitchAction.hold_best best.name
      else lead best buffer (find_current current (best ∷ rest))

  unfoldable pub decide_pool_switch : List (Candidate R) → Option BookName → R → SwitchDecision R
  unfolding switch_action ranking find_current
  decide_pool_switch candidates current_pool switch_buffer_bps =
      let ranked = ranking candidates in
      record { action = switch_action current_pool switch_buffer_bps ranked; ranked = ranked }

  -- `b` is an eligible candidate above the buffer that no eligible candidate beats.
  abbrev pub IsBest : List (Candidate R) → R → Candidate R → Type 0
  IsBest cs buffer b =
      Contains b (eligible cs)
      × (buffer < b.net_apr_bps)
      × All (λ c. c.net_apr_bps ≤ b.net_apr_bps) (eligible cs)

  -- What each action rests on.
  abbrev pub IsJustified : List (Candidate R) → Option BookName → R → SwitchAction R → Type 0
  IsJustified cs current buffer SwitchAction.arms = All (λ c. c.net_apr_bps ≤ buffer) (eligible cs)
  IsJustified cs current buffer (SwitchAction.hold_best name) =
      (is_current current name ≡ true) × ((b : Candidate R) × (b.name ≡ name) × IsBest cs buffer b)
  IsJustified cs current buffer (SwitchAction.hold_current name) =
      (b c : Candidate R) × IsBest cs buffer b
      × Contains c (eligible cs)
      × (c.name ≡ name)
      × (is_current current name ≡ true)
      × (b.net_apr_bps ≤ c.net_apr_bps + buffer)
  IsJustified cs current buffer (SwitchAction.switch name net) =
      (is_current current name ≡ false)
      × ((b : Candidate R) × (b.name ≡ name) × (b.net_apr_bps ≡ net) × IsBest cs buffer b)
      × All (λ c. (is_current current c.name ≡ false) ⊎ (c.net_apr_bps + buffer < net))
          (eligible cs)

  -- What the search for the current pool shows of a ranked list.
  abbrev Found : Option BookName → List (Candidate R) → Option (Candidate R) → Type 0
  Found current cs none = All (λ d. is_current current d.name ≡ false) cs
  Found current cs (some c) =
      Contains c cs
      × (is_current current c.name ≡ true)
      × All (λ d. (is_current current d.name ≡ false) ⊎ (d.net_apr_bps ≤ c.net_apr_bps)) cs

  Found-cons :
      (current : Option BookName) (d : Candidate R) (ds : List (Candidate R))
      (r : Option (Candidate R))
      → is_current current d.name ≡ false
      → Found current ds r
      → Found current (d ∷ ds) r
  Found-cons current d ds none h f = (h, f)
  Found-cons current d ds (some c) h (m, e, all) = (inr m, e, (inl h, all))

module _ {R : Type 0} ⦃n : Number R⦄ (o : IsOrdered R) where
  open o use {le_refl, le_trans, add-le-add_right}

  find_current-Found :
      (current : Option BookName) (cs : List (Candidate R))
      → IsRanked cs
      → Found current cs (find_current current cs)
  unfolding find_current
  find_current-Found current [] h = tt
  find_current-Found current (d ∷ ds) (below, h) = elim (Bool-cases (is_current current d.name)) [
    | inl e ↦ rw e (
      inl refl,
      e,
      (
        inr (le_refl d.net_apr_bps),
        All-map (λ x. x.net_apr_bps ≤ d.net_apr_bps)
            (λ x. (is_current current x.name ≡ false) ⊎ (x.net_apr_bps ≤ d.net_apr_bps))
            (λ x hx. inr hx) ds below,
      ),
    )
    | inr e ↦
        rw e (Found-cons current d ds (find_current current ds) e (find_current-Found current ds h))
  ]

  module _ (cs : List (Candidate R)) (current : Option BookName) (buffer : R) where
    head-IsBest :
        (b : Candidate R) (rest : List (Candidate R))
        → ranking cs ≡ b ∷ rest
        → buffer < b.net_apr_bps
        → IsBest cs buffer b
    head-IsBest b rest e h = (
      (rw e at (ranking-Contains cs)).0,
      h,
      All-of_ranking (λ c. c.net_apr_bps ≤ b.net_apr_bps) cs
          (rw e (le_refl b.net_apr_bps, (rw e at (ranking-IsRanked o cs)).0)),
    )

    -- No eligible candidate with the current name comes within the buffer of the best.
    not_near :
        (b : Candidate R) (c : Candidate R) (x : Candidate R)
        → (b.net_apr_bps ≤? c.net_apr_bps + buffer) ≡ false
        → (is_current current x.name ≡ false) ⊎ (x.net_apr_bps ≤ c.net_apr_bps)
        → (is_current current x.name ≡ false) ⊎ (x.net_apr_bps + buffer < b.net_apr_bps)
    not_near b c x far (inl e) = inl e
    not_near b c x far (inr h) = inr (
        lt_of_le-lt o (x.net_apr_bps + buffer) (c.net_apr_bps + buffer) b.net_apr_bps
          (add-le-add_right x.net_apr_bps c.net_apr_bps buffer h)
          (lt_of_not-le o (c.net_apr_bps + buffer) b.net_apr_bps far))

    lead-IsJustified :
        (b : Candidate R) (rest : List (Candidate R)) (r : Option (Candidate R))
        → ranking cs ≡ b ∷ rest
        → buffer < b.net_apr_bps
        → is_current current b.name ≡ false
        → Found current (ranking cs) r
        → IsJustified cs current buffer (lead b buffer r)
    lead-IsJustified b rest none e h other f = (
      other,
      (b, refl, refl, head-IsBest b rest e h),
      All-of_ranking _ cs
          (All-map (λ d. is_current current d.name ≡ false) _ (λ d hd. inl hd) (ranking cs) f),
    )
    lead-IsJustified b rest (some c) e h other (m, is, all) =
        elim (Bool-cases (b.net_apr_bps ≤? c.net_apr_bps + buffer)) [
          | inl near ↦ rw near (
            b,
            c,
            head-IsBest b rest e h,
            All-get (λ a. Contains a (eligible cs)) c (ranking cs) (ranking-Contains cs) m,
            refl,
            is,
            near,
          )
          | inr far ↦ rw far (
            other,
            (b, refl, refl, head-IsBest b rest e h),
            All-of_ranking _ cs (
                All-map (λ d. (is_current current d.name ≡ false) ⊎ (d.net_apr_bps ≤ c.net_apr_bps))
                  _ (λ d. not_near b c d far) (ranking cs) all),
          )
        ]

    switch_action-IsJustified :
        (ranked : List (Candidate R))
        → ranking cs ≡ ranked
        → IsJustified cs current buffer (switch_action current buffer ranked)
    unfolding switch_action
    switch_action-IsJustified [] e = All-of_ranking _ cs (rw e tt)
    switch_action-IsJustified (b ∷ rest) e = elim (Bool-cases (b.net_apr_bps ≤? buffer)) [
      | inl low ↦ rw low (
          All-of_ranking (λ c. c.net_apr_bps ≤ buffer) cs
            (rw e (
              low,
              All-map (λ c. c.net_apr_bps ≤ b.net_apr_bps) (λ c. c.net_apr_bps ≤ buffer)
                  (λ c hc. le_trans c.net_apr_bps b.net_apr_bps buffer hc low) rest
                  (rw e at (ranking-IsRanked o cs)).0,
            )))
      | inr above ↦
          let lt = lt_of_not-le o buffer b.net_apr_bps above in
          elim (Bool-cases (is_current current b.name)) [
            | inl is ↦ rw (above, is) (is, (b, refl, head-IsBest b rest e lt))
            | inr other ↦
                rw (above, other)
                  (lead-IsJustified b rest (find_current current (b ∷ rest)) e lt other (
                    rw e (find_current-Found current (b ∷ rest) (rw e at (ranking-IsRanked o cs)))))
          ]
    ]

    -- Every action of the pool switch is justified by the candidates that are not HIGH. ARMS: none
    -- of them has a net APR above the buffer. HOLD on the best pool: it is the current one, above
    -- the buffer, and no candidate beats it. HOLD on the current pool below the best: the best
    -- leads it by no more than the buffer. SWITCH: the pool is not the current one, it is above the
    -- buffer and unbeaten, and it leads every candidate of the current name by more than the
    -- buffer.
    pub decide_pool_switch-IsJustified :
        IsJustified cs current buffer (decide_pool_switch cs current buffer).action
    unfolding decide_pool_switch
    decide_pool_switch-IsJustified = switch_action-IsJustified (ranking cs) refl
