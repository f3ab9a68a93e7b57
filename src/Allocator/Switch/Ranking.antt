-- ===== src/Allocator/Switch/Ranking.antt =====
-- The list that `decide_pool_switch` ranks: the candidates that are not HIGH, best net APR first,
-- and candidates of equal net APR in their old order (`list.sort(reverse=True)` is stable).
use nvda_tranched_arc.Prelude.{
  ◌≡◌, refl, ◌⊎◌, inl, inr, Bool-cases, List, [], ◌∷◌, if◌then◌else◌, arith,
}
use nvda_tranched_arc.Number.{Number, ◌≤◌, ◌<?◌, IsOrdered}
use nvda_tranched_arc.Number.Order.{le_of_lt, le_of_not-lt}
use nvda_tranched_arc.Allocator.{BookName, Risk, normal, high}

-- A candidate of the pool switch. The names are those of the two books, which are the candidates that
-- `p_decision` of model.py passes; the function takes any strings.
pub record Candidate (R : Type 0) : Type 0 where
  pub name : BookName
  pub risk : Risk
  pub net_apr_bps : R

module _ {A : Type 0} where
  abbrev pub All : (A → Type 0) → List A → Type 0
  All P [] = Unit
  All P (x ∷ xs) = P x × All P xs

  abbrev pub Contains : A → List A → Type 0
  Contains a [] = ⊥
  Contains a (x ∷ xs) = (a ≡ x) ⊎ Contains a xs

  pub All-get : (P : A → Type 0) (a : A) (xs : List A) → All P xs → Contains a xs → P a
  All-get P a [] h m = absurd m
  All-get P a (x ∷ xs) (hx, hs) (inl e) = rw e hx
  All-get P a (x ∷ xs) (hx, hs) (inr m) = All-get P a xs hs m

  pub All-sub :
      (P : A → Type 0) (xs ys : List A)
      → ((a : A) → Contains a xs → Contains a ys)
      → All P ys
      → All P xs
  All-sub P [] ys f h = tt
  All-sub P (x ∷ xs) ys f h =
      (All-get P x ys h (f x (inl refl)), All-sub P xs ys (λ a m. f a (inr m)) h)

  All-Contains_in :
      (xs ys : List A) → ((a : A) → Contains a xs → Contains a ys) → All (λ a. Contains a ys) xs
  All-Contains_in [] ys f = tt
  All-Contains_in (x ∷ xs) ys f = (f x (inl refl), All-Contains_in xs ys (λ a m. f a (inr m)))

  pub All-Contains : (xs : List A) → All (λ a. Contains a xs) xs
  All-Contains xs = All-Contains_in xs xs (λ a m. m)

  pub All-map : (P Q : A → Type 0) → ((a : A) → P a → Q a) → (xs : List A) → All P xs → All Q xs
  All-map P Q f [] h = tt
  All-map P Q f (x ∷ xs) (hx, hs) = (f x hx, All-map P Q f xs hs)

module _ {R : Type 0} where
  abbrev pub IsNormal : Candidate R → Type 0
  IsNormal c = c.risk ≡ normal

  abbrev pub keep_if : Risk → Candidate R → List (Candidate R) → List (Candidate R)
  keep_if high c cs = cs
  keep_if normal c cs = c ∷ cs

  -- `if c.get("risk") != "HIGH"`
  unfoldable pub eligible : List (Candidate R) → List (Candidate R)
  eligible [] = []
  eligible (c ∷ cs) = keep_if c.risk c (eligible cs)

module _ {R : Type 0} ⦃n : Number R⦄ where
  unfoldable pub rank_in : Candidate R → List (Candidate R) → List (Candidate R)
  rank_in c [] = c ∷ []
  rank_in c (d ∷ ds) = if c.net_apr_bps <? d.net_apr_bps then d ∷ rank_in c ds else c ∷ d ∷ ds

  unfoldable pub sort : List (Candidate R) → List (Candidate R)
  unfolding rank_in
  sort [] = []
  sort (c ∷ cs) = rank_in c (sort cs)

  unfoldable pub ranking : List (Candidate R) → List (Candidate R)
  unfolding sort eligible
  ranking cs = sort (eligible cs)

  -- Each element is at most `b`'s net APR.
  abbrev pub Below : R → List (Candidate R) → Type 0
  Below b = All (λ c. c.net_apr_bps ≤ b)

  -- Best first.
  abbrev pub IsRanked : List (Candidate R) → Type 0
  IsRanked [] = Unit
  IsRanked (c ∷ cs) = Below c.net_apr_bps cs × IsRanked cs

  rank_in-All :
      (P : Candidate R → Type 0) (c : Candidate R) (ds : List (Candidate R))
      → P c
      → All P ds
      → All P (rank_in c ds)
  unfolding rank_in
  rank_in-All P c [] hc hs = (hc, tt)
  rank_in-All P c (d ∷ ds) hc (hd, hs) = ground (arith, rank_in-All P c ds hc hs)

  sort-All : (P : Candidate R → Type 0) (cs : List (Candidate R)) → All P cs → All P (sort cs)
  unfolding sort
  sort-All P [] h = tt
  sort-All P (c ∷ cs) (hc, hs) = rank_in-All P c (sort cs) hc (sort-All P cs hs)

  rank_in-Contains :
      (a c : Candidate R) (ds : List (Candidate R))
      → (a ≡ c) ⊎ Contains a ds
      → Contains a (rank_in c ds)
  unfolding rank_in
  rank_in-Contains a c [] h = h
  rank_in-Contains a c (d ∷ ds) h = elim (Bool-cases (c.net_apr_bps <? d.net_apr_bps)) [
    | inl lt ↦ rw lt (swap (rank_in-Contains a c ds) h)
    | inr ge ↦ rw ge h
  ]
    where
      swap :
          ((a ≡ c) ⊎ Contains a ds → Contains a (rank_in c ds))
          → (a ≡ c) ⊎ ((a ≡ d) ⊎ Contains a ds)
          → (a ≡ d) ⊎ Contains a (rank_in c ds)
      swap rec (inl e) = inr (rec (inl e))
      swap rec (inr (inl e)) = inl e
      swap rec (inr (inr m)) = inr (rec (inr m))

  sort-Contains : (a : Candidate R) (cs : List (Candidate R)) → Contains a cs → Contains a (sort cs)
  unfolding sort
  sort-Contains a [] m = m
  sort-Contains a (c ∷ cs) (inl e) = rank_in-Contains a c (sort cs) (inl e)
  sort-Contains a (c ∷ cs) (inr m) = rank_in-Contains a c (sort cs) (inr (sort-Contains a cs m))

  All-of_sort : (P : Candidate R → Type 0) (cs : List (Candidate R)) → All P (sort cs) → All P cs
  All-of_sort P cs h = All-sub P cs (sort cs) (λ a. sort-Contains a cs) h

  -- What holds of every ranked candidate holds of every eligible one.
  pub All-of_ranking :
      (P : Candidate R → Type 0) (cs : List (Candidate R))
      → All P (ranking cs)
      → All P (eligible cs)
  unfolding ranking
  All-of_ranking P cs h = All-of_sort P (eligible cs) h

  pub ranking-Contains :
      (cs : List (Candidate R)) → All (λ a. Contains a (eligible cs)) (ranking cs)
  unfolding ranking
  ranking-Contains cs =
      sort-All (λ a. Contains a (eligible cs)) (eligible cs) (All-Contains (eligible cs))

  module _ (o : IsOrdered R) where
    open o use {le_refl, le_trans}

    rank_in-IsRanked :
        (c : Candidate R) (ds : List (Candidate R)) → IsRanked ds → IsRanked (rank_in c ds)
    unfolding rank_in
    rank_in-IsRanked c [] h = (tt, tt)
    rank_in-IsRanked c (d ∷ ds) (hd, hs) = elim (Bool-cases (c.net_apr_bps <? d.net_apr_bps)) [
      | inl lt ↦ rw lt (
        rank_in-All (λ x. x.net_apr_bps ≤ d.net_apr_bps) c ds
            (le_of_lt o c.net_apr_bps d.net_apr_bps lt) hd,
        rank_in-IsRanked c ds hs,
      )
      | inr ge ↦ rw ge (
        (
          le_of_not-lt o d.net_apr_bps c.net_apr_bps ge,
          All-map (λ x. x.net_apr_bps ≤ d.net_apr_bps) (λ x. x.net_apr_bps ≤ c.net_apr_bps)
              (λ x hx.
                le_trans x.net_apr_bps d.net_apr_bps c.net_apr_bps hx
                  (le_of_not-lt o d.net_apr_bps c.net_apr_bps ge))
              ds hd,
        ),
        (hd, hs),
      )
    ]

    sort-IsRanked : (cs : List (Candidate R)) → IsRanked (sort cs)
    unfolding sort
    sort-IsRanked [] = tt
    sort-IsRanked (c ∷ cs) = rank_in-IsRanked c (sort cs) (sort-IsRanked cs)

    pub ranking-IsRanked : (cs : List (Candidate R)) → IsRanked (ranking cs)
    unfolding ranking
    ranking-IsRanked cs = sort-IsRanked (eligible cs)
