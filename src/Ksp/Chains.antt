-- ===== src/Ksp/Chains.antt =====
-- The paths of `TEWG::ComputeKShortestPaths` in src/tedbManager/tewg.cc as chains of links.
use mathlib.Core.Path.{subst}
use mxtce_geni_scs.Base.{
  ℕ, ◌+◌, ◌≡◌, ◌≢◌, refl, ap, sym, true, false, Option, some, none, List, [], ◌∷◌, ◌++◌, arith, inl,
  inr,
}
use mxtce_geni_scs.Search.{
  Net, Search, NodeWork, LinkWork, init, open_end, is_listed, compute_dijkstra_path, cost,
}
use mxtce_geni_scs.Search.Ends.{IsClosed, compute_dijkstra_path-Ends}
use mxtce_geni_scs.Search.Steps.{Outcome-cases}
use mxtce_geni_scs.Search.Walks.{Walk, one, more, price}
use mxtce_geni_scs.Search.Starting.{NoParallel, IsFresh}
use mxtce_geni_scs.Ksp.{Ties, add_metrics, cleanup, left_by, search_again}
use mxtce_geni_scs.Ksp.Final.{Leaves, IsLeft, IsLeft-Walk, compute_dijkstra_path-IsLeft}

module _ (net : Net) (ties : Ties) where
  -- The links of a path follow on each other from one node to another.
  unfoldable pub Chain : ℕ → List ℕ → ℕ → Type 0
  Chain u [] v = u ≡ v
  Chain u (l ∷ path) v =
      (ties.local_end l ≡ u) × (w : ℕ) × (net.remote_end l ≡ some w) × Chain w path v

  pub Chain-append :
      (u v w : ℕ)
      → (front back : List ℕ) → Chain u front v
      → Chain v back w
      → Chain u (front ++ back) w
  unfolding Chain
  Chain-append u v w [] back start chain = subst (λ n. Chain n back w) (sym start) chain
  Chain-append u v w (l ∷ front) back (at_u, n, leads, chain) chain' =
      (at_u, n, leads, Chain-append n v w front back chain chain')

  -- A link on the list of a node starts there.
  unfoldable pub IsTied : Type 0
  IsTied = (l u : ℕ) → is_listed l (net.local_links u) ≡ true → ties.local_end l ≡ u

  open_end-remote :
      (first : Search) → (l n : ℕ) → open_end net first l ≡ some n → net.remote_end l ≡ some n
  unfolding open_end
  open_end-remote first l n h = ground (arith, h)

  pub Walk-Chain :
      IsTied
      → (first : Search) → (u v c : ℕ) → (path : List ℕ) → Walk net first u v path c
      → Chain u path v
  unfolding Chain IsTied
  Walk-Chain tied first src _ _ _ (one {v} l (starts, leads)) =
      (tied l src starts, v, open_end-remote first l v leads, refl)
  Walk-Chain tied first src _ _ _ (more {u} {v} {c} {path} walk l (starts, leads)) =
      Chain-append src u v path (l ∷ []) (Walk-Chain tied first src u c path walk)
        (tied l u starts, v, open_end-remote first l v leads, refl)

  add_metrics-append :
      (front back : List ℕ)
      → add_metrics net (front ++ back) ≡ add_metrics net front + add_metrics net back
  unfolding add_metrics
  add_metrics-append [] back = omega arith
  add_metrics-append (l ∷ front) back = omega (arith, add_metrics-append front back)

  pub Walk-metrics :
      (first : Search)
      → ((l : ℕ) → price net first l ≡ net.metric l)
      → (u v c : ℕ) → (path : List ℕ) → Walk net first u v path c
      → c ≡ add_metrics net path
  unfolding add_metrics
  Walk-metrics first same src _ _ _ (one {v} l leads) = omega (arith, same l)
  Walk-metrics first same src _ _ _ (more {u} {v} {c} {path} walk l leads) =
      omega
        (arith, same l, Walk-metrics first same src u c path walk, add_metrics-append path (l ∷ []))

-- The work data when no filter is set, and graphs without parallel links.
abbrev pub unfiltered : Net → Search
unfiltered net = init true false net (λ n. none) (λ l. none)

unfoldable pub IsSimple : Net → Type 0
IsSimple net = (u : ℕ) → NoParallel net (unfiltered net) u (net.local_links u)

open_end-unfiltered :
    (net : Net)
    → (first : Search) → (l n : ℕ) → open_end net first l ≡ some n
    → open_end net (unfiltered net) l ≡ some n
unfolding open_end init
open_end-unfiltered net first l n h = ground (arith, h)

pub NoParallel-unfiltered :
    (net : Net)
    → (first : Search) → (u : ℕ) → (links : List ℕ) → NoParallel net (unfiltered net) u links
    → NoParallel net first u links
unfolding NoParallel
NoParallel-unfiltered net first u [] h = tt
NoParallel-unfiltered net first u (l ∷ links) (apart, h) = (
  λ k n there e e'.
      apart k n there (open_end-unfiltered net first l n e) (open_end-unfiltered net first k n e'),
  NoParallel-unfiltered net first u links h,
)

-- A search with the work data of another, reset.
module _ (net : Net) (dst : ℕ) (s : Search) where
  abbrev again : Search
  again = init false false net (λ n. some ((cleanup s).node n)) (λ l. some ((cleanup s).link l))

  again-IsFresh : (u : ℕ) → IsFresh net again u
  unfolding init cleanup
  again-IsFresh u n = (refl, refl, refl)

  -- It ends, and the destination has no path or one that is a chain.
  pub search_again-Chain :
      (ties : Ties)
      → IsTied net ties
      → IsClosed net
      → IsSimple net
      → (u : ℕ)
      → (t : Search) × (search_again net u dst (cleanup s) ≡ some t)
        × ((t.node dst).path ≢ [] → Chain net ties u (t.node dst).path dst)
  unfolding search_again IsSimple
  search_again-Chain ties tied closed simple u =
      let nodes : ℕ → Option NodeWork = λ n. some ((cleanup s).node n) in
      let links : ℕ → Option LinkWork = λ l. some ((cleanup s).link l) in
      let ends = compute_dijkstra_path-Ends false false net u dst nodes links closed in
      let left = compute_dijkstra_path-IsLeft false false net u dst nodes links (again-IsFresh u) in
      let apart = NoParallel-unfiltered net again u (net.local_links u) (simple u) in
      let chain : (t : Search)
          → IsLeft net again u dst t
          → (t.node dst).path ≢ []
          → Chain net ties u (t.node dst).path dst =
        λ t is some_path.
          Walk-Chain net ties tied again u dst (cost t dst) (t.node dst).path
            (IsLeft-Walk net again u dst apart t is some_path) in
      elim (Outcome-cases (compute_dijkstra_path false false net u dst nodes links)) [
        | inl (path, t, e) ↦
            (t, ap left_by e, chain t (subst (Leaves (IsLeft net again u dst)) e left))
        | inr (inl (t, e)) ↦
            (t, ap left_by e, chain t (subst (Leaves (IsLeft net again u dst)) e left))
        | inr (inr e) ↦ absurd (ends e)
      ]
