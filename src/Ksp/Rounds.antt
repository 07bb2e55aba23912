-- ===== src/Ksp/Rounds.antt =====
-- The rounds of `TEWG::ComputeKShortestPaths` in src/tedbManager/tewg.cc.
use mathlib.Core.Path.{subst}
use mxtce_geni_scs.Base.{
  ℕ, zero, suc, ◌+◌, ◌-◌, ◌<◌, ◌≤◌, ◌≡◌, ◌⊎◌, refl, ap, sym, ◌∙◌, Bool, true, false, Option, some,
  none, List, [], ◌∷◌, ◌++◌, arith, inl, inr, List-cases, Option-cases, length, length-append,
  if◌then◌else◌, All, All-append,
}
use mxtce_geni_scs.Search.{
  Net, Search, NodeWork, LinkWork, init, found, cost, inf, compute_dijkstra_path,
}
use mxtce_geni_scs.Search.Ends.{IsClosed}
use mxtce_geni_scs.Search.Walks.{Walk, price}
use mxtce_geni_scs.Search.Shortest.{init-IsFresh}
use mxtce_geni_scs.Ksp.Final.{Leaves, IsLeft, IsLeft-Walk_low, compute_dijkstra_path-IsLeft}
use mxtce_geni_scs.Ksp.{
  Ties, Route, Progress, cleanup, take_least, pick_head, branch, run_rounds, paths, begin_rounds,
  compute_k_shortest_paths, first_route, first_progress,
}
use mxtce_geni_scs.Ksp.Routes.{IsRoute, branch-All, take_least-All, starts_at, starts_at-Walk}
use mxtce_geni_scs.Ksp.Chains.{
  Chain, IsTied, IsSimple, Walk-Chain, Walk-metrics, NoParallel-unfiltered,
}

module _ (net : Net) (ties : Ties) (tied : IsTied net ties) (closed : IsClosed net)
    (simple : IsSimple net) (src dst : ℕ) where
  -- The head path is a candidate, and goes to the result unless it is the first.
  pick_head-All :
      (first : Bool)
      → (st : Progress) → All (IsRoute net ties src dst) st.candidates
      → (pick_head first st ≡ none)
        ⊎ ((head : Route) × (st' : Progress) × (pick_head first st ≡ some (head, st'))
            × IsRoute net ties src dst head
            × All (IsRoute net ties src dst) st'.candidates
            × (st'.ksp ≡ (if first then st.ksp else st.ksp ++ head ∷ [])))
  unfolding pick_head
  pick_head-All first st all = elim (List-cases st.candidates) [
    | inl e ↦ inl (ground (arith, e))
    | inr (r, routes, e) ↦
        let (is, all') = subst (All (IsRoute net ties src dst)) e all in
        let (least, others) = take_least-All net ties src dst r routes is all' in
        inr (
          (take_least r routes).0,
          record st {
            candidates = (take_least r routes).1;
            ksp = if first then st.ksp else st.ksp ++ (take_least r routes).0 ∷ [];
          },
          rw e refl,
          least,
          others,
          refl,
        )
  ]

  -- The routes that the loop ends with, and how many they are.
  abbrev Yields : Option (List Route) → List Route → ℕ → Type 0
  Yields result before extra =
      (ksp : List Route) × (result ≡ some ksp)
      × All (IsRoute net ties src dst) ksp
      × (length before ≤ length ksp)
      × (length ksp ≤ length before + extra)

  pushed-All :
      (first : Bool)
      → (ksp : List Route) → All (IsRoute net ties src dst) ksp
      → (head : Route) → IsRoute net ties src dst head
      → All (IsRoute net ties src dst) (if first then ksp else ksp ++ head ∷ [])
  pushed-All true ksp all head is = all
  pushed-All false ksp all head is =
      All-append (IsRoute net ties src dst) ksp (head ∷ []) all (is, tt)

  length-pushed :
      (first : Bool)
      → (ksp : List Route) → (head : Route)
      → length (if first then ksp else ksp ++ head ∷ []) + (if first then 1 else 0) ≡ length ksp + 1
  length-pushed true ksp head = refl
  length-pushed false ksp head = omega (arith, length-append ksp (head ∷ []))

  run_rounds-next :
      (first : Bool)
      → (turns : ℕ) → (st st' next : Progress) → (head : Route)
      → pick_head first (record st { search = cleanup st.search }) ≡ some (head, st')
      → branch net ties src dst head st' ≡ some next
      → run_rounds net ties src dst first (suc (suc turns)) st
        ≡ run_rounds net ties src dst false (suc turns) next
  unfolding run_rounds
  run_rounds-next first turns st st' next head e e' = ground (arith, e, e')

  run_rounds-Yields :
      (first : Bool)
      → (turns : ℕ) → (st : Progress) → All (IsRoute net ties src dst) st.candidates
      → All (IsRoute net ties src dst) st.ksp
      → Yields
          (run_rounds net ties src dst first turns st)
          st.ksp
          (turns - (if first then 1 else 0))
  unfolding run_rounds cleanup
  run_rounds-Yields first zero st all done = (st.ksp, refl, done, omega arith, omega arith)
  run_rounds-Yields first (suc zero) st all done =
      elim (pick_head-All first (record st { search = cleanup st.search }) all) [
        | inl e ↦ (st.ksp, ground (arith, e), done, omega arith, omega arith)
        | inr (head, st', e, is, all', same) ↦ (
          st'.ksp,
          ground (arith, e),
          subst (All (IsRoute net ties src dst)) (sym same) (pushed-All first st.ksp done head is),
          ground (arith, length-pushed first st.ksp head, ap length same),
          ground (arith, length-pushed first st.ksp head, ap length same),
        )
      ]
  run_rounds-Yields first (suc (suc turns)) st all done =
      elim (pick_head-All first (record st { search = cleanup st.search }) all) [
        | inl e ↦ (st.ksp, ground (arith, e), done, omega arith, omega arith)
        | inr (head, st', e, is, all', same) ↦
            let (next, e', all'', kept) =
              branch-All net ties src dst tied closed simple head is st' all' in
            let done' =
              subst (All (IsRoute net ties src dst)) (sym (kept ∙ same))
                (pushed-All first st.ksp done head is) in
            let (ksp, e'', all_ksp, low, high) =
              run_rounds-Yields false (suc turns) next all'' done' in
            (
              ksp,
              run_rounds-next first turns st st' next head e e' ∙ e'',
              all_ksp,
              ground (arith, low, length-pushed first st.ksp head, ap length (kept ∙ same)),
              ground (arith, high, length-pushed first st.ksp head, ap length (kept ∙ same)),
            )
      ]

  module _ (nodes : ℕ → Option NodeWork) (links : ℕ → Option LinkWork) (path : List ℕ) (t : Search)
      (returned : compute_dijkstra_path true false net src dst nodes links ≡ found path t)
      (low : cost t dst < inf) where
    abbrev begun : Search
    begun = init true false net nodes links

    begun-price : (l : ℕ) → price net begun l ≡ net.metric l
    unfolding init
    begun-price l = elim (Option-cases (links l)) [
      | inl e ↦ ground (arith, e)
      | inr (work, e) ↦ ground (arith, e)
    ]

    begun-Walk : Walk net begun src dst (t.node dst).path (cost t dst)
    unfolding IsSimple
    begun-Walk =
        IsLeft-Walk_low net begun src dst
          (NoParallel-unfiltered net begun src (net.local_links src) (simple src)) t
          (subst (Leaves (IsLeft net begun src dst)) returned (
            compute_dijkstra_path-IsLeft true false net src dst nodes links
              (init-IsFresh false net nodes links)))
          low

    first_route-IsRoute : IsRoute net ties src dst (first_route src dst t)
    unfolding Chain starts_at
    first_route-IsRoute =
        let chain =
          Walk-Chain net ties tied begun src dst (cost t dst) (t.node dst).path begun-Walk in
        record {
          chained = chain;
          deviates =
              starts_at-Walk net ties src dst tied closed simple begun dst (cost t dst)
                (t.node dst).path begun-Walk;
          priced =
              Walk-metrics net ties begun begun-price src dst (cost t dst) (t.node dst).path
                begun-Walk;
        }

    -- On a graph where a link on the list of a node starts there, every far end is on the list of the nodes and no
    -- two links of a node lead to one node, when the first search finds a path of a cost below infinity,
    -- ComputeKShortestPaths returns at least one and at most K paths (one when K is 0), and each of them is a
    -- chain of links from the source to the destination that has the sum of the metrics as its cost.
    pub compute_k_shortest_paths-AreRoutes :
        (k : ℕ)
        → (ksp : List Route) × (compute_k_shortest_paths net ties src dst k nodes links
            ≡ paths (some ksp))
          × All (IsRoute net ties src dst) ksp
          × (1 ≤ length ksp)
          × (length ksp ≤ 1 + (k - 1))
    unfolding compute_k_shortest_paths begin_rounds
    compute_k_shortest_paths-AreRoutes k =
        let route = first_route src dst t in
        let (ksp, e, all, at_least, at_most) =
          run_rounds-Yields true k (first_progress route t) (first_route-IsRoute, tt)
            (first_route-IsRoute, tt) in
        (ksp, rw returned (ap paths e), all, at_least, at_most)
