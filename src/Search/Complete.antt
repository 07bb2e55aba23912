-- ===== src/Search/Complete.antt =====
-- `TEWG::ComputeDijkstraPath` of src/tedbManager/tewg.cc finds a path where there is one.
use mathlib.Core.Path.{subst}
use mxtce_geni_scs.Base.{
  ℕ, zero, suc, ◌+◌, ◌≤◌, ◌<◌, ◌≡◌, ◌≢◌, sym, ◌∙◌, Bool, true, false, Option, some, List, [], ◌==◌,
  arith, Bool-cases, inl, inr, length,
}
use mxtce_geni_scs.Search.{
  Net, Search, NodeWork, LinkWork, inf, cost, is_visited, is_listed, relax_all, visit, take_node,
  take_nearest, first_links, search_from, start_search, found, no_path, init, compute_dijkstra_path,
}
use mxtce_geni_scs.Search.Ends.{IsClosed, compute_dijkstra_path-Ends}
use mxtce_geni_scs.Search.Steps.{
  Outcome-cases, take_nearest_cases, search_from-next, start_search-next,
}
use mxtce_geni_scs.Search.Walks.{price, Leads, Walk, one, more, IsSettled, IsReady, Closed}
use mxtce_geni_scs.Search.Starting.{
  Reaches, Reaches-extends, IsFresh, visit-IsBegun, first_links-IsSettled, first_links-same_visits,
}
use mxtce_geni_scs.Search.Relaxing.{relax_all-IsSettled, relax_all-same_visits}
use mxtce_geni_scs.Search.Choosing.{take_node-IsReady, take_node-unvisited}
use mxtce_geni_scs.Search.Shortest.{init-IsFresh}

module _ (net : Net) (first : Search) (src : ℕ) where
  module _ (s : Search) (settled : IsSettled net first src (Reaches net first src) s)
      (idle : s.reachable ≡ []) where
    -- With no node left to choose, whatever costs less than infinity is visited.
    abbrev Visits : ℕ → ℕ → Type 0
    Visits v c = (v ≢ src → cost s v ≤ c) × (is_visited s v ≡ true)

    Visits-at : (v c : ℕ) → c < inf → (v ≢ src → cost s v ≤ c) → Visits v c
    unfolding is_listed
    Visits-at v c low below = (
      below,
      elim (Bool-cases (v == src)) [
        | inl same ↦
            let is : src ≡ v = ground (arith, same) in
            subst (λ n. is_visited s n ≡ true) is settled.sound.begins
        | inr other ↦ elim (Bool-cases (is_visited s v)) [
          | inl old ↦ old
          | inr new ↦
              let bound = below (ground (arith, other)) in
              let there = settled.sound.waiting v new (omega (arith, bound, low)) in
              absurd (ground (arith, subst (λ list. is_listed v list ≡ true) idle there))
        ]
      ],
    )

    Visits-Walk : {v c : ℕ} → {path : List ℕ} → Walk net first src v path c → c < inf → Visits v c
    unfolding Closed
    Visits-Walk (one {v} l leads) low =
        Visits-at v (price net first l) low (λ _. settled.sound.near l v leads)
    Visits-Walk (more {u} {v} {c} walk l leads) low =
        let (below, old) = Visits-Walk walk (omega (arith, low)) in
        Visits-at v (c + price net first l) low (λ ne. elim (Bool-cases (u == src)) [
          | inl same ↦
              let is : u ≡ src = ground (arith, same) in
              omega (arith, settled.sound.near l v (subst (λ n. Leads net first n l v) is leads))
          | inr other ↦
              omega (arith, settled.closed u old l v leads ne, below (ground (arith, other)))
        ])

  module _ (dst c : ℕ) (walk : List ℕ) (w : Walk net first src dst walk c) (low : c < inf) where
    search_from-goes_on :
        (fuel head : ℕ)
        → (s : Search) → IsReady net first src (Reaches net first src) head s
        → is_visited s dst ≡ false
        → (t : Search) → search_from net dst fuel head s ≢ no_path t
    search_from-goes_on zero head s ready new t h = unfold search_from in ground (arith, h)
    search_from-goes_on (suc fuel) head s ready new t h =
        let s' = relax_all net head s (net.local_links head) in
        let settled =
          relax_all-IsSettled net first src (Reaches net first src) (Reaches-extends net first src)
            head s ready in
        let new' = relax_all-same_visits net head (net.local_links head) s dst ∙ new in
        elim (take_nearest_cases s') [
          | inl (e, idle) ↦ ground (arith, (Visits-Walk s' settled idle w low).1, new')
          | inr (next, there, least, e) ↦
              let ready' =
                take_node-IsReady net first src (Reaches net first src) s' next there least
                  settled in
              let step =
                sym (search_from-next net dst fuel head s next (take_node next s') e) ∙ h in
              elim (Bool-cases (next == dst)) [
                | inl arrived ↦ ground (arith, rw arrived at step)
                | inr onwards ↦
                    search_from-goes_on fuel next (take_node next s') ready'
                      (take_node-unvisited next dst s' (ground (arith, onwards)) new') t
                      (rw onwards at step)
              ]
        ]

    start_search-goes_on :
        IsFresh net first src
        → dst ≢ src
        → (fuel head : ℕ) → (s : Search)
        → take_nearest (first_links net (visit src first) (net.local_links src)) ≡ some (head, s)
        → head ≢ dst
        → (t : Search) → start_search net src dst first fuel ≢ no_path t
    unfolding visit
    start_search-goes_on fresh off fuel head s chosen ne t h =
        let begun = first_links net (visit src first) (net.local_links src) in
        let settled =
          first_links-IsSettled net first src (visit src first)
            (visit-IsBegun net first src fresh) in
        let new : is_visited begun dst ≡ false =
          first_links-same_visits net first src (net.local_links src) (visit src first) dst
          ∙ ground (arith, off, (fresh dst).1) in
        elim (take_nearest_cases begun) [
          | inl (e, _) ↦ ground (arith, sym e ∙ chosen)
          | inr (next, there, least, e) ↦
              let is : next ≡ head = ground (arith, sym e ∙ chosen) in
              search_from-goes_on fuel next (take_node next begun)
                (take_node-IsReady net first src (Reaches net first src) begun next there least
                  settled)
                (take_node-unvisited next dst begun (λ same. ne (sym is ∙ same)) new) t
                (sym (start_search-next net src dst first fuel next (take_node next begun) e) ∙ h)
        ]

-- On a graph that lists the far ends of its links, a search from a clean start returns a path to another node
-- than the source if some walk over links without a filter leads there at a cost below infinity, and
-- the first node that the search chooses is not the destination.
pub compute_dijkstra_path-returns :
    (equal_link_cost : Bool)
    → (net : Net) → (src dst : ℕ) → (nodes : ℕ → Option NodeWork) → (links : ℕ → Option LinkWork)
    → IsClosed net
    → dst ≢ src
    → (walk : List ℕ) → (c : ℕ)
    → Walk net (init true equal_link_cost net nodes links) src dst walk c
    → c < inf
    → (head : ℕ) → (s : Search)
    → take_nearest (
        first_links net
          (visit src (init true equal_link_cost net nodes links))
          (net.local_links src))
      ≡ some (head, s)
    → head ≢ dst
    → (path : List ℕ) × (t : Search) × (compute_dijkstra_path true equal_link_cost net src dst nodes
          links
        ≡ found path t)
compute_dijkstra_path-returns equal_link_cost net src dst nodes links closed off walk c w low head s
      chosen ne =
    let ends = compute_dijkstra_path-Ends true equal_link_cost net src dst nodes links closed in
    elim (Outcome-cases (compute_dijkstra_path true equal_link_cost net src dst nodes links)) [
      | inl found_one ↦ found_one
      | inr (inl (t, e)) ↦ absurd (
          start_search-goes_on net (init true equal_link_cost net nodes links) src dst c walk w low
            (λ n. init-IsFresh equal_link_cost net nodes links n) off
            (length net.nodes + length (net.local_links src)) head s chosen ne t
            (unfold compute_dijkstra_path in e))
      | inr (inr e) ↦ absurd (ends e)
    ]
