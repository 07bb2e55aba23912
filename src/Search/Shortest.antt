-- ===== src/Search/Shortest.antt =====
-- What `TEWG::ComputeDijkstraPath` of src/tedbManager/tewg.cc finds, from fresh work data.
use mathlib.Core.Path.{subst}
use mxtce_geni_scs.Base.{
  ℕ, zero, suc, ◌+◌, ◌≤◌, ◌<◌, ◌≡◌, ◌≢◌, ◌⊎◌, refl, ap, sym, ◌∙◌, Bool, true, false, Option, List,
  [], ◌==◌, arith, Bool-cases, Option-cases, inl, inr, length,
}
use mxtce_geni_scs.Search.{
  Net, Search, NodeWork, LinkWork, inf, cost, is_visited, relax_all, visit, take_node, first_links,
  search_from, start_search, found, init, compute_dijkstra_path,
}
use mxtce_geni_scs.Search.Steps.{
  take_nearest_cases, search_from-empty, search_from-next, start_search-empty, start_search-next,
}
use mxtce_geni_scs.Search.Walks.{Walk, one, more, price, Leads, IsReady, Closed}
use mxtce_geni_scs.Search.Starting.{
  NoParallel, Reaches, Reaches-extends, IsFresh, visit-IsBegun, first_links-IsSettled,
}
use mxtce_geni_scs.Search.Relaxing.{relax_all-IsSettled}
use mxtce_geni_scs.Search.Choosing.{take_node-IsReady}

module _ (net : Net) (first : Search) (src : ℕ) (Reaches : ℕ → List ℕ → ℕ → Type 0) where
  -- A head that is not the source costs no more than any walk to it.
  module _ (head : ℕ) (s : Search) (ready : IsReady net first src Reaches head s)
      (off : head ≢ src) where
    abbrev Bounds : ℕ → ℕ → Type 0
    Bounds v c =
        (cost s head ≤ c) ⊎ ((v ≡ src) ⊎ (is_visited s v ≡ true) × (v ≢ head) × (cost s v ≤ c))

    Bounds-at : (v c : ℕ) → (v ≢ src → cost s v ≤ c) → Bounds v c
    Bounds-at v c h = elim (Bool-cases (v == src)) [
      | inl same ↦ inr (inl (ground (arith, same)))
      | inr other ↦ elim (Bool-cases (v == head)) [
        | inl same ↦ inl (ground (arith, same, h (ground (arith, other))))
        | inr different ↦ elim (Bool-cases (is_visited s v)) [
          | inl old ↦ inr (inr (old, ground (arith, different), h (ground (arith, other))))
          | inr new ↦ inl (
              omega (
                arith,
                ready.sound.ordered head v ready.visited_head off new,
                h (ground (arith, other)),
              ))
        ]
      ]
    ]

    Bounds-Walk : {v c : ℕ} → {path : List ℕ} → Walk net first src v path c → Bounds v c
    unfolding Closed
    Bounds-Walk (one {v} l leads) =
        Bounds-at v (price net first l) (λ _. ready.sound.near l v leads)
    Bounds-Walk (more {u} {v} {c} walk l leads) = elim (Bounds-Walk walk) [
      | inl high ↦ inl (omega (arith, high))
      | inr (inl start) ↦ Bounds-at v (c + price net first l) (λ _.
          omega (arith, ready.sound.near l v (subst (λ n. Leads net first n l v) start leads)))
      | inr (inr (old, different, below)) ↦
          Bounds-at v (c + price net first l)
            (λ ne. omega (arith, ready.others u old different l v leads ne, below))
    ]

    head-least : {c : ℕ} → {path : List ℕ} → Walk net first src head path c → cost s head ≤ c
    head-least walk = elim (Bounds-Walk walk) [
      | inl low ↦ low
      | inr (inl start) ↦ absurd (off start)
      | inr (inr (_, different, _)) ↦ absurd (different refl)
    ]

module _ (net : Net) (first : Search) (src dst : ℕ) where
  abbrev Result : List ℕ → Search → Type 0
  Result path t = IsReady net first src (Reaches net first src) dst t × (path ≡ (t.node dst).path)

  found_ready :
      (next : ℕ)
      → (s : Search) → next ≡ dst
      → IsReady net first src (Reaches net first src) next s
      → (path : List ℕ) → (t : Search) → found (s.node dst).path s ≡ found path t
      → Result path t
  found_ready next s arrived ready path t h =
      let same : s ≡ t = ground (arith, h) in
      let same_path : (s.node dst).path ≡ path = ground (arith, h) in
      (
        subst (IsReady net first src (Reaches net first src) dst) same
            (subst (λ n. IsReady net first src (Reaches net first src) n s) arrived ready),
        sym same_path ∙ ap (λ u. (u.node dst).path) same,
      )

  search_from-found :
      (fuel head : ℕ)
      → (s : Search) → IsReady net first src (Reaches net first src) head s
      → (path : List ℕ) → (t : Search) → search_from net dst fuel head s ≡ found path t
      → Result path t
  search_from-found zero head s ready path t h = absurd (unfold search_from in ground (arith, h))
  search_from-found (suc fuel) head s ready path t h =
      let s' = relax_all net head s (net.local_links head) in
      let settled =
        relax_all-IsSettled net first src (Reaches net first src) (Reaches-extends net first src)
          head s ready in
      elim (take_nearest_cases s') [
        | inl (e, _) ↦ absurd (ground (arith, sym (search_from-empty net dst fuel head s e) ∙ h))
        | inr (next, there, least, e) ↦
            let ready' =
              take_node-IsReady net first src (Reaches net first src) s' next there least settled in
            let step = sym (search_from-next net dst fuel head s next (take_node next s') e) ∙ h in
            elim (Bool-cases (next == dst)) [
              | inl arrived ↦
                  let is : next ≡ dst = ground (arith, arrived) in
                  found_ready next (take_node next s') is ready' path t (rw arrived at step)
              | inr onwards ↦
                  search_from-found fuel next (take_node next s') ready' path t (rw onwards at step)
            ]
      ]

  start_search-found :
      IsFresh net first src
      → (fuel : ℕ) → (path : List ℕ) → (t : Search)
      → start_search net src dst first fuel ≡ found path t
      → Result path t
  start_search-found fresh fuel path t h =
      let s = first_links net (visit src first) (net.local_links src) in
      let settled =
        first_links-IsSettled net first src (visit src first) (visit-IsBegun net first src fresh) in
      elim (take_nearest_cases s) [
        | inl (e, _) ↦
            absurd (ground (arith, sym (start_search-empty net src dst first fuel e) ∙ h))
        | inr (head, there, least, e) ↦
            search_from-found fuel head (take_node head s)
              (take_node-IsReady net first src (Reaches net first src) s head there least settled)
              path t (sym (start_search-next net src dst first fuel head (take_node head s) e) ∙ h)
      ]

pub init-IsFresh :
    (equal_link_cost : Bool)
    → (net : Net) → (nodes : ℕ → Option NodeWork) → (links : ℕ → Option LinkWork) → (n : ℕ)
    → let s = init true equal_link_cost net nodes links in
      (cost s n ≡ inf) × (is_visited s n ≡ false) × ((s.node n).path ≡ [])
unfolding init
init-IsFresh equal_link_cost net nodes links n = elim (Option-cases (nodes n)) [
  | inl e ↦ ground (arith, e)
  | inr (work, e) ↦ ground (arith, e)
]

module _ (equal_link_cost : Bool) (net : Net) (src dst : ℕ) (nodes : ℕ → Option NodeWork)
    (links : ℕ → Option LinkWork) (path : List ℕ) (t : Search)
    (returned : compute_dijkstra_path true equal_link_cost net src dst nodes links
      ≡ found path t) where
  abbrev first : Search
  first = init true equal_link_cost net nodes links

  returned-Result : Result net first src dst path t
  unfolding compute_dijkstra_path
  returned-Result =
      start_search-found net first src dst (λ n. init-IsFresh equal_link_cost net nodes links n)
        (length net.nodes + length (net.local_links src)) path t returned

  -- When a search from a clean start returns a path to another node than the source, and a walk over links without a
  -- filter leads there at a cost below infinity, the cost that the destination's work data then has is the cost of some
  -- such walk, and no more than that of any.
  pub compute_dijkstra_path-least :
      (walk : List ℕ)
      → (c : ℕ) → dst ≢ src
      → c < inf
      → Walk net first src dst walk c
      → (cost t dst ≤ c) × ((best : List ℕ) × Walk net first src dst best (cost t dst))
  unfolding Reaches
  compute_dijkstra_path-least walk c off low w =
      let least = head-least net first src (Reaches net first src) dst t returned-Result.0 off w in
      let (best, w', is) = returned-Result.0.sound.attained dst (omega (arith, least, low)) in
      (least, (best, w'))

  -- When a search from a clean start returns a path, the destination has a cost below infinity and no two of the
  -- source's open links lead to one node, the path is a walk over links without a filter from the source to
  -- the destination that has that cost.
  pub compute_dijkstra_path-Walk :
      NoParallel net first src (net.local_links src)
      → cost t dst < inf
      → Walk net first src dst path (cost t dst)
  unfolding Reaches
  compute_dijkstra_path-Walk simple low =
      let (walk, w, is) = returned-Result.0.sound.attained dst low in
      subst (λ p. Walk net first src dst p (cost t dst)) (sym (returned-Result.1 ∙ is simple)) w
