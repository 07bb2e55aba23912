-- ===== src/Search/Missed.antt =====
-- Where `TEWG::ComputeDijkstraPath` of src/tedbManager/tewg.cc misses a path that is there.
use mxtce_geni_scs.Base.{
  ℕ, zero, suc, ◌+◌, ◌≡◌, ◌≢◌, ap, sym, ◌∙◌, Bool, true, false, Option, some, List, [], ◌∷◌, arith,
  inl, inr, length,
}
use mxtce_geni_scs.Search.{
  Net, Search, NodeWork, LinkWork, is_visited, is_listed, relax, relax_all, improve, visit,
  take_node, take_nearest, first_links, search_from, found, init, compute_dijkstra_path,
}
use mxtce_geni_scs.Search.Ends.{is_listed-append, is_listed-erase_node}
use mxtce_geni_scs.Search.Steps.{
  relax_cases, take_nearest-visits, take_nearest_cases, search_from-empty, search_from-next,
  start_search-next,
}

module _ (net : Net) (dst : ℕ) where
  -- The destination has been visited and is not on the list of reachable nodes.
  abbrev IsPast : Search → Type 0
  IsPast s = (is_visited s dst ≡ true) × (is_listed dst s.reachable ≡ false)

  relax-IsPast : (head l : ℕ) → (s : Search) → IsPast s → IsPast (relax net head s l)
  unfolding improve
  relax-IsPast head l s past = elim (relax_cases net head l s) [
    | inl (e, _) ↦ rw e past
    | inr (n, _, fresh, _, e) ↦ rw e (
      ground (arith, past.0, fresh),
      ground (arith, past.0, past.1, fresh, is_listed-append dst n s.reachable),
    )
  ]

  relax_all-IsPast :
      (head : ℕ) → (links : List ℕ) → (s : Search) → IsPast s → IsPast (relax_all net head s links)
  unfolding relax_all
  relax_all-IsPast head [] s past = past
  relax_all-IsPast head (l ∷ links) s past =
      relax_all-IsPast head links (relax net head s l) (relax-IsPast head l s past)

  take_node-IsPast : (head : ℕ) → head ≢ dst → (s : Search) → IsPast s → IsPast (take_node head s)
  unfolding take_node visit
  take_node-IsPast head ne s past =
      (ground (arith, past.0), rw (is_listed-erase_node head dst ne s.reachable) past.1)

  search_from-IsPast :
      (fuel head : ℕ)
      → (s : Search) → IsPast s
      → (path : List ℕ) → (t : Search) → search_from net dst fuel head s ≢ found path t
  search_from-IsPast zero head s past path t h = unfold search_from in ground (arith, h)
  search_from-IsPast (suc fuel) head s past path t h =
      let s' = relax_all net head s (net.local_links head) in
      let past' = relax_all-IsPast head (net.local_links head) s past in
      elim (take_nearest_cases s') [
        | inl (e, _) ↦ ground (arith, sym (search_from-empty net dst fuel head s e) ∙ h)
        | inr (next, there, _, e) ↦
            let ne : next ≢ dst =
              λ same. ground (arith, ap (λ n. is_listed n s'.reachable) same, there, past'.1) in
            let step = sym (search_from-next net dst fuel head s next (take_node next s') e) ∙ h in
            search_from-IsPast fuel next (take_node next s') (take_node-IsPast next ne s' past')
              path t (ground (arith, step, ne))
      ]

-- When the first node that the search chooses is the destination, and the destination is not on the list of reachable
-- nodes a second time, as it is with two open links from the source to it, the search returns no path: only
-- later choices are compared with the destination.
pub compute_dijkstra_path-misses :
    (clean_start equal_link_cost : Bool)
    → (net : Net) → (src dst : ℕ) → (nodes : ℕ → Option NodeWork) → (links : ℕ → Option LinkWork)
    → (s : Search)
    → take_nearest (
        first_links net
          (visit src (init clean_start equal_link_cost net nodes links))
          (net.local_links src))
      ≡ some (dst, s)
    → is_listed dst s.reachable ≡ false
    → (path : List ℕ) → (t : Search)
    → compute_dijkstra_path clean_start equal_link_cost net src dst nodes links ≢ found path t
unfolding compute_dijkstra_path
compute_dijkstra_path-misses clean_start equal_link_cost net src dst nodes links s chosen once path
      t h =
    let first = init clean_start equal_link_cost net nodes links in
    let begun = first_links net (visit src first) (net.local_links src) in
    let fuel = length net.nodes + length (net.local_links src) in
    search_from-IsPast net dst fuel dst s (take_nearest-visits begun s dst chosen, once) path t
      (sym (start_search-next net src dst first fuel dst s chosen) ∙ h)
