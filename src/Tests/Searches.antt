-- ===== src/Tests/Searches.antt =====
-- `ComputeDijkstraPath` of src/tedbManager/tewg.cc on a concrete graph: links 0 to 1, 0 to 2, 1 to 2 and 2 to 3.
use mxtce_geni_scs.Base.{
  ℕ, zero, suc, ◌≤◌, ◌<◌, ◌≡◌, ◌≢◌, refl, true, false, Option, none, some, List, [], ◌∷◌, get_elem?,
  get_or, arith,
}
use mxtce_geni_scs.Search.{
  inf, Net, Search, NodeWork, LinkWork, cost, visit, first_links, take_nearest, is_listed, found,
  out_of_fuel, init, compute_dijkstra_path, start_search, search_from, first_link, reach_first,
  nearest, erase_node, relax_all, relax, improve, open_end, take_node, set_node, init_node,
  init_link,
}
use mxtce_geni_scs.Search.Walks.{Walk, one, more}
use mxtce_geni_scs.Search.Starting.{NoParallel}
use mxtce_geni_scs.Search.Ends.{IsClosed, compute_dijkstra_path-Ends}
use mxtce_geni_scs.Search.Shortest.{compute_dijkstra_path-least, compute_dijkstra_path-Walk}
use mxtce_geni_scs.Search.Missed.{compute_dijkstra_path-misses}
use mxtce_geni_scs.Search.Complete.{compute_dijkstra_path-returns}

abbrev sample : Net
sample = record {
  nodes = 0 ∷ 1 ∷ 2 ∷ 3 ∷ [];
  local_links = λ n. get_or ((0 ∷ 1 ∷ []) ∷ (2 ∷ []) ∷ (3 ∷ []) ∷ []) n [];
  remote_end = get_elem? (1 ∷ 2 ∷ 2 ∷ 3 ∷ []);
  metric = λ l. get_or (1 ∷ 5 ∷ 2 ∷ 1 ∷ []) l 0;
}

abbrev no_nodes : ℕ → Option NodeWork
no_nodes n = none

abbrev no_links : ℕ → Option LinkWork
no_links l = none

abbrev fresh : Search
fresh = init true false sample no_nodes no_links

sample-IsClosed : IsClosed sample
unfolding IsClosed is_listed
sample-IsClosed zero n h = ground (arith, h)
sample-IsClosed (suc zero) n h = ground (arith, h)
sample-IsClosed (suc (suc zero)) n h = ground (arith, h)
sample-IsClosed (suc (suc (suc zero))) n h = ground (arith, h)
sample-IsClosed (suc (suc (suc (suc l)))) n h = ground (arith, h)

compute_dijkstra_path-Ends_example :
    compute_dijkstra_path false true sample 0 3 no_nodes no_links ≢ out_of_fuel
compute_dijkstra_path-Ends_example =
    compute_dijkstra_path-Ends false true sample 0 3 no_nodes no_links sample-IsClosed

abbrev after : Search
unfolding compute_dijkstra_path
after = elim (compute_dijkstra_path true false sample 0 3 no_nodes no_links) [
  | found path t ↦ t
  | _ ↦ fresh
]

after_found :
    compute_dijkstra_path true false sample 0 3 no_nodes no_links ≡ found (0 ∷ 2 ∷ 3 ∷ []) after
unfolding compute_dijkstra_path start_search search_from first_links first_link reach_first nearest
    erase_node relax_all relax improve open_end take_node take_nearest visit set_node init init_node
    init_link is_listed
after_found = refl

direct : Walk sample fresh 0 3 (1 ∷ 3 ∷ []) 6
unfolding init open_end is_listed init_node init_link
direct = more {u = 2} (one {v = 2} 1 (refl, refl)) 3 (refl, refl)

compute_dijkstra_path-least_example :
    (cost after 3 ≤ 6) × ((best : List ℕ) × Walk sample fresh 0 3 best (cost after 3))
compute_dijkstra_path-least_example =
    compute_dijkstra_path-least false sample 0 3 no_nodes no_links (0 ∷ 2 ∷ 3 ∷ []) after
      after_found (1 ∷ 3 ∷ []) 6 (λ same. omega (arith, same)) (omega arith) direct

sample-NoParallel : NoParallel sample fresh 0 (0 ∷ 1 ∷ [])
unfolding NoParallel open_end is_listed init init_node init_link
sample-NoParallel = (λ k n h e e'. ground (arith, h, e, e'), (λ k n h. ground (arith, h), tt))

after-lt : cost after 3 < inf
unfolding compute_dijkstra_path start_search search_from first_links first_link reach_first nearest
    erase_node relax_all relax improve open_end take_node take_nearest visit set_node init init_node
    init_link is_listed
after-lt = omega arith

compute_dijkstra_path-Walk_example : Walk sample fresh 0 3 (0 ∷ 2 ∷ 3 ∷ []) (cost after 3)
compute_dijkstra_path-Walk_example =
    compute_dijkstra_path-Walk false sample 0 3 no_nodes no_links (0 ∷ 2 ∷ 3 ∷ []) after after_found
      sample-NoParallel after-lt

-- Node 1 is chosen first.
abbrev first_choice : Search
unfolding take_nearest first_links first_link reach_first
first_choice = elim (take_nearest (first_links sample (visit 0 fresh) (0 ∷ 1 ∷ []))) [
  | some (head, s) ↦ s
  | none ↦ fresh
]

first_choice-chosen :
    take_nearest (first_links sample (visit 0 fresh) (0 ∷ 1 ∷ [])) ≡ some (1, first_choice)
unfolding first_links first_link reach_first nearest erase_node open_end take_node take_nearest
    visit set_node init init_node init_link
first_choice-chosen = refl

compute_dijkstra_path-returns_example :
    (path : List ℕ) × (t : Search) × (compute_dijkstra_path true false sample 0 3 no_nodes no_links
      ≡ found path t)
compute_dijkstra_path-returns_example =
    compute_dijkstra_path-returns false sample 0 3 no_nodes no_links sample-IsClosed
      (λ same. omega (arith, same)) (1 ∷ 3 ∷ []) 6 direct (omega arith) 1 first_choice
      first_choice-chosen (λ same. omega (arith, same))

once : is_listed 1 first_choice.reachable ≡ false
unfolding first_links first_link reach_first nearest erase_node open_end take_node take_nearest
    visit set_node init init_node init_link is_listed
once = refl

compute_dijkstra_path-misses_example :
    compute_dijkstra_path true false sample 0 1 no_nodes no_links ≢ found (0 ∷ []) first_choice
compute_dijkstra_path-misses_example =
    compute_dijkstra_path-misses true false sample 0 1 no_nodes no_links first_choice
      first_choice-chosen once (0 ∷ []) first_choice
