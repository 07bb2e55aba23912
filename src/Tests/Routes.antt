-- ===== src/Tests/Routes.antt =====
-- `ComputeKShortestPaths` of src/tedbManager/tewg.cc on concrete graphs.
use mxtce_geni_scs.Base.{
  ℕ, zero, suc, ◌+◌, ◌-◌, ◌<◌, ◌≤◌, ◌≡◌, refl, true, false, Option, none, some, List, [], ◌∷◌,
  get_elem?, get_or, arith, length, All,
}
use mxtce_geni_scs.Search.{
  inf, Net, Search, NodeWork, LinkWork, cost, found, init, compute_dijkstra_path, start_search,
  search_from, first_links, first_link, reach_first, nearest, erase_node, relax_all, relax, improve,
  open_end, take_node, take_nearest, visit, set_node, init_node, init_link, is_listed,
}
use mxtce_geni_scs.Search.Ends.{IsClosed}
use mxtce_geni_scs.Search.Starting.{NoParallel}
use mxtce_geni_scs.Ksp.{
  Ties, Route, paths, compute_k_shortest_paths, begin_rounds, run_rounds, pick_head, take_least,
  branch, pass_root, deviate, search_again, with_candidate, masked_search, cleanup, set_filter,
  filter_off, filter_node, calculate_path_cost, add_metrics,
}
use mxtce_geni_scs.Ksp.Chains.{IsTied, IsSimple}
use mxtce_geni_scs.Ksp.Routes.{IsRoute}
use mxtce_geni_scs.Ksp.Rounds.{compute_k_shortest_paths-AreRoutes}

-- Links 0 to 1, 1 to 2, 1 to 0 and 0 to 2.
abbrev back_link : Net
back_link = record {
  nodes = 0 ∷ 1 ∷ 2 ∷ [];
  local_links = λ n. get_or ((0 ∷ 3 ∷ []) ∷ (1 ∷ 2 ∷ []) ∷ []) n [];
  remote_end = get_elem? (1 ∷ 2 ∷ 0 ∷ 2 ∷ []);
  metric = λ l. get_or (1 ∷ 1 ∷ 1 ∷ 10 ∷ []) l 0;
}

abbrev back_ties : Ties
back_ties = record {
  local_end = λ l. get_or (0 ∷ 1 ∷ 1 ∷ 0 ∷ []) l 0;
  remote_links = λ n. get_or ((2 ∷ []) ∷ (0 ∷ []) ∷ (1 ∷ 3 ∷ []) ∷ []) n [];
}

back_link-IsClosed : IsClosed back_link
unfolding IsClosed is_listed
back_link-IsClosed zero n h = ground (arith, h)
back_link-IsClosed (suc zero) n h = ground (arith, h)
back_link-IsClosed (suc (suc zero)) n h = ground (arith, h)
back_link-IsClosed (suc (suc (suc zero))) n h = ground (arith, h)
back_link-IsClosed (suc (suc (suc (suc l)))) n h = ground (arith, h)

back_ties-IsTied : IsTied back_link back_ties
unfolding IsTied is_listed
back_ties-IsTied zero zero h = refl
back_ties-IsTied l zero h = ground (arith, h)
back_ties-IsTied l (suc zero) h = ground (arith, h)
back_ties-IsTied l (suc (suc n)) h = ground (arith, h)

back_link-IsSimple : IsSimple back_link
unfolding IsSimple NoParallel open_end is_listed init init_node init_link
back_link-IsSimple zero = (λ k n h e e'. ground (arith, h, e, e'), (λ k n h. ground (arith, h), tt))
back_link-IsSimple (suc zero) =
    (λ k n h e e'. ground (arith, h, e, e'), (λ k n h. ground (arith, h), tt))
back_link-IsSimple (suc (suc n)) = tt

abbrev nodeless : ℕ → Option NodeWork
nodeless n = none

abbrev linkless : ℕ → Option LinkWork
linkless l = none

abbrev left_behind : Search
unfolding compute_dijkstra_path
left_behind = elim (compute_dijkstra_path true false back_link 0 2 nodeless linkless) [
  | found path t ↦ t
  | _ ↦ init true false back_link nodeless linkless
]

found_first :
    compute_dijkstra_path true false back_link 0 2 nodeless linkless
    ≡ found (0 ∷ 1 ∷ []) left_behind
unfolding compute_dijkstra_path start_search search_from first_links first_link reach_first nearest
    erase_node relax_all relax improve open_end take_node take_nearest visit set_node init init_node
    init_link is_listed
found_first = refl

left_behind-lt : cost left_behind 2 < inf
unfolding compute_dijkstra_path start_search search_from first_links first_link reach_first nearest
    erase_node relax_all relax improve open_end take_node take_nearest visit set_node init init_node
    init_link is_listed
left_behind-lt = omega arith

compute_k_shortest_paths-AreRoutes_example :
    (ksp : List Route) × (compute_k_shortest_paths back_link back_ties 0 2 2 nodeless linkless
      ≡ paths (some ksp))
    × All (IsRoute back_link back_ties 0 2) ksp
    × (1 ≤ length ksp)
    × (length ksp ≤ 1 + (2 - 1))
compute_k_shortest_paths-AreRoutes_example =
    compute_k_shortest_paths-AreRoutes back_link back_ties back_ties-IsTied back_link-IsClosed
      back_link-IsSimple 0 2 nodeless linkless (0 ∷ 1 ∷ []) left_behind found_first left_behind-lt 2

-- The links of the paths.
abbrev links_of : List Route → List (List ℕ)
links_of [] = []
links_of (r ∷ routes) = r.path ∷ links_of routes

-- The third path goes over node 0 twice, since only the nodes before the deviation node are taken off.
three_paths :
    elim (compute_k_shortest_paths back_link back_ties 0 2 3 nodeless linkless) [
      | paths (some ksp) ↦ links_of ksp
      | _ ↦ []
    ]
    ≡ (0 ∷ 1 ∷ []) ∷ (3 ∷ []) ∷ (0 ∷ 2 ∷ 3 ∷ []) ∷ []
unfolding compute_k_shortest_paths begin_rounds run_rounds pick_head take_least branch pass_root
    deviate search_again with_candidate masked_search cleanup set_filter filter_off filter_node
    calculate_path_cost add_metrics compute_dijkstra_path start_search search_from first_links
    first_link reach_first nearest erase_node relax_all relax improve open_end take_node
    take_nearest visit set_node init init_node init_link is_listed
three_paths = refl
