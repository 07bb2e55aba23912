-- ===== src/Ksp.antt =====
-- `TEWG::ComputeKShortestPaths` of src/tedbManager/tewg.cc, which calls `ComputeDijkstraPath`. Every link has a
-- local end. Metrics and their sums are natural numbers.
pub mod Chains
pub mod Final
pub mod Routes
pub mod Rounds
use mxtce_geni_scs.Base.{
  ℕ, zero, suc, ◌+◌, Bool, true, false, Option, none, some, List, [], ◌∷◌, ◌++◌, ltb, ◌==◌,
  if◌then◌else◌, ◌>>=◌,
}
use mxtce_geni_scs.Search.{
  Net, Search, NodeWork, LinkWork, inf, cost, set_node, Outcome, found, no_path, out_of_fuel,
  compute_dijkstra_path,
}

-- What the search reads of links and nodes besides the `Net`.
pub record Ties : Type 0 where
  pub local_end : ℕ → ℕ
  pub remote_links : ℕ → List ℕ

-- `TPath`
pub record Route : Type 0 where
  pub path : List ℕ
  pub route_cost : ℕ
  pub deviation : ℕ
  pub masked : List ℕ

-- The variables of the outer loop.
pub record Progress : Type 0 where
  pub search : Search
  pub candidates : List Route
  pub ksp : List Route

unfoldable pub add_metrics : Net → List ℕ → ℕ
add_metrics net [] = 0
add_metrics net (l ∷ path) = net.metric l + add_metrics net path

unfoldable pub calculate_path_cost : Net → List ℕ → ℕ
calculate_path_cost net [] = inf
calculate_path_cost net (l ∷ path) = add_metrics net (l ∷ path)

-- The reset of all work data that keeps the filters.
abbrev pub cleanup_node : NodeWork → NodeWork
cleanup_node work = record { path_cost = inf; visited = false; node_off = work.node_off; path = [] }

abbrev pub cleanup_link : LinkWork → LinkWork
cleanup_link work = record { link_cost = inf; link_off = work.link_off }

unfoldable pub cleanup : Search → Search
cleanup s = record s { node = λ n. cleanup_node (s.node n); link = λ l. cleanup_link (s.link l) }

-- Filters.
unfoldable pub set_filter : ℕ → Bool → Search → Search
set_filter l off s = record s {
  link = λ k. if k == l then record (s.link l) { link_off = off } else s.link k;
}

unfoldable pub filter_off : List ℕ → Search → Search
filter_off [] s = s
filter_off (l ∷ links) s = filter_off links (set_filter l true s)

unfoldable pub filter_node : Net → Ties → ℕ → Search → Search
filter_node net ties n s =
    let s' = filter_off (ties.remote_links n) (filter_off (net.local_links n) s) in
    set_node n (record (s'.node n) { node_off = true }) s'

-- `min_element` and `erase`: the first of the cheapest routes, and the others.
unfoldable pub take_least : Route → List Route → Route × List Route
take_least r [] = (r, [])
take_least r (q ∷ routes) =
    let (least, others) = take_least q routes in
    if ltb least.route_cost r.route_cost then (least, r ∷ others) else (r, q ∷ routes)

unfoldable pub pick_head : Bool → Progress → Option (Route × Progress)
pick_head first st = elim st.candidates [
  | [] ↦ none
  | r ∷ routes ↦
      let (head, others) = take_least r routes in
      some (
        head,
        record st { candidates = others; ksp = if first then st.ksp else st.ksp ++ head ∷ [] },
      )
]

-- The links before the deviation node are passed, and their local ends taken off. The end of the path is not tested for.
unfoldable pub pass_root :
    Net → Ties → ℕ → List ℕ → List ℕ → Search → Option (List ℕ × List ℕ × Search)
pass_root net ties deviation root [] s = none
pass_root net ties deviation root (l ∷ path) s =
    let rest =
      pass_root net ties deviation (root ++ l ∷ []) path
        (filter_node net ties (ties.local_end l) s) in
    if ties.local_end l == deviation then some (root, l ∷ path, s) else rest

-- The work data that a search leaves, whether it found a path or not.
abbrev pub left_by : Outcome → Option Search
left_by (found path s) = some s
left_by (no_path s) = some s
left_by out_of_fuel = none

unfoldable pub search_again : Net → ℕ → ℕ → Search → Option Search
search_again net src dst s =
    left_by
      (compute_dijkstra_path false false net src dst (λ n. some (s.node n)) (λ l. some (s.link l)))

abbrev pub new_deviation : Ties → ℕ → List ℕ → ℕ → ℕ
new_deviation ties src [] l = src
new_deviation ties src (k ∷ root) l = ties.local_end l

-- The root of the head path with the path to the destination after it, if there is one.
unfoldable pub with_candidate :
    Net → Ties → ℕ → Route → List ℕ → ℕ → List ℕ → List Route → List Route
with_candidate net ties src head root l [] candidates = candidates
with_candidate net ties src head root l (k ∷ half) candidates =
    candidates
    ++ (record {
      path = root ++ k ∷ half;
      route_cost = calculate_path_cost net (root ++ k ∷ half);
      deviation = new_deviation ties src root l;
      masked = head.masked ++ l ∷ [];
    })
      ∷ []

-- The work data before the search from the local end of a link.
unfoldable pub masked_search : Route → ℕ → Search → Search
masked_search head l s = cleanup (set_filter l true (filter_off head.masked s))

-- The loop over the links from the deviation node on.
unfoldable pub deviate :
    Net
    → Ties
    → ℕ
    → ℕ
    → Route
    → List ℕ
    → List ℕ
    → Search
    → List Route
    → Option (Search × List Route)
deviate net ties src dst head root [] s candidates = some (s, candidates)
deviate net ties src dst head root (l ∷ path) s candidates = do
  s' ← search_again net (ties.local_end l) dst (masked_search head l s)
  deviate net ties src dst head (root ++ l ∷ []) path (set_filter l false s')
      (with_candidate net ties src head root l (s'.node dst).path candidates)

-- The body of the outer loop after the head path is taken.
unfoldable pub branch : Net → Ties → ℕ → ℕ → Route → Progress → Option Progress
branch net ties src dst head st = do
  passed ← pass_root net ties head.deviation [] head.path st.search
  left ← deviate net ties src dst head passed.0 passed.1 passed.2 st.candidates
  some (record st { search = left.0; candidates = left.1 })

-- The outer loop. `turns` is K + 1 less `KSPcounter`.
unfoldable pub run_rounds : Net → Ties → ℕ → ℕ → Bool → ℕ → Progress → Option (List Route)
run_rounds net ties src dst first zero st = some st.ksp
run_rounds net ties src dst first (suc zero) st =
    elim (pick_head first (record st { search = cleanup st.search })) [
      | none ↦ some st.ksp
      | some (head, st') ↦ some st'.ksp
    ]
run_rounds net ties src dst first (suc (suc turns)) st =
    elim (pick_head first (record st { search = cleanup st.search })) [
      | none ↦ some st.ksp
      | some (head, st') ↦ do
        next ← branch net ties src dst head st'
        run_rounds net ties src dst false (suc turns) next
    ]

-- `none` in the answer is an iterator past its end.
pub data Paths : Type 0 where
  no_first_path : Paths
  paths : Option (List Route) → Paths

abbrev pub first_route : ℕ → ℕ → Search → Route
first_route src dst s = record {
  path = (s.node dst).path;
  route_cost = cost s dst;
  deviation = src;
  masked = [];
}

abbrev pub first_progress : Route → Search → Progress
first_progress route s = record { search = s; candidates = route ∷ []; ksp = route ∷ [] }

unfoldable pub begin_rounds : Net → Ties → ℕ → ℕ → ℕ → Outcome → Paths
begin_rounds net ties src dst k (found path s) =
    paths (run_rounds net ties src dst true k (first_progress (first_route src dst s) s))
begin_rounds net ties src dst k (no_path s) = no_first_path
begin_rounds net ties src dst k out_of_fuel = no_first_path

unfoldable pub compute_k_shortest_paths :
    Net → Ties → ℕ → ℕ → ℕ → (ℕ → Option NodeWork) → (ℕ → Option LinkWork) → Paths
compute_k_shortest_paths net ties src dst k nodes links =
    begin_rounds net ties src dst k (compute_dijkstra_path true false net src dst nodes links)
