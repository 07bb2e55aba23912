-- ===== src/Search.antt =====
-- `TEWG::ComputeDijkstraPath` of src/tedbManager/tewg.cc with the work data of src/tedbManager/tewg.hh. Nodes and
-- links are numbers. Costs are doubles in the code: sums of link metrics that never pass 2 * `inf`, which doubles
-- hold exactly. A metric is an `int`, and not negative here. Every node and link that a node or a link refers to is on
-- the lists of the graph, so that each has its work data once the first two loops are over.
pub mod Ends
pub mod Steps
pub mod Walks
pub mod Relaxing
pub mod Choosing
pub mod Starting
pub mod Shortest
pub mod Missed
pub mod Complete
use mxtce_geni_scs.Base.{
  ℕ, zero, suc, ◌+◌, Bool, true, false, not, ◌&&◌, ◌||◌, Option, none, some, List, [], ◌∷◌, ◌++◌,
  length, ltb, ◌==◌, if◌then◌else◌,
}

-- `_INF_`
abbrev pub inf : ℕ
inf = 2147483647

-- `TWorkData` of a node, and of a link.
pub record NodeWork : Type 0 where
  pub path_cost : ℕ
  pub visited : Bool
  pub node_off : Bool
  pub path : List ℕ

pub record LinkWork : Type 0 where
  pub link_cost : ℕ
  pub link_off : Bool

-- The graph: the links that start at a node, the node at the far end of a link, and the metric of a link.
pub record Net : Type 0 where
  pub nodes : List ℕ
  pub local_links : ℕ → List ℕ
  pub remote_end : ℕ → Option ℕ
  pub metric : ℕ → ℕ

-- The work data of all nodes and links, and the list `ReachableNodes`.
pub record Search : Type 0 where
  pub node : ℕ → NodeWork
  pub link : ℕ → LinkWork
  pub reachable : List ℕ

abbrev pub new_node : NodeWork
new_node = record { path_cost = inf; visited = false; node_off = false; path = [] }

-- The first two loops, on the work data of one node and of one link: none is there before the first search.
unfoldable pub init_node : Bool → Option NodeWork → NodeWork
init_node clean_start none = new_node
init_node clean_start (some work) = if clean_start then new_node else work

unfoldable pub init_link : Bool → Bool → ℕ → Option LinkWork → LinkWork
init_link clean_start equal_link_cost metric none = record {
  link_cost = if equal_link_cost then 1 else metric;
  link_off = false;
}
init_link clean_start equal_link_cost metric (some work) = record {
  link_cost = if equal_link_cost then 1 else metric;
  link_off = if clean_start then false else work.link_off;
}

unfoldable pub init : Bool → Bool → Net → (ℕ → Option NodeWork) → (ℕ → Option LinkWork) → Search
unfolding init_node init_link
init clean_start equal_link_cost net nodes links = record {
  node = λ n. init_node clean_start (nodes n);
  link = λ l. init_link clean_start equal_link_cost (net.metric l) (links l);
  reachable = [];
}

abbrev pub cost : Search → ℕ → ℕ
cost s n = (s.node n).path_cost

abbrev pub is_visited : Search → ℕ → Bool
is_visited s n = (s.node n).visited

unfoldable pub set_node : ℕ → NodeWork → Search → Search
set_node n work s = record s { node = λ m. if m == n then work else s.node m }

-- The node at the far end of a link, unless a filter is set on the link or on the node.
unfoldable pub open_end : Net → Search → ℕ → Option ℕ
open_end net s l = if (s.link l).link_off then none else elim (net.remote_end l) [
  | none ↦ none
  | some n ↦ if (s.node n).node_off then none else some n
]

-- The loop over the links of the source.
unfoldable pub reach_first : ℕ → ℕ → Search → Search
unfolding set_node
reach_first l n s =
    let reached = record s { reachable = s.reachable ++ n ∷ [] } in
    let work = s.node n in
    if ltb (s.link l).link_cost work.path_cost
    then set_node n (record work { path_cost = (s.link l).link_cost; path = work.path ++ l ∷ [] })
        reached
    else reached

unfoldable pub first_link : Net → Search → ℕ → Search
first_link net s l = elim (open_end net s l) [ none ↦ s | some n ↦ reach_first l n s ]

unfoldable pub first_links : Net → Search → List ℕ → Search
first_links net s [] = s
first_links net s (l ∷ links) = first_links net (first_link net s l) links

unfoldable pub is_listed : ℕ → List ℕ → Bool
is_listed n [] = false
is_listed n (m ∷ nodes) = (m == n) || is_listed n nodes

-- The first of the reachable nodes that are nearest. `end` is the nearest so far.
unfoldable pub nearest : Search → ℕ → List ℕ → ℕ
nearest s end [] = end
nearest s end (start ∷ nodes) =
    nearest s (if ltb (cost s start) (cost s end) then start else end) nodes

-- `erase` of the first place of a node. No place before that of the nearest node has the same node.
unfoldable pub erase_node : ℕ → List ℕ → List ℕ
erase_node n [] = []
erase_node n (m ∷ nodes) = if m == n then nodes else m ∷ erase_node n nodes

unfoldable pub visit : ℕ → Search → Search
unfolding set_node
visit n s = set_node n (record (s.node n) { visited = true }) s

unfoldable pub take_node : ℕ → Search → Search
unfolding visit
take_node n s = record (visit n s) { reachable = erase_node n s.reachable }

unfoldable pub take_nearest : Search → Option (ℕ × Search)
take_nearest s = elim s.reachable [
  | [] ↦ none
  | n ∷ nodes ↦ let head = nearest s n nodes in some (head, take_node head s)
]

-- The loop over the links of the head node.
unfoldable pub improve : ℕ → ℕ → ℕ → Search → Search
unfolding set_node
improve head l n s =
    set_node n
      (record (s.node n) {
        path_cost = cost s head + (s.link l).link_cost;
        path = (s.node head).path ++ l ∷ [];
      })
      (record s {
        reachable = if is_listed n s.reachable then s.reachable else s.reachable ++ n ∷ [];
      })

unfoldable pub relax : Net → ℕ → Search → ℕ → Search
relax net head s l = elim (open_end net s l) [
  | none ↦ s
  | some n ↦
      if not (is_visited s n) && ltb (cost s head + (s.link l).link_cost) (cost s n)
      then improve head l n s
      else s
]

unfoldable pub relax_all : Net → ℕ → Search → List ℕ → Search
relax_all net head s [] = s
relax_all net head s (l ∷ links) = relax_all net head (relax net head s l) links

-- The path, or the exception; both leave the work data behind.
pub data Outcome : Type 0 where
  found : List ℕ → Search → Outcome
  no_path : Search → Outcome
  out_of_fuel : Outcome

-- The endless loop, with fuel.
unfoldable pub search_from : Net → ℕ → ℕ → ℕ → Search → Outcome
search_from net dst zero head s = out_of_fuel
search_from net dst (suc fuel) head s =
    let s' = relax_all net head s (net.local_links head) in
    elim (take_nearest s') [
      | none ↦ no_path s'
      | some (next, t) ↦
          if next == dst then found (t.node dst).path t else search_from net dst fuel next t
    ]

-- The first choice is not compared with the destination.
unfoldable pub start_search : Net → ℕ → ℕ → Search → ℕ → Outcome
start_search net src dst s fuel =
    let s' = first_links net (visit src s) (net.local_links src) in
    elim (take_nearest s') [ none ↦ no_path s' | some (head, t) ↦ search_from net dst fuel head t ]

-- Each round takes one node off the reachable ones, and puts on only nodes that were never on.
unfoldable pub compute_dijkstra_path :
    Bool → Bool → Net → ℕ → ℕ → (ℕ → Option NodeWork) → (ℕ → Option LinkWork) → Outcome
compute_dijkstra_path clean_start equal_link_cost net src dst nodes links =
    start_search net src dst (init clean_start equal_link_cost net nodes links)
      (length net.nodes + length (net.local_links src))
