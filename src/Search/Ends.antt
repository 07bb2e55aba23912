-- ===== src/Search/Ends.antt =====
-- The endless loop of `TEWG::ComputeDijkstraPath` in src/tedbManager/tewg.cc ends.
use mxtce_geni_scs.Base.{
  ℕ, zero, suc, ◌+◌, ◌≤◌, ◌<◌, ◌≡◌, ◌≢◌, refl, sym, Bool, true, false, not, ◌&&◌, ◌||◌, Option,
  some, List, [], ◌∷◌, ◌++◌, length, ◌==◌, arith, Bool-cases, Option-cases, inl, inr, length-append,
  if◌then◌else◌,
}
use mxtce_geni_scs.Search.{
  Net, Search, NodeWork, LinkWork, is_visited, open_end, reach_first, first_link, first_links,
  is_listed, erase_node, visit, take_node, improve, relax, relax_all, out_of_fuel, search_from,
  start_search, compute_dijkstra_path, init,
}
use mxtce_geni_scs.Search.Steps.{
  relax_cases, first_link_cases, take_nearest_cases, search_from-empty, search_from-next,
  start_search-empty, start_search-next,
}

-- The nodes that can still be put on the list of reachable ones.
unfoldable is_fresh : Search → ℕ → Bool
is_fresh s n = not (is_visited s n) && not (is_listed n s.reachable)

unfoldable count : (ℕ → Bool) → List ℕ → ℕ
count test [] = 0
count test (n ∷ nodes) = (if test n then 1 else 0) + count test nodes

-- Every far end is on the list of the nodes.
unfoldable pub IsClosed : Net → Type 0
IsClosed net = (l n : ℕ) → net.remote_end l ≡ some n → is_listed n net.nodes ≡ true

count-le-length : (test : ℕ → Bool) → (nodes : List ℕ) → count test nodes ≤ length nodes
unfolding count
count-le-length test [] = omega arith
count-le-length test (n ∷ nodes) = ground (arith, count-le-length test nodes)

module _ (before after : ℕ → Bool) (fewer : (n : ℕ) → after n ≡ true → before n ≡ true) where
  count-le : (nodes : List ℕ) → count after nodes ≤ count before nodes
  unfolding count
  count-le [] = omega arith
  count-le (n ∷ nodes) = ground (arith, count-le nodes, fewer n)

  count-lt :
      (n : ℕ)
      → before n ≡ true
      → after n ≡ false
      → (nodes : List ℕ) → is_listed n nodes ≡ true
      → count after nodes < count before nodes
  unfolding count is_listed
  count-lt n was is_not [] h = ground arith
  count-lt n was is_not (m ∷ nodes) h = elim (Bool-cases (m == n)) [
    | inl same ↦
        let e : m ≡ n = ground arith in
        ground (arith, count-le nodes, rw (sym e) at was, rw (sym e) at is_not)
    | inr other ↦ ground (arith, count-lt n was is_not nodes (ground (arith, h, other)), fewer m)
  ]

pub is_listed-append :
    (n m : ℕ) → (nodes : List ℕ) → is_listed n (nodes ++ m ∷ []) ≡ is_listed n nodes || (m == n)
unfolding is_listed
is_listed-append n m [] = ground arith
is_listed-append n m (k ∷ nodes) = ground (arith, is_listed-append n m nodes)

length-erase_node :
    (n : ℕ)
    → (nodes : List ℕ) → is_listed n nodes ≡ true
    → suc (length (erase_node n nodes)) ≡ length nodes
unfolding is_listed erase_node
length-erase_node n [] h = ground arith
length-erase_node n (m ∷ nodes) h = ground (arith, length-erase_node n nodes)

pub is_listed-erase_node :
    (n m : ℕ) → n ≢ m → (nodes : List ℕ) → is_listed m (erase_node n nodes) ≡ is_listed m nodes
unfolding is_listed erase_node
is_listed-erase_node n m ne [] = refl
is_listed-erase_node n m ne (k ∷ nodes) = ground (arith, is_listed-erase_node n m ne nodes)

module _ (net : Net) (closed : IsClosed net) where
  abbrev work : Search → ℕ
  work s = count (is_fresh s) net.nodes + length s.reachable

  open_end-is_listed :
      (s : Search) → (l n : ℕ) → open_end net s l ≡ some n → is_listed n net.nodes ≡ true
  unfolding open_end IsClosed
  open_end-is_listed s l n h = elim (Option-cases (net.remote_end l)) [
    | inl e ↦ absurd (ground (arith, e, h))
    | inr (m, e) ↦ ground (arith, closed l m e, e, h)
  ]

  module _ (s t : Search) (same : (n : ℕ) → is_visited t n ≡ is_visited s n) where
    work_kept : t.reachable ≡ s.reachable → work t ≤ work s
    unfolding is_fresh
    work_kept e =
        let none_new =
          count-le (is_fresh s) (is_fresh t) (λ n h. rw (sym (same n)) (rw (sym e) h)) net.nodes in
        ground (arith, none_new, e)

    -- A fresh node on the list of the graph pays for its place.
    work_push :
        (n : ℕ)
        → is_listed n net.nodes ≡ true
        → is_fresh s n ≡ true
        → t.reachable ≡ s.reachable ++ n ∷ []
        → work t ≤ work s
    unfolding is_fresh
    work_push n listed fresh e =
        let has = λ (m : ℕ). is_listed-append m n s.reachable in
        let fewer =
          count-lt (is_fresh s) (is_fresh t) (λ m h. ground (arith, has m, same m, h, e)) n fresh
            (ground (arith, has n, e)) net.nodes listed in
        let longer : length t.reachable ≡ length s.reachable + 1 =
          rw e (omega (arith, length-append s.reachable (n ∷ []))) in
        omega (arith, fewer, longer)

  improve-work :
      (head l n : ℕ)
      → (s : Search) → is_listed n net.nodes ≡ true
      → is_visited s n ≡ false
      → work (improve head l n s) ≤ work s
  unfolding improve
  improve-work head l n s listed unvisited =
      let same : (m : ℕ) → is_visited (improve head l n s) m ≡ is_visited s m = λ m. ground arith in
      elim (Bool-cases (is_listed n s.reachable)) [
        | inl there ↦ work_kept s (improve head l n s) same (ground (arith, there))
        | inr absent ↦
            work_push s (improve head l n s) same n listed
              (unfold is_fresh in ground (arith, absent, unvisited)) (ground (arith, absent))
      ]

  relax-work : (head l : ℕ) → (s : Search) → work (relax net head s l) ≤ work s
  relax-work head l s = elim (relax_cases net head l s) [
    | inl (e, _) ↦ rw e (omega arith)
    | inr (n, e, unvisited, better, is) ↦
        rw is (improve-work head l n s (open_end-is_listed s l n e) unvisited)
  ]

  relax_all-work :
      (head : ℕ) → (links : List ℕ) → (s : Search) → work (relax_all net head s links) ≤ work s
  unfolding relax_all
  relax_all-work head [] s = omega arith
  relax_all-work head (l ∷ links) s =
      omega (arith, relax-work head l s, relax_all-work head links (relax net head s l))

  take_node-work :
      (head : ℕ)
      → (s : Search) → is_listed head s.reachable ≡ true
      → suc (work (take_node head s)) ≤ work s
  unfolding take_node is_fresh visit
  take_node-work head s there =
      let none_new =
        count-le (is_fresh s) (is_fresh (take_node head s))
          (λ n h. elim (Bool-cases (n == head)) [
            | inl same ↦ absurd (ground (arith, h, same))
            | inr other ↦
                ground
                  (arith, h, other, is_listed-erase_node head n (ground (arith, other)) s.reachable)
          ])
          net.nodes in
      omega (arith, none_new, length-erase_node head s.reachable there)

  -- More fuel than nodes that are or can get reachable is enough.
  search_from-Ends :
      (dst fuel head : ℕ)
      → (s : Search) → work s < fuel
      → search_from net dst fuel head s ≢ out_of_fuel
  search_from-Ends dst zero head s h = absurd (omega arith)
  search_from-Ends dst (suc fuel) head s h =
      let s' = relax_all net head s (net.local_links head) in
      let kept = relax_all-work head (net.local_links head) s in
      elim (take_nearest_cases s') [
        | inl (e, _) ↦ rw (search_from-empty net dst fuel head s e) (λ same. cc)
        | inr (next, there, _, e) ↦
            let less = take_node-work next s' there in
            let rest =
              search_from-Ends dst fuel next (take_node next s') (omega (arith, kept, less)) in
            rw (search_from-next net dst fuel head s next (take_node next s') e)
              (ground (arith, rest))
      ]

  reach_first-work : (l n : ℕ) → (s : Search) → work (reach_first l n s) ≤ work s + 1
  unfolding reach_first is_fresh
  reach_first-work l n s =
      let longer = length-append s.reachable (n ∷ []) in
      let none_new =
        count-le (is_fresh s) (is_fresh (reach_first l n s))
          (λ m h. ground (arith, h, is_listed-append m n s.reachable)) net.nodes in
      ground (arith, none_new, longer)

  visit-work : (n : ℕ) → (s : Search) → s.reachable ≡ [] → work (visit n s) ≤ length net.nodes
  unfolding visit
  visit-work n s h = ground (arith, h, count-le-length (is_fresh (visit n s)) net.nodes)

  first_link-work : (l : ℕ) → (s : Search) → work (first_link net s l) ≤ work s + 1
  first_link-work l s = elim (first_link_cases net l s) [
    | inl (e, _) ↦ rw e (omega arith)
    | inr (n, _, e) ↦ rw e (reach_first-work l n s)
  ]

  first_links-work :
      (links : List ℕ) → (s : Search) → work (first_links net s links) ≤ work s + length links
  unfolding first_links
  first_links-work [] s = omega arith
  first_links-work (l ∷ links) s =
      omega (arith, first_links-work links (first_link net s l), first_link-work l s)

  start_search-Ends :
      (src dst : ℕ)
      → (s : Search) → s.reachable ≡ []
      → start_search net src dst s (length net.nodes + length (net.local_links src)) ≢ out_of_fuel
  start_search-Ends src dst s h =
      let s' = first_links net (visit src s) (net.local_links src) in
      let fuel = length net.nodes + length (net.local_links src) in
      let first = first_links-work (net.local_links src) (visit src s) in
      let at_most = visit-work src s h in
      elim (take_nearest_cases s') [
        | inl (e, _) ↦ rw (start_search-empty net src dst s fuel e) (λ same. cc)
        | inr (head, there, _, e) ↦
            let less = take_node-work head s' there in
            rw (start_search-next net src dst s fuel head (take_node head s') e) (
              search_from-Ends dst fuel head (take_node head s')
                (omega (arith, first, less, at_most)))
      ]

-- On a graph that lists the far ends of its links the search ends, whatever work data it starts from,
-- with a path or with the exception.
pub compute_dijkstra_path-Ends :
    (clean_start equal_link_cost : Bool)
    → (net : Net) → (src dst : ℕ) → (nodes : ℕ → Option NodeWork) → (links : ℕ → Option LinkWork)
    → IsClosed net
    → compute_dijkstra_path clean_start equal_link_cost net src dst nodes links ≢ out_of_fuel
unfolding compute_dijkstra_path init
compute_dijkstra_path-Ends clean_start equal_link_cost net src dst nodes links closed =
    start_search-Ends net closed src dst (init clean_start equal_link_cost net nodes links) refl
