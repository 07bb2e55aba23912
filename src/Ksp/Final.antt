-- ===== src/Ksp/Final.antt =====
-- What `TEWG::ComputeDijkstraPath` of src/tedbManager/tewg.cc leaves in the work data, whether it finds a path or not.
use mathlib.Core.Path.{subst}
use mxtce_geni_scs.Base.{
  ℕ, zero, suc, ◌+◌, ◌≤◌, ◌<◌, ◌≡◌, ◌≢◌, sym, Bool, Option, List, [], ◌∷◌, ◌==◌, arith, Bool-cases,
  inl, inr, length,
}
use mxtce_geni_scs.Search.{
  Net, Search, NodeWork, LinkWork, inf, cost, relax, relax_all, visit, take_node, first_link,
  first_links, search_from, start_search, found, no_path, out_of_fuel, Outcome, improve,
  reach_first, init, compute_dijkstra_path,
}
use mxtce_geni_scs.Search.Steps.{
  relax_cases, first_link_cases, take_nearest_cases, search_from-empty, search_from-next,
  start_search-empty, start_search-next,
}
use mxtce_geni_scs.Search.Walks.{Walk, IsReady, IsSound}
use mxtce_geni_scs.Search.Starting.{
  NoParallel, Reaches, Reaches-extends, IsFresh, visit-IsBegun, first_links-IsSettled,
}
use mxtce_geni_scs.Search.Relaxing.{relax_all-IsSettled}
use mxtce_geni_scs.Search.Choosing.{take_node-IsReady}

-- A node that is not reached has no path.
pub record IsTidy (s : Search) : Type 0 where
  pub bounded : (v : ℕ) → cost s v ≤ inf
  pub pathless : (v : ℕ) → inf ≤ cost s v → (s.node v).path ≡ []

reach_first-IsTidy : (l n : ℕ) → (s : Search) → IsTidy s → IsTidy (reach_first l n s)
unfolding reach_first
reach_first-IsTidy l n s tidy = record {
  bounded = λ v. ground (arith, tidy.bounded v, tidy.bounded n);
  pathless = λ v h. ground (arith, h, tidy.pathless v, tidy.bounded v, tidy.bounded n);
}

first_links-IsTidy :
    (net : Net) → (links : List ℕ) → (s : Search) → IsTidy s → IsTidy (first_links net s links)
unfolding first_links
first_links-IsTidy net [] s tidy = tidy
first_links-IsTidy net (l ∷ links) s tidy =
    first_links-IsTidy net links (first_link net s l) (elim (first_link_cases net l s) [
      | inl (e, _) ↦ subst IsTidy (sym e) tidy
      | inr (n, _, e) ↦ subst IsTidy (sym e) (reach_first-IsTidy l n s tidy)
    ])

improve-IsTidy :
    (head l n : ℕ)
    → (s : Search) → cost s head + (s.link l).link_cost < cost s n
    → IsTidy s
    → IsTidy (improve head l n s)
unfolding improve
improve-IsTidy head l n s better tidy = record {
  bounded = λ v. ground (arith, tidy.bounded v, tidy.bounded n, better);
  pathless = λ v h. ground (arith, h, tidy.pathless v, tidy.bounded n, better);
}

relax_all-IsTidy :
    (net : Net)
    → (head : ℕ) → (links : List ℕ) → (s : Search) → IsTidy s
    → IsTidy (relax_all net head s links)
unfolding relax_all
relax_all-IsTidy net head [] s tidy = tidy
relax_all-IsTidy net head (l ∷ links) s tidy =
    relax_all-IsTidy net head links (relax net head s l) (elim (relax_cases net head l s) [
      | inl (e, _) ↦ subst IsTidy (sym e) tidy
      | inr (n, _, _, better, e) ↦ subst IsTidy (sym e) (improve-IsTidy head l n s better tidy)
    ])

visit-IsTidy : (n : ℕ) → (s : Search) → IsTidy s → IsTidy (visit n s)
unfolding visit
visit-IsTidy n s tidy = record {
  bounded = λ v. ground (arith, tidy.bounded v, tidy.bounded n);
  pathless = λ v h. ground (arith, h, tidy.pathless v, tidy.pathless n);
}

take_node-IsTidy : (n : ℕ) → (s : Search) → IsTidy s → IsTidy (take_node n s)
unfolding take_node visit
take_node-IsTidy n s tidy = record {
  bounded = λ v. ground (arith, tidy.bounded v, tidy.bounded n);
  pathless = λ v h. ground (arith, h, tidy.pathless v, tidy.pathless n);
}

-- Either way the search leaves work data with a property.
abbrev pub Leaves : (Search → Type 0) → Outcome → Type 0
Leaves P (found path t) = P t
Leaves P (no_path t) = P t
Leaves P out_of_fuel = Unit

module _ (net : Net) (first : Search) (src dst : ℕ) where
  abbrev pub IsLeft : Search → Type 0
  IsLeft t = IsSound net first src (Reaches net first src) t × IsTidy t

  search_from-IsLeft :
      (fuel head : ℕ)
      → (s : Search) → IsReady net first src (Reaches net first src) head s
      → IsTidy s
      → Leaves IsLeft (search_from net dst fuel head s)
  search_from-IsLeft zero head s ready tidy = unfold search_from in tt
  search_from-IsLeft (suc fuel) head s ready tidy =
      let s' = relax_all net head s (net.local_links head) in
      let settled =
        relax_all-IsSettled net first src (Reaches net first src) (Reaches-extends net first src)
          head s ready in
      let tidy' = relax_all-IsTidy net head (net.local_links head) s tidy in
      elim (take_nearest_cases s') [
        | inl (e, _) ↦
            subst (Leaves IsLeft) (sym (search_from-empty net dst fuel head s e))
              (settled.sound, tidy')
        | inr (next, there, least, e) ↦
            let ready' =
              take_node-IsReady net first src (Reaches net first src) s' next there least settled in
            let tidy'' = take_node-IsTidy next s' tidy' in
            let step = sym (search_from-next net dst fuel head s next (take_node next s') e) in
            elim (Bool-cases (next == dst)) [
              | inl arrived ↦ subst (Leaves IsLeft) (rw arrived at step) (ready'.sound, tidy'')
              | inr onwards ↦
                  subst (Leaves IsLeft) (rw onwards at step)
                    (search_from-IsLeft fuel next (take_node next s') ready' tidy'')
            ]
      ]

  start_search-IsLeft :
      IsFresh net first src → (fuel : ℕ) → Leaves IsLeft (start_search net src dst first fuel)
  start_search-IsLeft fresh fuel =
      let s = first_links net (visit src first) (net.local_links src) in
      let settled =
        first_links-IsSettled net first src (visit src first) (visit-IsBegun net first src fresh) in
      let begun : IsTidy first = record {
        bounded = λ v. ground (arith, (fresh v).0);
        pathless = λ v _. (fresh v).2;
      } in
      let tidy =
        first_links-IsTidy net (net.local_links src) (visit src first)
          (visit-IsTidy src first begun) in
      elim (take_nearest_cases s) [
        | inl (e, _) ↦
            subst (Leaves IsLeft) (sym (start_search-empty net src dst first fuel e))
              (settled.sound, tidy)
        | inr (head, there, least, e) ↦
            subst (Leaves IsLeft)
              (sym (start_search-next net src dst first fuel head (take_node head s) e))
              (search_from-IsLeft fuel head (take_node head s)
                (take_node-IsReady net first src (Reaches net first src) s head there least settled)
                (take_node-IsTidy head s tidy))
      ]

  -- What is left with a cost or a path at the destination has a walk there.
  pub IsLeft-Walk_low :
      NoParallel net first src (net.local_links src)
      → (t : Search) → IsLeft t
      → cost t dst < inf
      → Walk net first src dst (t.node dst).path (cost t dst)
  unfolding Reaches
  IsLeft-Walk_low simple t (sound, tidy) low =
      let (walk, w, is) = sound.attained dst low in
      subst (λ p. Walk net first src dst p (cost t dst)) (sym (is simple)) w

  pub IsLeft-Walk :
      NoParallel net first src (net.local_links src)
      → (t : Search) → IsLeft t
      → (t.node dst).path ≢ []
      → Walk net first src dst (t.node dst).path (cost t dst)
  IsLeft-Walk simple t left some_path =
      IsLeft-Walk_low simple t left (ground (arith, left.1.pathless dst, some_path))

module _ (clean_start equal_link_cost : Bool) (net : Net) (src dst : ℕ)
    (nodes : ℕ → Option NodeWork) (links : ℕ → Option LinkWork) where
  abbrev pub started : Search
  started = init clean_start equal_link_cost net nodes links

  pub compute_dijkstra_path-IsLeft :
      IsFresh net started src
      → Leaves
          (IsLeft net started src dst)
          (compute_dijkstra_path clean_start equal_link_cost net src dst nodes links)
  unfolding compute_dijkstra_path
  compute_dijkstra_path-IsLeft fresh =
      start_search-IsLeft net started src dst fresh
        (length net.nodes + length (net.local_links src))
