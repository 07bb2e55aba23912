-- ===== src/Search/Steps.antt =====
-- What one step of the loops of `TEWG::ComputeDijkstraPath` in src/tedbManager/tewg.cc does.
use mxtce_geni_scs.Base.{
  ℕ, ◌+◌, ◌<◌, ◌≤◌, ◌≡◌, ◌⊎◌, refl, sym, ◌∙◌, true, false, not, ◌&&◌, none, some, List, [], ◌∷◌,
  ltb, ◌==◌, suc, arith, Bool-cases, Option-cases, List-cases, inl, inr, if◌then◌else◌,
}
use mathlib.Core.Path.{subst}
use mxtce_geni_scs.Search.{
  Net, Search, relax_all, search_from, Outcome, found, no_path, out_of_fuel, cost, visit,
  first_links, start_search, is_visited, open_end, reach_first, first_link, is_listed, nearest,
  take_node, take_nearest, improve, relax,
}

-- A link that improves nothing changes nothing.
pub relax_cases :
    (net : Net)
    → (head l : ℕ) → (s : Search)
    → ((relax net head s l ≡ s)
        × ((n : ℕ)
            → open_end net s l ≡ some n
            → is_visited s n ≡ false
            → cost s n ≤ cost s head + (s.link l).link_cost))
      ⊎ ((n : ℕ) × (open_end net s l ≡ some n)
          × (is_visited s n ≡ false)
          × (cost s head + (s.link l).link_cost < cost s n)
          × (relax net head s l ≡ improve head l n s))
unfolding relax
relax_cases net head l s = elim (Option-cases (open_end net s l)) [
  | inl e ↦ inl (ground (arith, e), λ n e' h. ground (arith, e, e'))
  | inr (n, e) ↦
      elim (Bool-cases
        (not (is_visited s n) && ltb (cost s head + (s.link l).link_cost) (cost s n))) [
          | inl better ↦
              inr (n, e, ground (arith, better), ground (arith, better), ground (arith, e, better))
          | inr worse ↦ inl (ground (arith, e, worse), λ m e' h. ground (arith, e, e', worse, h))
        ]
]

pub first_link_cases :
    (net : Net)
    → (l : ℕ) → (s : Search)
    → ((first_link net s l ≡ s) × (open_end net s l ≡ none))
      ⊎ ((n : ℕ) × (open_end net s l ≡ some n) × (first_link net s l ≡ reach_first l n s))
unfolding first_link
first_link_cases net l s = elim (Option-cases (open_end net s l)) [
  | inl e ↦ inl (ground (arith, e), e)
  | inr (n, e) ↦ inr (n, e, ground (arith, e))
]

is_listed-nearest :
    (s : Search)
    → (end : ℕ) → (nodes : List ℕ) → is_listed (nearest s end nodes) (end ∷ nodes) ≡ true
unfolding is_listed nearest
is_listed-nearest s end [] = ground arith
is_listed-nearest s end (start ∷ nodes) =
    ground (arith, is_listed-nearest s start nodes, is_listed-nearest s end nodes)

nearest-le :
    (s : Search)
    → (end : ℕ) → (nodes : List ℕ) → (n : ℕ) → is_listed n (end ∷ nodes) ≡ true
    → cost s (nearest s end nodes) ≤ cost s n
unfolding is_listed nearest
nearest-le s end [] n h = let e : end ≡ n = ground (arith, h) in rw e (omega arith)
nearest-le s end (start ∷ nodes) n h = ground (
  arith,
  h,
  nearest-le s start nodes n,
  nearest-le s start nodes start,
  nearest-le s end nodes n,
  nearest-le s end nodes end,
)

-- The choice of a nearest node.
pub take_nearest_cases :
    (s : Search)
    → ((take_nearest s ≡ none) × (s.reachable ≡ []))
      ⊎ ((head : ℕ) × (is_listed head s.reachable ≡ true)
          × ((n : ℕ) → is_listed n s.reachable ≡ true → cost s head ≤ cost s n)
          × (take_nearest s ≡ some (head, take_node head s)))
unfolding take_nearest
take_nearest_cases s = elim (List-cases s.reachable) [
  | inl e ↦ inl (ground (arith, e), e)
  | inr (n, nodes, e) ↦ inr (
    nearest s n nodes,
    subst (λ list. is_listed (nearest s n nodes) list ≡ true) (sym e) (is_listed-nearest s n nodes),
    λ m h. nearest-le s n nodes m (subst (λ list. is_listed m list ≡ true) e h),
    ground (arith, e),
  )
]

pub take_nearest-visits :
    (s t : Search) → (head : ℕ) → take_nearest s ≡ some (head, t) → is_visited t head ≡ true
unfolding take_node visit
take_nearest-visits s t head h = elim (take_nearest_cases s) [
  | inl (e, _) ↦ absurd (ground (arith, sym e ∙ h))
  | inr (n, _, _, e) ↦
      let same : n ≡ head = ground (arith, sym e ∙ h) in
      let is : take_node n s ≡ t = ground (arith, sym e ∙ h) in
      subst (λ u. is_visited u head ≡ true) is (ground (arith, same))
]

-- One round of the endless loop, and the choice before it.
module _ (net : Net) (dst fuel head : ℕ) (s : Search) where
  abbrev pub relaxed : Search
  relaxed = relax_all net head s (net.local_links head)

  pub search_from-empty :
      take_nearest relaxed ≡ none → search_from net dst (suc fuel) head s ≡ no_path relaxed
  unfolding search_from
  search_from-empty e = ground (arith, e)

  pub search_from-next :
      (next : ℕ)
      → (t : Search) → take_nearest relaxed ≡ some (next, t)
      → search_from net dst (suc fuel) head s
        ≡ (if next == dst then found (t.node dst).path t else search_from net dst fuel next t)
  unfolding search_from
  search_from-next next t e = ground (arith, e)

module _ (net : Net) (src dst : ℕ) (s : Search) (fuel : ℕ) where
  abbrev pub begun : Search
  begun = first_links net (visit src s) (net.local_links src)

  pub start_search-empty :
      take_nearest begun ≡ none → start_search net src dst s fuel ≡ no_path begun
  unfolding start_search
  start_search-empty e = ground (arith, e)

  pub start_search-next :
      (head : ℕ)
      → (t : Search) → take_nearest begun ≡ some (head, t)
      → start_search net src dst s fuel ≡ search_from net dst fuel head t
  unfolding start_search
  start_search-next head t e = ground (arith, e)

pub Outcome-cases :
    (o : Outcome)
    → ((path : List ℕ) × (t : Search) × (o ≡ found path t))
      ⊎ (((t : Search) × (o ≡ no_path t)) ⊎ (o ≡ out_of_fuel))
Outcome-cases (found path t) = inl (path, t, refl)
Outcome-cases (no_path t) = inr (inl (t, refl))
Outcome-cases out_of_fuel = inr (inr refl)
