-- ===== src/Ksp/Routes.antt =====
-- The routes that `TEWG::ComputeKShortestPaths` of src/tedbManager/tewg.cc makes from a head path.
use mathlib.Core.Path.{subst}
use mxtce_geni_scs.Base.{
  ℕ, ◌≡◌, ◌≢◌, refl, sym, Bool, true, false, ◌||◌, some, List, [], ◌∷◌, ◌++◌, ◌==◌, arith, inl, inr,
  Bool-cases, ltb, All, All-append,
}
use mxtce_geni_scs.Search.{Net, Search}
use mxtce_geni_scs.Search.Ends.{IsClosed}
use mxtce_geni_scs.Search.Walks.{Walk, one, more}
use mxtce_geni_scs.Ksp.{
  Ties, Route, Progress, add_metrics, calculate_path_cost, filter_node, take_least, pass_root,
  with_candidate, new_deviation, masked_search, deviate, branch, set_filter, filter_off,
}
use mxtce_geni_scs.Ksp.Chains.{Chain, Chain-append, IsTied, IsSimple, search_again-Chain}

module _ (net : Net) (ties : Ties) (src dst : ℕ) where
  unfoldable pub starts_at : ℕ → List ℕ → Bool
  starts_at n [] = false
  starts_at n (l ∷ path) = (ties.local_end l == n) || starts_at n path

  starts_at-append :
      (n : ℕ) → (front back : List ℕ) → starts_at n back ≡ true → starts_at n (front ++ back) ≡ true
  unfolding starts_at
  starts_at-append n [] back h = h
  starts_at-append n (l ∷ front) back h = ground (arith, starts_at-append n front back h)

  starts_at-Chain :
      (u v : ℕ)
      → (l : ℕ) → (path : List ℕ) → Chain net ties u (l ∷ path) v
      → starts_at u (l ∷ path) ≡ true
  unfolding starts_at Chain
  starts_at-Chain u v l path (at_u, _, _, _) = ground (arith, at_u)

  starts_at-before :
      (n : ℕ)
      → (front back : List ℕ) → starts_at n front ≡ true
      → starts_at n (front ++ back) ≡ true
  unfolding starts_at
  starts_at-before n [] back h = absurd (ground (arith, h))
  starts_at-before n (l ∷ front) back h = ground (arith, h, starts_at-before n front back)

  -- A route leads from the source to the destination, passes its deviation node, and has the sum of the metrics as its cost.
  pub record IsRoute (r : Route) : Type 0 where
    pub chained : Chain net ties src r.path dst
    pub deviates : starts_at r.deviation r.path ≡ true
    pub priced : r.route_cost ≡ add_metrics net r.path

  pub take_least-All :
      (r : Route)
      → (routes : List Route) → IsRoute r
      → All IsRoute routes
      → IsRoute (take_least r routes).0 × All IsRoute (take_least r routes).1
  unfolding take_least
  take_least-All r [] is all = (is, tt)
  take_least-All r (q ∷ routes) is (is_q, all) =
      let (least, others) = take_least-All q routes is_q all in
      let head = (take_least q routes).0 in
      elim (Bool-cases (ltb head.route_cost r.route_cost)) [
        | inl less ↦ rw less (least, (is, others))
        | inr not_less ↦ rw not_less (is, (is_q, all))
      ]

  -- What is said of the root and the rest of a head path.
  abbrev IsSplit : List ℕ → List ℕ → Type 0
  IsSplit root rest = (u : ℕ) × Chain net ties src root u × Chain net ties u rest dst

  pass_root-IsSplit :
      (n : ℕ)
      → (root rest : List ℕ) → IsSplit root rest
      → starts_at n rest ≡ true
      → (s : Search)
      → (root' rest' : List ℕ) × (s' : Search) × (pass_root net ties n root rest s
          ≡ some (root', rest', s'))
        × IsSplit root' rest'
  unfolding starts_at pass_root Chain
  pass_root-IsSplit n root [] split there s = absurd (ground (arith, there))
  pass_root-IsSplit n root (l ∷ rest) (u, before, (at_u, w, leads, after)) there s =
      elim (Bool-cases (ties.local_end l == n)) [
        | inl here ↦ (root, l ∷ rest, s, ground (arith, here), (u, before, (at_u, w, leads, after)))
        | inr further ↦
            let split : IsSplit (root ++ l ∷ []) rest = (
              w,
              Chain-append net ties src u w root (l ∷ []) before (at_u, w, leads, refl),
              after,
            ) in
            let (root', rest', s', e, split') =
              pass_root-IsSplit n (root ++ l ∷ []) rest split (ground (arith, further, there))
                (filter_node net ties (ties.local_end l) s) in
            (root', rest', s', ground (arith, further, e), split')
      ]

  -- The root and a chain after it make a route.
  new_deviation-deviates :
      (u l : ℕ)
      → (root half : List ℕ) → ties.local_end l ≡ u
      → Chain net ties src root u
      → starts_at u half ≡ true
      → starts_at (new_deviation ties src root l) (root ++ half) ≡ true
  unfolding Chain
  new_deviation-deviates u l [] half at_u before there =
      subst (λ n. starts_at n half ≡ true) (sym before) there
  new_deviation-deviates u l (k ∷ root) half at_u before there =
      starts_at-append (ties.local_end l) (k ∷ root) half
        (subst (λ n. starts_at n half ≡ true) (sym at_u) there)

  calculate_path_cost-add_metrics :
      (root half : List ℕ)
      → (k : ℕ) → calculate_path_cost net (root ++ k ∷ half) ≡ add_metrics net (root ++ k ∷ half)
  unfolding calculate_path_cost
  calculate_path_cost-add_metrics [] half k = refl
  calculate_path_cost-add_metrics (l ∷ root) half k = refl

  with_candidate-All :
      (head : Route)
      → (u l : ℕ) → (root half : List ℕ) → ties.local_end l ≡ u
      → Chain net ties src root u
      → (half ≢ [] → Chain net ties u half dst)
      → (candidates : List Route) → All IsRoute candidates
      → All IsRoute (with_candidate net ties src head root l half candidates)
  unfolding with_candidate
  with_candidate-All head u l root [] at_u before half_chain candidates all = all
  with_candidate-All head u l root (k ∷ half) at_u before half_chain candidates all =
      let after = half_chain (λ same. ground (arith, same)) in
      let route : Route = record {
        path = root ++ k ∷ half;
        route_cost = calculate_path_cost net (root ++ k ∷ half);
        deviation = new_deviation ties src root l;
        masked = head.masked ++ l ∷ [];
      } in
      let is : IsRoute route = record {
        chained = Chain-append net ties src u dst root (k ∷ half) before after;
        deviates =
            new_deviation-deviates u l root (k ∷ half) at_u before
              (starts_at-Chain u dst k half after);
        priced = calculate_path_cost-add_metrics root half k;
      } in
      All-append IsRoute candidates (route ∷ []) all (is, tt)

  module _ (tied : IsTied net ties) (closed : IsClosed net) (simple : IsSimple net) where
    pub starts_at-Walk :
        (first : Search)
        → (v c : ℕ) → (path : List ℕ) → Walk net first src v path c
        → starts_at src path ≡ true
    unfolding starts_at IsTied
    starts_at-Walk first _ _ _ (one {v} l (starts, _)) = ground (arith, tied l src starts)
    starts_at-Walk first _ _ _ (more {u} {v} {c} {path} walk l leads) =
        starts_at-before src path (l ∷ []) (starts_at-Walk first u c path walk)

    deviate-All :
        (head : Route)
        → (root rest : List ℕ) → IsSplit root rest
        → (s : Search) → (candidates : List Route) → All IsRoute candidates
        → (s' : Search) × (candidates' : List Route) × (deviate net ties src dst head root rest s
              candidates
            ≡ some (s', candidates'))
          × All IsRoute candidates'
    unfolding deviate Chain masked_search
    deviate-All head root [] split s candidates all = (s, candidates, refl, all)
    deviate-All head root (l ∷ rest) (u, before, (at_u, w, leads, after)) s candidates all =
        let masked = set_filter l true (filter_off head.masked s) in
        let (t, e, chain) =
          search_again-Chain net dst masked ties tied closed simple (ties.local_end l) in
        let before' = subst (λ n. Chain net ties src root n) (sym at_u) before in
        let all' =
          with_candidate-All head (ties.local_end l) l root (t.node dst).path refl before' chain
            candidates all in
        let split : IsSplit (root ++ l ∷ []) rest =
          (w, Chain-append net ties src u w root (l ∷ []) before (at_u, w, leads, refl), after) in
        let (s', candidates', e', all'') =
          deviate-All head (root ++ l ∷ []) rest split (set_filter l false t)
            (with_candidate net ties src head root l (t.node dst).path candidates) all' in
        (s', candidates', rw e e', all'')

    pub branch-All :
        (head : Route)
        → IsRoute head
        → (st : Progress) → All IsRoute st.candidates
        → (st' : Progress) × (branch net ties src dst head st ≡ some st')
          × All IsRoute st'.candidates
          × (st'.ksp ≡ st.ksp)
    unfolding branch Chain
    branch-All head is st all =
        let (root, rest, s, e, split) =
          pass_root-IsSplit head.deviation [] head.path (src, refl, is.chained) is.deviates
            st.search in
        let (s', candidates, e', all') = deviate-All head root rest split s st.candidates all in
        (record st { search = s'; candidates = candidates }, rw e (rw e' refl), all', refl)
