-- ===== src/Search/Starting.antt =====
-- The loop over the links of the source in `TEWG::ComputeDijkstraPath` of src/tedbManager/tewg.cc.
use mathlib.Core.Path.{subst}
use mxtce_geni_scs.Base.{
  ℕ, ◌≤◌, ◌<◌, ◌≡◌, ◌≢◌, refl, ap, sym, ◌∙◌, true, false, some, List, [], ◌∷◌, ◌++◌, ◌==◌, arith,
  Bool-cases, inl, inr, ltb,
}
use mxtce_geni_scs.Search.{
  Net, Search, inf, cost, is_visited, open_end, is_listed, visit, reach_first, first_link,
  first_links,
}
use mxtce_geni_scs.Search.Ends.{is_listed-append}
use mxtce_geni_scs.Search.Steps.{first_link_cases}
use mxtce_geni_scs.Search.Walks.{
  Walk, one, more, price, Leads, Extends, Reaches-same, IsSettled, Closed,
}

module _ (net : Net) (first : Search) (src : ℕ) where
  -- No two of the links lead to one node.
  unfoldable pub NoParallel : List ℕ → Type 0
  NoParallel [] = Unit
  NoParallel (l ∷ links) =
      ((k n : ℕ)
        → is_listed k links ≡ true
        → open_end net first l ≡ some n
        → open_end net first k ≢ some n)
      × NoParallel links

  -- Some walk has the cost, and if no links from the source are parallel it is the path.
  unfoldable pub Reaches : ℕ → List ℕ → ℕ → Type 0
  Reaches v path c =
      (walk : List ℕ) × Walk net first src v walk c
      × (NoParallel (net.local_links src) → path ≡ walk)

  pub Reaches-extends : Extends net first src Reaches
  unfolding Reaches
  Reaches-extends u v c path (walk, w, same) l leads =
      (walk ++ l ∷ [], more w l leads, λ h. ap (λ p. p ++ l ∷ []) (same h))

  pub record IsBegun (rest : List ℕ) (s : Search) : Type 0 where
    ends : (l : ℕ) → open_end net s l ≡ open_end net first l
    prices : (l : ℕ) → (s.link l).link_cost ≡ price net first l
    le_inf : (v : ℕ) → cost s v ≤ inf
    attained : (v : ℕ) → cost s v < inf → Reaches v (s.node v).path (cost s v)
    waiting : (v : ℕ) → cost s v < inf → is_listed v s.reachable ≡ true
    visits : (v : ℕ) → is_visited s v ≡ (v == src)
    simple : NoParallel (net.local_links src) → NoParallel rest
    untouched :
        (l v : ℕ)
        → is_listed l rest ≡ true
        → open_end net first l ≡ some v
        → NoParallel (net.local_links src)
        → (s.node v).path ≡ []

  module _ (l n : ℕ) (rest : List ℕ) (s : Search) (begun : IsBegun (l ∷ rest) s)
      (leads : Leads net first src l n) where
    abbrev reached : Search
    reached = reach_first l n s

    Reaches-first : Reaches n ((s.node n).path ++ l ∷ []) (price net first l)
    unfolding Reaches is_listed
    Reaches-first = (
      l ∷ [],
      one l leads,
      λ h. ap (λ p. p ++ l ∷ []) (begun.untouched l n (ground arith) leads.1 h),
    )

    reach_first-IsBegun : IsBegun rest (reach_first l n s)
    unfolding reach_first open_end NoParallel is_listed
    reach_first-IsBegun = record {
      ends = λ k. ground (arith, ends k);
      prices = λ k. ground (arith, prices k);
      le_inf = λ v. ground (arith, le_inf v, le_inf n);
      attained = λ v h. elim (Bool-cases (v == n)) [
        | inl same ↦
            let e : n ≡ v = ground (arith, same) in
            elim (Bool-cases (ltb (s.link l).link_cost (cost s n))) [
              | inl better ↦
                  Reaches-same net first src Reaches n v ((s.node n).path ++ l ∷ [])
                    (reached.node v).path (price net first l) (cost reached v) e
                    (ground (arith, same, better)) (ground (arith, same, better, prices l))
                    Reaches-first
              | inr worse ↦
                  Reaches-same net first src Reaches v v (s.node v).path (reached.node v).path
                    (cost s v) (cost reached v) refl (ground (arith, worse)) (ground (arith, worse))
                    (attained v (ground (arith, worse, h)))
            ]
        | inr other ↦
            Reaches-same net first src Reaches v v (s.node v).path (reached.node v).path (cost s v)
              (cost reached v) refl (ground (arith, other)) (ground (arith, other))
              (attained v (ground (arith, other, h)))
      ];
      waiting = λ v h. ground (arith, h, is_listed-append v n s.reachable, waiting v);
      visits = λ v. ground (arith, visits v);
      simple = λ h. (simple h).1;
      untouched = λ k v hk e h.
          let apart : v ≢ n = λ same. (simple h).0 k n hk leads.1 (e ∙ ap some same) in
          ground (arith, apart, untouched k v (ground (arith, hk)) e h);
    }
      where
        open begun use {ends, prices, le_inf, attained, waiting, visits, simple, untouched}

  first_link-le : (l : ℕ) → (s : Search) → (v : ℕ) → cost (first_link net s l) v ≤ cost s v
  unfolding first_link reach_first
  first_link-le l s v = elim (first_link_cases net l s) [
    | inl (e, _) ↦ rw e (omega arith)
    | inr (n, _, e) ↦ rw e (ground arith)
  ]

  first_links-le :
      (links : List ℕ) → (s : Search) → (v : ℕ) → cost (first_links net s links) v ≤ cost s v
  unfolding first_links
  first_links-le [] s v = omega arith
  first_links-le (l ∷ links) s v =
      omega (arith, first_link-le l s v, first_links-le links (first_link net s l) v)

  first_link-IsBegun :
      (l : ℕ)
      → is_listed l (net.local_links src) ≡ true
      → (rest : List ℕ) → (s : Search) → IsBegun (l ∷ rest) s
      → IsBegun rest (first_link net s l)
        × ((v : ℕ)
            → open_end net first l ≡ some v
            → cost (first_link net s l) v ≤ price net first l)
  unfolding reach_first NoParallel is_listed
  first_link-IsBegun l starts rest s begun = elim (first_link_cases net l s) [
    | inl (e, shut) ↦
        let nowhere = sym (begun.ends l) ∙ shut in
        let begun' : IsBegun rest s = record {
          ends = begun.ends;
          prices = begun.prices;
          le_inf = begun.le_inf;
          attained = begun.attained;
          waiting = begun.waiting;
          visits = begun.visits;
          simple = λ h. (begun.simple h).1;
          untouched = λ k v hk. begun.untouched k v (ground (arith, hk));
        } in
        rw e (begun', λ v e'. absurd (ground (arith, e', nowhere)))
    | inr (n, e, is) ↦
        let leads : Leads net first src l n = (starts, sym (begun.ends l) ∙ e) in
        rw is (
          reach_first-IsBegun l n rest s begun leads,
          λ v e'. ground (arith, e', leads.1, begun.prices l),
        )
  ]

  first_links-IsBegun :
      (links : List ℕ)
      → ((l : ℕ) → is_listed l links ≡ true → is_listed l (net.local_links src) ≡ true)
      → (s : Search) → IsBegun links s
      → IsBegun [] (first_links net s links)
        × ((l v : ℕ)
            → is_listed l links ≡ true
            → open_end net first l ≡ some v
            → cost (first_links net s links) v ≤ price net first l)
  unfolding first_links is_listed
  first_links-IsBegun [] starts s begun = (begun, λ l v h. absurd (ground (arith, h)))
  first_links-IsBegun (l ∷ links) starts s begun =
      let s' = first_link net s l in
      let (begun', near) = first_link-IsBegun l (starts l (ground arith)) links s begun in
      let (begun'', nears) =
        first_links-IsBegun links (λ k h. starts k (ground (arith, h))) s' begun' in
      (
        begun'',
        λ k v h e. elim (Bool-cases (l == k)) [
          | inl same ↦
              let is : l ≡ k = ground (arith, same) in
              subst (λ j. cost (first_links net s' links) v ≤ price net first j) is
                (omega (
                  arith,
                  first_links-le links s' v,
                  near v (subst (λ j. open_end net first j ≡ some v) (sym is) e),
                ))
          | inr other ↦ nears k v (ground (arith, h, other)) e
        ],
      )

  first_link-same_visits :
      (l : ℕ) → (s : Search) → (v : ℕ) → is_visited (first_link net s l) v ≡ is_visited s v
  unfolding reach_first
  first_link-same_visits l s v = elim (first_link_cases net l s) [
    | inl (e, _) ↦ rw e refl
    | inr (n, _, e) ↦ rw e (ground arith)
  ]

  pub first_links-same_visits :
      (links : List ℕ)
      → (s : Search) → (v : ℕ) → is_visited (first_links net s links) v ≡ is_visited s v
  unfolding first_links
  first_links-same_visits [] s v = refl
  first_links-same_visits (l ∷ links) s v =
      first_links-same_visits links (first_link net s l) v ∙ first_link-same_visits l s v

  -- The list of reachable nodes is settled after the first loop, if it was empty before.
  pub first_links-IsSettled :
      (s : Search)
      → IsBegun (net.local_links src) s
      → IsSettled net first src Reaches (first_links net s (net.local_links src))
  unfolding Closed
  first_links-IsSettled s begun =
      let (done, near) = first_links-IsBegun (net.local_links src) (λ l h. h) s begun in
      record {
        sound = record {
          ends = done.ends;
          prices = done.prices;
          le_inf = done.le_inf;
          near = λ l v (starts, e). near l v starts e;
          attained = done.attained;
          waiting = λ v _. done.waiting v;
          ordered = λ w u hw ne. absurd (ground (arith, done.visits w, hw, ne));
          begins = ground (arith, done.visits src);
        };
        closed = λ v hv l w (starts, e) ne.
            let same : v ≡ src = ground (arith, done.visits v, hv) in
            let bound =
              near l w (subst (λ n. is_listed l (net.local_links n) ≡ true) same starts) e in
            omega (arith, bound);
      }

  abbrev pub IsFresh : Type 0
  IsFresh =
      (n : ℕ) → (cost first n ≡ inf) × (is_visited first n ≡ false) × ((first.node n).path ≡ [])

  pub visit-IsBegun : IsFresh → IsBegun (net.local_links src) (visit src first)
  unfolding visit open_end
  visit-IsBegun fresh = record {
    ends = λ l. ground arith;
    prices = λ l. refl;
    le_inf = λ v. ground (arith, (fresh v).0);
    attained = λ v h. absurd (ground (arith, (fresh v).0, (fresh src).0, h));
    waiting = λ v h. absurd (ground (arith, (fresh v).0, (fresh src).0, h));
    visits = λ v. ground (arith, (fresh v).1);
    simple = λ h. h;
    untouched = λ l v _ _ _. ground (arith, (fresh v).2, (fresh src).2);
  }
