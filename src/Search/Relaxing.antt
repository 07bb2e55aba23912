-- ===== src/Search/Relaxing.antt =====
-- The loop over the links of the head node in `TEWG::ComputeDijkstraPath` of src/tedbManager/tewg.cc.
use mathlib.Core.Path.{subst}
use mxtce_geni_scs.Base.{
  ℕ, ◌+◌, ◌≤◌, ◌<◌, ◌≡◌, ◌≢◌, refl, sym, ◌∙◌, true, false, some, List, [], ◌∷◌, ◌++◌, ◌==◌, arith,
  Bool-cases, inl, inr,
}
use mxtce_geni_scs.Search.{
  Net, Search, cost, is_visited, open_end, is_listed, improve, relax, relax_all,
}
use mxtce_geni_scs.Search.Ends.{is_listed-append}
use mxtce_geni_scs.Search.Steps.{relax_cases}
use mxtce_geni_scs.Search.Walks.{
  price, Leads, Extends, Reaches-same, IsSound, IsSettled, IsReady, Closed,
}

-- Nothing gets dearer, and what is visited stays as it is.
record Improves (s t : Search) : Type 0 where
  cheaper : (v : ℕ) → cost t v ≤ cost s v
  same_visits : (v : ℕ) → is_visited t v ≡ is_visited s v
  fixed : (v : ℕ) → is_visited s v ≡ true → cost t v ≡ cost s v

Improves-trans : {s t u : Search} → Improves s t → Improves t u → Improves s u
Improves-trans h k = record {
  cheaper = λ v. omega (arith, h.cheaper v, k.cheaper v);
  same_visits = λ v. k.same_visits v ∙ h.same_visits v;
  fixed = λ v e. k.fixed v (h.same_visits v ∙ e) ∙ h.fixed v e;
}

same_search : (s : Search) → Improves s s
same_search s = record { cheaper = λ v. omega arith; same_visits = λ v. refl; fixed = λ v h. refl }

improve-Improves :
    (head l n : ℕ)
    → (s : Search) → is_visited s n ≡ false
    → cost s head + (s.link l).link_cost < cost s n
    → Improves s (improve head l n s)
unfolding improve
improve-Improves head l n s fresh better = record {
  cheaper = λ v. ground arith;
  same_visits = λ v. ground arith;
  fixed = λ v h. ground (arith, h, fresh);
}

relax-Improves : (net : Net) → (head l : ℕ) → (s : Search) → Improves s (relax net head s l)
relax-Improves net head l s = elim (relax_cases net head l s) [
  | inl (e, _) ↦ subst (Improves s) (sym e) (same_search s)
  | inr (n, _, fresh, better, e) ↦
      subst (Improves s) (sym e) (improve-Improves head l n s fresh better)
]

pub relax_all-same_visits :
    (net : Net)
    → (head : ℕ) → (links : List ℕ) → (s : Search) → (v : ℕ)
    → is_visited (relax_all net head s links) v ≡ is_visited s v
unfolding relax_all
relax_all-same_visits net head [] s v = refl
relax_all-same_visits net head (l ∷ links) s v =
    relax_all-same_visits net head links (relax net head s l) v
    ∙ (relax-Improves net head l s).same_visits v

module _ (net : Net) (first : Search) (src : ℕ) (Reaches : ℕ → List ℕ → ℕ → Type 0)
    (extends : Extends net first src Reaches) (head : ℕ) where
  Closed-Improves :
      (s t : Search)
      → Improves s t
      → (v : ℕ) → is_visited s v ≡ true
      → Closed net first src Reaches s v
      → Closed net first src Reaches t v
  unfolding Closed
  Closed-Improves s t better v h closed l w e ne =
      omega (arith, closed l w e ne, better.cheaper w, better.fixed v h)

  module _ (l n : ℕ) (s : Search) (leads : Leads net first head l n)
      (ready : IsReady net first src Reaches head s) (fresh : is_visited s n ≡ false)
      (better : cost s head + (s.link l).link_cost < cost s n) where
    abbrev improved : Search
    improved = improve head l n s

    improve-IsSound : IsSound net first src Reaches improved
    unfolding improve open_end Closed
    improve-IsSound = record {
      ends = λ k. ground (arith, ends k);
      prices = prices;
      le_inf = λ v. ground (arith, le_inf v);
      near =
          λ k v e. omega (arith, near k v e, (improve-Improves head l n s fresh better).cheaper v);
      attained = λ v h. elim (Bool-cases (v == n)) [
        | inl same ↦
            Reaches-same net first src Reaches n v ((s.node head).path ++ l ∷ [])
              (improved.node v).path (cost s head + price net first l) (cost improved v)
              (ground (arith, same)) (ground (arith, same)) (ground (arith, same, prices l))
              (extends head n (cost s head) (s.node head).path
                (attained head (omega (arith, better, le_inf n))) l leads)
        | inr other ↦
            Reaches-same net first src Reaches v v (s.node v).path (improved.node v).path (cost s v)
              (cost improved v) refl (ground (arith, other)) (ground (arith, other))
              (attained v (ground (arith, other, h)))
      ];
      waiting = λ v h h'. ground (arith, h, h', waiting v, is_listed-append v n s.reachable);
      ordered = λ w u hw ne hu. elim front [
        | inl closed ↦ absurd (
            ground
              (arith, closed l n leads (λ same. ground (arith, same, fresh, begins)), prices l))
        | inr at_front ↦ ground (arith, hw, hu, ordered w u, ne, at_front w, fresh)
      ];
      begins = ground (arith, begins);
    }
      where
        open ready use {sound, front}
        open sound use {ends, prices, le_inf, near, attained, waiting, ordered, begins}

    improve-IsReady : IsReady net first src Reaches head improved
    improve-IsReady = record {
      sound = improve-IsSound;
      visited_head = gain.same_visits head ∙ ready.visited_head;
      others = λ v hv ne.
          let before = sym (gain.same_visits v) ∙ hv in
          Closed-Improves s improved gain v before (ready.others v before ne);
      front = elim ready.front [
        | inl closed ↦ inl (Closed-Improves s improved gain head ready.visited_head closed)
        | inr at_front ↦ inr (λ w hw ne.
            let before = sym (gain.same_visits w) ∙ hw in
            omega (arith, at_front w before ne, gain.cheaper w, gain.fixed head ready.visited_head))
      ];
    }
      where
        gain : Improves s improved
        gain = improve-Improves head l n s fresh better

  -- After a link is relaxed it makes nothing nearer.
  abbrev Relaxed : ℕ → Search → Type 0
  Relaxed l s =
      (w : ℕ) → open_end net first l ≡ some w → w ≢ src → cost s w ≤ cost s head + price net first l

  Relaxed-Improves :
      (l : ℕ) → (s t : Search) → Improves s t → is_visited s head ≡ true → Relaxed l s → Relaxed l t
  Relaxed-Improves l s t better h done w e ne =
      omega (arith, done w e ne, better.cheaper w, better.fixed head h)

  abbrev After : Search → Search → Type 0
  After s t = IsReady net first src Reaches head t × Improves s t

  improve-Relaxed :
      (l n : ℕ)
      → (s : Search) → open_end net first l ≡ some n
      → IsReady net first src Reaches head s
      → is_visited s n ≡ false
      → cost s head + (s.link l).link_cost < cost s n
      → Relaxed l (improve head l n s)
  unfolding improve
  improve-Relaxed l n s e ready fresh better w e' ne =
      ground (arith, e, e', fresh, ready.visited_head, ready.sound.prices l)

  relax_kept :
      (l : ℕ)
      → is_listed l (net.local_links head) ≡ true
      → (s : Search) → IsReady net first src Reaches head s
      → ((n : ℕ)
          → open_end net s l ≡ some n
          → is_visited s n ≡ false
          → cost s n ≤ cost s head + (s.link l).link_cost)
      → Relaxed l s
  unfolding Closed
  relax_kept l starts s ready idle w e ne =
      let price_l = ready.sound.prices l in
      elim (Bool-cases (is_visited s w)) [
        | inl old ↦ elim ready.front [
          | inl closed ↦ closed l w (starts, e) ne
          | inr at_front ↦ omega (arith, at_front w old ne)
        ]
        | inr new ↦ omega (arith, idle w (ready.sound.ends l ∙ e) new, price_l)
      ]

  relax_step :
      (l : ℕ)
      → is_listed l (net.local_links head) ≡ true
      → (s : Search) → IsReady net first src Reaches head s
      → After s (relax net head s l) × Relaxed l (relax net head s l)
  relax_step l starts s ready = elim (relax_cases net head l s) [
    | inl (e, idle) ↦
        subst (λ t. After s t × Relaxed l t) (sym e)
          ((ready, same_search s), relax_kept l starts s ready idle)
    | inr (n, e, fresh, better, is) ↦
        let leads : Leads net first head l n = (starts, sym (ready.sound.ends l) ∙ e) in
        subst (λ t. After s t × Relaxed l t) (sym is)
          (
            (
              improve-IsReady l n s leads ready fresh better,
              improve-Improves head l n s fresh better,
            ),
            improve-Relaxed l n s leads.1 ready fresh better,
          )
  ]

  relax_all_kept :
      (links : List ℕ)
      → ((l : ℕ) → is_listed l links ≡ true → is_listed l (net.local_links head) ≡ true)
      → (s : Search) → IsReady net first src Reaches head s
      → After s (relax_all net head s links)
        × ((l : ℕ) → is_listed l links ≡ true → Relaxed l (relax_all net head s links))
  unfolding relax_all is_listed
  relax_all_kept [] starts s ready = ((ready, same_search s), λ l h. absurd (ground (arith, h)))
  relax_all_kept (l ∷ links) starts s ready =
      let s' = relax net head s l in
      let ((ready', better), done) = relax_step l (starts l (ground arith)) s ready in
      let ((ready'', better'), rest) =
        relax_all_kept links (λ k h. starts k (ground (arith, h))) s' ready' in
      (
        (ready'', Improves-trans better better'),
        λ k h. elim (Bool-cases (l == k)) [
          | inl same ↦
              let e : l ≡ k = ground (arith, same) in
              subst (λ j. Relaxed j (relax_all net head s' links)) e
                (Relaxed-Improves l s' (relax_all net head s' links) better' ready'.visited_head
                  done)
          | inr other ↦ rest k (ground (arith, h, other))
        ],
      )

  -- After the round every visited node has been the head.
  pub relax_all-IsSettled :
      (s : Search)
      → IsReady net first src Reaches head s
      → IsSettled net first src Reaches (relax_all net head s (net.local_links head))
  unfolding Closed
  relax_all-IsSettled s ready =
      let ((ready', better), done) = relax_all_kept (net.local_links head) (λ l h. h) s ready in
      record {
        sound = ready'.sound;
        closed = λ v hv. elim (Bool-cases (v == head)) [
          | inl same ↦
              let is : head ≡ v = ground (arith, same) in
              subst (Closed net first src Reaches (relax_all net head s (net.local_links head))) is
                (λ l w (starts, e) ne. done l starts w e ne)
          | inr other ↦ ready'.others v hv (ground (arith, other))
        ];
      }
