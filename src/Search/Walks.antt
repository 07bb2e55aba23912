-- ===== src/Search/Walks.antt =====
-- What `TEWG::ComputeDijkstraPath` of src/tedbManager/tewg.cc keeps true: the costs found so far and the walks of
-- the graph. A walk goes over links that no filter takes off.
use mxtce_geni_scs.Base.{ℕ, ◌+◌, ◌≤◌, ◌<◌, ◌≡◌, ◌≢◌, ◌⊎◌, true, false, some, List, [], ◌∷◌, ◌++◌}
use mathlib.Core.Path.{subst}
use mxtce_geni_scs.Search.{Net, Search, inf, cost, is_visited, open_end, is_listed}

module _ (net : Net) (first : Search) where
  abbrev pub price : ℕ → ℕ
  price l = (first.link l).link_cost

  -- A link `l` that starts at `u` and leads to `v`.
  abbrev pub Leads : ℕ → ℕ → ℕ → Type 0
  Leads u l v = (is_listed l (net.local_links u) ≡ true) × (open_end net first l ≡ some v)

-- The walks of at least one link from the source, with their links and their cost.
pub data Walk (net : Net) (first : Search) (src : ℕ) : ℕ → List ℕ → ℕ → Type 0 where
  one :
      {v : ℕ}
      → (l : ℕ) → Leads net first src l v
      → Walk net first src v (l ∷ []) (price net first l)
  more :
      {u v c : ℕ} {path : List ℕ}
      → Walk net first src u path c
      → (l : ℕ) → Leads net first u l v
      → Walk net first src v (path ++ l ∷ []) (c + price net first l)

-- `Reaches v path c` is what is said of the path and the cost that a node has.
module _ (net : Net) (first : Search) (src : ℕ) (Reaches : ℕ → List ℕ → ℕ → Type 0) where
  abbrev pub Extends : Type 0
  Extends =
      (u v c : ℕ)
      → (path : List ℕ) → Reaches u path c
      → (l : ℕ) → Leads net first u l v
      → Reaches v (path ++ l ∷ []) (c + price net first l)

  pub Reaches-same :
      (v v' : ℕ)
      → (path path' : List ℕ) → (c c' : ℕ) → v ≡ v'
      → path ≡ path'
      → c ≡ c'
      → Reaches v path c
      → Reaches v' path' c'
  Reaches-same v v' path path' c c' same_node same_path same_cost h =
      subst (λ u. Reaches u path' c') same_node
        (subst (λ p. Reaches v p c') same_path (subst (λ k. Reaches v path k) same_cost h))

  -- No link that starts at a node makes another one nearer.
  unfoldable pub Closed : Search → ℕ → Type 0
  Closed s v = (l w : ℕ) → Leads net first v l w → w ≢ src → cost s w ≤ cost s v + price net first l

  pub record IsSound (s : Search) : Type 0 where
    pub ends : (l : ℕ) → open_end net s l ≡ open_end net first l
    pub prices : (l : ℕ) → (s.link l).link_cost ≡ price net first l
    pub le_inf : (v : ℕ) → cost s v ≤ inf
    pub near : (l v : ℕ) → Leads net first src l v → cost s v ≤ price net first l
    pub attained : (v : ℕ) → cost s v < inf → Reaches v (s.node v).path (cost s v)
    pub waiting : (v : ℕ) → is_visited s v ≡ false → cost s v < inf → is_listed v s.reachable ≡ true
    pub ordered :
        (w u : ℕ) → is_visited s w ≡ true → w ≢ src → is_visited s u ≡ false → cost s w ≤ cost s u
    pub begins : is_visited s src ≡ true

  -- Between two rounds every visited node has been the head.
  pub record IsSettled (s : Search) : Type 0 where
    pub sound : IsSound s
    pub closed : (v : ℕ) → is_visited s v ≡ true → Closed s v

  -- In a round the head may still have links to relax.
  pub record IsReady (head : ℕ) (s : Search) : Type 0 where
    pub sound : IsSound s
    pub visited_head : is_visited s head ≡ true
    pub others : (v : ℕ) → is_visited s v ≡ true → v ≢ head → Closed s v
    pub front : Closed s head ⊎ ((w : ℕ) → is_visited s w ≡ true → w ≢ src → cost s w ≤ cost s head)
