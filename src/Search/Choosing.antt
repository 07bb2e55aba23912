-- ===== src/Search/Choosing.antt =====
-- The choice of the next head in `TEWG::ComputeDijkstraPath` of src/tedbManager/tewg.cc.
use mxtce_geni_scs.Base.{ℕ, ◌≤◌, ◌≡◌, ◌≢◌, refl, true, false, List, arith, Bool-cases, inl, inr}
use mxtce_geni_scs.Search.{Net, Search, cost, is_visited, open_end, is_listed, visit, take_node}
use mxtce_geni_scs.Search.Ends.{is_listed-erase_node}
use mxtce_geni_scs.Search.Walks.{Reaches-same, IsSound, IsSettled, IsReady, Closed}

pub take_node-unvisited :
    (head n : ℕ)
    → (s : Search) → head ≢ n
    → is_visited s n ≡ false
    → is_visited (take_node head s) n ≡ false
unfolding take_node visit
take_node-unvisited head n s ne h = ground (arith, h, ne)

module _ (net : Net) (first : Search) (src : ℕ) (Reaches : ℕ → List ℕ → ℕ → Type 0) (s : Search)
    (head : ℕ) (there : is_listed head s.reachable ≡ true)
    (least : (n : ℕ) → is_listed n s.reachable ≡ true → cost s head ≤ cost s n)
    (settled : IsSettled net first src Reaches s) where
  take_node-IsSound : IsSound net first src Reaches (take_node head s)
  unfolding take_node visit open_end
  take_node-IsSound = record {
    ends = λ l. ground (arith, ends l);
    prices = prices;
    le_inf = λ v. ground (arith, le_inf v);
    near = λ l v e. ground (arith, near l v e);
    attained = λ v h.
        Reaches-same net first src Reaches v v (s.node v).path ((take_node head s).node v).path
          (cost s v) (cost (take_node head s) v) refl (ground arith) (ground arith)
          (attained v (ground (arith, h)));
    waiting = λ v h h'.
        rw (is_listed-erase_node head v (λ same. ground (arith, h, same)) s.reachable)
          (waiting v (ground (arith, h)) (ground (arith, h')));
    ordered = λ w u hw ne hu.
        ground (arith, hw, hu, ne, ordered w u, least u, waiting u, le_inf head, le_inf u);
    begins = ground (arith, begins);
  }
    where
      open settled use {sound}
      open sound use {ends, prices, le_inf, near, attained, waiting, ordered, begins}

  -- The nearest node, visited and off the list, is ready to be the head.
  pub take_node-IsReady : IsReady net first src Reaches head (take_node head s)
  unfolding take_node visit Closed
  take_node-IsReady = record {
    sound = take_node-IsSound;
    visited_head = ground arith;
    others =
        λ v hv ne l w e off. ground (arith, settled.closed v (ground (arith, hv, ne)) l w e off);
    front = elim (Bool-cases (is_visited s head)) [
      | inl before ↦ inl (λ l w e off. ground (arith, settled.closed head before l w e off))
      | inr now ↦ inr (λ w hw off. ground (arith, hw, now, settled.sound.ordered w head))
    ];
  }
