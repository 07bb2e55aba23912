-- ===== src/Series/Adding.antt =====
-- One round of the loop of `AggregateDeltaSeries::AddDelta` (src/compute/scheduling.cc) on a delta it touches.
use mxtce_geni_scs.Base.{
  ℕ, ◌+◌, ◌^◌, ◌≤◌, ◌<◌, ◌≡◌, refl, sym, ◌∙◌, true, none, some, arith, lt-or-le, inl, inr,
}
use mxtce_geni_scs.Delta.{Delta, get_start_time, get_end_time}
use mxtce_geni_scs.Series.{Series, find_entry, insert, put_entry, Round, align_starts}
use mxtce_geni_scs.Series.Entries.{
  total, find-insert_entry, find-insert_other, find-update_other, total-insert_entry,
  total-update_entry,
}
use mxtce_geni_scs.Series.Pieces.{IsWindow, load, has_no_vlans, Cut-tail, Cut-head}

-- No handle from `next` on is in use.
abbrev pub Fresh : Series → Type 0
Fresh s = (k : ℕ) → s.next ≤ k → find_entry k s.entries ≡ none

-- A change of a series that leaves every handle that was in use alone, but for `h`.
pub record Kept (h : ℕ) (s s' : Series) : Type 0 where
  pub grows : s.next ≤ s'.next
  pub Fresh_after : Fresh s'
  pub same : (k : ℕ) → k < s.next → ¬ (k ≡ h) → find_entry k s'.entries ≡ find_entry k s.entries

pub insert-Kept : (h : ℕ) → (d : Delta) → (s : Series) → Fresh s → Kept h s (insert d s)
unfolding insert
insert-Kept h d s fresh = record {
  grows = omega arith;
  Fresh_after =
      λ k above. find-insert_other s.next d s.entries k (omega arith) ∙ fresh k (omega arith);
  same = λ k below other. find-insert_other s.next d s.entries k (omega arith);
}

pub put-Kept :
    (h : ℕ) → (d : Delta) → (s : Series) → Fresh s → h < s.next → Kept h s (put_entry h d s)
put-Kept h d s fresh below = record {
  grows = omega arith;
  Fresh_after = λ k above. find-update_other h d s.entries k (omega arith) ∙ fresh k above;
  same = λ k below' other. find-update_other h d s.entries k other;
}

pub ◌Kept-then◌ :
    {h g : ℕ}
    → {r s t : Series} → Kept h r s
    → ((k : ℕ) → k < r.next → ¬ (k ≡ h) → ¬ (k ≡ g))
    → Kept g s t
    → Kept h r t
◌Kept-then◌ first other second = record {
  grows = omega (arith, first.grows, second.grows);
  Fresh_after = second.Fresh_after;
  same = λ k below apart.
      second.same k (omega (arith, first.grows)) (other k below apart) ∙ first.same k below apart;
}

-- A delta of the series that overlaps the added one and can be merged with it.
pub record Meets (h : ℕ) (delta : Delta) (s : Series) : Type 0 where
  pub there : Delta
  pub at : find_entry h s.entries ≡ some there
  pub in_use : h < s.next
  pub IsWindow_there : IsWindow there
  pub begins : get_start_time there < get_end_time delta
  pub ends : get_start_time delta < get_end_time there
  pub nonempty : get_start_time there < get_end_time there
  pub fits : there.bandwidth + delta.bandwidth < 2 ^ 64
  pub plain : has_no_vlans there.kind ≡ true

-- What the first part of a round leaves.
pub record Aligned (h : ℕ) (delta : Delta) (s : Series) (end : ℕ) (r : Round) : Type 0 where
  pub meeting : Meets r.handle r.added r.series
  pub level : get_start_time meeting.there ≡ get_start_time r.added
  pub end_there : get_end_time meeting.there ≡ end
  pub end_added : get_end_time r.added ≡ get_end_time delta
  pub start_added : get_start_time delta ≤ get_start_time r.added
  pub IsWindow_added : IsWindow r.added
  pub same_bandwidth : r.added.bandwidth ≡ delta.bandwidth
  pub Kept_so_far : Kept h s r.series
  pub apart : (k : ℕ) → k < s.next → ¬ (k ≡ h) → ¬ (k ≡ r.handle)
  pub sum : (t : ℕ) → total r.series.entries t + load r.added t ≡ total s.entries t + load delta t

module _ (now h : ℕ) (delta : Delta) (s : Series) (w : IsWindow delta)
    (lasts : get_start_time delta < get_end_time delta) (fresh : Fresh s)
    (m : Meets h delta s) where
  -- The delta in the list starts first: its head stays, and its tail is a new one.
  align-cut_there :
      get_start_time m.there < get_start_time delta
      → (r : Round) × (align_starts now h delta s ≡ some r)
        × Aligned h delta s (get_end_time m.there) r
  unfolding align_starts insert
  align-cut_there before =
      let c =
        Cut-tail m.there m.IsWindow_there now (get_start_time delta) m.nonempty (omega arith)
          (omega (arith, m.ends)) in
      let put = put_entry h c.left s in
      let kept = put-Kept h c.left s fresh m.in_use in
      let missing = kept.Fresh_after s.next (omega arith) in
      let final = insert-Kept h c.right put kept.Fresh_after in
      (
        record { handle = s.next; added = delta; series = insert c.right put },
        ground (arith, m.at, c.cloned, c.cut_left, c.cut_right),
        record {
          meeting = record {
            there = c.right;
            at = find-insert_entry s.next c.right put.entries missing;
            in_use = omega arith;
            IsWindow_there = c.tail.IsWindow_moved;
            begins = omega (arith, c.tail.starts);
            ends = omega (arith, c.tail.ends, m.ends);
            nonempty = omega (arith, c.tail.starts, c.tail.ends, m.ends);
            fits = omega (arith, c.tail.same_bandwidth, m.fits);
            plain = rw c.tail.same_kind m.plain;
          };
          level = c.tail.starts;
          end_there = c.tail.ends;
          end_added = refl;
          start_added = omega arith;
          IsWindow_added = w;
          same_bandwidth = refl;
          Kept_so_far = ◌Kept-then◌ kept (λ k below other. other) final;
          apart = λ k below other. omega arith;
          sum = λ t. omega (
            arith,
            total-insert_entry s.next c.right put.entries t,
            total-update_entry h c.left s.entries m.there t m.at,
            c.split t,
          );
        },
      )

  -- The added one starts first: its head goes into the list on its own.
  align-cut_added :
      get_start_time delta < get_start_time m.there
      → (r : Round) × (align_starts now h delta s ≡ some r)
        × Aligned h delta s (get_end_time m.there) r
  unfolding align_starts insert
  align-cut_added before =
      let c =
        Cut-head delta w now (get_start_time m.there) lasts (omega arith)
          (omega (arith, m.begins)) in
      let kept = insert-Kept h c.left s fresh in
      (
        record { handle = h; added = c.right; series = insert c.left s },
        ground (arith, m.at, c.cloned, c.cut_left, c.cut_right),
        record {
          meeting = record {
            there = m.there;
            at = find-insert_other s.next c.left s.entries h (omega (arith, m.in_use)) ∙ m.at;
            in_use = omega (arith, m.in_use);
            IsWindow_there = m.IsWindow_there;
            begins = omega (arith, c.tail.ends, m.begins);
            ends = omega (arith, c.tail.starts, m.nonempty);
            nonempty = m.nonempty;
            fits = omega (arith, c.tail.same_bandwidth, m.fits);
            plain = m.plain;
          };
          level = sym c.tail.starts;
          end_there = refl;
          end_added = c.tail.ends;
          start_added = omega (arith, c.tail.starts);
          IsWindow_added = c.tail.IsWindow_moved;
          same_bandwidth = c.tail.same_bandwidth;
          Kept_so_far = kept;
          apart = λ k below other. other;
          sum = λ t. omega (arith, total-insert_entry s.next c.left s.entries t, c.split t);
        },
      )

  align-same :
      get_start_time m.there ≡ get_start_time delta
      → (r : Round) × (align_starts now h delta s ≡ some r)
        × Aligned h delta s (get_end_time m.there) r
  unfolding align_starts
  align-same level = (
    record { handle = h; added = delta; series = s },
    ground (arith, m.at),
    record {
      meeting = m;
      level = level;
      end_there = refl;
      end_added = refl;
      start_added = omega arith;
      IsWindow_added = w;
      same_bandwidth = refl;
      Kept_so_far = record {
        grows = omega arith;
        Fresh_after = fresh;
        same = λ k below other. refl;
      };
      apart = λ k below other. other;
      sum = λ t. refl;
    },
  )

  pub align_starts-Aligned :
      (r : Round) × (align_starts now h delta s ≡ some r)
      × Aligned h delta s (get_end_time m.there) r
  align_starts-Aligned = elim (lt-or-le (get_start_time m.there) (get_start_time delta)) [
    | inl before ↦ align-cut_there before
    | inr after ↦ elim (lt-or-le (get_start_time delta) (get_start_time m.there)) [
      | inl before ↦ align-cut_added before
      | inr after' ↦ align-same (omega arith)
    ]
  ]
