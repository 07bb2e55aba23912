-- ===== src/Series/Merging.antt =====
-- The second half of a round of the loop of `AggregateDeltaSeries::AddDelta` (src/compute/scheduling.cc).
use mxtce_geni_scs.Base.{
  ℕ, ◌+◌, ◌%◌, ◌^◌, ◌≤◌, ◌<◌, ◌≡◌, refl, ◌∙◌, true, false, Option, some, arith,
}
use mxtce_geni_scs.Delta.{
  Delta, Kind, plain_link, psc_link, l2sc_link, tdm_link, lsc_link, get_start_time, get_end_time,
  combine, combine_labels,
}
use mxtce_geni_scs.TagSet.{TagSet, join}
use mxtce_geni_scs.Series.{Series, insert, put_entry, Round, merge_round}
use mxtce_geni_scs.Series.Entries.{total, total-insert_entry, total-update_entry}
use mxtce_geni_scs.Series.Pieces.{IsWindow, load, has_no_vlans, Cut-tail, set_start_time-Moved}
use mxtce_geni_scs.Series.Adding.{Meets, Fresh, Kept, insert-Kept, put-Kept, ◌Kept-then◌}

-- Two deltas of a class without VLAN tags come together as their bandwidths do.
pub record Merged (d e f : Delta) : Type 0 where
  pub combined : combine d e ≡ some f
  pub sum : f.bandwidth ≡ d.bandwidth + e.bandwidth
  pub same_start : get_start_time f ≡ get_start_time d
  pub same_end : get_end_time f ≡ get_end_time d

combine_labels-plain :
    (f : TagSet → TagSet → Option TagSet)
    → (kind other : Kind) → has_no_vlans kind ≡ true
    → combine_labels f kind other ≡ some kind
unfolding combine_labels
combine_labels-plain f plain_link other plain = refl
combine_labels-plain f psc_link other plain = refl
combine_labels-plain f (l2sc_link taken) other plain = ground arith
combine_labels-plain f (tdm_link taken) other plain = refl
combine_labels-plain f (lsc_link taken) other plain = refl

combine-Merged :
    (d e : Delta)
    → has_no_vlans d.kind ≡ true
    → d.bandwidth + e.bandwidth < 2 ^ 64
    → (f : Delta) × Merged d e f
unfolding combine get_start_time get_end_time
combine-Merged d e plain fits = (
  record d { bandwidth = (d.bandwidth + e.bandwidth) % 2 ^ 64; kind = d.kind },
  record {
    combined = rw (combine_labels-plain join d.kind e.kind plain);
    sum = omega arith;
    same_start = refl;
    same_end = refl;
  },
)

-- The sum of the loads, when the two deltas have the same times.
load-Merged :
    {d e f : Delta}
    → Merged d e f
    → get_start_time d ≡ get_start_time e
    → get_end_time d ≡ get_end_time e
    → (t : ℕ) → load f t ≡ load d t + load e t
load-Merged m level level' t = ground (arith, m.sum, m.same_start, m.same_end)

-- What a round leaves, when the added delta is not used up.
pub record GoesOn (h : ℕ) (delta : Delta) (s : Series) (end : ℕ) (delta' : Delta) (s' : Series)
    : Type 0 where
  pub IsWindow_left : IsWindow delta'
  pub start_left : get_start_time delta' ≡ end
  pub end_left : get_end_time delta' ≡ get_end_time delta
  pub same_bandwidth : delta'.bandwidth ≡ delta.bandwidth
  pub Kept_after : Kept h s s'
  pub sum : (t : ℕ) → total s'.entries t + load delta' t ≡ total s.entries t + load delta t

module _ (now : ℕ) (r : Round) (w : IsWindow r.added) (fresh : Fresh r.series)
    (m : Meets r.handle r.added r.series)
    (level : get_start_time m.there ≡ get_start_time r.added) where
  -- The delta in the list ends later: its tail is a new delta, and the loop is over.
  pub merge_round-done :
      get_end_time r.added < get_end_time m.there
      → (s' : Series) × (merge_round now combine r ≡ some (true, r.added, s'))
        × Kept r.handle r.series s'
        × ((t : ℕ) → total s'.entries t ≡ total r.series.entries t + load r.added t)
  unfolding merge_round insert
  merge_round-done before =
      let c =
        Cut-tail m.there m.IsWindow_there now (get_end_time r.added) m.nonempty
          (omega (arith, m.begins)) (omega arith) in
      let (merged, g) =
        combine-Merged c.left r.added (rw c.head.same_kind m.plain)
          (omega (arith, c.head.same_bandwidth, m.fits)) in
      let put = put_entry r.handle merged r.series in
      let kept = put-Kept r.handle merged r.series fresh m.in_use in
      (
        insert c.right put,
        ground (arith, m.at, c.cloned, c.cut_left, c.cut_right, g.combined),
        ◌Kept-then◌ kept (λ k below other. other)
            (insert-Kept r.handle c.right put kept.Fresh_after),
        λ t.
            let both = load-Merged g (c.head.starts ∙ level) c.head.ends t in
            omega (
              arith,
              both,
              total-insert_entry r.series.next c.right put.entries t,
              total-update_entry r.handle merged r.series.entries m.there t m.at,
              c.split t,
            ),
      )

  -- The loads while the added delta still has its old start, although the merge comes after the cut.
  pub merge_round-GoesOn :
      get_end_time m.there ≤ get_end_time r.added
      → (delta' : Delta) × (s' : Series) × (merge_round now combine r ≡ some (false, delta', s'))
        × GoesOn r.handle r.added r.series (get_end_time m.there) delta' s'
  unfolding merge_round
  merge_round-GoesOn before =
      let (delta', cut, b) =
        set_start_time-Moved r.added w (get_end_time m.there) (omega (arith, m.ends)) before in
      let (merged, g) =
        combine-Merged m.there delta' m.plain (omega (arith, b.same_bandwidth, m.fits)) in
      (
        delta',
        put_entry r.handle merged r.series,
        ground (arith, m.at, cut, g.combined),
        record {
          IsWindow_left = b.IsWindow_moved;
          start_left = b.starts;
          end_left = b.ends;
          same_bandwidth = b.same_bandwidth;
          Kept_after = put-Kept r.handle merged r.series fresh m.in_use;
          sum = λ t.
              let changed = total-update_entry r.handle merged r.series.entries m.there t m.at in
              ground (
                arith, changed, g.sum, g.same_start, g.same_end, b.starts, b.ends, b.same_bandwidth,
                m.nonempty,
              );
        },
      )
