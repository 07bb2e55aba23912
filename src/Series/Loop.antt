-- ===== src/Series/Loop.antt =====
-- The loop of `AggregateDeltaSeries::AddDelta` (src/compute/scheduling.cc) over the deltas in contact.
use mxtce_geni_scs.Base.{
  ℕ, ◌+◌, ◌^◌, ◌<◌, ◌≡◌, ◌∙◌, true, some, List, [], ◌∷◌, arith, lt-or-le, inl, inr, All,
}
use mxtce_geni_scs.Delta.{Delta, get_start_time, get_end_time, combine}
use mxtce_geni_scs.Series.{Series, find_entry, insert, merge_contacts}
use mxtce_geni_scs.Series.Entries.{total, total-insert_entry}
use mxtce_geni_scs.Series.Pieces.{IsWindow, load, has_no_vlans, start-le-end}
use mxtce_geni_scs.Series.Adding.{
  Meets, Fresh, Kept, insert-Kept, ◌Kept-then◌, align_starts-Aligned,
}
use mxtce_geni_scs.Series.Merging.{merge_round-done, merge_round-GoesOn}

-- A delta of the series that what is left of the added one, from `lo` to `hi`, overlaps.
pub record Contact (hi bandwidth : ℕ) (s : Series) (lo h end : ℕ) : Type 0 where
  pub there : Delta
  pub at : find_entry h s.entries ≡ some there
  pub in_use : h < s.next
  pub IsWindow_there : IsWindow there
  pub begins : get_start_time there < hi
  pub ends : lo < get_end_time there
  pub lasts : lo < hi
  pub stops : get_end_time there ≡ end
  pub nonempty : get_start_time there < get_end_time there
  pub fits : there.bandwidth + bandwidth < 2 ^ 64
  pub plain : has_no_vlans there.kind ≡ true

-- The contacts in order, each from where the last one ends.
pub data Chain (hi bandwidth : ℕ) (s : Series) : ℕ → List ℕ → Type 0 where
  no_more : {lo : ℕ} → Chain hi bandwidth s lo []
  contact :
      {lo h end : ℕ}
      → {handles : List ℕ} → Contact hi bandwidth s lo h end
      → All (λ k. ¬ (k ≡ h)) handles
      → Chain hi bandwidth s end handles
      → Chain hi bandwidth s lo (h ∷ handles)

Contact-Kept :
    {hi bandwidth lo h k end : ℕ}
    → {s s' : Series} → Kept h s s'
    → ¬ (k ≡ h)
    → Contact hi bandwidth s lo k end
    → Contact hi bandwidth s' lo k end
Contact-Kept kept apart c = record {
  there = c.there;
  at = kept.same _ c.in_use apart ∙ c.at;
  in_use = omega (arith, c.in_use, kept.grows);
  IsWindow_there = c.IsWindow_there;
  begins = c.begins;
  ends = c.ends;
  lasts = c.lasts;
  stops = c.stops;
  nonempty = c.nonempty;
  fits = c.fits;
  plain = c.plain;
}

Chain-Kept :
    {hi bandwidth h : ℕ}
    → {s s' : Series} → {lo : ℕ} → {handles : List ℕ} → Kept h s s'
    → Chain hi bandwidth s lo handles
    → All (λ k. ¬ (k ≡ h)) handles
    → Chain hi bandwidth s' lo handles
Chain-Kept kept no_more aparts = no_more
Chain-Kept kept (contact c others chain) aparts =
    contact (Contact-Kept kept aparts.0 c) others (Chain-Kept kept chain aparts.1)

-- What the loop does to the load.
unfoldable pub Adds : Delta → Series → Series → Type 0
Adds delta s s' = (t : ℕ) → total s'.entries t ≡ total s.entries t + load delta t

pub insert-Adds : (delta : Delta) → (s : Series) → Adds delta s (insert delta s)
unfolding Adds insert
insert-Adds delta s t = omega (arith, total-insert_entry s.next delta s.entries t)

load_empty : (d : Delta) → get_start_time d ≡ get_end_time d → (t : ℕ) → load d t ≡ 0
load_empty d empty t = ground arith

pub merge_contacts-Adds :
    (now hi bandwidth : ℕ)
    → (handles : List ℕ) → (delta : Delta) → (s : Series) → IsWindow delta
    → Fresh s
    → get_end_time delta ≡ hi
    → delta.bandwidth ≡ bandwidth
    → Chain hi bandwidth s (get_start_time delta) handles
    → (s' : Series) × (merge_contacts now combine handles delta s ≡ some s')
      × Fresh s'
      × Adds delta s s'
unfolding merge_contacts Adds
merge_contacts-Adds now hi bandwidth [] delta s w fresh e b no_more =
    elim (lt-or-le (get_start_time delta) (get_end_time delta)) [
      | inl before ↦ (
        insert delta s,
        ground (arith, start-le-end delta w),
        (insert-Kept 0 delta s fresh).Fresh_after,
        insert-Adds delta s,
      )
      | inr after ↦
          let empty : get_start_time delta ≡ get_end_time delta =
            omega (arith, start-le-end delta w) in
          (s, ground (arith, empty), fresh, λ t. omega (arith, load_empty delta empty t))
    ]
merge_contacts-Adds now hi bandwidth (h ∷ handles) delta s w fresh e b (contact c others chain) =
    let m : Meets h delta s = record {
      there = c.there;
      at = c.at;
      in_use = c.in_use;
      IsWindow_there = c.IsWindow_there;
      begins = omega (arith, c.begins);
      ends = c.ends;
      nonempty = c.nonempty;
      fits = omega (arith, c.fits);
      plain = c.plain;
    } in
    let (r, aligned, a) = align_starts-Aligned now h delta s w (omega (arith, c.lasts)) fresh m in
    let kept = a.Kept_so_far in
    elim (lt-or-le (get_end_time r.added) (get_end_time a.meeting.there)) [
      | inl before ↦
          let (s', merged, kept', sum) =
            merge_round-done now r a.IsWindow_added kept.Fresh_after a.meeting a.level before in
          (
            s',
            ground (arith, aligned, merged),
            kept'.Fresh_after,
            λ t. omega (arith, sum t, a.sum t),
          )
      | inr after ↦
          let (delta', s', merged, g) =
            merge_round-GoesOn now r a.IsWindow_added kept.Fresh_after a.meeting a.level after in
          let kept' = ◌Kept-then◌ kept a.apart g.Kept_after in
          let start = g.start_left ∙ a.end_there ∙ c.stops in
          let (s'', rest, fresh'', sum) =
            merge_contacts-Adds now hi bandwidth handles delta' s' g.IsWindow_left kept'.Fresh_after
              (g.end_left ∙ a.end_added ∙ e) (g.same_bandwidth ∙ a.same_bandwidth ∙ b)
              (rw start (Chain-Kept kept' chain others)) in
          (
            s'',
            ground (arith, aligned, merged, rest),
            fresh'',
            λ t. omega (arith, sum t, g.sum t, a.sum t),
          )
    ]
