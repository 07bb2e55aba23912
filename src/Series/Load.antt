-- ===== src/Series/Load.antt =====
-- `AggregateDeltaSeries::AddDelta` (src/compute/scheduling.cc) on a series in order.
use mxtce_geni_scs.Base.{
  ℕ, ◌+◌, ◌^◌, ◌≤◌, ◌<◌, ◌≡◌, refl, ap, ◌∙◌, true, false, none, some, List, [], ◌∷◌, arith, ◌⊎◌,
  inl, inr, All, Bool-cases,
}
use mxtce_geni_scs.Delta.{Delta, get_start_time, get_end_time, combine}
use mxtce_geni_scs.Series.{
  Series, find_entry, insert, in_window, get_ads_in_window, add_delta, add_clone, push_back,
  meet_contacts,
}
use mxtce_geni_scs.Series.Entries.{total}
use mxtce_geni_scs.Series.Pieces.{IsWindow, load, has_no_vlans, Moved, clone-Moved}
use mxtce_geni_scs.Series.Adding.{Fresh}
use mxtce_geni_scs.Series.Loop.{
  Contact, Chain, no_more, contact, Adds, insert-Adds, merge_contacts-Adds,
}

-- No delta of the entries is of the class with VLAN tags.
unfoldable pub TakesNoVlans : List (ℕ × Delta) → Type 0
TakesNoVlans entries = All (λ e. has_no_vlans e.1.kind ≡ true) entries

-- The bandwidth of each delta and the one given stay below 2^64 together.
unfoldable pub HasRoom : ℕ → List (ℕ × Delta) → Type 0
HasRoom bandwidth entries = All (λ e. e.1.bandwidth + bandwidth < 2 ^ 64) entries

-- Deltas one after the other, each with a handle of its own and with a time that is not empty and shorter than 2^32.
pub data IsOrdered (next : ℕ) : ℕ → List (ℕ × Delta) → Type 0 where
  no_entries : {floor : ℕ} → IsOrdered next floor []
  entry :
      {floor h : ℕ}
      → {d : Delta} → {entries : List (ℕ × Delta)} → h < next
      → IsWindow d
      → floor ≤ get_start_time d
      → get_start_time d < get_end_time d
      → find_entry h entries ≡ none
      → IsOrdered next (get_end_time d) entries
      → IsOrdered next floor ((h, d) ∷ entries)

-- An ordered series that another `bandwidth` can be added to.
data Accepts (bandwidth next : ℕ) : ℕ → List (ℕ × Delta) → Type 0 where
  nothing_there : {floor : ℕ} → Accepts bandwidth next floor []
  delta_there :
      {floor h : ℕ}
      → {d : Delta} → {entries : List (ℕ × Delta)} → h < next
      → IsWindow d
      → floor ≤ get_start_time d
      → get_start_time d < get_end_time d
      → d.bandwidth + bandwidth < 2 ^ 64
      → has_no_vlans d.kind ≡ true
      → find_entry h entries ≡ none
      → Accepts bandwidth next (get_end_time d) entries
      → Accepts bandwidth next floor ((h, d) ∷ entries)

Accepts-Fresh :
    {bandwidth next floor : ℕ}
    → {entries : List (ℕ × Delta)} → Accepts bandwidth next floor entries
    → (k : ℕ) → next ≤ k
    → find_entry k entries ≡ none
unfolding find_entry
Accepts-Fresh nothing_there k above = refl
Accepts-Fresh (delta_there below w lo full fits plain unique ordered) k above =
    ground (arith, Accepts-Fresh ordered k above)

contacts-apart :
    (start end h : ℕ)
    → (entries : List (ℕ × Delta)) → find_entry h entries ≡ none
    → All (λ k. ¬ (k ≡ h)) (get_ads_in_window start end entries)
unfolding get_ads_in_window find_entry
contacts-apart start end h [] missing = tt
contacts-apart start end h ((k, d) ∷ entries) missing = elim (Bool-cases (in_window start end d)) [
  | inl meets ↦
      rw meets
        (ground (arith, missing), contacts-apart start end h entries (ground (arith, missing)))
  | inr misses ↦ rw misses (contacts-apart start end h entries (ground (arith, missing)))
]

find-first :
    (h : ℕ) → (d : Delta) → (entries : List (ℕ × Delta)) → find_entry h ((h, d) ∷ entries) ≡ some d
unfolding find_entry
find-first h d entries = ground arith

find-later :
    (h k : ℕ)
    → (d : Delta) → (entries : List (ℕ × Delta)) → (a : Delta) → find_entry h entries ≡ none
    → find_entry k entries ≡ some a
    → find_entry k ((h, d) ∷ entries) ≡ some a
unfolding find_entry
find-later h k d entries a missing found = ground (arith, missing, found)

in_window-overlaps :
    (start end : ℕ)
    → (d : Delta) → start < end
    → get_start_time d < get_end_time d
    → in_window start end d ≡ true
    → (get_start_time d < end) × (start < get_end_time d)
unfolding in_window
in_window-overlaps start end d lasts full meets = ground arith

module _ (start end bandwidth : ℕ) (s : Series) (lasts : start < end) where
  contacts-Chain :
      {floor : ℕ}
      → {entries : List (ℕ × Delta)} → Accepts bandwidth s.next floor entries
      → ((k : ℕ) → (a : Delta) → find_entry k entries ≡ some a → find_entry k s.entries ≡ some a)
      → (lo : ℕ) → (lo ≤ start) ⊎ (lo ≤ floor)
      → Chain end bandwidth s lo (get_ads_in_window start end entries)
  unfolding get_ads_in_window
  contacts-Chain nothing_there known lo reach = no_more
  contacts-Chain {entries = ((h, d) ∷ entries)}
        (delta_there below w o full fits plain unique ordered) known lo reach =
      let known' : (k : ℕ)
          → (a : Delta) → find_entry k entries ≡ some a
          → find_entry k s.entries ≡ some a =
        λ k a found. known k a (find-later h k d entries a unique found) in
      elim (Bool-cases (in_window start end d)) [
        | inl meets ↦
            let o' = in_window-overlaps start end d lasts full meets in
            let c : Contact end bandwidth s lo h (get_end_time d) = record {
              there = d;
              at = known h d (find-first h d entries);
              in_use = below;
              IsWindow_there = w;
              begins = o'.0;
              ends = elim reach [ inl r ↦ omega (arith, o'.1) | inr r ↦ omega arith ];
              lasts = elim reach [ inl r ↦ omega arith | inr r ↦ omega (arith, o'.0) ];
              stops = refl;
              nonempty = full;
              fits = fits;
              plain = plain;
            } in
            rw meets (
              contact c (contacts-apart start end h entries unique)
                (contacts-Chain ordered known' (get_end_time d) (inr (omega arith))))
        | inr misses ↦ rw misses (
            contacts-Chain ordered known' lo
              (elim reach [ inl r ↦ inl r | inr r ↦ inr (omega arith) ]))
      ]

meet_contacts-Adds :
    (now : ℕ)
    → (delta : Delta) → (s : Series) → (contacts : List ℕ) → IsWindow delta
    → Fresh s
    → Chain (get_end_time delta) delta.bandwidth s (get_start_time delta) contacts
    → (s' : Series) × (meet_contacts now combine delta s contacts ≡ some s') × Adds delta s s'
unfolding meet_contacts
meet_contacts-Adds now delta s [] w fresh chain = (insert delta s, refl, insert-Adds delta s)
meet_contacts-Adds now delta s (h ∷ contacts) w fresh chain =
    let (s', merged, fresh', adds) =
      merge_contacts-Adds now (get_end_time delta) delta.bandwidth (h ∷ contacts) delta s w fresh
        refl refl chain in
    (s', merged, adds)

add_clone-Adds :
    (now : ℕ)
    → (delta : Delta) → (next : ℕ) → (entries : List (ℕ × Delta)) → IsWindow delta
    → get_start_time delta < get_end_time delta
    → Accepts delta.bandwidth next 0 entries
    → (s' : Series) × (add_clone now combine delta (record { entries = entries; next = next })
        ≡ some s')
      × Adds delta (record { entries = entries; next = next }) s'
unfolding add_clone push_back Adds total
add_clone-Adds now delta next [] w lasts ordered = (_, refl, λ t. omega arith)
add_clone-Adds now delta next (e ∷ entries) w lasts ordered =
    let s : Series = record { entries = e ∷ entries; next = next } in
    let chain =
      contacts-Chain (get_start_time delta) (get_end_time delta) delta.bandwidth s lasts ordered
        (λ k a found. found) (get_start_time delta) (inl (omega arith)) in
    meet_contacts-Adds now delta s
      (get_ads_in_window (get_start_time delta) (get_end_time delta) (e ∷ entries)) w
      (Accepts-Fresh ordered) chain

load-Moved :
    {d d' : Delta} → Moved d d' (get_start_time d) (get_end_time d) → (t : ℕ) → load d' t ≡ load d t
load-Moved c t = ground (arith, c.starts, c.ends, c.same_bandwidth)

Accepts-all :
    {bandwidth next floor : ℕ}
    → {entries : List (ℕ × Delta)} → IsOrdered next floor entries
    → TakesNoVlans entries
    → HasRoom bandwidth entries
    → Accepts bandwidth next floor entries
unfolding TakesNoVlans HasRoom
Accepts-all no_entries plain room = nothing_there
Accepts-all (entry below w lo full unique ordered) plain room =
    delta_there below w lo full room.0 plain.0 unique (Accepts-all ordered plain.1 room.1)

-- To a series of deltas one after the other, each with a handle of its own, a delta is added, all with times that are not empty and
-- shorter than 2^32 seconds. When no delta of the series is of the class with VLAN tags, and the bandwidth of each and that of
-- the one that is added are below 2^64 together, `AddDelta` without the flag to join succeeds, and at every instant the series
-- carries what it carried before plus the bandwidth of the delta over its interval.
pub add_delta-Adds :
    (now : ℕ)
    → (delta : Delta) → (s : Series) → IsWindow delta
    → get_start_time delta < get_end_time delta
    → IsOrdered s.next 0 s.entries
    → TakesNoVlans s.entries
    → HasRoom delta.bandwidth s.entries
    → (s' : Series) × (add_delta now false delta s ≡ some s') × Adds delta s s'
unfolding add_delta Adds
add_delta-Adds now delta s w lasts ordered plain room =
    let (d, cloned, c) = clone-Moved delta w now lasts in
    let (s', added, adds) =
      add_clone-Adds now d s.next s.entries c.IsWindow_moved (omega (arith, c.starts, c.ends))
        (rw c.same_bandwidth (Accepts-all ordered plain room)) in
    (
      s',
      ground (arith, cloned, added),
      λ t. adds t ∙ ap (λ (x : ℕ). total s.entries t + x) (load-Moved c t),
    )
