-- ===== src/Tests/Deltas.antt =====
-- Deltas of src/resvManager/reservation.cc and series of src/compute/scheduling.cc at concrete values.
use mxtce_geni_scs.Base.{
  ℕ, ◌+◌, ◌-◌, ◌^◌, ◌≤◌, ◌<◌, ◌≡◌, ◌≢◌, refl, true, false, not, ◌&&◌, ◌||◌, some, List, [], ◌∷◌,
  arith, map, max, ◌/◌, ◌%◌, ltb, if◌then◌else◌, all_below, all_below_sound, lt-or-le, inl, inr,
}
use mxtce_geni_scs.TagSet.{TagSet, any_tag, has_tag, slot}
use mxtce_geni_scs.TagSet.Byte.{test}
use mxtce_geni_scs.Delta.{
  Delta, plain_link, Link, Labels, apply_to, revoke_from, reserve, unreserve, apply_labels,
  revoke_labels, get_start_time, get_end_time, apply_bandwidth, revoke_bandwidth, change_link,
}
use mxtce_geni_scs.Delta.Bandwidth.{
  InBounds, apply_to-takes, revoke_from-InBounds, revoke_from-apply_to_excess,
}
use mxtce_geni_scs.Delta.{psc, Iscd, psc_link}
use mxtce_geni_scs.Delta.Fitting.{fits_psc, revoke_from-apply_to_fitting}
use mxtce_geni_scs.Delta.Tags.{OnGrid, CanTake, SameTags, revoke_labels-apply_labels}
use mxtce_geni_scs.Series.{Series, add_delta}
use mxtce_geni_scs.Series.Entries.{total}
use mxtce_geni_scs.Series.Pieces.{IsWindow}
use mxtce_geni_scs.Series.Loop.{Adds}
use mxtce_geni_scs.Series.Load.{IsOrdered, TakesNoVlans, HasRoom, entry, no_entries, add_delta-Adds}
use mxtce_geni_scs.Series.{find_entry}
use mxtce_geni_scs.Graph.{load_ads}
use mxtce_geni_scs.Graph.Residue.{load_ads-value}
use mxtce_geni_scs.Graph.Steps.{value_at, InOrder}

abbrev delta_at : ℕ → ℕ → ℕ → Delta
delta_at start end bandwidth = record {
  resv_name = "reservation";
  generated_time = 0;
  applied_time = 0;
  schedule = some (record { start_time = start; end_time = end; duration = end - start });
  target_resource = some 0;
  applied = false;
  bandwidth = bandwidth;
  kind = plain_link;
}

abbrev link_with : List ℕ → Link
link_with unreserved = record {
  name = "link";
  max_reservable_bandwidth = 100;
  unreserved_bandwidth = unreserved;
  sw_cap_descriptors = [];
}

abbrev small : Delta
small = delta_at 10 20 30

abbrev applied : Delta
applied = record small { applied = true; applied_time = 5 }

small_applies :
    apply_to 5 small (link_with (100 ∷ 50 ∷ [])) ≡ some (applied, link_with (70 ∷ 20 ∷ []))
unfolding apply_to apply_bandwidth change_link reserve
small_applies = refl

small_revokes :
    revoke_from 6 applied (link_with (70 ∷ 20 ∷ []))
    ≡ some (record applied { applied = false; applied_time = 6 }, link_with (100 ∷ 50 ∷ []))
unfolding revoke_from revoke_bandwidth change_link unreserve
small_revokes = refl

apply_to-takes_example :
    (map (λ u. u + 30) (70 ∷ 20 ∷ []) ≡ map (max 30) (100 ∷ 50 ∷ []))
    × InBounds (link_with (70 ∷ 20 ∷ []))
    × (true ≡ true)
apply_to-takes_example =
    apply_to-takes 5 small applied (link_with (100 ∷ 50 ∷ [])) (link_with (70 ∷ 20 ∷ []))
      (omega arith) (omega arith, (omega arith, tt)) refl small_applies

revoke_from-InBounds_example : InBounds (link_with (100 ∷ 50 ∷ []))
revoke_from-InBounds_example =
    revoke_from-InBounds 6 applied (record applied { applied = false; applied_time = 6 })
      (link_with (70 ∷ 20 ∷ [])) (link_with (100 ∷ 50 ∷ [])) (omega arith, (omega arith, tt))
      small_revokes

-- A delta of class PSC, and a link of that class.
abbrev packet_delta : Delta
packet_delta = record small { kind = psc_link }

abbrev packet_iscd : Iscd
packet_iscd = record { switching_type = 1; encoding_type = 1; capacity = 100; layer = psc 1500 }

abbrev packet_link : Link
packet_link = record (link_with (100 ∷ 50 ∷ [])) { sw_cap_descriptors = packet_iscd ∷ [] }

revoke_from-apply_to_fitting_example :
    (d₁ : Delta) × (l₁ : Link) × (d₂ : Delta) × (l₂ : Link) × (apply_to 5 packet_delta packet_link
      ≡ some (d₁, l₁))
    × (revoke_from 6 d₁ l₁ ≡ some (d₂, l₂))
    × (◌≡◌ {A = List ℕ} l₂.unreserved_bandwidth (100 ∷ 50 ∷ []))
    × (d₂.applied ≡ false)
revoke_from-apply_to_fitting_example =
    revoke_from-apply_to_fitting 5 6 packet_delta packet_link refl
      (fits_psc packet_iscd [] refl (omega arith) (omega arith)) (omega arith)
      ((omega arith, omega arith), ((omega arith, omega arith), tt))

excess_applies : apply_to 5 small (link_with (10 ∷ [])) ≡ some (applied, link_with (0 ∷ []))
unfolding apply_to apply_bandwidth change_link reserve
excess_applies = refl

excess_revokes :
    revoke_from 6 applied (link_with (0 ∷ []))
    ≡ some (record applied { applied = false; applied_time = 6 }, link_with (30 ∷ []))
unfolding revoke_from revoke_bandwidth change_link unreserve
excess_revokes = refl

revoke_from-apply_to_excess_example : ◌≡◌ {A = List ℕ} (30 ∷ []) (map (λ (u : ℕ). 30) (10 ∷ []))
revoke_from-apply_to_excess_example =
    revoke_from-apply_to_excess 5 6 small applied
      (record applied { applied = false; applied_time = 6 }) (link_with (10 ∷ []))
      (link_with (0 ∷ [])) (link_with (30 ∷ [])) refl excess_applies excess_revokes (omega arith)
      (omega arith, tt) (omega arith)

-- Sets of 8 tags: all of them, none of them, and tag 1.
abbrev eight : ℕ → TagSet
eight byte = record {
  byte_array = byte ∷ [];
  num_bits = 8;
  num_bytes = 1;
  has_any_tag = false;
  base = 1;
  interval = 1;
}

eight-OnGrid : (b c : ℕ) → b < 256 → c < 256 → OnGrid 8 (eight b) (eight c)
eight-OnGrid b c small_b small_c = record {
  IsValid_set = record { sized = refl; bytes = (small_b, tt); covers = refl; grid = omega arith };
  IsValid_taken = record { sized = refl; bytes = (small_c, tt); covers = refl; grid = omega arith };
  same_grid = record { same_bits = refl; same_base = refl; same_interval = refl };
  all_bits = refl;
  no_any = refl;
}

abbrev free_labels : Labels
free_labels = record { available = eight 255; assigned = eight 0; suggested = eight 0 }

has_tag-eight :
    (b u : ℕ)
    → u ≢ any_tag
    → has_tag (eight b) u ≡ (if ltb (slot (eight b) u) 8 then test b (slot (eight b) u) else false)
unfolding has_tag
has_tag-eight b u named = elim (lt-or-le (slot (eight b) u) 8) [
  | inl inside ↦
      let byte : ◌≡◌ {A = ℕ} (slot (eight b) u / 8) 0 = omega arith in
      let bit : slot (eight b) u % 8 ≡ slot (eight b) u = omega arith in ground (arith, byte, bit)
  | inr past ↦ ground arith
]

full_byte : all_below 8 (test 255) ≡ true
unfolding all_below test
full_byte = refl

empty_byte : all_below 8 (λ i. not (test 0 i)) ≡ true
unfolding all_below test
empty_byte = refl

has_tag-full : (u : ℕ) → u ≢ any_tag → has_tag (eight 0x80) u ≡ true → has_tag (eight 255) u ≡ true
has_tag-full u named h = ground (
  arith,
  has_tag-eight 255 u named,
  has_tag-eight 0x80 u named,
  all_below_sound 8 (test 255) (slot (eight 255) u) full_byte,
)

has_tag-empty : (u : ℕ) → u ≢ any_tag → has_tag (eight 0) u ≡ false
has_tag-empty u named = ground (
  arith,
  has_tag-eight 0 u named,
  all_below_sound 8 (λ i. not (test 0 i)) (slot (eight 0) u) empty_byte,
)

can_take : CanTake 8 (eight 0x80) free_labels
can_take = record {
  available_grid = eight-OnGrid 255 0x80 (omega arith) (omega arith);
  assigned_grid = eight-OnGrid 0 0x80 (omega arith) (omega arith);
  available_named = refl;
  assigned_named = refl;
  free = has_tag-full;
  unused = λ u named h. has_tag-empty u named;
}

revoke_labels-apply_labels_example :
    (mid : Labels) × (end : Labels) × (apply_labels 8 (eight 0x80) free_labels ≡ some mid)
    × (revoke_labels 8 (eight 0x80) mid ≡ some end)
    × ((u : ℕ)
        → u ≢ any_tag
        → (has_tag mid.available u ≡ (has_tag (eight 255) u && not (has_tag (eight 0x80) u)))
          × (has_tag mid.assigned u ≡ (has_tag (eight 0) u || has_tag (eight 0x80) u)))
    × SameTags end.available (eight 255)
    × SameTags end.assigned (eight 0)
revoke_labels-apply_labels_example = revoke_labels-apply_labels 8 (eight 0x80) free_labels can_take

-- A reservation of 40 in [10, 20) and one of 50 in [30, 40), and one to add that overlaps both.
abbrev two_entries : List (ℕ × Delta)
two_entries = (0, delta_at 10 20 40) ∷ (1, delta_at 30 40 50) ∷ []

abbrev two_deltas : Series
two_deltas = record { entries = two_entries; next = 2 }

IsWindow-at :
    (start end bandwidth : ℕ)
    → start ≤ end
    → end < start + 2 ^ 32
    → IsWindow (delta_at start end bandwidth)
IsWindow-at start end bandwidth ordered short = record {
  window = record { start_time = start; end_time = end; duration = end - start };
  at = refl;
  ordered = ordered;
  exact = refl;
  small = short;
}

two_deltas-IsOrdered : IsOrdered 2 0 two_entries
unfolding get_start_time get_end_time find_entry
two_deltas-IsOrdered =
    entry (omega arith) (IsWindow-at 10 20 40 (omega arith) (omega arith)) (omega arith)
      (omega arith) refl
      (entry (omega arith) (IsWindow-at 30 40 50 (omega arith) (omega arith)) (omega arith)
        (omega arith) refl no_entries)

two_entries-TakesNoVlans : TakesNoVlans two_entries
unfolding TakesNoVlans
two_entries-TakesNoVlans = (refl, (refl, tt))

two_entries-HasRoom : HasRoom 5 two_entries
unfolding HasRoom
two_entries-HasRoom = (omega arith, (omega arith, tt))

lasts_long : get_start_time (delta_at 15 35 5) < get_end_time (delta_at 15 35 5)
unfolding get_start_time get_end_time
lasts_long = omega arith

add_delta-Adds_example :
    (s' : Series) × (add_delta 1 false (delta_at 15 35 5) two_deltas ≡ some s')
    × Adds (delta_at 15 35 5) two_deltas s'
add_delta-Adds_example =
    add_delta-Adds 1 (delta_at 15 35 5) two_deltas (IsWindow-at 15 35 5 (omega arith) (omega arith))
      lasts_long two_deltas-IsOrdered two_entries-TakesNoVlans two_entries-HasRoom

two_entries-InOrder : InOrder 0 two_entries
unfolding InOrder get_start_time get_end_time
two_entries-InOrder = (omega arith, omega arith, (omega arith, omega arith, tt))

load_ads-value_example :
    value_at 0 32 (load_ads two_entries 15 35 100 []) ≡ 100 - total two_entries 32
load_ads-value_example =
    load_ads-value two_entries 15 35 100 32 two_entries-InOrder (omega arith) (omega arith)
