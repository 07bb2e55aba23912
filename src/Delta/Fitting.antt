-- ===== src/Delta/Fitting.antt =====
-- `Apply` and then `Revoke` of a delta whose class fits the link, src/resvManager/reservation.cc: both go through.
use mxtce_geni_scs.Base.{
  ℕ, ◌^◌, ◌≤◌, ◌<◌, ◌≡◌, refl, Bool, true, false, some, List, ◌∷◌, map, arith, All,
}
use mxtce_geni_scs.TagSet.{TagSet, max_vlan_num, max_wave_num}
use mxtce_geni_scs.Delta.{
  Delta, Kind, plain_link, psc_link, l2sc_link, tdm_link, lsc_link, Link, Iscd, Labels, l2sc, tdm,
  lsc, psc_1, psc_4, l2sc_type, tdm_type, lsc_type, max_timeslots_num, apply_to, revoke_from,
  apply_labels, revoke_labels, apply_bandwidth, revoke_bandwidth, reserve, unreserve, change_link,
  change_iscd, with_the_iscd,
}
use mxtce_geni_scs.Delta.Tags.{CanTake, revoke_labels-apply_labels}
use mxtce_geni_scs.Delta.Bandwidth.{revoke_from-apply_to}

-- The link's first descriptor is of the class of the delta, and has the delta's labels to give.
pub data Fits (l : Link) : Kind → Type 0 where
  fits_plain : Fits l plain_link
  fits_psc :
      (iscd : Iscd)
      → (others : List Iscd) → l.sw_cap_descriptors ≡ iscd ∷ others
      → psc_1 ≤ iscd.switching_type
      → iscd.switching_type ≤ psc_4
      → Fits l psc_link
  fits_l2sc :
      (iscd : Iscd)
      → (others : List Iscd) → (labels : Labels) → (translation : Bool) → {taken : TagSet}
      → l.sw_cap_descriptors ≡ iscd ∷ others
      → iscd.switching_type ≡ l2sc_type
      → iscd.layer ≡ l2sc labels translation
      → CanTake max_vlan_num taken labels
      → Fits l (l2sc_link taken)
  fits_tdm :
      (iscd : Iscd)
      → (others : List Iscd) → (labels : Labels) → {taken : TagSet}
      → l.sw_cap_descriptors ≡ iscd ∷ others
      → iscd.switching_type ≡ tdm_type
      → iscd.layer ≡ tdm labels
      → CanTake max_timeslots_num taken labels
      → Fits l (tdm_link taken)
  fits_lsc :
      (iscd : Iscd)
      → (others : List Iscd) → (labels : Labels) → (conversion : Bool) → {taken : TagSet}
      → l.sw_cap_descriptors ≡ iscd ∷ others
      → iscd.switching_type ≡ lsc_type
      → iscd.layer ≡ lsc labels conversion
      → CanTake max_wave_num taken labels
      → Fits l (lsc_link taken)

-- The two changes of the descriptors, whatever the bandwidths are.
record Changes (l : Link) (kind : Kind) (us us' : List ℕ) : Type 0 where
  applied : List Iscd
  revoked : List Iscd
  applies :
      change_link apply_labels kind (record l { unreserved_bandwidth = us })
      ≡ some (record l { unreserved_bandwidth = us; sw_cap_descriptors = applied })
  revokes :
      change_link revoke_labels kind
        (record l { unreserved_bandwidth = us'; sw_cap_descriptors = applied })
      ≡ some (record l { unreserved_bandwidth = us'; sw_cap_descriptors = revoked })

Fits-Changes : (l : Link) → (kind : Kind) → Fits l kind → (us us' : List ℕ) → Changes l kind us us'
unfolding change_link change_iscd with_the_iscd
Fits-Changes l plain_link fits_plain us us' = record {
  applied = l.sw_cap_descriptors;
  revoked = l.sw_cap_descriptors;
  applies = refl;
  revokes = refl;
}
Fits-Changes l psc_link (fits_psc iscd others same low high) us us' = record {
  applied = iscd ∷ others;
  revoked = iscd ∷ others;
  applies = ground (arith, same, low, high);
  revokes = ground (arith, low, high);
}
Fits-Changes l (l2sc_link taken) (fits_l2sc iscd others labels translation same type layer can) us
      us' =
    let (mid, end, e, e', m₁, m₂, m₃) = revoke_labels-apply_labels max_vlan_num taken labels can in
    record {
      applied = record iscd { layer = l2sc mid translation } ∷ others;
      revoked = record iscd { layer = l2sc end translation } ∷ others;
      applies = ground (arith, same, type, layer, e);
      revokes = ground (arith, type, e');
    }
Fits-Changes l (tdm_link taken) (fits_tdm iscd others labels same type layer can) us us' =
    let (mid, end, e, e', m₁, m₂, m₃) =
      revoke_labels-apply_labels max_timeslots_num taken labels can in
    record {
      applied = record iscd { layer = tdm mid } ∷ others;
      revoked = record iscd { layer = tdm end } ∷ others;
      applies = ground (arith, same, type, layer, e);
      revokes = ground (arith, type, e');
    }
Fits-Changes l (lsc_link taken) (fits_lsc iscd others labels conversion same type layer can) us
      us' =
    let (mid, end, e, e', m₁, m₂, m₃) = revoke_labels-apply_labels max_wave_num taken labels can in
    record {
      applied = record iscd { layer = lsc mid conversion } ∷ others;
      revoked = record iscd { layer = lsc end conversion } ∷ others;
      applies = ground (arith, same, type, layer, e);
      revokes = ground (arith, type, e');
    }

-- When the delta is not applied, its class fits the link, and every priority has its bandwidth to give and no
-- more than can be reserved, less than 2^63, then `Apply` and then `Revoke` succeed, and leave the delta not
-- applied and the unreserved bandwidth as it was.
pub revoke_from-apply_to_fitting :
    (now later : ℕ)
    → (d : Delta) → (l : Link) → d.applied ≡ false
    → Fits l d.kind
    → l.max_reservable_bandwidth < 2 ^ 63
    → All (λ u. (d.bandwidth ≤ u) × (u ≤ l.max_reservable_bandwidth)) l.unreserved_bandwidth
    → (d₁ : Delta) × (l₁ : Link) × (d₂ : Delta) × (l₂ : Link) × (apply_to now d l ≡ some (d₁, l₁))
      × (revoke_from later d₁ l₁ ≡ some (d₂, l₂))
      × (l₂.unreserved_bandwidth ≡ l.unreserved_bandwidth)
      × (d₂.applied ≡ false)
unfolding apply_to revoke_from apply_bandwidth revoke_bandwidth
revoke_from-apply_to_fitting now later d l fresh fits small room =
    let us = map (reserve d.bandwidth) l.unreserved_bandwidth in
    let us' = map (unreserve l.max_reservable_bandwidth d.bandwidth) us in
    let c = Fits-Changes l d.kind fits us us' in
    let d₁ = record d { applied = true; applied_time = now } in
    let l₁ = record l { unreserved_bandwidth = us; sw_cap_descriptors = c.applied } in
    let d₂ = record d { applied = false; applied_time = later } in
    let l₂ = record l { unreserved_bandwidth = us'; sw_cap_descriptors = c.revoked } in
    let applies : apply_to now d l ≡ some (d₁, l₁) = ground (arith, fresh, c.applies) in
    let revokes : revoke_from later d₁ l₁ ≡ some (d₂, l₂) = ground (arith, c.revokes) in
    let (same, flag) =
      revoke_from-apply_to now later d d₁ d₂ l l₁ l₂ fresh applies revokes small room in
    (d₁, l₁, d₂, l₂, applies, revokes, same, flag)
