-- ===== src/Delta.antt =====
-- Reservation deltas, `TDelta` and its classes in src/resvManager/reservation.hh and reservation.cc, with the
-- parts of `Link` and `ISCD` in src/tedbManager/resource.hh that they change. A pointer to a link is its
-- place in the list of all links; `none` is a failed assertion, or a null or dangling pointer.
pub mod Bandwidth
pub mod Tags
pub mod Fitting
use mxtce_geni_scs.Base.{
  ℕ, zero, suc, ◌+◌, ◌-◌, ◌%◌, ◌^◌, Bool, true, false, ◌&&◌, ◌||◌, Option, none, some, List, [],
  ◌∷◌, map, ltb, leb, ◌==◌, if◌then◌else◌, ◌>>=◌, get_elem?, set,
}
use Prim.Native.String.{String}
use mxtce_geni_scs.Schedule.{Schedule}
use mxtce_geni_scs.Schedule
use mxtce_geni_scs.TagSet.{TagSet, delete_bitmask, join, max_vlan_num, max_wave_num}

abbrev pub max_timeslots_num : ℕ
max_timeslots_num = 192

-- The codes of the switching types.
abbrev pub psc_1 : ℕ
psc_1 = 1

abbrev pub psc_4 : ℕ
psc_4 = 4

abbrev pub l2sc_type : ℕ
l2sc_type = 51

abbrev pub tdm_type : ℕ
tdm_type = 100

abbrev pub lsc_type : ℕ
lsc_type = 150

abbrev pub fsc_type : ℕ
fsc_type = 200

-- The VLAN tags, time slots or wavelengths of an interface.
pub record Labels : Type 0 where
  pub available : TagSet
  pub assigned : TagSet
  pub suggested : TagSet

-- The class of a descriptor, with what that class adds: an MTU, or labels and whether they may be
-- translated or converted.
pub data Layer : Type 0 where
  psc : ℕ → Layer
  l2sc : Labels → Bool → Layer
  tdm : Labels → Layer
  lsc : Labels → Bool → Layer

pub record Iscd : Type 0 where
  pub switching_type : ℕ
  pub encoding_type : ℕ
  pub capacity : ℕ
  pub layer : Layer

pub record Link : Type 0 where
  pub name : String
  pub max_reservable_bandwidth : ℕ
  pub unreserved_bandwidth : List ℕ
  pub sw_cap_descriptors : List Iscd

-- The class of a delta, with the labels that it takes.
pub data Kind : Type 0 where
  plain_link psc_link : Kind
  l2sc_link : TagSet → Kind
  tdm_link : TagSet → Kind
  lsc_link : TagSet → Kind

pub record Delta : Type 0 where
  pub resv_name : String
  pub generated_time : ℕ
  pub applied_time : ℕ
  pub schedule : Option Schedule
  pub target_resource : Option ℕ
  pub applied : Bool
  pub bandwidth : ℕ
  pub kind : Kind

-- One step of the loop over the 8 priorities, for `Apply` and for `Revoke`. Both count modulo 2^64.
unfoldable pub reserve : ℕ → ℕ → ℕ
reserve bandwidth unreserved =
    if ltb bandwidth unreserved then (unreserved + 2 ^ 64 - bandwidth) % 2 ^ 64 else 0

unfoldable pub unreserve : ℕ → ℕ → ℕ → ℕ
unreserve max_reservable bandwidth unreserved =
    let sum = (unreserved + bandwidth) % 2 ^ 64 in
    if ltb max_reservable sum then max_reservable else sum

-- `TLinkDelta::Apply` and `TLinkDelta::Revoke` on the target, once their early returns are past.
unfoldable pub apply_bandwidth : Delta → Link → Link
apply_bandwidth d l = record l {
  unreserved_bandwidth = map (reserve d.bandwidth) l.unreserved_bandwidth;
}

unfoldable pub revoke_bandwidth : Delta → Link → Link
revoke_bandwidth d l = record l {
  unreserved_bandwidth =
      map (unreserve l.max_reservable_bandwidth d.bandwidth) l.unreserved_bandwidth;
}

unfoldable pub apply_labels : ℕ → TagSet → Labels → Option Labels
apply_labels max_num taken labels = do
  available ← delete_bitmask labels.available taken.byte_array max_num
  assigned ← join labels.assigned taken
  some (record labels { available = available; assigned = assigned })

unfoldable pub revoke_labels : ℕ → TagSet → Labels → Option Labels
revoke_labels max_num taken labels = do
  available ← join labels.available taken
  assigned ← delete_bitmask labels.assigned taken.byte_array max_num
  some (record labels { available = available; assigned = assigned })

-- `GetTheISCD`: the first descriptor, which is asserted to be there; `f` changes it.
unfoldable pub with_the_iscd : (Iscd → Option Iscd) → Link → Option Link
with_the_iscd f l = elim l.sw_cap_descriptors [
  | [] ↦ none
  | iscd ∷ others ↦ do iscd' ← f iscd; some (record l { sw_cap_descriptors = iscd' ∷ others })
]

abbrev asserting : Bool → Option Iscd → Option Iscd
asserting test result = if test then result else none

-- The part of `Apply` and `Revoke` of each class that follows the bandwidth, with `change` for
-- the labels. A descriptor of another class than its switching type says is a fault.
unfoldable pub change_iscd : (ℕ → TagSet → Labels → Option Labels) → Kind → Iscd → Option Iscd
change_iscd change plain_link iscd = some iscd
change_iscd change psc_link iscd =
    asserting (leb psc_1 iscd.switching_type && leb iscd.switching_type psc_4) (some iscd)
change_iscd change (l2sc_link taken) iscd =
    asserting (iscd.switching_type == l2sc_type) (elim iscd.layer [
      | l2sc labels translation ↦ do
        labels' ← change max_vlan_num taken labels
        some (record iscd { layer = l2sc labels' translation })
      | _ ↦ none
    ])
change_iscd change (tdm_link taken) iscd =
    asserting (iscd.switching_type == tdm_type) (elim iscd.layer [
      | tdm labels ↦ do
        labels' ← change max_timeslots_num taken labels
        some (record iscd { layer = tdm labels' })
      | _ ↦ none
    ])
change_iscd change (lsc_link taken) iscd =
    asserting (iscd.switching_type == lsc_type) (elim iscd.layer [
      | lsc labels conversion ↦ do
        labels' ← change max_wave_num taken labels
        some (record iscd { layer = lsc labels' conversion })
      | _ ↦ none
    ])

-- A plain delta does not look at the descriptors.
unfoldable pub change_link : (ℕ → TagSet → Labels → Option Labels) → Kind → Link → Option Link
unfolding with_the_iscd
change_link change plain_link l = some l
change_link change kind l = with_the_iscd (change_iscd change kind) l

-- `Apply` and `Revoke` on a link that is there, at the time `now`.
unfoldable pub apply_to : ℕ → Delta → Link → Option (Delta × Link)
apply_to now d l = if d.applied then some (d, l) else do
  l' ← change_link apply_labels d.kind (apply_bandwidth d l)
  some (record d { applied = true; applied_time = now }, l')

unfoldable pub revoke_from : ℕ → Delta → Link → Option (Delta × Link)
revoke_from now d l =
    if d.applied
    then (do
      l' ← change_link revoke_labels d.kind (revoke_bandwidth d l)
      some (record d { applied = false; applied_time = now }, l'))
    else some (d, l)

-- Without a target every class returns at once but `TLinkDelta_PSC`, which goes on to read the
-- target's descriptor unless its first test returns.
without_target : Kind → Bool → Delta → List Link → Option (Delta × List Link)
without_target psc_link goes_on d links = if goes_on then none else some (d, links)
without_target kind goes_on d links = some (d, links)

at_target :
    (Delta → Link → Option (Delta × Link)) → Delta → List Link → Bool → Option (Delta × List Link)
unfolding without_target
at_target change d links goes_on = elim d.target_resource [
  | none ↦ without_target d.kind goes_on d links
  | some i ↦ do l ← get_elem? links i; (d', l') ← change d l; some (d', set links i l')
]

unfoldable pub apply : ℕ → Delta → List Link → Option (Delta × List Link)
unfolding at_target
apply now d links = at_target (apply_to now) d links (if d.applied then false else true)

unfoldable pub revoke : ℕ → Delta → List Link → Option (Delta × List Link)
unfolding at_target
revoke now d links = at_target (revoke_from now) d links d.applied

-- The bandwidth and the labels of one delta put together with another's. Labels come together only
-- in the class of L2SC, which casts the other delta to that class.
abbrev pub other_tags : Kind → Option TagSet
other_tags (l2sc_link taken) = some taken
other_tags kind = none

unfoldable pub combine_labels : (TagSet → TagSet → Option TagSet) → Kind → Kind → Option Kind
combine_labels f (l2sc_link taken) other = do
  theirs ← other_tags other
  both ← f taken theirs
  some (l2sc_link both)
combine_labels f kind other = some kind

unfoldable pub combine : Delta → Delta → Option Delta
unfolding combine_labels
combine d e = do
  kind ← combine_labels join d.kind e.kind
  some (record d { bandwidth = (d.bandwidth + e.bandwidth) % 2 ^ 64; kind = kind })

unfoldable pub decombine : Delta → Delta → Option Delta
unfolding combine_labels
decombine d e = do
  kind ← combine_labels (λ s t. delete_bitmask s t.byte_array max_vlan_num) d.kind e.kind
  some (record d {
    bandwidth = if ltb e.bandwidth d.bandwidth then d.bandwidth - e.bandwidth else 0;
    kind = kind;
  })

unfoldable pub join_delta : Delta → Delta → Option Delta
unfolding combine_labels
join_delta d e = do
  kind ← combine_labels join d.kind e.kind
  some (record d {
    bandwidth = if ltb d.bandwidth e.bandwidth then e.bandwidth else d.bandwidth;
    kind = kind;
  })

-- `Clone` copies the schedule too, and starts out not applied.
unfoldable pub clone : ℕ → Delta → Option Delta
clone now d = elim d.schedule [
  | none ↦ some (record d { generated_time = now; applied_time = 0; applied = false })
  | some s ↦ do
    s' ← Schedule.clone s
    some (record d { schedule = some s'; generated_time = now; applied_time = 0; applied = false })
]

unfoldable pub get_start_time : Delta → ℕ
get_start_time d = elim d.schedule [ none ↦ 0 | some s ↦ s.start_time ]

unfoldable pub get_end_time : Delta → ℕ
get_end_time d = elim d.schedule [ none ↦ 0 | some s ↦ s.end_time ]

unfoldable pub set_start_time : ℕ → Delta → Option Delta
set_start_time t d = elim d.schedule [
  | none ↦ some d
  | some s ↦
      if leb t s.end_time
      then some (record d {
        schedule = some (record s { start_time = t; duration = (s.end_time - t) % 2 ^ 32 });
      })
      else none
]

unfoldable pub set_end_time : ℕ → Delta → Option Delta
set_end_time t d = elim d.schedule [
  | none ↦ some d
  | some s ↦
      if leb s.start_time t
      then some (record d {
        schedule = some (record s { end_time = t; duration = (t - s.start_time) % 2 ^ 32 });
      })
      else none
]
