-- ===== src/Hop.antt =====
-- What a link does to the tags and the specification of a path that goes over it: the methods of `TLink` in
-- src/tedbManager/tewg.cc from `CanBeLastHopTrunk` to `ProceedByUpdatingTimeslots`. A link and a node are numbers;
-- `none` is a failed assertion, a cast to the wrong class or a null pointer that is followed.
pub mod Crossing
pub mod Vlans
pub mod Proceeding
pub mod Passing
pub mod Untranslated
pub mod Regions
use mxtce_geni_scs.Base.{
  ℕ, ◌+◌, ◌*◌, Bool, true, false, not, ◌&&◌, ◌||◌, Option, none, some, List, [], ◌∷◌, length, ltb,
  leb, ◌==◌, if◌then◌else◌, ◌>>=◌,
}
use mxtce_geni_scs.TagSet.{
  TagSet, any_tag, add_tag, add_bitmask, delete_bitmask, intersect, clear, max_vlan_num,
}
use mxtce_geni_scs.TagSet.Scan.{size}
use mxtce_geni_scs.Delta.{Labels, Layer, l2sc, lsc, Iscd, l2sc_type, lsc_type}
use mxtce_geni_scs.Path.{Tspec, verify_edge_link_tspec}

-- LINK_IFSWCAP_ENC_ETH
abbrev pub enc_eth : ℕ
enc_eth = 2

-- `IACD`
pub record Iacd : Type 0 where
  pub lower_sw_type : ℕ
  pub lower_enc_type : ℕ
  pub upper_sw_type : ℕ
  pub upper_enc_type : ℕ

-- The part of `TLink` that these methods read.
pub record Hop : Type 0 where
  pub sw_cap_descriptors : List Iscd
  pub adj_cap_descriptors : List Iacd
  pub local_end : Option ℕ
  pub remote_end : Option ℕ
  pub remote_link : Option ℕ

-- All links, and the links that start and end at a node.
pub record Topology : Type 0 where
  pub hop : ℕ → Hop
  pub local_links : ℕ → List ℕ
  pub remote_links : ℕ → List ℕ

unfoldable pub can_be_last_hop_trunk : Topology → Tspec → Hop → Bool
can_be_last_hop_trunk top tspec link = elim link.remote_link [
  | none ↦ false
  | some remote ↦ verify_edge_link_tspec tspec (top.hop remote).sw_cap_descriptors
]

abbrev pub vlan_labels : Layer → Option (Labels × Bool)
vlan_labels (l2sc labels translation) = some (labels, translation)
vlan_labels layer = none

abbrev pub wave_labels : Layer → Option (Labels × Bool)
wave_labels (lsc labels conversion) = some (labels, conversion)
wave_labels layer = none

-- One descriptor, and all of a link's.
unfoldable pub exclude_iscd : Iscd → TagSet → Option TagSet
exclude_iscd iscd vtagset =
    if iscd.switching_type == l2sc_type
    then (do
      labels ← vlan_labels iscd.layer
      delete_bitmask vtagset labels.0.assigned.byte_array max_vlan_num)
    else some vtagset

unfoldable pub exclude_allocated_vtags : List Iscd → TagSet → Option TagSet
exclude_allocated_vtags [] vtagset = some vtagset
exclude_allocated_vtags (iscd ∷ iscds) vtagset = do
  vtagset' ← exclude_iscd iscd vtagset
  exclude_allocated_vtags iscds vtagset'

-- The loop over some links of a node, but for one of them.
unfoldable pub exclude_link : Topology → (ℕ → Bool) → ℕ → TagSet → Option TagSet
exclude_link top skips l vtagset =
    if skips l then some vtagset else exclude_allocated_vtags (top.hop l).sw_cap_descriptors vtagset

unfoldable pub exclude_links : Topology → (ℕ → Bool) → List ℕ → TagSet → Option TagSet
exclude_links top skips [] vtagset = some vtagset
exclude_links top skips (l ∷ links) vtagset = do
  vtagset' ← exclude_link top skips l vtagset
  exclude_links top skips links vtagset'

-- The links of the local end, and those of the remote end.
unfoldable pub exclude_local : Topology → ℕ → Option ℕ → TagSet → Option TagSet
exclude_local top this none vtagset = some vtagset
exclude_local top this (some n) vtagset = do
  vtagset' ← exclude_links top (λ l. false) (top.remote_links n) vtagset
  exclude_links top (λ l. l == this) (top.local_links n) vtagset'

unfoldable pub exclude_remote : Topology → ℕ → Option ℕ → TagSet → Option TagSet
exclude_remote top this none vtagset = some vtagset
exclude_remote top this (some n) vtagset = do
  vtagset' ← exclude_links top (λ l. l == this) (top.remote_links n) vtagset
  exclude_links top (λ l. false) (top.local_links n) vtagset'

unfoldable pub exclude_neighbours : Topology → ℕ → TagSet → Option TagSet
exclude_neighbours top this vtagset = do
  vtagset' ← exclude_local top this (top.hop this).local_end vtagset
  exclude_remote top this (top.hop this).remote_end vtagset'

-- The first descriptor that `wanted` picks.
unfoldable pub find_iscd : (Iscd → Bool) → List Iscd → Option Iscd
find_iscd wanted [] = none
find_iscd wanted (iscd ∷ iscds) =
    let rest = find_iscd wanted iscds in if wanted iscd then some iscd else rest

abbrev pub is_vlan_iscd : Iscd → Bool
is_vlan_iscd iscd = iscd.switching_type == l2sc_type && iscd.encoding_type == enc_eth

abbrev pub is_wave_iscd : Iscd → Bool
is_wave_iscd iscd = iscd.switching_type == lsc_type

-- What the loop over the descriptors takes from the first one of VLANs.
abbrev pub has_labels : Labels → Bool
has_labels labels = ltb 0 (size labels.assigned + size labels.available)

unfoldable pub load_labels : Labels → TagSet → Option TagSet
load_labels labels next =
    if has_labels labels
    then add_bitmask next labels.available.byte_array max_vlan_num
    else some next

-- The set, whether the link has no VLANs, and whether to translate.
unfoldable pub load_vtags : Option Iscd → TagSet → Bool → Option (TagSet × Bool × Bool)
load_vtags none next do_translation = some (next, true, do_translation)
load_vtags (some iscd) next do_translation = do
  labels ← vlan_labels iscd.layer
  next' ← load_labels labels.0 next
  some (next', not (has_labels labels.0), do_translation && labels.1)

abbrev pub meet_head : Bool → TagSet → TagSet → Option TagSet
meet_head freely head next = if freely || head.has_any_tag then some next else intersect next head

unfoldable pub proceed_by_updating_vtags : Topology → ℕ → TagSet → TagSet → Bool → Option TagSet
proceed_by_updating_vtags top this head next do_translation = do
  loaded ←
      load_vtags (find_iscd is_vlan_iscd (top.hop this).sw_cap_descriptors) (clear next)
        do_translation
  next' ← exclude_neighbours top this loaded.0
  if loaded.1 then some head else meet_head loaded.2 head next'

-- The bitmask of wavelengths is added with the number of VLANs, but only as many bytes as the set has.
unfoldable pub load_waves : Option Iscd → TagSet → Bool → Option (TagSet × Bool)
load_waves none next do_conversion = some (next, do_conversion)
load_waves (some iscd) next do_conversion = do
  labels ← wave_labels iscd.layer
  next' ← load_labels labels.0 next
  some (next', do_conversion && labels.1)

unfoldable pub proceed_by_updating_waves : Hop → TagSet → TagSet → Bool → Option TagSet
proceed_by_updating_waves this head next do_conversion = do
  loaded ← load_waves (find_iscd is_wave_iscd this.sw_cap_descriptors) (clear next) do_conversion
  meet_head loaded.1 head loaded.0

unfoldable pub proceed_by_updating_timeslots : TagSet → TagSet → Option TagSet
proceed_by_updating_timeslots head next =
    if head.has_any_tag then some (clear next) else intersect (clear next) head
