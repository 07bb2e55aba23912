-- ===== src/Tests/Requests.antt =====
-- Links, regions and `VerifyTEConstraints` of src/tedbManager/tewg.cc at concrete requests.
use mxtce_geni_scs.Base.{
  ℕ, ◌<◌, ◌≡◌, refl, true, false, not, ◌&&◌, ◌||◌, none, some, List, [], ◌∷◌, get_or, set,
  replicate, length-set, ◌∙◌, arith,
}
use mxtce_geni_scs.TagSet.{
  TagSet, new, new_grid, has_tag, is_empty, zip_bytes, clear, intersect, add_bitmask,
  delete_bitmask,
}
use mxtce_geni_scs.TagSet.Scan.{size, size_below, byte_size, lowest_tag, lowest_slot, lowest_bit}
use mxtce_geni_scs.TagSet.Byte.{test}
use mxtce_geni_scs.TagSet.Slots.{set-IsBytes}
use mxtce_geni_scs.TagSet.Combine.{allows}
use mxtce_geni_scs.TagSet.Vlans.{IsVlans, IsVlan, vlans-new}
use mxtce_geni_scs.Delta.{Labels, l2sc, psc, Iscd}
use mxtce_geni_scs.Path.{
  Tspec, is_available_for_tspec, same_tspec, update, shares_bandwidth, within_tspec,
}
use mxtce_geni_scs.Hop.{
  Hop, Iacd, Topology, has_labels, proceed_by_updating_vtags, find_iscd, load_vtags, load_labels,
  exclude_neighbours, exclude_local, exclude_remote, exclude_links, exclude_link,
  exclude_allocated_vtags, exclude_iscd,
}
use mxtce_geni_scs.Hop.Crossing.{
  get_next_region_tspec, crossing_region_boundary, leads_on, any_iscd,
}
use mxtce_geni_scs.Hop.Vlans.{IsSoundTopology, IsSoundIscd, is_taken}
use mxtce_geni_scs.Hop.Proceeding.{proceed_by_updating_vtags-allows}
use mxtce_geni_scs.Hop.Untranslated.{NoTranslation}
use mxtce_geni_scs.Hop.Regions.{
  AnyJoins, upwards, implicit_crossing_lost, get_next_region_tspec-AnyJoins,
}
use mxtce_geni_scs.Verify.Loop.{
  ServiceSpec, Specs, fine, get_tag_set, src_vtag, init_check, init_specs, check_path, check_ends,
  check_link, check_vtags, move_vtags, update_init, check_vtags_trans, move_vtags_trans,
  check_waves, prepare_next, ends_of, set_node_spec,
}
use mxtce_geni_scs.Verify.Picks.{
  Verified, verify_te_constraints, pick_common, pick_translated, finalize, dst_vtag,
}
use mxtce_geni_scs.Verify.Continuity.{passes_path}
use mxtce_geni_scs.Verify.Accepted.{verify_te_constraints-Continuous}

abbrev no_vlans : TagSet
no_vlans = record {
  byte_array = replicate 512 0;
  num_bits = 4096;
  num_bytes = 512;
  has_any_tag = false;
  base = 1;
  interval = 1;
}

-- The tags 3 and 4.
abbrev two_vlans : TagSet
two_vlans = record no_vlans { byte_array = set (replicate 512 0) 0 48 }

abbrev one_vlan : TagSet
one_vlan = record no_vlans { byte_array = set (replicate 512 0) 0 16 }

no_vlans-IsVlans : IsVlans no_vlans
unfolding new new_grid
no_vlans-IsVlans = vlans-new.0

with_byte-IsVlans :
    (b : ℕ) → b < 256 → IsVlans (record no_vlans { byte_array = set (replicate 512 0) 0 b })
with_byte-IsVlans b h =
    let v = no_vlans-IsVlans in
    record {
      valid = record {
        sized = length-set (replicate {A = ℕ} 512 0) 0 b ∙ v.valid.sized;
        bytes = set-IsBytes (replicate 512 0) 0 b h v.valid.bytes;
        covers = v.valid.covers;
        grid = v.valid.grid;
      };
      bits = refl;
      from_1 = refl;
      one_by_one = refl;
    }

abbrev labels : Labels
labels = record { available = two_vlans; assigned = no_vlans; suggested = no_vlans }

abbrev vlan_iscd : Iscd
vlan_iscd = record {
  switching_type = 51;
  encoding_type = 2;
  capacity = 1000;
  layer = l2sc labels false;
}

-- Every link has the tags; link 0 leads from node 0 to node 1.
abbrev line : Topology
line = record {
  hop = λ l. record {
    sw_cap_descriptors = vlan_iscd ∷ [];
    adj_cap_descriptors = [];
    local_end = some 0;
    remote_end = some 1;
    remote_link = none;
  };
  local_links = λ n. get_or ((0 ∷ []) ∷ []) n [];
  remote_links = λ n. get_or ([] ∷ (0 ∷ []) ∷ []) n [];
}

line-IsSoundTopology : IsSoundTopology line
unfolding IsSoundIscd
line-IsSoundTopology l = (λ _. (with_byte-IsVlans 48 (omega arith), no_vlans-IsVlans), tt)

line-NoTranslation : NoTranslation line
unfolding NoTranslation find_iscd
line-NoTranslation l iscd layer_labels translation is e = ground (arith, is, e)

tagged : has_labels labels ≡ true
unfolding size size_below byte_size test
tagged = refl

proceed_by_updating_vtags-allows_example :
    (r : TagSet) × (proceed_by_updating_vtags line 0 one_vlan no_vlans true ≡ some r)
    × IsVlans r
    × ((u : ℕ)
        → IsVlan u
        → allows r u ≡ (
            has_tag two_vlans u && not (is_taken line 0 u) && (true && false || allows one_vlan u)))
unfolding find_iscd
proceed_by_updating_vtags-allows_example =
    proceed_by_updating_vtags-allows line line-IsSoundTopology 0 one_vlan no_vlans
      (with_byte-IsVlans 16 (omega arith)) no_vlans-IsVlans labels false true
      (vlan_iscd, refl, refl) (with_byte-IsVlans 48 (omega arith)) tagged

abbrev vlans_wanted : ServiceSpec
vlans_wanted = record {
  tspec = record { sw_type = 51; enc_type = 2; bandwidth = 100 };
  vlan_set = one_vlan;
  timeslot_set = no_vlans;
  wavelength_set = no_vlans;
}

abbrev packets_wanted : ServiceSpec
packets_wanted = record vlans_wanted {
  tspec = record { sw_type = 1; enc_type = 1; bandwidth = 100 };
}

abbrev no_specs : Specs
no_specs = record {
  of_node = λ n. record { sw_type = 0; enc_type = 0; bandwidth = 0 };
  of_link = λ l. record { sw_type = 0; enc_type = 0; bandwidth = 0 };
}

abbrev unused : Verified
unused = record { ing_tss = vlans_wanted; egr_tss = vlans_wanted; specs = no_specs }

abbrev no_random : ℕ → ℕ
no_random k = 0

abbrev accepted : Verified
unfolding verify_te_constraints
accepted =
    elim (verify_te_constraints no_random line (0 ∷ []) vlans_wanted vlans_wanted true no_specs) [
      | fine v ↦ v
      | _ ↦ unused
    ]

was_accepted :
    verify_te_constraints no_random line (0 ∷ []) vlans_wanted vlans_wanted true no_specs
    ≡ fine accepted
unfolding verify_te_constraints check_path check_ends check_link check_vtags move_vtags update_init
    check_vtags_trans move_vtags_trans check_waves prepare_next ends_of set_node_spec init_check
    init_specs src_vtag dst_vtag get_tag_set pick_common pick_translated finalize
    is_available_for_tspec same_tspec update within_tspec shares_bandwidth is_empty has_tag size
    size_below byte_size test lowest_tag lowest_slot lowest_bit proceed_by_updating_vtags load_vtags
    load_labels find_iscd exclude_neighbours exclude_local exclude_remote exclude_links exclude_link
    exclude_allocated_vtags exclude_iscd new new_grid clear zip_bytes intersect add_bitmask
    delete_bitmask
was_accepted = refl

wanted-IsVlans : IsVlans (get_tag_set vlans_wanted)
unfolding get_tag_set
wanted-IsVlans = with_byte-IsVlans 16 (omega arith)

wanted-some_tag : is_empty (get_tag_set vlans_wanted) ≡ false
unfolding get_tag_set is_empty
wanted-some_tag = refl

accepted-allows : allows accepted.egr_tss.vlan_set 4 ≡ true
unfolding verify_te_constraints check_path check_ends check_link check_vtags move_vtags update_init
    check_vtags_trans move_vtags_trans check_waves prepare_next ends_of set_node_spec init_check
    init_specs src_vtag dst_vtag get_tag_set pick_common pick_translated finalize
    is_available_for_tspec same_tspec update within_tspec shares_bandwidth is_empty has_tag size
    size_below byte_size test lowest_tag lowest_slot lowest_bit proceed_by_updating_vtags load_vtags
    load_labels find_iscd exclude_neighbours exclude_local exclude_remote exclude_links exclude_link
    exclude_allocated_vtags exclude_iscd new new_grid clear zip_bytes intersect add_bitmask
    delete_bitmask
accepted-allows = refl

verify_te_constraints-Continuous_example :
    (allows (get_tag_set vlans_wanted) 4 ≡ true) × (passes_path line (0 ∷ []) 4 ≡ true)
verify_te_constraints-Continuous_example =
    verify_te_constraints-Continuous no_random line line-IsSoundTopology line-NoTranslation
      vlans_wanted vlans_wanted refl wanted-IsVlans wanted-some_tag (0 ∷ []) no_specs accepted
      was_accepted 4 (omega arith, omega arith) accepted-allows

-- A link with packet and VLAN descriptors, and one of packets only.
abbrev packet_iscd : Iscd
packet_iscd = record { switching_type = 1; encoding_type = 1; capacity = 1000; layer = psc 1500 }

abbrev adaptation : Iacd
adaptation = record {
  lower_sw_type = 51;
  lower_enc_type = 2;
  upper_sw_type = 1;
  upper_enc_type = 1;
}

abbrev two_layers : List Iacd → Hop
two_layers iacds = record {
  sw_cap_descriptors = vlan_iscd ∷ packet_iscd ∷ [];
  adj_cap_descriptors = iacds;
  local_end = some 0;
  remote_end = some 1;
  remote_link = some 1;
}

abbrev packets : Hop
packets = record {
  sw_cap_descriptors = packet_iscd ∷ [];
  adj_cap_descriptors = [];
  local_end = some 1;
  remote_end = some 2;
  remote_link = none;
}

abbrev layered : Topology
layered = record { hop = λ l. two_layers []; local_links = λ n. []; remote_links = λ n. [] }

implicit_crossing_lost_example :
    (crossing_region_boundary layered (two_layers []) vlans_wanted.tspec (some packets) ≡ true)
    × (get_next_region_tspec layered
          (two_layers [])
          vlans_wanted.tspec
          vlans_wanted.tspec
          (some packets)
        ≡ some (vlans_wanted.tspec, false))
unfolding any_iscd
implicit_crossing_lost_example =
    implicit_crossing_lost layered (two_layers []) packets 1 vlans_wanted.tspec vlans_wanted.tspec
      refl refl refl (omega arith) refl

get_next_region_tspec-AnyJoins_example :
    (t : Tspec) × (get_next_region_tspec layered
        (two_layers (adaptation ∷ []))
        vlans_wanted.tspec
        vlans_wanted.tspec
        (some packets)
      ≡ some (t, true))
    × AnyJoins vlans_wanted.tspec (adaptation ∷ []) t.sw_type t.enc_type
    × (leads_on t.sw_type t.enc_type (some packets) ≡ true)
    × (t.bandwidth ≡ vlans_wanted.tspec.bandwidth)
unfolding any_iscd
get_next_region_tspec-AnyJoins_example =
    get_next_region_tspec-AnyJoins layered (two_layers (adaptation ∷ [])) vlans_wanted.tspec
      vlans_wanted.tspec (some packets) 1 1 ([], [], adaptation, refl, upwards refl refl) refl
