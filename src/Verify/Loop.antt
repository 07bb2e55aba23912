-- ===== src/Verify/Loop.antt =====
-- The loops of `TPath::VerifyTEConstraints` in src/tedbManager/tewg.cc, with `TServiceSpec` of src/tedbManager/tewg.hh.
use mxtce_geni_scs.Base.{
  ℕ, Bool, true, false, not, ◌&&◌, ◌||◌, Option, none, some, List, [], ◌∷◌, ◌==◌, if◌then◌else◌,
}
use mxtce_geni_scs.TagSet.{
  TagSet, new, any_tag, intersect, clear, is_empty, max_vlan_num, max_wave_num,
}
use mxtce_geni_scs.TagSet.Scan.{lowest_tag}
use mxtce_geni_scs.Delta.{Iscd, l2sc_type, tdm_type, lsc_type}
use mxtce_geni_scs.Path.{Tspec, is_available_for_tspec}
use mxtce_geni_scs.Hop.{
  Hop, Topology, enc_eth, proceed_by_updating_vtags, proceed_by_updating_waves,
}
use mxtce_geni_scs.Hop.Crossing.{
  crossing_region_boundary, get_next_region_tspec, init_next_region_tag_set,
}

pub record ServiceSpec : Type 0 where
  pub tspec : Tspec
  pub vlan_set : TagSet
  pub timeslot_set : TagSet
  pub wavelength_set : TagSet

unfoldable pub get_tag_set : ServiceSpec → TagSet
get_tag_set s =
    if s.tspec.sw_type == tdm_type
    then s.timeslot_set
    else if s.tspec.sw_type == lsc_type
    then s.wavelength_set
    else s.vlan_set

-- The specifications in the work data of the nodes and the links.
pub record Specs : Type 0 where
  pub of_node : ℕ → Tspec
  pub of_link : ℕ → Tspec

-- The local variables of the loop.
pub record Check : Type 0 where
  pub specs : Specs
  pub head_vtagset : TagSet
  pub next_vtagset : TagSet
  pub head_vtagset_trans : TagSet
  pub next_vtagset_trans : TagSet
  pub init_vtagset : TagSet
  pub no_vtag : Bool
  pub no_vtag_trans : Bool
  pub head_waveset : TagSet
  pub next_waveset : TagSet

-- A failed assertion or a fault, `return false` with the work data that it leaves, or a value to go on with.
pub data Verdict {ℓ} (A : Type ℓ) : Type ℓ where
  fault : Verdict A
  refused : Specs → Verdict A
  fine : A → Verdict A

infixl 5 ◌>>=◌
abbrev pub ◌>>=◌ {ℓ κ} : {A : Type ℓ} {B : Type κ} → Verdict A → (A → Verdict B) → Verdict B
fault >>= f = fault
refused specs >>= f = refused specs
fine a >>= f = f a

abbrev pub asserted {ℓ} : {A : Type ℓ} → Option A → Verdict A
asserted none = fault
asserted (some a) = fine a

abbrev pub refuse_if : Bool → Check → Verdict Check
refuse_if test c = if test then refused c.specs else fine c

unfoldable pub set_node_spec : Option ℕ → Tspec → Specs → Specs
set_node_spec none tspec specs = specs
set_node_spec (some n) tspec specs = record specs {
  of_node = λ m. if m == n then tspec else specs.of_node m;
}

abbrev set_link_spec : ℕ → Tspec → Specs → Specs
set_link_spec l tspec specs = record specs {
  of_link = λ k. if k == l then tspec else specs.of_link k;
}

-- The first loop.
unfoldable pub init_specs : Topology → Tspec → List ℕ → Specs → Specs
unfolding set_node_spec
init_specs top tspec [] specs = specs
init_specs top tspec (l ∷ path) specs = init_specs top tspec path (
    set_link_spec l tspec (
      set_node_spec (top.hop l).remote_end tspec (set_node_spec (top.hop l).local_end tspec specs)))

abbrev pub wants_vlans : ServiceSpec → Bool
wants_vlans s = s.tspec.sw_type == l2sc_type && s.tspec.enc_type == enc_eth

abbrev pub fixed_tag : TagSet → ℕ
fixed_tag s = if is_empty s || s.has_any_tag then any_tag else lowest_tag s

unfoldable pub src_vtag : ServiceSpec → ℕ
src_vtag ing = if wants_vlans ing then fixed_tag (get_tag_set ing) else any_tag

unfoldable pub init_check : ServiceSpec → Specs → Check
init_check ing specs =
    let head = if wants_vlans ing then get_tag_set ing else clear (new max_vlan_num) in
    record {
      specs = specs;
      head_vtagset = head;
      next_vtagset = new max_vlan_num;
      head_vtagset_trans = head;
      next_vtagset_trans = new max_vlan_num;
      init_vtagset = clear (new max_vlan_num);
      no_vtag = false;
      no_vtag_trans = false;
      head_waveset = clear (new max_wave_num);
      next_waveset = new max_wave_num;
    }

-- The common tags without translation.
unfoldable pub update_init : TagSet → TagSet → Option TagSet
update_init init next =
    if is_empty init then some next else if is_empty next then some init else intersect init next

abbrev pub with_vtags : Check → TagSet → TagSet → Check
with_vtags c next init = record c {
  next_vtagset = next;
  init_vtagset = init;
  no_vtag = is_empty next;
  head_vtagset = if is_empty next then c.head_vtagset else next;
}

unfoldable pub move_vtags : Topology → ℕ → Check → Verdict Check
move_vtags top l c = do
  next ← asserted (proceed_by_updating_vtags top l c.head_vtagset c.next_vtagset false)
  init ← asserted (update_init c.init_vtagset next)
  fine (with_vtags c next init)

unfoldable pub check_vtags : Topology → ℕ → Check → Verdict Check
check_vtags top l c = if c.no_vtag || is_empty c.head_vtagset then fine c else move_vtags top l c

-- The tags with translation.
abbrev pub with_vtags_trans : Check → TagSet → Check
with_vtags_trans c next = record c {
  next_vtagset_trans = next;
  no_vtag_trans = is_empty next;
  head_vtagset_trans = if is_empty next then c.head_vtagset_trans else next;
}

unfoldable pub move_vtags_trans : Topology → ℕ → Check → Verdict Check
move_vtags_trans top l c = do
  next ← asserted (proceed_by_updating_vtags top l c.head_vtagset_trans c.next_vtagset_trans true)
  fine (with_vtags_trans c next)

unfoldable pub check_vtags_trans : Topology → ℕ → Check → Verdict Check
check_vtags_trans top l c =
    if c.no_vtag_trans || is_empty c.head_vtagset_trans then fine c else move_vtags_trans top l c

abbrev pub with_waves : Check → TagSet → Check
with_waves c next = record c {
  next_waveset = next;
  head_waveset = if is_empty next then c.head_waveset else next;
}

unfoldable pub move_waves : Hop → Check → Verdict Check
move_waves link c = do
  next ← asserted (proceed_by_updating_waves link c.head_waveset c.next_waveset true)
  refuse_if (is_empty next) (with_waves c next)

unfoldable pub check_waves : Hop → Tspec → Check → Verdict Check
check_waves link tspec c =
    if tspec.sw_type == lsc_type && not (is_empty c.head_waveset) then move_waves link c else fine c

abbrev pub with_region : Check → ℕ → Tspec → TagSet → Check
with_region c n tspec waves = record c {
  specs = set_node_spec (some n) tspec c.specs;
  head_waveset = waves;
}

-- The wavelengths where a path enters a region of them.
unfoldable pub region_waves : Hop → Tspec → TagSet → Option TagSet
region_waves link tspec waves =
    if tspec.sw_type == lsc_type then init_next_region_tag_set link tspec waves else some waves

-- The specification for the next link, which starts at the node `n`.
unfoldable pub cross_region : Topology → Hop → Tspec → Hop → ℕ → Check → Verdict Check
cross_region top link tspec next n c = do
  adapted ← asserted (get_next_region_tspec top link tspec (c.specs.of_node n) (some next))
  waves ← asserted (region_waves link adapted.0 c.head_waveset)
  fine (with_region c n adapted.0 waves)

unfoldable pub enter_region : Topology → Hop → Tspec → Hop → Option ℕ → Check → Verdict Check
enter_region top link tspec next none c = fault
enter_region top link tspec next (some n) c =
    if crossing_region_boundary top link tspec (some next)
    then cross_region top link tspec next n c
    else fine (with_region c n tspec c.head_waveset)

unfoldable pub prepare_next : Topology → Hop → Tspec → List ℕ → Check → Verdict Check
prepare_next top link tspec [] c = fine c
prepare_next top link tspec (l ∷ path) c =
    enter_region top link tspec (top.hop l) (top.hop l).local_end c

-- A round of the loop, for the link `l` with the links of `path` after it. Both ends of the link have been found.
unfoldable pub check_link : Topology → Bool → ℕ → List ℕ → ℕ → Check → Verdict Check
check_link top is_first l path n c = do
  let link = top.hop l
  let tspec = c.specs.of_node n
  c₁ ← refuse_if (not (is_available_for_tspec tspec link.sw_cap_descriptors)) c
  c₂ ← check_vtags top l c₁
  c₃ ← refuse_if (c₂.no_vtag && is_first) c₂
  c₄ ← check_vtags_trans top l c₃
  c₅ ← refuse_if (c₄.no_vtag && c₄.no_vtag_trans) c₄
  c₆ ← check_waves link tspec c₅
  prepare_next top link tspec path c₆

abbrev has_descriptor : List Iscd → Bool
has_descriptor [] = false
has_descriptor (iscd ∷ iscds) = true

-- The first test of a round.
unfoldable pub ends_of : Hop → Option ℕ
ends_of link =
    if has_descriptor link.sw_cap_descriptors
    then elim link.local_end [
      | none ↦ none
      | some n ↦ elim link.remote_end [ none ↦ none | some m ↦ some n ]
    ]
    else none

unfoldable pub check_ends : Topology → Bool → ℕ → List ℕ → Option ℕ → Check → Verdict Check
check_ends top is_first l path none c = refused c.specs
check_ends top is_first l path (some n) c = check_link top is_first l path n c

unfoldable pub check_path : Topology → Bool → List ℕ → Check → Verdict Check
check_path top is_first [] c = fine c
check_path top is_first (l ∷ path) c =
    check_ends top is_first l path (ends_of (top.hop l)) c >>= check_path top false path
