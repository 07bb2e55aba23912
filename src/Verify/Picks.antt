-- ===== src/Verify/Picks.antt =====
-- `TPath::VerifyTEConstraints` of src/tedbManager/tewg.cc, with the choice of the tags after its loops.
use mxtce_geni_scs.Base.{
  ℕ, Bool, true, not, ◌&&◌, ◌||◌, Option, none, some, List, [], ◌∷◌, ltb, ◌==◌, if◌then◌else◌,
}
use mxtce_geni_scs.TagSet.{TagSet, new, any_tag, add_tag, clear, is_empty, has_tag, max_wave_num}
use mxtce_geni_scs.TagSet.Scan.{size, random_tag}
use mxtce_geni_scs.Hop.{Topology}
use mxtce_geni_scs.Verify.Loop.{
  ServiceSpec, Specs, Check, Verdict, fault, refused, fine, ◌>>=◌, asserted, wants_vlans, fixed_tag,
  get_tag_set, src_vtag, init_check, init_specs, check_path,
}

-- What the tags end as: the source's and the destination's, or the whole set where `keepAllTags` returns early.
pub data Picked : Type 0 where
  kept : TagSet → TagSet → Picked
  picked : ℕ → ℕ → Picked

abbrev pub is_any : ℕ → Bool
is_any tag = tag == any_tag

-- The branch with translation. The random numbers of the two picks are the first two and the next two.
unfoldable pub pick_translated : (ℕ → ℕ) → Bool → ℕ → ℕ → Check → Verdict Picked
pick_translated random keep_all_tags src dst c =
    if c.no_vtag_trans || not (ltb 0 (size c.next_vtagset_trans))
    then fault
    else if is_any src && is_empty c.init_vtagset
    then refused c.specs
    else if not (is_any dst) && not (has_tag c.next_vtagset_trans dst)
    then refused c.specs
    else if keep_all_tags
    then fine (kept c.next_vtagset_trans (clear (new max_wave_num)))
    else fine (
        picked
          (if is_any src
            then random_tag
                (if c.init_vtagset.has_any_tag then c.next_vtagset_trans else c.init_vtagset)
                (random 0) (random 1)
            else src)
          (if is_any dst then random_tag c.next_vtagset_trans (random 2) (random 3) else dst))

-- One tag stands in for the other, or `tag` for both.
abbrev share_tag : ℕ → ℕ → ℕ → Picked
share_tag src dst tag =
    if is_any src
    then if is_any dst then picked tag tag else picked dst dst
    else picked src (if is_any dst then src else dst)

-- The branch with one tag along the path.
unfoldable pub pick_common : (ℕ → ℕ) → Bool → ℕ → ℕ → Check → Verdict Picked
pick_common random keep_all_tags src dst c =
    if not (ltb 0 (size c.next_vtagset))
    then fault
    else if not (is_any dst) && not (has_tag c.next_vtagset dst)
    then refused c.specs
    else if keep_all_tags
    then fine (kept c.next_vtagset c.next_waveset)
    else fine (share_tag src dst (random_tag c.next_vtagset (random 0) (random 1)))

abbrev pub pick : (ℕ → ℕ) → Bool → ℕ → ℕ → Check → Verdict Picked
pick random keep_all_tags src dst c =
    if c.no_vtag || not (is_any dst) && not (has_tag c.next_vtagset dst)
    then pick_translated random keep_all_tags src dst c
    else pick_common random keep_all_tags src dst c

unfoldable pub set_vlan : ServiceSpec → ℕ → Option ServiceSpec
set_vlan s tag =
    elim (if wants_vlans s then add_tag (clear s.vlan_set) tag else some (clear s.vlan_set)) [
      | none ↦ none
      | some set ↦ some (record s { vlan_set = set })
    ]

unfoldable pub add_wave : ℕ → ServiceSpec → Option ServiceSpec
add_wave wave s = elim (add_tag s.wavelength_set wave) [
  | none ↦ none
  | some set ↦ some (record s { wavelength_set = set })
]

-- The two specifications at the end, with the work data.
pub record Verified : Type 0 where
  pub ing_tss : ServiceSpec
  pub egr_tss : ServiceSpec
  pub specs : Specs

abbrev pub keep_waves : TagSet → ServiceSpec → ServiceSpec
keep_waves waves s = if is_empty waves then s else record s { wavelength_set = waves }

unfoldable pub finalize : (ℕ → ℕ) → ServiceSpec → ServiceSpec → Check → Picked → Verdict Verified
finalize random ing egr c (kept vlans waves) = fine (record {
  ing_tss = ing;
  egr_tss = keep_waves waves (record egr { vlan_set = vlans });
  specs = c.specs;
})
finalize random ing egr c (picked src dst) = do
  ing' ← asserted (set_vlan ing src)
  egr' ← asserted (set_vlan egr dst)
  let wave = random_tag c.next_waveset (random 4) (random 5)
  ing'' ← asserted (if is_empty c.next_waveset then some ing' else add_wave wave ing')
  egr'' ← asserted (if is_empty c.next_waveset then some egr' else add_wave wave egr')
  fine (record { ing_tss = ing''; egr_tss = egr''; specs = c.specs })

unfoldable pub dst_vtag : ServiceSpec → ℕ
dst_vtag egr = if wants_vlans egr then fixed_tag (get_tag_set egr) else any_tag

unfoldable pub verify_te_constraints :
    (ℕ → ℕ) → Topology → List ℕ → ServiceSpec → ServiceSpec → Bool → Specs → Verdict Verified
verify_te_constraints random top [] ing egr keep_all_tags specs = refused specs
verify_te_constraints random top (l ∷ path) ing egr keep_all_tags specs = do
  c ← check_path top true (l ∷ path) (init_check ing (init_specs top ing.tspec (l ∷ path) specs))
  tags ← pick random keep_all_tags (src_vtag ing) (dst_vtag egr) c
  finalize random ing egr c tags
