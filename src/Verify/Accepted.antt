-- ===== src/Verify/Accepted.antt =====
-- What `TPath::VerifyTEConstraints` of src/tedbManager/tewg.cc keeps for a path that it accepts.
use mathlib.Core.Path.{subst}
use mxtce_geni_scs.Base.{
  ℕ, ◌≡◌, ap, refl, sym, ◌∙◌, true, false, not, ◌&&◌, ◌||◌, List, [], ◌∷◌, arith, ltb,
}
use mxtce_geni_scs.TagSet.{TagSet, is_empty, has_tag, new, clear, max_wave_num}
use mxtce_geni_scs.TagSet.Scan.{size}
use mxtce_geni_scs.TagSet.Combine.{allows}
use mxtce_geni_scs.TagSet.Vlans.{IsVlans, IsVlan}
use mxtce_geni_scs.Hop.{Topology}
use mxtce_geni_scs.Hop.Vlans.{IsSoundTopology}
use mxtce_geni_scs.Hop.Untranslated.{NoTranslation}
use mxtce_geni_scs.Verify.Loop.{
  ServiceSpec, Specs, Check, fault, refused, fine, check_path, init_check, init_specs, wants_vlans,
  get_tag_set, src_vtag,
}
use mxtce_geni_scs.Verify.Picks.{
  Picked, kept, Verified, pick, pick_translated, pick_common, is_any, finalize, dst_vtag,
  verify_te_constraints,
}
use mxtce_geni_scs.Verify.Untouched.{Ensures, Ensures-if, Ensures-bind, Ensures-self}
use mxtce_geni_scs.Verify.Continuity.{passes_path, check_path-Continuous}
use mxtce_geni_scs.Verify.Twins.{AreTwins, check_path-AreTwins, init_check-AreTwins}

-- The tags that are kept are those of the loop.
abbrev Keeps : Check → Picked → Type 0
Keeps c tags = (waves : TagSet) × (tags ≡ kept c.next_vtagset waves) × (c.no_vtag ≡ false)

module _ (random : ℕ → ℕ) (src dst : ℕ) (c : Check) (twins : AreTwins c) where
  pick_translated-Keeps : Ensures (Keeps c) (pick_translated random true src dst c)
  unfolding pick_translated
  pick_translated-Keeps =
      let same : c.next_vtagset_trans ≡ c.next_vtagset = ap (λ t. t.next) twins in
      let free : c.no_vtag_trans ≡ c.no_vtag = ap (λ t. t.stuck) twins in
      Ensures-if (Keeps c) (c.no_vtag_trans || not (ltb 0 (size c.next_vtagset_trans))) fault _
        (λ _. tt)
        (λ left.
          Ensures-if (Keeps c) (is_any src && is_empty c.init_vtagset) (refused c.specs) _ (λ _. tt)
            (λ _.
              Ensures-if (Keeps c) (not (is_any dst) && not (has_tag c.next_vtagset_trans dst))
                (refused c.specs) _ (λ _. tt)
                (λ _. (
                  clear (new max_wave_num),
                  ap (λ s. kept s (clear (new max_wave_num))) same,
                  sym free ∙ ground (arith, left),
                ))))

  pick_common-Keeps : c.no_vtag ≡ false → Ensures (Keeps c) (pick_common random true src dst c)
  unfolding pick_common
  pick_common-Keeps free =
      Ensures-if (Keeps c) (not (ltb 0 (size c.next_vtagset))) fault _ (λ _. tt)
        (λ _.
          Ensures-if (Keeps c) (not (is_any dst) && not (has_tag c.next_vtagset dst))
            (refused c.specs) _ (λ _. tt) (λ _. (c.next_waveset, refl, free)))

  pick-Keeps : Ensures (Keeps c) (pick random true src dst c)
  pick-Keeps =
      Ensures-if (Keeps c) (c.no_vtag || not (is_any dst) && not (has_tag c.next_vtagset dst))
        (pick_translated random true src dst c) (pick_common random true src dst c)
        (λ _. pick_translated-Keeps) (λ test. pick_common-Keeps (ground (arith, test)))

module _ (random : ℕ → ℕ) (top : Topology) (sound : IsSoundTopology top) (fixed : NoTranslation top)
    (ing egr : ServiceSpec) (wanted : wants_vlans ing ≡ true) (vlans : IsVlans (get_tag_set ing))
    (some_tag : is_empty (get_tag_set ing) ≡ false) where
  abbrev IsCommon : List ℕ → Verified → Type 0
  IsCommon path v =
      (u : ℕ)
      → IsVlan u
      → allows v.egr_tss.vlan_set u ≡ true
      → (allows (get_tag_set ing) u ≡ true) × (passes_path top path u ≡ true)

  finalize-IsCommon :
      (path : List ℕ)
      → (specs : Specs) → (c : Check) → check_path top true path (init_check ing specs) ≡ fine c
      → (tags : Picked) → Keeps c tags
      → Ensures (IsCommon path) (finalize random ing egr c tags)
  finalize-IsCommon path specs c done tags (waves, is, free) =
      subst (λ t. Ensures (IsCommon path) (finalize random ing egr c t)) (sym is)
        (unfold finalize in
          λ u named a.
            check_path-Continuous top sound ing specs wanted vlans some_tag path c done free u named
              (ground (arith, a)))

  verify_te_constraints-Ensures-IsCommon :
      (path : List ℕ)
      → (specs : Specs)
      → Ensures (IsCommon path) (verify_te_constraints random top path ing egr true specs)
  unfolding verify_te_constraints
  verify_te_constraints-Ensures-IsCommon [] specs = tt
  verify_te_constraints-Ensures-IsCommon (l ∷ path) specs =
      let specs' = init_specs top ing.tspec (l ∷ path) specs in
      let begun = init_check ing specs' in
      let walked = check_path top true (l ∷ path) begun in
      Ensures-bind (λ c. (walked ≡ fine c) × AreTwins c) (IsCommon (l ∷ path)) walked _
        (Ensures-self (λ c. (walked ≡ fine c) × AreTwins c) walked
          (λ c done. (
            done,
            subst (Ensures AreTwins) done (
                check_path-AreTwins top fixed (l ∷ path) true begun
                  (init_check-AreTwins ing specs')),
          )))
        (λ c (done, twins).
          Ensures-bind (Keeps c) (IsCommon (l ∷ path))
            (pick random true (src_vtag ing) (dst_vtag egr) c) (finalize random ing egr c)
            (pick-Keeps random (src_vtag ing) (dst_vtag egr) c twins)
            (finalize-IsCommon (l ∷ path) specs' c done))

  -- When no link translates VLAN tags and all sets of VLAN tags are valid, and `VerifyTEConstraints` accepts a path for a
  -- request for VLANs that has a tag at all and keeps all tags: every tag that the egress then has is admitted by the
  -- request, and on every link of the path with VLAN tags it is available and not assigned on a link of its two ends.
  pub verify_te_constraints-Continuous :
      (path : List ℕ)
      → (specs : Specs) → (v : Verified)
      → verify_te_constraints random top path ing egr true specs ≡ fine v
      → (u : ℕ) → IsVlan u
      → allows v.egr_tss.vlan_set u ≡ true
      → (allows (get_tag_set ing) u ≡ true) × (passes_path top path u ≡ true)
  verify_te_constraints-Continuous path specs v accepted =
      subst (Ensures (IsCommon path)) accepted (verify_te_constraints-Ensures-IsCommon path specs)
