-- ===== src/Verify/Continuity.antt =====
-- Which VLAN tags are left after the loop of `TPath::VerifyTEConstraints` in src/tedbManager/tewg.cc.
use mathlib.Core.Path.{subst}
use mxtce_geni_scs.Base.{
  ℕ, ◌≡◌, ap, refl, sym, ◌∙◌, Bool, true, false, not, ◌&&◌, ◌||◌, Option, none, some, List, [], ◌∷◌,
  arith, if◌then◌else◌,
}
use mxtce_geni_scs.TagSet.{TagSet, is_empty}
use mxtce_geni_scs.TagSet.Combine.{allows}
use mxtce_geni_scs.TagSet.Vlans.{IsVlans, IsVlan}
use mxtce_geni_scs.Path.{is_available_for_tspec}
use mxtce_geni_scs.Hop.{Topology, proceed_by_updating_vtags}
use mxtce_geni_scs.Hop.Vlans.{IsSoundTopology}
use mxtce_geni_scs.Hop.Passing.{passes, proceed_by_updating_vtags-passes}
use mxtce_geni_scs.Verify.Loop.{
  Check, Verdict, fault, refused, fine, ◌>>=◌, asserted, refuse_if, check_vtags, check_vtags_trans,
  check_waves, check_ends, with_vtags, move_vtags, check_link, check_path, ends_of, update_init,
}
use mxtce_geni_scs.Verify.Untouched.{
  Ensures, Ensures-if, Ensures-asserted, Ensures-bind, Ensures-weaker, Kept, refuse_if-Kept,
  check_vtags_trans-Kept, check_waves-Kept, prepare_next-Kept,
}
use mxtce_geni_scs.TagSet.{clear, new, max_vlan_num}
use mxtce_geni_scs.TagSet.Vlans.{vlans-new}
use mxtce_geni_scs.Verify.Loop.{ServiceSpec, Specs, wants_vlans, get_tag_set, init_check}

if_either :
    (P : TagSet → Type 0)
    → (test : Bool) → (s t : TagSet) → (test ≡ true → P s)
    → (test ≡ false → P t)
    → P (if test then s else t)
if_either P true s t h k = h refl
if_either P false s t h k = k refl

-- `good` holds of every tag that has come through, as long as the path can have one tag from end to end.
record IsContinuous (good : ℕ → Bool) (c : Check) : Type 0 where
  head_vlans : IsVlans c.head_vtagset
  next_vlans : IsVlans c.next_vtagset
  not_empty : is_empty c.head_vtagset ≡ false
  good_head :
      c.no_vtag ≡ false → (u : ℕ) → IsVlan u → allows c.head_vtagset u ≡ true → good u ≡ true
  good_next :
      c.no_vtag ≡ false → (u : ℕ) → IsVlan u → allows c.next_vtagset u ≡ true → good u ≡ true

-- What the rest of a round leaves alone.
abbrev tags : Check → TagSet × TagSet × Bool
tags c = (c.head_vtagset, c.next_vtagset, c.no_vtag)

Kept-IsContinuous :
    (good : ℕ → Bool)
    → (c c' : Check) → IsContinuous good c
    → tags c' ≡ tags c
    → IsContinuous good c'
Kept-IsContinuous good c c' h same =
    let same_head : c'.head_vtagset ≡ c.head_vtagset = ap (λ t. t.0) same in
    let same_next : c'.next_vtagset ≡ c.next_vtagset = ap (λ t. t.1) same in
    let same_no_vtag : c'.no_vtag ≡ c.no_vtag = ap (λ t. t.2) same in
    record {
      head_vlans = subst IsVlans (sym same_head) h.head_vlans;
      next_vlans = subst IsVlans (sym same_next) h.next_vlans;
      not_empty = subst (λ s. is_empty s ≡ false) (sym same_head) h.not_empty;
      good_head = λ free u named a.
          h.good_head (sym same_no_vtag ∙ free) u named
            (subst (λ s. allows s u ≡ true) same_head a);
      good_next = λ free u named a.
          h.good_next (sym same_no_vtag ∙ free) u named
            (subst (λ s. allows s u ≡ true) same_next a);
    }

-- The tags that pass all links of a path.
unfoldable pub passes_path : Topology → List ℕ → ℕ → Bool
passes_path top [] u = true
passes_path top (l ∷ path) u = passes top l u && passes_path top path u

module _ (top : Topology) (sound : IsSoundTopology top) where
  module _ (good : ℕ → Bool) (l : ℕ) (c : Check) (h : IsContinuous good c) where
    abbrev still_good : ℕ → Bool
    still_good u = good u && passes top l u

    with_vtags-IsContinuous :
        c.no_vtag ≡ false
        → (next init : TagSet)
        → proceed_by_updating_vtags top l c.head_vtagset c.next_vtagset false ≡ some next
        → IsContinuous still_good (with_vtags c next init)
    with_vtags-IsContinuous free next init e =
        let (r, e', vr, members) =
          proceed_by_updating_vtags-passes top sound l c.head_vtagset c.next_vtagset h.head_vlans
            h.next_vlans in
        let same : r ≡ next = ground (arith, sym e' ∙ e) in
        let vn = subst IsVlans same vr in
        let through : (u : ℕ) → IsVlan u → allows next u ≡ true → still_good u ≡ true = λ u named a.
          let b = subst (λ s. allows s u ≡ true) (sym same) a in
          ground (arith, members u named, b, h.good_head free u named) in
        record {
          head_vlans =
              if_either IsVlans (is_empty next) c.head_vtagset next (λ _. h.head_vlans) (λ _. vn);
          next_vlans = vn;
          not_empty =
              if_either (λ s. is_empty s ≡ false) (is_empty next) c.head_vtagset next
                (λ _. h.not_empty) (λ full. full);
          good_head = λ full u named a.
              through u named
                (subst (λ b. allows (if b then c.head_vtagset else next) u ≡ true) full a);
          good_next = λ _ u named a. through u named a;
        }

    stuck-IsContinuous : c.no_vtag ≡ true → IsContinuous still_good c
    stuck-IsContinuous stuck = record {
      head_vlans = h.head_vlans;
      next_vlans = h.next_vlans;
      not_empty = h.not_empty;
      good_head = λ free. absurd (ground (arith, stuck, free));
      good_next = λ free. absurd (ground (arith, stuck, free));
    }

    check_vtags-IsContinuous : Ensures (IsContinuous still_good) (check_vtags top l c)
    unfolding check_vtags move_vtags
    check_vtags-IsContinuous =
        Ensures-if (IsContinuous still_good) (c.no_vtag || is_empty c.head_vtagset) (fine c)
          (move_vtags top l c) (λ test. stuck-IsContinuous (ground (arith, test, h.not_empty)))
          (λ test.
            Ensures-asserted (IsContinuous still_good)
              (proceed_by_updating_vtags top l c.head_vtagset c.next_vtagset false)
              (λ next. asserted (update_init c.init_vtagset next) >>= λ init.
                fine (with_vtags c next init))
              (λ next e.
                Ensures-asserted (IsContinuous still_good) (update_init c.init_vtagset next)
                  (λ init. fine (with_vtags c next init))
                  (λ init _. with_vtags-IsContinuous (ground (arith, test)) next init e)))

  -- A step that leaves the tags alone.
  leave_alone :
      (good : ℕ → Bool)
      → (c : Check) → (m : Verdict Check) → IsContinuous good c
      → Ensures (Kept tags c) m
      → Ensures (IsContinuous good) m
  leave_alone good c fault h same = tt
  leave_alone good c (refused specs) h same = tt
  leave_alone good c (fine c') h same = Kept-IsContinuous good c c' h same

  check_link-IsContinuous :
      (good : ℕ → Bool)
      → (is_first : Bool) → (l : ℕ) → (path : List ℕ) → (n : ℕ) → (c : Check) → IsContinuous good c
      → Ensures (IsContinuous (λ u. good u && passes top l u)) (check_link top is_first l path n c)
  unfolding check_link
  check_link-IsContinuous good is_first l path n c h =
      let P = IsContinuous good in
      let Q = IsContinuous (λ u. good u && passes top l u) in
      let still = λ (u : ℕ). good u && passes top l u in
      let link = top.hop l in
      let tspec = c.specs.of_node n in
      Ensures-bind P Q (refuse_if (not (is_available_for_tspec tspec link.sw_cap_descriptors)) c) _
        (leave_alone good c _ h (refuse_if-Kept tags _ c))
        (λ c₁ h₁.
          Ensures-bind Q Q (check_vtags top l c₁) _ (check_vtags-IsContinuous good l c₁ h₁)
            (λ c₂ h₂.
              Ensures-bind Q Q (refuse_if (c₂.no_vtag && is_first) c₂) _
                (leave_alone still c₂ _ h₂ (refuse_if-Kept tags _ c₂))
                (λ c₃ h₃.
                  Ensures-bind Q Q (check_vtags_trans top l c₃) _
                    (leave_alone still c₃ _ h₃
                      (check_vtags_trans-Kept tags (λ c next. refl) top l c₃))
                    (λ c₄ h₄.
                      Ensures-bind Q Q (refuse_if (c₄.no_vtag && c₄.no_vtag_trans) c₄) _
                        (leave_alone still c₄ _ h₄ (refuse_if-Kept tags _ c₄))
                        (λ c₅ h₅.
                          Ensures-bind Q Q (check_waves link tspec c₅) _
                            (leave_alone still c₅ _ h₅
                              (check_waves-Kept tags (λ c next. refl) link tspec c₅))
                            (λ c₆ h₆. leave_alone still c₆ _ h₆ (
                              prepare_next-Kept tags (λ c n t w. refl) top link tspec path c₆)))))))

  check_ends-IsContinuous :
      (good : ℕ → Bool)
      → (is_first : Bool) → (l : ℕ) → (path : List ℕ) → (end : Option ℕ) → (c : Check)
      → IsContinuous good c
      → Ensures
          (IsContinuous (λ u. good u && passes top l u))
          (check_ends top is_first l path end c)
  unfolding check_ends
  check_ends-IsContinuous good is_first l path none c h = tt
  check_ends-IsContinuous good is_first l path (some n) c h =
      check_link-IsContinuous good is_first l path n c h

  weaker :
      (good good' : ℕ → Bool)
      → ((u : ℕ) → good u ≡ true → good' u ≡ true)
      → (c : Check) → IsContinuous good c
      → IsContinuous good' c
  weaker good good' w c h = record {
    head_vlans = h.head_vlans;
    next_vlans = h.next_vlans;
    not_empty = h.not_empty;
    good_head = λ free u named a. w u (h.good_head free u named a);
    good_next = λ free u named a. w u (h.good_next free u named a);
  }

  check_path-IsContinuous :
      (path : List ℕ)
      → (good : ℕ → Bool) → (is_first : Bool) → (c : Check) → IsContinuous good c
      → Ensures
          (IsContinuous (λ u. good u && passes_path top path u))
          (check_path top is_first path c)
  unfolding check_path passes_path
  check_path-IsContinuous [] good is_first c h =
      weaker good (λ u. good u && true) (λ u g. ground (arith, g)) c h
  check_path-IsContinuous (l ∷ path) good is_first c h =
      let here = λ (u : ℕ). good u && passes top l u in
      let all = λ (u : ℕ). good u && (passes top l u && passes_path top path u) in
      Ensures-bind (IsContinuous here) (IsContinuous all)
        (check_ends top is_first l path (ends_of (top.hop l)) c) (check_path top false path)
        (check_ends-IsContinuous good is_first l path (ends_of (top.hop l)) c h)
        (λ c' h'.
          Ensures-weaker (IsContinuous (λ u. here u && passes_path top path u)) (IsContinuous all)
            (check_path top false path c')
            (weaker (λ u. here u && passes_path top path u) all (λ u g. ground (arith, g)))
            (check_path-IsContinuous path here false c' h'))

  module _ (ing : ServiceSpec) (specs : Specs) (wanted : wants_vlans ing ≡ true)
      (vlans : IsVlans (get_tag_set ing)) (some_tag : is_empty (get_tag_set ing) ≡ false) where
    init_check-IsContinuous : IsContinuous (allows (get_tag_set ing)) (init_check ing specs)
    unfolding init_check
    init_check-IsContinuous =
        let (new_vlans, none_in) = vlans-new in
        record {
          head_vlans =
              if_either IsVlans (wants_vlans ing) _ _ (λ _. vlans)
                (λ no. absurd (ground (arith, wanted, no)));
          next_vlans = new_vlans;
          not_empty = ground (arith, wanted, some_tag);
          good_head = λ _ u named a.
              subst (λ b. allows (if b then get_tag_set ing else clear (new max_vlan_num)) u ≡ true)
                wanted a;
          good_next = λ _ u named a. absurd (unfold new in ground (arith, none_in u named, a));
        }

    -- After the loop of `VerifyTEConstraints` over a path, for a request for VLANs with a tag at all, as long as the path can
    -- have one tag from end to end: every tag in the last set is admitted by the request, and on every
    -- link with VLAN tags it is available and not assigned on a link of its two ends.
    pub check_path-Continuous :
        (path : List ℕ)
        → (c : Check) → check_path top true path (init_check ing specs) ≡ fine c
        → c.no_vtag ≡ false
        → (u : ℕ) → IsVlan u
        → allows c.next_vtagset u ≡ true
        → (allows (get_tag_set ing) u ≡ true) × (passes_path top path u ≡ true)
    check_path-Continuous path c done free u named a =
        let all =
          check_path-IsContinuous path (allows (get_tag_set ing)) true (init_check ing specs)
            init_check-IsContinuous in
        let good =
          (subst
              (Ensures (IsContinuous (λ u. allows (get_tag_set ing) u && passes_path top path u)))
              done all).good_next
            free u named a in
        ground (arith, good)
