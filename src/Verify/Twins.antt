-- ===== src/Verify/Twins.antt =====
-- Without translation, the two sets of tags that `TPath::VerifyTEConstraints` of src/tedbManager/tewg.cc follows are one.
use mathlib.Core.Path.{subst}
use mxtce_geni_scs.Base.{
  ℕ, ◌≡◌, ap, refl, sym, ◌∙◌, Bool, true, false, not, ◌&&◌, ◌||◌, Option, none, some, List, [], ◌∷◌,
  arith, if◌then◌else◌,
}
use mxtce_geni_scs.TagSet.{TagSet, is_empty}
use mxtce_geni_scs.Path.{is_available_for_tspec}
use mxtce_geni_scs.Hop.{Topology, proceed_by_updating_vtags}
use mxtce_geni_scs.Hop.Untranslated.{NoTranslation, proceed_by_updating_vtags-fixed}
use mxtce_geni_scs.Verify.Loop.{
  ServiceSpec, Specs, Check, Verdict, fault, refused, fine, ◌>>=◌, asserted, refuse_if, check_vtags,
  check_vtags_trans, check_waves, check_link, check_ends, check_path, ends_of, init_check,
  move_vtags, move_vtags_trans, with_vtags, with_vtags_trans, update_init,
}
use mxtce_geni_scs.Verify.Untouched.{
  Ensures, Ensures-if, Ensures-asserted, Ensures-bind, Ensures-weaker, Kept, refuse_if-Kept,
  check_waves-Kept, prepare_next-Kept,
}

pub record Track : Type 0 where
  pub head : TagSet
  pub next : TagSet
  pub stuck : Bool

abbrev pub common : Check → Track
common c = record { head = c.head_vtagset; next = c.next_vtagset; stuck = c.no_vtag }

abbrev pub translated : Check → Track
translated c = record {
  head = c.head_vtagset_trans;
  next = c.next_vtagset_trans;
  stuck = c.no_vtag_trans;
}

abbrev pub AreTwins : Check → Type 0
AreTwins c = translated c ≡ common c

some_same : (s t : Track) → ◌≡◌ {A = Option Track} (some s) (some t) → s ≡ t
some_same s t e = ground (arith, e)

-- One track after a link, of which `result` is the set that comes through.
abbrev moved : Track → Option TagSet → Option Track
moved t none = none
moved t (some next) =
    some
      (record { head = if is_empty next then t.head else next; next = next; stuck = is_empty next })

unfoldable move : Topology → ℕ → Bool → Track → Option Track
move top l translates t =
    if t.stuck || is_empty t.head
    then some t
    else moved t (proceed_by_updating_vtags top l t.head t.next translates)

module _ (top : Topology) (fixed : NoTranslation top) (l : ℕ) where
  move-fixed : (t : Track) → move top l true t ≡ move top l false t
  unfolding move
  move-fixed t = rw (proceed_by_updating_vtags-fixed top fixed l t.head t.next) refl

  check_vtags-move :
      (c : Check)
      → Ensures
          (λ c'. (move top l false (common c) ≡ some (common c')) × (translated c' ≡ translated c))
          (check_vtags top l c)
  unfolding check_vtags move_vtags move
  check_vtags-move c =
      let Q = λ (c' : Check).
        (move top l false (common c) ≡ some (common c')) × (translated c' ≡ translated c) in
      Ensures-if Q (c.no_vtag || is_empty c.head_vtagset) (fine c) (move_vtags top l c)
        (λ test. (ground (arith, test), refl))
        (λ test.
          Ensures-asserted Q (proceed_by_updating_vtags top l c.head_vtagset c.next_vtagset false)
            (λ next.
              asserted (update_init c.init_vtagset next) >>= λ init. fine (with_vtags c next init))
            (λ next e.
              Ensures-asserted Q (update_init c.init_vtagset next)
                (λ init. fine (with_vtags c next init))
                (λ init _. (ground (arith, test, e), refl))))

  check_vtags_trans-move :
      (c : Check)
      → Ensures
          (λ c'. (move top l true (translated c) ≡ some (translated c')) × (common c' ≡ common c))
          (check_vtags_trans top l c)
  unfolding check_vtags_trans move_vtags_trans move
  check_vtags_trans-move c =
      let Q = λ (c' : Check).
        (move top l true (translated c) ≡ some (translated c')) × (common c' ≡ common c) in
      Ensures-if Q (c.no_vtag_trans || is_empty c.head_vtagset_trans) (fine c)
        (move_vtags_trans top l c) (λ test. (ground (arith, test), refl))
        (λ test.
          Ensures-asserted Q
            (proceed_by_updating_vtags top l c.head_vtagset_trans c.next_vtagset_trans true)
            (λ next. fine (with_vtags_trans c next)) (λ next e. (ground (arith, test, e), refl)))

-- A step that leaves both tracks alone.
abbrev tracks : Check → Track × Track
tracks c = (common c, translated c)

leave_tracks :
    (P : Track × Track → Type 0)
    → (c : Check) → (m : Verdict Check) → P (tracks c)
    → Ensures (Kept tracks c) m
    → Ensures (λ c'. P (tracks c')) m
leave_tracks P c fault h same = tt
leave_tracks P c (refused specs) h same = tt
leave_tracks P c (fine c') h same = subst P (sym same) h

module _ (top : Topology) (fixed : NoTranslation top) where
  check_ends-AreTwins :
      (is_first : Bool)
      → (l : ℕ) → (path : List ℕ) → (end : Option ℕ) → (c : Check) → AreTwins c
      → Ensures AreTwins (check_ends top is_first l path end c)
  unfolding check_ends check_link
  check_ends-AreTwins is_first l path none c h = tt
  check_ends-AreTwins is_first l path (some n) c h =
      let link = top.hop l in
      let tspec = c.specs.of_node n in
      let Twins = λ (t : Track × Track). t.1 ≡ t.0 in
      let Half = λ (t : Track × Track). move top l false t.1 ≡ some t.0 in
      Ensures-bind AreTwins AreTwins
        (refuse_if (not (is_available_for_tspec tspec link.sw_cap_descriptors)) c) _
        (leave_tracks Twins c _ h (refuse_if-Kept tracks _ c))
        (λ c₁ h₁.
          Ensures-bind (λ c'. Half (tracks c')) AreTwins (check_vtags top l c₁) _
            (Ensures-weaker
              (λ c'.
                (move top l false (common c₁) ≡ some (common c')) × (translated c' ≡ translated c₁))
              (λ c'. Half (tracks c')) (check_vtags top l c₁)
              (λ c' (moves, same). ap (move top l false) (same ∙ h₁) ∙ moves)
              (check_vtags-move top fixed l c₁))
            (λ c₂ h₂.
              Ensures-bind (λ c'. Half (tracks c')) AreTwins (refuse_if (c₂.no_vtag && is_first) c₂)
                _ (leave_tracks Half c₂ _ h₂ (refuse_if-Kept tracks _ c₂))
                (λ c₃ h₃.
                  Ensures-bind AreTwins AreTwins (check_vtags_trans top l c₃) _
                    (Ensures-weaker
                      (λ c'.
                        (move top l true (translated c₃) ≡ some (translated c'))
                        × (common c' ≡ common c₃))
                      AreTwins (check_vtags_trans top l c₃)
                      (λ c' (moves, same).
                        let both = sym moves ∙ move-fixed top fixed l (translated c₃) ∙ h₃ in
                        some_same (translated c') (common c₃) both ∙ sym same)
                      (check_vtags_trans-move top fixed l c₃))
                    (λ c₄ h₄.
                      Ensures-bind AreTwins AreTwins (refuse_if (c₄.no_vtag && c₄.no_vtag_trans) c₄)
                        _ (leave_tracks Twins c₄ _ h₄ (refuse_if-Kept tracks _ c₄))
                        (λ c₅ h₅.
                          Ensures-bind AreTwins AreTwins (check_waves link tspec c₅) _
                            (leave_tracks Twins c₅ _ h₅
                              (check_waves-Kept tracks (λ c next. refl) link tspec c₅))
                            (λ c₆ h₆. leave_tracks Twins c₆ _ h₆ (
                              prepare_next-Kept tracks (λ c n t w. refl) top link tspec path
                                c₆)))))))

  pub check_path-AreTwins :
      (path : List ℕ)
      → (is_first : Bool) → (c : Check) → AreTwins c
      → Ensures AreTwins (check_path top is_first path c)
  unfolding check_path
  check_path-AreTwins [] is_first c h = h
  check_path-AreTwins (l ∷ path) is_first c h =
      Ensures-bind AreTwins AreTwins (check_ends top is_first l path (ends_of (top.hop l)) c)
        (check_path top false path) (check_ends-AreTwins is_first l path (ends_of (top.hop l)) c h)
        (λ c' h'. check_path-AreTwins path false c' h')

pub init_check-AreTwins : (ing : ServiceSpec) → (specs : Specs) → AreTwins (init_check ing specs)
unfolding init_check
init_check-AreTwins ing specs = refl
