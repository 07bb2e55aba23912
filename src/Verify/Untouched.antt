-- ===== src/Verify/Untouched.antt =====
-- What a round of the loop leaves alone in `TPath::VerifyTEConstraints` in src/tedbManager/tewg.cc.
use mxtce_geni_scs.Base.{
  ℕ, ◌≡◌, refl, Bool, true, false, not, ◌&&◌, ◌||◌, Option, none, some, List, [], ◌∷◌,
  if◌then◌else◌, ◌==◌,
}
use mxtce_geni_scs.TagSet.{TagSet, is_empty}
use mxtce_geni_scs.Path.{Tspec}
use mxtce_geni_scs.Delta.{lsc_type}
use mxtce_geni_scs.Hop.{Hop, Topology, proceed_by_updating_vtags, proceed_by_updating_waves}
use mxtce_geni_scs.Hop.Crossing.{crossing_region_boundary, get_next_region_tspec}
use mxtce_geni_scs.Verify.Loop.{
  Check, Verdict, fault, refused, fine, ◌>>=◌, asserted, refuse_if, check_vtags_trans, check_waves,
  enter_region, cross_region, prepare_next, region_waves, with_vtags_trans, with_waves, with_region,
  move_vtags_trans, move_waves,
}

-- What holds of the value, if there is one.
abbrev pub Ensures {ℓ} : {A : Type ℓ} → (A → Type 0) → Verdict A → Type 0
Ensures Q fault = Unit
Ensures Q (refused specs) = Unit
Ensures Q (fine a) = Q a

pub Ensures-if {ℓ} :
    {A : Type ℓ} (Q : A → Type 0) (test : Bool) (x y : Verdict A)
    → (test ≡ true → Ensures Q x)
    → (test ≡ false → Ensures Q y)
    → Ensures Q (if test then x else y)
Ensures-if Q true x y h k = h refl
Ensures-if Q false x y h k = k refl

pub Ensures-asserted {ℓ κ} :
    {A : Type ℓ} {B : Type κ} (Q : B → Type 0) (o : Option A) (f : A → Verdict B)
    → ((a : A) → o ≡ some a → Ensures Q (f a))
    → Ensures Q (asserted o >>= f)
Ensures-asserted Q none f h = tt
Ensures-asserted Q (some a) f h = h a refl

pub Ensures-bind {ℓ κ} :
    {A : Type ℓ} {B : Type κ} (P : A → Type 0) (Q : B → Type 0) (m : Verdict A) (f : A → Verdict B)
    → Ensures P m
    → ((a : A) → P a → Ensures Q (f a))
    → Ensures Q (m >>= f)
Ensures-bind P Q fault f h k = tt
Ensures-bind P Q (refused specs) f h k = tt
Ensures-bind P Q (fine a) f h k = k a h

pub Ensures-weaker {ℓ} :
    {A : Type ℓ} (P Q : A → Type 0) (m : Verdict A)
    → ((a : A) → P a → Q a)
    → Ensures P m
    → Ensures Q m
Ensures-weaker P Q fault w h = tt
Ensures-weaker P Q (refused specs) w h = tt
Ensures-weaker P Q (fine a) w h = w a h

pub Ensures-self {ℓ} :
    {A : Type ℓ} (P : A → Type 0) (m : Verdict A) → ((a : A) → m ≡ fine a → P a) → Ensures P m
Ensures-self P fault h = tt
Ensures-self P (refused specs) h = tt
Ensures-self P (fine a) h = h a refl

-- A step that leaves what `f` reads of the variables as it was.
module _ {X : Type 0} (f : Check → X) where
  abbrev pub Kept : Check → Check → Type 0
  Kept c c' = f c' ≡ f c

  pub refuse_if-Kept : (test : Bool) → (c : Check) → Ensures (Kept c) (refuse_if test c)
  refuse_if-Kept true c = tt
  refuse_if-Kept false c = refl

  pub check_vtags_trans-Kept :
      ((c : Check) → (next : TagSet) → Kept c (with_vtags_trans c next))
      → (top : Topology) → (l : ℕ) → (c : Check) → Ensures (Kept c) (check_vtags_trans top l c)
  unfolding check_vtags_trans move_vtags_trans
  check_vtags_trans-Kept kept top l c =
      Ensures-if (Kept c) (c.no_vtag_trans || is_empty c.head_vtagset_trans) (fine c)
        (move_vtags_trans top l c) (λ _. refl)
        (λ _.
          Ensures-asserted (Kept c)
            (proceed_by_updating_vtags top l c.head_vtagset_trans c.next_vtagset_trans true)
            (λ next. fine (with_vtags_trans c next)) (λ next _. kept c next))

  pub check_waves-Kept :
      ((c : Check) → (next : TagSet) → Kept c (with_waves c next))
      → (link : Hop) → (tspec : Tspec) → (c : Check) → Ensures (Kept c) (check_waves link tspec c)
  unfolding check_waves move_waves
  check_waves-Kept kept link tspec c =
      Ensures-if (Kept c) (tspec.sw_type == lsc_type && not (is_empty c.head_waveset))
        (move_waves link c) (fine c)
        (λ _.
          Ensures-asserted (Kept c)
            (proceed_by_updating_waves link c.head_waveset c.next_waveset true)
            (λ next. refuse_if (is_empty next) (with_waves c next))
            (λ next _.
              Ensures-if (Kept c) (is_empty next) (refused c.specs) (fine (with_waves c next))
                (λ _. tt) (λ _. kept c next)))
        (λ _. refl)

  module _
      (kept : (c : Check)
        → (n : ℕ) → (tspec : Tspec) → (waves : TagSet) → Kept c (with_region c n tspec waves)) where
    enter_region-Kept :
        (top : Topology)
        → (link : Hop) → (tspec : Tspec) → (next : Hop) → (end : Option ℕ) → (c : Check)
        → Ensures (Kept c) (enter_region top link tspec next end c)
    unfolding enter_region cross_region
    enter_region-Kept top link tspec next none c = tt
    enter_region-Kept top link tspec next (some n) c =
        Ensures-if (Kept c) (crossing_region_boundary top link tspec (some next))
          (cross_region top link tspec next n c) (fine (with_region c n tspec c.head_waveset))
          (λ _.
            Ensures-asserted (Kept c)
              (get_next_region_tspec top link tspec (c.specs.of_node n) (some next))
              (λ adapted. asserted (region_waves link adapted.0 c.head_waveset) >>= λ waves.
                fine (with_region c n adapted.0 waves))
              (λ adapted _.
                Ensures-asserted (Kept c) (region_waves link adapted.0 c.head_waveset)
                  (λ waves. fine (with_region c n adapted.0 waves))
                  (λ waves _. kept c n adapted.0 waves)))
          (λ _. kept c n tspec c.head_waveset)

    pub prepare_next-Kept :
        (top : Topology)
        → (link : Hop) → (tspec : Tspec) → (path : List ℕ) → (c : Check)
        → Ensures (Kept c) (prepare_next top link tspec path c)
    unfolding prepare_next
    prepare_next-Kept top link tspec [] c = refl
    prepare_next-Kept top link tspec (l ∷ path) c =
        enter_region-Kept top link tspec (top.hop l) (top.hop l).local_end c
