-- ===== src/Path/Specs.antt =====
-- What `TLink::IsAvailableForTspec` and `TLink::VerifyEdgeLinkTSpec` of src/tedbManager/tewg.cc ask of a link.
use mathlib.Core.Path.{subst}
use mxtce_geni_scs.Base.{
  ℕ, ◌≤◌, ◌≡◌, ◌↔◌, ◌⊎◌, inl, inr, refl, sym, ◌∙◌, Bool, true, false, ◌&&◌, ◌||◌, List, [], ◌∷◌,
  leb, ◌==◌, arith, Bool-cases,
}
use mxtce_geni_scs.Delta.{Iscd, lsc_type, fsc_type}
use mxtce_geni_scs.Path.{
  Tspec, update, same_tspec, within_tspec, shares_bandwidth, is_available_for_tspec,
  verify_edge_link_tspec,
}

-- One descriptor serves a specification: it has the same types, and bandwidth enough where that counts,
-- or exactly as much; for wavelengths and fibers bandwidth does not count.
unfoldable pub serves : Tspec → Iscd → Bool
serves t iscd =
    (t.sw_type == iscd.switching_type)
    && (t.enc_type == iscd.encoding_type)
    && ((t.bandwidth == iscd.capacity)
        || (t.sw_type == lsc_type)
        || (t.sw_type == fsc_type)
        || leb t.bandwidth iscd.capacity && shares_bandwidth t.sw_type)

-- The same, but wavelengths and fibers want exactly the bandwidth.
unfoldable pub serves_edge : Tspec → Iscd → Bool
serves_edge t iscd =
    (t.sw_type == iscd.switching_type)
    && (t.enc_type == iscd.encoding_type)
    && ((t.bandwidth == iscd.capacity)
        || leb t.bandwidth iscd.capacity && shares_bandwidth t.sw_type)

unfoldable pub any_serves : (Iscd → Bool) → List Iscd → Bool
any_serves test [] = false
any_serves test (iscd ∷ iscds) = test iscd || any_serves test iscds

-- Packets, VLANs and time slots take a part of the bandwidth of a link; wavelengths and fibers take all of it.
pub data IsShared : ℕ → Type 0 where
  packets : {sw_type : ℕ} → 1 ≤ sw_type → sw_type ≤ 4 → IsShared sw_type
  vlans : IsShared 51
  timeslots : IsShared 100

pub data IsWhole : ℕ → Type 0 where
  wavelengths : IsWhole 150
  fibers : IsWhole 200

-- What a descriptor of the same types has to give: a part, all of it, or just what is asked for.
pub data Gives (asked : Tspec) (iscd : Iscd) : Type 0 where
  part : IsShared asked.sw_type → asked.bandwidth ≤ iscd.capacity → Gives asked iscd
  whole : IsWhole asked.sw_type → Gives asked iscd
  exact : asked.bandwidth ≡ iscd.capacity → Gives asked iscd

pub record Serves (asked : Tspec) (iscd : Iscd) : Type 0 where
  pub same_sw : iscd.switching_type ≡ asked.sw_type
  pub same_enc : iscd.encoding_type ≡ asked.enc_type
  pub enough : Gives asked iscd

unfoldable pub AnyServes : Tspec → List Iscd → Type 0
AnyServes asked [] = ⊥
AnyServes asked (iscd ∷ iscds) = Serves asked iscd ⊎ AnyServes asked iscds

shares-IsShared : (sw_type : ℕ) → shares_bandwidth sw_type ≡ true → IsShared sw_type
unfolding shares_bandwidth
shares-IsShared sw_type h = elim (Bool-cases (sw_type == 51)) [
  | inl same ↦ subst IsShared (ground (arith, same)) vlans
  | inr not_vlans ↦ elim (Bool-cases (sw_type == 100)) [
    | inl same ↦ subst IsShared (ground (arith, same)) timeslots
    | inr not_slots ↦
        packets (ground (arith, h, not_vlans, not_slots)) (ground (arith, h, not_vlans, not_slots))
  ]
]

IsShared-shares : {sw_type : ℕ} → IsShared sw_type → shares_bandwidth sw_type ≡ true
unfolding shares_bandwidth
IsShared-shares (packets low high) = ground (arith, low, high)
IsShared-shares vlans = refl
IsShared-shares timeslots = refl

IsWhole-type :
    {sw_type : ℕ} → IsWhole sw_type → (sw_type == lsc_type) || (sw_type == fsc_type) ≡ true
IsWhole-type wavelengths = refl
IsWhole-type fibers = refl

type-IsWhole :
    (sw_type : ℕ) → (sw_type == lsc_type) || (sw_type == fsc_type) ≡ true → IsWhole sw_type
type-IsWhole sw_type h = elim (Bool-cases (sw_type == lsc_type)) [
  | inl same ↦ subst IsWhole (ground (arith, same)) wavelengths
  | inr other ↦ subst IsWhole (ground (arith, h, other)) fibers
]

serves-Serves : (asked : Tspec) → (iscd : Iscd) → serves asked iscd ≡ true → Serves asked iscd
unfolding serves
serves-Serves asked iscd h = record {
  same_sw = ground (arith, h);
  same_enc = ground (arith, h);
  enough = elim (Bool-cases (asked.bandwidth == iscd.capacity)) [
    | inl same ↦ exact (ground (arith, same))
    | inr other ↦ elim (Bool-cases ((asked.sw_type == lsc_type) || (asked.sw_type == fsc_type))) [
      | inl all ↦ whole (type-IsWhole asked.sw_type all)
      | inr some_of ↦
          part (shares-IsShared asked.sw_type (ground (arith, h, other, some_of)))
            (ground (arith, h, other, some_of))
    ]
  ];
}

Gives-serves :
    (asked : Tspec)
    → (iscd : Iscd) → iscd.switching_type ≡ asked.sw_type
    → iscd.encoding_type ≡ asked.enc_type
    → Gives asked iscd
    → serves asked iscd ≡ true
unfolding serves
Gives-serves asked iscd sw enc (part shared fits) =
    ground (arith, sw, enc, IsShared-shares shared, fits)
Gives-serves asked iscd sw enc (whole all) = ground (arith, sw, enc, IsWhole-type all)
Gives-serves asked iscd sw enc (exact same) = ground (arith, sw, enc, same)

any_serves-AnyServes :
    (t : Tspec) → (iscds : List Iscd) → any_serves (serves t) iscds ≡ true → AnyServes t iscds
unfolding any_serves AnyServes
any_serves-AnyServes t [] h = ground (arith, h)
any_serves-AnyServes t (iscd ∷ iscds) h = elim (Bool-cases (serves t iscd)) [
  | inl is ↦ inl (serves-Serves t iscd is)
  | inr is_not ↦ inr (any_serves-AnyServes t iscds (ground (arith, h, is_not)))
]

AnyServes-any_serves :
    (t : Tspec) → (iscds : List Iscd) → AnyServes t iscds → any_serves (serves t) iscds ≡ true
unfolding any_serves AnyServes
AnyServes-any_serves t [] h = absurd h
AnyServes-any_serves t (iscd ∷ iscds) (inl is) =
    ground (arith, Gives-serves t iscd is.same_sw is.same_enc is.enough)
AnyServes-any_serves t (iscd ∷ iscds) (inr later) =
    ground (arith, AnyServes-any_serves t iscds later)

-- `IsAvailableForTspec` says whether some descriptor of the link serves the specification.
pub is_available_for_tspec-any_serves :
    (t : Tspec) → (iscds : List Iscd) → is_available_for_tspec t iscds ≡ any_serves (serves t) iscds
unfolding is_available_for_tspec any_serves serves same_tspec within_tspec update shares_bandwidth
is_available_for_tspec-any_serves t [] = refl
is_available_for_tspec-any_serves t (iscd ∷ iscds) =
    ground (arith, is_available_for_tspec-any_serves t iscds)

-- `VerifyEdgeLinkTSpec` says whether some descriptor serves the specification at the edge.
pub verify_edge_link_tspec-any_serves :
    (t : Tspec)
    → (iscds : List Iscd) → verify_edge_link_tspec t iscds ≡ any_serves (serves_edge t) iscds
unfolding verify_edge_link_tspec any_serves serves_edge same_tspec within_tspec update
    shares_bandwidth
verify_edge_link_tspec-any_serves t [] = refl
verify_edge_link_tspec-any_serves t (iscd ∷ iscds) =
    ground (arith, verify_edge_link_tspec-any_serves t iscds)

-- `IsAvailableForTspec` holds exactly when some descriptor of the link has the switching and the encoding type of the
-- specification and gives its bandwidth: a part of its capacity for PSC 1 to 4, L2SC (51) and TDM (100), anything for LSC
-- (150) and FSC (200), and just its capacity for any type.
pub is_available_for_tspec_iff :
    (t : Tspec) → (iscds : List Iscd) → (is_available_for_tspec t iscds ≡ true) ↔ AnyServes t iscds
is_available_for_tspec_iff t iscds = (
  λ h. any_serves-AnyServes t iscds (sym (is_available_for_tspec-any_serves t iscds) ∙ h),
  λ h. is_available_for_tspec-any_serves t iscds ∙ AnyServes-any_serves t iscds h,
)
