-- ===== src/Hop/Regions.antt =====
-- `TLink::CrossingRegionBoundary` and `TLink::GetNextRegionTspec` of src/tedbManager/tewg.cc.
use mathlib.Core.Path.{subst}
use mxtce_geni_scs.Base.{
  ℕ, ◌*◌, ◌<◌, ◌≡◌, refl, ap, sym, ◌++◌, true, false, ◌&&◌, Option, some, List, [], ◌∷◌, length,
  arith, Bool-cases, inl, inr,
}
use mxtce_geni_scs.Path.{Tspec}
use mxtce_geni_scs.Hop.{Hop, Iacd, Topology}
use mxtce_geni_scs.Hop.Crossing.{
  any_iscd, has_types, adapts, adapts_implicitly, leads_on, adapt, adapted_iscd,
  crossing_region_boundary, get_next_region_tspec, is_lower, is_upper, set_types,
}

adapted_to :
    (next : Option Hop)
    → (sw_type enc_type sw_type' enc_type' : ℕ)
    → ◌≡◌ {A = Option (ℕ × ℕ)} (some (sw_type, enc_type)) (some (sw_type', enc_type'))
    → leads_on sw_type enc_type next ≡ true
    → leads_on sw_type' enc_type' next ≡ true
adapted_to next sw_type enc_type sw_type' enc_type' e h =
    let same : sw_type ≡ sw_type' = ground (arith, e) in
    let same' : enc_type ≡ enc_type' = ground (arith, e) in
    subst (λ a. leads_on a enc_type' next ≡ true) same
      (subst (λ b. leads_on sw_type b next ≡ true) same' h)

adapt-leads_on :
    (here : Tspec)
    → (next : Option Hop) → (iacds : List Iacd) → (sw_type enc_type : ℕ)
    → adapt here next iacds ≡ some (sw_type, enc_type)
    → leads_on sw_type enc_type next ≡ true
unfolding adapt
adapt-leads_on here next [] sw_type enc_type h = ground (arith, h)
adapt-leads_on here next (iacd ∷ iacds) sw_type enc_type h =
    elim (Bool-cases (is_lower here iacd && leads_on iacd.upper_sw_type iacd.upper_enc_type next)) [
      | inl up ↦
          adapted_to next iacd.upper_sw_type iacd.upper_enc_type sw_type enc_type
            (ground (arith, h, up)) (ground (arith, up))
      | inr flat ↦
          elim (Bool-cases
            (is_upper here iacd && leads_on iacd.lower_sw_type iacd.lower_enc_type next)) [
              | inl down ↦
                  adapted_to next iacd.lower_sw_type iacd.lower_enc_type sw_type enc_type
                    (ground (arith, h, flat, down)) (ground (arith, down))
              | inr level ↦
                  adapt-leads_on here next iacds sw_type enc_type (ground (arith, h, flat, level))
            ]
    ]

-- An adaptation descriptor joins the types of a specification, in one layer, to other types in the other layer.
pub data Joins (here : Tspec) (iacd : Iacd) : ℕ → ℕ → Type 0 where
  upwards :
      iacd.lower_sw_type ≡ here.sw_type
      → iacd.lower_enc_type ≡ here.enc_type
      → Joins here iacd iacd.upper_sw_type iacd.upper_enc_type
  downwards :
      iacd.upper_sw_type ≡ here.sw_type
      → iacd.upper_enc_type ≡ here.enc_type
      → Joins here iacd iacd.lower_sw_type iacd.lower_enc_type

-- Some descriptor of the list joins the specification to the types.
abbrev pub AnyJoins : Tspec → List Iacd → ℕ → ℕ → Type 0
AnyJoins here iacds sw_type enc_type =
    (front back : List Iacd) × (iacd : Iacd) × (iacds ≡ front ++ iacd ∷ back)
    × Joins here iacd sw_type enc_type

-- The types that the loop finds.
abbrev Adapted : Tspec → Option Hop → List Iacd → Type 0
Adapted here next iacds =
    (sw_type enc_type : ℕ) × (adapt here next iacds ≡ some (sw_type, enc_type))
    × AnyJoins here iacds sw_type enc_type

adapt-here :
    (here : Tspec)
    → (next : Option Hop) → (iacd : Iacd) → (back : List Iacd) → (sw_type enc_type : ℕ)
    → Joins here iacd sw_type enc_type
    → leads_on sw_type enc_type next ≡ true
    → Adapted here next (iacd ∷ back)
unfolding adapt
adapt-here here next iacd back _ _ (upwards sw enc) leads = (
  iacd.upper_sw_type,
  iacd.upper_enc_type,
  ground (arith, sw, enc, leads),
  ([], back, iacd, refl, upwards sw enc),
)
adapt-here here next iacd back _ _ (downwards sw enc) leads =
    elim (Bool-cases (is_lower here iacd && leads_on iacd.upper_sw_type iacd.upper_enc_type next)) [
      | inl up ↦ (
        iacd.upper_sw_type,
        iacd.upper_enc_type,
        ground (arith, up),
        ([], back, iacd, refl, upwards (ground (arith, up)) (ground (arith, up))),
      )
      | inr flat ↦ (
        iacd.lower_sw_type,
        iacd.lower_enc_type,
        ground (arith, sw, enc, leads, flat),
        ([], back, iacd, refl, downwards sw enc),
      )
    ]

adapt-Adapted :
    (here : Tspec)
    → (next : Option Hop) → (front back : List Iacd) → (iacd : Iacd) → (sw_type enc_type : ℕ)
    → Joins here iacd sw_type enc_type
    → leads_on sw_type enc_type next ≡ true
    → Adapted here next (front ++ iacd ∷ back)
unfolding adapt
adapt-Adapted here next [] back iacd sw_type enc_type joins leads =
    adapt-here here next iacd back sw_type enc_type joins leads
adapt-Adapted here next (first ∷ front) back iacd sw_type enc_type joins leads =
    elim (Bool-cases
      (is_lower here first && leads_on first.upper_sw_type first.upper_enc_type next)) [
        | inl up ↦
            adapt-here here next first (front ++ iacd ∷ back) first.upper_sw_type
              first.upper_enc_type (upwards (ground (arith, up)) (ground (arith, up)))
              (ground (arith, up))
        | inr flat ↦
            elim (Bool-cases
              (is_upper here first && leads_on first.lower_sw_type first.lower_enc_type next)) [
                | inl down ↦
                    adapt-here here next first (front ++ iacd ∷ back) first.lower_sw_type
                      first.lower_enc_type (downwards (ground (arith, down)) (ground (arith, down)))
                      (ground (arith, down))
                | inr level ↦
                    let (sw, enc, e, (front', back', iacd', same, joins')) =
                      adapt-Adapted here next front back iacd sw_type enc_type joins leads in
                    (
                      sw,
                      enc,
                      ground (arith, flat, level, e),
                      (first ∷ front', back', iacd', ap (λ list. first ∷ list) same, joins'),
                    )
              ]
      ]

-- When some adaptation descriptor of a link joins, upwards or downwards, the types of the specification at the link to types
-- that the next link has, if one is given, `GetNextRegionTspec` adapts: it keeps the bandwidth, and sets types that a
-- descriptor of the link joins to those of the specification at the link, and that a next link that is given has.
pub get_next_region_tspec-AnyJoins :
    (top : Topology)
    → (this : Hop) → (here tspec : Tspec) → (next : Option Hop) → (sw_type enc_type : ℕ)
    → AnyJoins here this.adj_cap_descriptors sw_type enc_type
    → leads_on sw_type enc_type next ≡ true
    → (t : Tspec) × (get_next_region_tspec top this here tspec next ≡ some (t, true))
      × AnyJoins here this.adj_cap_descriptors t.sw_type t.enc_type
      × (leads_on t.sw_type t.enc_type next ≡ true)
      × (t.bandwidth ≡ tspec.bandwidth)
unfolding get_next_region_tspec
get_next_region_tspec-AnyJoins top this here tspec next sw_type enc_type
      (front, back, iacd, there, joins) leads =
    let (sw, enc, e, any) =
      subst (Adapted here next) (sym there)
        (adapt-Adapted here next front back iacd sw_type enc_type joins leads) in
    (
      set_types tspec sw enc,
      ground (arith, e),
      any,
      adapt-leads_on here next this.adj_cap_descriptors sw enc e,
      refl,
    )

-- When neither a link nor its remote link has an adaptation descriptor, and the specification does not fit both the link and the
-- next one, `CrossingRegionBoundary` sees a boundary as soon as one of the two has several switching
-- descriptors, but `GetNextRegionTspec`, which counts the adaptation descriptors, leaves the specification as it is.
pub implicit_crossing_lost :
    (top : Topology)
    → (this link : Hop) → (remote : ℕ) → (here tspec : Tspec) → this.remote_link ≡ some remote
    → this.adj_cap_descriptors ≡ []
    → (top.hop remote).adj_cap_descriptors ≡ []
    → 1 < length this.sw_cap_descriptors * length (top.hop remote).sw_cap_descriptors
    → (any_iscd (has_types here.sw_type here.enc_type) this.sw_cap_descriptors
        && any_iscd (has_types here.sw_type here.enc_type) link.sw_cap_descriptors)
      ≡ false
    → (crossing_region_boundary top this here (some link) ≡ true)
      × (get_next_region_tspec top this here tspec (some link) ≡ some (tspec, false))
unfolding crossing_region_boundary get_next_region_tspec adapts adapts_implicitly adapt adapted_iscd
implicit_crossing_lost top this link remote here tspec paired bare bare' several apart =
    (ground (arith, paired, bare, apart, several), ground (arith, paired, bare, bare'))
