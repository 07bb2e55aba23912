-- ===== src/Hop/Crossing.antt =====
-- Whether a path goes from one switching region to another over a link, and the specification and the tags that it then has: the
-- methods of `TLink` in src/tedbManager/tewg.cc from `CrossingRegionBoundary` to `InitNextRegionTagSet`.
use mxtce_geni_scs.Base.{
  ℕ, ◌*◌, Bool, true, false, not, ◌&&◌, Option, none, some, List, [], ◌∷◌, length, ltb, ◌==◌,
  if◌then◌else◌, ◌>>=◌,
}
use mxtce_geni_scs.TagSet.{TagSet, any_tag, add_tag}
use mxtce_geni_scs.Delta.{Iscd, lsc_type}
use mxtce_geni_scs.Path.{Tspec}
use mxtce_geni_scs.Hop.{Hop, Iacd, Topology, wave_labels, find_iscd}

-- The tests for the types of a specification.
abbrev pub has_types : ℕ → ℕ → Iscd → Bool
has_types sw_type enc_type iscd = iscd.switching_type == sw_type && iscd.encoding_type == enc_type

unfoldable pub any_iscd : (Iscd → Bool) → List Iscd → Bool
any_iscd test [] = false
any_iscd test (iscd ∷ iscds) = let rest = any_iscd test iscds in if test iscd then true else rest

abbrev pub is_lower : Tspec → Iacd → Bool
is_lower tspec iacd = iacd.lower_sw_type == tspec.sw_type && iacd.lower_enc_type == tspec.enc_type

abbrev pub is_upper : Tspec → Iacd → Bool
is_upper tspec iacd = iacd.upper_sw_type == tspec.sw_type && iacd.upper_enc_type == tspec.enc_type

unfoldable pub adapts : Tspec → List Iacd → Bool
adapts tspec [] = false
adapts tspec (iacd ∷ iacds) =
    let rest = adapts tspec iacds in
    if is_lower tspec iacd then true else if is_upper tspec iacd then true else rest

abbrev pub the_sw_type : List Iscd → Option ℕ
the_sw_type [] = none
the_sw_type (iscd ∷ iscds) = some iscd.switching_type

abbrev differ : Option ℕ → Option ℕ → Option Bool
differ a b = do x ← a; y ← b; some (not (x == y))

-- Adaptation without an adaptation descriptor.
unfoldable pub adapts_implicitly : List Iscd → List Iscd → Bool
adapts_implicitly here there =
    if ltb 1 (length here * length there)
    then true
    else elim (differ (the_sw_type here) (the_sw_type there)) [
      | none ↦ false
      | some different ↦ different
    ]

unfoldable pub crossing_region_boundary : Topology → Hop → Tspec → Option Hop → Bool
crossing_region_boundary top this tspec next =
    let fits = any_iscd (has_types tspec.sw_type tspec.enc_type) in
    let crosses = if adapts tspec this.adj_cap_descriptors then true else elim this.remote_link [
      | none ↦ false
      | some remote ↦ adapts_implicitly this.sw_cap_descriptors (top.hop remote).sw_cap_descriptors
    ] in
    elim next [
      | none ↦ crosses
      | some link ↦
          if fits this.sw_cap_descriptors && fits link.sw_cap_descriptors then false else crosses
    ]

-- Whether the next link, if there is one, has the types.
abbrev pub leads_on : ℕ → ℕ → Option Hop → Bool
leads_on sw_type enc_type none = true
leads_on sw_type enc_type (some link) =
    any_iscd (has_types sw_type enc_type) link.sw_cap_descriptors

-- The types after the adaptation by the first descriptor that serves.
unfoldable pub adapt : Tspec → Option Hop → List Iacd → Option (ℕ × ℕ)
adapt here next [] = none
adapt here next (iacd ∷ iacds) =
    let rest = adapt here next iacds in
    if is_lower here iacd && leads_on iacd.upper_sw_type iacd.upper_enc_type next
    then some (iacd.upper_sw_type, iacd.upper_enc_type)
    else if is_upper here iacd && leads_on iacd.lower_sw_type iacd.lower_enc_type next
    then some (iacd.lower_sw_type, iacd.lower_enc_type)
    else rest

abbrev pub set_types : Tspec → ℕ → ℕ → Tspec
set_types tspec sw_type enc_type = record tspec { sw_type = sw_type; enc_type = enc_type }

-- `iscd_adapted`. The sizes are those of the lists of adaptation descriptors.
unfoldable pub adapted_iscd : Tspec → Hop → Hop → Option (Option Iscd)
adapted_iscd tspec this remote =
    let several =
      if ltb 1 (length this.adj_cap_descriptors * length remote.adj_cap_descriptors)
      then find_iscd (λ iscd. not (iscd.switching_type == tspec.sw_type)) remote.sw_cap_descriptors
      else none in
    if (length this.adj_cap_descriptors == 1) && (length remote.adj_cap_descriptors == 1)
    then (do
      different ←
          differ (the_sw_type this.sw_cap_descriptors) (the_sw_type remote.sw_cap_descriptors)
      if different then some (find_iscd (λ iscd. true) remote.sw_cap_descriptors) else some several)
    else some several

-- `here` is the specification at the local end of the link, and the specification that is changed is that of
-- the next link's.
unfoldable pub get_next_region_tspec :
    Topology → Hop → Tspec → Tspec → Option Hop → Option (Tspec × Bool)
get_next_region_tspec top this here tspec next = elim (adapt here next this.adj_cap_descriptors) [
  | some (sw_type, enc_type) ↦ some (set_types tspec sw_type enc_type, true)
  | none ↦ elim this.remote_link [
    | none ↦ some (tspec, false)
    | some remote ↦ do
      adapted ← adapted_iscd tspec this (top.hop remote)
      elim adapted [
        | none ↦ some (tspec, false)
        | some iscd ↦ some (set_types tspec iscd.switching_type iscd.encoding_type, true)
      ]
  ]
]

unfoldable pub init_next_region_tag_set : Hop → Tspec → TagSet → Option TagSet
init_next_region_tag_set this tspec head =
    elim (if tspec.sw_type == lsc_type
      then find_iscd (has_types tspec.sw_type tspec.enc_type) this.sw_cap_descriptors
      else none) [
        | none ↦ add_tag head any_tag
        | some iscd ↦ do labels ← wave_labels iscd.layer; some labels.0.available
      ]
