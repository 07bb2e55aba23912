-- ===== src/Hop/Passing.antt =====
-- Which VLAN tags pass a link in `TLink::ProceedByUpdatingVtags` of src/tedbManager/tewg.cc without translation.
use mathlib.Core.Path.{subst}
use mxtce_geni_scs.Base.{
  ℕ, ◌≡◌, refl, Bool, true, false, not, ◌&&◌, Option, none, some, List, [], ◌∷◌, All, arith,
  Bool-cases, Option-cases, inl, inr, if◌then◌else◌,
}
use mxtce_geni_scs.TagSet.{TagSet, has_tag}
use mxtce_geni_scs.TagSet.Combine.{allows}
use mxtce_geni_scs.TagSet.Vlans.{IsVlans, IsVlan}
use mxtce_geni_scs.Delta.{Labels, Layer, l2sc, Iscd}
use mxtce_geni_scs.Hop.{Topology, find_iscd, is_vlan_iscd, has_labels, proceed_by_updating_vtags}
use mxtce_geni_scs.Hop.Vlans.{IsSoundTopology, IsSoundIscd, HoldsVlans, is_taken}
use mxtce_geni_scs.Hop.Proceeding.{
  HasVlanIscd, proceed_by_updating_vtags-allows, proceed_by_updating_vtags-plain,
  proceed_by_updating_vtags-untagged,
}

abbrev passes_layer : Topology → ℕ → ℕ → Layer → Bool
passes_layer top this u (l2sc labels translation) =
    if has_labels labels then has_tag labels.available u && not (is_taken top this u) else true
passes_layer top this u layer = false

abbrev passes_iscd : Topology → ℕ → ℕ → Option Iscd → Bool
passes_iscd top this u none = true
passes_iscd top this u (some iscd) = passes_layer top this u iscd.layer

-- On a link with VLAN tags, the tags that are available there and not assigned on a link of its two ends.
unfoldable pub passes : Topology → ℕ → ℕ → Bool
passes top this u =
    passes_iscd top this u (find_iscd is_vlan_iscd (top.hop this).sw_cap_descriptors)

find_iscd_sound :
    (iscds : List Iscd)
    → All IsSoundIscd iscds
    → (iscd : Iscd) → find_iscd is_vlan_iscd iscds ≡ some iscd
    → HoldsVlans iscd.layer
unfolding find_iscd IsSoundIscd
find_iscd_sound [] sound iscd h = absurd (ground (arith, h))
find_iscd_sound (first ∷ iscds) (here, sound) iscd h = elim (Bool-cases (is_vlan_iscd first)) [
  | inl is ↦
      let same : first ≡ iscd = ground (arith, h, is) in
      subst (λ d. HoldsVlans d.layer) same (here (ground (arith, is)))
  | inr other ↦ find_iscd_sound iscds sound iscd (ground (arith, h, other))
]

layer_cases :
    (layer : Layer)
    → HoldsVlans layer
    → (labels : Labels) × (translation : Bool) × (layer ≡ l2sc labels translation)
      × IsVlans labels.available
layer_cases (l2sc labels translation) h = (labels, translation, refl, h.0)
layer_cases layer h = elim h [ ]

module _ (top : Topology) (sound : IsSoundTopology top) (this : ℕ) (head next : TagSet)
    (v : IsVlans head) (w : IsVlans next) where
  abbrev Passed : TagSet → Type 0
  Passed r =
      (proceed_by_updating_vtags top this head next false ≡ some r)
      × IsVlans r
      × ((u : ℕ) → IsVlan u → allows r u ≡ (allows head u && passes top this u))

  -- Without translation `ProceedByUpdatingVtags` succeeds, and the tags that come through are those that came to
  -- the link and pass it.
  pub proceed_by_updating_vtags-passes :
      (r : TagSet) × (proceed_by_updating_vtags top this head next false ≡ some r)
      × IsVlans r
      × ((u : ℕ) → IsVlan u → allows r u ≡ (allows head u && passes top this u))
  unfolding passes
  proceed_by_updating_vtags-passes =
      elim (Option-cases (find_iscd is_vlan_iscd (top.hop this).sw_cap_descriptors)) [
        | inl missing ↦ (
          head,
          proceed_by_updating_vtags-plain top sound this head next v w false missing,
          v,
          λ u named. ground (arith, missing),
        )
        | inr (iscd, is) ↦
            let holds = find_iscd_sound (top.hop this).sw_cap_descriptors (sound this) iscd is in
            let (labels, translation, layer, vlans) = layer_cases iscd.layer holds in
            let labelled : HasVlanIscd (top.hop this) labels translation = (iscd, is, layer) in
            elim (Bool-cases (has_labels labels)) [
              | inl tagged ↦
                  let (r, e, vr, members) =
                    proceed_by_updating_vtags-allows top sound this head next v w labels translation
                      false labelled vlans tagged in
                  (r, e, vr, λ u named. ground (arith, members u named, is, layer, tagged))
              | inr untagged ↦ (
                head,
                proceed_by_updating_vtags-untagged top sound this head next v w labels translation
                    false labelled untagged,
                v,
                λ u named. ground (arith, is, layer, untagged),
              )
            ]
      ]
