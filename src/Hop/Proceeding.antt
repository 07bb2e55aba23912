-- ===== src/Hop/Proceeding.antt =====
-- Which VLAN tags `TLink::ProceedByUpdatingVtags` of src/tedbManager/tewg.cc lets through.
use mxtce_geni_scs.Base.{
  ℕ, ◌≡◌, ap, refl, ◌∙◌, Bool, true, false, not, ◌&&◌, ◌||◌, none, some, arith, Bool-cases, inl,
  inr,
}
use mxtce_geni_scs.TagSet.{TagSet, has_tag, clear}
use mxtce_geni_scs.TagSet.Combine.{allows}
use mxtce_geni_scs.TagSet.Vlans.{IsVlans, IsVlan, vlans-add, vlans-intersect, vlans-clear}
use mxtce_geni_scs.Delta.{Labels, l2sc, Iscd}
use mxtce_geni_scs.Hop.{
  Hop, Topology, find_iscd, is_vlan_iscd, load_labels, load_vtags, has_labels, meet_head,
  proceed_by_updating_vtags,
}
use mxtce_geni_scs.Hop.Vlans.{IsSoundTopology, is_taken, exclude_neighbours-Excludes}

-- The descriptor that the method takes, with its tags.
abbrev pub HasVlanIscd : Hop → Labels → Bool → Type 0
HasVlanIscd link labels translation =
    (iscd : Iscd) × (find_iscd is_vlan_iscd link.sw_cap_descriptors ≡ some iscd)
    × (iscd.layer ≡ l2sc labels translation)

module _ (top : Topology) (sound : IsSoundTopology top) (this : ℕ) (head next : TagSet)
    (v : IsVlans head) (w : IsVlans next) where
  -- What comes out of the last tests.
  meet_head-allows :
      (freely : Bool)
      → (s : TagSet) → IsVlans s
      → s.has_any_tag ≡ false
      → (r : TagSet) × (meet_head freely head s ≡ some r)
        × IsVlans r
        × ((u : ℕ) → IsVlan u → allows r u ≡ (has_tag s u && (freely || allows head u)))
  meet_head-allows freely s vs closed = elim (Bool-cases (freely || head.has_any_tag)) [
    | inl open_all ↦ (s, ground (arith, open_all), vs, λ u named. ground (arith, open_all, closed))
    | inr shut ↦
        let (r, e, vr, members) = vlans-intersect s head vs v in
        (r, ground (arith, shut, e), vr, λ u named. ground (arith, shut, closed, members u named))
  ]

  module _ (labels : Labels) (translation do_translation : Bool)
      (labelled : HasVlanIscd (top.hop this) labels translation)
      (vlans : IsVlans labels.available) where
    load_vtags-labels :
        (s : TagSet)
        → load_labels labels (clear next) ≡ some s
        → load_vtags
            (find_iscd is_vlan_iscd (top.hop this).sw_cap_descriptors)
            (clear next)
            do_translation
          ≡ some (s, not (has_labels labels), do_translation && translation)
    unfolding load_vtags
    load_vtags-labels s e = let (iscd, is, layer) = labelled in ground (arith, is, layer, e)

    loaded :
        has_labels labels ≡ true
        → (s : TagSet) × (load_labels labels (clear next) ≡ some s)
          × IsVlans s
          × (s.has_any_tag ≡ false)
          × ((u : ℕ) → IsVlan u → has_tag s u ≡ has_tag labels.available u)
    unfolding load_labels
    loaded some_labels =
        let (empty, none_in) = vlans-clear next w in
        let (s, e, vs, any, members) = vlans-add (clear next) labels.available empty vlans in
        (
          s,
          ground (arith, some_labels, e),
          vs,
          any ∙ (unfold clear in refl),
          λ u named. members u named ∙ ap (λ b. b || has_tag labels.available u) (none_in u named),
        )

    -- On a link with VLAN tags, over valid sets of VLAN tags, `ProceedByUpdatingVtags` succeeds with a valid set that
    -- admits exactly the tags that are available on the link, are not assigned on a link of its two ends and, unless the
    -- tags may be translated on the link, are admitted before the link.
    pub proceed_by_updating_vtags-allows :
        has_labels labels ≡ true
        → (r : TagSet) × (proceed_by_updating_vtags top this head next do_translation ≡ some r)
          × IsVlans r
          × ((u : ℕ)
              → IsVlan u
              → allows r u ≡ (
                  has_tag labels.available u
                  && not (is_taken top this u)
                  && (do_translation && translation || allows head u)))
    unfolding proceed_by_updating_vtags
    proceed_by_updating_vtags-allows some_labels =
        let (s, e, vs, closed, members) = loaded some_labels in
        let (t, e', left) = exclude_neighbours-Excludes top sound this s vs in
        let (r, e'', vr, allowed) =
          meet_head-allows (do_translation && translation) t left.vlans (left.same_any ∙ closed) in
        (
          r,
          ground (arith, load_vtags-labels s e, e', e'', some_labels),
          vr,
          λ u named. ground (arith, allowed u named, left.members u named, members u named),
        )

  -- On a link without VLAN tags `ProceedByUpdatingVtags` lets the set of tags through as it is.
  pub proceed_by_updating_vtags-plain :
      (do_translation : Bool)
      → find_iscd is_vlan_iscd (top.hop this).sw_cap_descriptors ≡ none
      → proceed_by_updating_vtags top this head next do_translation ≡ some head
  unfolding proceed_by_updating_vtags load_vtags
  proceed_by_updating_vtags-plain do_translation h =
      let (empty, _) = vlans-clear next w in
      let (t, e, _) = exclude_neighbours-Excludes top sound this (clear next) empty in
      ground (arith, h, e)

  -- The same on a link whose descriptor has no tags.
  pub proceed_by_updating_vtags-untagged :
      (labels : Labels)
      → (translation do_translation : Bool) → HasVlanIscd (top.hop this) labels translation
      → has_labels labels ≡ false
      → proceed_by_updating_vtags top this head next do_translation ≡ some head
  unfolding proceed_by_updating_vtags load_vtags load_labels
  proceed_by_updating_vtags-untagged labels translation do_translation (iscd, is, layer) untagged =
      let (empty, _) = vlans-clear next w in
      let (t, e, _) = exclude_neighbours-Excludes top sound this (clear next) empty in
      ground (arith, is, layer, untagged, e)
