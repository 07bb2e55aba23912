-- ===== src/Hop/Untranslated.antt =====
-- `TLink::ProceedByUpdatingVtags` of src/tedbManager/tewg.cc on links that do not translate VLAN tags.
use mxtce_geni_scs.Base.{◌≡◌, ℕ, Bool, true, false, some, arith, Option-cases, inl, inr}
use mxtce_geni_scs.TagSet.{TagSet}
use mxtce_geni_scs.Delta.{Labels, Iscd}
use mxtce_geni_scs.Hop.{
  Topology, vlan_labels, find_iscd, is_vlan_iscd, load_vtags, proceed_by_updating_vtags,
}

-- The descriptor for VLANs that a link has does not translate.
unfoldable pub NoTranslation : Topology → Type 0
NoTranslation top =
    (l : ℕ)
    → (iscd : Iscd) → (labels : Labels) → (translation : Bool)
    → find_iscd is_vlan_iscd (top.hop l).sw_cap_descriptors ≡ some iscd
    → vlan_labels iscd.layer ≡ some (labels, translation)
    → translation ≡ false

module _ (top : Topology) (fixed : NoTranslation top) (this : ℕ) (head next : TagSet) where
  -- On such links it does not matter whether translation is asked for.
  pub proceed_by_updating_vtags-fixed :
      proceed_by_updating_vtags top this head next true
      ≡ proceed_by_updating_vtags top this head next false
  unfolding proceed_by_updating_vtags load_vtags NoTranslation
  proceed_by_updating_vtags-fixed =
      elim (Option-cases (find_iscd is_vlan_iscd (top.hop this).sw_cap_descriptors)) [
        | inl missing ↦ ground (arith, missing)
        | inr (iscd, is) ↦ elim (Option-cases (vlan_labels iscd.layer)) [
          | inl other ↦ ground (arith, is, other)
          | inr ((labels, translation), e) ↦
              let never = fixed this iscd labels translation is e in ground (arith, is, e, never)
        ]
      ]
