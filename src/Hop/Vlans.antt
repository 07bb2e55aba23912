-- ===== src/Hop/Vlans.antt =====
-- `TLink::ProceedByUpdatingVtags` and `TLink::ExcludeAllocatedVtags` of src/tedbManager/tewg.cc.
use mxtce_geni_scs.Base.{
  ℕ, ◌≡◌, ap, refl, ◌∙◌, Bool, true, false, not, ◌&&◌, ◌||◌, Option, none, some, List, [], ◌∷◌, All,
  ◌==◌, arith, Bool-cases, inl, inr, ◌>>=◌, if◌then◌else◌,
}
use mxtce_geni_scs.TagSet.{TagSet, delete_bitmask, has_tag, max_vlan_num}
use mxtce_geni_scs.TagSet.Vlans.{IsVlans, IsVlan, vlans-delete}
use mxtce_geni_scs.Delta.{Layer, l2sc, Iscd, l2sc_type}
use mxtce_geni_scs.Hop.{
  Topology, vlan_labels, exclude_iscd, exclude_link, exclude_local, exclude_remote,
  exclude_allocated_vtags, exclude_links, exclude_neighbours,
}

-- A descriptor of the switching type of VLANs has sets of VLAN tags.
abbrev pub HoldsVlans : Layer → Type 0
HoldsVlans (l2sc labels translation) = IsVlans labels.available × IsVlans labels.assigned
HoldsVlans layer = ⊥

unfoldable pub IsSoundIscd : Iscd → Type 0
IsSoundIscd iscd = iscd.switching_type ≡ l2sc_type → HoldsVlans iscd.layer

abbrev pub IsSoundTopology : Topology → Type 0
IsSoundTopology top = (l : ℕ) → All IsSoundIscd (top.hop l).sw_cap_descriptors

-- Whether a tag is assigned on a link.
abbrev pub layer_assigns : Layer → ℕ → Bool
layer_assigns (l2sc labels translation) u = has_tag labels.assigned u
layer_assigns layer u = false

unfoldable pub iscd_assigns : Iscd → ℕ → Bool
iscd_assigns iscd u = iscd.switching_type == l2sc_type && layer_assigns iscd.layer u

unfoldable pub assigns : List Iscd → ℕ → Bool
assigns [] u = false
assigns (iscd ∷ iscds) u = iscd_assigns iscd u || assigns iscds u

unfoldable pub any_assigns : Topology → (ℕ → Bool) → List ℕ → ℕ → Bool
any_assigns top skips [] u = false
any_assigns top skips (l ∷ links) u =
    not (skips l) && assigns (top.hop l).sw_cap_descriptors u || any_assigns top skips links u

-- Whether a tag is assigned on a link that starts or ends where the link does, but for the link itself where
-- the code leaves it out.
abbrev pub local_assigns : Topology → ℕ → Option ℕ → ℕ → Bool
local_assigns top this none u = false
local_assigns top this (some n) u =
    any_assigns top (λ l. false) (top.remote_links n) u
    || any_assigns top (λ l. l == this) (top.local_links n) u

abbrev pub remote_assigns : Topology → ℕ → Option ℕ → ℕ → Bool
remote_assigns top this none u = false
remote_assigns top this (some n) u =
    any_assigns top (λ l. l == this) (top.remote_links n) u
    || any_assigns top (λ l. false) (top.local_links n) u

unfoldable pub is_taken : Topology → ℕ → ℕ → Bool
is_taken top this u =
    local_assigns top this (top.hop this).local_end u
    || remote_assigns top this (top.hop this).remote_end u

-- What is left of `s` without the tags of `out`.
pub record Excludes (s : TagSet) (out : ℕ → Bool) (r : TagSet) : Type 0 where
  pub vlans : IsVlans r
  pub same_any : r.has_any_tag ≡ s.has_any_tag
  pub members : (u : ℕ) → IsVlan u → has_tag r u ≡ (has_tag s u && not (out u))

abbrev pub Succeeds : TagSet → (ℕ → Bool) → Option TagSet → Type 0
Succeeds s out result = (r : TagSet) × (result ≡ some r) × Excludes s out r

nothing_out : (s : TagSet) → IsVlans s → Excludes s (λ u. false) s
nothing_out s v = record { vlans = v; same_any = refl; members = λ u h. ground arith }

-- One exclusion after another.
Succeeds-bind :
    (s : TagSet)
    → (out out' both : ℕ → Bool) → (result : Option TagSet) → (next : TagSet → Option TagSet)
    → ((u : ℕ) → both u ≡ (out u || out' u))
    → Succeeds s out result
    → ((r : TagSet) → IsVlans r → Succeeds r out' (next r))
    → Succeeds s both (result >>= next)
Succeeds-bind s out out' both result next e (r, is, h) goes =
    let (t, is', k) = goes r h.vlans in
    (
      t,
      ap (λ m. m >>= next) is ∙ is',
      record {
        vlans = k.vlans;
        same_any = k.same_any ∙ h.same_any;
        members = λ u named. ground (arith, e u, h.members u named, k.members u named);
      },
    )

exclude_layer :
    (layer : Layer)
    → HoldsVlans layer
    → (s : TagSet) → IsVlans s
    → Succeeds s
        (layer_assigns layer)
        (vlan_labels layer >>= λ labels. delete_bitmask s labels.0.assigned.byte_array max_vlan_num)
exclude_layer (l2sc labels translation) h s v =
    let (r, e, vlans, any, members) = vlans-delete s labels.assigned v h.1 in
    (r, e, record { vlans = vlans; same_any = any; members = members })
exclude_layer layer h s v = elim h [ ]

exclude_if :
    (wanted : Bool)
    → (layer : Layer) → (wanted ≡ true → HoldsVlans layer)
    → (s : TagSet) → IsVlans s
    → Succeeds s
        (λ u. wanted && layer_assigns layer u)
        (if wanted
          then (vlan_labels layer >>= λ labels.
              delete_bitmask s labels.0.assigned.byte_array max_vlan_num)
          else some s)
exclude_if true layer h s v = exclude_layer layer (h refl) s v
exclude_if false layer h s v = (s, refl, nothing_out s v)

exclude_iscd-Excludes :
    (iscd : Iscd)
    → IsSoundIscd iscd
    → (s : TagSet) → IsVlans s
    → Succeeds s (iscd_assigns iscd) (exclude_iscd iscd s)
unfolding exclude_iscd iscd_assigns IsSoundIscd
exclude_iscd-Excludes iscd sound s v =
    exclude_if (iscd.switching_type == l2sc_type) iscd.layer (λ is. sound (ground (arith, is))) s v

exclude_allocated_vtags-Excludes :
    (iscds : List Iscd)
    → All IsSoundIscd iscds
    → (s : TagSet) → IsVlans s
    → Succeeds s (assigns iscds) (exclude_allocated_vtags iscds s)
unfolding exclude_allocated_vtags assigns
exclude_allocated_vtags-Excludes [] sound s v = (s, refl, nothing_out s v)
exclude_allocated_vtags-Excludes (iscd ∷ iscds) (here, sound) s v =
    Succeeds-bind s (iscd_assigns iscd) (assigns iscds) (assigns (iscd ∷ iscds))
      (exclude_iscd iscd s) (exclude_allocated_vtags iscds) (λ u. refl)
      (exclude_iscd-Excludes iscd here s v) (exclude_allocated_vtags-Excludes iscds sound)

module _ (top : Topology) (sound : IsSoundTopology top) where
  exclude_link-Excludes :
      (skips : ℕ → Bool)
      → (l : ℕ) → (s : TagSet) → IsVlans s
      → Succeeds s
          (λ u. not (skips l) && assigns (top.hop l).sw_cap_descriptors u)
          (exclude_link top skips l s)
  unfolding exclude_link
  exclude_link-Excludes skips l s v = elim (Bool-cases (skips l)) [
    | inl skip ↦ rw skip (s, refl, nothing_out s v)
    | inr take ↦
        rw take (exclude_allocated_vtags-Excludes (top.hop l).sw_cap_descriptors (sound l) s v)
  ]

  exclude_links-Excludes :
      (skips : ℕ → Bool)
      → (links : List ℕ) → (s : TagSet) → IsVlans s
      → Succeeds s (any_assigns top skips links) (exclude_links top skips links s)
  unfolding exclude_links any_assigns
  exclude_links-Excludes skips [] s v = (s, refl, nothing_out s v)
  exclude_links-Excludes skips (l ∷ links) s v =
      Succeeds-bind s (λ u. not (skips l) && assigns (top.hop l).sw_cap_descriptors u)
        (any_assigns top skips links) (any_assigns top skips (l ∷ links))
        (exclude_link top skips l s) (exclude_links top skips links) (λ u. refl)
        (exclude_link-Excludes skips l s v) (exclude_links-Excludes skips links)

  exclude_two :
      (skips skips' : ℕ → Bool)
      → (links links' : List ℕ) → (s : TagSet) → IsVlans s
      → Succeeds s
          (λ u. any_assigns top skips links u || any_assigns top skips' links' u)
          (exclude_links top skips links s >>= exclude_links top skips' links')
  exclude_two skips skips' links links' s v =
      Succeeds-bind s (any_assigns top skips links) (any_assigns top skips' links')
        (λ u. any_assigns top skips links u || any_assigns top skips' links' u)
        (exclude_links top skips links s) (exclude_links top skips' links') (λ u. refl)
        (exclude_links-Excludes skips links s v) (exclude_links-Excludes skips' links')

  exclude_local-Excludes :
      (this : ℕ)
      → (end : Option ℕ) → (s : TagSet) → IsVlans s
      → Succeeds s (local_assigns top this end) (exclude_local top this end s)
  unfolding exclude_local
  exclude_local-Excludes this none s v = (s, refl, nothing_out s v)
  exclude_local-Excludes this (some n) s v =
      exclude_two (λ l. false) (λ l. l == this) (top.remote_links n) (top.local_links n) s v

  exclude_remote-Excludes :
      (this : ℕ)
      → (end : Option ℕ) → (s : TagSet) → IsVlans s
      → Succeeds s (remote_assigns top this end) (exclude_remote top this end s)
  unfolding exclude_remote
  exclude_remote-Excludes this none s v = (s, refl, nothing_out s v)
  exclude_remote-Excludes this (some n) s v =
      exclude_two (λ l. l == this) (λ l. false) (top.remote_links n) (top.local_links n) s v

  pub exclude_neighbours-Excludes :
      (this : ℕ)
      → (s : TagSet) → IsVlans s
      → Succeeds s (is_taken top this) (exclude_neighbours top this s)
  unfolding exclude_neighbours is_taken
  exclude_neighbours-Excludes this s v =
      Succeeds-bind s (local_assigns top this (top.hop this).local_end)
        (remote_assigns top this (top.hop this).remote_end) (is_taken top this)
        (exclude_local top this (top.hop this).local_end s)
        (exclude_remote top this (top.hop this).remote_end) (λ u. refl)
        (exclude_local-Excludes this (top.hop this).local_end s v)
        (exclude_remote-Excludes this (top.hop this).remote_end)
