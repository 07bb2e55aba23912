-- ===== src/Delta/Bandwidth.antt =====
-- The bandwidth that `Apply` takes and `Revoke` gives back, src/resvManager/reservation.cc.
use mxtce_geni_scs.Base.{
  ℕ, ◌+◌, ◌^◌, ◌≤◌, max, ◌<◌, ◌≡◌, refl, ◌∙◌, Bool, true, false, Option, some, List, [], ◌∷◌, map,
  All, arith, Option-cases, inl, inr, Bool-cases,
}
use mxtce_geni_scs.Delta.{
  Delta, Link, Kind, Labels, plain_link, reserve, unreserve, apply_bandwidth, revoke_bandwidth,
  apply_labels, revoke_labels, change_link, apply_to, revoke_from,
}
use mathlib.Core.Path.{subst}
use mxtce_geni_scs.TagSet.{TagSet}

-- No priority has more unreserved than the link can give.
abbrev pub InBounds : Link → Type 0
InBounds l = All (λ u. u ≤ l.max_reservable_bandwidth) l.unreserved_bandwidth

pub change_link_keeps :
    (change : ℕ → TagSet → Labels → Option Labels) (k : Kind) (l l' : Link)
    → change_link change k l ≡ some l'
    → (l'.unreserved_bandwidth ≡ l.unreserved_bandwidth)
      × (l'.max_reservable_bandwidth ≡ l.max_reservable_bandwidth)
unfolding change_link
change_link_keeps change plain_link l l' e = ground arith
change_link_keeps change kind l l' e = ground arith

reserve-InBounds :
    (bandwidth max : ℕ) (us : List ℕ)
    → All (λ u. u ≤ max) us
    → All (λ u. u ≤ max) (map (reserve bandwidth) us)
unfolding reserve
reserve-InBounds bandwidth max [] h = tt
reserve-InBounds bandwidth max (u ∷ us) h = (ground arith, reserve-InBounds bandwidth max us h.1)

reserve-takes :
    (bandwidth max_bandwidth : ℕ) (us : List ℕ)
    → max_bandwidth < 2 ^ 64
    → All (λ u. u ≤ max_bandwidth) us
    → map (λ u. u + bandwidth) (map (reserve bandwidth) us) ≡ map (max bandwidth) us
unfolding reserve
reserve-takes bandwidth max_bandwidth [] small h = refl
reserve-takes bandwidth max_bandwidth (u ∷ us) small h =
    ground (arith, reserve-takes bandwidth max_bandwidth us small h.1)

unreserve-InBounds :
    (bandwidth max : ℕ) (us : List ℕ) → All (λ u. u ≤ max) (map (unreserve max bandwidth) us)
unfolding unreserve
unreserve-InBounds bandwidth max [] = tt
unreserve-InBounds bandwidth max (u ∷ us) = (ground arith, unreserve-InBounds bandwidth max us)

-- What an `Apply` or a `Revoke` that is not a no-op does, besides the descriptors.
pub record Changed (f : ℕ → ℕ) (now_applied : Bool) (d d' : Delta) (l l' : Link) : Type 0 where
  pub unreserved : l'.unreserved_bandwidth ≡ map f l.unreserved_bandwidth
  pub same_max : l'.max_reservable_bandwidth ≡ l.max_reservable_bandwidth
  pub flag : d'.applied ≡ now_applied
  pub same_kind : d'.kind ≡ d.kind
  pub same_bandwidth : d'.bandwidth ≡ d.bandwidth

module _ (now : ℕ) (d d' : Delta) (l l' : Link) where
  pub apply_to-Changed :
      d.applied ≡ false
      → apply_to now d l ≡ some (d', l')
      → Changed (reserve d.bandwidth) true d d' l l'
  unfolding apply_to apply_bandwidth
  apply_to-Changed fresh e =
      elim (Option-cases (change_link apply_labels d.kind (apply_bandwidth d l))) [
        | inl fails ↦ absurd (ground arith)
        | inr (l'', ok) ↦
            let keeps = change_link_keeps apply_labels d.kind (apply_bandwidth d l) l'' ok in
            ground arith
      ]

  pub revoke_from-Changed :
      d.applied ≡ true
      → revoke_from now d l ≡ some (d', l')
      → Changed (unreserve l.max_reservable_bandwidth d.bandwidth) false d d' l l'
  unfolding revoke_from revoke_bandwidth
  revoke_from-Changed held e =
      elim (Option-cases (change_link revoke_labels d.kind (revoke_bandwidth d l))) [
        | inl fails ↦ absurd (ground arith)
        | inr (l'', ok) ↦
            let keeps = change_link_keeps revoke_labels d.kind (revoke_bandwidth d l) l'' ok in
            ground arith
      ]

  -- When `Apply` of a delta of any class that is not applied succeeds, on a link whose priorities are within the
  -- reservable bandwidth, below 2^64, then at each priority what is left and the delta's bandwidth make the larger of
  -- what there was and the delta's bandwidth: it is taken in full, or all that there was. The priorities stay
  -- within the reservable bandwidth, and the delta is applied.
  pub apply_to-takes :
      l.max_reservable_bandwidth < 2 ^ 64
      → InBounds l
      → d.applied ≡ false
      → apply_to now d l ≡ some (d', l')
      → (map (λ u. u + d.bandwidth) l'.unreserved_bandwidth
          ≡ map (max d.bandwidth) l.unreserved_bandwidth)
        × InBounds l'
        × (d'.applied ≡ true)
  apply_to-takes small h fresh e =
      let c = apply_to-Changed fresh e in
      (
        rw c.unreserved
            (reserve-takes d.bandwidth l.max_reservable_bandwidth l.unreserved_bandwidth small h),
        rw (c.unreserved, c.same_max) (reserve-InBounds d.bandwidth _ l.unreserved_bandwidth h),
        c.flag,
      )

  -- An `Apply` of any class that succeeds keeps the unreserved bandwidth of every priority within the
  -- reservable one.
  pub apply_to-InBounds : InBounds l → apply_to now d l ≡ some (d', l') → InBounds l'
  apply_to-InBounds h e = elim (Bool-cases d.applied) [
    | inl held ↦ let same : l ≡ l' = unfold apply_to in ground arith in subst InBounds same h
    | inr fresh ↦
        let c = apply_to-Changed fresh e in
        rw (c.unreserved, c.same_max) (reserve-InBounds d.bandwidth _ l.unreserved_bandwidth h)
  ]

  -- A `Revoke` of any class that succeeds keeps the unreserved bandwidth of every priority within the
  -- reservable one.
  pub revoke_from-InBounds : InBounds l → revoke_from now d l ≡ some (d', l') → InBounds l'
  revoke_from-InBounds h e = elim (Bool-cases d.applied) [
    | inl held ↦
        let c = revoke_from-Changed held e in
        rw (c.unreserved, c.same_max) (unreserve-InBounds d.bandwidth _ l.unreserved_bandwidth)
    | inr fresh ↦ let same : l ≡ l' = unfold revoke_from in ground arith in subst InBounds same h
  ]

unreserve-reserve :
    (max bandwidth : ℕ) (us : List ℕ)
    → max < 2 ^ 63
    → All (λ u. (bandwidth ≤ u) × (u ≤ max)) us
    → map (unreserve max bandwidth) (map (reserve bandwidth) us) ≡ us
unfolding reserve unreserve
unreserve-reserve max bandwidth [] small h = refl
unreserve-reserve max bandwidth (u ∷ us) small h =
    ground (arith, unreserve-reserve max bandwidth us small h.1)

over_committed :
    (max bandwidth : ℕ) (us : List ℕ)
    → max < 2 ^ 63
    → bandwidth ≤ max
    → All (λ u. u < bandwidth) us
    → map (unreserve max bandwidth) (map (reserve bandwidth) us) ≡ map (λ u. bandwidth) us
unfolding reserve unreserve
over_committed max bandwidth [] small fits h = refl
over_committed max bandwidth (u ∷ us) small fits h =
    ground (arith, over_committed max bandwidth us small fits h.1)

module _ (now later : ℕ) (d d₁ d₂ : Delta) (l l₁ l₂ : Link) (fresh : d.applied ≡ false)
    (applies : apply_to now d l ≡ some (d₁, l₁)) (revokes : revoke_from later d₁ l₁ ≡ some (d₂, l₂))
    (small : l.max_reservable_bandwidth < 2 ^ 63) where
  twice :
      l₂.unreserved_bandwidth
      ≡ map
          (unreserve l.max_reservable_bandwidth d.bandwidth)
          (map (reserve d.bandwidth) l.unreserved_bandwidth)
  twice =
      let c = apply_to-Changed now d d₁ l l₁ fresh applies in
      let r = revoke_from-Changed later d₁ d₂ l₁ l₂ c.flag revokes in
      rw (r.unreserved, c.same_max, c.same_bandwidth, c.unreserved)

  -- When `Apply` and then `Revoke` of a delta that is not applied succeed, on a link that has its bandwidth to
  -- give at every priority and less than 2^63 of it, the unreserved bandwidth is as it was before, and
  -- the delta is not applied.
  pub revoke_from-apply_to :
      All (λ u. (d.bandwidth ≤ u) × (u ≤ l.max_reservable_bandwidth)) l.unreserved_bandwidth
      → (l₂.unreserved_bandwidth ≡ l.unreserved_bandwidth) × (d₂.applied ≡ false)
  revoke_from-apply_to room =
      let c = apply_to-Changed now d d₁ l l₁ fresh applies in
      let r = revoke_from-Changed later d₁ d₂ l₁ l₂ c.flag revokes in
      (
        twice
            ∙ unreserve-reserve l.max_reservable_bandwidth d.bandwidth l.unreserved_bandwidth small
                room,
        r.flag,
      )

  -- When `Apply` and then `Revoke` of a delta that is not applied succeed, on a link that has less than its
  -- bandwidth at every priority and could reserve as much, below 2^63, each priority ends with the
  -- delta's bandwidth, more than it had.
  pub revoke_from-apply_to_excess :
      All (λ u. u < d.bandwidth) l.unreserved_bandwidth
      → d.bandwidth ≤ l.max_reservable_bandwidth
      → l₂.unreserved_bandwidth ≡ map (λ u. d.bandwidth) l.unreserved_bandwidth
  revoke_from-apply_to_excess over fits =
      twice
      ∙ over_committed l.max_reservable_bandwidth d.bandwidth l.unreserved_bandwidth small fits over
