-- ===== src/Delta/Tags.antt =====
-- The labels that `Apply` takes from an interface and `Revoke` gives back, src/resvManager/reservation.cc.
use mxtce_geni_scs.Base.{
  ℕ, ◌≤◌, ◌<◌, ◌≡◌, ◌≢◌, ◌∙◌, Bool, true, false, not, ◌&&◌, ◌||◌, some, arith, inl, inr, lt-or-le,
  length,
}
use mxtce_geni_scs.TagSet.{TagSet, IsValid, any_tag, slot, has_tag, holds, delete_bitmask, join}
use mxtce_geni_scs.TagSet.Combine.{allows-join}
use mxtce_geni_scs.TagSet.Bitmasks.{SameGrid, has_tag-delete_bitmask}
use mxtce_geni_scs.Delta.{Labels, apply_labels, revoke_labels}

-- Two valid sets over the same `max_num` tags, the second without "any".
pub record OnGrid (max_num : ℕ) (s taken : TagSet) : Type 0 where
  pub IsValid_set : IsValid s
  pub IsValid_taken : IsValid taken
  pub same_grid : SameGrid s taken
  pub all_bits : s.num_bits ≡ max_num
  pub no_any : taken.has_any_tag ≡ false

-- Without "any" in `s`, deleting the mask of `taken` takes out its tags, and joining adds them.
module _ (max_num : ℕ) (s taken : TagSet) (g : OnGrid max_num s taken) where
  abbrev Result : (Bool → Bool → Bool) → TagSet → Type 0
  Result f r =
      OnGrid max_num r taken
      × (r.has_any_tag ≡ s.has_any_tag)
      × ((u : ℕ) → u ≢ any_tag → has_tag r u ≡ f (has_tag s u) (has_tag taken u))

  has_tag-holds :
      (u : ℕ)
      → u ≢ any_tag
      → slot s u < s.num_bits
      → has_tag taken u ≡ holds taken.byte_array (slot s u)
  unfolding has_tag
  has_tag-holds u ne fits =
      ground (arith, g.same_grid.same_bits, g.same_grid.same_base, g.same_grid.same_interval)

  has_tag-past : (u : ℕ) → u ≢ any_tag → s.num_bits ≤ slot s u → has_tag s u ≡ false
  unfolding has_tag
  has_tag-past u ne past = ground arith

  carry : (r : TagSet) → IsValid r → SameGrid r s → OnGrid max_num r taken
  carry r v h = record {
    IsValid_set = v;
    IsValid_taken = g.IsValid_taken;
    same_grid = record {
      same_bits = h.same_bits ∙ g.same_grid.same_bits;
      same_base = h.same_base ∙ g.same_grid.same_base;
      same_interval = h.same_interval ∙ g.same_grid.same_interval;
    };
    all_bits = h.same_bits ∙ g.all_bits;
    no_any = g.no_any;
  }

  past-slot :
      (r : TagSet)
      → SameGrid r s
      → (u : ℕ) → u ≢ any_tag
      → s.num_bits ≤ slot s u
      → has_tag r u ≡ false
  unfolding has_tag
  past-slot r h u ne past = ground (arith, h.same_bits, h.same_base, h.same_interval)

  delete_taken :
      (r : TagSet) × (delete_bitmask s taken.byte_array max_num ≡ some r)
      × Result (λ a b. a && not b) r
  delete_taken =
      let enough : length taken.byte_array ≡ s.num_bytes = omega (
        arith, g.IsValid_set.covers, g.IsValid_taken.covers, g.IsValid_taken.sized,
        g.same_grid.same_bits,
      ) in
      let (r, e, v, h, flag, members) =
        has_tag-delete_bitmask s g.IsValid_set taken.byte_array g.IsValid_taken.bytes enough in
      (
        r,
        rw (← g.all_bits) e,
        (
          carry r v h,
          flag,
          λ u ne. elim (lt-or-le (slot s u) s.num_bits) [
            | inl fits ↦ rw (has_tag-holds u ne fits) (members u ne fits)
            | inr past ↦ rw (past-slot r h u ne past, has_tag-past u ne past)
          ],
        ),
      )

  join_taken :
      s.has_any_tag ≡ false → (r : TagSet) × (join s taken ≡ some r) × Result (λ a b. a || b) r
  join_taken named =
      let (r, e, v, h, flag, members) =
        allows-join s taken g.IsValid_set g.IsValid_taken g.same_grid g.no_any in
      (r, e, (carry r v h, flag, λ u ne. ground (arith, members u ne, g.no_any)))

-- Labels from which `taken` can be taken: all its tags are available, and none is assigned.
pub record CanTake (max_num : ℕ) (taken : TagSet) (labels : Labels) : Type 0 where
  pub available_grid : OnGrid max_num labels.available taken
  pub assigned_grid : OnGrid max_num labels.assigned taken
  pub available_named : labels.available.has_any_tag ≡ false
  pub assigned_named : labels.assigned.has_any_tag ≡ false
  pub free : (u : ℕ) → u ≢ any_tag → has_tag taken u ≡ true → has_tag labels.available u ≡ true
  pub unused : (u : ℕ) → u ≢ any_tag → has_tag taken u ≡ true → has_tag labels.assigned u ≡ false

abbrev pub SameTags : TagSet → TagSet → Type 0
SameTags s t = (u : ℕ) → u ≢ any_tag → has_tag s u ≡ has_tag t u

-- From labels that can be taken `Apply` moves exactly the delta's tags from the available to the
-- assigned ones, and `Revoke` then gives both sets the members that they had.
pub revoke_labels-apply_labels :
    (max_num : ℕ) (taken : TagSet) (labels : Labels)
    → CanTake max_num taken labels
    → (mid : Labels) × (end : Labels) × (apply_labels max_num taken labels ≡ some mid)
      × (revoke_labels max_num taken mid ≡ some end)
      × ((u : ℕ)
          → u ≢ any_tag
          → (has_tag mid.available u ≡ (has_tag labels.available u && not (has_tag taken u)))
            × (has_tag mid.assigned u ≡ (has_tag labels.assigned u || has_tag taken u)))
      × SameTags end.available labels.available
      × SameTags end.assigned labels.assigned
unfolding apply_labels revoke_labels
revoke_labels-apply_labels max_num taken labels c =
    let (a₁, ea₁, (ga₁, fa₁, ma₁)) = delete_taken max_num labels.available taken c.available_grid in
    let (s₁, es₁, (gs₁, fs₁, ms₁)) =
      join_taken max_num labels.assigned taken c.assigned_grid c.assigned_named in
    let (a₂, ea₂, (ga₂, fa₂, ma₂)) = join_taken max_num a₁ taken ga₁ (fa₁ ∙ c.available_named) in
    let (s₂, es₂, (gs₂, fs₂, ms₂)) = delete_taken max_num s₁ taken gs₁ in
    (
      record labels { available = a₁; assigned = s₁ },
      record labels { available = a₂; assigned = s₂ },
      rw (ea₁, es₁),
      rw (ea₂, es₂),
      λ u ne. (ma₁ u ne, ms₁ u ne),
      λ u ne. ground (arith, ma₁ u ne, ma₂ u ne, c.free u ne),
      λ u ne. ground (arith, ms₁ u ne, ms₂ u ne, c.unused u ne),
    )
