-- ===== src/TagSet/Member.antt =====
-- Membership after each operation on one tag (`AddTag`, `DeleteTag`, `HasTag`) of src/common/utils.hh.
use mxtce_geni_scs.Base.{
  ℕ, zero, suc, ◌+◌, ◌-◌, ◌*◌, ◌/◌, ◌%◌, ◌≤◌, ◌<◌, ◌≡◌, ◌≢◌, ◌↔◌, refl, false, not, ◌&&◌, ◌||◌, inl,
  inr, lt-or-le, none, some, ◌==◌, length, get_or, replicate, arith, length-set, length-replicate,
}
use mxtce_geni_scs.TagSet.{
  TagSet, IsValid, any_tag, slot, new_grid, add_tag, delete_tag, has_tag, holds,
}
use mxtce_geni_scs.TagSet.Byte.{mask-lt, test-zero, bit_or-lt, bit_and-lt}
use mxtce_geni_scs.TagSet.Slots.{
  IsBytes, get_or-lt, get_elem?-get_or, get_elem?-past, set-IsBytes, holds-or_mask,
  holds-and_invert_mask, or_mask, and_invert_mask,
}

replicate-IsBytes : (n : ℕ) → IsBytes (replicate n 0)
replicate-IsBytes zero = tt
replicate-IsBytes (suc n) = (omega arith, replicate-IsBytes n)

get_or-replicate : (n i : ℕ) → ◌≡◌ {A = ℕ} (get_or (replicate n 0) i 0) 0
get_or-replicate zero i = refl
get_or-replicate (suc n) zero = refl
get_or-replicate (suc n) (suc i) = get_or-replicate n i

pub holds-replicate : (n i : ℕ) → holds (replicate n 0) i ≡ false
holds-replicate n i = rw (get_or-replicate n (i / 8)) (test-zero (i % 8))

pub new_grid-IsValid : (n x y : ℕ) → 0 < y → IsValid (new_grid n x y)
unfolding new_grid
new_grid-IsValid n x y h = record {
  sized = length-replicate ((n - 1) / 8 + 1) 0;
  bytes = replicate-IsBytes ((n - 1) / 8 + 1);
  covers = refl;
  grid = h;
}

module _ (s : TagSet) (v : IsValid s) (tag : ℕ) (named : tag ≢ any_tag)
    (fits : slot s tag < s.num_bits) where
  in_array : slot s tag / 8 < length s.byte_array
  in_array = omega (arith, v.sized, v.covers)

  abbrev added : TagSet
  added = record s { byte_array = or_mask s.byte_array (slot s tag) }

  abbrev deleted : TagSet
  deleted = record s { byte_array = and_invert_mask s.byte_array (slot s tag) }

  add_tag-added : add_tag s tag ≡ some added
  unfolding add_tag
  add_tag-added = ground (arith, get_elem?-get_or s.byte_array (slot s tag / 8) in_array)

  delete_tag-deleted : delete_tag s tag ≡ some deleted
  unfolding delete_tag
  delete_tag-deleted = ground (arith, get_elem?-get_or s.byte_array (slot s tag / 8) in_array)

  added-IsValid : IsValid added
  added-IsValid = record {
    sized = rw length-set v.sized;
    bytes =
        set-IsBytes s.byte_array (slot s tag / 8) _
          (bit_or-lt _ _ (get_or-lt s.byte_array (slot s tag / 8) v.bytes)
            (mask-lt (slot s tag % 8)))
          v.bytes;
    covers = v.covers;
    grid = v.grid;
  }

  deleted-IsValid : IsValid deleted
  deleted-IsValid = record {
    sized = rw length-set v.sized;
    bytes =
        set-IsBytes s.byte_array (slot s tag / 8) _
          (bit_and-lt _ _ (get_or-lt s.byte_array (slot s tag / 8) v.bytes)) v.bytes;
    covers = v.covers;
    grid = v.grid;
  }

  -- `AddTag` of a named tag that falls into the set succeeds, keeps the set valid, and makes
  -- exactly the tags of that tag's slot members, besides those that were members before.
  pub has_tag-add_tag :
      (s' : TagSet) × (add_tag s tag ≡ some s')
      × IsValid s'
      × ((u : ℕ) → u ≢ any_tag → has_tag s' u ≡ (slot s tag == slot s u || has_tag s u))
  has_tag-add_tag = (
    added,
    add_tag-added,
    added-IsValid,
    λ u ne.
        unfold has_tag in
        ground (arith, holds-or_mask s.byte_array (slot s tag) (slot s u) v.bytes in_array),
  )

  -- `DeleteTag` of a named tag that falls into the set succeeds, keeps the set valid, and takes
  -- out exactly the tags of that tag's slot.
  pub has_tag-delete_tag :
      (s' : TagSet) × (delete_tag s tag ≡ some s')
      × IsValid s'
      × ((u : ℕ) → u ≢ any_tag → has_tag s' u ≡ (not (slot s tag == slot s u) && has_tag s u))
  has_tag-delete_tag = (
    deleted,
    delete_tag-deleted,
    deleted-IsValid,
    λ u ne.
        unfold has_tag in
        ground (arith, holds-and_invert_mask s.byte_array (slot s tag) (slot s u) v.bytes in_array),
  )

-- On a valid set `AddTag` writes outside the array exactly when the tag is a named one whose slot
-- lies past the last byte, as for tag 0 on a grid that starts at 1.
pub add_tag_fault_iff :
    (s : TagSet) (tag : ℕ)
    → IsValid s
    → (add_tag s tag ≡ none) ↔ ((tag ≢ any_tag) × (8 * s.num_bytes ≤ slot s tag))
unfolding add_tag
add_tag_fault_iff s tag v = elim (lt-or-le (slot s tag / 8) (length s.byte_array)) [
  | inl inside ↦ ground (arith, v.sized, get_elem?-get_or s.byte_array (slot s tag / 8) inside)
  | inr past ↦ ground (arith, v.sized, get_elem?-past s.byte_array (slot s tag / 8) past)
]
