-- ===== src/TagSet/Bitmasks.antt =====
-- The bitmask forms of `AddTags` and `DeleteTags` of src/common/utils.hh.
use mxtce_geni_scs.Base.{
  ℕ, ◌+◌, ◌-◌, ◌/◌, ◌<◌, bit_or, ◌≡◌, ◌≢◌, refl, Bool, not, ◌&&◌, ◌||◌, inl, some, List, length,
  arith,
}
use mxtce_geni_scs.TagSet.{
  TagSet, IsValid, any_tag, slot, add_bitmask, delete_bitmask, has_tag, holds,
}
use mxtce_geni_scs.TagSet.Slots.{IsBytes}
use mxtce_geni_scs.TagSet.Masks.{
  Zipped, zip_bytes-Zipped, holds-or, holds-and_invert, and_invert, bit_or-closed,
  and_invert-closed,
}

-- Two sets over the same tags.
pub record SameGrid (s t : TagSet) : Type 0 where
  pub same_bits : s.num_bits ≡ t.num_bits
  pub same_base : s.base ≡ t.base
  pub same_interval : s.interval ≡ t.interval

pub same_grid_bytes : (s : TagSet) (out : List ℕ) → SameGrid (record s { byte_array = out }) s
same_grid_bytes s out = record { same_bits = refl; same_base = refl; same_interval = refl }

pub Zipped-IsValid :
    {f : ℕ → ℕ → ℕ} {n : ℕ} {bitmask out : List ℕ} (s : TagSet) (any : Bool)
    → IsValid s
    → Zipped f n s.byte_array bitmask out
    → IsValid (record s { byte_array = out; has_any_tag = any })
Zipped-IsValid s any v z = record {
  sized = rw z.same_length v.sized;
  bytes = z.IsBytes_out;
  covers = v.covers;
  grid = v.grid;
}

module _ (s : TagSet) (v : IsValid s) (bitmask : List ℕ) (hm : IsBytes bitmask)
    (enough : length bitmask ≡ s.num_bytes) where
  -- `AddTags` of a bitmask over the same bits succeeds, keeps the set valid over the same
  -- tags, leaves its "any" flag, and adds exactly the named tags whose bits the mask has.
  pub has_tag-add_bitmask :
      (s' : TagSet) × (add_bitmask s bitmask s.num_bits ≡ some s')
      × IsValid s'
      × SameGrid s' s
      × (s'.has_any_tag ≡ s.has_any_tag)
      × ((u : ℕ)
          → u ≢ any_tag
          → slot s u < s.num_bits
          → has_tag s' u ≡ (has_tag s u || holds bitmask (slot s u)))
  unfolding add_bitmask
  has_tag-add_bitmask =
      let (out, e, z) =
        zip_bytes-Zipped bit_or bit_or-closed ((s.num_bits - 1) / 8 + 1) s.byte_array bitmask
          v.bytes hm (inl (omega (arith, v.covers))) in
      (
        record s { byte_array = out },
        rw e,
        Zipped-IsValid s s.has_any_tag v z,
        same_grid_bytes s out,
        refl,
        λ u ne fits.
            unfold has_tag in
            ground (
              arith,
              v.sized,
              v.covers,
              holds-or ((s.num_bits - 1) / 8 + 1) s.byte_array bitmask out v.bytes hm z (slot s u),
            ),
      )

  -- `DeleteTags` of a bitmask over the same bits succeeds, keeps the set valid over the same
  -- tags, leaves its "any" flag, and takes out exactly the named tags whose bits the mask has.
  pub has_tag-delete_bitmask :
      (s' : TagSet) × (delete_bitmask s bitmask s.num_bits ≡ some s')
      × IsValid s'
      × SameGrid s' s
      × (s'.has_any_tag ≡ s.has_any_tag)
      × ((u : ℕ)
          → u ≢ any_tag
          → slot s u < s.num_bits
          → has_tag s' u ≡ (has_tag s u && not (holds bitmask (slot s u))))
  unfolding delete_bitmask
  has_tag-delete_bitmask =
      let (out, e, z) =
        zip_bytes-Zipped and_invert and_invert-closed ((s.num_bits - 1) / 8 + 1) s.byte_array
          bitmask v.bytes hm (inl (omega (arith, v.covers))) in
      (
        record s { byte_array = out },
        rw e,
        Zipped-IsValid s s.has_any_tag v z,
        same_grid_bytes s out,
        refl,
        λ u ne fits.
            unfold has_tag in
            ground (
              arith,
              v.sized,
              v.covers,
              holds-and_invert ((s.num_bits - 1) / 8 + 1) s.byte_array bitmask out v.bytes hm z
                  (slot s u),
            ),
      )
