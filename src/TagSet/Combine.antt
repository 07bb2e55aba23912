-- ===== src/TagSet/Combine.antt =====
-- `Intersect` and `Join` of src/common/utils.hh.
use mxtce_geni_scs.Base.{
  ℕ, zero, suc, ◌/◌, ◌%◌, ◌≤◌, ◌<◌, bit_and, bit_or, ◌≡◌, ◌≢◌, refl, Bool, true, false, ◌&&◌, ◌||◌,
  inl, inr, none, some, List, [], ◌∷◌, length, get_or, drop, replicate, ◌++◌, arith, Bool-cases,
}
use mxtce_geni_scs.TagSet.{
  TagSet, IsValid, any_tag, slot, has_tag, join, intersect, copy_bytes, fill_bytes,
}
use mxtce_geni_scs.TagSet.Byte.{test-zero}
use mxtce_geni_scs.TagSet.Masks.{
  zip_bytes-Zipped, holds-or, holds-and, bit_or-closed, bit_and-closed,
}
use mxtce_geni_scs.TagSet.Bitmasks.{SameGrid, same_grid_bytes, Zipped-IsValid}

-- A set with "any" admits every tag.
abbrev pub allows : TagSet → ℕ → Bool
allows s tag = s.has_any_tag || has_tag s tag

copied :
    (n : ℕ) (dst src : List ℕ) → length dst ≡ n → length src ≡ n → copy_bytes n dst src ≡ some src
copied zero [] [] hd hs = refl
copied zero [] (b ∷ src) hd hs = absurd (omega arith)
copied zero (b ∷ dst) src hd hs = absurd (omega arith)
copied (suc n) [] src hd hs = absurd (omega arith)
copied (suc n) (a ∷ dst) [] hd hs = absurd (omega arith)
copied (suc n) (a ∷ dst) (b ∷ src) hd hs =
    ground (arith, copied n dst src (omega arith) (omega arith))

module _ (s t : TagSet) (v : IsValid s) (w : IsValid t) (g : SameGrid s t) where
  abbrev Meets : TagSet → Type 0
  Meets r = IsValid r × ((u : ℕ) → u ≢ any_tag → allows r u ≡ (allows s u && allows t u))

  intersect_bytes :
      s.has_any_tag ≡ false
      → t.has_any_tag ≡ false
      → (r : TagSet) × (intersect s t ≡ some r) × Meets r
  unfolding intersect
  intersect_bytes hs ht =
      let (out, e, z) =
        zip_bytes-Zipped bit_and bit_and-closed t.num_bytes s.byte_array t.byte_array v.bytes
          w.bytes (inl (omega (arith, w.sized))) in
      (
        record s { byte_array = out; has_any_tag = false },
        ground (arith, e, g.same_base, g.same_interval),
        (
          Zipped-IsValid s false v z,
          λ u ne.
              unfold has_tag in
              ground (
                arith,
                v.sized,
                v.covers,
                w.covers,
                g.same_bits,
                g.same_base,
                g.same_interval,
                holds-and t.num_bytes s.byte_array t.byte_array out v.bytes w.bytes z (slot s u),
              ),
        ),
      )

  intersect_copy :
      s.has_any_tag ≡ true
      → t.has_any_tag ≡ false
      → (r : TagSet) × (intersect s t ≡ some r) × Meets r
  unfolding intersect
  intersect_copy hs ht =
      let e =
        copied s.num_bytes s.byte_array t.byte_array v.sized
          (omega (arith, w.sized, w.covers, v.covers, g.same_bits)) in
      (
        record s { byte_array = t.byte_array; has_any_tag = false },
        ground (arith, e, g.same_base, g.same_interval),
        (
          record {
            sized = omega (arith, w.sized, w.covers, v.covers, g.same_bits);
            bytes = w.bytes;
            covers = v.covers;
            grid = v.grid;
          },
          λ u ne. unfold has_tag in ground (arith, g.same_bits, g.same_base, g.same_interval),
        ),
      )

  intersect_any : t.has_any_tag ≡ true → (r : TagSet) × (intersect s t ≡ some r) × Meets r
  unfolding intersect
  intersect_any ht = (s, ground (arith, g.same_base, g.same_interval), (v, λ u ne. ground arith))

  -- On valid sets over the same tags `Intersect` succeeds, and the result is valid and admits
  -- exactly the named tags that both sets admit, whichever of them has "any".
  pub allows-intersect : (r : TagSet) × (intersect s t ≡ some r) × Meets r
  allows-intersect = elim (Bool-cases t.has_any_tag) [
    | inl ht ↦ intersect_any ht
    | inr ht ↦ elim (Bool-cases s.has_any_tag) [
      | inl hs ↦ intersect_copy hs ht
      | inr hs ↦ intersect_bytes hs ht
    ]
  ]

  -- `Join` of two valid sets over the same tags, the second without "any", succeeds, and the result
  -- is valid over the same tags, has the first set's flag, and admits exactly the named tags that either admits.
  pub allows-join :
      t.has_any_tag ≡ false
      → (r : TagSet) × (join s t ≡ some r)
        × IsValid r
        × SameGrid r s
        × (r.has_any_tag ≡ s.has_any_tag)
        × ((u : ℕ) → u ≢ any_tag → allows r u ≡ (allows s u || allows t u))
  unfolding join
  allows-join ht = elim (Bool-cases s.has_any_tag) [
    | inl hs ↦ (
      s,
      ground (arith, g.same_base, g.same_interval),
      v,
      same_grid_bytes s s.byte_array,
      refl,
      λ u ne. ground arith,
    )
    | inr hs ↦
        let (out, e, z) =
          zip_bytes-Zipped bit_or bit_or-closed t.num_bytes s.byte_array t.byte_array v.bytes
            w.bytes (inl (omega (arith, w.sized))) in
        (
          record s { byte_array = out },
          ground (arith, e, g.same_base, g.same_interval),
          Zipped-IsValid s s.has_any_tag v z,
          same_grid_bytes s out,
          refl,
          λ u ne.
              unfold has_tag in
              ground (
                arith,
                v.sized,
                v.covers,
                w.covers,
                g.same_bits,
                g.same_base,
                g.same_interval,
                holds-or t.num_bytes s.byte_array t.byte_array out v.bytes w.bytes z (slot s u),
              ),
        )
  ]

get_or-fill : (n v i : ℕ) (rest : List ℕ) → i < n → get_or (replicate n v ++ rest) i 0 ≡ v
get_or-fill zero v i rest h = absurd (omega arith)
get_or-fill (suc n) v zero rest h = refl
get_or-fill (suc n) v (suc i) rest h = get_or-fill n v i rest (omega arith)

filled :
    (dst : List ℕ) (value n : ℕ)
    → n ≤ length dst
    → (out : List ℕ) × (fill_bytes dst value n ≡ some out)
      × ((i : ℕ) → i < n → get_or out i 0 ≡ value % 256)
unfolding fill_bytes
filled dst value n h = (
  replicate n (value % 256) ++ drop n dst,
  ground arith,
  λ i hi. get_or-fill n (value % 256) i (drop n dst) hi,
)

-- `Join` of a VLAN set without "any" with a set that has it gives a set with "any" that no longer
-- holds any of the tags of its first 2040 slots: `memset` has its value and its length swapped.
pub join_any_erases :
    (s t : TagSet)
    → IsValid s
    → SameGrid s t
    → s.num_bits ≡ 4096
    → s.has_any_tag ≡ false
    → t.has_any_tag ≡ true
    → (r : TagSet) × (join s t ≡ some r)
      × (r.has_any_tag ≡ true)
      × ((u : ℕ) → u ≢ any_tag → slot s u < 2040 → has_tag r u ≡ false)
unfolding join
join_any_erases s t v g wide hs ht =
    let swapped : s.num_bytes % 256 ≡ 0 = omega (arith, v.covers) in
    let (out, e, at) = filled s.byte_array s.num_bytes 255 (omega (arith, v.covers, v.sized)) in
    (
      record s { byte_array = out; has_any_tag = true },
      ground (arith, e, g.same_base, g.same_interval),
      refl,
      λ u ne low.
          unfold has_tag in
          ground (arith, at (slot s u / 8) (omega arith), test-zero (slot s u % 8)),
    )

-- `Join` of a valid set of at most 2032 bits without "any", such as one of wavelengths, with a set that has
-- "any" over the same tags or others, writes past the end of the array or fails its assertion.
pub join_any_faults :
    (s t : TagSet)
    → IsValid s
    → s.num_bits ≤ 2032
    → s.has_any_tag ≡ false
    → t.has_any_tag ≡ true
    → join s t ≡ none
unfolding join fill_bytes
join_any_faults s t v small hs ht = ground (arith, v.sized, v.covers)
