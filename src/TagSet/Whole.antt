-- ===== src/TagSet/Whole.antt =====
-- `LowestTag` and `HighestTag` of src/common/utils.hh, on sets whose tags fill their bytes.
use native.Mathlib.Nat.{mul-div_cancel, div-mul-le_self}
use mxtce_geni_scs.Base.{
  ◌∙◌, ℕ, ◌+◌, ◌-◌, ◌*◌, ◌%◌, ◌^◌, ◌≤◌, ◌<◌, ◌≡◌, ◌≢◌, true, inl, inr, some, arith, ap,
}
use mxtce_geni_scs.TagSet.{TagSet, IsValid, any_tag, slot, has_tag, holds}
use mxtce_geni_scs.TagSet.Scan.{lowest_slot, lowest_tag, highest_tag, tag_of_slot}
use mxtce_geni_scs.TagSet.Extremes.{lowest_slot-IsBottom, highest_slot-IsTop}

-- A set whose bits fill its bytes, and whose tags are all below the code of "any".
pub record IsWhole (s : TagSet) : Type 0 where
  pub IsValid_set : IsValid s
  pub filled : s.num_bits ≡ 8 * s.num_bytes
  pub named : s.num_bits * s.interval + s.base ≤ any_tag

module _ (s : TagSet) (w : IsWhole s) where
  abbrev valid : IsValid s
  valid = w.IsValid_set

  tag_below : (m : ℕ) → m < s.num_bits → m * s.interval + s.base < any_tag
  tag_below m h =
      let step : m * s.interval + s.interval ≤ s.num_bits * s.interval = grind arith in
      omega (arith, w.named, valid.grid)

  tag_of_slot_lem : (m : ℕ) → m < s.num_bits → tag_of_slot s (some m) ≡ m * s.interval + s.base
  tag_of_slot_lem m h = omega (arith, tag_below m h)

  slot-tag_of_slot : (m : ℕ) → m < s.num_bits → slot s (tag_of_slot s (some m)) ≡ m
  slot-tag_of_slot m h =
      let e : (tag_of_slot s (some m) + 2 ^ 32 - s.base) % 2 ^ 32 ≡ m * s.interval =
        omega (arith, tag_below m h) in
      rw e (mul-div_cancel m valid.grid)

  has_tag-slot : (u : ℕ) → u ≢ any_tag → has_tag s u ≡ true → holds s.byte_array (slot s u) ≡ true
  unfolding has_tag
  has_tag-slot u ne h = ground arith

  slot-below : (u : ℕ) → u ≢ any_tag → has_tag s u ≡ true → slot s u < s.num_bits
  unfolding has_tag
  slot-below u ne h = ground arith

  holds-has_tag :
      (m : ℕ)
      → m < s.num_bits
      → holds s.byte_array m ≡ true
      → has_tag s (tag_of_slot s (some m)) ≡ true
  unfolding has_tag
  holds-has_tag m h hm = ground (arith, slot-tag_of_slot m h, tag_of_slot_lem m h, tag_below m h)

  -- The slot of a tag at or above the base is its distance from the base, in intervals.
  slot-mul-le : (u : ℕ) → s.base ≤ u → u < 2 ^ 32 → slot s u * s.interval + s.base ≤ u
  slot-mul-le u lo hi =
      let e : (u + 2 ^ 32 - s.base) % 2 ^ 32 ≡ u - s.base = omega (arith, lo, hi) in
      omega (arith, e, div-mul-le_self ((u + 2 ^ 32 - s.base) % 2 ^ 32) s.interval)

  -- The tag of the slot that a scan finds.
  found-has_tag :
      (m : ℕ)
      → m < s.num_bits
      → holds s.byte_array m ≡ true
      → (has_tag s (tag_of_slot s (some m)) ≡ true) × (tag_of_slot s (some m) ≢ any_tag)
  found-has_tag m h hm = (holds-has_tag m h hm, omega (arith, tag_of_slot_lem m h, tag_below m h))

  slot_mono : (m n : ℕ) → m ≤ n → m * s.interval ≤ n * s.interval
  slot_mono m n h = grind arith

  -- On a set whose tags fill its bytes, with at least one named tag, `LowestTag` is a member, and no
  -- member at or above the base is lower.
  pub lowest_tag-least :
      (t : ℕ)
      → t ≢ any_tag
      → has_tag s t ≡ true
      → (has_tag s (lowest_tag s) ≡ true)
        × (lowest_tag s ≢ any_tag)
        × ((u : ℕ) → u ≢ any_tag → s.base ≤ u → u < 2 ^ 32 → has_tag s u ≡ true → lowest_tag s ≤ u)
  unfolding lowest_tag
  lowest_tag-least t ne has = elim (lowest_slot-IsBottom 0 s.byte_array valid.bytes) [
    | inl (e, absent) ↦
        let one = has_tag-slot t ne has in let zero_bit = absent (slot s t) in absurd (ground arith)
    | inr (m, e, lt, hm, first) ↦
        let below : m < s.num_bits = omega (arith, valid.sized, w.filled) in
        let e' : lowest_slot 0 s.byte_array ≡ some m = e ∙ ap some (omega arith) in
        let (is_member, is_named) = found-has_tag m below hm in
        (
          rw e' is_member,
          rw e' is_named,
          λ u ne' lo hi hu.
              let least : m ≤ slot s u = ground (arith, has_tag-slot u ne' hu, first (slot s u)) in
              rw e' (
                omega (
                  arith,
                  tag_of_slot_lem m below,
                  slot_mono m (slot s u) least,
                  slot-mul-le u lo hi,
                )),
        )
  ]

  -- On a set whose tags fill its bytes, with at least one named tag, `HighestTag` is a member, and no
  -- member lies in a later slot.
  pub highest_tag-greatest :
      (t : ℕ)
      → t ≢ any_tag
      → has_tag s t ≡ true
      → (has_tag s (highest_tag s) ≡ true)
        × (highest_tag s ≢ any_tag)
        × ((u : ℕ) → u ≢ any_tag → has_tag s u ≡ true → slot s u ≤ slot s (highest_tag s))
  unfolding highest_tag
  highest_tag-greatest t ne has = elim (highest_slot-IsTop s.num_bytes s.byte_array valid.bytes) [
    | inl (e, absent) ↦
        let one = has_tag-slot t ne has in
        let inside = slot-below t ne has in
        let zero_bit = absent (slot s t) (omega (arith, w.filled)) in absurd (ground arith)
    | inr (m, e, lt, hm, last) ↦
        let below : m < s.num_bits = omega (arith, w.filled) in
        let (is_member, is_named) = found-has_tag m below hm in
        (
          rw e is_member,
          rw e is_named,
          λ u ne' hu. rw e (
              rw (slot-tag_of_slot m below) (
                ground
                  (arith, w.filled, slot-below u ne' hu, has_tag-slot u ne' hu, last (slot s u)))),
        )
  ]
