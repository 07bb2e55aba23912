-- ===== src/TagSet/Random.antt =====
-- `RandomTag` of src/common/utils.hh returns a member or 0, and `Size` counts the members' slots.
use mxtce_geni_scs.Base.{
  ℕ, zero, suc, ◌+◌, ◌-◌, ◌*◌, ◌%◌, ◌≤◌, ◌<◌, ◌≡◌, ◌≢◌, ◌∙◌, refl, Bool, true, false, ◌⊎◌, inl, inr,
  List, if◌then◌else◌, get_or, arith,
}
use native.Mathlib.Numerals.{towards_suc}
use native.Mathlib.Nat.{add-zero}
use mxtce_geni_scs.TagSet.{TagSet, any_tag, has_tag, holds}
use mxtce_geni_scs.TagSet.Byte.{test}
use mxtce_geni_scs.TagSet.Extremes.{holds-at}
use mxtce_geni_scs.TagSet.Scan.{
  lowest_tag, highest_tag, byte_size, size_below, size, scan_up, scan_down, random_between,
  random_tag, span,
}
use mxtce_geni_scs.TagSet.Whole.{IsWhole, lowest_tag-least, highest_tag-greatest}

-- 0, or a tag of the set.
abbrev pub IsPick : TagSet → ℕ → Type 0
IsPick s r = (r ≡ 0) ⊎ (has_tag s r ≡ true)

scan_up-IsPick : (s : TagSet) (left tag : ℕ) → IsPick s (scan_up s left tag)
unfolding scan_up
scan_up-IsPick s zero tag = inl refl
scan_up-IsPick s (suc left) tag = ground (arith, scan_up-IsPick s left (tag + 1))

scan_down-IsPick : (s : TagSet) (tag : ℕ) → IsPick s (scan_down s tag)
unfolding scan_down
scan_down-IsPick s zero = inl refl
scan_down-IsPick s (suc tag) = ground (arith, scan_down-IsPick s tag)

random_between-IsPick :
    (s : TagSet) (low high random : ℕ)
    → (low ≡ high → IsPick s low)
    → IsPick s (random_between s low high random)
unfolding random_between
random_between-IsPick s low high random h =
    let start = low + random % span low high in
    ground (arith, scan_up-IsPick s (s.num_bits - start) start, scan_down-IsPick s start)

-- Whatever `random` returns, `RandomTag` of a set whose tags fill its bytes, without "any" and with
-- at least one named tag, returns a member or 0.
pub random_tag-IsPick :
    (s : TagSet) (random₁ random₂ t : ℕ)
    → IsWhole s
    → s.has_any_tag ≡ false
    → t ≢ any_tag
    → has_tag s t ≡ true
    → IsPick s (random_tag s random₁ random₂)
unfolding random_tag
random_tag-IsPick s random₁ random₂ t w no_any ne has =
    let (low_has, low_named, low_least) = lowest_tag-least s w t ne has in
    let (high_has, high_named, high_greatest) = highest_tag-greatest s w t ne has in
    let tag = random_between s (lowest_tag s) (highest_tag s) random₁ in
    ground (
      arith,
      random_between-IsPick s (tag + 1) (highest_tag s) random₂ (λ e. inr (ground arith)),
      random_between-IsPick s (lowest_tag s) tag random₂ (λ e. inr low_has),
    )

-- Whatever `random` returns, `RandomTag` of a set with "any" over more than one bit is at least 1 and
-- below the number of bits.
pub random_tag_any_bounds :
    (s : TagSet) (random₁ random₂ : ℕ)
    → s.has_any_tag ≡ true
    → 1 < s.num_bits
    → (1 ≤ random_tag s random₁ random₂) × (random_tag s random₁ random₂ < s.num_bits)
unfolding random_tag
random_tag_any_bounds s random₁ random₂ h wide = ground arith

-- How many numbers below `n` pass the test.
abbrev pub count_below : ℕ → (ℕ → Bool) → ℕ
count_below zero p = 0
count_below (suc n) p = (if p n then 1 else 0) + count_below n p

abbrev one_if : Bool → ℕ
one_if b = if b then 1 else 0

count_eight :
    (n : ℕ) (p : ℕ → Bool)
    → count_below (n + 8) p
      ≡ one_if (p (n + 7))
        + one_if (p (n + 6))
        + one_if (p (n + 5))
        + one_if (p (n + 4))
        + one_if (p (n + 3))
        + one_if (p (n + 2))
        + one_if (p (n + 1))
        + one_if (p (n + 0))
        + count_below n p
count_eight n p = simp (towards_suc, add-zero) (omega arith)

byte_size-zero : byte_size 0 ≡ 0
unfolding byte_size test
byte_size-zero = refl

count_byte :
    (i : ℕ) (bytes : List ℕ)
    → count_below (i * 8 + 8) (holds bytes)
      ≡ byte_size (get_or bytes i 0) + count_below (i * 8) (holds bytes)
unfolding byte_size
count_byte i bytes =
    count_eight (i * 8) (holds bytes)
    ∙ rw (
      holds-at bytes i 7 (omega arith),
      holds-at bytes i 6 (omega arith),
      holds-at bytes i 5 (omega arith),
      holds-at bytes i 4 (omega arith),
      holds-at bytes i 3 (omega arith),
      holds-at bytes i 2 (omega arith),
      holds-at bytes i 1 (omega arith),
      holds-at bytes i 0 (omega arith),
    )

size_below-count : (n : ℕ) (bytes : List ℕ) → size_below n bytes ≡ count_below (n * 8) (holds bytes)
unfolding size_below
size_below-count zero bytes = refl
size_below-count (suc i) bytes =
    let e : suc i * 8 ≡ i * 8 + 8 = omega arith in
    rw e (ground (arith, count_byte i bytes, byte_size-zero, size_below-count i bytes))

-- `Size` is the number of slots whose bit is set.
pub size-count_below : (s : TagSet) → size s ≡ count_below (s.num_bytes * 8) (holds s.byte_array)
unfolding size
size-count_below s = size_below-count s.num_bytes s.byte_array
