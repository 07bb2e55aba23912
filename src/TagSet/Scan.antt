-- ===== src/TagSet/Scan.antt =====
-- The scans of `ConstraintTagSet` in src/common/utils.hh: `LowestTag`, `HighestTag`, `Size` and
-- both forms of `RandomTag`, whose calls of `random` are arguments.
use mxtce_geni_scs.Base.{
  ℕ, zero, suc, ◌+◌, ◌-◌, ◌*◌, ◌%◌, ◌^◌, ◌&&◌, Option, none, some, List, [], ◌∷◌, ◌==◌, ltb,
  if◌then◌else◌, get_or,
}
use mxtce_geni_scs.TagSet.{TagSet, has_tag}
use mxtce_geni_scs.TagSet.Byte.{test}

-- The first and the last bit of a byte that is not 0.
unfoldable pub lowest_bit : ℕ → ℕ
lowest_bit b =
    if test b 0
    then 0
    else if test b 1
    then 1
    else if test b 2
    then 2
    else if test b 3
    then 3
    else if test b 4
    then 4
    else if test b 5
    then 5
    else if test b 6
    then 6
    else 7

unfoldable pub highest_bit : ℕ → ℕ
highest_bit b =
    if test b 7
    then 7
    else if test b 6
    then 6
    else if test b 5
    then 5
    else if test b 4
    then 4
    else if test b 3
    then 3
    else if test b 2
    then 2
    else if test b 1
    then 1
    else 0

-- The loop upwards from byte `i`, over the bytes that are left.
unfoldable pub lowest_slot : ℕ → List ℕ → Option ℕ
lowest_slot i [] = none
lowest_slot i (b ∷ bytes) =
    let rest = lowest_slot (i + 1) bytes in if b == 0 then rest else some (i * 8 + lowest_bit b)

-- The loop downwards over the bytes below `n`.
unfoldable pub highest_slot : ℕ → List ℕ → Option ℕ
highest_slot zero bytes = none
highest_slot (suc i) bytes =
    let rest = highest_slot i bytes in
    if get_or bytes i 0 == 0 then rest else some (i * 8 + highest_bit (get_or bytes i 0))

abbrev pub tag_of_slot : TagSet → Option ℕ → ℕ
tag_of_slot s none = 0
tag_of_slot s (some j) = (j * s.interval + s.base) % 2 ^ 32

unfoldable pub lowest_tag : TagSet → ℕ
lowest_tag s = tag_of_slot s (lowest_slot 0 s.byte_array)

unfoldable pub highest_tag : TagSet → ℕ
highest_tag s = tag_of_slot s (highest_slot s.num_bytes s.byte_array)

abbrev bit_count : ℕ → ℕ → ℕ
bit_count b k = if test b k then 1 else 0

unfoldable pub byte_size : ℕ → ℕ
byte_size b =
    bit_count b 7
    + bit_count b 6
    + bit_count b 5
    + bit_count b 4
    + bit_count b 3
    + bit_count b 2
    + bit_count b 1
    + bit_count b 0

unfoldable pub size_below : ℕ → List ℕ → ℕ
size_below zero bytes = 0
size_below (suc i) bytes =
    (if get_or bytes i 0 == 0 then 0 else byte_size (get_or bytes i 0)) + size_below i bytes

unfoldable pub size : TagSet → ℕ
size s = size_below s.num_bytes s.byte_array

-- for (tag = start; tag < numBits; tag++) with `left` rounds left; 0 where no tag is found.
unfoldable pub scan_up : TagSet → ℕ → ℕ → ℕ
scan_up s zero tag = 0
scan_up s (suc left) tag =
    let rest = scan_up s left (tag + 1) in if has_tag s tag then tag else rest

-- for (tag = start; tag >= 0; tag--)
unfoldable pub scan_down : TagSet → ℕ → ℕ
scan_down s zero = 0
scan_down s (suc tag) = let rest = scan_down s tag in if has_tag s (suc tag) then suc tag else rest

-- `random()% (high-low)` takes the sign of `random()`, which is not negative.
abbrev pub span : ℕ → ℕ → ℕ
span low high = (high - low) + (low - high)

unfoldable pub random_between : TagSet → ℕ → ℕ → ℕ → ℕ
random_between s low high random =
    let start = low + random % span low high in
    if low == 0
    then 0
    else if low == high
    then low
    else if start % 2 == 0
    then scan_up s (s.num_bits - start) start
    else scan_down s start

unfoldable pub random_tag : TagSet → ℕ → ℕ → ℕ
random_tag s random₁ random₂ =
    let low = lowest_tag s in
    let high = highest_tag s in
    let tag = random_between s low high random₁ in
    if s.has_any_tag
    then random₁ % (s.num_bits - 1) + 1
    else if has_tag s (tag + 1) && ltb tag high
    then random_between s (tag + 1) high random₂
    else random_between s low tag random₂
