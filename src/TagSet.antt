-- ===== src/TagSet.antt =====
-- `ConstraintTagSet` of src/common/utils.hh: a set of VLAN tags, time slots or wavelengths as a
-- bitmask, with a flag for "any". `none` is a failed assertion, or an access outside the array.
pub mod Byte
pub mod Scan
pub mod Extremes
pub mod Whole
pub mod Random
pub mod Bitmasks
pub mod Combine
pub mod Vlans
pub mod Member
pub mod Masks
pub mod Slots
use mxtce_geni_scs.Base.{
  ℕ, zero, suc, ◌+◌, ◌-◌, ◌*◌, ◌/◌, ◌%◌, ◌^◌, ◌≤◌, ◌<◌, bit_and, bit_or, ◌≡◌, Bool, true, false,
  not, ◌&&◌, ◌||◌, Option, none, some, List, [], ◌∷◌, ◌==◌, ltb, leb, if◌then◌else◌, ◌>>=◌, length,
  get_elem?, get_or, set, take, drop, replicate, ◌++◌, All,
}
use Byte.{mask, test, invert}

abbrev pub any_tag : ℕ
any_tag = 0xffff

abbrev pub max_vlan_num : ℕ
max_vlan_num = 4096

abbrev pub max_wave_num : ℕ
max_wave_num = 256

pub record TagSet : Type 0 where
  pub byte_array : List ℕ
  pub num_bits : ℕ
  pub num_bytes : ℕ
  pub has_any_tag : Bool
  pub base : ℕ
  pub interval : ℕ

unfoldable pub new_grid : ℕ → ℕ → ℕ → TagSet
new_grid n x y = record {
  byte_array = replicate ((n - 1) / 8 + 1) 0;
  num_bits = n;
  num_bytes = (n - 1) / 8 + 1;
  has_any_tag = false;
  base = x;
  interval = y;
}

unfoldable pub new : ℕ → TagSet
unfolding new_grid
new n = new_grid n 1 1

-- `(tag-base)/interval` on `u_int32_t`.
abbrev pub slot : TagSet → ℕ → ℕ
slot s tag = (tag + 2 ^ 32 - s.base) % 2 ^ 32 / s.interval

update_byte : List ℕ → ℕ → (ℕ → ℕ) → Option (List ℕ)
update_byte bytes i f = do b ← get_elem? bytes i; some (set bytes i (f b))

unfoldable pub add_tag : TagSet → ℕ → Option TagSet
unfolding update_byte
add_tag s tag = if tag == any_tag then some (record s { has_any_tag = true }) else do
  bytes ← update_byte s.byte_array (slot s tag / 8) (λ b. bit_or b (mask (slot s tag % 8)))
  some (record s { byte_array = bytes })

unfoldable pub delete_tag : TagSet → ℕ → Option TagSet
unfolding update_byte
delete_tag s tag = if tag == any_tag then some (record s { has_any_tag = false }) else do
  bytes ←
      update_byte s.byte_array (slot s tag / 8) (λ b. bit_and b (invert (mask (slot s tag % 8))))
  some (record s { byte_array = bytes })

unfoldable pub add_tags : TagSet → List ℕ → Option TagSet
add_tags s [] = some s
add_tags s (tag ∷ tags) = do s' ← add_tag s tag; add_tags s' tags

unfoldable pub delete_tags : TagSet → List ℕ → Option TagSet
delete_tags s [] = some s
delete_tags s (tag ∷ tags) = do s' ← delete_tag s tag; delete_tags s' tags

-- for (i = 0; i < n && i < numBytes; i++) byteArray[i] = f(byteArray[i], bitmask[i]);
unfoldable pub zip_bytes : (ℕ → ℕ → ℕ) → ℕ → List ℕ → List ℕ → Option (List ℕ)
zip_bytes f zero bytes bitmask = some bytes
zip_bytes f (suc n) [] bitmask = some []
zip_bytes f (suc n) (b ∷ bytes) [] = none
zip_bytes f (suc n) (b ∷ bytes) (m ∷ bitmask) = do
  rest ← zip_bytes f n bytes bitmask
  some (f b m ∷ rest)

unfoldable pub add_bitmask : TagSet → List ℕ → ℕ → Option TagSet
add_bitmask s bitmask max_num = do
  bytes ← zip_bytes bit_or ((max_num - 1) / 8 + 1) s.byte_array bitmask
  some (record s { byte_array = bytes })

unfoldable pub delete_bitmask : TagSet → List ℕ → ℕ → Option TagSet
delete_bitmask s bitmask max_num = do
  bytes ← zip_bytes (λ b m. bit_and b (invert m)) ((max_num - 1) / 8 + 1) s.byte_array bitmask
  some (record s { byte_array = bytes })

abbrev pub all_zero : List ℕ → Bool
all_zero [] = true
all_zero (b ∷ bytes) = b == 0 && all_zero bytes

unfoldable pub is_empty : TagSet → Bool
is_empty s = if s.has_any_tag then false else all_zero s.byte_array

-- The bit of slot `i`.
abbrev pub holds : List ℕ → ℕ → Bool
holds bytes i = test (get_or bytes (i / 8) 0) (i % 8)

unfoldable pub has_tag : TagSet → ℕ → Bool
has_tag s tag =
    if tag == any_tag
    then not (is_empty s)
    else if leb s.num_bits (slot s tag)
    then false
    else holds s.byte_array (slot s tag)

-- memcpy(dst, src, n)
abbrev pub copy_bytes : ℕ → List ℕ → List ℕ → Option (List ℕ)
copy_bytes n dst src =
    if leb n (length dst) && leb n (length src) then some (take n src ++ drop n dst) else none

-- memset(dst, value, n)
unfoldable pub fill_bytes : List ℕ → ℕ → ℕ → Option (List ℕ)
fill_bytes dst value n =
    if leb n (length dst) then some (replicate n (value % 256) ++ drop n dst) else none

abbrev pub same_grid : TagSet → TagSet → Bool
same_grid s t = s.base == t.base && s.interval == t.interval

unfoldable pub intersect : TagSet → TagSet → Option TagSet
intersect s t =
    if not (same_grid s t)
    then none
    else if t.has_any_tag
    then some s
    else if s.has_any_tag
    then (do
      bytes ← copy_bytes s.num_bytes s.byte_array t.byte_array
      some (record s { byte_array = bytes; has_any_tag = false }))
    else do
      bytes ← zip_bytes bit_and t.num_bytes s.byte_array t.byte_array
      some (record s { byte_array = bytes; has_any_tag = false })

-- The arguments of `memset` stand as in the source: the value is `numBytes`, the count 0xff.
unfoldable pub join : TagSet → TagSet → Option TagSet
join s t =
    if not (same_grid s t)
    then none
    else if s.has_any_tag
    then some s
    else if t.has_any_tag
    then (do
      bytes ← fill_bytes s.byte_array s.num_bytes 0xff
      some (record s { byte_array = bytes; has_any_tag = true }))
    else do
      bytes ← zip_bytes bit_or t.num_bytes s.byte_array t.byte_array
      some (record s { byte_array = bytes })

unfoldable pub clear : TagSet → TagSet
clear s = record s { byte_array = replicate s.num_bytes 0; has_any_tag = false }

pub record IsValid (s : TagSet) : Type 0 where
  pub sized : length s.byte_array ≡ s.num_bytes
  pub bytes : All (λ b. b < 256) s.byte_array
  pub covers : s.num_bytes ≡ (s.num_bits - 1) / 8 + 1
  pub grid : 0 < s.interval
