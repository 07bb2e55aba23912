-- ===== src/TagSet/Byte.antt =====
-- The bits of one byte of a tag set, counted from the highest: `byteArray[tag/8] & (0x80>>(tag%8))`.
use Prim.Native.Nat.{bit_and-bitwise, bit_or-bitwise}
use native.Mathlib.Nat.{pow-suc}
use mxtce_geni_scs.Base.{
  ==_iff, ℕ, zero, suc, ◌+◌, ◌-◌, ◌/◌, ◌^◌, ◌≤◌, ◌<◌, bit_and, bit_or, ◌≡◌, refl, Bool, true, false,
  not, ◌&&◌, ◌||◌, arith, ◌==◌, digit, digit-bit_or, digit-bit_and, bit_or_step, bit_and_step,
  all_below, table, table_sound,
}

abbrev pub mask : ℕ → ℕ
mask k = 0x80 / 2 ^ k

unfoldable pub test : ℕ → ℕ → Bool
test b k = not (bit_and b (mask k) == 0)

-- `~m` cut to a byte.
abbrev pub invert : ℕ → ℕ
invert m = 255 - m

abbrev same : Bool → Bool → Bool
same true b = b
same false b = not b

same-eq : (a b : Bool) → same a b ≡ true → a ≡ b
same-eq a b h = ground arith

abbrev test_agrees : ℕ → ℕ → Bool
test_agrees b k = same (test b k) (digit (7 - k) b == 1)

test_table : table 256 8 test_agrees ≡ true
unfolding test all_below
test_table = refl

test-digit : (b k : ℕ) → b < 256 → k < 8 → test b k ≡ (digit (7 - k) b == 1)
test-digit b k hb hk = same-eq _ _ (table_sound 256 8 test_agrees b k test_table hb hk)

abbrev inverts : ℕ → ℕ → Bool
inverts m k = digit k (invert m) + digit k m == 1

invert_table : table 256 8 inverts ≡ true
unfolding all_below
invert_table = refl

digit-invert : (m k : ℕ) → m < 256 → k < 8 → digit k (invert m) + digit k m ≡ 1
digit-invert m k hm hk = (==_iff _ _).0 (table_sound 256 8 inverts m k invert_table hm hk)

abbrev masks : ℕ → ℕ → Bool
masks j k = same (test (mask j) k) (j == k)

mask_table : table 8 8 masks ≡ true
unfolding test all_below
mask_table = refl

pub test-mask : (j k : ℕ) → j < 8 → k < 8 → test (mask j) k ≡ (j == k)
test-mask j k hj hk = same-eq _ _ (table_sound 8 8 masks j k mask_table hj hk)

pub mask-lt : (j : ℕ) → mask j < 256
mask-lt j = omega arith

pub test-zero : (k : ℕ) → test 0 k ≡ false
unfolding test
test-zero k = ground (arith, bit_and-bitwise 0 (mask k))

digit-le : (k a : ℕ) → digit k a ≤ 1
digit-le zero a = omega arith
digit-le (suc k) a = digit-le k (a / 2)

bit_or-lt_pow : (k a b : ℕ) → a < 2 ^ k → b < 2 ^ k → bit_or a b < 2 ^ k
bit_or-lt_pow zero a b ha hb = ground (arith, bit_or_step a b, bit_or-bitwise 0 0)
bit_or-lt_pow (suc k) a b ha hb = omega (
  arith,
  bit_or_step a b,
  pow-suc 2 k,
  bit_or-lt_pow k (a / 2) (b / 2) (omega (arith, pow-suc 2 k)) (omega (arith, pow-suc 2 k)),
)

pub bit_or-lt : (b c : ℕ) → b < 256 → c < 256 → bit_or b c < 256
bit_or-lt b c hb hc = bit_or-lt_pow 8 b c hb hc

bit_and-le : (k a b : ℕ) → a < 2 ^ k → bit_and a b ≤ a
bit_and-le zero a b h =
    ground (arith, bit_and_step a b, bit_and-bitwise 0 (b / 2), bit_and-bitwise 0 b)
bit_and-le (suc k) a b h = omega (
  arith,
  bit_and_step a b,
  pow-suc 2 k,
  bit_and-le k (a / 2) (b / 2) (omega (arith, pow-suc 2 k)),
)

pub bit_and-lt : (b c : ℕ) → b < 256 → bit_and b c < 256
bit_and-lt b c hb = omega (arith, bit_and-le 8 b c hb)

pub test-bit_or :
    (b c k : ℕ) → b < 256 → c < 256 → k < 8 → test (bit_or b c) k ≡ (test b k || test c k)
test-bit_or b c k hb hc hk = ground (
  arith,
  test-digit (bit_or b c) k (bit_or-lt b c hb hc) hk,
  test-digit b k hb hk,
  test-digit c k hc hk,
  digit-bit_or (7 - k) b c,
  digit-le (7 - k) b,
  digit-le (7 - k) c,
)

pub test-bit_and :
    (b c k : ℕ) → b < 256 → c < 256 → k < 8 → test (bit_and b c) k ≡ (test b k && test c k)
test-bit_and b c k hb hc hk = ground (
  arith,
  test-digit (bit_and b c) k (bit_and-lt b c hb) hk,
  test-digit b k hb hk,
  test-digit c k hc hk,
  digit-bit_and (7 - k) b c,
  digit-le (7 - k) b,
  digit-le (7 - k) c,
)

pub test-invert : (m k : ℕ) → m < 256 → k < 8 → test (invert m) k ≡ not (test m k)
test-invert m k hm hk = ground (
  arith,
  test-digit (invert m) k (omega arith) hk,
  test-digit m k hm hk,
  digit-invert m (7 - k) hm (omega arith),
)
