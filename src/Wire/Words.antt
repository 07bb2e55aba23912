-- ===== src/Wire/Words.antt =====
-- A word that src/api/encode_pri.cc writes in as few bytes as hold it, and src/api/decode_pri.cc reads.
use native.Mathlib.Nat.{pow-suc, div-div-eq-div-mul}
use mxtce_geni_scs.Base.{
  ℕ, zero, suc, ◌+◌, ◌-◌, ◌*◌, ◌/◌, ◌%◌, ◌^◌, ◌≤◌, ◌<◌, bit_and, bit_or, ◌≡◌, refl, ap, sym, ◌∙◌,
  Bool, true, ◌||◌, ◌==◌, ltb, if◌then◌else◌, arith, bit_or_step, bit_and_step, all_below,
  all_below_sound, ==_iff, Bool-cases, inl, inr,
}
use mxtce_geni_scs.Wire.{sign_mask, is_redundant, shift_byte, drop_redundant}
use mxtce_geni_scs.Wire.Decode.{push_byte}

bit_or-zero_fuel : (n a : ℕ) → a ≤ n → bit_or a 0 ≡ a
bit_or-zero_fuel n zero h = refl
bit_or-zero_fuel zero (suc a) h = absurd (omega arith)
bit_or-zero_fuel (suc n) (suc a) h =
    omega (arith, bit_or_step (suc a) 0, bit_or-zero_fuel n (suc a / 2) (omega arith))

-- `(x << k) | b` is a sum.
bit_or-fields : (k q r : ℕ) → r < 2 ^ k → bit_or (q * 2 ^ k) r ≡ q * 2 ^ k + r
bit_or-fields zero q r h = ground (arith, bit_or-zero_fuel q q (omega arith))
bit_or-fields (suc k) q r h =
    let e : q * 2 ^ suc k ≡ 2 * (q * 2 ^ k) = omega (arith, ap (λ (t : ℕ). q * t) (pow-suc 2 k)) in
    ground (
      arith,
      bit_or_step (q * 2 ^ suc k) r,
      e,
      bit_or-fields k q (r / 2) (omega (arith, pow-suc 2 k)),
    )

pub bit_or-byte : (x r : ℕ) → x % 256 ≡ 0 → r < 256 → bit_or x r ≡ x + r
bit_or-byte x r hx h =
    let e : x ≡ x / 256 * 2 ^ 8 = omega arith in
    let f : x / 256 * 2 ^ 8 + r ≡ x + r = omega arith in
    ap (λ (t : ℕ). bit_or t r) e ∙ bit_or-fields 8 (x / 256) r h ∙ f

-- A mask of high bits.
bit_and-shifted : (k m x : ℕ) → bit_and x (m * 2 ^ k) ≡ bit_and (x / 2 ^ k) m * 2 ^ k
bit_and-shifted zero m x =
    let e : m * 1 ≡ m = omega arith in let f : x / 1 ≡ x = omega arith in rw (e, f) (omega arith)
bit_and-shifted (suc k) m x =
    let e : m * 2 ^ suc k ≡ 2 * (m * 2 ^ k) = omega (arith, ap (λ (t : ℕ). m * t) (pow-suc 2 k)) in
    let half : 2 * (m * 2 ^ k) / 2 ≡ m * 2 ^ k = omega arith in
    let d : x / 2 ^ suc k ≡ x / 2 / 2 ^ k =
      ap (λ (t : ℕ). x / t) (omega (arith, pow-suc 2 k)) ∙ sym (div-div-eq-div-mul x 2 (2 ^ k)) in
    let p : bit_and (x / 2 / 2 ^ k) m * 2 ^ suc k ≡ 2 * (bit_and (x / 2 / 2 ^ k) m * 2 ^ k) =
      omega (arith, ap (λ (t : ℕ). bit_and (x / 2 / 2 ^ k) m * t) (pow-suc 2 k)) in
    rw (e, d, p)
      (omega (
        arith,
        bit_and_step x (2 * (m * 2 ^ k)),
        ap (bit_and (x / 2)) half,
        bit_and-shifted k m (x / 2),
      ))

nine_bits : ℕ → Bool
nine_bits y = bit_and y 0x1FF == y

nine_table : all_below 512 nine_bits ≡ true
unfolding all_below nine_bits
nine_table = refl

bit_and-nine : (y : ℕ) → y < 512 → bit_and y 0x1FF ≡ y
unfolding nine_bits
bit_and-nine y h = (==_iff _ _).0 (all_below_sound 512 nine_bits y nine_table h)

-- The test of the 9 highest bits.
pub redundant-4 : (x : ℕ) → x < 2 ^ 32 → is_redundant 4 x ≡ (x / 2 ^ 23 == 0 || x / 2 ^ 23 == 511)
redundant-4 x h =
    let e : bit_and x (sign_mask 4) ≡ x / 2 ^ 23 * 2 ^ 23 =
      bit_and-shifted 23 0x1FF x
      ∙ ap (λ (t : ℕ). t * 2 ^ 23) (bit_and-nine (x / 2 ^ 23) (omega arith)) in
    ground (arith, e)

pub redundant-8 : (x : ℕ) → x < 2 ^ 64 → is_redundant 8 x ≡ (x / 2 ^ 55 == 0 || x / 2 ^ 55 == 511)
redundant-8 x h =
    let e : bit_and x (sign_mask 8) ≡ x / 2 ^ 55 * 2 ^ 55 =
      bit_and-shifted 55 0x1FF x
      ∙ ap (λ (t : ℕ). t * 2 ^ 55) (bit_and-nine (x / 2 ^ 55) (omega arith)) in
    ground (arith, e)

pub push-4 : (r b : ℕ) → b < 256 → push_byte 4 r b ≡ r * 2 ^ 8 % 2 ^ 32 + b
unfolding push_byte
push-4 r b h = bit_or-byte (r * 2 ^ 8 % 2 ^ 32) b (omega arith) h

pub push-8 : (r b : ℕ) → b < 256 → push_byte 8 r b ≡ r * 2 ^ 8 % 2 ^ 64 + b
unfolding push_byte
push-8 r b h = bit_or-byte (r * 2 ^ 8 % 2 ^ 64) b (omega arith) h

high_bit : ℕ → Bool
high_bit b = bit_and b 0x80 == b / 128 * 128

high_bit_table : all_below 256 high_bit ≡ true
unfolding all_below high_bit
high_bit_table = refl

pub sign_bit : (b : ℕ) → b < 256 → bit_and b 0x80 ≡ b / 128 * 128
unfolding high_bit
sign_bit b h = (==_iff _ _).0 (all_below_sound 256 high_bit b high_bit_table h)

-- The number that the `n` highest bytes of a word of `w` bytes stand for, as such a word.
abbrev pub high_part : ℕ → ℕ → ℕ → ℕ
high_part w n x =
    if ltb x (2 ^ (8 * w - 1))
    then x / 2 ^ (8 * (w - n))
    else x / 2 ^ (8 * (w - n)) + 2 ^ (8 * w) - 2 ^ (8 * n)

-- Of a word's bytes, from 1 to `n` are kept, and they stand for the same number.
abbrev pub Shrunk : ℕ → ℕ → ℕ → ℕ × ℕ → Type 0
Shrunk w n x (m, y) = (1 ≤ m) × (m ≤ n) × (y < 2 ^ (8 * w)) × (high_part w m y ≡ high_part w n x)

module _ (w : ℕ) where
  abbrev pub Drops : ℕ → Type 0
  Drops n = (x : ℕ) → x < 2 ^ (8 * w) → Shrunk w n x (drop_redundant w n x)

  pub drop-one : Drops 1
  unfolding drop_redundant
  drop-one x h = (omega arith, omega arith, h, refl)

  pub drop-next :
      (k : ℕ)
      → ((x : ℕ)
          → x < 2 ^ (8 * w)
          → is_redundant w x ≡ true
          → high_part w (suc k) (shift_byte w x) ≡ high_part w (suc (suc k)) x)
      → Drops (suc k)
      → Drops (suc (suc k))
  unfolding drop_redundant
  drop-next k step rest x h = elim (Bool-cases (is_redundant w x)) [
    | inl r ↦
        let (lo, hi, lt, e) = rest (shift_byte w x) (omega arith) in
        rw r (lo, omega arith, lt, e ∙ step x h r)
    | inr kept ↦ rw kept (omega arith, omega arith, h, refl)
  ]
