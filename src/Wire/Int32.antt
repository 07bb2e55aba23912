-- ===== src/Wire/Int32.antt =====
-- `int` values through `encodeInteger` of src/api/encode_pri.cc and `decodeInt` of src/api/decode_pri.cc.
use mxtce_geni_scs.Base.{
  ℕ, zero, suc, ◌+◌, ◌-◌, ◌*◌, ◌/◌, ◌%◌, ◌^◌, ◌≤◌, ◌<◌, ◌≡◌, ap, ◌∙◌, some, List, ◌++◌, arith,
}
use mxtce_geni_scs.Wire.{word_bytes, shift_byte}
use mxtce_geni_scs.Wire.Decode.{next_byte, read_word, decode_word, push_byte}
use mxtce_geni_scs.Wire.Words.{redundant-4, push-4, sign_bit, high_part, Drops, drop-one, drop-next}

drop-two : Drops 4 2
drop-two = drop-next 4 0 (λ x h r. ground (arith, redundant-4 x h)) (drop-one 4)

drop-three : Drops 4 3
drop-three = drop-next 4 1 (λ x h r. ground (arith, redundant-4 x h)) drop-two

pub drop-four : Drops 4 4
drop-four = drop-next 4 2 (λ x h r. ground (arith, redundant-4 x h)) drop-three

-- Reading `n` bytes shifts them into the result.
abbrev Reads : ℕ → Type 0
Reads n =
    (r y : ℕ) (rest : List ℕ)
    → r < 2 ^ 32
    → y < 2 ^ 32
    → read_word 4 (suc n) r (y / 2 ^ 24 % 256) (word_bytes 4 n (shift_byte 4 y) ++ rest)
      ≡ some ((r * 2 ^ (8 * suc n) + y / 2 ^ (8 * (4 - suc n))) % 2 ^ 32, rest)

read-one : Reads 0
unfolding read_word word_bytes
read-one r y rest hr hy =
    ap (λ (t : ℕ). some (t, rest)) (omega (arith, push-4 r (y / 2 ^ 24 % 256) (omega arith)))

read-two : Reads 1
unfolding read_word word_bytes next_byte
read-two r y rest hr hy =
    let pushed = push-4 r (y / 2 ^ 24 % 256) (omega arith) in
    read-one (push_byte 4 r (y / 2 ^ 24 % 256)) (shift_byte 4 y) rest (omega (arith, pushed))
      (omega arith)
    ∙ ap (λ (t : ℕ). some (t, rest)) (omega (arith, pushed))

read-three : Reads 2
unfolding read_word word_bytes next_byte
read-three r y rest hr hy =
    let pushed = push-4 r (y / 2 ^ 24 % 256) (omega arith) in
    read-two (push_byte 4 r (y / 2 ^ 24 % 256)) (shift_byte 4 y) rest (omega (arith, pushed))
      (omega arith)
    ∙ ap (λ (t : ℕ). some (t, rest)) (omega (arith, pushed))

read-four : Reads 3
unfolding read_word word_bytes next_byte
read-four r y rest hr hy =
    let pushed = push-4 r (y / 2 ^ 24 % 256) (omega arith) in
    read-three (push_byte 4 r (y / 2 ^ 24 % 256)) (shift_byte 4 y) rest (omega (arith, pushed))
      (omega arith)
    ∙ ap (λ (t : ℕ). some (t, rest)) (omega (arith, pushed))

-- Decoding the `n` bytes gives the number that they stand for.
abbrev pub Decodes : ℕ → Type 0
Decodes n =
    (y : ℕ) (rest : List ℕ)
    → y < 2 ^ 32
    → decode_word 4 n (word_bytes 4 n y ++ rest) ≡ some (high_part 4 n y, rest)

Decodes-one : Decodes 1
unfolding decode_word word_bytes next_byte
Decodes-one y rest h = ground (
  arith,
  sign_bit (y / 2 ^ 24 % 256) (omega arith),
  read-one 0 y rest (omega arith) h,
  read-one (2 ^ 32 - 1) y rest (omega arith) h,
)

Decodes-two : Decodes 2
unfolding decode_word word_bytes next_byte
Decodes-two y rest h = ground (
  arith,
  sign_bit (y / 2 ^ 24 % 256) (omega arith),
  read-two 0 y rest (omega arith) h,
  read-two (2 ^ 32 - 1) y rest (omega arith) h,
)

Decodes-three : Decodes 3
unfolding decode_word word_bytes next_byte
Decodes-three y rest h = ground (
  arith,
  sign_bit (y / 2 ^ 24 % 256) (omega arith),
  read-three 0 y rest (omega arith) h,
  read-three (2 ^ 32 - 1) y rest (omega arith) h,
)

Decodes-four : Decodes 4
unfolding decode_word word_bytes next_byte
Decodes-four y rest h = ground (
  arith,
  sign_bit (y / 2 ^ 24 % 256) (omega arith),
  read-four 0 y rest (omega arith) h,
  read-four (2 ^ 32 - 1) y rest (omega arith) h,
)

pub decodes : (n : ℕ) → 1 ≤ n → n ≤ 4 → Decodes n
decodes zero lo hi = absurd (omega arith)
decodes (suc zero) lo hi = Decodes-one
decodes (suc (suc zero)) lo hi = Decodes-two
decodes (suc (suc (suc zero))) lo hi = Decodes-three
decodes (suc (suc (suc (suc zero)))) lo hi = Decodes-four
decodes (suc (suc (suc (suc (suc k))))) lo hi = absurd (omega arith)
