-- ===== src/Wire/Int64.antt =====
-- `u_int64_t` values through `encodeLong` of src/api/encode_pri.cc and `decodeLong` of src/api/decode_pri.cc.
use mxtce_geni_scs.Base.{
  ℕ, zero, suc, ◌+◌, ◌-◌, ◌*◌, ◌/◌, ◌%◌, ◌^◌, ◌≤◌, ◌<◌, ◌≡◌, ap, ◌∙◌, some, List, ◌++◌, arith,
}
use mxtce_geni_scs.Wire.{word_bytes, shift_byte}
use mxtce_geni_scs.Wire.Decode.{next_byte, read_word, decode_word, push_byte}
use mxtce_geni_scs.Wire.Words.{redundant-8, push-8, sign_bit, high_part, Drops, drop-one, drop-next}

drop-two : Drops 8 2
drop-two = drop-next 8 0 (λ x h r. ground (arith, redundant-8 x h)) (drop-one 8)

drop-three : Drops 8 3
drop-three = drop-next 8 1 (λ x h r. ground (arith, redundant-8 x h)) drop-two

drop-four : Drops 8 4
drop-four = drop-next 8 2 (λ x h r. ground (arith, redundant-8 x h)) drop-three

drop-five : Drops 8 5
drop-five = drop-next 8 3 (λ x h r. ground (arith, redundant-8 x h)) drop-four

drop-six : Drops 8 6
drop-six = drop-next 8 4 (λ x h r. ground (arith, redundant-8 x h)) drop-five

drop-seven : Drops 8 7
drop-seven = drop-next 8 5 (λ x h r. ground (arith, redundant-8 x h)) drop-six

pub drop-eight : Drops 8 8
drop-eight = drop-next 8 6 (λ x h r. ground (arith, redundant-8 x h)) drop-seven

-- Reading `n` bytes shifts them into the result.
abbrev Reads : ℕ → Type 0
Reads n =
    (r y : ℕ) (rest : List ℕ)
    → r < 2 ^ 64
    → y < 2 ^ 64
    → read_word 8 (suc n) r (y / 2 ^ 56 % 256) (word_bytes 8 n (shift_byte 8 y) ++ rest)
      ≡ some ((r * 2 ^ (8 * suc n) + y / 2 ^ (8 * (8 - suc n))) % 2 ^ 64, rest)

read-one : Reads 0
unfolding read_word word_bytes
read-one r y rest hr hy =
    ap (λ (t : ℕ). some (t, rest)) (omega (arith, push-8 r (y / 2 ^ 56 % 256) (omega arith)))

read-two : Reads 1
unfolding read_word word_bytes next_byte
read-two r y rest hr hy =
    let pushed = push-8 r (y / 2 ^ 56 % 256) (omega arith) in
    read-one (push_byte 8 r (y / 2 ^ 56 % 256)) (shift_byte 8 y) rest (omega (arith, pushed))
      (omega arith)
    ∙ ap (λ (t : ℕ). some (t, rest)) (omega (arith, pushed))

read-three : Reads 2
unfolding read_word word_bytes next_byte
read-three r y rest hr hy =
    let pushed = push-8 r (y / 2 ^ 56 % 256) (omega arith) in
    read-two (push_byte 8 r (y / 2 ^ 56 % 256)) (shift_byte 8 y) rest (omega (arith, pushed))
      (omega arith)
    ∙ ap (λ (t : ℕ). some (t, rest)) (omega (arith, pushed))

read-four : Reads 3
unfolding read_word word_bytes next_byte
read-four r y rest hr hy =
    let pushed = push-8 r (y / 2 ^ 56 % 256) (omega arith) in
    read-three (push_byte 8 r (y / 2 ^ 56 % 256)) (shift_byte 8 y) rest (omega (arith, pushed))
      (omega arith)
    ∙ ap (λ (t : ℕ). some (t, rest)) (omega (arith, pushed))

read-five : Reads 4
unfolding read_word word_bytes next_byte
read-five r y rest hr hy =
    let pushed = push-8 r (y / 2 ^ 56 % 256) (omega arith) in
    read-four (push_byte 8 r (y / 2 ^ 56 % 256)) (shift_byte 8 y) rest (omega (arith, pushed))
      (omega arith)
    ∙ ap (λ (t : ℕ). some (t, rest)) (omega (arith, pushed))

read-six : Reads 5
unfolding read_word word_bytes next_byte
read-six r y rest hr hy =
    let pushed = push-8 r (y / 2 ^ 56 % 256) (omega arith) in
    read-five (push_byte 8 r (y / 2 ^ 56 % 256)) (shift_byte 8 y) rest (omega (arith, pushed))
      (omega arith)
    ∙ ap (λ (t : ℕ). some (t, rest)) (omega (arith, pushed))

read-seven : Reads 6
unfolding read_word word_bytes next_byte
read-seven r y rest hr hy =
    let pushed = push-8 r (y / 2 ^ 56 % 256) (omega arith) in
    read-six (push_byte 8 r (y / 2 ^ 56 % 256)) (shift_byte 8 y) rest (omega (arith, pushed))
      (omega arith)
    ∙ ap (λ (t : ℕ). some (t, rest)) (omega (arith, pushed))

read-eight : Reads 7
unfolding read_word word_bytes next_byte
read-eight r y rest hr hy =
    let pushed = push-8 r (y / 2 ^ 56 % 256) (omega arith) in
    read-seven (push_byte 8 r (y / 2 ^ 56 % 256)) (shift_byte 8 y) rest (omega (arith, pushed))
      (omega arith)
    ∙ ap (λ (t : ℕ). some (t, rest)) (omega (arith, pushed))

-- Decoding the `n` bytes gives the number that they stand for.
abbrev pub Decodes : ℕ → Type 0
Decodes n =
    (y : ℕ) (rest : List ℕ)
    → y < 2 ^ 64
    → decode_word 8 n (word_bytes 8 n y ++ rest) ≡ some (high_part 8 n y, rest)

Decodes-one : Decodes 1
unfolding decode_word word_bytes next_byte
Decodes-one y rest h = ground (
  arith,
  sign_bit (y / 2 ^ 56 % 256) (omega arith),
  read-one 0 y rest (omega arith) h,
  read-one (2 ^ 64 - 1) y rest (omega arith) h,
)

Decodes-two : Decodes 2
unfolding decode_word word_bytes next_byte
Decodes-two y rest h = ground (
  arith,
  sign_bit (y / 2 ^ 56 % 256) (omega arith),
  read-two 0 y rest (omega arith) h,
  read-two (2 ^ 64 - 1) y rest (omega arith) h,
)

Decodes-three : Decodes 3
unfolding decode_word word_bytes next_byte
Decodes-three y rest h = ground (
  arith,
  sign_bit (y / 2 ^ 56 % 256) (omega arith),
  read-three 0 y rest (omega arith) h,
  read-three (2 ^ 64 - 1) y rest (omega arith) h,
)

Decodes-four : Decodes 4
unfolding decode_word word_bytes next_byte
Decodes-four y rest h = ground (
  arith,
  sign_bit (y / 2 ^ 56 % 256) (omega arith),
  read-four 0 y rest (omega arith) h,
  read-four (2 ^ 64 - 1) y rest (omega arith) h,
)

Decodes-five : Decodes 5
unfolding decode_word word_bytes next_byte
Decodes-five y rest h = ground (
  arith,
  sign_bit (y / 2 ^ 56 % 256) (omega arith),
  read-five 0 y rest (omega arith) h,
  read-five (2 ^ 64 - 1) y rest (omega arith) h,
)

Decodes-six : Decodes 6
unfolding decode_word word_bytes next_byte
Decodes-six y rest h = ground (
  arith,
  sign_bit (y / 2 ^ 56 % 256) (omega arith),
  read-six 0 y rest (omega arith) h,
  read-six (2 ^ 64 - 1) y rest (omega arith) h,
)

Decodes-seven : Decodes 7
unfolding decode_word word_bytes next_byte
Decodes-seven y rest h = ground (
  arith,
  sign_bit (y / 2 ^ 56 % 256) (omega arith),
  read-seven 0 y rest (omega arith) h,
  read-seven (2 ^ 64 - 1) y rest (omega arith) h,
)

Decodes-eight : Decodes 8
unfolding decode_word word_bytes next_byte
Decodes-eight y rest h = ground (
  arith,
  sign_bit (y / 2 ^ 56 % 256) (omega arith),
  read-eight 0 y rest (omega arith) h,
  read-eight (2 ^ 64 - 1) y rest (omega arith) h,
)

pub decodes : (n : ℕ) → 1 ≤ n → n ≤ 8 → Decodes n
decodes zero lo hi = absurd (omega arith)
decodes (suc zero) lo hi = Decodes-one
decodes (suc (suc zero)) lo hi = Decodes-two
decodes (suc (suc (suc zero))) lo hi = Decodes-three
decodes (suc (suc (suc (suc zero)))) lo hi = Decodes-four
decodes (suc (suc (suc (suc (suc zero))))) lo hi = Decodes-five
decodes (suc (suc (suc (suc (suc (suc zero)))))) lo hi = Decodes-six
decodes (suc (suc (suc (suc (suc (suc (suc zero))))))) lo hi = Decodes-seven
decodes (suc (suc (suc (suc (suc (suc (suc (suc zero)))))))) lo hi = Decodes-eight
decodes (suc (suc (suc (suc (suc (suc (suc (suc (suc k))))))))) lo hi = absurd (omega arith)
