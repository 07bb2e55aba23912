-- ===== src/Wire.antt =====
-- The primitive encodings of the API protocol: src/api/encode_pri.cc and src/api/decode_pri.cc.
-- Arrays that `new` leaves uninitialised hold 0 here: no code reads them before it writes them.
pub mod Decode
pub mod Words
pub mod Int32
pub mod Int64
pub mod Writing
pub mod RoundTrip
use mathlib.Core.List.{reverse}
use mxtce_geni_scs.Base.{
  ℕ, zero, suc, ◌+◌, ◌-◌, ◌*◌, ◌/◌, ◌%◌, ◌^◌, bit_and, bit_or, Bool, true, false, ◌&&◌, ◌||◌,
  Option, none, some, List, [], ◌∷◌, ◌++◌, ◌==◌, ltb, leb, if◌then◌else◌, ◌>>=◌, length, set, take,
  replicate,
}

abbrev pub asn_long_len : ℕ
asn_long_len = 0x80

abbrev pub init_buff_size : ℕ
init_buff_size = 32

pub record Buffer : Type 0 where
  pub buff : List ℕ
  pub current_cap : ℕ
  pub offset : ℕ

unfoldable pub create_buff : Buffer
create_buff = record { buff = replicate init_buff_size 0; current_cap = init_buff_size; offset = 0 }

unfoldable pub expand_buff : ℕ → Buffer → Buffer
expand_buff addition_size b =
    let size =
      if ltb addition_size b.current_cap
      then b.current_cap * 2
      else b.current_cap + addition_size in
    record b { buff = take b.offset b.buff ++ replicate (size - b.offset) 0; current_cap = size }

-- `current_cap` is at least `offset`.
unfoldable pub buff_rem_check : ℕ → Buffer → Buffer
buff_rem_check req_size b =
    let remain_size = b.current_cap - b.offset in
    if leb remain_size (req_size + 8) then expand_buff (req_size + 8 - remain_size) b else b

unfoldable pub buff_prune : Buffer → Buffer
buff_prune b = record b { buff = take b.offset b.buff; current_cap = b.offset }

unfoldable pub reset_length : Buffer → Buffer
reset_length b = record b { offset = 0 }

-- buff[offset++] = (u_int8_t)byte; a write past the array is a fault.
unfoldable pub put : ℕ → Buffer → Option Buffer
put byte b =
    if ltb b.offset (length b.buff)
    then some (record b { buff = set b.buff b.offset (byte % 256); offset = b.offset + 1 })
    else none

unfoldable pub put_all : List ℕ → Buffer → Option Buffer
put_all [] b = some b
put_all (byte ∷ bytes) b = do b' ← put byte b; put_all bytes b'

-- The length field that `encodeHeader` writes: none, if the length is above 0xFFFFFF.
unfoldable pub length_field : ℕ → List ℕ
length_field length =
    if ltb length 0x80
    then (length % 256) ∷ []
    else if leb length 0xFF
    then bit_or 0x01 asn_long_len ∷ (length % 256) ∷ []
    else if leb length 0xFFFF
    then bit_or 0x02 asn_long_len ∷ (length / 2 ^ 8 % 256) ∷ (length % 256) ∷ []
    else if leb length 0xFFFFFF
    then bit_or 0x03 asn_long_len
      ∷ (length / 2 ^ 16 % 256)
      ∷ (length / 2 ^ 8 % 256)
      ∷ (length % 256)
      ∷ []
    else []

unfoldable pub encode_header : ℕ → ℕ → Buffer → Option Buffer
encode_header pce_type length b = put_all (pce_type ∷ length_field length) b

unfoldable pub encode_boolean : ℕ → Bool → Buffer → Option Buffer
encode_boolean pce_type value b = do
  b' ← encode_header pce_type 1 (buff_rem_check (1 + 6) b)
  put (if value then 0x01 else 0x00) b'

-- `(x & mask)==0 || (x & mask)==mask`, where `mask` has the 9 highest bits of a word of `w` bytes.
abbrev pub sign_mask : ℕ → ℕ
sign_mask w = 0x1FF * 2 ^ (8 * (w - 1) - 1)

abbrev pub is_redundant : ℕ → ℕ → Bool
is_redundant w x = bit_and x (sign_mask w) == 0 || bit_and x (sign_mask w) == sign_mask w

abbrev pub shift_byte : ℕ → ℕ → ℕ
shift_byte w x = x * 2 ^ 8 % 2 ^ (8 * w)

-- The loop that drops leading bytes; `size` counts down to 1.
unfoldable pub drop_redundant : ℕ → ℕ → ℕ → ℕ × ℕ
drop_redundant w zero x = (0, x)
drop_redundant w (suc zero) x = (1, x)
drop_redundant w (suc (suc n)) x =
    let rest = drop_redundant w (suc n) (shift_byte w x) in
    if is_redundant w x then rest else (suc (suc n), x)

-- The loop that writes the highest byte and shifts, `size` times.
unfoldable pub word_bytes : ℕ → ℕ → ℕ → List ℕ
word_bytes w zero x = []
word_bytes w (suc n) x = (x / 2 ^ (8 * (w - 1)) % 256) ∷ word_bytes w n (shift_byte w x)

unfoldable pub encode_word : ℕ → ℕ → ℕ → Buffer → Option Buffer
encode_word w pce_type value b =
    let (size, x) = drop_redundant w w value in
    do
      b' ← encode_header pce_type size (buff_rem_check (size + 6) b)
      put_all (word_bytes w size x) b'

-- An `int` is its bit pattern of 32 bits.
unfoldable pub encode_integer : ℕ → ℕ → Buffer → Option Buffer
unfolding encode_word
encode_integer pce_type value b = encode_word 4 pce_type value b

unfoldable pub encode_long : ℕ → ℕ → Buffer → Option Buffer
unfolding encode_word
encode_long pce_type value b = encode_word 8 pce_type value b

unfoldable pub encode_string : ℕ → List ℕ → Buffer → Option Buffer
encode_string pce_type value b = do
  b' ← encode_header pce_type (length value) (buff_rem_check (length value + 6) b)
  put_all value b'

-- A `float` or a `double` is the list of its bytes in memory; they are written from the last.
unfoldable pub encode_float : ℕ → List ℕ → Buffer → Option Buffer
encode_float pce_type value b = do
  b' ← encode_header pce_type 4 (buff_rem_check (4 + 6) b)
  put_all (reverse value) b'

unfoldable pub encode_double : ℕ → List ℕ → Buffer → Option Buffer
encode_double pce_type value b = do
  b' ← encode_header pce_type 8 (buff_rem_check (8 + 6) b)
  put_all (reverse value) b'
