-- ===== src/Wire/Decode.antt =====
-- src/api/decode_pri.cc. The pointer that the functions advance is the list of bytes from there on;
-- `none` is a read past its end.
use mathlib.Core.List.{reverse}
use mxtce_geni_scs.Base.{
  ℕ, zero, suc, ◌+◌, ◌*◌, ◌%◌, ◌^◌, ◌-◌, bit_and, bit_or, Bool, not, Option, none, some, List, [],
  ◌∷◌, ◌==◌, ltb, if◌then◌else◌, ◌>>=◌,
}

unfoldable pub next_byte : List ℕ → Option (ℕ × List ℕ)
next_byte [] = none
next_byte (b ∷ rest) = some (b, rest)

-- length=(length<<8) | byte, `n` times; `length` is an `int`.
unfoldable pub read_length : ℕ → ℕ → List ℕ → Option (ℕ × List ℕ)
read_length zero length bytes = some (length, bytes)
read_length (suc n) length bytes = do
  (b, rest) ← next_byte bytes
  read_length n (bit_or (length * 2 ^ 8 % 2 ^ 32) b) rest

-- The length, `len_tag_len`, and what is left.
unfoldable pub get_len : List ℕ → Option (ℕ × ℕ × List ℕ)
get_len bytes = do
  (field, rest) ← next_byte bytes
  if ltb 0 (bit_and field 0x80)
      then (do
        (length, rest') ← read_length (bit_and field 0x7F) 0 rest
        some (length, bit_and field 0x7F + 1, rest'))
      else some (field, 1, rest)

unfoldable pub decode_boolean : List ℕ → Option (Bool × List ℕ)
decode_boolean bytes = do (b, rest) ← next_byte bytes; some (not (b == 0), rest)

-- (result<<8) | byte, in a word of `w` bytes.
unfoldable pub push_byte : ℕ → ℕ → ℕ → ℕ
push_byte w result byte = bit_or (result * 2 ^ 8 % 2 ^ (8 * w)) byte

-- The loop of `decodeInt` and `decodeLong`: `byte` was read before, and the next is read only if
-- one is left.
unfoldable pub read_word : ℕ → ℕ → ℕ → ℕ → List ℕ → Option (ℕ × List ℕ)
read_word w zero result byte bytes = some (result, bytes)
read_word w (suc zero) result byte bytes = some (push_byte w result byte, bytes)
read_word w (suc (suc n)) result byte bytes = do
  (b, rest) ← next_byte bytes
  read_word w (suc n) (push_byte w result byte) b rest

unfoldable pub decode_word : ℕ → ℕ → List ℕ → Option (ℕ × List ℕ)
decode_word w length bytes = do
  (b, rest) ← next_byte bytes
  read_word w length (if ltb 0 (bit_and b 0x80) then 2 ^ (8 * w) - 1 else 0) b rest

unfoldable pub decode_int : List ℕ → ℕ → Option (ℕ × List ℕ)
unfolding decode_word
decode_int bytes length = decode_word 4 length bytes

unfoldable pub decode_long : List ℕ → ℕ → Option (ℕ × List ℕ)
unfolding decode_word
decode_long bytes length = decode_word 8 length bytes

unfoldable pub decode_str : List ℕ → ℕ → Option (List ℕ × List ℕ)
decode_str bytes zero = some ([], bytes)
decode_str bytes (suc n) = do
  (c, rest) ← next_byte bytes
  (text, rest') ← decode_str rest n
  some (c ∷ text, rest')

-- The four or eight bytes of a `float` or a `double`, from the last to the first.
unfoldable pub decode_flo : List ℕ → Option (List ℕ × List ℕ)
decode_flo bytes = do (flipped, rest) ← decode_str bytes 4; some (reverse flipped, rest)

unfoldable pub decode_dou : List ℕ → Option (List ℕ × List ℕ)
decode_dou bytes = do (flipped, rest) ← decode_str bytes 8; some (reverse flipped, rest)
