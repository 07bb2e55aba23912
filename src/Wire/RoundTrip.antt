-- ===== src/Wire/RoundTrip.antt =====
-- A field that src/api/encode_pri.cc writes is read back by src/api/decode_pri.cc: the type, the
-- length and the value, whatever follows it.
use mxtce_geni_scs.Base.{
  ℕ, zero, suc, ◌+◌, ◌*◌, ◌/◌, ◌%◌, ◌^◌, ◌≤◌, ◌<◌, ◌≡◌, refl, ap, ◌∙◌, Bool, Option, some, List, [],
  ◌∷◌, ◌++◌, arith, length, length-append, All-append, if◌then◌else◌, ◌>>=◌, Option-cases, inl, inr,
}
use mathlib.Core.Path.{fun_ext, subst}
use mathlib.Core.List.{append_assoc, reverse, reverse-cons, reverse-reverse}
use mxtce_geni_scs.Wire.{
  Buffer, put, put_all, buff_rem_check, length_field, encode_header, encode_string, encode_boolean,
  encode_integer, encode_long, encode_float, encode_double, drop_redundant, word_bytes, shift_byte,
}
use mxtce_geni_scs.Wire.Decode.{
  next_byte, read_length, get_len, decode_str, decode_boolean, decode_int, decode_long, decode_flo,
  decode_dou,
}
use mxtce_geni_scs.Wire.Writing.{IsBytes, IsValid, written, put_all-Wrote, buff_rem_check-HasRoom}
use mxtce_geni_scs.Wire.Words.{bit_or-byte, sign_bit}
use mxtce_geni_scs.Wire.Int32.{drop-four, decodes as decodes_int}
use mxtce_geni_scs.Wire.Int64.{drop-eight, decodes as decodes_long}

-- One field as the readers of the API take it: type, length, value.
abbrev pub read_field {ℓ} :
    {A : Type ℓ} → (List ℕ → ℕ → Option (A × List ℕ)) → List ℕ → Option (ℕ × A × List ℕ)
read_field decode bytes = do
  (type, after_type) ← next_byte bytes
  (size, tag_len, after_size) ← get_len after_type
  (value, rest) ← decode after_size size
  some (type, value, rest)

abbrev pub max_field : ℕ
max_field = 0xFFFFFF

length_field-IsBytes : (size : ℕ) → IsBytes (length_field size)
unfolding length_field
length_field-IsBytes size = ground arith

length-length_field : (size : ℕ) → length (length_field size) ≤ 4
unfolding length_field
length-length_field size = ground arith

-- The length that a header encodes is the one that `getLen` reads.
get_len-length_field :
    (size : ℕ) (rest : List ℕ)
    → size ≤ max_field
    → get_len (length_field size ++ rest) ≡ some (size, length (length_field size), rest)
unfolding length_field get_len read_length next_byte
get_len-length_field size rest h =
    let b₀ = size % 256 in
    let b₁ = size / 2 ^ 8 % 256 in
    let b₂ = size / 2 ^ 16 % 256 in
    ground (
      arith,
      sign_bit size,
      bit_or-byte 0 b₀ (omega arith) (omega arith),
      bit_or-byte 0 b₁ (omega arith) (omega arith),
      bit_or-byte 0 b₂ (omega arith) (omega arith),
      bit_or-byte (b₁ * 2 ^ 8 % 2 ^ 32) b₀ (omega arith) (omega arith),
      bit_or-byte (b₂ * 2 ^ 8 % 2 ^ 32) b₁ (omega arith) (omega arith),
      bit_or-byte ((b₂ * 2 ^ 8 + b₁) * 2 ^ 8 % 2 ^ 32) b₀ (omega arith) (omega arith),
    )

-- `encoded` appends one field to any valid buffer, and `decode` reads that field back as `value`,
-- whatever follows it.
pub record RoundTrips {ℓ} {A : Type ℓ} (decode : List ℕ → ℕ → Option (A × List ℕ)) (pce_type : ℕ)
    (value : A) (b : Buffer) (encoded : Option Buffer) : Type ℓ where
  pub after : Buffer
  pub field : List ℕ
  pub encodes : encoded ≡ some after
  pub IsValid_after : IsValid after
  pub appended : written after ≡ written b ++ field
  pub reads : (rest : List ℕ) → read_field decode (field ++ rest) ≡ some (pce_type, value, rest)

module _ {ℓ} {A : Type ℓ} (decode : List ℕ → ℕ → Option (A × List ℕ)) (pce_type : ℕ)
    (small : pce_type < 256) (b : Buffer) (v : IsValid b) where
  -- Any field that makes room for its length and its value, and then writes them.
  field-RoundTrips :
      (value : A) (content : List ℕ) (size : ℕ)
      → length content ≡ size
      → IsBytes content
      → size ≤ max_field
      → ((rest : List ℕ) → decode (content ++ rest) size ≡ some (value, rest))
      → RoundTrips decode pce_type value b
          (encode_header pce_type size (buff_rem_check (size + 6) b) >>= λ b'. put_all content b')
  unfolding encode_header next_byte
  field-RoundTrips value content size sized bytes fits reads =
      let r = buff_rem_check-HasRoom (size + 6) b v in
      let (b₁, e₁, w₁) =
        put_all-Wrote (pce_type ∷ length_field size) (buff_rem_check (size + 6) b)
          (small, length_field-IsBytes size) r.IsValid_after
          (omega (arith, r.room, length-length_field size)) in
      let (b₂, e₂, w₂) =
        put_all-Wrote content b₁ bytes w₁.IsValid_after
          (omega (arith, sized, r.room, w₁.moved, w₁.same_cap, length-length_field size)) in
      record {
        after = b₂;
        field = pce_type ∷ (length_field size ++ content);
        encodes = rw e₁ e₂;
        IsValid_after = w₂.IsValid_after;
        appended =
            w₂.appended
            ∙ ap (λ t. t ++ content)
                (w₁.appended ∙ ap (λ t. t ++ pce_type ∷ length_field size) r.kept)
            ∙ append_assoc (written b) (pce_type ∷ length_field size) content;
        reads = λ rest. rw (
          append_assoc (length_field size) content rest,
          get_len-length_field size (content ++ rest) fits,
          reads rest,
        );
      }

decode_str-append :
    (value rest : List ℕ) → decode_str (value ++ rest) (length value) ≡ some (value, rest)
unfolding decode_str next_byte
decode_str-append [] rest = refl
decode_str-append (c ∷ value) rest = rw (decode_str-append value rest)

length-word_bytes : (w n x : ℕ) → length (word_bytes w n x) ≡ n
unfolding word_bytes
length-word_bytes w zero x = refl
length-word_bytes w (suc n) x = ap suc (length-word_bytes w n (shift_byte w x))

word_bytes-IsBytes : (w n x : ℕ) → IsBytes (word_bytes w n x)
unfolding word_bytes
word_bytes-IsBytes w zero x = tt
word_bytes-IsBytes w (suc n) x = (omega arith, word_bytes-IsBytes w n (shift_byte w x))

put_all-one : (byte : ℕ) → (λ b. put_all (byte ∷ []) b) ≡ put byte
unfolding put_all
put_all-one byte =
    fun_ext λ b. elim (Option-cases (put byte b)) [ inl e ↦ rw e | inr (b', e) ↦ rw e ]

reverse-IsBytes : (xs : List ℕ) → IsBytes xs → IsBytes (reverse xs)
reverse-IsBytes [] h = tt
reverse-IsBytes (x ∷ xs) h =
    rw (reverse-cons x xs) (All-append _ (reverse xs) (x ∷ []) (reverse-IsBytes xs h.1) (h.0, tt))

length-reverse : (xs : List ℕ) → length (reverse xs) ≡ length xs
length-reverse [] = refl
length-reverse (x ∷ xs) =
    omega
      (arith, ap length (reverse-cons x xs), length-append (reverse xs) (x ∷ []), length-reverse xs)

decode_flipped :
    (value rest : List ℕ) (size : ℕ)
    → length value ≡ size
    → decode_str (reverse value ++ rest) size ≡ some (reverse value, rest)
decode_flipped value rest size h =
    rw (← h, ← length-reverse value) (decode_str-append (reverse value) rest)

module _ (pce_type : ℕ) (small : pce_type < 256) (b : Buffer) (v : IsValid b) where
  -- With a type below 256 and a valid buffer, `encodeString` of at most 0xFFFFFF bytes succeeds and appends one field,
  -- which is read back as that type and those bytes, whatever follows it.
  pub encode_string-RoundTrips :
      (value : List ℕ)
      → IsBytes value
      → length value ≤ max_field
      → RoundTrips decode_str pce_type value b (encode_string pce_type value b)
  unfolding encode_string
  encode_string-RoundTrips value bytes fits =
      field-RoundTrips decode_str pce_type small b v value value (length value) refl bytes fits
        (decode_str-append value)

  -- With a type below 256 and a valid buffer, `encodeBoolean` succeeds and appends one field, which is
  -- read back as that type and that Boolean, whatever follows it.
  pub encode_boolean-RoundTrips :
      (value : Bool)
      → RoundTrips
          (λ bytes size. decode_boolean bytes)
          pce_type
          value
          b
          (encode_boolean pce_type value b)
  unfolding encode_boolean decode_boolean next_byte
  encode_boolean-RoundTrips value =
      let byte : ℕ = if value then 0x01 else 0x00 in
      subst
        (λ k.
          RoundTrips (λ bytes size. decode_boolean bytes) pce_type value b
            (encode_header pce_type 1 (buff_rem_check (1 + 6) b) >>= k))
        (put_all-one byte)
        (field-RoundTrips (λ bytes size. decode_boolean bytes) pce_type small b v value (byte ∷ [])
          1 refl (ground arith) (omega arith) (λ rest. ground arith))

  -- With a type below 256 and a valid buffer, `encodeInteger` of the bit pattern of an `int` succeeds and appends one
  -- field, which is read back as that type and that pattern, whatever follows it.
  pub encode_integer-RoundTrips :
      (value : ℕ)
      → value < 2 ^ 32
      → RoundTrips decode_int pce_type value b (encode_integer pce_type value b)
  unfolding encode_integer decode_int
  encode_integer-RoundTrips value fits =
      let m = (drop_redundant 4 4 value).0 in
      let y = (drop_redundant 4 4 value).1 in
      let (lo, hi, lt, same) = drop-four value fits in
      field-RoundTrips decode_int pce_type small b v value (word_bytes 4 m y) m
        (length-word_bytes 4 m y) (word_bytes-IsBytes 4 m y) (omega arith)
        (λ rest. decodes_int m lo hi y rest lt ∙ ap (λ (t : ℕ). some (t, rest)) (ground arith))

  -- With a type below 256 and a valid buffer, `encodeLong` of a number of 64 bits succeeds and appends one field,
  -- which is read back as that type and that number, whatever follows it.
  pub encode_long-RoundTrips :
      (value : ℕ)
      → value < 2 ^ 64
      → RoundTrips decode_long pce_type value b (encode_long pce_type value b)
  unfolding encode_long decode_long
  encode_long-RoundTrips value fits =
      let m = (drop_redundant 8 8 value).0 in
      let y = (drop_redundant 8 8 value).1 in
      let (lo, hi, lt, same) = drop-eight value fits in
      field-RoundTrips decode_long pce_type small b v value (word_bytes 8 m y) m
        (length-word_bytes 8 m y) (word_bytes-IsBytes 8 m y) (omega arith)
        (λ rest. decodes_long m lo hi y rest lt ∙ ap (λ (t : ℕ). some (t, rest)) (ground arith))

  -- With a type below 256 and a valid buffer, `encodeFloat` of four bytes succeeds and appends one field, which is
  -- read back as that type and those bytes, whatever follows it.
  pub encode_float-RoundTrips :
      (value : List ℕ)
      → IsBytes value
      → length value ≡ 4
      → RoundTrips (λ bytes size. decode_flo bytes) pce_type value b (encode_float pce_type value b)
  unfolding encode_float decode_flo
  encode_float-RoundTrips value bytes four =
      field-RoundTrips (λ bytes size. decode_flo bytes) pce_type small b v value (reverse value) 4
        (length-reverse value ∙ four) (reverse-IsBytes value bytes) (omega arith)
        (λ rest. rw (decode_flipped value rest 4 four) (rw (reverse-reverse value)))

  -- With a type below 256 and a valid buffer, `encodeDouble` of eight bytes succeeds and appends one field, which is
  -- read back as that type and those bytes, whatever follows it.
  pub encode_double-RoundTrips :
      (value : List ℕ)
      → IsBytes value
      → length value ≡ 8
      → RoundTrips
          (λ bytes size. decode_dou bytes)
          pce_type
          value
          b
          (encode_double pce_type value b)
  unfolding encode_double decode_dou
  encode_double-RoundTrips value bytes eight =
      field-RoundTrips (λ bytes size. decode_dou bytes) pce_type small b v value (reverse value) 8
        (length-reverse value ∙ eight) (reverse-IsBytes value bytes) (omega arith)
        (λ rest. rw (decode_flipped value rest 8 eight) (rw (reverse-reverse value)))
