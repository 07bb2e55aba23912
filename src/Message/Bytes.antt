-- ===== src/Message/Bytes.antt =====
-- Fields of a message of src/common/message.cc, written and read back.
use mathlib.Core.List.{append_assoc}
use mxtce_geni_scs.Base.{
  ℕ, zero, suc, ◌+◌, ◌-◌, ◌*◌, ◌/◌, ◌%◌, ◌<◌, ◌≤◌, ◌≡◌, ◌≢◌, refl, ap, ◌∙◌, Bool, true, false, some,
  List, [], ◌∷◌, ◌++◌, ltb, ◌==◌, arith, length, length-append, All, Bool-cases, inl, inr,
  if◌then◌else◌,
}
use mxtce_geni_scs.Message.{
  Tlv, put_u16, copy_name, put_tlvs, size_tlvs, put_flags, read_bytes, get_u16, read_name,
  get_urgent, get_tlv, get_tlvs,
}

pub get_u16-put_u16 :
    (n : ℕ) → n < 65536 → (bytes : List ℕ) → get_u16 (put_u16 n ++ bytes) ≡ some (n, bytes)
unfolding get_u16
get_u16-put_u16 n h bytes =
    let e : n % 256 + 256 * (n / 256 % 256) ≡ n = omega (arith, h) in rw e refl

pub read_bytes-length :
    (front bytes : List ℕ) → read_bytes (length front) (front ++ bytes) ≡ some (front, bytes)
unfolding read_bytes
read_bytes-length [] bytes = refl
read_bytes-length (b ∷ front) bytes = rw (read_bytes-length front bytes) refl

pub length-copy_name : (n : ℕ) → (name : List ℕ) → length (copy_name n name) ≡ n
unfolding copy_name
length-copy_name zero name = refl
length-copy_name (suc n) [] = omega (arith, length-copy_name n [])
length-copy_name (suc n) (c ∷ name) = omega (arith, length-copy_name n name)

-- A name that leaves room for a NUL and has none itself.
abbrev pub IsName : List ℕ → Type 0
IsName name = (length name < 64) × All (λ c. c ≢ 0) name

pub read_name-copy_name :
    (n : ℕ)
    → (name : List ℕ) → length name < n
    → All (λ c. c ≢ 0) name
    → (bytes : List ℕ) → read_name (copy_name n name ++ bytes) ≡ name
unfolding read_name copy_name
read_name-copy_name zero name fits visible bytes = absurd (omega (arith, fits))
read_name-copy_name (suc n) [] fits visible bytes = refl
read_name-copy_name (suc n) (c ∷ name) fits (some_char, visible) bytes =
    ground (arith, some_char, read_name-copy_name n name (omega (arith, fits)) visible bytes)

pub get_urgent-put_flags : (urgent : Bool) → get_urgent (put_flags urgent) ≡ urgent
unfolding get_urgent
get_urgent-put_flags true = refl
get_urgent-put_flags false = refl

-- The type and the value of a TLV fit, and no empty value comes last.
abbrev pub IsFit : Tlv → Type 0
IsFit tlv = (tlv.tlv_type < 65536) × (length tlv.value < 65536)

unfoldable pub IsTail : List Tlv → Type 0
IsTail [] = Unit
IsTail (tlv ∷ []) = 1 ≤ length tlv.value
IsTail (tlv ∷ next ∷ tlvs) = IsTail (next ∷ tlvs)

pub length-put_tlvs : (tlvs : List Tlv) → length (put_tlvs tlvs) ≡ size_tlvs tlvs
unfolding put_tlvs size_tlvs
length-put_tlvs [] = refl
length-put_tlvs (tlv ∷ tlvs) =
    omega (arith, length-append tlv.value (put_tlvs tlvs), length-put_tlvs tlvs)

get_tlv-put :
    (tlv : Tlv)
    → IsFit tlv
    → (bytes : List ℕ)
    → get_tlv (put_u16 tlv.tlv_type ++ (put_u16 (length tlv.value) ++ (tlv.value ++ bytes)))
      ≡ some (tlv, bytes)
unfolding get_tlv
get_tlv-put tlv fit bytes =
    rw (get_u16-put_u16 tlv.tlv_type fit.0 (put_u16 (length tlv.value) ++ (tlv.value ++ bytes))) (
      rw (get_u16-put_u16 (length tlv.value) fit.1 (tlv.value ++ bytes))
        (rw (read_bytes-length tlv.value bytes) refl))

put_tlvs-append :
    (tlv : Tlv)
    → (tlvs : List Tlv) → (bytes : List ℕ)
    → put_tlvs (tlv ∷ tlvs) ++ bytes
      ≡ put_u16 tlv.tlv_type
        ++ (put_u16 (length tlv.value) ++ (tlv.value ++ (put_tlvs tlvs ++ bytes)))
unfolding put_tlvs
put_tlvs-append tlv tlvs bytes =
    ap (λ rest. put_u16 tlv.tlv_type ++ (put_u16 (length tlv.value) ++ rest))
      (append_assoc tlv.value (put_tlvs tlvs) bytes)

-- A last TLV without a value is not read.
unfoldable pub kept_tlvs : List Tlv → List Tlv
kept_tlvs [] = []
kept_tlvs (tlv ∷ []) = if length tlv.value == 0 then [] else tlv ∷ []
kept_tlvs (tlv ∷ next ∷ tlvs) = tlv ∷ kept_tlvs (next ∷ tlvs)

pub kept_tlvs-tail : (tlvs : List Tlv) → IsTail tlvs → kept_tlvs tlvs ≡ tlvs
unfolding kept_tlvs IsTail
kept_tlvs-tail [] h = refl
kept_tlvs-tail (tlv ∷ []) h = ground (arith, h)
kept_tlvs-tail (tlv ∷ next ∷ tlvs) h = ap (λ rest. tlv ∷ rest) (kept_tlvs-tail (next ∷ tlvs) h)

pub kept_tlvs-append :
    (tlvs : List Tlv) → (tlv : Tlv) → tlv.value ≡ [] → kept_tlvs (tlvs ++ tlv ∷ []) ≡ tlvs
unfolding kept_tlvs
kept_tlvs-append [] tlv h = rw h refl
kept_tlvs-append (first ∷ []) tlv h = rw h refl
kept_tlvs-append (first ∷ next ∷ tlvs) tlv h =
    ap (λ rest. first ∷ rest) (kept_tlvs-append (next ∷ tlvs) tlv h)

get_tlvs-done : (fuel left : ℕ) → left ≤ 4 → (bytes : List ℕ) → get_tlvs fuel left bytes ≡ some []
unfolding get_tlvs
get_tlvs-done zero left h bytes = refl
get_tlvs-done (suc fuel) left h bytes =
    let short : ltb 4 left ≡ false = ground (arith, h) in rw short refl

get_tlvs-more :
    (fuel : ℕ)
    → (tlv : Tlv) → (tlvs result : List Tlv) → IsFit tlv
    → 4 < size_tlvs (tlv ∷ tlvs)
    → (bytes : List ℕ) → get_tlvs fuel (size_tlvs tlvs) (put_tlvs tlvs ++ bytes) ≡ some result
    → get_tlvs (suc fuel) (size_tlvs (tlv ∷ tlvs)) (put_tlvs (tlv ∷ tlvs) ++ bytes)
      ≡ some (tlv ∷ result)
unfolding size_tlvs get_tlvs
get_tlvs-more fuel tlv tlvs result fit long bytes rest =
    let more_than : ltb 4 (4 + length tlv.value + size_tlvs tlvs) ≡ true = ground (arith, long) in
    let left : 4 + length tlv.value + size_tlvs tlvs - (4 + length tlv.value) ≡ size_tlvs tlvs =
      omega arith in
    rw (put_tlvs-append tlv tlvs bytes)
      (rw more_than (rw (get_tlv-put tlv fit (put_tlvs tlvs ++ bytes)) (rw left (rw rest refl))))

pub get_tlvs-put_tlvs :
    (fuel : ℕ)
    → (tlvs : List Tlv) → All IsFit tlvs
    → size_tlvs tlvs ≤ fuel
    → (bytes : List ℕ)
    → get_tlvs fuel (size_tlvs tlvs) (put_tlvs tlvs ++ bytes) ≡ some (kept_tlvs tlvs)
unfolding size_tlvs kept_tlvs put_tlvs
get_tlvs-put_tlvs fuel [] fit enough bytes = get_tlvs-done fuel 0 (omega arith) bytes
get_tlvs-put_tlvs zero (tlv ∷ tlvs) fit enough bytes = absurd (omega (arith, enough))
get_tlvs-put_tlvs (suc fuel) (tlv ∷ []) (fit, fits) enough bytes =
    elim (Bool-cases (length tlv.value == 0)) [
      | inl empty ↦
          get_tlvs-done (suc fuel) (4 + length tlv.value + 0) (ground (arith, empty))
            (put_tlvs (tlv ∷ []) ++ bytes)
          ∙ ground (arith, empty)
      | inr some_value ↦
          get_tlvs-more fuel tlv [] [] fit (ground (arith, some_value)) bytes
            (get_tlvs-done fuel 0 (omega arith) bytes)
          ∙ ground (arith, some_value)
    ]
get_tlvs-put_tlvs (suc fuel) (tlv ∷ next ∷ tlvs) (fit, fits) enough bytes =
    get_tlvs-more fuel tlv (next ∷ tlvs) (kept_tlvs (next ∷ tlvs)) fit (omega arith) bytes
      (get_tlvs-put_tlvs fuel (next ∷ tlvs) fits (omega (arith, enough)) bytes)
