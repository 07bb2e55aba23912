-- ===== src/TagSet/Masks.antt =====
-- The loops of src/common/utils.hh that combine a whole bitmask with the array, byte by byte.
use mxtce_geni_scs.Base.{
  ℕ, zero, suc, ◌/◌, ◌%◌, ◌≤◌, ◌<◌, bit_and, bit_or, ◌≡◌, refl, not, ◌&&◌, ◌||◌, ◌⊎◌, some, List,
  [], ◌∷◌, ltb, if◌then◌else◌, length, get_or, arith,
}
use mxtce_geni_scs.TagSet.{zip_bytes, holds}
use mxtce_geni_scs.TagSet.Byte.{
  test-bit_or, test-bit_and, test-invert, bit_or-lt, bit_and-lt, invert,
}
use mxtce_geni_scs.TagSet.Slots.{IsBytes, get_or-lt}

-- `out` is `bytes` with `f` applied to its first `n` bytes.
pub record Zipped (f : ℕ → ℕ → ℕ) (n : ℕ) (bytes bitmask out : List ℕ) : Type 0 where
  pub same_length : length out ≡ length bytes
  pub IsBytes_out : IsBytes out
  pub at_byte :
      (i : ℕ)
      → get_or out i 0 ≡ (
          if ltb i n && ltb i (length bytes)
          then f (get_or bytes i 0) (get_or bitmask i 0)
          else get_or bytes i 0)

module _ (f : ℕ → ℕ → ℕ) (closed : (b m : ℕ) → b < 256 → m < 256 → f b m < 256) where
  at_cons :
      (n b m : ℕ) (bytes bitmask out : List ℕ)
      → Zipped f n bytes bitmask out
      → (i : ℕ)
      → get_or (f b m ∷ out) i 0 ≡ (
          if ltb i (suc n) && ltb i (suc (length bytes))
          then f (get_or (b ∷ bytes) i 0) (get_or (m ∷ bitmask) i 0)
          else get_or (b ∷ bytes) i 0)
  at_cons n b m bytes bitmask out z zero = ground arith
  at_cons n b m bytes bitmask out z (suc i) = ground (arith, z.at_byte i)

  pub zip_bytes-Zipped :
      (n : ℕ) (bytes bitmask : List ℕ)
      → IsBytes bytes
      → IsBytes bitmask
      → (n ≤ length bitmask) ⊎ (length bytes ≤ length bitmask)
      → (out : List ℕ) × (zip_bytes f n bytes bitmask ≡ some out) × Zipped f n bytes bitmask out
  unfolding zip_bytes
  zip_bytes-Zipped zero bytes bitmask hb hm h =
      (bytes, refl, record { same_length = refl; IsBytes_out = hb; at_byte = λ i. ground arith })
  zip_bytes-Zipped (suc n) [] bitmask hb hm h =
      ([], refl, record { same_length = refl; IsBytes_out = tt; at_byte = λ i. ground arith })
  zip_bytes-Zipped (suc n) (b ∷ bytes) [] hb hm h = absurd (omega arith)
  zip_bytes-Zipped (suc n) (b ∷ bytes) (m ∷ bitmask) hb hm h =
      let (out, e, z) = zip_bytes-Zipped n bytes bitmask hb.1 hm.1 (omega arith) in
      (
        f b m ∷ out,
        rw (e),
        record {
          same_length = omega (arith, z.same_length);
          IsBytes_out = (closed b m hb.0 hm.0, z.IsBytes_out);
          at_byte = at_cons n b m bytes bitmask out z;
        },
      )

abbrev pub and_invert : ℕ → ℕ → ℕ
and_invert b m = bit_and b (invert m)

get_or-past : (bytes : List ℕ) (i : ℕ) → length bytes ≤ i → get_or bytes i 0 ≡ 0
get_or-past [] i h = refl
get_or-past (b ∷ bytes) zero h = absurd (omega arith)
get_or-past (b ∷ bytes) (suc i) h = get_or-past bytes i (omega arith)

module _ (n : ℕ) (bytes bitmask out : List ℕ) (hb : IsBytes bytes) (hm : IsBytes bitmask) where
  pub holds-or :
      Zipped bit_or n bytes bitmask out
      → (i : ℕ) → i / 8 < n
      → i / 8 < length bytes
      → holds out i ≡ (holds bytes i || holds bitmask i)
  holds-or z i hn hi = ground (
    arith,
    z.at_byte (i / 8),
    test-bit_or (get_or bytes (i / 8) 0) (get_or bitmask (i / 8) 0) (i % 8)
        (get_or-lt bytes (i / 8) hb) (get_or-lt bitmask (i / 8) hm),
  )

  pub holds-and :
      Zipped bit_and n bytes bitmask out
      → (i : ℕ) → i / 8 < n
      → i / 8 < length bytes
      → holds out i ≡ (holds bytes i && holds bitmask i)
  holds-and z i hn hi = ground (
    arith,
    z.at_byte (i / 8),
    test-bit_and (get_or bytes (i / 8) 0) (get_or bitmask (i / 8) 0) (i % 8)
        (get_or-lt bytes (i / 8) hb) (get_or-lt bitmask (i / 8) hm),
  )

  pub holds-and_invert :
      Zipped and_invert n bytes bitmask out
      → (i : ℕ) → i / 8 < n
      → i / 8 < length bytes
      → holds out i ≡ (holds bytes i && not (holds bitmask i))
  holds-and_invert z i hn hi = ground (
    arith,
    z.at_byte (i / 8),
    test-bit_and (get_or bytes (i / 8) 0) (invert (get_or bitmask (i / 8) 0)) (i % 8)
        (get_or-lt bytes (i / 8) hb),
    test-invert (get_or bitmask (i / 8) 0) (i % 8) (get_or-lt bitmask (i / 8) hm),
  )

pub bit_or-closed : (b m : ℕ) → b < 256 → m < 256 → bit_or b m < 256
bit_or-closed = bit_or-lt

pub bit_and-closed : (b m : ℕ) → b < 256 → m < 256 → bit_and b m < 256
bit_and-closed b m hb hm = bit_and-lt b m hb

pub and_invert-closed : (b m : ℕ) → b < 256 → m < 256 → and_invert b m < 256
and_invert-closed b m hb hm = bit_and-lt b (invert m) hb
