-- ===== src/TagSet/Extremes.antt =====
-- What the scans of src/common/utils.hh for the lowest and the highest tag find, and what they count.
use mxtce_geni_scs.Base.{
  ℕ, zero, suc, ◌+◌, ◌-◌, ◌*◌, ◌/◌, ◌%◌, ◌≤◌, ◌<◌, ◌≡◌, ◌≢◌, refl, Bool, true, false, ◌||◌, ◌⊎◌,
  inl, inr, none, some, List, [], ◌∷◌, ◌==◌, length, get_or, arith, Bool-cases, all_below,
  all_below_sound, lt-or-le,
}
use mxtce_geni_scs.TagSet.{holds}
use mxtce_geni_scs.TagSet.Byte.{test, test-zero}
use mxtce_geni_scs.TagSet.Slots.{IsBytes, get_or-lt}
use mxtce_geni_scs.TagSet.Scan.{lowest_bit, highest_bit, lowest_slot, highest_slot}

abbrev zero_test : ℕ → Bool
zero_test b =
    b == 0
    || (test b 0
        || test b 1
        || test b 2
        || test b 3
        || test b 4
        || test b 5
        || test b 6
        || test b 7)

zero_table : all_below 256 zero_test ≡ true
unfolding all_below test
zero_table = refl

-- A byte that is not 0 has a bit.
some_bit : (b : ℕ) → b < 256 → zero_test b ≡ true
some_bit b h = all_below_sound 256 zero_test b zero_table h

small :
    (k : ℕ) → k < 8 → (k ≡ 0) ⊎ (k ≡ 1) ⊎ (k ≡ 2) ⊎ (k ≡ 3) ⊎ (k ≡ 4) ⊎ (k ≡ 5) ⊎ (k ≡ 6) ⊎ (k ≡ 7)
small k h = omega arith

lowest_bit_lem : (b : ℕ) → b < 256 → b ≢ 0 → (lowest_bit b < 8) × (test b (lowest_bit b) ≡ true)
unfolding lowest_bit
lowest_bit_lem b h ne = ground (arith, some_bit b h)

lowest_bit-first : (b k : ℕ) → k < lowest_bit b → test b k ≡ false
unfolding lowest_bit
lowest_bit-first b zero h = ground arith
lowest_bit-first b (suc zero) h = ground arith
lowest_bit-first b (suc (suc zero)) h = ground arith
lowest_bit-first b (suc (suc (suc zero))) h = ground arith
lowest_bit-first b (suc (suc (suc (suc zero)))) h = ground arith
lowest_bit-first b (suc (suc (suc (suc (suc zero))))) h = ground arith
lowest_bit-first b (suc (suc (suc (suc (suc (suc zero)))))) h = ground arith
lowest_bit-first b (suc (suc (suc (suc (suc (suc (suc k))))))) h = ground arith

highest_bit_lem : (b : ℕ) → b < 256 → b ≢ 0 → (highest_bit b < 8) × (test b (highest_bit b) ≡ true)
unfolding highest_bit
highest_bit_lem b h ne = ground (arith, some_bit b h)

highest_bit-last : (b k : ℕ) → highest_bit b < k → k < 8 → test b k ≡ false
unfolding highest_bit
highest_bit-last b k h lt = ground (arith, small k lt)

holds-cons_low : (b k : ℕ) (bytes : List ℕ) → k < 8 → holds (b ∷ bytes) k ≡ test b k
holds-cons_low b k bytes h =
    let e : k / 8 ≡ 0 = omega arith in let f : k % 8 ≡ k = omega arith in rw (e, f)

holds-cons_high : (b k j : ℕ) (bytes : List ℕ) → k ≡ j + 8 → holds (b ∷ bytes) k ≡ holds bytes j
holds-cons_high b k j bytes h =
    let e : k / 8 ≡ suc (j / 8) = omega arith in let f : k % 8 ≡ j % 8 = omega arith in rw (e, f)

abbrev pub IsBottom : ℕ → List ℕ → Type 0
IsBottom i bytes =
    ((lowest_slot i bytes ≡ none) × ((k : ℕ) → holds bytes k ≡ false))
    ⊎ ((m : ℕ) × (lowest_slot i bytes ≡ some (i * 8 + m))
        × (m < 8 * length bytes)
        × (holds bytes m ≡ true)
        × ((k : ℕ) → k < m → holds bytes k ≡ false))

none_below :
    (b : ℕ) (bytes : List ℕ) (m : ℕ)
    → ((k : ℕ) → k < 8 → test b k ≡ false)
    → ((k : ℕ) → k < m → holds bytes k ≡ false)
    → (k : ℕ) → k < m + 8
    → holds (b ∷ bytes) k ≡ false
none_below b bytes m hb hr k h = elim (lt-or-le k 8) [
  | inl low ↦ ground (arith, holds-cons_low b k bytes low, hb k low)
  | inr high ↦
      ground (arith, holds-cons_high b k (k - 8) bytes (omega arith), hr (k - 8) (omega arith))
]

pub lowest_slot-IsBottom : (i : ℕ) (bytes : List ℕ) → IsBytes bytes → IsBottom i bytes
unfolding lowest_slot
lowest_slot-IsBottom i [] h = inl (refl, λ k. test-zero (k % 8))
lowest_slot-IsBottom i (b ∷ bytes) h = elim (Bool-cases (b == 0)) [
  | inl zero_byte ↦
      let clear : (k : ℕ) → k < 8 → test b k ≡ false = λ k lt. ground (arith, test-zero k) in
      elim (lowest_slot-IsBottom (i + 1) bytes h.1) [
        | inl (e, absent) ↦ inl (
          ground (arith, e),
          λ k. none_below b bytes (k + 1) clear (λ j lt. absent j) k (omega arith),
        )
        | inr (m, e, lt, has, first) ↦ inr (
          m + 8,
          ground (arith, e),
          omega arith,
          ground (arith, holds-cons_high b (m + 8) m bytes refl),
          none_below b bytes m clear first,
        )
      ]
  | inr nonzero ↦
      let ne : b ≢ 0 = ground arith in
      let (lt, has) = lowest_bit_lem b h.0 ne in
      inr (
        lowest_bit b,
        ground arith,
        omega arith,
        ground (arith, holds-cons_low b (lowest_bit b) bytes lt),
        λ k below.
            ground (arith, holds-cons_low b k bytes (omega arith), lowest_bit-first b k below),
      )
]

abbrev pub IsTop : ℕ → List ℕ → Type 0
IsTop n bytes =
    ((highest_slot n bytes ≡ none) × ((k : ℕ) → k < 8 * n → holds bytes k ≡ false))
    ⊎ ((m : ℕ) × (highest_slot n bytes ≡ some m)
        × (m < 8 * n)
        × (holds bytes m ≡ true)
        × ((k : ℕ) → m < k → k < 8 * n → holds bytes k ≡ false))

pub holds-at :
    (bytes : List ℕ) (i k : ℕ) → k < 8 → holds bytes (i * 8 + k) ≡ test (get_or bytes i 0) k
holds-at bytes i k h =
    let e : (i * 8 + k) / 8 ≡ i = omega arith in
    let f : (i * 8 + k) % 8 ≡ k = omega arith in rw (e, f)

holds-in :
    (bytes : List ℕ) (i k : ℕ)
    → i * 8 ≤ k
    → k < suc i * 8
    → holds bytes k ≡ test (get_or bytes i 0) (k - i * 8)
holds-in bytes i k lo hi =
    let e : k / 8 ≡ i = omega arith in let f : k % 8 ≡ k - i * 8 = omega arith in rw (e, f)

pub highest_slot-IsTop : (n : ℕ) (bytes : List ℕ) → IsBytes bytes → IsTop n bytes
unfolding highest_slot
highest_slot-IsTop zero bytes h = inl (refl, λ k lt. absurd (omega arith))
highest_slot-IsTop (suc i) bytes h = elim (Bool-cases (get_or bytes i 0 == 0)) [
  | inl zero_byte ↦
      let clear : (k : ℕ) → i * 8 ≤ k → k < suc i * 8 → holds bytes k ≡ false =
        λ k lo hi. ground (arith, holds-in bytes i k lo hi, test-zero (k - i * 8)) in
      elim (highest_slot-IsTop i bytes h) [
        | inl (e, absent) ↦ inl (ground (arith, e), λ k lt. ground (arith, absent k, clear k))
        | inr (m, e, lt, has, last) ↦
            inr (m, ground (arith, e), omega arith, has, λ k gt lt. ground (arith, last k, clear k))
      ]
  | inr nonzero ↦
      let byte = get_or bytes i 0 in
      let (lt, has) = highest_bit_lem byte (get_or-lt bytes i h) (ground arith) in
      inr (
        i * 8 + highest_bit byte,
        ground arith,
        omega arith,
        ground (arith, holds-at bytes i (highest_bit byte) lt),
        λ k gt below. ground (
          arith,
          holds-in bytes i k (omega arith) (omega arith),
          highest_bit-last byte (k - i * 8) (omega arith) (omega arith),
        ),
      )
]
