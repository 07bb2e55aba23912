-- ===== src/TagSet/Slots.antt =====
-- Byte arrays read slot by slot: what each write of src/common/utils.hh does to every bit.
use mxtce_geni_scs.Base.{
  ℕ, zero, suc, ◌/◌, ◌%◌, ◌≤◌, ◌<◌, bit_and, bit_or, ◌≡◌, refl, not, ◌&&◌, ◌||◌, none, some, List,
  [], ◌∷◌, ◌==◌, if◌then◌else◌, length, get_elem?, get_or, set, All, arith,
}
use mxtce_geni_scs.TagSet.{holds}
use mxtce_geni_scs.TagSet.Byte.{
  mask, mask-lt, test-mask, test-bit_or, test-bit_and, test-invert, invert,
}

abbrev pub IsBytes : List ℕ → Type 0
IsBytes = All (λ b. b < 256)

pub get_or-lt : (bytes : List ℕ) (i : ℕ) → IsBytes bytes → get_or bytes i 0 < 256
get_or-lt [] i h = omega arith
get_or-lt (b ∷ bytes) zero h = h.0
get_or-lt (b ∷ bytes) (suc i) h = get_or-lt bytes i h.1

pub get_or-set :
    (bytes : List ℕ) (i j v : ℕ)
    → i < length bytes
    → get_or (set bytes i v) j 0 ≡ (if i == j then v else get_or bytes j 0)
get_or-set [] i j v h = absurd (omega arith)
get_or-set (b ∷ bytes) zero zero v h = refl
get_or-set (b ∷ bytes) zero (suc j) v h = ground arith
get_or-set (b ∷ bytes) (suc i) zero v h = ground arith
get_or-set (b ∷ bytes) (suc i) (suc j) v h = ground (arith, get_or-set bytes i j v (omega arith))

pub get_elem?-get_or :
    (bytes : List ℕ) (i : ℕ) → i < length bytes → get_elem? bytes i ≡ some (get_or bytes i 0)
get_elem?-get_or [] i h = absurd (omega arith)
get_elem?-get_or (b ∷ bytes) zero h = refl
get_elem?-get_or (b ∷ bytes) (suc i) h = get_elem?-get_or bytes i (omega arith)

pub get_elem?-past : (bytes : List ℕ) (i : ℕ) → length bytes ≤ i → get_elem? bytes i ≡ none
get_elem?-past [] i h = refl
get_elem?-past (b ∷ bytes) zero h = absurd (omega arith)
get_elem?-past (b ∷ bytes) (suc i) h = get_elem?-past bytes i (omega arith)

pub set-IsBytes : (bytes : List ℕ) (i v : ℕ) → v < 256 → IsBytes bytes → IsBytes (set bytes i v)
set-IsBytes [] i v hv h = tt
set-IsBytes (b ∷ bytes) zero v hv h = (hv, h.1)
set-IsBytes (b ∷ bytes) (suc i) v hv h = (h.0, set-IsBytes bytes i v hv h.1)

abbrev pub or_mask : List ℕ → ℕ → List ℕ
or_mask bytes i = set bytes (i / 8) (bit_or (get_or bytes (i / 8) 0) (mask (i % 8)))

abbrev pub and_invert_mask : List ℕ → ℕ → List ℕ
and_invert_mask bytes i =
    set bytes (i / 8) (bit_and (get_or bytes (i / 8) 0) (invert (mask (i % 8))))

-- Or-ing in the mask of slot `i` sets that bit alone.
pub holds-or_mask :
    (bytes : List ℕ) (i j : ℕ)
    → IsBytes bytes
    → i / 8 < length bytes
    → holds (or_mask bytes i) j ≡ (i == j || holds bytes j)
holds-or_mask bytes i j hb hi = ground (
  arith,
  get_or-set bytes (i / 8) (j / 8) (bit_or (get_or bytes (i / 8) 0) (mask (i % 8))) hi,
  test-bit_or (get_or bytes (i / 8) 0) (mask (i % 8)) (j % 8) (get_or-lt bytes (i / 8) hb)
      (mask-lt (i % 8)),
  test-mask (i % 8) (j % 8),
)

-- And-ing with the inverted mask of slot `i` clears that bit alone.
pub holds-and_invert_mask :
    (bytes : List ℕ) (i j : ℕ)
    → IsBytes bytes
    → i / 8 < length bytes
    → holds (and_invert_mask bytes i) j ≡ (not (i == j) && holds bytes j)
holds-and_invert_mask bytes i j hb hi = ground (
  arith,
  get_or-set bytes (i / 8) (j / 8) (bit_and (get_or bytes (i / 8) 0) (invert (mask (i % 8)))) hi,
  test-bit_and (get_or bytes (i / 8) 0) (invert (mask (i % 8))) (j % 8)
      (get_or-lt bytes (i / 8) hb),
  test-invert (mask (i % 8)) (j % 8) (mask-lt (i % 8)),
  test-mask (i % 8) (j % 8),
)
