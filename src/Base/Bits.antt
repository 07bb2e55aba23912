-- ===== src/Base/Bits.antt =====
-- The bits of `&` and `|`: the native operations have no laws at variables but their definitions.
use native.Mathlib.Omega.{arith}
use mathlib.Core.Bool.{◌&&◌, true, Bool}
use mathlib.Core.Path.{refl, ◌≡◌}
use Prim.Native.Nat.{
  bit_or, bit_or-bitwise, bit_and, bit_and-bitwise, bitwise, digits, max, min, ◌<◌, ◌≤◌, ◌%◌, ◌/◌,
  ◌*◌, ◌+◌, suc, zero, ℕ,
}

module _ (past : ℕ → ℕ) (op : ℕ → ℕ → ℕ) where
  -- Any fuel will do for `digits` that is at least the first number.
  digits_fuel :
      (x y : ℕ) → (k l : ℕ) → (x ≤ k) × (x ≤ l) → digits past op k x y ≡ digits past op l x y
  digits_fuel zero y zero zero h = refl
  digits_fuel zero y zero (suc l) h = refl
  digits_fuel zero y (suc k) zero h = refl
  digits_fuel zero y (suc k) (suc l) h = refl
  digits_fuel (suc x) y zero l h = absurd (omega (arith, h.0))
  digits_fuel (suc x) y (suc k) zero h = absurd (omega (arith, h.1))
  digits_fuel (suc x) y (suc k) (suc l) h =
      rw (digits_fuel (suc x / 2) (y / 2) k l (omega (arith, h.0), omega (arith, h.1)))

  -- The lowest bit apart from the others.
  bitwise_last :
      (x y : ℕ)
      → bitwise past op (suc x) y ≡ op (suc x % 2) (y % 2) + 2 * bitwise past op (suc x / 2) (y / 2)
  bitwise_last x y =
      let same = digits_fuel (suc x / 2) (y / 2) x (suc x / 2) (omega arith, omega arith) in
      omega (arith, same)

pub bit_or_step : (x y : ℕ) → bit_or x y ≡ max (x % 2) (y % 2) + 2 * bit_or (x / 2) (y / 2)
bit_or_step (suc n) y = simp bit_or-bitwise (bitwise_last (λ i. i) max n y)
bit_or_step zero y = simp bit_or-bitwise (omega arith)

pub bit_and_step : (x y : ℕ) → bit_and x y ≡ min (x % 2) (y % 2) + 2 * bit_and (x / 2) (y / 2)
bit_and_step (suc n) y = simp bit_and-bitwise (bitwise_last (λ i. 0) min n y)
bit_and_step zero y = simp bit_and-bitwise (omega arith)

-- The bit of weight `2 ^ k`.
abbrev pub digit : ℕ → ℕ → ℕ
digit zero a = a % 2
digit (suc k) a = digit k (a / 2)

pub digit-bit_or : (k a b : ℕ) → digit k (bit_or a b) ≡ max (digit k a) (digit k b)
digit-bit_or zero a b = omega (arith, bit_or_step a b)
digit-bit_or (suc k) a b =
    let half : bit_or a b / 2 ≡ bit_or (a / 2) (b / 2) = omega (arith, bit_or_step a b) in
    rw half (digit-bit_or k (a / 2) (b / 2))

pub digit-bit_and : (k a b : ℕ) → digit k (bit_and a b) ≡ min (digit k a) (digit k b)
digit-bit_and zero a b = omega (arith, bit_and_step a b)
digit-bit_and (suc k) a b =
    let half : bit_and a b / 2 ≡ bit_and (a / 2) (b / 2) = omega (arith, bit_and_step a b) in
    rw half (digit-bit_and k (a / 2) (b / 2))

-- Over a small range, every value is checked by evaluation.
unfoldable pub all_below : ℕ → (ℕ → Bool) → Bool
all_below zero test = true
all_below (suc limit) test = all_below limit test && test limit

pub all_below_sound :
    (limit : ℕ) (test : ℕ → Bool) (i : ℕ) → all_below limit test ≡ true → i < limit → test i ≡ true
unfolding all_below
all_below_sound zero test i all inside = absurd (omega arith)
all_below_sound (suc limit) test i all inside = ground (arith, all_below_sound limit test i)

abbrev pub table : ℕ → ℕ → (ℕ → ℕ → Bool) → Bool
table n m p = all_below n (λ a. all_below m (p a))

pub table_sound :
    (n m : ℕ) (p : ℕ → ℕ → Bool) (a b : ℕ) → table n m p ≡ true → a < n → b < m → p a b ≡ true
table_sound n m p a b h ha hb =
    all_below_sound m (p a) b (all_below_sound n (λ c. all_below m (p c)) a h ha) hb
