-- ===== src/Series/Entries.antt =====
-- Finding, changing and adding entries of an `AggregateDeltaSeries` (src/compute/scheduling.cc), and the
-- bandwidth that all of them take at an instant.
use mxtce_geni_scs.Base.{ℕ, ◌+◌, ◌≡◌, refl, none, some, List, [], ◌∷◌, arith}
use mxtce_geni_scs.Delta.{Delta}
use mxtce_geni_scs.Series.{find_entry, update_entry, insert_entry}
use mxtce_geni_scs.Series.Pieces.{load}

-- The bandwidth that the deltas of a list take together at an instant.
unfoldable pub total : List (ℕ × Delta) → ℕ → ℕ
total [] t = 0
total ((h, d) ∷ entries) t = load d t + total entries t

module _ (h : ℕ) (d : Delta) where
  pub find-insert_entry :
      (entries : List (ℕ × Delta))
      → find_entry h entries ≡ none
      → find_entry h (insert_entry h d entries) ≡ some d
  unfolding find_entry insert_entry
  find-insert_entry [] missing = ground arith
  find-insert_entry ((k, e) ∷ entries) missing = ground (arith, find-insert_entry entries)

  pub find-insert_other :
      (entries : List (ℕ × Delta))
      → (k : ℕ) → ¬ (k ≡ h)
      → find_entry k (insert_entry h d entries) ≡ find_entry k entries
  unfolding find_entry insert_entry
  find-insert_other [] k apart = ground arith
  find-insert_other ((i, e) ∷ entries) k apart = ground (arith, find-insert_other entries k apart)

  pub find-update_entry :
      (entries : List (ℕ × Delta))
      → (a : Delta) → find_entry h entries ≡ some a
      → find_entry h (update_entry h d entries) ≡ some d
  unfolding find_entry update_entry
  find-update_entry [] a found = ground arith
  find-update_entry ((k, e) ∷ entries) a found = ground (arith, find-update_entry entries a)

  pub find-update_other :
      (entries : List (ℕ × Delta))
      → (k : ℕ) → ¬ (k ≡ h)
      → find_entry k (update_entry h d entries) ≡ find_entry k entries
  unfolding find_entry update_entry
  find-update_other [] k apart = refl
  find-update_other ((i, e) ∷ entries) k apart = ground (arith, find-update_other entries k apart)

  pub total-insert_entry :
      (entries : List (ℕ × Delta))
      → (t : ℕ) → total (insert_entry h d entries) t ≡ load d t + total entries t
  unfolding total insert_entry
  total-insert_entry [] t = refl
  total-insert_entry ((k, e) ∷ entries) t = ground (arith, total-insert_entry entries t)

  pub total-update_entry :
      (entries : List (ℕ × Delta))
      → (a : Delta) → (t : ℕ) → find_entry h entries ≡ some a
      → total (update_entry h d entries) t + load a t ≡ total entries t + load d t
  unfolding total find_entry update_entry
  total-update_entry [] a t found = ground arith
  total-update_entry ((k, e) ∷ entries) a t found = ground (arith, total-update_entry entries a t)
