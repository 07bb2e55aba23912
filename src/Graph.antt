-- ===== src/Graph.antt =====
-- `BandwidthAvailabilityGraph` of src/compute/scheduling.hh and scheduling.cc: a step function of time, from the
-- first instant of a step to its bandwidth, made from a delta series. The map is a list in key order.
pub mod Steps
pub mod Residue
use mxtce_geni_scs.Base.{
  ℕ, zero, suc, ◌-◌, Bool, true, false, ◌||◌, List, [], ◌∷◌, ltb, leb, ◌==◌, if◌then◌else◌,
}
use mxtce_geni_scs.Delta.{Delta, get_start_time, get_end_time}
use mxtce_geni_scs.Series.{in_window}

unfoldable pub add_step : ℕ → ℕ → List (ℕ × ℕ) → List (ℕ × ℕ)
add_step t bw [] = (t, bw) ∷ []
add_step t bw ((k, v) ∷ steps) =
    let rest = add_step t bw steps in
    if ltb t k then (t, bw) ∷ (k, v) ∷ steps else if t == k then (t, bw) ∷ steps else (k, v) ∷ rest

-- `GetADSInWindow`, where only the deltas are asked for and not the places they stand in.
unfoldable pub entries_in_window : ℕ → ℕ → List (ℕ × Delta) → List (ℕ × Delta)
entries_in_window start end [] = []
entries_in_window start end ((h, d) ∷ entries) =
    let rest = entries_in_window start end entries in
    if in_window start end d then (h, d) ∷ rest else rest

unfoldable pub residue : ℕ → Delta → ℕ
residue capacity d = if ltb d.bandwidth capacity then capacity - d.bandwidth else 0

-- Whether the next delta, if there is one, starts only after the instant.
unfoldable pub has_gap : ℕ → List (ℕ × Delta) → Bool
has_gap t [] = true
has_gap t ((h, d) ∷ entries) = ltb t (get_start_time d)

unfoldable pub load_loop : ℕ → ℕ → List (ℕ × Delta) → List (ℕ × ℕ) → List (ℕ × ℕ)
load_loop capacity end [] steps = steps
load_loop capacity end ((h, d) ∷ entries) steps =
    let begun = add_step (get_start_time d) (residue capacity d) steps in
    let ended =
      if has_gap (get_end_time d) entries
      then add_step (get_end_time d) capacity begun
      else begun in
    let rest = load_loop capacity end entries ended in
    if leb end (get_end_time d) then begun else rest

unfoldable pub load_from : ℕ → ℕ → ℕ → List (ℕ × Delta) → List (ℕ × ℕ) → List (ℕ × ℕ)
load_from start end capacity [] steps = add_step end 0 (add_step start capacity steps)
load_from start end capacity ((h, d) ∷ entries) steps = add_step end 0 (
    load_loop capacity end ((h, d) ∷ entries)
      (if ltb start (get_start_time d) then add_step start capacity steps else steps))

unfoldable pub load_ads : List (ℕ × Delta) → ℕ → ℕ → ℕ → List (ℕ × ℕ) → List (ℕ × ℕ)
load_ads entries start end capacity steps =
    load_from start end capacity (entries_in_window start end entries) steps

-- `Clone` adds every step of the map to an empty one.
unfoldable pub clone_into : List (ℕ × ℕ) → List (ℕ × ℕ) → List (ℕ × ℕ)
clone_into [] copy = copy
clone_into ((t, bw) ∷ steps) copy = clone_into steps (add_step t bw copy)

abbrev pub clone : List (ℕ × ℕ) → List (ℕ × ℕ)
clone steps = clone_into steps []
