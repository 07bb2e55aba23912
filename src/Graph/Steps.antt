-- ===== src/Graph/Steps.antt =====
-- The steps of `BandwidthAvailabilityGraph` (src/compute/scheduling.cc) in key order, and series in order of time.
use mxtce_geni_scs.Base.{
  ℕ, ◌≤◌, ◌<◌, ◌≡◌, refl, false, List, [], ◌∷◌, ltb, leb, ◌==◌, if◌then◌else◌, arith,
}
use mxtce_geni_scs.Delta.{Delta, get_start_time, get_end_time}
use mxtce_geni_scs.Series.{in_window}
use mxtce_geni_scs.Series.Entries.{total}
use mxtce_geni_scs.Graph.{add_step, entries_in_window}

-- The bandwidth of the last step that has begun, and `before` where none has.
unfoldable pub value_at : ℕ → ℕ → List (ℕ × ℕ) → ℕ
value_at before t [] = before
value_at before t ((k, v) ∷ steps) = if leb k t then value_at v t steps else before

-- Deltas one after the other, each with an interval that is not empty.
unfoldable pub InOrder : ℕ → List (ℕ × Delta) → Type 0
InOrder floor [] = Unit
InOrder floor ((h, d) ∷ entries) =
    (floor ≤ get_start_time d)
    × (get_start_time d < get_end_time d)
    × InOrder (get_end_time d) entries

-- The keys that are in the map are before `k`.
unfoldable pub Before : ℕ → List (ℕ × ℕ) → Type 0
Before k [] = Unit
Before k ((t, bw) ∷ steps) = (t < k) × Before k steps

pub value-add_step :
    (k v before t : ℕ)
    → (steps : List (ℕ × ℕ)) → Before k steps
    → value_at before t (add_step k v steps) ≡ (if leb k t then v else value_at before t steps)
unfolding add_step value_at Before
value-add_step k v before t [] all = refl
value-add_step k v before t ((i, w) ∷ steps) all =
    ground (arith, all.0, value-add_step k v w t steps all.1)

pub Before-add_step :
    (j k v : ℕ) → (steps : List (ℕ × ℕ)) → k < j → Before k steps → Before j (add_step k v steps)
unfolding add_step Before
Before-add_step j k v [] h all = (h, tt)
Before-add_step j k v ((i, w) ∷ steps) h all =
    let after : ltb k i ≡ false = ground (arith, all.0) in
    let other : (k == i) ≡ false = ground (arith, all.0) in
    rw (after, other) (omega (arith, all.0), Before-add_step j k v steps h all.1)

pub Before-later : (j k : ℕ) → (steps : List (ℕ × ℕ)) → k ≤ j → Before k steps → Before j steps
unfolding Before
Before-later j k [] h all = tt
Before-later j k ((i, w) ∷ steps) h all = (omega (arith, all.0), Before-later j k steps h all.1)

pub total-before :
    (floor t : ℕ)
    → (entries : List (ℕ × Delta)) → InOrder floor entries
    → t < floor
    → total entries t ≡ 0
unfolding total InOrder
total-before floor t [] o h = refl
total-before floor t ((k, d) ∷ entries) o h =
    ground (arith, o.0, o.1, total-before (get_end_time d) t entries o.2)

pub total-window :
    (start end t : ℕ)
    → (floor : ℕ) → (entries : List (ℕ × Delta)) → InOrder floor entries
    → start ≤ t
    → t < end
    → total (entries_in_window start end entries) t ≡ total entries t
unfolding total InOrder entries_in_window in_window
total-window start end t floor [] o h k = refl
total-window start end t floor ((i, d) ∷ entries) o h k =
    ground (arith, total-window start end t (get_end_time d) entries o.2 h k, o.1)

-- The start of the first delta, or the end of the window.
abbrev pub next_start : ℕ → List (ℕ × Delta) → ℕ
next_start end [] = end
next_start end ((h, d) ∷ entries) = get_start_time d

-- The deltas begin before the end of the window.
unfoldable pub StartBefore : ℕ → List (ℕ × Delta) → Type 0
StartBefore end [] = Unit
StartBefore end ((h, d) ∷ entries) = (get_start_time d < end) × StartBefore end entries
