-- ===== src/Graph/Residue.antt =====
-- What `BandwidthAvailabilityGraph::LoadADS` (src/compute/scheduling.cc) leaves of the capacity at each instant.
use mxtce_geni_scs.Base.{
  ℕ, ◌-◌, ◌≤◌, ◌<◌, ◌≡◌, refl, ap, ◌∙◌, true, false, List, [], ◌∷◌, ltb, leb, if◌then◌else◌, arith,
  lt→ltb, Bool-cases, inl, inr, lt-or-le,
}
use mxtce_geni_scs.Delta.{Delta, get_start_time, get_end_time}
use mxtce_geni_scs.Series.{in_window}
use mxtce_geni_scs.Series.Entries.{total}
use mxtce_geni_scs.Series.Pieces.{load}
use mxtce_geni_scs.Graph.{
  add_step, entries_in_window, residue, has_gap, load_loop, load_from, load_ads,
}
use mxtce_geni_scs.Graph.Steps.{
  value_at, InOrder, Before, value-add_step, Before-add_step, total-before, total-window,
  next_start, StartBefore,
}

module _ (capacity end : ℕ) where
  -- After a delta that ends before the window does, the map has no key from the next start on.
  Before-ended :
      (d : Delta)
      → (entries : List (ℕ × Delta)) → (steps : List (ℕ × ℕ)) → get_start_time d < get_end_time d
      → get_end_time d < end
      → InOrder (get_end_time d) entries
      → Before (get_start_time d) steps
      → Before (next_start end entries) (
          if has_gap (get_end_time d) entries
          then add_step
              (get_end_time d)
              capacity
              (add_step (get_start_time d) (residue capacity d) steps)
          else add_step (get_start_time d) (residue capacity d) steps)
  unfolding has_gap InOrder
  Before-ended d [] steps full over o all =
      Before-add_step end (get_end_time d) capacity _ over
        (Before-add_step (get_end_time d) (get_start_time d) (residue capacity d) steps full all)
  Before-ended d ((i, e) ∷ entries) steps full over o all =
      elim (lt-or-le (get_end_time d) (get_start_time e)) [
        | inl gap ↦ rw (lt→ltb (get_end_time d) (get_start_time e) gap) (
            Before-add_step (get_start_time e) (get_end_time d) capacity _ gap (
              Before-add_step (get_end_time d) (get_start_time d) (residue capacity d) steps full
                all))
        | inr no_gap ↦
            let none_between : ltb (get_end_time d) (get_start_time e) ≡ false = ground arith in
            rw none_between (
              Before-add_step (get_start_time e) (get_start_time d) (residue capacity d) steps
                (omega (arith, o.0)) all)
      ]

  -- The values once a delta, and the gap after it if there is one, are in the map.
  ended-value :
      (t : ℕ)
      → t < end
      → (d : Delta) → (entries : List (ℕ × Delta)) → (steps : List (ℕ × ℕ))
      → get_start_time d < get_end_time d
      → InOrder (get_end_time d) entries
      → Before (get_start_time d) steps
      → t < next_start end entries
      → value_at 0 t (
          if has_gap (get_end_time d) entries
          then add_step
              (get_end_time d)
              capacity
              (add_step (get_start_time d) (residue capacity d) steps)
          else add_step (get_start_time d) (residue capacity d) steps)
        ≡ (if ltb t (get_start_time d) then value_at 0 t steps else capacity - load d t)
  unfolding has_gap InOrder residue
  ended-value t inside d [] steps full o all soon =
      let begun = value-add_step (get_start_time d) (residue capacity d) 0 t steps all in
      let all' =
        Before-add_step (get_end_time d) (get_start_time d) (residue capacity d) steps full all in
      let done = value-add_step (get_end_time d) capacity 0 t _ all' in ground (arith, begun, done)
  ended-value t inside d ((i, e) ∷ entries) steps full o all soon =
      let begun = value-add_step (get_start_time d) (residue capacity d) 0 t steps all in
      let all' =
        Before-add_step (get_end_time d) (get_start_time d) (residue capacity d) steps full all in
      let done = value-add_step (get_end_time d) capacity 0 t _ all' in
      ground (arith, begun, done, o.0)

  total-next :
      (t floor : ℕ)
      → (entries : List (ℕ × Delta)) → InOrder floor entries
      → t < next_start end entries
      → total entries t ≡ 0
  unfolding total InOrder
  total-next t floor [] o soon = refl
  total-next t floor ((i, e) ∷ entries) o soon =
      ground (arith, o.1, total-before (get_end_time e) t entries o.2)

  next-after :
      (floor : ℕ)
      → (entries : List (ℕ × Delta)) → InOrder floor entries
      → floor < end
      → floor ≤ next_start end entries
  unfolding InOrder
  next-after floor [] o inside = omega arith
  next-after floor ((i, e) ∷ entries) o inside = o.0

  loop-value :
      (t : ℕ)
      → t < end
      → (floor : ℕ) → (entries : List (ℕ × Delta)) → InOrder floor entries
      → (steps : List (ℕ × ℕ)) → Before (next_start end entries) steps
      → value_at 0 t (load_loop capacity end entries steps) ≡ (
          if ltb t (next_start end entries) then value_at 0 t steps else capacity - total entries t)
  unfolding load_loop InOrder total
  loop-value t inside floor [] o steps all = ground arith
  loop-value t inside floor ((h, d) ∷ entries) o steps all = elim (lt-or-le (get_end_time d) end) [
    | inl over ↦
        let before : leb end (get_end_time d) ≡ false = ground arith in
        let ended = Before-ended d entries steps o.1 over o.2 all in
        let rest = loop-value t inside (get_end_time d) entries o.2 _ ended in
        rw before (
          rest ∙ (elim (lt-or-le t (next_start end entries)) [
            | inl soon ↦
                let value = ended-value t inside d entries steps o.1 o.2 all soon in
                let none = total-next t (get_end_time d) entries o.2 soon in
                ground (arith, value, none)
            | inr late ↦
                let after = next-after (get_end_time d) entries o.2 over in
                ground (arith, after, o.1)
          ]))
    | inr last ↦
        let begun = value-add_step (get_start_time d) (residue capacity d) 0 t steps all in
        let later = total-before (get_end_time d) t entries o.2 (omega arith) in
        let ends : leb end (get_end_time d) ≡ true = ground arith in
        rw ends (unfold residue in ground (arith, begun, later, o.1))
  ]

  -- No key of the map is at the end of the window or after it.
  Before-loop :
      (floor : ℕ)
      → (entries : List (ℕ × Delta)) → InOrder floor entries
      → StartBefore end entries
      → (steps : List (ℕ × ℕ)) → Before (next_start end entries) steps
      → Before end (load_loop capacity end entries steps)
  unfolding load_loop InOrder StartBefore
  Before-loop floor [] o starts steps all = all
  Before-loop floor ((h, d) ∷ entries) o starts steps all = elim (lt-or-le (get_end_time d) end) [
    | inl over ↦
        let before : leb end (get_end_time d) ≡ false = ground arith in
        rw before (
          Before-loop (get_end_time d) entries o.2 starts.1 _
            (Before-ended d entries steps o.1 over o.2 all))
    | inr last ↦
        let ends : leb end (get_end_time d) ≡ true = ground arith in
        rw ends (Before-add_step end (get_start_time d) (residue capacity d) steps starts.0 all)
  ]

module _ (start end capacity t : ℕ) (from : start ≤ t) (inside : t < end) where
  -- The capacity from the start of the window, when the first delta starts later.
  Before-first :
      (later : ℕ) → Before later (if ltb start later then add_step start capacity [] else [])
  unfolding Before add_step
  Before-first later = elim (lt-or-le start later) [
    | inl h ↦ rw (lt→ltb start later h) (h, tt)
    | inr h ↦ let not_later : ltb start later ≡ false = ground arith in rw not_later tt
  ]

  value-first :
      (later : ℕ)
      → t < later
      → value_at 0 t (if ltb start later then add_step start capacity [] else []) ≡ capacity
  unfolding value_at add_step
  value-first later h = ground (arith, from)

  from-value :
      (floor : ℕ)
      → (entries : List (ℕ × Delta)) → InOrder floor entries
      → StartBefore end entries
      → value_at 0 t (load_from start end capacity entries []) ≡ capacity - total entries t
  unfolding load_from InOrder StartBefore
  from-value floor [] o starts = unfold value_at add_step total in ground (arith, from, inside)
  from-value floor ((h, d) ∷ entries) o starts =
      let first = if ltb start (get_start_time d) then add_step start capacity [] else [] in
      let all = Before-first (get_start_time d) in
      let loop = loop-value capacity end t inside floor ((h, d) ∷ entries) o first all in
      let below = Before-loop capacity end floor ((h, d) ∷ entries) o starts first all in
      let closed = value-add_step end 0 0 t _ below in
      let past : leb end t ≡ false = ground (arith, inside) in
      closed
      ∙ rw past (
          loop ∙ (elim (lt-or-le t (get_start_time d)) [
            | inl soon ↦
                let none = total-next capacity end t floor ((h, d) ∷ entries) o soon in
                rw (lt→ltb t (get_start_time d) soon)
                  (value-first (get_start_time d) soon ∙ omega (arith, none))
            | inr late ↦ let begun : ltb t (get_start_time d) ≡ false = ground arith in rw begun
          ]))

InOrder-lower :
    (low floor : ℕ)
    → (entries : List (ℕ × Delta)) → low ≤ floor
    → InOrder floor entries
    → InOrder low entries
unfolding InOrder
InOrder-lower low floor [] h o = tt
InOrder-lower low floor ((i, d) ∷ entries) h o = (omega (arith, o.0), o.1, o.2)

window-InOrder :
    (start end floor : ℕ)
    → (entries : List (ℕ × Delta)) → InOrder floor entries
    → InOrder floor (entries_in_window start end entries)
unfolding InOrder entries_in_window
window-InOrder start end floor [] o = tt
window-InOrder start end floor ((h, d) ∷ entries) o = elim (Bool-cases (in_window start end d)) [
  | inl meets ↦ rw meets (o.0, o.1, window-InOrder start end (get_end_time d) entries o.2)
  | inr misses ↦ rw misses (
      window-InOrder start end floor entries
        (InOrder-lower floor (get_end_time d) entries (omega (arith, o.0, o.1)) o.2))
]

window-StartBefore :
    (start end floor : ℕ)
    → (entries : List (ℕ × Delta)) → start < end
    → InOrder floor entries
    → StartBefore end (entries_in_window start end entries)
unfolding InOrder entries_in_window StartBefore in_window
window-StartBefore start end floor [] lasts o = tt
window-StartBefore start end floor ((h, d) ∷ entries) lasts o =
    elim (Bool-cases (in_window start end d)) [
      | inl meets ↦ rw meets (
        ground (arith, meets, lasts, o.1),
        window-StartBefore start end (get_end_time d) entries lasts o.2,
      )
      | inr misses ↦ rw misses (window-StartBefore start end (get_end_time d) entries lasts o.2)
    ]

-- At each instant of the window, the graph that is made from a series in order is the capacity less the
-- bandwidth that the series takes at that instant, or 0 where that is more.
pub load_ads-value :
    (entries : List (ℕ × Delta))
    → (start end capacity t : ℕ) → InOrder 0 entries
    → start ≤ t
    → t < end
    → value_at 0 t (load_ads entries start end capacity []) ≡ capacity - total entries t
unfolding load_ads
load_ads-value entries start end capacity t o from inside =
    from-value start end capacity t from inside 0 (entries_in_window start end entries)
      (window-InOrder start end 0 entries o)
      (window-StartBefore start end 0 entries (omega arith) o)
    ∙ ap (λ (x : ℕ). capacity - x) (total-window start end t 0 entries o from inside)
