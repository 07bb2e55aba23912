-- ===== src/Series.antt =====
-- `AggregateDeltaSeries` of src/compute/scheduling.cc: the deltas of one resource over time. The code
-- keeps pointers into its list while it changes it; here every delta in the list has a handle.
pub mod Entries
pub mod Pieces
pub mod Adding
pub mod Merging
pub mod Loop
pub mod Load
use mxtce_geni_scs.Base.{
  ℕ, zero, suc, ◌+◌, Bool, true, false, ◌&&◌, ◌||◌, Option, none, some, List, [], ◌∷◌, ◌++◌, map,
  ltb, leb, ◌==◌, if◌then◌else◌, ◌>>=◌,
}
use mxtce_geni_scs.Delta.{
  Delta, get_start_time, get_end_time, set_start_time, set_end_time, combine, decombine, join_delta,
}
use mxtce_geni_scs.Delta

-- `next` is the handle of the next allocation.
pub record Series : Type 0 where
  pub entries : List (ℕ × Delta)
  pub next : ℕ

unfoldable pub in_window : ℕ → ℕ → Delta → Bool
in_window start end d =
    leb start (get_start_time d) && ltb (get_start_time d) end
    || ltb start (get_end_time d) && leb (get_end_time d) end
    || leb (get_start_time d) start && leb end (get_end_time d)

-- The handles of the deltas that touch the window, in order.
unfoldable pub get_ads_in_window : ℕ → ℕ → List (ℕ × Delta) → List ℕ
get_ads_in_window start end [] = []
get_ads_in_window start end ((h, d) ∷ entries) =
    let rest = get_ads_in_window start end entries in
    if in_window start end d then h ∷ rest else rest

-- Before the first delta that starts at or after the end of `d`.
unfoldable pub insert_entry : ℕ → Delta → List (ℕ × Delta) → List (ℕ × Delta)
insert_entry h d [] = (h, d) ∷ []
insert_entry h d ((k, e) ∷ entries) =
    let rest = insert_entry h d entries in
    if leb (get_end_time d) (get_start_time e) then (h, d) ∷ (k, e) ∷ entries else (k, e) ∷ rest

unfoldable pub insert : Delta → Series → Series
insert d s = record { entries = insert_entry s.next d s.entries; next = s.next + 1 }

-- The delta that a handle points to, and a change of it in place.
unfoldable pub find_entry : ℕ → List (ℕ × Delta) → Option Delta
find_entry h [] = none
find_entry h ((k, d) ∷ entries) = if k == h then some d else find_entry h entries

unfoldable pub update_entry : ℕ → Delta → List (ℕ × Delta) → List (ℕ × Delta)
update_entry h d [] = []
update_entry h d ((k, e) ∷ entries) =
    if k == h then (k, d) ∷ entries else (k, e) ∷ update_entry h d entries

abbrev pub put_entry : ℕ → Delta → Series → Series
put_entry h d s = record s { entries = update_entry h d s.entries }

-- What one round works on: the handle of the delta that is merged into, what is left of the added
-- delta, and the series.
pub record Round : Type 0 where
  pub handle : ℕ
  pub added : Delta
  pub series : Series

-- The first part of a round: the starts of the delta in the list and of the added one are made equal.
unfoldable pub align_starts : ℕ → ℕ → Delta → Series → Option Round
align_starts now h delta s = do
  a₁ ← find_entry h s.entries
  if ltb (get_start_time a₁) (get_start_time delta)
      then (do
        a₂ ← Delta.clone now a₁
        a₁' ← set_end_time (get_start_time delta) a₁
        a₂' ← set_start_time (get_start_time delta) a₂
        some (record { handle = s.next; added = delta; series = insert a₂' (put_entry h a₁' s) }))
      else if ltb (get_start_time delta) (get_start_time a₁)
      then (do
        a₂ ← Delta.clone now delta
        a₂' ← set_end_time (get_start_time a₁) a₂
        delta' ← set_start_time (get_start_time a₁) delta
        some (record { handle = h; added = delta'; series = insert a₂' s }))
      else some (record { handle = h; added = delta; series = s })

-- The second part: the longer of the two is cut at the end of the other, they are merged, and the
-- tail of the delta in the list, if there is one, ends the loop.
unfoldable pub merge_round :
    ℕ → (Delta → Delta → Option Delta) → Round → Option (Bool × Delta × Series)
merge_round now merge r = do
  a₂ ← find_entry r.handle r.series.entries
  if ltb (get_end_time r.added) (get_end_time a₂)
      then (do
        a₃ ← Delta.clone now a₂
        a₂' ← set_end_time (get_end_time r.added) a₂
        a₃' ← set_start_time (get_end_time r.added) a₃
        merged ← merge a₂' r.added
        some (true, r.added, insert a₃' (put_entry r.handle merged r.series)))
      else (do
        delta' ← set_start_time (get_end_time a₂) r.added
        merged ← merge a₂ delta'
        some (false, delta', put_entry r.handle merged r.series))

-- The loop over the deltas in contact, and what follows it.
unfoldable pub merge_contacts :
    ℕ → (Delta → Delta → Option Delta) → List ℕ → Delta → Series → Option Series
merge_contacts now merge [] delta s =
    if leb (get_start_time delta) (get_end_time delta)
    then some (if get_start_time delta == get_end_time delta then s else insert delta s)
    else none
merge_contacts now merge (h ∷ contacts) delta s = do
  r ← align_starts now h delta s
  (done, delta', s') ← merge_round now merge r
  if done then some s' else merge_contacts now merge contacts delta' s'

unfoldable pub push_back : Delta → Series → Series
push_back d s = record { entries = s.entries ++ (s.next, d) ∷ []; next = s.next + 1 }

unfoldable pub meet_contacts :
    ℕ → (Delta → Delta → Option Delta) → Delta → Series → List ℕ → Option Series
meet_contacts now merge delta s [] = some (insert delta s)
meet_contacts now merge delta s (h ∷ contacts) = merge_contacts now merge (h ∷ contacts) delta s

unfoldable pub add_clone : ℕ → (Delta → Delta → Option Delta) → Delta → Series → Option Series
unfolding push_back
add_clone now merge delta s = elim s.entries [
  | [] ↦ some (push_back delta s)
  | e ∷ entries ↦
      meet_contacts now merge delta s
        (get_ads_in_window (get_start_time delta) (get_end_time delta) s.entries)
]

unfoldable pub add_delta : ℕ → Bool → Delta → Series → Option Series
unfolding add_clone
add_delta now join_instead delta s = do
  delta' ← Delta.clone now delta
  add_clone now (if join_instead then join_delta else combine) delta' s

abbrev pub drop_entry : ℕ → List (ℕ × Delta) → List (ℕ × Delta)
drop_entry h [] = []
drop_entry h ((k, d) ∷ entries) =
    let rest = drop_entry h entries in if k == h then rest else (k, d) ∷ rest

-- `RemoveDelta` takes the bandwidth out of every delta in contact, whole, and drops those at 0.
unfoldable pub decombine_contacts : List ℕ → Delta → Series → Option Series
decombine_contacts [] delta s = some s
decombine_contacts (h ∷ contacts) delta s = do
  a ← find_entry h s.entries
  a' ← decombine a delta
  decombine_contacts contacts delta (
      if a'.bandwidth == 0 then record s { entries = drop_entry h s.entries } else put_entry h a' s)

unfoldable pub remove_delta : Delta → Series → Option Series
remove_delta delta s =
    decombine_contacts (get_ads_in_window (get_start_time delta) (get_end_time delta) s.entries)
      delta s

-- Every delta cloned, under new handles from 0.
unfoldable pub duplicate_from : ℕ → ℕ → List (ℕ × Delta) → Option (List (ℕ × Delta))
duplicate_from now k [] = some []
duplicate_from now k ((h, d) ∷ entries) = do
  d' ← Delta.clone now d
  rest ← duplicate_from now (k + 1) entries
  some ((k, d') ∷ rest)
