-- ===== src/Master.antt =====
-- `Event`, `Timer` and `EventMaster` of src/common/event.hh and event.cc. A pointer to an event is a number, and
-- the heap gives the event it points to. The clock and `select` are arguments.
pub mod Fetch
pub mod Timers
pub mod Fetching
pub mod Erasing
use mxtce_geni_scs.Base.{
  ℕ, zero, suc, ◌+◌, ◌-◌, ◌%◌, ◌^◌, Bool, true, false, ◌&&◌, ◌||◌, Option, none, some, List, [],
  ◌∷◌, ◌++◌, ltb, leb, ◌==◌, if◌then◌else◌, ◌>>=◌,
}

pub data EventType : Type 0 where
  event_priority event_timer event_read event_write event_ready event_nice event_idle : EventType

-- `repeats`: -1 is `FOREVER`, and other negative numbers are kept apart.
pub data Repeats : Type 0 where
  forever : Repeats
  times : ℕ → Repeats
  negative : Repeats

pub record Timeval : Type 0 where
  pub tv_sec : ℕ
  pub tv_usec : ℕ

-- `is_timer` tells a `Timer` by its class, which need not be what its type says. A negative
-- descriptor is `none`.
pub record Event : Type 0 where
  pub type : EventType
  pub is_timer : Bool
  pub should_auto_delete : Bool
  pub is_obsolete : Bool
  pub is_nice : Bool
  pub repeats : Repeats
  pub due : Timeval
  pub interval : Timeval
  pub fd : Option ℕ

pub record Master : Type 0 where
  pub heap : ℕ → Event
  pub priorities : List ℕ
  pub timers : List ℕ
  pub reads : List ℕ
  pub writes : List ℕ
  pub ready : List ℕ
  pub nices : List ℕ
  pub readfd : List ℕ
  pub writefd : List ℕ
  pub stopped : Bool
  pub closed : List ℕ
  pub deleted : List ℕ

unfoldable pub is_before : Timeval → Timeval → Bool
is_before a b = ltb a.tv_sec b.tv_sec || (a.tv_sec == b.tv_sec) && ltb a.tv_usec b.tv_usec

unfoldable pub is_same_time : Timeval → Timeval → Bool
is_same_time a b = (a.tv_sec == b.tv_sec) && (a.tv_usec == b.tv_usec)

-- The sums are `int`s, which are asserted not to be negative.
unfoldable pub add_time : Timeval → Timeval → Option Timeval
add_time a b =
    let sec_diff = (a.tv_sec + b.tv_sec) % 2 ^ 32 in
    let usec_diff = (a.tv_usec + b.tv_usec) % 2 ^ 32 in
    if ltb sec_diff (2 ^ 31) && ltb usec_diff (2 ^ 31)
    then some (
        if leb 1000000 usec_diff
        then record { tv_sec = sec_diff + 1; tv_usec = usec_diff - 1000000 }
        else record { tv_sec = sec_diff; tv_usec = usec_diff })
    else none

-- `Cycle` of `Event` and of `Timer`.
count_down : Repeats → Option Repeats
count_down forever = some forever
count_down (times zero) = none
count_down (times (suc n)) = some (times n)
count_down negative = none

unfoldable pub cycle : Event → Option Event
unfolding count_down
cycle e = do
  repeats ← count_down e.repeats
  due ← if e.is_timer then add_time e.due e.interval else some e.due
  some (record e { repeats = repeats; due = due })

abbrev pub put_event : ℕ → Event → Master → Master
put_event k e m = record m { heap = λ j. if j == k then e else m.heap j }

unfoldable pub fd_isset : ℕ → List ℕ → Bool
fd_isset fd [] = false
fd_isset fd (x ∷ set) = (x == fd) || fd_isset fd set

unfoldable pub fd_clr : ℕ → List ℕ → List ℕ
fd_clr fd [] = []
fd_clr fd (x ∷ set) = let rest = fd_clr fd set in if x == fd then rest else x ∷ rest

-- Before the first timer that is due later.
unfoldable pub insert_timer : (ℕ → Event) → ℕ → List ℕ → List ℕ
insert_timer heap event [] = event ∷ []
insert_timer heap event (timer ∷ timers) =
    let rest = insert_timer heap event timers in
    if is_before (heap event).due (heap timer).due then event ∷ timer ∷ timers else timer ∷ rest

-- A selector without a descriptor is made obsolete, and one whose descriptor is waited for already
-- is left out.
unfoldable pub schedule_read : Option ℕ → ℕ → Master → Master
schedule_read none event m =
    put_event event (record (m.heap event) { repeats = times 0; is_obsolete = true }) m
schedule_read (some fd) event m =
    if fd_isset fd m.readfd
    then m
    else record m { readfd = fd ∷ m.readfd; reads = m.reads ++ event ∷ [] }

unfoldable pub schedule_write : Option ℕ → ℕ → Master → Master
schedule_write none event m =
    put_event event (record (m.heap event) { repeats = times 0; is_obsolete = true }) m
schedule_write (some fd) event m =
    if fd_isset fd m.writefd
    then m
    else record m { writefd = fd ∷ m.writefd; writes = m.writes ++ event ∷ [] }

unfoldable pub schedule_as : EventType → ℕ → Master → Master
schedule_as event_timer event m = record m { timers = insert_timer m.heap event m.timers }
schedule_as event_priority event m = record m { priorities = m.priorities ++ event ∷ [] }
schedule_as event_nice event m = record m { nices = m.nices ++ event ∷ [] }
schedule_as event_read event m = schedule_read (m.heap event).fd event m
schedule_as event_write event m = schedule_write (m.heap event).fd event m
schedule_as type event m = m

abbrev pub schedule : ℕ → Master → Master
schedule event m = schedule_as (m.heap event).type event m

-- The loop of `Remove`: after an erasure the iterator stands on the next event and is moved past it,
-- and it may not be moved past the end.
unfoldable pub erase_event : ℕ → List ℕ → Option (List ℕ)
erase_event event [] = some []
erase_event event (x ∷ []) = if x == event then none else some (x ∷ [])
erase_event event (x ∷ y ∷ list) =
    if x == event
    then (do rest ← erase_event event list; some (y ∷ rest))
    else (do rest ← erase_event event (y ∷ list); some (x ∷ rest))

-- A positive descriptor that is waited for is closed.
unfoldable pub close_read : ℕ → Master → Master
close_read event m = elim (m.heap event).fd [
  | some (suc n) ↦
      if fd_isset (suc n) m.readfd
      then put_event event (record (m.heap event) { fd = none })
          (record m { readfd = fd_clr (suc n) m.readfd; closed = suc n ∷ m.closed })
      else m
  | _ ↦ m
]

unfoldable pub close_write : ℕ → Master → Master
close_write event m = elim (m.heap event).fd [
  | some (suc n) ↦
      if fd_isset (suc n) m.writefd
      then put_event event (record (m.heap event) { fd = none })
          (record m { writefd = fd_clr (suc n) m.writefd; closed = suc n ∷ m.closed })
      else m
  | _ ↦ m
]

-- `eventLists[event->type]`, with the event erased.
unfoldable pub erase_listed : EventType → ℕ → Master → Option Master
erase_listed event_priority event m = do
  list ← erase_event event m.priorities
  some (record m { priorities = list })
erase_listed event_timer event m = do
  list ← erase_event event m.timers
  some (record m { timers = list })
erase_listed event_read event m = do
  list ← erase_event event m.reads
  some (record m { reads = list })
erase_listed event_write event m = do
  list ← erase_event event m.writes
  some (record m { writes = list })
erase_listed event_ready event m = do
  list ← erase_event event m.ready
  some (record m { ready = list })
erase_listed event_nice event m = do
  list ← erase_event event m.nices
  some (record m { nices = list })
erase_listed event_idle event m = some m

-- An idle event is past the sixth list.
unfoldable pub remove : ℕ → Master → Option Master
remove event m =
    let type = (m.heap event).type in
    let gone =
      put_event event (record (m.heap event) { is_obsolete = true; repeats = times 0 }) m in
    elim type [
      | event_idle ↦ some m
      | event_read ↦ erase_listed event_read event (close_read event gone)
      | event_write ↦ erase_listed event_write event (close_write event gone)
      | other ↦ erase_listed other event gone
    ]
