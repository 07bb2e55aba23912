-- ===== src/Master/Timers.antt =====
-- The order of the timers of `EventMaster` (src/common/event.cc).
use mxtce_geni_scs.Base.{
  ℕ, ◌≡◌, refl, ap, sym, ◌∙◌, Bool, true, false, ◌||◌, Option, none, some, List, [], ◌∷◌, ◌++◌,
  ◌==◌, if◌then◌else◌, arith, All, Bool-cases, ==_iff, inl, inr,
}
use mathlib.Core.Path.{subst}
use mxtce_geni_scs.Master.{
  EventType, event_priority, event_timer, event_read, event_write, event_ready, event_nice,
  event_idle, Timeval, Event, Master, is_before, is_same_time, insert_timer, schedule, schedule_as,
  schedule_read, schedule_write, put_event, times, fd_isset, fd_clr,
}
use mxtce_geni_scs.Master.Fetch.{
  first_due, wait_scan, scan_from, find_due, pop_timer, pop_priority, fetch_step, or_else,
  Selection, fetched,
}

-- No timer is due before one that stands earlier in the list.
unfoldable pub TimersOrdered : (ℕ → Event) → List ℕ → Type 0
TimersOrdered heap [] = Unit
TimersOrdered heap (t ∷ ts) =
    All (λ u. is_before (heap u).due (heap t).due ≡ false) ts × TimersOrdered heap ts

All-insert_timer :
    (P : ℕ → Type 0)
    → (heap : ℕ → Event) → (e : ℕ) → (ts : List ℕ) → P e
    → All P ts
    → All P (insert_timer heap e ts)
unfolding insert_timer
All-insert_timer P heap e [] pe all = (pe, tt)
All-insert_timer P heap e (t ∷ ts) pe all =
    elim (Bool-cases (is_before (heap e).due (heap t).due)) [
      | inl before ↦ rw before (pe, all)
      | inr after ↦ rw after (all.0, All-insert_timer P heap e ts pe all.1)
    ]

not_before_trans :
    (a b c : Timeval) → is_before a b ≡ true → is_before c b ≡ false → is_before c a ≡ false
unfolding is_before
not_before_trans a b c h k = ground arith

before_irrefl : (a b : Timeval) → is_before a b ≡ true → is_before b a ≡ false
unfolding is_before
before_irrefl a b h = ground arith

All-map : (P Q : ℕ → Type 0) → ((k : ℕ) → P k → Q k) → (ts : List ℕ) → All P ts → All Q ts
All-map P Q f [] all = tt
All-map P Q f (t ∷ ts) all = (f t all.0, All-map P Q f ts all.1)

insert_timer-Ordered :
    (heap : ℕ → Event)
    → (e : ℕ) → (ts : List ℕ) → TimersOrdered heap ts
    → TimersOrdered heap (insert_timer heap e ts)
unfolding insert_timer TimersOrdered
insert_timer-Ordered heap e [] ordered = (tt, tt)
insert_timer-Ordered heap e (t ∷ ts) ordered =
    elim (Bool-cases (is_before (heap e).due (heap t).due)) [
      | inl before ↦ rw before (
        (
          before_irrefl (heap e).due (heap t).due before,
          All-map _ _ (λ k h. not_before_trans (heap e).due (heap t).due (heap k).due before h) ts
              ordered.0,
        ),
        ordered,
      )
      | inr after ↦ rw after (
        All-insert_timer (λ u. is_before (heap u).due (heap t).due ≡ false) heap e ts after
            ordered.0,
        insert_timer-Ordered heap e ts ordered.1,
      )
    ]

-- The order rests on the due times alone.
Ordered-same_due :
    (heap heap' : ℕ → Event)
    → ((k : ℕ) → (heap' k).due ≡ (heap k).due)
    → (ts : List ℕ) → TimersOrdered heap ts
    → TimersOrdered heap' ts
unfolding TimersOrdered
Ordered-same_due heap heap' same [] ordered = tt
Ordered-same_due heap heap' same (t ∷ ts) ordered = (
  All-map _ _ (λ k h. rw (same k, same t) h) ts ordered.0,
  Ordered-same_due heap heap' same ts ordered.1,
)

due-put :
    (heap : ℕ → Event)
    → (e : Event) → (k j : ℕ) → e.due ≡ (heap k).due
    → (if j == k then e else heap j).due ≡ (heap j).due
due-put heap e k j same = elim (Bool-cases (j == k)) [
  | inl h ↦ rw h (same ∙ ap (λ i. (heap i).due) (sym ((==_iff j k).0 h)))
  | inr h ↦ rw h
]

-- A change of the heap at one event that keeps its due time, or none at all.
put-Ordered :
    (k : ℕ)
    → (e : Event) → (m : Master) → e.due ≡ (m.heap k).due
    → TimersOrdered m.heap m.timers
    → TimersOrdered (put_event k e m).heap (put_event k e m).timers
put-Ordered k e m same ordered =
    Ordered-same_due m.heap _ (λ j. due-put m.heap e k j same) m.timers ordered

read-Ordered :
    (fd : Option ℕ)
    → (e : ℕ) → (m : Master) → TimersOrdered m.heap m.timers
    → TimersOrdered (schedule_read fd e m).heap (schedule_read fd e m).timers
unfolding schedule_read
read-Ordered none e m ordered =
    put-Ordered e (record (m.heap e) { repeats = times 0; is_obsolete = true }) m refl ordered
read-Ordered (some fd) e m ordered = elim (Bool-cases (fd_isset fd m.readfd)) [
  | inl h ↦ rw h ordered
  | inr h ↦ rw h ordered
]

write-Ordered :
    (fd : Option ℕ)
    → (e : ℕ) → (m : Master) → TimersOrdered m.heap m.timers
    → TimersOrdered (schedule_write fd e m).heap (schedule_write fd e m).timers
unfolding schedule_write
write-Ordered none e m ordered =
    put-Ordered e (record (m.heap e) { repeats = times 0; is_obsolete = true }) m refl ordered
write-Ordered (some fd) e m ordered = elim (Bool-cases (fd_isset fd m.writefd)) [
  | inl h ↦ rw h ordered
  | inr h ↦ rw h ordered
]

schedule-type :
    (type : EventType)
    → (e : ℕ) → (m : Master) → TimersOrdered m.heap m.timers
    → TimersOrdered (schedule_as type e m).heap (schedule_as type e m).timers
unfolding schedule_as
schedule-type event_timer e m ordered = insert_timer-Ordered m.heap e m.timers ordered
schedule-type event_priority e m ordered = ordered
schedule-type event_nice e m ordered = ordered
schedule-type event_ready e m ordered = ordered
schedule-type event_idle e m ordered = ordered
schedule-type event_read e m ordered = read-Ordered (m.heap e).fd e m ordered
schedule-type event_write e m ordered = write-Ordered (m.heap e).fd e m ordered

-- Scheduling an event of any type leaves the timers in the order of their due times.
pub schedule-Ordered :
    (e : ℕ)
    → (m : Master) → TimersOrdered m.heap m.timers
    → TimersOrdered (schedule e m).heap (schedule e m).timers
schedule-Ordered e m ordered = schedule-type (m.heap e).type e m ordered

first_due-Ordered :
    (heap : ℕ → Event)
    → (first : ℕ) → (ts : List ℕ) → All (λ u. is_before (heap u).due (heap first).due ≡ false) ts
    → first_due heap first ts ≡ heap
unfolding first_due
first_due-Ordered heap first [] all = refl
first_due-Ordered heap first (t ∷ ts) all = rw all.0 (first_due-Ordered heap first ts all.1)

scan-Ordered : (m : Master) → (ts : List ℕ) → TimersOrdered m.heap ts → scan_from ts m ≡ m
unfolding scan_from TimersOrdered
scan-Ordered m [] ordered = refl
scan-Ordered m (t ∷ ts) ordered =
    ap (λ (h : ℕ → Event). record m { heap = h }) (first_due-Ordered m.heap t ts ordered.0)

-- While the timers are in order, the scan of `WaitLimit` copies no timer over another.
pub wait_scan-Ordered : (m : Master) → TimersOrdered m.heap m.timers → wait_scan m ≡ m
wait_scan-Ordered m ordered = scan-Ordered m m.timers ordered

-- Due at the time of the clock, or before.
unfoldable pub is_due : Timeval → Event → Bool
is_due now e = is_before e.due now || is_same_time e.due now

due-before :
    (now a b : Timeval)
    → (is_before a now || is_same_time a now) ≡ false
    → (is_before b now || is_same_time b now) ≡ true
    → is_before a b ≡ false
unfolding is_before is_same_time
due-before now a b h k = ground arith

before_self : (a : Timeval) → is_before a a ≡ false
unfolding is_before
before_self a = ground arith

find_due-first :
    (heap : ℕ → Event)
    → (now : Timeval) → (ts : List ℕ) → TimersOrdered heap ts
    → (k : ℕ) → find_due heap now ts ≡ some k
    → (is_due now (heap k) ≡ true) × All (λ u. is_before (heap u).due (heap k).due ≡ false) ts
unfolding find_due is_due TimersOrdered
find_due-first heap now [] ordered k found = ground arith
find_due-first heap now (t ∷ ts) ordered k found = elim (Bool-cases (is_due now (heap t))) [
  | inl h ↦
      let same : t ≡ k = ground (arith, h, found) in
      subst
        (λ (i : ℕ).
          (is_due now (heap i) ≡ true)
          × All (λ u. is_before (heap u).due (heap i).due ≡ false) (t ∷ ts))
        same (h, (before_self (heap t).due, ordered.0))
  | inr h ↦
      let (due, all) = find_due-first heap now ts ordered.1 k (ground (arith, h, found)) in
      (due, (due-before now (heap t).due (heap k).due h due, all))
]

-- The scan finds a timer, if one is due.
find_due-some :
    (heap : ℕ → Event)
    → (now : Timeval) → (front back : List ℕ) → (due : ℕ) → is_due now (heap due) ≡ true
    → (k : ℕ) × (find_due heap now (front ++ due ∷ back) ≡ some k)
unfolding find_due is_due
find_due-some heap now [] back due h = (due, ground (arith, h))
find_due-some heap now (t ∷ front) back due h = elim (Bool-cases (is_due now (heap t))) [
  | inl is ↦ (t, ground (arith, is))
  | inr not_yet ↦
      let (k, found) = find_due-some heap now front back due h in
      (k, ground (arith, not_yet, found))
]

-- When no priority event is waiting, the timers are in order, and some timer among them is due at the time of the clock or
-- before, `Fetch` returns a timer that is due and that no other is due before, and takes it off the list, whatever
-- `select` does.
pub fetch_step-timer :
    (now : Timeval)
    → (selection : Selection) → (m : Master) → m.priorities ≡ []
    → TimersOrdered m.heap m.timers
    → (front back : List ℕ) → (due : ℕ) → m.timers ≡ front ++ due ∷ back
    → is_due now (m.heap due) ≡ true
    → (k : ℕ) × (fetch_step now selection m ≡ (fetched k, record m { timers = fd_clr k m.timers }))
      × (is_due now (m.heap k) ≡ true)
      × All (λ u. is_before (m.heap u).due (m.heap k).due ≡ false) m.timers
unfolding fetch_step pop_timer pop_priority or_else find_due fd_clr
fetch_step-timer now selection m empty ordered front back due among is =
    let (k, there) = find_due-some m.heap now front back due is in
    let found : find_due m.heap now m.timers ≡ some k = ap (find_due m.heap now) among ∙ there in
    let (k_due, all) = find_due-first m.heap now m.timers ordered k found in
    (k, rw (empty, found), k_due, all)
