-- ===== src/Master/Fetch.antt =====
-- The loops of `EventMaster` in src/common/event.cc: waiting for events, fetching one and running it.
use mxtce_geni_scs.Base.{
  ℕ, suc, Bool, true, false, ◌&&◌, ◌||◌, Option, none, some, List, [], ◌∷◌, ◌++◌, ltb, ◌==◌,
  if◌then◌else◌, ◌>>=◌,
}
use mxtce_geni_scs.Master.{
  event_read, event_write, event_nice, Repeats, forever, times, negative, Timeval, Event, Master,
  is_before, is_same_time, cycle, put_event, fd_isset, fd_clr, schedule,
}

-- The scan of `WaitLimit`: a timer that is due before the first one is copied over it.
unfoldable pub first_due : (ℕ → Event) → ℕ → List ℕ → (ℕ → Event)
first_due heap first [] = heap
first_due heap first (timer ∷ timers) =
    first_due
      (if is_before (heap timer).due (heap first).due
        then (λ j. if j == first then heap timer else heap j)
        else heap)
      first timers

unfoldable pub scan_from : List ℕ → Master → Master
scan_from [] m = m
scan_from (first ∷ timers) m = record m { heap = first_due m.heap first timers }

abbrev pub wait_scan : Master → Master
wait_scan m = scan_from m.timers m

-- `ModifyFDSets` on one list: the events whose descriptor is in `selected` move to `ready`.
pub record Moved : Type 0 where
  pub waiting : List ℕ
  pub now_ready : List ℕ
  pub fds : List ℕ

unfoldable pub fd_ready : Option ℕ → List ℕ → Bool
fd_ready none selected = false
fd_ready (some fd) selected = fd_isset fd selected

unfoldable pub clear : Option ℕ → List ℕ → List ℕ
clear none fds = fds
clear (some fd) fds = fd_clr fd fds

unfoldable pub modify_fds : (ℕ → Event) → List ℕ → List ℕ → List ℕ → List ℕ → Moved
modify_fds heap selected [] ready fds = record { waiting = []; now_ready = ready; fds = fds }
modify_fds heap selected (event ∷ events) ready fds =
    let goes = fd_ready (heap event).fd selected in
    let rest =
      modify_fds heap selected events (if goes then ready ++ event ∷ [] else ready)
        (if goes then clear (heap event).fd fds else fds) in
    if goes then rest else record rest { waiting = event ∷ rest.waiting }

unfoldable pub modify_fd_sets : List ℕ → List ℕ → Master → Master
modify_fd_sets selected_reads selected_writes m =
    let r = modify_fds m.heap selected_reads m.reads m.ready m.readfd in
    let w = modify_fds m.heap selected_writes m.writes r.now_ready m.writefd in
    record m {
      reads = r.waiting;
      readfd = r.fds;
      writes = w.waiting;
      writefd = w.fds;
      ready = w.now_ready;
    }

-- What `select` does: it times out or is interrupted, it fails, or it gives descriptors.
pub data Selection : Type 0 where
  nothing failure : Selection
  selected : List ℕ → List ℕ → Selection

-- What one turn of the loop of `Fetch` does: it returns an event or null, or goes around.
pub data Fetched : Type 0 where
  fetched : ℕ → Fetched
  null again : Fetched

-- The first list: a nice event goes to the end of the nice ones.
unfoldable pub pop_priority : List ℕ → Master → Fetched × Master
pop_priority [] m = (again, m)
pop_priority (e ∷ priorities) m =
    if (m.heap e).is_nice
    then (
      again,
      put_event e (record (m.heap e) { type = event_nice })
          (record m { priorities = priorities; nices = m.nices ++ e ∷ [] }),
    )
    else (fetched e, record m { priorities = priorities })

abbrev pub take_priority : Master → Fetched × Master
take_priority m = pop_priority m.priorities m

-- `list::remove` takes out every occurrence.
unfoldable pub find_due : (ℕ → Event) → Timeval → List ℕ → Option ℕ
find_due heap now [] = none
find_due heap now (timer ∷ timers) =
    if is_before (heap timer).due now || is_same_time (heap timer).due now
    then some timer
    else find_due heap now timers

unfoldable pub pop_timer : Option ℕ → Master → Fetched × Master
pop_timer none m = (again, m)
pop_timer (some timer) m = (fetched timer, record m { timers = fd_clr timer m.timers })

abbrev pub take_timer : Timeval → Master → Fetched × Master
take_timer now m = pop_timer (find_due m.heap now m.timers) m

unfoldable pub pop_ready : List ℕ → Master → Fetched × Master
pop_ready [] m = (again, m)
pop_ready (e ∷ ready) m = (fetched e, record m { ready = ready })

abbrev pub take_ready : Master → Fetched × Master
take_ready m = pop_ready m.ready m

unfoldable pub pop_nice : List ℕ → Master → Fetched × Master
pop_nice [] m = (again, m)
pop_nice (e ∷ nices) m = (fetched e, record m { nices = nices })

abbrev pub take_nice : Master → Fetched × Master
take_nice m = pop_nice m.nices m

-- The next part runs when no event was found.
unfoldable pub or_else : Fetched × Master → (Master → Fetched × Master) → Fetched × Master
or_else (again, m) next = next m
or_else (found, m) next = (found, m)

unfoldable pub take_selected : Selection → Master → Fetched × Master
take_selected nothing m = (again, m)
take_selected failure m = (null, m)
take_selected (selected reads writes) m = take_ready (modify_fd_sets reads writes m)

unfoldable pub fetch_step : Timeval → Selection → Master → Fetched × Master
fetch_step now selection m = or_else (take_priority m) (λ m₁. or_else (take_timer now m₁) (λ m₂.
    or_else (take_ready m₂) (λ m₃. or_else (take_selected selection (wait_scan m₃)) take_nice)))

-- The loop of `Fetch`, given what the clock and `select` say on each turn; `again` when these run out.
unfoldable pub fetch : List (Timeval × Selection) → Master → Fetched × Master
fetch [] m = (if m.stopped then null else again, m)
fetch ((now, selection) ∷ turns) m =
    if m.stopped then (null, m) else or_else (fetch_step now selection m) (fetch turns)

unfoldable pub is_spent : Event → Bool
is_spent e = e.is_obsolete && e.should_auto_delete

-- `Run` after the event's own `Run`: it is scheduled again, or becomes obsolete; then an obsolete event
-- of the master's is deleted.
runs_again : Repeats → Bool
runs_again forever = true
runs_again (times n) = ltb 0 n
runs_again negative = false

unfoldable pub requeue : ℕ → Master → Option Master
unfolding runs_again
requeue e m =
    if runs_again (m.heap e).repeats
    then (do cycled ← cycle (m.heap e); some (schedule e (put_event e cycled m)))
    else elim (m.heap e).repeats [
      | times n ↦ some (put_event e (record (m.heap e) { is_obsolete = true }) m)
      | _ ↦ some m
    ]

-- Here the descriptor is closed whether or not it is waited for.
drop_fd : ℕ → Master → Master
drop_fd e m = elim (m.heap e).type [
  | event_read ↦ elim (m.heap e).fd [
    | some (suc n) ↦
        put_event e (record (m.heap e) { fd = none })
          (record m { readfd = fd_clr (suc n) m.readfd; closed = suc n ∷ m.closed })
    | _ ↦ m
  ]
  | event_write ↦ elim (m.heap e).fd [
    | some (suc n) ↦
        put_event e (record (m.heap e) { fd = none })
          (record m { writefd = fd_clr (suc n) m.writefd; closed = suc n ∷ m.closed })
    | _ ↦ m
  ]
  | _ ↦ m
]

unfoldable pub after_run : ℕ → Master → Option Master
unfolding drop_fd
after_run e m = do
  m' ← requeue e m
  some (
      if is_spent (m'.heap e)
      then (let dropped = drop_fd e m' in record dropped { deleted = e ∷ dropped.deleted })
      else m')

-- One turn of the loop of `Run`, with `call` for the event's own `Run`.
unfoldable pub run_step :
    (ℕ → Master → Master) → List (Timeval × Selection) → Master → Option Master
run_step call turns m =
    let (found, m') = fetch turns m in
    elim found [ fetched e ↦ after_run e (call e m') | _ ↦ some m' ]
