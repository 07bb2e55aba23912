-- ===== src/Master/Fetching.antt =====
-- No event is lost: `EventMaster::Fetch` and `ModifyFDSets` (src/common/event.cc) on the lists of events.
use mxtce_geni_scs.Base.{
  ℕ, ◌+◌, ◌≤◌, ◌≡◌, refl, ap, ◌∙◌, Bool, true, false, Option, none, some, List, [], ◌∷◌, ◌++◌, ◌==◌,
  if◌then◌else◌, arith, Bool-cases, inl, inr,
}
use mxtce_geni_scs.Master.{Timeval, Event, Master, fd_clr}
use mxtce_geni_scs.Master.Fetch.{
  modify_fds, modify_fd_sets, fd_ready, clear, wait_scan, scan_from, find_due, take_timer,
  pop_timer, take_priority, pop_priority, take_ready, pop_ready, take_nice, pop_nice, take_selected,
  fetch_step, fetch, or_else, Selection, nothing, failure, selected, Fetched, fetched, null, again,
}

-- How often an event stands in a list, and in the six lists.
unfoldable pub count : ℕ → List ℕ → ℕ
count e [] = 0
count e (x ∷ list) = (if x == e then 1 else 0) + count e list

unfoldable pub queued : ℕ → Master → ℕ
queued e m =
    count e m.priorities
    + count e m.timers
    + count e m.reads
    + count e m.writes
    + count e m.ready
    + count e m.nices

unfoldable pub returned : ℕ → Fetched → ℕ
returned e (fetched k) = if k == e then 1 else 0
returned e found = 0

-- What is taken from the lists is what is returned.
unfoldable pub Conserves : Master → Fetched × Master → Type 0
Conserves m (found, m') = (e : ℕ) → queued e m' + returned e found ≡ queued e m

-- No timer stands in the list twice.
unfoldable pub TimersOnce : Master → Type 0
TimersOnce m = (e : ℕ) → count e m.timers ≤ 1

count-append : (e : ℕ) → (xs ys : List ℕ) → count e (xs ++ ys) ≡ count e xs + count e ys
unfolding count
count-append e [] ys = omega arith
count-append e (x ∷ xs) ys = omega (arith, count-append e xs ys)

count-modify_fds :
    (heap : ℕ → Event)
    → (fds : List ℕ) → (events ready set : List ℕ) → (e : ℕ)
    → count e (modify_fds heap fds events ready set).waiting
        + count e (modify_fds heap fds events ready set).now_ready
      ≡ count e events + count e ready
unfolding count modify_fds
count-modify_fds heap fds [] ready set e = refl
count-modify_fds heap fds (x ∷ events) ready set e = elim (Bool-cases (fd_ready (heap x).fd fds)) [
  | inl h ↦ rw h (
      omega (
        arith,
        count-modify_fds heap fds events (ready ++ x ∷ []) (clear (heap x).fd set) e,
        count-append e ready (x ∷ []),
      ))
  | inr h ↦ rw h (omega (arith, count-modify_fds heap fds events ready set e))
]

modify_fd_sets-Conserves :
    (reads writes : List ℕ)
    → (m : Master) → (e : ℕ) → queued e (modify_fd_sets reads writes m) ≡ queued e m
unfolding queued modify_fd_sets
modify_fd_sets-Conserves reads writes m e =
    let r = modify_fds m.heap reads m.reads m.ready m.readfd in
    omega (
      arith,
      count-modify_fds m.heap reads m.reads m.ready m.readfd e,
      count-modify_fds m.heap writes m.writes r.now_ready m.writefd e,
    )

module _ (m : Master) where
  priority-Conserves : (list : List ℕ) → m.priorities ≡ list → Conserves m (pop_priority list m)
  unfolding Conserves queued returned pop_priority count
  priority-Conserves [] same e = omega arith
  priority-Conserves (x ∷ list) same e =
      let counted = ap (count e) same in ground (arith, counted, count-append e m.nices (x ∷ []))

  ready-Conserves : (list : List ℕ) → m.ready ≡ list → Conserves m (pop_ready list m)
  unfolding Conserves queued returned pop_ready count
  ready-Conserves [] same e = omega arith
  ready-Conserves (x ∷ list) same e = let counted = ap (count e) same in omega (arith, counted)

  nice-Conserves : (list : List ℕ) → m.nices ≡ list → Conserves m (pop_nice list m)
  unfolding Conserves queued returned pop_nice count
  nice-Conserves [] same e = omega arith
  nice-Conserves (x ∷ list) same e = let counted = ap (count e) same in omega (arith, counted)

count-fd_clr :
    (e k : ℕ) → (list : List ℕ) → count e (fd_clr k list) ≡ (if k == e then 0 else count e list)
unfolding count fd_clr
count-fd_clr e k [] = ground arith
count-fd_clr e k (x ∷ list) = ground (arith, count-fd_clr e k list)

find_due-counted :
    (heap : ℕ → Event)
    → (now : Timeval) → (ts : List ℕ) → (k : ℕ) → find_due heap now ts ≡ some k
    → 1 ≤ count k ts
unfolding find_due count
find_due-counted heap now [] k found = ground arith
find_due-counted heap now (t ∷ ts) k found = ground (arith, found, find_due-counted heap now ts k)

timer-Conserves :
    (now : Timeval)
    → (m : Master) → TimersOnce m
    → (found : Option ℕ) → find_due m.heap now m.timers ≡ found
    → Conserves m (pop_timer found m)
unfolding Conserves queued returned pop_timer TimersOnce
timer-Conserves now m once none same e = omega arith
timer-Conserves now m once (some k) same e =
    let counted = find_due-counted m.heap now m.timers k same in
    ground (arith, counted, count-fd_clr e k m.timers, once e)

selected-Conserves :
    (selection : Selection) → (m : Master) → Conserves m (take_selected selection m)
unfolding Conserves take_selected returned
selected-Conserves nothing m e = omega arith
selected-Conserves failure m e = omega arith
selected-Conserves (selected reads writes) m e =
    let moved = modify_fd_sets reads writes m in
    unfold Conserves in
    (ready-Conserves moved moved.ready refl e ∙ modify_fd_sets-Conserves reads writes m e)

or_else-Conserves :
    (m : Master)
    → (result : Fetched × Master) → (next : Master → Fetched × Master) → Conserves m result
    → (result.0 ≡ again → Conserves result.1 (next result.1))
    → Conserves m (or_else result next)
unfolding Conserves or_else returned
or_else-Conserves m (again, m') next first second e = omega (arith, first e, second refl e)
or_else-Conserves m (null, m') next first second e = first e
or_else-Conserves m (fetched k, m') next first second e = first e

priority-Once : (m : Master) → TimersOnce m → (list : List ℕ) → TimersOnce (pop_priority list m).1
unfolding pop_priority TimersOnce
priority-Once m once [] = once
priority-Once m once (x ∷ list) = elim (Bool-cases (m.heap x).is_nice) [
  | inl h ↦ rw h once
  | inr h ↦ rw h once
]

timer-Once : (m : Master) → TimersOnce m → (found : Option ℕ) → TimersOnce (pop_timer found m).1
unfolding pop_timer TimersOnce
timer-Once m once none e = once e
timer-Once m once (some k) e = ground (arith, count-fd_clr e k m.timers, once e)

ready-Once : (m : Master) → TimersOnce m → (list : List ℕ) → TimersOnce (pop_ready list m).1
unfolding pop_ready TimersOnce
ready-Once m once [] = once
ready-Once m once (x ∷ list) = once

scan-Conserves : (ts : List ℕ) → (m : Master) → (e : ℕ) → queued e (scan_from ts m) ≡ queued e m
unfolding scan_from queued
scan-Conserves [] m e = refl
scan-Conserves (t ∷ ts) m e = refl

after_scan-Conserves :
    (m : Master)
    → (selection : Selection)
    → Conserves m (or_else (take_selected selection (wait_scan m)) take_nice)
unfolding Conserves
after_scan-Conserves m selection e =
    or_else-Conserves (wait_scan m) (take_selected selection (wait_scan m)) take_nice
      (selected-Conserves selection (wait_scan m)) (λ going. nice-Conserves _ _ refl) e
    ∙ scan-Conserves m.timers m e

fetch_step-Conserves :
    (now : Timeval)
    → (selection : Selection) → (m : Master) → TimersOnce m
    → Conserves m (fetch_step now selection m)
unfolding fetch_step
fetch_step-Conserves now selection m once =
    or_else-Conserves m (take_priority m) _ (priority-Conserves m m.priorities refl) (λ h.
      let m₁ = (take_priority m).1 in
      or_else-Conserves m₁ (take_timer now m₁) _
        (timer-Conserves now m₁ (priority-Once m once m.priorities) _ refl)
        (λ h.
          let m₂ = (take_timer now m₁).1 in
          or_else-Conserves m₂ (take_ready m₂) _ (ready-Conserves m₂ m₂.ready refl)
            (λ h. after_scan-Conserves (take_ready m₂).1 selection)))

or_else-Once :
    (result : Fetched × Master)
    → (next : Master → Fetched × Master) → TimersOnce result.1
    → ((m : Master) → TimersOnce m → TimersOnce (next m).1)
    → TimersOnce (or_else result next).1
unfolding or_else
or_else-Once (again, m) next once keeps = keeps m once
or_else-Once (null, m) next once keeps = once
or_else-Once (fetched k, m) next once keeps = once

scan-Once : (ts : List ℕ) → (m : Master) → TimersOnce m → TimersOnce (scan_from ts m)
unfolding scan_from TimersOnce
scan-Once [] m once = once
scan-Once (t ∷ ts) m once = once

selected-Once :
    (selection : Selection) → (m : Master) → TimersOnce m → TimersOnce (take_selected selection m).1
unfolding take_selected TimersOnce modify_fd_sets
selected-Once nothing m once = once
selected-Once failure m once = once
selected-Once (selected reads writes) m once =
    let moved = modify_fd_sets reads writes m in
    unfold TimersOnce modify_fd_sets in ready-Once moved once moved.ready

nice-Once : (list : List ℕ) → (m : Master) → TimersOnce m → TimersOnce (pop_nice list m).1
unfolding pop_nice TimersOnce
nice-Once [] m once = once
nice-Once (x ∷ list) m once = once

fetch_step-Once :
    (now : Timeval)
    → (selection : Selection) → (m : Master) → TimersOnce m
    → TimersOnce (fetch_step now selection m).1
unfolding fetch_step
fetch_step-Once now selection m once =
    or_else-Once (take_priority m) _ (priority-Once m once m.priorities) (λ m₁ once₁.
      or_else-Once (take_timer now m₁) _ (timer-Once m₁ once₁ _) (λ m₂ once₂.
        or_else-Once (take_ready m₂) _ (ready-Once m₂ once₂ m₂.ready) (λ m₃ once₃.
          or_else-Once (take_selected selection (wait_scan m₃)) _
            (selected-Once selection (wait_scan m₃) (scan-Once m₃.timers m₃ once₃))
            (λ m₄ once₄. nice-Once m₄.nices m₄ once₄))))

stop-Conserves :
    (m : Master)
    → (stop : Bool) → (result : Fetched × Master) → Conserves m result
    → Conserves m (if stop then (null, m) else result)
unfolding Conserves returned
stop-Conserves m true result kept e = omega arith
stop-Conserves m false result kept e = kept e

-- When no timer stands in the list of timers twice to begin with, then however often `Fetch` goes around, and whatever the
-- clock and `select` say each time, no event is lost or made up: each stands in the six lists as often as before, but
-- once less when it is returned.
pub fetch-Conserves :
    (turns : List (Timeval × Selection)) → (m : Master) → TimersOnce m → Conserves m (fetch turns m)
unfolding fetch Conserves returned
fetch-Conserves [] m once e = ground arith
fetch-Conserves ((now, selection) ∷ turns) m once e =
    stop-Conserves m m.stopped _
      (or_else-Conserves m (fetch_step now selection m) (fetch turns)
        (fetch_step-Conserves now selection m once)
        (λ going.
          fetch-Conserves turns (fetch_step now selection m).1
            (fetch_step-Once now selection m once)))
      e
