-- ===== src/Tests/Events.antt =====
-- `EventMaster` of src/common/event.cc and `Action` of src/compute/action.cc at concrete queues and trees.
use mxtce_geni_scs.Base.{ℕ, ◌≡◌, refl, true, false, ◌||◌, none, List, [], ◌∷◌, arith, All}
use mxtce_geni_scs.Master.{event_timer, times, Timeval, Event, Master, is_before, schedule, fd_clr}
use mxtce_geni_scs.Master.Fetch.{Selection, nothing, fetched, fetch_step, fetch, wait_scan}
use mxtce_geni_scs.Master.Timers.{
  TimersOrdered, is_due, schedule-Ordered, wait_scan-Ordered, fetch_step-timer,
}
use mxtce_geni_scs.Master.Fetching.{TimersOnce, Conserves, count, fetch-Conserves}
use mxtce_geni_scs.Master.Erasing.{IsAbsent}
use mxtce_geni_scs.Action.{
  Action, action, no_actions, more, Info, finished, idle, waiting_children, ActionState, Methods,
  gives, state, children, clean_up, is_failed, is_over, all_over, run, process_messages,
  process_children, own_finish,
}
use mxtce_geni_scs.Action.CleanUp.{has_failed, clean_up-failed, clean_up-all_over}
use mxtce_geni_scs.Action.Steps.{
  IsSound, KeepsState, left_by, goes, stays, stays_finished, Steps-over,
}
use mxtce_geni_scs.Action.States.{run-IsSound}

abbrev at_second : ℕ → Timeval
at_second n = record { tv_sec = n; tv_usec = 0 }

-- The event of number n is a timer that is due at second n.
abbrev timer_at : ℕ → Event
timer_at n = record {
  type = event_timer;
  is_timer = true;
  should_auto_delete = false;
  is_obsolete = false;
  is_nice = false;
  repeats = times 0;
  due = at_second n;
  interval = at_second 10;
  fd = none;
}

abbrev two_timers : Master
two_timers = record {
  heap = timer_at;
  priorities = [];
  timers = 3 ∷ 8 ∷ [];
  reads = [];
  writes = [];
  ready = [];
  nices = 20 ∷ [];
  readfd = [];
  writefd = [];
  stopped = false;
  closed = [];
  deleted = [];
}

ordered_timers : TimersOrdered timer_at (3 ∷ 8 ∷ [])
unfolding TimersOrdered is_before
ordered_timers = ((refl, tt), (tt, tt))

timers_once : TimersOnce two_timers
unfolding TimersOnce count
timers_once e = ground arith

three_is_due : is_due (at_second 5) (timer_at 3) ≡ true
unfolding is_due is_before
three_is_due = refl

schedule-Ordered_example : TimersOrdered (schedule 5 two_timers).heap (schedule 5 two_timers).timers
schedule-Ordered_example = schedule-Ordered 5 two_timers ordered_timers

wait_scan-Ordered_example : wait_scan two_timers ≡ two_timers
wait_scan-Ordered_example = wait_scan-Ordered two_timers ordered_timers

fetch_step-timer_example :
    (k : ℕ) × (fetch_step (at_second 5) nothing two_timers
      ≡ (fetched k, record two_timers { timers = fd_clr k (3 ∷ 8 ∷ []) }))
    × (is_due (at_second 5) (timer_at k) ≡ true)
    × All (λ u. is_before (at_second u) (at_second k) ≡ false) (3 ∷ 8 ∷ [])
fetch_step-timer_example =
    fetch_step-timer (at_second 5) nothing two_timers refl ordered_timers [] (8 ∷ []) 3 refl
      three_is_due

abbrev two_turns : List (Timeval × Selection)
two_turns = (at_second 1, nothing) ∷ (at_second 2, nothing) ∷ []

fetch-Conserves_example : Conserves two_timers (fetch two_turns two_timers)
fetch-Conserves_example = fetch-Conserves two_turns two_timers timers_once

IsAbsent-two : IsAbsent 7 (2 ∷ [])
unfolding IsAbsent
IsAbsent-two = (omega arith, tt)

abbrev with_state : ActionState → Info
with_state s = record {
  name = "action";
  state = s;
  repeats = times 0;
  is_obsolete = false;
  is_root = true;
  expect_message_topics = [];
}

-- A parent that waits for a child that has finished and one that is still idle.
abbrev family : Action
family = action (with_state waiting_children) (
    more (action (with_state finished) no_actions)
      (more (action (with_state idle) no_actions) no_actions))

abbrev own_methods : Methods
own_methods = record {
  process = λ a. gives tt a;
  process_messages = process_messages;
  process_children = process_children;
  finish = own_finish;
}

own_methods-KeepsState : KeepsState own_methods
unfolding left_by process_messages process_children
own_methods-KeepsState = record {
  process = λ a. refl;
  process_messages = λ a. refl;
  process_children = λ a. refl;
}

run-IsSound_example : IsSound waiting_children (run own_methods true family)
run-IsSound_example = run-IsSound own_methods own_methods-KeepsState true family

clean_up-failed_example :
    is_failed (state (clean_up family))
    ≡ is_failed waiting_children || has_failed (children (clean_up family))
clean_up-failed_example = clean_up-failed family

clean_up-all_over_example : all_over (children (clean_up family)) ≡ true
clean_up-all_over_example = clean_up-all_over family

finished_over : is_over finished ≡ true
unfolding is_over
finished_over = refl

stays_over : is_over finished ≡ true
stays_over = Steps-over (goes stays_finished stays) finished_over
