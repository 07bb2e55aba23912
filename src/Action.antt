-- ===== src/Action.antt =====
-- `Action` of src/compute/action.hh and action.cc: the states of one action of a workflow and the tree of its
-- children. `Process`, `ProcessMessages`, `ProcessChildren` and `Finish` are virtual, and arguments here; no class overrides
-- `Wait`, and every `CleanUp` of a derived class ends in that of `Action`. What an action asks of its event master is a
-- list of calls.
pub mod CleanUp
pub mod Steps
pub mod States
use mxtce_geni_scs.Base.{
  ℕ, zero, suc, ◌+◌, Bool, true, false, ◌&&◌, ◌||◌, List, [], ◌∷◌, ◌++◌, if◌then◌else◌,
}
use Prim.Native.String.{String}
use mxtce_geni_scs.Master.{Repeats, forever, times}

pub data ActionState : Type 0 where
  idle started waiting_messages waiting_children cancelled failed finished : ActionState

-- An action without a parent is a root.
pub record Info : Type 0 where
  pub name : String
  pub state : ActionState
  pub repeats : Repeats
  pub is_obsolete : Bool
  pub is_root : Bool
  pub expect_message_topics : List String

mutual
  pub data Action : Type 0 where
    action : Info → Actions → Action

  pub data Actions : Type 0 where
    no_actions : Actions
    more : Action → Actions → Actions

abbrev pub info : Action → Info
info (action i children) = i

abbrev pub children : Action → Actions
children (action i cs) = cs

abbrev pub state : Action → ActionState
state a = (info a).state

abbrev pub set_state : ActionState → Action → Action
set_state s (action i children) = action (record i { state = s }) children

-- `CleanUp` leaves these children alone.
unfoldable pub is_settled : ActionState → Bool
is_settled finished = true
is_settled failed = true
is_settled s = false

unfoldable pub is_failed : ActionState → Bool
is_failed failed = true
is_failed s = false

unfoldable pub is_over : ActionState → Bool
is_over finished = true
is_over cancelled = true
is_over failed = true
is_over s = false

abbrev pub unless_settled : Action → Action → Action
unless_settled child cleaned = if is_settled (state child) then child else cleaned

-- `CleanUp` of an action whose state was just set to the given one; of its children, and whether one
-- of them has failed then.
unfoldable mutual
  pub clean_as : ActionState → Action → Action
  clean_as s (action i cs) =
      action
        (record i {
          state = if any_failed cs then failed else s;
          repeats = times 0;
          is_obsolete = true;
        })
        (clean_children cs)

  pub clean_children : Actions → Actions
  clean_children no_actions = no_actions
  clean_children (more a actions) =
      more (unless_settled a (clean_as cancelled a)) (clean_children actions)

  pub any_failed : Actions → Bool
  any_failed no_actions = false
  any_failed (more a actions) =
      is_failed (state (unless_settled a (clean_as cancelled a))) || any_failed actions

abbrev pub clean_up : Action → Action
clean_up a = clean_as (state a) a

-- What an action asks of its event master, in order, and the error it leaves for its workflow. A child is
-- given by its place.
pub data Call : Type 0 where
  schedule_child : ℕ → Call
  schedule_this remove_this set_error : Call

-- What leaves a method besides its result.
pub data Thrown : Type 0 where
  no_exception compute_thread_exception other_exception : Thrown

-- A virtual method returns its result, throws a `ComputeThreadException`, which `Run` catches, or lets another exception
-- escape, such as a `TCEException`; with the action as it leaves it.
pub data Returns (R : Type 0) : Type 0 where
  gives : R → Action → Returns R
  throws : Action → Returns R
  escapes : Action → Returns R

-- `Finish` of a derived class need not call that of `Action`, which removes the event, and can throw; it leaves the state and the children. `Run` catches nothing
-- of it.
pub record Ending : Type 0 where
  pub removes : Bool
  pub raises : Thrown

pub record Methods : Type 0 where
  pub process : Action → Returns Unit
  pub process_messages : Action → Returns Bool
  pub process_children : Action → Returns Bool
  pub finish : Action → Ending

-- What a call of `Run` leaves, and what it throws.
pub record Ran : Type 0 where
  pub after : Action
  pub calls : List Call
  pub thrown : Thrown

-- `EventMaster::Remove` marks the event, and drops it from its list.
abbrev pub removed : Action → Action
removed (action i cs) = action (record i { repeats = times 0; is_obsolete = true }) cs

-- `Wait` sets the repeats, which `Remove` clears at once.
unfoldable pub wait : List Call → Action → Ran
wait calls a = record {
  after = removed a;
  calls = calls ++ remove_this ∷ schedule_this ∷ [];
  thrown = no_exception;
}

unfoldable pub finish : Methods → List Call → Action → Ran
finish methods calls a =
    let ending = methods.finish a in
    record {
      after = if ending.removes then removed a else a;
      calls = if ending.removes then calls ++ remove_this ∷ [] else calls;
      thrown = ending.raises;
    }

-- An exception that no handler is for.
unfoldable pub escape : List Call → Action → Ran
escape calls a = record { after = a; calls = calls; thrown = other_exception }

-- The handler of an exception: a root throws again.
unfoldable pub fail : List Call → Action → Ran
fail calls a = record {
  after = clean_up (set_state failed a);
  calls = calls ++ set_error ∷ [];
  thrown = if (info a).is_root then compute_thread_exception else no_exception;
}

unfoldable pub schedule_children : ℕ → Actions → List Call
schedule_children i no_actions = []
schedule_children i (more a actions) = schedule_child i ∷ schedule_children (i + 1) actions

abbrev pub has_children : Actions → Bool
has_children no_actions = false
has_children (more a cs) = true

-- What follows `Process`, on the topics that messages are expected for.
unfoldable pub on_topics : Methods → List String → Action → Ran
on_topics methods [] a =
    if has_children (children a)
    then wait (schedule_children 0 (children a)) (set_state waiting_children a)
    else finish methods [] (set_state finished a)
on_topics methods (topic ∷ topics) a = wait [] (set_state waiting_messages a)

unfoldable pub after_process : Methods → Returns Unit → Ran
after_process methods (throws a) = fail [] a
after_process methods (escapes a) = escape [] a
after_process methods (gives done a) = on_topics methods (info a).expect_message_topics a

-- The end of a life: the state becomes finished before the children are cleaned up.
unfoldable pub after_children : Methods → List Call → Returns Bool → Ran
after_children methods calls (throws a) = fail calls a
after_children methods calls (escapes a) = escape calls a
after_children methods calls (gives false a) = wait calls (set_state waiting_children a)
after_children methods calls (gives true a) = finish methods calls (clean_up (set_state finished a))

-- When the messages are there the code falls through to the children.
unfoldable pub after_messages : Methods → Returns Bool → Ran
after_messages methods (throws a) = fail [] a
after_messages methods (escapes a) = escape [] a
after_messages methods (gives false a) = wait [] (set_state waiting_messages a)
after_messages methods (gives true a) =
    after_children methods (schedule_children 0 (children a)) (methods.process_children a)

-- The cases of the switch. They clean up from the state they are the case of.
unfoldable pub run_in : ActionState → Methods → Action → Ran
run_in idle methods a = after_process methods (methods.process (set_state started a))
run_in started methods a = record {
  after = clean_as started a;
  calls = set_error ∷ [];
  thrown = compute_thread_exception;
}
run_in waiting_messages methods a = after_messages methods (methods.process_messages a)
run_in waiting_children methods a = after_children methods [] (methods.process_children a)
run_in cancelled methods a = record {
  after = clean_as cancelled a;
  calls = [];
  thrown = no_exception;
}
run_in failed methods a = record { after = clean_as failed a; calls = []; thrown = no_exception }
run_in finished methods a = finish methods [] (clean_as finished a)

-- `Run`, with whether the message port is up.
unfoldable pub run : Methods → Bool → Action → Ran
run methods true a = run_in (state a) methods a
run methods false a = record {
  after = clean_up (set_state failed (removed a));
  calls = remove_this ∷ [];
  thrown = compute_thread_exception;
}

-- `ProcessMessages`, `ProcessChildren` and `Finish` of `Action` itself.
unfoldable pub all_over : Actions → Bool
all_over no_actions = true
all_over (more a actions) = is_over (state a) && all_over actions

unfoldable pub process_messages : Action → Returns Bool
process_messages a =
    gives (elim (info a).expect_message_topics [ [] ↦ true | topic ∷ topics ↦ false ]) a

unfoldable pub process_children : Action → Returns Bool
process_children a = gives (all_over (children a)) a

abbrev pub own_finish : Action → Ending
own_finish a = record { removes = true; raises = no_exception }
