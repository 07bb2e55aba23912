-- ===== src/Action/Steps.antt =====
-- The steps of the states of an `Action`, and what a call of `Action::Run` of src/compute/action.cc has to leave.
use mxtce_geni_scs.Base.{
  ℕ, ◌+◌, ◌≡◌, refl, Bool, true, false, not, ◌&&◌, List, [], ◌∷◌, ◌++◌, arith,
}
use mxtce_geni_scs.Action.{
  ActionState, idle, started, waiting_messages, waiting_children, cancelled, failed, finished,
  Action, Actions, no_actions, more, state, children, is_over, all_over, Call, schedule_this,
  Thrown, other_exception, Returns, gives, throws, escapes, Methods, Ran, schedule_children,
}

-- Where one call of `Run` can take an action from each state.
pub data Step : ActionState → ActionState → Type 0 where
  fails : {s : ActionState} → Step s failed
  ends : Step idle finished
  asks : Step idle waiting_messages
  goes_to_children : Step idle waiting_children
  lacks_messages : Step waiting_messages waiting_messages
  has_messages : Step waiting_messages waiting_children
  ends_with_messages : Step waiting_messages finished
  lacks_children : Step waiting_children waiting_children
  ends_with_children : Step waiting_children finished
  stays_started : Step started started
  stops : Step idle started
  stays_cancelled : Step cancelled cancelled
  stays_finished : Step finished finished

unfoldable pub is_waiting : ActionState → Bool
is_waiting waiting_messages = true
is_waiting waiting_children = true
is_waiting s = false

-- Whether the action is among the calls that schedule.
unfoldable pub asks_again : List Call → Bool
asks_again [] = false
asks_again (schedule_this ∷ calls) = true
asks_again (call ∷ calls) = asks_again calls

unfoldable pub is_other : Thrown → Bool
is_other other_exception = true
is_other thrown = false

-- The action as a virtual method leaves it.
unfoldable pub left_by : {R : Type 0} → Returns R → Action
left_by (gives result a) = a
left_by (throws a) = a
left_by (escapes a) = a

-- The virtual methods do not set the state of their own action.
pub record KeepsState (methods : Methods) : Type 0 where
  pub process : (a : Action) → state (left_by (methods.process a)) ≡ state a
  pub process_messages : (a : Action) → state (left_by (methods.process_messages a)) ≡ state a
  pub process_children : (a : Action) → state (left_by (methods.process_children a)) ≡ state a

-- What a call of `Run` from the state `s` leaves. An action that is left waiting is scheduled again, but not past another
-- exception than a `ComputeThreadException`; only past such a one is an idle action left started.
pub record IsSound (s : ActionState) (r : Ran) : Type 0 where
  pub step : Step s (state r.after)
  pub scheduled : asks_again r.calls ≡ is_waiting (state r.after) && not (is_other r.thrown)
  pub passed_on : s ≡ idle → state r.after ≡ started → r.thrown ≡ other_exception
  pub ended : state r.after ≡ finished → all_over (children r.after) ≡ true

-- Calls that schedule children at most.
unfoldable pub IsSilent : List Call → Type 0
IsSilent calls = (rest : List Call) → asks_again (calls ++ rest) ≡ asks_again rest

pub children-IsSilent : (i : ℕ) → (cs : Actions) → IsSilent (schedule_children i cs)
unfolding IsSilent asks_again schedule_children
children-IsSilent i no_actions rest = refl
children-IsSilent i (more a cs) rest = children-IsSilent (i + 1) cs rest

pub none-IsSilent : IsSilent []
unfolding IsSilent
none-IsSilent rest = refl

-- The states between which any number of calls of `Run` can go.
pub data Steps : ActionState → ActionState → Type 0 where
  stays : {s : ActionState} → Steps s s
  goes : {r s t : ActionState} → Step r s → Steps s t → Steps r t

Step-over : {s t : ActionState} → Step s t → is_over s ≡ true → is_over t ≡ true
unfolding is_over
Step-over fails over = refl
Step-over ends over = refl
Step-over asks over = ground arith
Step-over goes_to_children over = ground arith
Step-over lacks_messages over = over
Step-over has_messages over = ground arith
Step-over ends_with_messages over = refl
Step-over lacks_children over = over
Step-over ends_with_children over = refl
Step-over stays_started over = over
Step-over stops over = ground arith
Step-over stays_cancelled over = over
Step-over stays_finished over = over

-- An action that is over stays over, however often it is run.
pub Steps-over : {s t : ActionState} → Steps s t → is_over s ≡ true → is_over t ≡ true
Steps-over stays over = over
Steps-over (goes step steps) over = Steps-over steps (Step-over step over)
