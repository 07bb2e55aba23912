-- ===== src/Action/States.antt =====
-- The states that `Action::Run` of src/compute/action.cc takes an action through.
use mathlib.Core.List.{append-nil}
use mathlib.Core.Path.{subst}
use mxtce_geni_scs.Base.{
  ◌≡◌, refl, ap, sym, ◌∙◌, Bool, true, false, Bool-cases, inl, inr, List, [], ◌∷◌, ◌++◌,
  if◌then◌else◌, arith,
}
use Prim.Native.String.{String}
use mxtce_geni_scs.Master.{times}
use mxtce_geni_scs.Action.{
  ActionState, idle, started, waiting_messages, waiting_children, cancelled, failed, finished,
  Action, action, no_actions, more, info, state, children, set_state, clean_as, any_failed,
  all_over, Call, schedule_this, remove_this, set_error, Thrown, no_exception,
  compute_thread_exception, Returns, gives, throws, escapes, Methods, wait, finish, fail, escape,
  after_process, on_topics, after_children, after_messages, run_in, run,
}
use mxtce_geni_scs.Action.CleanUp.{children-over}
use mxtce_geni_scs.Action.Steps.{
  Step, fails, ends, asks, goes_to_children, lacks_messages, has_messages, ends_with_messages,
  lacks_children, ends_with_children, stays_started, stops, stays_cancelled, stays_finished,
  is_waiting, asks_again, is_other, left_by, KeepsState, IsSound, IsSilent, children-IsSilent,
  none-IsSilent,
}

wait-IsSound :
    (s s' : ActionState)
    → Step s s'
    → is_waiting s' ≡ true
    → (calls : List Call) → IsSilent calls
    → (a : Action) → IsSound s (wait calls (set_state s' a))
unfolding wait asks_again is_waiting IsSilent is_other
wait-IsSound s s' step waiting calls silent (action j ds) = record {
  step = step;
  scheduled = silent (remove_this ∷ schedule_this ∷ []) ∙ ground (arith, waiting);
  passed_on = λ _ h. ground (arith, waiting, h);
  ended = λ h. ground (arith, waiting, h);
}

escape-IsSound :
    (s : ActionState)
    → (a : Action) → Step s (state a)
    → (state a ≡ finished → all_over (children a) ≡ true)
    → (calls : List Call) → IsSilent calls
    → IsSound s (escape calls a)
unfolding escape asks_again IsSilent is_other
escape-IsSound s a step ended calls silent = record {
  step = step;
  scheduled = ap asks_again (sym (append-nil calls)) ∙ silent [] ∙ ground arith;
  passed_on = λ _ _. refl;
  ended = ended;
}

Step-cleaned :
    {s : ActionState}
    → (b : Bool) → (s' : ActionState) → Step s s'
    → Step s (if b then failed else s')
Step-cleaned true s' step = fails
Step-cleaned false s' step = step

waits-cleaned :
    (b : Bool)
    → (s' : ActionState) → is_waiting s' ≡ false
    → is_waiting (if b then failed else s') ≡ false
unfolding is_waiting
waits-cleaned true s' h = refl
waits-cleaned false s' h = h

clean-Step :
    {s : ActionState}
    → (s' : ActionState) → (a : Action) → Step s s'
    → Step s (state (clean_as s' a))
unfolding clean_as
clean-Step s' (action i cs) step = Step-cleaned (any_failed cs) s' step

clean-waits :
    (s' : ActionState)
    → (a : Action) → is_waiting s' ≡ false
    → is_waiting (state (clean_as s' a)) ≡ false
unfolding clean_as
clean-waits s' (action i cs) h = waits-cleaned (any_failed cs) s' h

clean-all_over : (s' : ActionState) → (a : Action) → all_over (children (clean_as s' a)) ≡ true
unfolding clean_as
clean-all_over s' (action i cs) = children-over cs

clean-started :
    (s' : ActionState) → (a : Action) → ¬ (s' ≡ started) → ¬ (state (clean_as s' a) ≡ started)
unfolding clean_as
clean-started s' (action i cs) h same = elim (Bool-cases (any_failed cs)) [
  | inl e ↦ ground (arith, e, same)
  | inr e ↦ h (ground (arith, e, same))
]

-- `CleanUp` from a state that is not waiting, with calls that do not schedule the action.
clean-IsSound :
    (s s' : ActionState)
    → Step s s'
    → is_waiting s' ≡ false
    → (s ≡ idle → ¬ (s' ≡ started))
    → (calls : List Call) → asks_again calls ≡ false
    → (thrown : Thrown) → (a : Action)
    → IsSound s (record { after = clean_as s' a; calls = calls; thrown = thrown })
clean-IsSound s s' step waiting begun calls silent thrown a = record {
  step = clean-Step s' a step;
  scheduled = ground (arith, silent, clean-waits s' a waiting);
  passed_on = λ from h. absurd (clean-started s' a (begun from) h);
  ended = λ h. clean-all_over s' a;
}

fail-IsSound :
    (s : ActionState)
    → (calls : List Call) → IsSilent calls
    → (a : Action) → IsSound s (fail calls a)
unfolding fail IsSilent is_waiting asks_again clean_as
fail-IsSound s calls silent (action i cs) =
    clean-IsSound s failed fails refl (λ _ h. ground (arith, h)) (calls ++ set_error ∷ [])
      (silent (set_error ∷ [])) (if i.is_root then compute_thread_exception else no_exception)
      (action (record i { state = failed }) cs)

-- An action that is sound without calls, and does not wait, is sound after its `Finish`.
finish-IsSound :
    (methods : Methods)
    → (s : ActionState) → (calls : List Call) → IsSilent calls
    → (a : Action) → is_waiting (state a) ≡ false
    → (s ≡ idle → ¬ (state a ≡ started))
    → Step s (state a)
    → (state a ≡ finished → all_over (children a) ≡ true)
    → IsSound s (finish methods calls a)
unfolding finish IsSilent asks_again
finish-IsSound methods s calls silent (action i cs) waiting begun step ended =
    elim (Bool-cases (methods.finish (action i cs)).removes) [
      | inl e ↦ rw e (record {
        step = step;
        scheduled = silent (remove_this ∷ []) ∙ ground (arith, waiting);
        passed_on = λ from h. absurd (begun from h);
        ended = ended;
      })
      | inr e ↦ rw e (record {
        step = step;
        scheduled = ap asks_again (sym (append-nil calls)) ∙ silent [] ∙ ground (arith, waiting);
        passed_on = λ from h. absurd (begun from h);
        ended = ended;
      })
    ]

finish-clean :
    (methods : Methods)
    → (s : ActionState) → Step s finished
    → (calls : List Call) → IsSilent calls
    → (a : Action) → IsSound s (finish methods calls (clean_as finished a))
unfolding is_waiting
finish-clean methods s step calls silent a =
    finish-IsSound methods s calls silent (clean_as finished a) (clean-waits finished a refl)
      (λ _. clean-started finished a (λ h. ground (arith, h))) (clean-Step finished a step)
      (λ h. clean-all_over finished a)

process-IsSound :
    (methods : Methods)
    → (a : Action) → (topics : List String) → IsSound idle (on_topics methods topics a)
unfolding on_topics is_waiting all_over
process-IsSound methods (action i no_actions) [] =
    finish-IsSound methods idle [] none-IsSilent (action (record i { state = finished }) no_actions)
      refl (λ _ h. ground (arith, h)) ends (λ h. refl)
process-IsSound methods (action i (more a cs)) [] =
    wait-IsSound idle waiting_children goes_to_children refl _ (children-IsSilent 0 (more a cs))
      (action i (more a cs))
process-IsSound methods a (topic ∷ topics) =
    wait-IsSound idle waiting_messages asks refl [] none-IsSilent a

-- An action that stays in a state that it can stop in is not finished.
stopped-IsSound :
    (s s' : ActionState)
    → (a : Action) → state a ≡ s'
    → Step s s'
    → ¬ (s' ≡ finished)
    → (calls : List Call) → IsSilent calls
    → IsSound s (escape calls a)
stopped-IsSound s s' a same step going calls silent =
    escape-IsSound s a (subst (Step s) (sym same) step) (λ h. absurd (going (sym same ∙ h))) calls
      silent

after_process-IsSound :
    (methods : Methods)
    → (r : Returns Unit) → state (left_by r) ≡ started
    → IsSound idle (after_process methods r)
unfolding after_process left_by
after_process-IsSound methods (throws a) same = fail-IsSound idle [] none-IsSilent a
after_process-IsSound methods (escapes a) same =
    stopped-IsSound idle started a same stops (λ h. ground (arith, h)) [] none-IsSilent
after_process-IsSound methods (gives done a) same =
    process-IsSound methods a (info a).expect_message_topics

after_children-IsSound :
    (methods : Methods)
    → (s : ActionState) → Step s waiting_children
    → Step s finished
    → Step s s
    → ¬ (s ≡ finished)
    → (calls : List Call) → IsSilent calls
    → (r : Returns Bool) → state (left_by r) ≡ s
    → IsSound s (after_children methods calls r)
unfolding after_children is_waiting left_by
after_children-IsSound methods s going ending staying on calls silent (throws a) same =
    fail-IsSound s calls silent a
after_children-IsSound methods s going ending staying on calls silent (escapes a) same =
    stopped-IsSound s s a same staying on calls silent
after_children-IsSound methods s going ending staying on calls silent (gives false a) same =
    wait-IsSound s waiting_children going refl calls silent a
after_children-IsSound methods s going ending staying on calls silent (gives true (action i cs))
      same =
    finish-clean methods s ending calls silent (action (record i { state = finished }) cs)

after_messages-IsSound :
    (methods : Methods)
    → KeepsState methods
    → (r : Returns Bool) → state (left_by r) ≡ waiting_messages
    → IsSound waiting_messages (after_messages methods r)
unfolding after_messages is_waiting left_by
after_messages-IsSound methods keeps (throws a) same =
    fail-IsSound waiting_messages [] none-IsSilent a
after_messages-IsSound methods keeps (escapes a) same =
    stopped-IsSound waiting_messages waiting_messages a same lacks_messages (λ h. ground (arith, h))
      [] none-IsSilent
after_messages-IsSound methods keeps (gives false a) same =
    wait-IsSound waiting_messages waiting_messages lacks_messages refl [] none-IsSilent a
after_messages-IsSound methods keeps (gives true a) same =
    after_children-IsSound methods waiting_messages has_messages ends_with_messages lacks_messages
      (λ h. ground (arith, h)) _ (children-IsSilent 0 (children a)) (methods.process_children a)
      (keeps.process_children a ∙ same)

run_in-IsSound :
    (s : ActionState)
    → (methods : Methods) → KeepsState methods
    → (a : Action) → state a ≡ s
    → IsSound s (run_in s methods a)
unfolding run_in is_waiting asks_again
run_in-IsSound idle methods keeps (action i cs) same =
    let begun = action (record i { state = started }) cs in
    after_process-IsSound methods (methods.process begun) (keeps.process begun)
run_in-IsSound started methods keeps a same =
    clean-IsSound started started stays_started refl (λ h. ground (arith, h)) (set_error ∷ []) refl
      compute_thread_exception a
run_in-IsSound waiting_messages methods keeps a same =
    after_messages-IsSound methods keeps (methods.process_messages a)
      (keeps.process_messages a ∙ same)
run_in-IsSound waiting_children methods keeps a same =
    after_children-IsSound methods waiting_children lacks_children ends_with_children lacks_children
      (λ h. ground (arith, h)) [] none-IsSilent (methods.process_children a)
      (keeps.process_children a ∙ same)
run_in-IsSound cancelled methods keeps a same =
    clean-IsSound cancelled cancelled stays_cancelled refl (λ h. ground (arith, h)) [] refl
      no_exception a
run_in-IsSound failed methods keeps a same =
    clean-IsSound failed failed fails refl (λ h. ground (arith, h)) [] refl no_exception a
run_in-IsSound finished methods keeps a same =
    finish-clean methods finished stays_finished [] none-IsSilent a

-- When `Process`, `ProcessMessages` and `ProcessChildren` do not set the state of their own action, whatever they return or
-- throw, whatever a `Finish` that leaves the state and the children throws, and whether or not the message port is up: a
-- call of `Run` takes the state of the action along one of the constructors of `Step`. The action is scheduled again just when it is left waiting and no exception but a
-- `ComputeThreadException` escapes; an idle action is left started only when such another exception escapes; and when the
-- action has finished, every child of it is over.
pub run-IsSound :
    (methods : Methods)
    → KeepsState methods
    → (up : Bool) → (a : Action) → IsSound (state a) (run methods up a)
unfolding run is_waiting asks_again clean_as
run-IsSound methods keeps true a = run_in-IsSound (state a) methods keeps a refl
run-IsSound methods keeps false (action i cs) =
    clean-IsSound i.state failed fails refl (λ _ h. ground (arith, h)) (remove_this ∷ []) refl
      compute_thread_exception
      (action (record i { state = failed; repeats = times 0; is_obsolete = true }) cs)
