-- ===== src/Action/CleanUp.antt =====
-- `Action::CleanUp` of src/compute/action.cc over a tree of actions.
use mxtce_geni_scs.Base.{
  ◌≡◌, refl, ap, sym, ◌∙◌, Bool, true, false, ◌||◌, if◌then◌else◌, arith, Bool-cases, inl, inr,
}
use mxtce_geni_scs.Action.{
  ActionState, cancelled, failed, Action, Actions, action, no_actions, more, state, children,
  is_settled, is_failed, is_over, unless_settled, clean_as, clean_children, any_failed, clean_up,
  all_over,
}

-- A child that has failed, as the tree stands.
unfoldable pub has_failed : Actions → Bool
has_failed no_actions = false
has_failed (more a actions) = is_failed (state a) || has_failed actions

any_failed-has_failed : (cs : Actions) → has_failed (clean_children cs) ≡ any_failed cs
unfolding has_failed clean_as
any_failed-has_failed no_actions = refl
any_failed-has_failed (more a cs) = rw (any_failed-has_failed cs)

failed_or : (b : Bool) → (s : ActionState) → is_failed (if b then failed else s) ≡ is_failed s || b
unfolding is_failed
failed_or true s = ground arith
failed_or false s = ground arith

-- After `CleanUp` an action has failed just when it had failed before or one of its children has failed.
pub clean_up-failed :
    (a : Action)
    → is_failed (state (clean_up a)) ≡ is_failed (state a) || has_failed (children (clean_up a))
unfolding clean_as
clean_up-failed (action i cs) =
    failed_or (any_failed cs) i.state
    ∙ ap (λ b. is_failed i.state || b) (sym (any_failed-has_failed cs))

over-settled : (s : ActionState) → is_settled s ≡ true → is_over s ≡ true
unfolding is_settled is_over
over-settled s h = ground arith

over-cleaned : (b : Bool) → is_over (if b then failed else cancelled) ≡ true
unfolding is_over
over-cleaned true = refl
over-cleaned false = refl

child-over : (a : Action) → is_over (state (unless_settled a (clean_as cancelled a))) ≡ true
unfolding clean_as
child-over (action i cs) = elim (Bool-cases (is_settled i.state)) [
  | inl h ↦ rw h (over-settled i.state h)
  | inr h ↦ rw h (over-cleaned (any_failed cs))
]

pub children-over : (cs : Actions) → all_over (clean_children cs) ≡ true
unfolding clean_as all_over
children-over no_actions = refl
children-over (more a cs) = rw (child-over a, children-over cs)

-- After `CleanUp` every child is over: it has finished, failed or been cancelled.
pub clean_up-all_over : (a : Action) → all_over (children (clean_up a)) ≡ true
unfolding clean_as
clean_up-all_over (action i cs) = children-over cs

unless_settled-same : (a : Action) → unless_settled a a ≡ a
unless_settled-same a = elim (Bool-cases (is_settled (state a))) [ inl h ↦ rw h | inr h ↦ rw h ]

-- A child that was cleaned up once is left as it is.
child-twice :
    (a cleaned : Action)
    → clean_as cancelled a ≡ cleaned
    → clean_as cancelled cleaned ≡ cleaned
    → unless_settled (unless_settled a cleaned) (clean_as cancelled (unless_settled a cleaned))
      ≡ unless_settled a cleaned
child-twice a cleaned once twice = elim (Bool-cases (is_settled (state a))) [
  | inl h ↦ rw h (rw h)
  | inr h ↦ rw (h, twice) (unless_settled-same cleaned)
]

mutual
  unfolding clean_as

  clean_as-twice : (s : ActionState) → (a : Action) → clean_as s (clean_as s a) ≡ clean_as s a
  clean_as-twice s (action i cs) = rw (any_failed-twice cs, clean_children-twice cs)

  clean_children-twice : (cs : Actions) → clean_children (clean_children cs) ≡ clean_children cs
  clean_children-twice no_actions = refl
  clean_children-twice (more a cs) = rw (
    child-twice a (clean_as cancelled a) refl (clean_as-twice cancelled a),
    clean_children-twice cs,
  )

  any_failed-twice : (cs : Actions) → any_failed (clean_children cs) ≡ any_failed cs
  any_failed-twice no_actions = refl
  any_failed-twice (more a cs) =
      rw (
        child-twice a (clean_as cancelled a) refl (clean_as-twice cancelled a),
        any_failed-twice cs,
      )

set-state-again :
    (b : Bool)
    → (s : ActionState)
    → (if b then failed else (if b then failed else s)) ≡ (if b then failed else s)
set-state-again true s = refl
set-state-again false s = refl

-- `CleanUp` done twice, as an action that has failed gets it from `Run` again, is `CleanUp` done once.
pub clean_up-twice : (a : Action) → clean_up (clean_up a) ≡ clean_up a
unfolding clean_as
clean_up-twice (action i cs) =
    rw (any_failed-twice cs, clean_children-twice cs, set-state-again (any_failed cs) i.state)
