-- ===== src/Master/Erasing.antt =====
-- The loop of `EventMaster::Remove` (src/common/event.cc) over one list.
use mxtce_geni_scs.Base.{ℕ, ◌≡◌, refl, some, List, [], ◌∷◌, ◌++◌, arith, All}
use mxtce_geni_scs.Master.{erase_event}

-- The event is in no place of a list.
unfoldable pub IsAbsent : ℕ → List ℕ → Type 0
IsAbsent e list = All (λ k. ¬ (k ≡ e)) list

erase_event-absent : (e : ℕ) → (list : List ℕ) → IsAbsent e list → erase_event e list ≡ some list
unfolding erase_event IsAbsent
erase_event-absent e [] absent = refl
erase_event-absent e (x ∷ []) absent = ground (arith, absent.0)
erase_event-absent e (x ∷ y ∷ list) absent =
    ground (arith, absent.0, erase_event-absent e (y ∷ list) absent.1)

-- An event that is in the list once, and not at its end, is taken out, and the others keep their order.
pub erase_event-once :
    (e y : ℕ)
    → (before after : List ℕ) → IsAbsent e before
    → IsAbsent e (y ∷ after)
    → erase_event e (before ++ e ∷ y ∷ after) ≡ some (before ++ y ∷ after)
unfolding erase_event IsAbsent
erase_event-once e y [] after no_before no_after =
    ground (arith, erase_event-absent e after no_after.1)
erase_event-once e y (x ∷ []) after no_before no_after =
    ground (arith, no_before.0, erase_event-once e y [] after tt no_after)
erase_event-once e y (x ∷ z ∷ before) after no_before no_after =
    ground (arith, no_before.0, erase_event-once e y (z ∷ before) after no_before.1 no_after)
