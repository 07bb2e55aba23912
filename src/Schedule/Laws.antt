-- ===== src/Schedule/Laws.antt =====
-- What the tests on windows of src/resvManager/reservation.hh mean.
use mxtce_geni_scs.Base.{
  ℕ, ◌+◌, ◌^◌, ◌≤◌, ◌<◌, ◌≡◌, ◌↔◌, ◌⊎◌, true, some, leb, arith, Bool-cases, inl, inr,
}
use mxtce_geni_scs.Schedule.{
  Schedule, new_between, new_lasting, new_within, has_overlap_with, clone, same_schedule,
}

-- The window that a schedule covers, without its end.
abbrev pub Covers : Schedule → ℕ → Type 0
Covers s t = (s.start_time ≤ t) × (t < s.end_time)

-- A window that is not empty and holds its duration.
pub record IsValid (s : Schedule) : Type 0 where
  pub lasts : 0 < s.duration
  pub fits : s.start_time + s.duration ≤ s.end_time

-- Every constructor that does not fail gives a valid schedule (a span of 2^32 seconds or more loses
-- its high bits, so the first one is taken below that).
pub new-IsValid :
    (s e d : ℕ) (t : Schedule)
    → ((new_between s e ≡ some t) × (e < s + 2 ^ 32))
      ⊎ (new_lasting s d ≡ some t)
      ⊎ (new_within s e d ≡ some t)
    → IsValid t
unfolding new_between new_lasting new_within
new-IsValid s e d t h = ground arith

-- Two valid schedules overlap exactly when they share an instant.
pub has_overlap_with_iff :
    (s t : Schedule)
    → IsValid s
    → IsValid t
    → (has_overlap_with s t ≡ true) ↔ ((i : ℕ) × Covers s i × Covers t i)
unfolding has_overlap_with
has_overlap_with_iff s t v w = (
  λ h. elim (Bool-cases (leb t.start_time s.start_time)) [
    | inl later ↦ (s.start_time, (ground arith, ground arith), (ground arith, ground arith))
    | inr earlier ↦ (t.start_time, (ground arith, ground arith), (ground arith, ground arith))
  ],
  λ (i, p, q). ground arith,
)

-- `Clone` copies every valid schedule, and fails on the others.
pub clone_iff : (s : Schedule) → (clone s ≡ some s) ↔ IsValid s
unfolding clone
clone_iff s = ground arith

-- Equality of schedules.
pub same_schedule_iff : (s t : Schedule) → (same_schedule s t ≡ true) ↔ (s ≡ t)
unfolding same_schedule
same_schedule_iff s t = ground arith
