-- ===== src/Schedule.antt =====
-- `TSchedule` of src/resvManager/reservation.hh: a window of time. Times are not negative, and
-- `none` is a constructor whose assertion fails.
pub mod Laws
use mxtce_geni_scs.Base.{
  ℕ, ◌+◌, ◌-◌, ◌%◌, ◌^◌, Bool, ◌&&◌, ◌||◌, Option, none, some, ltb, leb, ◌==◌, if◌then◌else◌,
}

pub record Schedule : Type 0 where
  pub start_time : ℕ
  pub end_time : ℕ
  pub duration : ℕ

-- The three constructors: from both ends, from a start and a duration, and from all three.
unfoldable pub new_between : ℕ → ℕ → Option Schedule
new_between s e =
    if ltb s e
    then some (record { start_time = s; end_time = e; duration = (e - s) % 2 ^ 32 })
    else none

unfoldable pub new_lasting : ℕ → ℕ → Option Schedule
new_lasting s d =
    if ltb 0 d then some (record { start_time = s; end_time = s + d; duration = d }) else none

unfoldable pub new_within : ℕ → ℕ → ℕ → Option Schedule
new_within s e d =
    if ltb 0 d && leb (s + d) e
    then some (record { start_time = s; end_time = e; duration = d })
    else none

unfoldable pub within_schedule : Schedule → ℕ → Bool
within_schedule s t = leb t s.end_time && leb s.start_time t

unfoldable pub has_schedule_in : Schedule → ℕ → ℕ → Bool
has_schedule_in s start end = leb start s.start_time && leb s.end_time end

unfoldable pub has_overlap_with : Schedule → Schedule → Bool
has_overlap_with s t =
    leb t.start_time s.start_time && ltb s.start_time t.end_time
    || leb s.start_time t.start_time && ltb t.start_time s.end_time

unfoldable pub clone : Schedule → Option Schedule
unfolding new_within
clone s = new_within s.start_time s.end_time s.duration

unfoldable pub same_schedule : Schedule → Schedule → Bool
same_schedule s t =
    s.start_time == t.start_time && s.end_time == t.end_time && s.duration == t.duration
