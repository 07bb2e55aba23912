-- ===== src/Series/Pieces.antt =====
-- Cutting, cloning and merging one delta of src/resvManager/reservation.cc, and what it adds to the load.
use mxtce_geni_scs.Base.{
  ℕ, ◌+◌, ◌-◌, ◌%◌, ◌^◌, ◌≤◌, ◌<◌, ◌≡◌, refl, sym, ◌∙◌, Bool, true, false, ◌&&◌, some, ltb, leb,
  if◌then◌else◌, arith,
}
use mxtce_geni_scs.Schedule.{Schedule}
use mxtce_geni_scs.Schedule
use mxtce_geni_scs.Delta.{
  Delta, Kind, plain_link, psc_link, l2sc_link, tdm_link, lsc_link, get_start_time, get_end_time,
  set_start_time, set_end_time, combine,
}
use mxtce_geni_scs.Delta

-- A delta with a schedule that holds the length of its window, below 2^32 seconds.
pub record IsWindow (d : Delta) : Type 0 where
  pub window : Schedule
  pub at : d.schedule ≡ some window
  pub ordered : window.start_time ≤ window.end_time
  pub exact : window.duration ≡ window.end_time - window.start_time
  pub small : window.end_time < window.start_time + 2 ^ 32

-- The bandwidth that a delta takes at an instant.
abbrev pub load : Delta → ℕ → ℕ
load d t = if leb (get_start_time d) t && ltb t (get_end_time d) then d.bandwidth else 0

-- A change of times alone.
pub record Moved (d d' : Delta) (start end : ℕ) : Type 0 where
  pub IsWindow_moved : IsWindow d'
  pub starts : get_start_time d' ≡ start
  pub ends : get_end_time d' ≡ end
  pub same_bandwidth : d'.bandwidth ≡ d.bandwidth
  pub same_kind : d'.kind ≡ d.kind

module _ (d : Delta) (w : IsWindow d) where
  start_window : get_start_time d ≡ w.window.start_time
  unfolding get_start_time
  start_window = rw w.at

  end_window : get_end_time d ≡ w.window.end_time
  unfolding get_end_time
  end_window = rw w.at

  pub start-le-end : get_start_time d ≤ get_end_time d
  start-le-end = omega (arith, start_window, end_window, w.ordered)

  pub end-lt : get_end_time d < get_start_time d + 2 ^ 32
  end-lt = omega (arith, start_window, end_window, w.small)

  pub clone-Moved :
      (now : ℕ)
      → get_start_time d < get_end_time d
      → (d' : Delta) × (Delta.clone now d ≡ some d')
        × Moved d d' (get_start_time d) (get_end_time d)
  unfolding Delta.clone Schedule.clone
  clone-Moved now nonempty = (
    record d { generated_time = now; applied_time = 0; applied = false },
    ground (arith, w.at, w.exact, w.ordered, start_window, end_window),
    record {
      IsWindow_moved = record {
        window = w.window;
        at = w.at;
        ordered = w.ordered;
        exact = w.exact;
        small = w.small;
      };
      starts = unfold get_start_time in refl;
      ends = unfold get_end_time in refl;
      same_bandwidth = refl;
      same_kind = refl;
    },
  )

  pub set_end_time-Moved :
      (t : ℕ)
      → get_start_time d ≤ t
      → t ≤ get_end_time d
      → (d' : Delta) × (set_end_time t d ≡ some d') × Moved d d' (get_start_time d) t
  unfolding set_end_time get_start_time get_end_time
  set_end_time-Moved t lo hi =
      let s = w.window in
      (
        record d {
          schedule = some (record s { end_time = t; duration = (t - s.start_time) % 2 ^ 32 });
        },
        ground (arith, w.at, start_window),
        record {
          IsWindow_moved = record {
            window = record s { end_time = t; duration = (t - s.start_time) % 2 ^ 32 };
            at = refl;
            ordered = omega (arith, start_window);
            exact = omega (arith, start_window, end_window, w.small);
            small = omega (arith, start_window, end_window, w.small);
          };
          starts = sym start_window;
          ends = refl;
          same_bandwidth = refl;
          same_kind = refl;
        },
      )

  pub set_start_time-Moved :
      (t : ℕ)
      → get_start_time d ≤ t
      → t ≤ get_end_time d
      → (d' : Delta) × (set_start_time t d ≡ some d') × Moved d d' t (get_end_time d)
  unfolding set_start_time get_start_time get_end_time
  set_start_time-Moved t lo hi =
      let s = w.window in
      (
        record d {
          schedule = some (record s { start_time = t; duration = (s.end_time - t) % 2 ^ 32 });
        },
        ground (arith, w.at, end_window),
        record {
          IsWindow_moved = record {
            window = record s { start_time = t; duration = (s.end_time - t) % 2 ^ 32 };
            at = refl;
            ordered = omega (arith, end_window);
            exact = omega (arith, start_window, end_window, w.small);
            small = omega (arith, start_window, end_window, w.small);
          };
          starts = refl;
          ends = sym end_window;
          same_bandwidth = refl;
          same_kind = refl;
        },
      )

-- The classes whose deltas carry no VLAN tags.
abbrev pub has_no_vlans : Kind → Bool
has_no_vlans (l2sc_link taken) = false
has_no_vlans kind = true

-- A delta cut in two at `t`, where `first` and `second` are what the two calls change.
pub record Cut (d : Delta) (now t : ℕ) (tail_is_new : Bool) : Type 0 where
  pub copy : Delta
  pub left : Delta
  pub right : Delta
  pub cloned : Delta.clone now d ≡ some copy
  pub cut_left : set_end_time t (if tail_is_new then d else copy) ≡ some left
  pub cut_right : set_start_time t (if tail_is_new then copy else d) ≡ some right
  pub head : Moved d left (get_start_time d) t
  pub tail : Moved d right t (get_end_time d)
  pub split : (u : ℕ) → load left u + load right u ≡ load d u

load-split :
    {d left right : Delta}
    → (start middle end : ℕ) → Moved d left start middle
    → Moved d right middle end
    → start ≡ get_start_time d
    → end ≡ get_end_time d
    → start ≤ middle
    → middle ≤ end
    → (t : ℕ) → load left t + load right t ≡ load d t
load-split start middle end l r e₁ e₂ o₁ o₂ t =
    ground (arith, l.starts, l.ends, l.same_bandwidth, r.starts, r.ends, r.same_bandwidth)

Moved-then :
    {d e f : Delta}
    → {a b x y x' y' : ℕ} → Moved d e a b
    → Moved e f x y
    → x ≡ x'
    → y ≡ y'
    → Moved d f x' y'
Moved-then m n e₁ e₂ = record {
  IsWindow_moved = n.IsWindow_moved;
  starts = n.starts ∙ e₁;
  ends = n.ends ∙ e₂;
  same_bandwidth = n.same_bandwidth ∙ m.same_bandwidth;
  same_kind = n.same_kind ∙ m.same_kind;
}

module _ (d : Delta) (w : IsWindow d) (now t : ℕ) (nonempty : get_start_time d < get_end_time d)
    (lo : get_start_time d ≤ t) (hi : t ≤ get_end_time d) where
  pub Cut-tail : Cut d now t true
  Cut-tail =
      let (copy, cloned, c) = clone-Moved d w now nonempty in
      let (left, cut_left, l) = set_end_time-Moved d w t lo hi in
      let (right, cut_right, r) =
        set_start_time-Moved copy c.IsWindow_moved t (omega (arith, c.starts))
          (omega (arith, c.ends)) in
      let tail = Moved-then c r refl c.ends in
      record {
        copy = copy;
        left = left;
        right = right;
        cloned = cloned;
        cut_left = cut_left;
        cut_right = cut_right;
        head = l;
        tail = tail;
        split = load-split (get_start_time d) t (get_end_time d) l tail refl refl lo hi;
      }

  pub Cut-head : Cut d now t false
  Cut-head =
      let (copy, cloned, c) = clone-Moved d w now nonempty in
      let (left, cut_left, l) =
        set_end_time-Moved copy c.IsWindow_moved t (omega (arith, c.starts))
          (omega (arith, c.ends)) in
      let (right, cut_right, r) = set_start_time-Moved d w t lo hi in
      let head = Moved-then c l c.starts refl in
      record {
        copy = copy;
        left = left;
        right = right;
        cloned = cloned;
        cut_left = cut_left;
        cut_right = cut_right;
        head = head;
        tail = r;
        split = load-split (get_start_time d) t (get_end_time d) head r refl refl lo hi;
      }
