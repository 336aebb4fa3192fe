-- ===== src/Inference/Nights.antt =====
-- When training runs, by backend/app/inference/scheduler.py.
use campo_sig.Common.{◌≡◌, refl, sym, arith, inl, inr, true, false, none, some, Bool-cases}
use campo_sig.Inference.Registry.{training, Windows}
use campo_sig.Inference.Scheduler.{Moment, is_later, is_night, next_night_start, Slot, slot_for}

-- Between two moments, the second one excluded.
abbrev pub IsWithin : Moment → Moment → Moment → Type 0
IsWithin from to at = (is_later from at ≡ false) × (is_later to at ≡ true)

-- The opening of the night behind a moment.
pub record Opening (moment : Moment) (windows : Windows) (opens : Moment) : Type 0 where
  pub found : next_night_start moment windows ≡ some opens
  pub not_before : is_later moment opens ≡ false
  pub night : is_night opens windows ≡ true
  pub until : (at : Moment) → IsWithin moment opens at → is_night at windows ≡ false

opened :
    (moment : Moment) (windows : Windows)
    → is_night moment windows ≡ true
    → Opening moment windows moment
unfolding next_night_start
opened moment windows t = record {
  found = rw t refl;
  not_before = ground arith;
  night = t;
  until = λ at h. ground arith;
}

-- By day the night opens on the same day, at the end of the day window.
opens_today :
    (moment : Moment) (windows : Windows)
    → is_night moment windows ≡ false
    → Opening moment windows record { day = moment.day; time = windows.day_ends_at }
unfolding next_night_start is_night
opens_today moment windows f = record {
  found = ground arith;
  not_before = ground arith;
  night = ground arith;
  until = λ at h. let same : at.day ≡ moment.day = ground arith in rw same (ground arith);
}

abbrev by_day : Moment → Windows → Moment
by_day moment windows = record { day = moment.day; time = windows.day_ends_at }

abbrev waiting : Moment → Windows → Slot
waiting moment windows = record {
  priority = training;
  may_run = false;
  waits_until = some (by_day moment windows);
}

asked_by_day :
    (moment : Moment) (windows : Windows)
    → is_night moment windows ≡ false
    → slot_for training moment windows ≡ some (waiting moment windows)
unfolding slot_for
asked_by_day moment windows f = ground arith

later_today :
    (moment : Moment) (windows : Windows)
    → is_night moment windows ≡ false
    → is_later (by_day moment windows) moment ≡ true
unfolding is_night
later_today moment windows f = ground arith

-- The night window that a task waits for: the first moment of it, from now on. No case is left for
-- the search over the next days.
pub next_night_start_lem :
    (moment : Moment) (windows : Windows) → (opens : Moment) × Opening moment windows opens
next_night_start_lem moment windows = elim (Bool-cases (is_night moment windows)) [
  | inl t ↦ (moment, opened moment windows t)
  | inr f ↦ (record { day = moment.day; time = windows.day_ends_at }, opens_today moment windows f)
]

-- A training task starts by night only, and is never left without an answer: when it may not run, it
-- is told the first moment from which it may.
pub record Trains (moment : Moment) (windows : Windows) : Type 0 where
  pub slot : Slot
  pub asked : slot_for training moment windows ≡ some slot
  pub runs : slot.may_run ≡ is_night moment windows
  pub told :
      slot.may_run ≡ false
      → (opens : Moment) × (slot.waits_until ≡ some opens)
        × (is_later opens moment ≡ true)
        × (is_night opens windows ≡ true)
        × ((at : Moment) → IsWithin moment opens at → is_night at windows ≡ false)

-- Whatever the moment and the windows: asked for training, the scheduler answers, lets it run exactly
-- by night, and otherwise names a later moment of a night with no night in between.
pub slot_for-Trains : (moment : Moment) (windows : Windows) → Trains moment windows
unfolding slot_for
slot_for-Trains moment windows = elim (Bool-cases (is_night moment windows)) [
  | inl t ↦ record {
    slot = record { priority = training; may_run = true; waits_until = none };
    asked = rw t refl;
    runs = sym t;
    told = λ h. cc;
  }
  | inr f ↦
      let opening = opens_today moment windows f in
      record {
        slot = waiting moment windows;
        asked = asked_by_day moment windows f;
        runs = sym f;
        told = λ h. (
          by_day moment windows,
          refl,
          later_today moment windows f,
          opening.night,
          opening.until,
        );
      }
]
