-- ===== src/Inference/Scheduler.antt =====
-- backend/app/inference/scheduler.py. A moment is the ordinal of its day, as `date.toordinal` has it,
-- and the microseconds of its time, in one zone.
use campo_sig.Common.{
  ℕ, suc, ◌+◌, ◌%◌, String, Bool, true, false, not, ◌&&◌, ◌||◌, Option, none, some, List, [], ◌∷◌,
  map, ◌==◌, ltb, leb, if◌then◌else◌, order_by,
}
use campo_sig.Common.Sorted.{le}
use campo_sig.Inference.Registry.{Priority, training, Windows, InferenceRegistry, rank}

pub record Moment : Type 0 where
  pub day : ℕ
  pub time : ℕ

-- `date.weekday`: the first day of the calendar is a Monday.
abbrev pub weekday : ℕ → ℕ
weekday day = (day + 6) % 7

abbrev pub is_weekend : ℕ → Bool
is_weekend day = leb 5 (weekday day)

abbrev pub is_later : Moment → Moment → Bool
is_later a b = ltb b.day a.day || (a.day == b.day && ltb b.time a.time)

unfoldable pub is_night : Moment → Windows → Bool
is_night moment windows =
    if windows.weekend_is_night && is_weekend moment.day
    then true
    else not (leb windows.day_starts_at moment.time && ltb moment.time windows.day_ends_at)

unfoldable pub night_start_on : ℕ → Windows → Moment
night_start_on day windows =
    if windows.weekend_is_night && is_weekend day
    then record { day = day; time = 0 }
    else record { day = day; time = windows.day_ends_at }

-- The days from `day` on; `none` is the `RuntimeError`.
unfoldable pub search_night : ℕ → ℕ → Moment → Windows → Option Moment
unfolding night_start_on
search_night ℕ.zero day moment windows = none
search_night (suc n) day moment windows =
    let rest = search_night n (suc day) moment windows in
    if is_later (night_start_on day windows) moment then some (night_start_on day windows) else rest

unfoldable pub next_night_start : Moment → Windows → Option Moment
unfolding is_night search_night
next_night_start moment windows =
    let candidate : Moment = record { day = moment.day; time = windows.day_ends_at } in
    if is_night moment windows
    then some moment
    else if is_later candidate moment
    then some candidate
    else search_night 8 (suc moment.day) moment windows

abbrev pub is_night_only : Priority → Bool
is_night_only p = elim p [ training ↦ true | _ ↦ false ]

pub record Slot : Type 0 where
  pub priority : Priority
  pub may_run : Bool
  pub waits_until : Option Moment

abbrev wait_for : Priority → Option Moment → Option Slot
wait_for p none = none
wait_for p (some at) = some record { priority = p; may_run = false; waits_until = some at }

unfoldable pub slot_for : Priority → Moment → Windows → Option Slot
unfolding is_night next_night_start
slot_for p moment windows =
    if is_night_only p && not (is_night moment windows)
    then wait_for p (next_night_start moment windows)
    else some record { priority = p; may_run = true; waits_until = none }

-- A task of the queue with its place.
pub record Ranked : Type 0 where
  pub rank : ℕ
  pub position : ℕ
  pub task_id : String

abbrev pub ranked_from : ℕ → String → Option ℕ → Option (List Ranked) → Option (List Ranked)
ranked_from position id (some r) (some rest) =
    some (record { rank = r; position = position; task_id = id } ∷ rest)
ranked_from position id _ _ = none

-- The tuples of `enumerate(tasks)`; `none` where a priority has no rank.
unfoldable pub ranked : InferenceRegistry → ℕ → List (String × Priority) → Option (List Ranked)
unfolding rank
ranked registry position [] = some []
ranked registry position ((id, p) ∷ tasks) =
    ranked_from position id (rank registry p) (ranked registry (suc position) tasks)

-- The order of the tuples. Positions differ, so that the identifiers are never compared.
abbrev pub goes_before : Ranked → Ranked → Bool
goes_before a b = ltb a.rank b.rank || (a.rank == b.rank && ltb a.position b.position)

abbrev pub served : Option (List Ranked) → Option (List String)
served none = none
served (some tasks) = some (map (λ (t : Ranked). t.task_id) (order_by (le goes_before) tasks))

unfoldable pub order_queue : InferenceRegistry → List (String × Priority) → Option (List String)
unfolding ranked order_by
order_queue registry tasks = served (ranked registry 0 tasks)
