-- ===== src/WorkOrders/Times.antt =====
-- Milestone corrections and transfers of ownership of backend/app/workorders/service.py.
pub mod Corrected
pub mod Marked
use Prim.Native.String.{◌++◌ as text_append}
use campo_sig.Common.{
  ℕ, ◌+◌, String, Bool, true, false, not, Option, none, some, List, map, ◌==◌, ltb, leb,
  if◌then◌else◌, str_eq, is_text, first, select, order_by,
}
use campo_sig.Common.Strip.{strip, strip_of, prefix, is_blank}
use campo_sig.Common.Json.{Fields, str, time, opt_text, opt_time, field, end}
use campo_sig.Audit.{Entry, row_id, field_changed, person}
use campo_sig.WorkOrders.State.{Milestone, started, finished, milestone_value, milestone_rank}
use campo_sig.WorkOrders.Store.{
  WorkOrder, WorkOrderMilestone, Db, Platform, Failure, correction_without_reason,
  correction_without_zone, correction_in_future, unknown_milestone, milestone_not_reached,
  transfer_without_target, transfer_without_reason, transfer_to_owner, ok, err, Exec,
  effective_time, put_order, write_event,
}
use campo_sig.WorkOrders.Transition.{of_milestone}

-- The member of the enumeration with a value.
unfoldable pub parse_milestone : String → Option Milestone
unfolding milestone_value
parse_milestone s =
    if str_eq s (milestone_value Milestone.en_route)
    then some Milestone.en_route
    else if str_eq s (milestone_value Milestone.on_site)
    then some Milestone.on_site
    else if str_eq s (milestone_value started)
    then some started
    else if str_eq s (milestone_value finished)
    then some finished
    else none

-- `milestones_of`: the rows of one order, sorted by the place of their milestone.
unfoldable pub milestones_of : Db → ℕ → List WorkOrderMilestone
unfolding milestone_rank
milestones_of db order_id =
    order_by (λ a b. leb (milestone_rank a.milestone) (milestone_rank b.milestone))
      (select (λ row. row.work_order_id == order_id) db.milestones)

-- Five minutes, in microseconds.
abbrev pub future_slack : ℕ
future_slack = 300000000

-- The exceptions that are `MilestoneError`.
unfoldable pub is_milestone_error : Failure → Bool
is_milestone_error correction_without_reason = true
is_milestone_error correction_without_zone = true
is_milestone_error correction_in_future = true
is_milestone_error (unknown_milestone name) = true
is_milestone_error (milestone_not_reached m) = true
is_milestone_error _ = false

abbrev pub replace_milestone : WorkOrderMilestone → WorkOrderMilestone → WorkOrderMilestone
replace_milestone new old = if old.id == new.id then new else old

unfoldable pub put_milestone : WorkOrderMilestone → Db → Db
put_milestone row db = record db { milestones = map (replace_milestone row) db.milestones }

abbrev pub corrected : WorkOrderMilestone → ℕ → Option String → String → ℕ → WorkOrderMilestone
corrected row at reason actor now = record row {
  corrected_time = some at;
  correction_reason = some (prefix 500 (strip_of reason));
  corrected_by = some actor;
  corrected_at = some now;
}

module _ (platform : Platform) where
  abbrev order_event : WorkOrder → String → Fields → Option String → Entry
  order_event order actor payload reason = record {
    kind = field_changed;
    subject_type = "orden_trabajo";
    subject_id = row_id order.id;
    actor = actor;
    actor_kind = person;
    work_order_id = some order.id;
    asset_code = order.asset_code;
    device_key = none;
    payload = payload;
    reason = reason;
  }

  abbrev correct_row :
      WorkOrder
      → Milestone
      → ℕ
      → Option String
      → String
      → Option WorkOrderMilestone
      → Exec WorkOrderMilestone
  correct_row order m at reason actor none db = (err (milestone_not_reached m), db)
  correct_row order m at reason actor (some row) db =
      let row' = corrected row at reason actor db.now in
      let payload = field "field" (str (text_append "hito:" (milestone_value m))) (
        field "from" (time (effective_time row))
          (field "to" (time at) (field "device_time" (opt_time row.device_time) end))) in
      (
        ok row',
        write_event platform.hashing order.business_unit_id
            (order_event order actor payload row'.correction_reason) (put_milestone row' db),
      )

  abbrev correct_known :
      WorkOrder
      → Option Milestone
      → String
      → Bool
      → ℕ
      → Option String
      → String
      → Exec WorkOrderMilestone
  correct_known order none name aware at reason actor db = (err (unknown_milestone name), db)
  correct_known order (some m) name aware at reason actor db =
      if not aware
      then (err correction_without_zone, db)
      else if ltb (db.now + future_slack) at
      then (err correction_in_future, db)
      else correct_row order m at reason actor (first (of_milestone order.id m) db.milestones) db

  -- `aware` says whether the corrected time has a time zone.
  unfoldable pub correct_milestone :
      WorkOrder → String → Bool → ℕ → Option String → String → Exec WorkOrderMilestone
  unfolding is_blank parse_milestone put_milestone write_event effective_time
  correct_milestone order name aware at reason actor db =
      if is_blank reason
      then (err correction_without_reason, db)
      else correct_known order (parse_milestone name) name aware at reason actor db

  -- The writes of `transfer_ownership`, behind its guards.
  unfoldable pub hand_over : WorkOrder → String → Option String → String → Exec WorkOrder
  unfolding put_order write_event
  hand_over order target reason actor db =
      let order' = record order { planner_id = some target; version = order.version + 1 } in
      let payload =
        field "field" (str "planner_id")
          (field "from" (opt_text order.planner_id) (field "to" (str target) end)) in
      (
        ok order',
        write_event platform.hashing order.business_unit_id
            (order_event order actor payload (some (strip_of reason))) (put_order order' db),
      )

  unfoldable pub transfer_ownership : WorkOrder → String → Option String → String → Exec WorkOrder
  transfer_ownership order to reason actor db =
      let target = strip to in
      if str_eq target ""
      then (err transfer_without_target, db)
      else if is_blank reason
      then (err transfer_without_reason, db)
      else if is_text order.planner_id target
      then (err transfer_to_owner, db)
      else hand_over order target reason actor db
