-- ===== src/WorkOrders/Transition.antt =====
-- `transition` of backend/app/workorders/service.py: the one way through which an order changes its
-- state, with its guards, its entry in the trail and its milestone.
pub mod Outcome
use campo_sig.Common.{
  ℕ, suc, ◌+◌, String, Bool, not, Option, none, some, List, [], ◌∷◌, ◌++◌, ◌==◌, if◌then◌else◌,
  ◌&&◌, exists, truthy,
}
use campo_sig.Common.Json.{str, number, opt_time, field, end}
use campo_sig.Audit.{Entry, ActorKind, row_id, transitioned, person, system}
use campo_sig.WorkOrders.State.{
  WorkOrderState, Milestone, value, allowed, reason_required, milestone_of_state, milestone_eq,
}
use campo_sig.WorkOrders.Store.{
  WorkOrder, WorkOrderMilestone, Db, Platform, invalid_transition, reason_missing, open_fronts, ok,
  err, Exec, put_order, write_event,
}
use campo_sig.WorkOrders.Fronts.{blocking_fronts}

-- `actor or default`
abbrev pub actor_or : Option String → String → String
actor_or none default = default
actor_or (some a) default = if truthy (some a) then a else default

abbrev pub kind_of_actor : Option String → ActorKind
kind_of_actor a = if truthy a then person else system

abbrev pub of_milestone : ℕ → Milestone → WorkOrderMilestone → Bool
of_milestone order_id m row = row.work_order_id == order_id && milestone_eq row.milestone m

-- `_record_milestone`: a milestone that the order has is left as it is.
unfoldable pub record_milestone : WorkOrder → Milestone → Option ℕ → Option String → Db → Db
unfolding exists milestone_eq
record_milestone order m device_time actor db =
    if exists (of_milestone order.id m) db.milestones then db else record db {
      milestones =
          db.milestones
          ++ record {
            id = db.next_id;
            business_unit_id = order.business_unit_id;
            work_order_id = order.id;
            milestone = m;
            device_time = device_time;
            recorded_at = db.now;
            recorded_by = actor;
            corrected_time = none;
            correction_reason = none;
            corrected_by = none;
            corrected_at = none;
          }
            ∷ [];
      next_id = suc db.next_id;
    }

unfoldable pub record_milestone_of :
    WorkOrder → Option Milestone → Option ℕ → Option String → Db → Db
unfolding record_milestone
record_milestone_of order none device_time actor db = db
record_milestone_of order (some m) device_time actor db =
    record_milestone order m device_time actor db

module _ (platform : Platform) where
  abbrev pub transition_event :
      WorkOrder → WorkOrder → Option String → Option String → Option ℕ → Entry
  transition_event order order' reason actor occurred_at = record {
    kind = transitioned;
    subject_type = "orden_trabajo";
    subject_id = row_id order.id;
    actor = actor_or actor "sistema:transicion";
    actor_kind = kind_of_actor actor;
    work_order_id = some order.id;
    asset_code = order.asset_code;
    device_key = none;
    payload = field "from" (str (value order.state)) (
        field "to" (str (value order'.state)) (
          field "version" (number order'.version)
            (field "device_time" (opt_time occurred_at) end)));
    reason = reason;
  }

  -- The writes of `transition`, behind its guards.
  unfoldable pub enter :
      WorkOrder → WorkOrderState → Option String → Option String → Option ℕ → Exec WorkOrder
  unfolding put_order write_event record_milestone_of milestone_of_state
  enter order target reason actor occurred_at db =
      let order' = record order { state = target; version = order.version + 1 } in
      let written =
        write_event platform.hashing order.business_unit_id
          (transition_event order order' reason actor occurred_at) (put_order order' db) in
      (ok order', record_milestone_of order' (milestone_of_state target) occurred_at actor written)

  abbrev pub unless_blocked :
      List String
      → WorkOrder
      → WorkOrderState
      → Option String
      → Option String
      → Option ℕ
      → Exec WorkOrder
  unless_blocked [] order target reason actor occurred_at db =
      enter order target reason actor occurred_at db
  unless_blocked (c ∷ cs) order target reason actor occurred_at db =
      (err (open_fronts (c ∷ cs)), db)

  unfoldable pub transition :
      WorkOrder → WorkOrderState → Option String → Option String → Option ℕ → Exec WorkOrder
  unfolding allowed reason_required blocking_fronts enter
  transition order target reason actor occurred_at db =
      if not (allowed order.state target)
      then (err (invalid_transition order.state target), db)
      else if reason_required target && not (truthy reason)
      then (err (reason_missing target), db)
      else unless_blocked (blocking_fronts platform db order target) order target reason actor
          occurred_at db
