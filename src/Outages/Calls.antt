-- ===== src/Outages/Calls.antt =====
-- The functions of backend/app/outages/service.py that change the session.
use campo_sig.Common.{
  ℕ, suc, String, not, ◌||◌, Option, none, some, List, [], ◌∷◌, ◌++◌, map, ◌==◌, if◌then◌else◌,
  str_eq, select, truthy, leb,
}
use campo_sig.Common.Strip.{strip}
use campo_sig.Common.Json.{Fields, null, str, uuid, time, opt_text, field, end}
use campo_sig.Audit.{
  Entry, EventKind, row_id, created, field_changed, transitioned, decided, person,
}
use campo_sig.WorkOrders.Store.{WorkOrder, Platform, put_order, write_event}
use campo_sig.Outages.Rows.{
  Asked, Call, Desk, OutageRequest, already_decided, as_approved, as_expired, as_rejected,
  as_returned, done, is_approved, is_overdue, is_requested, is_taken, moment_or, new_request,
  not_granted, not_linked, number_taken, other_unit, put_request, refused, self_approval,
  state_value, window_reversed, without_equipment, without_number, without_reason,
}

module _ (platform : Platform) where
  unfoldable pub write : ℕ → Entry → Desk → Desk
  unfolding write_event
  write unit entry desk = record desk { db = write_event platform.hashing unit entry desk.db }

  abbrev request_event : EventKind → OutageRequest → String → Fields → Entry
  request_event kind request actor payload = record {
    kind = kind;
    subject_type = "outage_request";
    subject_id = row_id request.id;
    actor = actor;
    actor_kind = person;
    work_order_id = none;
    asset_code = none;
    device_key = none;
    payload = payload;
    reason = none;
  }

  abbrev asked_event : Asked → OutageRequest → Entry
  asked_event asked request = request_event created request asked.requested_by (
      field "equipment" (str request.equipment) (
        field "window_start" (time asked.window_start)
          (field "window_end" (time asked.window_end) end)))

  unfoldable pub add_request : ℕ → Asked → Call OutageRequest
  unfolding write
  add_request unit asked desk =
      let request = new_request desk.db.next_id unit asked in
      let added = record desk {
        db = record desk.db { next_id = suc desk.db.next_id };
        requests = desk.requests ++ request ∷ [];
      } in
      (done request, write unit (asked_event asked request) added)

  unfoldable pub request_outage : ℕ → Asked → Call OutageRequest
  unfolding add_request strip
  request_outage unit asked desk =
      if leb asked.window_end asked.window_start
      then (refused window_reversed, desk)
      else if not (truthy (some (strip asked.equipment)))
      then (refused without_equipment, desk)
      else add_request unit asked desk

  -- What follows the change of a row: the row is written, and the event.
  unfoldable pub write_row : ℕ → OutageRequest → Entry → Call OutageRequest
  unfolding put_request write
  write_row unit request entry desk = (done request, write unit entry (put_request request desk))

  abbrev number_event : OutageRequest → String → Entry
  number_event request actor = request_event decided request actor (
      field "state" (str (state_value request.state))
        (field "number" (opt_text request.number) end))

  unfoldable pub approve : ℕ → OutageRequest → String → String → Option String → Call OutageRequest
  unfolding write_row is_taken strip
  approve unit request number decided_by note desk =
      let granted = as_approved number decided_by note desk.db.now request in
      if not (is_requested request.state)
      then (refused (already_decided request.state), desk)
      else if not (truthy (some (strip number)))
      then (refused without_number, desk)
      else if str_eq decided_by request.requested_by
      then (refused self_approval, desk)
      else if is_taken request (strip number) desk
      then (refused number_taken, desk)
      else write_row unit granted (number_event granted decided_by) desk

  abbrev note_event : OutageRequest → String → Entry
  note_event request actor =
      request_event decided request actor
        (field "state" (str (state_value request.state)) (field "note" (opt_text request.note) end))

  unfoldable pub reject : ℕ → OutageRequest → String → String → Call OutageRequest
  unfolding write_row strip
  reject unit request decided_by note desk =
      let denied = as_rejected decided_by note desk.db.now request in
      if not (is_requested request.state)
      then (refused (already_decided request.state), desk)
      else if not (truthy (some (strip note)))
      then (refused without_reason, desk)
      else if str_eq decided_by request.requested_by
      then (refused self_approval, desk)
      else write_row unit denied (note_event denied decided_by) desk

  abbrev to_event : OutageRequest → String → Entry
  to_event request actor =
      request_event transitioned request actor (
        field "to" (str (state_value request.state)) (field "number" (opt_text request.number) end))

  unfoldable pub hand_back : ℕ → OutageRequest → String → Option ℕ → Call OutageRequest
  unfolding write_row
  hand_back unit request returned_by at desk =
      let back = as_returned returned_by (moment_or at desk.db.now) request in
      if is_approved request.state
      then write_row unit back (to_event back returned_by) desk
      else (refused (not_granted request.state), desk)

  unfoldable pub expire_rows : ℕ → List OutageRequest → Desk → Desk
  unfolding put_request write
  expire_rows unit [] desk = desk
  expire_rows unit (request ∷ rows) desk =
      let gone = as_expired request in
      expire_rows unit rows
        (write unit (to_event gone "sistema:consignaciones") (put_request gone desk))

  -- The rows that are returned are the objects that were changed.
  unfoldable pub expire_due : ℕ → Option ℕ → Desk → List OutageRequest × Desk
  unfolding expire_rows select
  expire_due unit now desk =
      let rows = select (is_overdue unit (moment_or now desk.db.now)) desk.requests in
      (map as_expired rows, expire_rows unit rows desk)

  unfoldable pub set_order : WorkOrder → Desk → Desk
  unfolding put_order
  set_order order desk = record desk { db = put_order order desk.db }

  abbrev order_event : WorkOrder → Option String → String → Fields → Entry
  order_event order asset_code actor payload = record {
    kind = field_changed;
    subject_type = "orden_trabajo";
    subject_id = row_id order.id;
    actor = actor;
    actor_kind = person;
    work_order_id = some order.id;
    asset_code = asset_code;
    device_key = none;
    payload = payload;
    reason = none;
  }

  abbrev linked_event : WorkOrder → OutageRequest → String → Entry
  linked_event order request actor = order_event order order.asset_code actor (
      field "field" (str "outage_request_id")
        (field "to" (uuid request.id) (field "number" (opt_text request.number) end)))

  abbrev unlinked_event : WorkOrder → ℕ → String → Entry
  unlinked_event order previous actor =
      order_event order none actor (
        field "field" (str "outage_request_id")
          (field "from" (uuid previous) (field "to" null end)))

  unfoldable pub link : ℕ → WorkOrder → OutageRequest → String → Call WorkOrder
  unfolding set_order write
  link unit order request actor desk =
      let order' = record order { outage_request_id = some request.id } in
      if not (order.business_unit_id == unit) || not (request.business_unit_id == unit)
      then (refused other_unit, desk)
      else (done order', write unit (linked_event order request actor) (set_order order' desk))

  abbrev unlink_from : ℕ → WorkOrder → String → Option ℕ → Call WorkOrder
  unlink_from unit order actor none desk = (refused not_linked, desk)
  unlink_from unit order actor (some previous) desk =
      let order' = record order { outage_request_id = none } in
      (done order', write unit (unlinked_event order previous actor) (set_order order' desk))

  unfoldable pub unlink : ℕ → WorkOrder → String → Call WorkOrder
  unfolding set_order write
  unlink unit order actor desk = unlink_from unit order actor order.outage_request_id desk
