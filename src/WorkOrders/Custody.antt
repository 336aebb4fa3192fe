-- ===== src/WorkOrders/Custody.antt =====
-- Assignment and the chain of custody of backend/app/workorders/service.py, with `undelivered_for`
-- of backend/app/sync/service.py.
pub mod Many
pub mod Chain
pub mod Ending
pub mod Closing
pub mod Outcome
use campo_sig.Common.{
  ℕ, suc, ◌+◌, String, Bool, true, false, not, Option, none, some, List, [], ◌∷◌, ◌++◌, map, ◌==◌,
  ltb, leb, if◌then◌else◌, ◌&&◌, str_eq, is_text, is_none, is_id, first, select, exists, order_by,
  truthy,
}
use campo_sig.Common.Json.{Fields, str, number, obj, opt_text, opt_uuid, field, end}
use campo_sig.Audit.{Entry, row_id, field_changed}
use campo_sig.WorkOrders.State.{assigned, value, is_assignable}
use campo_sig.WorkOrders.Store.{
  Crew, WorkOrder, DeviceCustody, Device, SyncOperationLog, Db, Platform, concurrent_edit,
  not_assignable, cross_unit, unknown_form, ok, err, Exec, put_order, write_event,
}
use campo_sig.WorkOrders.Transition.{actor_or, kind_of_actor}

abbrev pub is_current : ℕ → DeviceCustody → Bool
is_current order_id row = row.work_order_id == order_id && is_none row.until

unfoldable pub current_custody : Db → ℕ → Option DeviceCustody
current_custody db order_id = first (is_current order_id) db.custody

unfoldable pub custody_history : Db → ℕ → List DeviceCustody
custody_history db order_id =
    order_by (λ a b. leb a.since b.since) (select (λ row. row.work_order_id == order_id) db.custody)

-- Whether nothing of the device has arrived for the order.
unfoldable pub undelivered_for : Db → ℕ → ℕ → Bool
unfolding exists is_id
undelivered_for db device_id order_id = not (
    exists (λ (op : SyncOperationLog). op.device_id == device_id && is_id op.work_order_id order_id)
      db.operations)

abbrev pub owes : Db → ℕ → Option Device → Bool
owes db order_id none = false
owes db order_id (some device) = undelivered_for db device.id order_id

-- `_owes_undelivered_data`
unfoldable pub owes_undelivered_data : Db → String → ℕ → Bool
unfolding undelivered_for first
owes_undelivered_data db device_key order_id =
    owes db order_id (first (λ (d : Device). str_eq d.device_key device_key) db.devices)

abbrev pub replace_custody : DeviceCustody → DeviceCustody → DeviceCustody
replace_custody new old = if old.id == new.id then new else old

unfoldable pub put_custody : DeviceCustody → Db → Db
put_custody row db = record db { custody = map (replace_custody row) db.custody }

-- The first row by `since`, the latest first.
abbrev pub newer : DeviceCustody → Option DeviceCustody → DeviceCustody
newer row none = row
newer row (some other) = if ltb row.since other.since then other else row

unfoldable pub newest : List DeviceCustody → Option DeviceCustody
newest [] = none
newest (row ∷ rows) = some (newer row (newest rows))

abbrev pub flag_row : Option DeviceCustody → Db → Db
flag_row none db = db
flag_row (some row) db = put_custody (record row { had_unsynced_data = true }) db

unfoldable pub mark_pending_handover : ℕ → String → Db → Db
unfolding newest put_custody
mark_pending_handover order_id device_id db =
    flag_row
      (newest (
        select
          (λ (row : DeviceCustody).
            row.work_order_id == order_id && is_text row.device_id device_id)
          db.custody))
      db

abbrev pub flag_device : Option String → ℕ → Db → Db
flag_device none order_id db = db
flag_device (some key) order_id db =
    if truthy (some key) && owes_undelivered_data db key order_id
    then mark_pending_handover order_id key db
    else db

abbrev pub closed_row : Option String → ℕ → DeviceCustody → DeviceCustody
closed_row reason now row = record row {
  until = some now;
  reason = if truthy reason then reason else row.reason;
}

-- The end of the previous custody in `assign`.
unfoldable pub close_custody : Option DeviceCustody → ℕ → Option String → Db → Db
unfolding put_custody
close_custody none order_id reason db = db
close_custody (some row) order_id reason db =
    flag_device row.device_id order_id (put_custody (closed_row reason db.now row) db)

abbrev lookup_version : String → List (String × String) → Option String
lookup_version code [] = none
lookup_version code ((c, v) ∷ rest) = if str_eq c code then some v else lookup_version code rest

-- `current_version(...) or get_definition(...).version`
abbrev pinned : Option String → Option String → Option String
pinned none definition = definition
pinned (some v) definition = if truthy (some v) then some v else definition

unfoldable pub version_to_pin : Db → String → Option String
version_to_pin db code =
    pinned (lookup_version code db.published) (lookup_version code db.definitions)

abbrev pub crew_id_of : Option Crew → Option ℕ
crew_id_of none = none
crew_id_of (some crew) = some crew.id

abbrev pub crew_elsewhere : Option Crew → ℕ → Bool
crew_elsewhere none unit = false
crew_elsewhere (some crew) unit = not (crew.business_unit_id == unit)

abbrev pub stale : Option ℕ → ℕ → Bool
stale none version = false
stale (some seen) version = not (version == seen)

abbrev pub seen_version : Option ℕ → ℕ
seen_version none = 0
seen_version (some seen) = seen

-- The arguments of `assign` but the order.
pub record Assignment : Type 0 where
  pub crew : Option Crew
  pub user_sub : Option String
  pub device_id : Option String
  pub expected_version : Option ℕ
  pub reason : Option String
  pub granted_by : Option String

abbrev pub held_by : Assignment → WorkOrder → WorkOrder
held_by a order = record order {
  assigned_crew_id = crew_id_of a.crew;
  assigned_user_sub = a.user_sub;
  state = assigned;
  version = order.version + 1;
}

abbrev pub new_custody : Assignment → ℕ → ℕ → ℕ → DeviceCustody
new_custody a order_id id now = record {
  id = id;
  work_order_id = order_id;
  device_id = a.device_id;
  user_sub = a.user_sub;
  crew_id = crew_id_of a.crew;
  since = now;
  until = none;
  reason = a.reason;
  had_unsynced_data = false;
  granted_by = a.granted_by;
  context = end;
}

abbrev holder : Option ℕ → Option String → Fields
holder crew user = field "crew_id" (opt_uuid crew) (field "user_sub" (opt_text user) end)

module _ (platform : Platform) where
  abbrev pub assign_event : Assignment → WorkOrder → WorkOrder → Entry
  assign_event a order order' = record {
    kind = field_changed;
    subject_type = "orden_trabajo";
    subject_id = row_id order.id;
    actor = actor_or a.granted_by "sistema:asignacion";
    actor_kind = kind_of_actor a.granted_by;
    work_order_id = some order.id;
    asset_code = order.asset_code;
    device_key = a.device_id;
    payload = field "before" (obj (holder order.assigned_crew_id order.assigned_user_sub)) (
        field "after" (obj (holder order'.assigned_crew_id order'.assigned_user_sub)) (
          field "from" (str (value order.state)) (
            field "to" (str (value order'.state)) (
              field "version" (number order'.version) (
                field "origin" (str (if truthy a.granted_by then "humano" else "sistema")) end)))));
    reason = a.reason;
  }

  -- The new custody row and the entry in the trail.
  unfoldable pub open_custody : Assignment → WorkOrder → WorkOrder → Exec WorkOrder
  unfolding put_order write_event
  open_custody a order order' db =
      let flushed = put_order order' db in
      let opened = record flushed {
        custody = flushed.custody ++ new_custody a order.id flushed.next_id flushed.now ∷ [];
        next_id = suc flushed.next_id;
      } in
      (
        ok order',
        write_event platform.hashing order.business_unit_id (assign_event a order order') opened,
      )

  abbrev pub pin_new : Assignment → WorkOrder → Option String → Exec WorkOrder
  pin_new a order none db = (err (unknown_form order.form_code), put_order (held_by a order) db)
  pin_new a order (some v) db =
      open_custody a order (record (held_by a order) { form_version = some v }) db

  abbrev pub pin : Assignment → WorkOrder → Option String → Exec WorkOrder
  pin a order none db = pin_new a order (version_to_pin db order.form_code) db
  pin a order (some v) db = open_custody a order (held_by a order) db

  unfoldable pub assign : WorkOrder → Assignment → Exec WorkOrder
  assign order a db =
      if stale a.expected_version order.version
      then (err (concurrent_edit order.version (seen_version a.expected_version)), db)
      else if not (is_assignable order.state)
      then (err (not_assignable order.state), db)
      else if crew_elsewhere a.crew order.business_unit_id
      then (err cross_unit, db)
      else pin a order order.form_version
          (close_custody (current_custody db order.id) order.id a.reason db)
