-- ===== src/Sync/Devices.antt =====
-- Devices and the ledger of their operations: backend/app/sync/service.py.
use campo_sig.Common.{
  ℕ, suc, String, Bool, true, false, not, ◌&&◌, Option, none, some, List, [], ◌∷◌, ◌++◌, map, ◌==◌,
  if◌then◌else◌, str_eq, first, order_by, truthy,
}
use campo_sig.Common.Keyed.{replace}
use campo_sig.Common.Json.{str, opt_text, opt_uuid, field, end}
use campo_sig.Audit.{Entry, key, field_changed, person}
use campo_sig.WorkOrders.Store.{
  WorkOrder, Crew, Device, active, blocked, retired, SyncOperationLog, Db, Platform, cross_unit,
  unknown_device, device_blocked, Result, ok, err, Exec, get_order, write_event,
}

abbrev pub device_row : Device → ℕ
device_row device = device.id

unfoldable pub put_device : Device → Db → Db
put_device device db = record db { devices = map (replace device_row device) db.devices }

-- `new or old` on columns of text.
abbrev pub or_text : Option String → Option String → Option String
or_text new old = if truthy new then new else old

-- The arguments of `enrol_device`.
pub record Enrolment : Type 0 where
  pub device_key : String
  pub user_sub : Option String
  pub model : Option String
  pub android_version : Option String
  pub app_version : Option String

abbrev pub updated_device : Enrolment → Device → Device
updated_device request device = record device {
  user_sub = or_text request.user_sub device.user_sub;
  model = or_text request.model device.model;
  android_version = or_text request.android_version device.android_version;
  app_version = or_text request.app_version device.app_version;
}

abbrev pub new_device : ℕ → Enrolment → ℕ → Device
new_device unit request id = record {
  id = id;
  business_unit_id = unit;
  device_key = request.device_key;
  user_sub = request.user_sub;
  model = request.model;
  android_version = request.android_version;
  app_version = request.app_version;
  crew_id = none;
  status = active;
  blocked_at = none;
  blocked_reason = none;
  last_sync_at = none;
}

unfoldable pub enrol_over : ℕ → Enrolment → Option Device → Db → (Device × Bool) × Db
unfolding put_device
enrol_over unit request none db = (
  (new_device unit request db.next_id, true),
  record db {
    devices = db.devices ++ new_device unit request db.next_id ∷ [];
    next_id = suc db.next_id;
  },
)
enrol_over unit request (some device) db =
    ((updated_device request device, false), put_device (updated_device request device) db)

abbrev pub has_key : String → Device → Bool
has_key name device = str_eq device.device_key name

unfoldable pub find_device : String → Db → Option Device
unfolding first
find_device name db = first (has_key name) db.devices

unfoldable pub enrol_device : ℕ → Enrolment → Db → (Device × Bool) × Db
unfolding enrol_over find_device
enrol_device unit request db = enrol_over unit request (find_device request.device_key db) db

-- `Device.may_sync`
abbrev pub may_sync : Device → Bool
may_sync device = elim device.status [ active ↦ true | blocked ↦ false | retired ↦ false ]

unfoldable pub resolve_found : String → Option Device → Result Device
resolve_found name none = err (unknown_device name)
resolve_found name (some device) =
    if not (may_sync device) then err (device_blocked name) else ok device

unfoldable pub resolve_device : String → Db → Result Device
unfolding find_device resolve_found
resolve_device name db = resolve_found name (find_device name db)

unfoldable pub block_device : Device → String → Db → Device × Db
unfolding put_device
block_device device reason db =
    let device' = record device {
      status = blocked;
      blocked_at = some db.now;
      blocked_reason = some reason;
    } in
    (device', put_device device' db)

abbrev pub crew_id_of : Option Crew → Option ℕ
crew_id_of none = none
crew_id_of (some crew) = some crew.id

abbrev crew_code_of : Option Crew → Option String
crew_code_of none = none
crew_code_of (some crew) = some crew.code

abbrev pub is_other_unit : Option Crew → ℕ → Bool
is_other_unit none unit = false
is_other_unit (some crew) unit = not (crew.business_unit_id == unit)

abbrev pub same_crew : Option ℕ → Option ℕ → Bool
same_crew none none = true
same_crew (some a) (some b) = a == b
same_crew none (some b) = false
same_crew (some a) none = false

module _ (platform : Platform) where
  abbrev pub crew_event : Device → Option Crew → String → Entry
  crew_event device crew actor = record {
    kind = field_changed;
    subject_type = "dispositivo";
    subject_id = key device.device_key;
    actor = actor;
    actor_kind = person;
    work_order_id = none;
    asset_code = none;
    device_key = some device.device_key;
    payload =
        field "field" (str "crew")
          (field "from" (opt_uuid device.crew_id) (field "to" (opt_text (crew_code_of crew)) end));
    reason = none;
  }

  unfoldable pub assign_device_to_crew : ℕ → Device → Option Crew → String → Exec Device
  unfolding put_device write_event
  assign_device_to_crew unit device crew actor db =
      if not (device.business_unit_id == unit)
      then (err cross_unit, db)
      else if is_other_unit crew unit
      then (err cross_unit, db)
      else if same_crew device.crew_id (crew_id_of crew)
      then (ok device, db)
      else let device' = record device { crew_id = crew_id_of crew } in
        (
          ok device',
          write_event platform.hashing unit (crew_event device crew actor) (put_device device' db),
        )

-- The arguments of `push_operation`; the keys of the payload are sorted by the platform's order.
pub record Push : Type 0 where
  pub operation_id : String
  pub kind : String
  pub work_order_id : Option ℕ
  pub payload_keys : List String
  pub device_created_at : Option ℕ

abbrev pub is_operation : Device → String → SyncOperationLog → Bool
is_operation device operation_id op =
    op.device_id == device.id && str_eq op.operation_id operation_id

unfoldable pub already_processed : Device → String → Db → Option SyncOperationLog
unfolding first
already_processed device operation_id db = first (is_operation device operation_id) db.operations

abbrev pub log_entry : Platform → Device → Push → Bool → Option String → ℕ → SyncOperationLog
log_entry platform device push accepted rejection id = record {
  id = id;
  device_id = device.id;
  operation_id = push.operation_id;
  kind = push.kind;
  work_order_id = if accepted then push.work_order_id else none;
  accepted = accepted;
  rejection_reason = rejection;
  payload_keys = order_by platform.text_le push.payload_keys;
  device_created_at = push.device_created_at;
}

unfoldable pub write_entry :
    Platform → Device → Push → Bool → Option String → Exec (SyncOperationLog × Bool)
unfolding put_device
write_entry platform device push accepted rejection db =
    let entry = log_entry platform device push accepted rejection db.next_id in
    (
      ok (entry, true),
      put_device (record device { last_sync_at = some db.now })
          (record db { operations = db.operations ++ entry ∷ []; next_id = suc db.next_id }),
    )

-- The order that the operation names, where it names one.
unfoldable pub push_to :
    Platform → Device → Push → Option (Option WorkOrder) → Exec (SyncOperationLog × Bool)
unfolding write_entry
push_to platform device push none db = write_entry platform device push true none db
push_to platform device push (some none) db =
    write_entry platform device push false (some "la OT no existe") db
push_to platform device push (some (some order)) db =
    if not (order.business_unit_id == device.business_unit_id)
    then (err cross_unit, db)
    else write_entry platform device push true none db

unfoldable pub named_order : Option ℕ → Db → Option (Option WorkOrder)
unfolding get_order
named_order none db = none
named_order (some id) db = some (get_order id db)

unfoldable pub push_over :
    Platform → Device → Push → Option SyncOperationLog → Exec (SyncOperationLog × Bool)
unfolding push_to named_order
push_over platform device push (some existing) db = (ok (existing, false), db)
push_over platform device push none db =
    push_to platform device push (named_order push.work_order_id db) db

unfoldable pub push_operation : Platform → Device → Push → Exec (SyncOperationLog × Bool)
unfolding push_over already_processed
push_operation platform device push db =
    push_over platform device push (already_processed device push.operation_id db) db
