-- ===== src/Samples/Phones.antt =====
-- A phone that has downloaded an order, and what it delivers.
use campo_sig.Common.Members.{mem_one}
use campo_sig.Common.Keyed.{IsKeyed}
use campo_sig.Sync.Blocking.{block_device_holds}
use campo_sig.Common.{sym, ◌∙◌, arith, Bool, true, false, ◌≡◌, refl, none, some, [], ◌∷◌, ◌⊎◌}
use campo_sig.WorkOrders.State.{downloaded}
use campo_sig.WorkOrders.Store.{
  WorkOrder, Device, active, SyncOperationLog, Db, succeeded, ok, err, device_blocked,
}
use campo_sig.Samples.Orders.{platform, order_at, session}
use campo_sig.Sync.Devices.{
  Push, push_operation, device_row, find_device, resolve_device, block_device, Enrolment,
  enrol_device,
}
use campo_sig.Sync.Once.{OneEntry, push_operation-OneEntry}
use campo_sig.Sync.Replays.{Later, push_operation_once}
use campo_sig.Sync.Operations.{TransitionRequest, Rejection, Applied, apply_transition}
use campo_sig.Sync.Field.{Moved, apply_transition_field}

abbrev pub phone : Device
phone = record {
  id = 3;
  business_unit_id = 7;
  device_key = "tel-1";
  user_sub = some "luis";
  model = none;
  android_version = none;
  app_version = none;
  crew_id = none;
  status = active;
  blocked_at = none;
  blocked_reason = none;
  last_sync_at = none;
}

abbrev order : WorkOrder
order = order_at 1 none downloaded

abbrev field : Db
field = session (order ∷ [])

abbrev on_the_way : TransitionRequest
on_the_way = record { target = some "en_camino "; reason = none; occurred_at = some 90 }

abbrev first_push : Push
first_push = record {
  operation_id = "op-1";
  kind = "transition";
  work_order_id = some 1;
  payload_keys = "target" ∷ [];
  device_created_at = some 90;
}

abbrev replay : Push
replay = record {
  operation_id = "op-1";
  kind = "evidence";
  work_order_id = none;
  payload_keys = [];
  device_created_at = none;
}

apply_transition_field_example :
    ((why : Rejection) × (apply_transition platform phone order on_the_way field
        ≡ (Applied.rejected why, field)))
    ⊎ Moved platform phone order on_the_way field
        (apply_transition platform phone order on_the_way field).0
        (apply_transition platform phone order on_the_way field).1
apply_transition_field_example = apply_transition_field platform phone order on_the_way field

nil-OneEntry : OneEntry field
nil-OneEntry p q m = elim m [ ]

push_operation-OneEntry_example : OneEntry (push_operation platform phone first_push field).1
push_operation-OneEntry_example =
    push_operation-OneEntry platform phone first_push field nil-OneEntry

first_push_returns : succeeded (push_operation platform phone first_push field).0 ≡ true
unfolding push_operation
first_push_returns = refl

abbrev second_push : Push
second_push = record first_push { operation_id = "op-2" }

abbrev once : Db
once = (push_operation platform phone first_push field).1

-- Behind another push and the block of the phone.
abbrev twice : Db
twice = (block_device phone "robado" (push_operation platform phone second_push once).1).1

push_operation_once_example :
    (op : SyncOperationLog) × (fresh : Bool) × ((push_operation platform phone first_push field).0
      ≡ ok (op, fresh))
    × (push_operation platform phone replay twice ≡ (ok (op, false), twice))
push_operation_once_example =
    push_operation_once platform phone phone first_push replay field twice
      (Later.blocks phone "robado" (Later.pushes phone second_push Later.at_once)) refl refl
      first_push_returns

abbrev office : Db
office = record field { devices = phone ∷ [] }

office-IsKeyed : IsKeyed device_row office.devices office.next_id
office-IsKeyed = record {
  keyed = λ p q m n h. mem_one phone p m ∙ sym (mem_one phone q n);
  fresh = λ p m. rw (mem_one phone p m) (omega arith);
}

abbrev reinstalled : Enrolment
reinstalled = record {
  device_key = "tel-1";
  user_sub = some "ana";
  model = none;
  android_version = none;
  app_version = some "2";
}

phone_found : find_device "tel-1" office ≡ some phone
unfolding find_device
phone_found = refl

block_device_holds_example :
    (resolve_device "tel-1" (block_device phone "robado" office).1 ≡ err (device_blocked "tel-1"))
    × (resolve_device "tel-1" (enrol_device 7 reinstalled (block_device phone "robado" office).1).1
        ≡ err (device_blocked "tel-1"))
block_device_holds_example =
    block_device_holds "tel-1" "robado" phone office 7 reinstalled office-IsKeyed phone_found refl
