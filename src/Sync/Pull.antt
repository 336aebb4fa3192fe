-- ===== src/Sync/Pull.antt =====
-- The delta that a phone pulls: `pull_work_orders` of backend/app/sync/service.py with its cursor, and
-- `record_delivery` of backend/app/dispatch/service.py.
use campo_sig.Common.{
  ℕ, suc, ◌+◌, String, Bool, true, false, not, ◌&&◌, ◌||◌, Option, none, some, List, [], ◌∷◌, ◌++◌,
  map, ◌==◌, ltb, if◌then◌else◌, str_eq, is_text, is_id, is_none, exists, select, order_by, take,
}
use campo_sig.Common.Sorted.{le, last}
use campo_sig.WorkOrders.State.{
  WorkOrderState, assigned, downloaded, en_route, on_site, in_execution, suspended, returned,
}
use campo_sig.WorkOrders.Store.{WorkOrder, DeviceCustody, Device, Db}

pub record WorkOrderDelivery : Type 0 where
  pub id : ℕ
  pub business_unit_id : ℕ
  pub work_order_id : ℕ
  pub device_id : ℕ
  pub delivered_version : ℕ
  pub form_version : Option String
  pub first_delivered_at : ℕ
  pub last_delivered_at : ℕ
  pub delivery_count : ℕ

-- The session, with the column `updated_at` of the orders and the table of the deliveries.
pub record Shelf : Type 0 where
  pub db : Db
  pub updated_at : ℕ → ℕ
  pub deliveries : List WorkOrderDelivery

-- Base64 over the JSON of a position; `read` fails where the decoding raises.
pub record Codec : Type 0 where
  pub write : ℕ × ℕ → String
  pub read : String → Option (ℕ × ℕ)

module _ (codec : Codec) where
  unfoldable pub encode_cursor : ℕ → ℕ → String
  encode_cursor updated_at last_id = codec.write (updated_at, last_id)

  unfoldable pub decode_cursor : Option String → Option (ℕ × ℕ)
  decode_cursor none = none
  decode_cursor (some cursor) = if str_eq cursor "" then none else codec.read cursor

-- `SYNCABLE_STATES`
unfoldable pub is_syncable : WorkOrderState → Bool
is_syncable assigned = true
is_syncable downloaded = true
is_syncable en_route = true
is_syncable on_site = true
is_syncable in_execution = true
is_syncable suspended = true
is_syncable returned = true
is_syncable _ = false

abbrev pub is_held_by : Device → WorkOrder → DeviceCustody → Bool
is_held_by device order row =
    row.work_order_id == order.id && (is_text row.device_id device.device_key && is_none row.until)

-- The doors of the person and of the crew, each closed where the device has none.
abbrev pub is_of_person : Device → WorkOrder → Bool
is_of_person device order = elim device.user_sub [
  | none ↦ false
  | some user_sub ↦ (if str_eq user_sub "" then false else is_text order.assigned_user_sub user_sub)
]

abbrev pub is_of_crew : Device → WorkOrder → Bool
is_of_crew device order = elim device.crew_id [
  | none ↦ false
  | some crew_id ↦ is_id order.assigned_crew_id crew_id
]

unfoldable pub reaches : Device → Db → WorkOrder → Bool
unfolding is_syncable exists
reaches device db order =
    is_syncable order.state
    && (exists (is_held_by device order) db.custody
        || (is_of_person device order || is_of_crew device order))

abbrev pub is_delivery : Device → WorkOrder → WorkOrderDelivery → Bool
is_delivery device order row = row.device_id == device.id && row.work_order_id == order.id

unfoldable pub delivered_here : Device → List WorkOrderDelivery → WorkOrder → Bool
unfolding exists
delivered_here device deliveries order = exists (is_delivery device order) deliveries

unfoldable pub concerns : Device → Shelf → WorkOrder → Bool
unfolding reaches delivered_here
concerns device shelf order =
    order.business_unit_id == device.business_unit_id
    && (reaches device shelf.db order || delivered_here device shelf.deliveries order)

-- The order of `(updated_at, id)`.
abbrev pub is_after : ℕ × ℕ → ℕ × ℕ → Bool
is_after (watermark, last_id) (updated_at, id) =
    ltb watermark updated_at || (updated_at == watermark && ltb last_id id)

abbrev pub position : Shelf → WorkOrder → ℕ × ℕ
position shelf order = (shelf.updated_at order.id, order.id)

abbrev pub before : Shelf → WorkOrder → WorkOrder → Bool
before shelf a b = is_after (position shelf a) (position shelf b)

-- The condition of the cursor, where there is one.
abbrev pub is_behind : Shelf → Option (ℕ × ℕ) → WorkOrder → Bool
is_behind shelf none order = true
is_behind shelf (some at) order = is_after at (position shelf order)

unfoldable pub delta : Device → Shelf → Option (ℕ × ℕ) → ℕ → List WorkOrder
unfolding select order_by concerns
delta device shelf at limit = take limit (
    order_by (le (before shelf))
      (select (λ order. concerns device shelf order && is_behind shelf at order) shelf.db.orders))

abbrev pub new_delivery : Device → WorkOrder → Db → WorkOrderDelivery
new_delivery device order db = record {
  id = db.next_id;
  business_unit_id = device.business_unit_id;
  work_order_id = order.id;
  device_id = device.id;
  delivered_version = order.version;
  form_version = order.form_version;
  first_delivered_at = db.now;
  last_delivered_at = db.now;
  delivery_count = 1;
}

-- The row of the order and the device, of which the table holds one at most.
abbrev pub redelivered : Device → WorkOrder → ℕ → WorkOrderDelivery → WorkOrderDelivery
redelivered device order now row =
    if is_delivery device order row
    then record row {
      delivered_version = order.version;
      form_version = order.form_version;
      last_delivered_at = now;
      delivery_count = row.delivery_count + 1;
    }
    else row

-- `existing` are the rows that the table had when the call began.
unfoldable pub record_one : Device → List WorkOrderDelivery → WorkOrder → Shelf → Shelf
unfolding delivered_here
record_one device existing order shelf =
    if delivered_here device existing order
    then record shelf { deliveries = map (redelivered device order shelf.db.now) shelf.deliveries }
    else record shelf {
      db = record shelf.db { next_id = suc shelf.db.next_id };
      deliveries = shelf.deliveries ++ new_delivery device order shelf.db ∷ [];
    }

unfoldable pub record_each : Device → List WorkOrderDelivery → List WorkOrder → Shelf → Shelf
unfolding record_one
record_each device existing [] shelf = shelf
record_each device existing (order ∷ orders) shelf =
    record_each device existing orders (record_one device existing order shelf)

unfoldable pub record_delivery : Device → List WorkOrder → Shelf → Shelf
unfolding record_each
record_delivery device orders shelf = record_each device shelf.deliveries orders shelf

pub record PullPage : Type 0 where
  pub orders : List WorkOrder
  pub next_cursor : Option String
  pub withdrawn : List WorkOrder

module _ (codec : Codec) where
  -- The page of the rows of the query, of which `end` is the last.
  unfoldable pub page_of : Device → Shelf → List WorkOrder → Option WorkOrder → PullPage × Shelf
  unfolding record_delivery reaches encode_cursor select
  page_of device shelf rows none =
      (record { orders = []; next_cursor = none; withdrawn = [] }, shelf)
  page_of device shelf rows (some end) =
      let orders = select (reaches device shelf.db) rows in
      (
        record {
          orders = orders;
          next_cursor = some (encode_cursor codec (shelf.updated_at end.id) end.id);
          withdrawn = select (λ order. not (reaches device shelf.db order)) rows;
        },
        record_delivery device orders shelf,
      )

  unfoldable pub pull_work_orders : Device → Option String → ℕ → Shelf → PullPage × Shelf
  unfolding page_of delta decode_cursor
  pull_work_orders device cursor limit shelf =
      let rows = delta device shelf (decode_cursor codec cursor) limit in
      page_of device shelf rows (last rows)
