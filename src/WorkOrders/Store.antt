-- ===== src/WorkOrders/Store.antt =====
-- The rows of backend/app/workorders/models.py, the part of the database that the services of
-- workorders/ read and write, and the services' way to fail: an exception leaves what was written
-- before it. `now` is the clock of the request, for `datetime.now(UTC)` and the database's
-- `now()`; `next_id` is the next value of `uuid4()`.
use campo_sig.Common.Json.{Fields}
use campo_sig.Common.{
  ℕ, String, Bool, true, false, Option, none, some, List, map, ◌==◌, if◌then◌else◌, first,
}
use campo_sig.Audit.{AuditEvent, Hashing, Entry, append_event}
use campo_sig.WorkOrders.State.{WorkOrderState, Milestone}

pub data Priority : Type 0 where
  low medium high critical : Priority

pub data WorkOrderSource : Type 0 where
  manual external_system gis_review ai_finding preventive_plan call_center oms_event :
      WorkOrderSource

pub record Crew : Type 0 where
  pub id : ℕ
  pub business_unit_id : ℕ
  pub code : String
  pub name : String
  pub leader_name : Option String
  pub members : List String
  pub vehicle : Option String
  pub competencies : List String
  pub zone : Option String
  pub agency : Option String
  pub contractor : Option String
  pub active : Bool
  pub created_by : Option String
  pub updated_by : Option String

-- A coordinate is stored and never computed with: any number stands for it. `updated_at`, which the
-- database sets, is kept beside the orders where it is read, in Sync/Pull.
pub record WorkOrder : Type 0 where
  pub id : ℕ
  pub business_unit_id : ℕ
  pub code : Option String
  pub source : WorkOrderSource
  pub external_ref : Option String
  pub work_type : String
  pub form_code : String
  pub form_version : Option String
  pub state : WorkOrderState
  pub priority : Priority
  pub description : Option String
  pub asset_type_key : Option String
  pub asset_code : Option String
  pub location : Option (ℕ × ℕ)
  pub feeder_code : Option String
  pub zone : Option String
  pub agency : Option String
  pub sla_due_at : Option ℕ
  pub planner_id : Option String
  pub assigned_crew_id : Option ℕ
  pub assigned_user_sub : Option String
  pub parent_id : Option ℕ
  pub version : ℕ
  pub outage_request_id : Option ℕ
  pub created_at : ℕ

pub record DeviceCustody : Type 0 where
  pub id : ℕ
  pub work_order_id : ℕ
  pub device_id : Option String
  pub user_sub : Option String
  pub crew_id : Option ℕ
  pub since : ℕ
  pub until : Option ℕ
  pub reason : Option String
  pub had_unsynced_data : Bool
  pub granted_by : Option String
  pub context : Fields

pub record WorkOrderMilestone : Type 0 where
  pub id : ℕ
  pub business_unit_id : ℕ
  pub work_order_id : ℕ
  pub milestone : Milestone
  pub device_time : Option ℕ
  pub recorded_at : ℕ
  pub recorded_by : Option String
  pub corrected_time : Option ℕ
  pub correction_reason : Option String
  pub corrected_by : Option String
  pub corrected_at : Option ℕ

abbrev time_of : Option ℕ → Option ℕ → ℕ → ℕ
time_of (some corrected) device recorded = corrected
time_of none (some device) recorded = device
time_of none none recorded = recorded

-- `WorkOrderMilestone.effective_time`
unfoldable pub effective_time : WorkOrderMilestone → ℕ
effective_time row = time_of row.corrected_time row.device_time row.recorded_at

-- sync/models.py `Device`, as far as the services of workorders/ and sync/ use it.
pub data DeviceStatus : Type 0 where
  active blocked retired : DeviceStatus

pub record Device : Type 0 where
  pub id : ℕ
  pub business_unit_id : ℕ
  pub device_key : String
  pub user_sub : Option String
  pub model : Option String
  pub android_version : Option String
  pub app_version : Option String
  pub crew_id : Option ℕ
  pub status : DeviceStatus
  pub blocked_at : Option ℕ
  pub blocked_reason : Option String
  pub last_sync_at : Option ℕ

-- sync/models.py `SyncOperationLog`; `payload_keys` is its `result`.
pub record SyncOperationLog : Type 0 where
  pub id : ℕ
  pub device_id : ℕ
  pub operation_id : String
  pub kind : String
  pub work_order_id : Option ℕ
  pub accepted : Bool
  pub rejection_reason : Option String
  pub payload_keys : List String
  pub device_created_at : Option ℕ

pub record Db : Type 0 where
  pub now : ℕ
  pub next_id : ℕ
  pub orders : List WorkOrder
  pub crews : List Crew
  pub custody : List DeviceCustody
  pub milestones : List WorkOrderMilestone
  pub devices : List Device
  pub operations : List SyncOperationLog
  -- Form code and version, of the form definitions on disk and of the published forms.
  pub definitions : List (String × String)
  pub published : List (String × String)
  pub trail : List AuditEvent

-- What stands outside the repository: the digests, the order of the database's collation, and
-- the text of a UUID.
pub record Platform : Type 0 where
  pub hashing : Hashing
  pub text_le : String → String → Bool
  pub uuid_text : ℕ → String

-- `session.get(WorkOrder, id)`
unfoldable pub get_order : ℕ → Db → Option WorkOrder
unfolding first
get_order id db = first (λ o. o.id == id) db.orders

abbrev pub replace_order : WorkOrder → WorkOrder → WorkOrder
replace_order new old = if old.id == new.id then new else old

-- The row of an object that was changed, as the flush writes it.
unfoldable pub put_order : WorkOrder → Db → Db
put_order order db = record db { orders = map (replace_order order) db.orders }

unfoldable pub write_event : Hashing → ℕ → Entry → Db → Db
write_event hashing unit entry db = record db {
  trail = append_event hashing unit db.now entry db.trail;
}

pub data Failure : Type 0 where
  duplicate_reference : Failure
  invalid_transition : (source target : WorkOrderState) → Failure
  reason_missing : WorkOrderState → Failure
  open_fronts : List String → Failure
  concurrent_edit : (current seen : ℕ) → Failure
  not_assignable : WorkOrderState → Failure
  cross_unit : Failure
  unknown_crew : String → Failure
  unknown_form : String → Failure
  own_front not_same_unit parent_is_front front_of_other front_has_fronts : Failure
  parent_under_way : WorkOrderState → Failure
  not_a_front : Failure
  correction_without_reason correction_without_zone correction_in_future : Failure
  unknown_milestone : String → Failure
  milestone_not_reached : Milestone → Failure
  transfer_without_target transfer_without_reason transfer_to_owner : Failure
  unknown_device : String → Failure
  device_blocked : String → Failure

pub data Result {ℓ} (A : Type ℓ) : Type ℓ where
  ok : A → Result A
  err : Failure → Result A

-- A service call: what was written before an exception stays in the session.
abbrev pub Exec : Type 0 → Type 0
Exec A = Db → Result A × Db

abbrev pub succeeded : {A : Type 0} → Result A → Bool
succeeded (ok a) = true
succeeded (err e) = false
