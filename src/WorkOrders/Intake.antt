-- ===== src/WorkOrders/Intake.antt =====
-- Creation and import of work orders in backend/app/workorders/service.py.
pub mod Once
use campo_sig.Common.{
  ℕ, suc, String, Bool, true, false, not, Option, none, some, [], ◌∷◌, ◌++◌, ◌==◌, if◌then◌else◌,
  ◌&&◌, str_eq, is_text, first, exists, truthy,
}
use campo_sig.Common.Json.{str, opt_text, field, end}
use campo_sig.Audit.{Entry, row_id, created}
use campo_sig.WorkOrders.State.{draft, planned, value}
use campo_sig.WorkOrders.Store.{
  Priority, low, medium, high, critical, WorkOrderSource, manual, external_system, gis_review,
  ai_finding, preventive_plan, call_center, oms_event, WorkOrder, Db, Platform, unknown_form,
  duplicate_reference, Result, ok, err, Exec, write_event,
}
use campo_sig.WorkOrders.Transition.{actor_or, kind_of_actor}

-- The values of the enumerations.
unfoldable pub priority_value : Priority → String
priority_value low = "baja"
priority_value medium = "media"
priority_value high = "alta"
priority_value critical = "critica"

unfoldable pub source_value : WorkOrderSource → String
source_value manual = "manual"
source_value external_system = "sistema_ot"
source_value gis_review = "revision_sig"
source_value ai_finding = "hallazgo_ia"
source_value preventive_plan = "plan_preventivo"
source_value call_center = "call_center"
source_value oms_event = "evento_oms"

-- The arguments of `create_work_order`.
pub record NewOrder : Type 0 where
  pub work_type : String
  pub form_code : String
  pub priority : Priority
  pub source : WorkOrderSource
  pub external_ref : Option String
  pub description : Option String
  pub asset_type_key : Option String
  pub asset_code : Option String
  pub longitude : Option ℕ
  pub latitude : Option ℕ
  pub feeder_code : Option String
  pub zone : Option String
  pub sla_due_at : Option ℕ
  pub planner_id : Option String

abbrev point : Option ℕ → Option ℕ → Option (ℕ × ℕ)
point (some longitude) (some latitude) = some (longitude, latitude)
point _ _ = none

abbrev pub new_order : ℕ → ℕ → ℕ → NewOrder → WorkOrder
new_order id unit now n = record {
  id = id;
  business_unit_id = unit;
  code = none;
  source = n.source;
  external_ref = n.external_ref;
  work_type = n.work_type;
  form_code = n.form_code;
  form_version = none;
  state = if truthy n.planner_id then planned else draft;
  priority = n.priority;
  description = n.description;
  asset_type_key = n.asset_type_key;
  asset_code = n.asset_code;
  location = point n.longitude n.latitude;
  feeder_code = n.feeder_code;
  zone = n.zone;
  agency = none;
  sla_due_at = n.sla_due_at;
  planner_id = n.planner_id;
  assigned_crew_id = none;
  assigned_user_sub = none;
  parent_id = none;
  version = 1;
  outage_request_id = none;
  created_at = now;
}

-- `get_definition` finds the code.
abbrev pub has_definition : Db → String → Bool
has_definition db code = exists (λ (d : String × String). str_eq d.0 code) db.definitions

abbrev pub of_reference : ℕ → String → WorkOrder → Bool
of_reference unit external_ref o = o.business_unit_id == unit && is_text o.external_ref external_ref

abbrev pub with_reference : NewOrder → String → Option WorkOrderSource → NewOrder
with_reference n external_ref none = record n {
  external_ref = some external_ref;
  source = external_system;
}
with_reference n external_ref (some source) = record n {
  external_ref = some external_ref;
  source = source;
}

-- `uq_work_order_external_ref`: an external reference stands for one order of a unit.
unfoldable pub is_reference_taken : ℕ → Option String → Db → Bool
unfolding exists is_text
is_reference_taken unit none db = false
is_reference_taken unit (some external_ref) db = exists (of_reference unit external_ref) db.orders

module _ (platform : Platform) where
  abbrev created_event : NewOrder → WorkOrder → Entry
  created_event n order = record {
    kind = created;
    subject_type = "orden_trabajo";
    subject_id = row_id order.id;
    actor = actor_or n.planner_id "sistema:creacion";
    actor_kind = kind_of_actor n.planner_id;
    work_order_id = some order.id;
    asset_code = order.asset_code;
    device_key = none;
    payload = field "work_type" (str n.work_type) (
        field "form_code" (str n.form_code) (
          field "priority" (str (priority_value n.priority)) (
            field "source" (str (source_value n.source)) (
              field "external_ref" (opt_text n.external_ref)
                (field "state" (str (value order.state)) end)))));
    reason = none;
  }

  unfoldable pub insert_order : ℕ → NewOrder → Exec WorkOrder
  unfolding write_event
  insert_order unit n db =
      let order = new_order db.next_id unit db.now n in
      let added = record db { orders = db.orders ++ order ∷ []; next_id = suc db.next_id } in
      (ok order, write_event platform.hashing unit (created_event n order) added)

  unfoldable pub create_work_order : ℕ → NewOrder → Exec WorkOrder
  create_work_order unit n db =
      if not (has_definition db n.form_code)
      then (err (unknown_form n.form_code), db)
      else if is_reference_taken unit n.external_ref db
      then (err duplicate_reference, db)
      else insert_order unit n db

  abbrev pub with_flag : Bool → Result WorkOrder → Result (WorkOrder × Bool)
  with_flag flag (ok order) = ok (order, flag)
  with_flag flag (err e) = err e

  abbrev pub import_new : ℕ → NewOrder → Exec (WorkOrder × Bool)
  import_new unit n db = let made = create_work_order unit n db in (with_flag true made.0, made.1)

  abbrev pub import_found : ℕ → NewOrder → Option WorkOrder → Exec (WorkOrder × Bool)
  import_found unit n (some order) db = (ok (order, false), db)
  import_found unit n none db = import_new unit n db

  -- `source` is the caller's, where it gives one.
  unfoldable pub import_external :
      ℕ → String → NewOrder → Option WorkOrderSource → Exec (WorkOrder × Bool)
  import_external unit external_ref n source db =
      import_found unit (with_reference n external_ref source)
        (first (of_reference unit external_ref) db.orders) db
