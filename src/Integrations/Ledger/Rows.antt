-- ===== src/Integrations/Ledger/Rows.antt =====
-- The rows of backend/app/integrations/models.py and how they are written. Times are in
-- microseconds.
use campo_sig.Common.{ℕ, suc, String, Bool, true, false, Option, List, [], ◌∷◌, ◌++◌, map}
use campo_sig.Common.Keyed.{replace}
use campo_sig.Common.Json.{Fields}

pub data Direction : Type 0 where
  inbound outbound : Direction

pub data EventStatus : Type 0 where
  pending delivered failed abandoned : EventStatus

-- Connectors and kinds of events are texts in the rows.
pub data Connector : Type 0 where
  work_order_system call_centre gis erp oms : Connector

unfoldable pub connector_value : Connector → String
connector_value work_order_system = "sistema_ot"
connector_value call_centre = "call_center"
connector_value gis = "arcgis"
connector_value erp = "erp"
connector_value oms = "oms"

pub record IntegrationEvent : Type 0 where
  pub id : ℕ
  pub business_unit_id : ℕ
  pub connector : String
  pub direction : Direction
  pub kind : String
  pub status : EventStatus
  pub idempotency_key : String
  pub payload : Fields
  pub response : Option Fields
  pub work_order_id : Option ℕ
  pub external_ref : Option String
  pub attempts : ℕ
  pub last_error : Option String
  pub next_attempt_at : Option ℕ
  pub created_at : ℕ
  pub delivered_at : Option ℕ

pub record Ledger : Type 0 where
  pub now : ℕ
  pub next_id : ℕ
  pub events : List IntegrationEvent

abbrev pub event_id : IntegrationEvent → ℕ
event_id e = e.id

-- The row of an event that was changed, as the flush writes it.
unfoldable pub put_event : IntegrationEvent → Ledger → Ledger
put_event event db = record db { events = map (replace event_id event) db.events }

-- `session.add` with a fresh row.
unfoldable pub add_event : IntegrationEvent → Ledger → Ledger
add_event event db = record db { events = db.events ++ event ∷ []; next_id = suc db.next_id }

abbrev pub is_direction : Direction → Direction → Bool
is_direction inbound inbound = true
is_direction outbound outbound = true
is_direction inbound outbound = false
is_direction outbound inbound = false

abbrev pub is_pending : EventStatus → Bool
is_pending pending = true
is_pending delivered = false
is_pending failed = false
is_pending abandoned = false

abbrev pub is_delivered : EventStatus → Bool
is_delivered delivered = true
is_delivered pending = false
is_delivered failed = false
is_delivered abandoned = false
