-- ===== src/Outages/Rows.antt =====
-- The rows of backend/app/outages/models.py and what the calls of service.py make of one. Moments are
-- microseconds of UTC.
use campo_sig.Common.{
  ℕ, String, Bool, true, false, not, ◌&&◌, Option, none, some, List, map, ◌==◌, if◌then◌else◌,
  exists, truthy, is_text, ltb,
}
use campo_sig.Common.Strip.{strip}
use campo_sig.Common.Keyed.{replace}
use campo_sig.WorkOrders.Store.{Db}

pub data OutageState : Type 0 where
  requested approved rejected expired returned : OutageState

unfoldable pub state_value : OutageState → String
state_value requested = "solicitada"
state_value approved = "aprobada"
state_value rejected = "rechazada"
state_value expired = "vencida"
state_value returned = "devuelta"

abbrev pub is_requested : OutageState → Bool
is_requested s = elim s [ requested ↦ true | _ ↦ false ]

abbrev pub is_approved : OutageState → Bool
is_approved s = elim s [ approved ↦ true | _ ↦ false ]

pub record OutageRequest : Type 0 where
  pub id : ℕ
  pub business_unit_id : ℕ
  pub number : Option String
  pub state : OutageState
  pub equipment : String
  pub feeder_code : Option String
  pub substation_code : Option String
  pub window_start : ℕ
  pub window_end : ℕ
  pub requested_by : String
  pub decided_by : Option String
  pub decided_at : Option ℕ
  pub note : Option String
  pub returned_at : Option ℕ
  pub returned_by : Option String

-- `OutageRequest.grants_permit`
abbrev pub grants_permit : OutageRequest → Bool
grants_permit request = is_approved request.state && truthy request.number

-- The session: that of the work orders with the table of the requests.
pub record Desk : Type 0 where
  pub db : Db
  pub requests : List OutageRequest

-- `OutageError`, with `NotDecidableError` and `SelfApprovalError`, and the violation of the unique
-- numbers of a unit, which rolls the session back.
pub data OutageError : Type 0 where
  window_reversed without_equipment without_number without_reason self_approval : OutageError
  already_decided not_granted : OutageState → OutageError
  number_taken other_unit not_linked : OutageError

pub data Outcome {ℓ} (A : Type ℓ) : Type ℓ where
  done : A → Outcome A
  refused : OutageError → Outcome A

abbrev pub Call : Type 0 → Type 0
Call A = Desk → Outcome A × Desk

abbrev pub request_id : OutageRequest → ℕ
request_id request = request.id

unfoldable pub put_request : OutageRequest → Desk → Desk
put_request new desk = record desk { requests = map (replace request_id new) desk.requests }

-- The arguments of `request_outage`.
pub record Asked : Type 0 where
  pub equipment : String
  pub window_start : ℕ
  pub window_end : ℕ
  pub requested_by : String
  pub feeder_code : Option String
  pub substation_code : Option String
  pub note : Option String

abbrev pub new_request : ℕ → ℕ → Asked → OutageRequest
new_request id unit asked = record {
  id = id;
  business_unit_id = unit;
  number = none;
  state = requested;
  equipment = strip asked.equipment;
  feeder_code = asked.feeder_code;
  substation_code = asked.substation_code;
  window_start = asked.window_start;
  window_end = asked.window_end;
  requested_by = asked.requested_by;
  decided_by = none;
  decided_at = none;
  note = asked.note;
  returned_at = none;
  returned_by = none;
}

-- `uq_outage_request_number`: another row of the unit has the number.
unfoldable pub is_taken : OutageRequest → String → Desk → Bool
unfolding exists
is_taken request number desk =
    exists
      (λ (r : OutageRequest).
        not (r.id == request.id)
        && (r.business_unit_id == request.business_unit_id && is_text r.number number))
      desk.requests

abbrev pub as_approved : String → String → Option String → ℕ → OutageRequest → OutageRequest
as_approved number decided_by note now request = record request {
  number = some (strip number);
  state = approved;
  decided_by = some decided_by;
  decided_at = some now;
  note = if truthy note then note else request.note;
}

abbrev pub as_rejected : String → String → ℕ → OutageRequest → OutageRequest
as_rejected decided_by note now request = record request {
  state = rejected;
  decided_by = some decided_by;
  decided_at = some now;
  note = some (strip note);
}

abbrev pub moment_or : Option ℕ → ℕ → ℕ
moment_or none now = now
moment_or (some at) now = at

abbrev pub as_returned : String → ℕ → OutageRequest → OutageRequest
as_returned returned_by at request = record request {
  state = returned;
  returned_at = some at;
  returned_by = some returned_by;
}

abbrev pub as_expired : OutageRequest → OutageRequest
as_expired request = record request { state = expired }

abbrev pub is_overdue : ℕ → ℕ → OutageRequest → Bool
is_overdue unit moment request =
    request.business_unit_id == unit && (is_approved request.state && ltb request.window_end moment)
