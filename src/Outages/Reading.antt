-- ===== src/Outages/Reading.antt =====
-- The functions of backend/app/outages/service.py that read the permit and the window.
use campo_sig.Common.{
  ℕ, String, Bool, true, false, not, ◌-◌, ◌/◌, Option, none, some, ◌==◌, if◌then◌else◌, str_eq,
  first, truthy, ltb,
}
use campo_sig.WorkOrders.Store.{WorkOrder}
use campo_sig.Outages.Rows.{Desk, OutageRequest, OutageState, approved, returned}

-- `session.get(OutageRequest, id)`
unfoldable pub request_at : Option ℕ → Desk → Option OutageRequest
unfolding first
request_at none desk = none
request_at (some id) desk = first (λ (r : OutageRequest). r.id == id) desk.requests

unfoldable pub outage_of : WorkOrder → Desk → Option OutageRequest
unfolding request_at
outage_of order desk = request_at order.outage_request_id desk

abbrev pub permit_form : String
permit_form = "F-TR-02"

-- Why the permit cannot be filled.
pub data Blocker : Type 0 where
  no_outage : Blocker
  no_number : OutageState → Blocker
  not_in_force : Option String → OutageState → Blocker

abbrev pub is_in_force : OutageState → Bool
is_in_force s = elim s [ approved ↦ true | returned ↦ true | _ ↦ false ]

unfoldable pub blocker_of : Option OutageRequest → Option Blocker
blocker_of none = some no_outage
blocker_of (some request) =
    if not (truthy request.number)
    then some (no_number request.state)
    else if is_in_force request.state
    then none
    else some (not_in_force request.number request.state)

unfoldable pub permit_blocker : WorkOrder → String → Desk → Option Blocker
unfolding blocker_of outage_of
permit_blocker order form_code desk =
    if str_eq form_code permit_form then blocker_of (outage_of order desk) else none

-- `WindowCheck`, without the sentence that it shows.
pub record WindowCheck : Type 0 where
  pub inside : Bool
  pub minutes_early : ℕ
  pub minutes_late : ℕ

unfoldable pub window_check : OutageRequest → ℕ → WindowCheck
window_check request at =
    if ltb at request.window_start
    then record {
      inside = false;
      minutes_early = (request.window_start - at) / 60000000;
      minutes_late = 0;
    }
    else if ltb request.window_end at
    then record {
      inside = false;
      minutes_early = 0;
      minutes_late = (at - request.window_end) / 60000000;
    }
    else record { inside = true; minutes_early = 0; minutes_late = 0 }
