-- ===== src/Sync/Operations.antt =====
-- What a device may do to an order: the transitions and the corrections of
-- backend/app/sync/operations.py. The texts of a payload come as the code reads them, `str(...)`
-- and `_time(...)`.
use campo_sig.Common.{
  ℕ, String, Bool, true, false, Option, none, some, List, [], ◌∷◌, if◌then◌else◌, str_eq, first,
  truthy,
}
use campo_sig.Common.Strip.{strip_of}
use campo_sig.WorkOrders.State.{
  WorkOrderState, downloaded, en_route, on_site, in_execution, suspended, closed_field, synced,
  value,
}
use campo_sig.WorkOrders.Store.{
  WorkOrder, WorkOrderMilestone, Device, Db, Platform, Failure, Result, ok, err, invalid_transition,
  reason_missing,
}
use campo_sig.WorkOrders.Transition.{transition}
use campo_sig.WorkOrders.Times.{correct_milestone, is_milestone_error}

-- `DEVICE_TRANSITIONS`
abbrev pub device_transitions : List WorkOrderState
device_transitions =
    downloaded ∷ en_route ∷ on_site ∷ in_execution ∷ suspended ∷ closed_field ∷ synced ∷ []

pub data Rejection : Type 0 where
  no_target no_time : Rejection
  office_target : String → Rejection
  refused : Failure → Rejection

-- An operation is applied, parked by the device with the reason, or stopped by an exception that is
-- no `OperationRejectedError`: one of the services', or the `AttributeError` of a value that has not
-- the method which the code calls.
pub data Applied (A : Type 0) : Type 0 where
  no_attribute : Applied A
  applied : A → Applied A
  rejected : Rejection → Applied A
  escaped : Failure → Applied A

abbrev named : Option String → String → String
named none key = key
named (some sub) key = if truthy (some sub) then sub else key

-- `device.user_sub or device.device_key`
unfoldable pub actor_of : Device → String
unfolding truthy
actor_of device = named device.user_sub device.device_key

pub record TransitionRequest : Type 0 where
  pub target : Option String
  pub reason : Option String
  pub occurred_at : Option ℕ

-- The member of the set with a text as its value.
unfoldable pub device_target : String → Option WorkOrderState
unfolding first value
device_target text = first (λ s. str_eq (value s) text) device_transitions

-- `except (InvalidTransitionError, ReasonRequiredError)`
abbrev pub after_transition :
    WorkOrder → Result WorkOrder → Applied (WorkOrderState × WorkOrderState)
after_transition order (ok order') = Applied.applied (order.state, order'.state)
after_transition order (err (invalid_transition s t)) =
    Applied.rejected (Rejection.refused (invalid_transition s t))
after_transition order (err (reason_missing s)) =
    Applied.rejected (Rejection.refused (reason_missing s))
after_transition order (err e) = Applied.escaped e

abbrev pub reason_of : Option String → Option String
reason_of reason = if truthy reason then reason else none

-- `payload.get("reason")`, which the code passes on as the JSON has it: nothing or null, a text, or
-- another value, of which only its truth is read.
pub data RawReason : Type 0 where
  not_given : RawReason
  given : String → RawReason
  not_text : Bool → RawReason

-- The time as `_time` reads it, with whether it has a time zone.
pub record CorrectionRequest : Type 0 where
  pub milestone : String
  pub corrected_time : Option (ℕ × Bool)
  pub reason : RawReason

-- The reason as `not reason or not reason.strip()` takes it, if that does not raise.
abbrev pub readable : RawReason → Option (Option String)
readable not_given = some none
readable (given s) = some (some s)
readable (not_text false) = some none
readable (not_text true) = none

module _ (platform : Platform) where
  unfoldable pub apply_target :
      Device
      → WorkOrder
      → TransitionRequest
      → String
      → Option WorkOrderState
      → Db
      → Applied (WorkOrderState × WorkOrderState) × Db
  unfolding transition actor_of
  apply_target device order request text none db =
      (Applied.rejected (Rejection.office_target text), db)
  apply_target device order request text (some target) db =
      let (result, db') =
        transition platform order target (reason_of request.reason) (some (actor_of device))
          request.occurred_at db in
      (after_transition order result, db')

  -- `_apply_transition`
  unfoldable pub apply_transition :
      Device → WorkOrder → TransitionRequest → Db → Applied (WorkOrderState × WorkOrderState) × Db
  unfolding apply_target device_target
  apply_transition device order request db =
      let text = strip_of request.target in
      if str_eq text ""
      then (Applied.rejected Rejection.no_target, db)
      else apply_target device order request text (device_target text) db

  -- `except MilestoneError`
  unfoldable pub after_correction : Result WorkOrderMilestone → Applied WorkOrderMilestone
  unfolding is_milestone_error
  after_correction (ok row) = Applied.applied row
  after_correction (err e) =
      if is_milestone_error e then Applied.rejected (Rejection.refused e) else Applied.escaped e

  unfoldable pub correct_for :
      Device
      → WorkOrder
      → String
      → ℕ × Bool
      → Option (Option String)
      → Db
      → Applied WorkOrderMilestone × Db
  unfolding correct_milestone actor_of after_correction
  correct_for device order milestone time none db = (Applied.no_attribute, db)
  correct_for device order milestone (at, aware) (some reason) db =
      let (result, db') =
        correct_milestone platform order milestone aware at reason (actor_of device) db in
      (after_correction result, db')

  unfoldable pub apply_time :
      Device
      → WorkOrder
      → CorrectionRequest
      → Option (ℕ × Bool)
      → Db
      → Applied WorkOrderMilestone × Db
  unfolding correct_for
  apply_time device order request none db = (Applied.rejected Rejection.no_time, db)
  apply_time device order request (some time) db =
      correct_for device order request.milestone time (readable request.reason) db

  -- `_apply_time_correction`
  unfoldable pub apply_time_correction :
      Device → WorkOrder → CorrectionRequest → Db → Applied WorkOrderMilestone × Db
  unfolding apply_time
  apply_time_correction device order request db =
      apply_time device order request request.corrected_time db
