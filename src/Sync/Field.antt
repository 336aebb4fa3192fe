-- ===== src/Sync/Field.antt =====
-- The states to which a device can lead an order, `_apply_transition` of
-- backend/app/sync/operations.py.
use mathlib.Core.List.{Memᴰ}
use campo_sig.Common.{
  ℕ, ◌+◌, String, true, not, ◌&&◌, ◌≡◌, refl, ◌⊎◌, inl, inr, Option, some, [], map, Bool-cases,
  Option-cases, str_eq, truthy, first-some, eq_iff,
}
use campo_sig.Common.Members.{mem-All, first-mem}
use campo_sig.Common.Strip.{strip_of}
use campo_sig.WorkOrders.State.{WorkOrderState, allowed, reason_required, value}
use campo_sig.WorkOrders.Store.{
  WorkOrder, Device, Db, Platform, Failure, invalid_transition, reason_missing, replace_order, err,
}
use campo_sig.WorkOrders.Fronts.{is_open, blocking_fronts}
use campo_sig.WorkOrders.Transition.{transition}
use campo_sig.WorkOrders.Transition.Outcome.{MayEnter, transition-Entered}
use campo_sig.Sync.Operations.{
  device_transitions, device_target, Rejection, Applied, TransitionRequest, after_transition,
  actor_of, reason_of, apply_target, apply_transition,
}

targets_open : (t : WorkOrderState) → Memᴰ t device_transitions → is_open t ≡ true
unfolding is_open
targets_open t m =
    mem-All (λ s. is_open s ≡ true) device_transitions t
      (refl, (refl, (refl, (refl, (refl, (refl, (refl, tt))))))) m

module _ (platform : Platform) (order : WorkOrder) (db : Db) where
  open_is_free :
      (target : WorkOrderState)
      → is_open target ≡ true
      → blocking_fronts platform db order target ≡ []
  unfolding blocking_fronts
  open_is_free target opens = rw opens refl

  -- A move to an open state is refused with one of the two errors that the operation catches.
  open_transition :
      (target : WorkOrderState) (reason actor : Option String) (at : Option ℕ)
      → is_open target ≡ true
      → ((e : Failure) × (transition platform order target reason actor at db ≡ (err e, db))
          × (after_transition order (err e) ≡ Applied.rejected (Rejection.refused e)))
        ⊎ MayEnter platform order target reason db
  unfolding transition
  open_transition target reason actor at opens = elim (Bool-cases (allowed order.state target)) [
    | inr stuck ↦ inl (invalid_transition order.state target, rw stuck refl, refl)
    | inl is_allowed ↦ elim (Bool-cases (reason_required target && not (truthy reason))) [
      | inl missing ↦ inl (reason_missing target, rw (is_allowed, missing) refl, refl)
      | inr has_reason ↦ inr record {
        is_allowed = is_allowed;
        has_reason = has_reason;
        is_free = open_is_free target opens;
      }
    ]
  ]

-- The order in the state that the device asked for, one of those of the field: the next version, and
-- no other row of the orders changed.
pub record Moved (platform : Platform) (device : Device) (order : WorkOrder)
    (request : TransitionRequest) (db : Db) (result : Applied (WorkOrderState × WorkOrderState))
    (after : Db) : Type 0 where
  pub target : WorkOrderState
  pub of_field : Memᴰ target device_transitions
  pub asked : value target ≡ strip_of request.target
  pub is_allowed : allowed order.state target ≡ true
  pub answer : result ≡ Applied.applied (order.state, target)
  pub orders :
      after.orders
      ≡ map (replace_order (record order { state = target; version = order.version + 1 })) db.orders

module _ (platform : Platform) (device : Device) (order : WorkOrder) (request : TransitionRequest)
    (db : Db) where
  abbrev Outcome : Applied (WorkOrderState × WorkOrderState) × Db → Type 0
  Outcome r =
      ((why : Rejection) × (r ≡ (Applied.rejected why, db)))
      ⊎ Moved platform device order request db r.0 r.1

  apply_target-Outcome :
      (target : WorkOrderState)
      → device_target (strip_of request.target) ≡ some target
      → Outcome
          (apply_target platform device order request (strip_of request.target) (some target) db)
  unfolding apply_target device_target
  apply_target-Outcome target found =
      let named =
        first-some (λ s. str_eq (value s) (strip_of request.target)) device_transitions target
          found in
      let member =
        first-mem (λ s. str_eq (value s) (strip_of request.target)) device_transitions target
          found in
      let reason = reason_of request.reason in
      let actor = some (actor_of device) in
      elim (open_transition platform order db target reason actor request.occurred_at
        (targets_open target member)) [
          | inl (e, raised, caught) ↦ inl (Rejection.refused e, rw (raised, caught) refl)
          | inr may ↦
              let entered =
                transition-Entered platform order target reason actor request.occurred_at db may in
              inr record {
                target = target;
                of_field = member;
                asked = (eq_iff (value target) (strip_of request.target)).0 named;
                is_allowed = may.is_allowed;
                answer = rw entered.returned refl;
                orders = entered.orders;
              }
        ]

  -- A device's transition is parked, with the session as it was, or it moves the order, by an allowed
  -- move, to the state that the device asked for, which is one of those of the field. No exception
  -- leaves it.
  pub apply_transition_field : Outcome (apply_transition platform device order request db)
  unfolding apply_transition
  apply_transition_field = elim (Bool-cases (str_eq (strip_of request.target) "")) [
    | inl t ↦ inl (Rejection.no_target, rw t refl)
    | inr f ↦ elim (Option-cases (device_target (strip_of request.target))) [
      | inl unknown ↦ inl (
        Rejection.office_target (strip_of request.target),
        unfold apply_target in rw (f, unknown) refl,
      )
      | inr (target, found) ↦ rw (f, found) (apply_target-Outcome target found)
    ]
  ]
