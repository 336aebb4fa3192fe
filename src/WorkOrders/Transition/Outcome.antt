-- ===== src/WorkOrders/Transition/Outcome.antt =====
-- What `transition` of workorders/service.py does, on every branch.
use campo_sig.Common.{
  ℕ, ◌+◌, ◌≤◌, String, ◌≡◌, ◌≢◌, refl, ◌⊎◌, inl, inr, ◌↔◌, true, false, not, Option, none, some,
  List, [], ◌∷◌, map, arith, Bool-cases, ◌&&◌, truthy,
}
use campo_sig.Audit.{append_event}
use campo_sig.WorkOrders.State.{
  WorkOrderState, Milestone, allowed, reason_required, milestone_of_state,
}
use campo_sig.WorkOrders.Store.{
  WorkOrder, Db, Platform, Failure, invalid_transition, reason_missing, open_fronts, Result, ok,
  err, replace_order, succeeded, put_order, write_event,
}
use campo_sig.WorkOrders.Fronts.{blocking_fronts}
use campo_sig.WorkOrders.Transition.{
  enter, unless_blocked, transition, transition_event, record_milestone_of,
}

-- The guards of `transition`: the move is in the table, a reason is stated where one is due, and no
-- front blocks it.
pub record MayEnter (platform : Platform) (order : WorkOrder) (target : WorkOrderState)
    (reason : Option String) (db : Db) : Type 0 where
  pub is_allowed : allowed order.state target ≡ true
  pub has_reason : (reason_required target && not (truthy reason)) ≡ false
  pub is_free : blocking_fronts platform db order target ≡ []

module _ (platform : Platform) (order : WorkOrder) (target : WorkOrderState)
    (reason actor : Option String) (at : Option ℕ) (db : Db) where
  blocked_cases :
      (codes : List String)
      → ((e : Failure) × (unless_blocked platform codes order target reason actor at db
            ≡ (err e, db))
          × (codes ≢ []))
        ⊎ (codes ≡ [])
          × (unless_blocked platform codes order target reason actor at db
              ≡ enter platform order target reason actor at db)
  blocked_cases [] = inr (refl, refl)
  blocked_cases (c ∷ cs) = inl (open_fronts (c ∷ cs), refl, λ h. cc)

  -- `transition` raises and changes nothing, or its guards hold and it makes its writes.
  pub transition_cases :
      ((e : Failure) × (transition platform order target reason actor at db ≡ (err e, db))
        × ¬ MayEnter platform order target reason db)
      ⊎ MayEnter platform order target reason db
        × (transition platform order target reason actor at db
            ≡ enter platform order target reason actor at db)
  unfolding transition
  transition_cases = elim (Bool-cases (allowed order.state target)) [
    | inr refused ↦ inl (invalid_transition order.state target, rw refused, λ m. cc (m.is_allowed))
    | inl is_allowed ↦ elim (Bool-cases (reason_required target && not (truthy reason))) [
      | inl missing ↦ inl (reason_missing target, rw (is_allowed, missing), λ m. cc (m.has_reason))
      | inr has_reason ↦ elim (blocked_cases (blocking_fronts platform db order target)) [
        | inl (e, raised, some_front) ↦
            inl (e, rw (is_allowed, has_reason) raised, λ m. some_front m.is_free)
        | inr (is_free, entered) ↦ inr (
          record { is_allowed = is_allowed; has_reason = has_reason; is_free = is_free },
          rw (is_allowed, has_reason) entered,
        )
      ]
    ]
  ]

  abbrev pub moved : WorkOrder
  moved = record order { state = target; version = order.version + 1 }

  -- What `transition` leaves in the session when it returns.
  pub record Entered (result : Result WorkOrder) (after : Db) : Type 0 where
    pub returned : result ≡ ok moved
    pub orders : after.orders ≡ map (replace_order moved) db.orders
    pub trail :
        after.trail
        ≡ append_event platform.hashing order.business_unit_id db.now
            (transition_event platform order moved reason actor at)
            db.trail
    pub milestones :
        after.milestones
        ≡ (record_milestone_of moved (milestone_of_state target) at actor db).milestones
    pub custody : after.custody ≡ db.custody
    pub operations : after.operations ≡ db.operations
    pub next_id : db.next_id ≤ after.next_id

  record_milestone_frame :
      (m : Option Milestone) (written : Db)
      → ((record_milestone_of moved m at actor written).orders ≡ written.orders)
        × ((record_milestone_of moved m at actor written).trail ≡ written.trail)
        × ((record_milestone_of moved m at actor written).custody ≡ written.custody)
        × ((record_milestone_of moved m at actor written).operations ≡ written.operations)
        × (written.next_id ≤ (record_milestone_of moved m at actor written).next_id)
  unfolding record_milestone_of
  record_milestone_frame none written = (refl, refl, refl, refl, omega arith)
  record_milestone_frame (some m) written = ground arith

  record_milestone_local :
      (m : Option Milestone) (u v : Db)
      → u.milestones ≡ v.milestones
      → u.now ≡ v.now
      → u.next_id ≡ v.next_id
      → (record_milestone_of moved m at actor u).milestones
        ≡ (record_milestone_of moved m at actor v).milestones
  unfolding record_milestone_of
  record_milestone_local none u v e t n = e
  record_milestone_local (some m) u v e t n = ground arith

  abbrev written : Db
  unfolding put_order write_event
  written =
      write_event platform.hashing order.business_unit_id
        (transition_event platform order moved reason actor at) (put_order moved db)

  enter-Entered :
      Entered
        (enter platform order target reason actor at db).0
        (enter platform order target reason actor at db).1
  unfolding enter
  enter-Entered =
      let frame = record_milestone_frame (milestone_of_state target) written in
      record {
        returned = refl;
        orders = frame.0;
        trail = frame.1;
        milestones = record_milestone_local (milestone_of_state target) written db refl refl refl;
        custody = frame.2;
        operations = frame.3;
        next_id = frame.4;
      }

  -- Where the guards hold, `transition` returns the order in its new state with the next version,
  -- writes that row and no other, adds one event to the trail, and touches no custody.
  pub transition-Entered :
      MayEnter platform order target reason db
      → Entered
          (transition platform order target reason actor at db).0
          (transition platform order target reason actor at db).1
  transition-Entered may = elim transition_cases [
    | inl (e, raised, refused) ↦ absurd (refused may)
    | inr (_, entered) ↦ rw entered enter-Entered
  ]

  -- `transition` returns exactly when its guards hold, and where it raises, the session is as it
  -- was.
  pub transition_atomic :
      ((succeeded (transition platform order target reason actor at db).0 ≡ true)
        ↔ MayEnter platform order target reason db)
      × ((e : Failure)
          → (transition platform order target reason actor at db).0 ≡ err e
          → (transition platform order target reason actor at db).1 ≡ db)
  transition_atomic = elim transition_cases [
    | inl (e, raised, refused) ↦ rw raised (((λ h. cc), (λ may. absurd (refused may))), λ f h. refl)
    | inr (may, entered) ↦
        let done = enter-Entered in
        rw entered (((λ h. may), (λ h. rw (done.returned) refl)), λ f h. cc (done.returned, h))
  ]
