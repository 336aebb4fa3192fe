-- ===== src/WorkOrders/Custody/Many.antt =====
-- `assign_many` of backend/app/workorders/service.py: the assignment of a selection of the map.
use campo_sig.Common.{
  ℕ, Bool, true, false, not, ◌&&◌, Option, none, some, String, List, [], ◌∷◌, ◌++◌, map, ◌==◌,
  if◌then◌else◌, exists, select,
}
use campo_sig.WorkOrders.Store.{
  WorkOrder, Crew, Db, Platform, Failure, not_assignable, cross_unit, Result, ok, err, Exec,
}
use campo_sig.WorkOrders.Custody.{Assignment, assign}

-- Why an order of the selection was not assigned: it is not there, or `assign` refused it.
pub data Refusal : Type 0 where
  missing : Refusal
  refused : Failure → Refusal

pub record Outcome : Type 0 where
  pub assigned : List WorkOrder
  pub failures : List (ℕ × Refusal)

-- The exceptions that `assign_many` catches.
unfoldable pub is_caught : Failure → Bool
is_caught (not_assignable s) = true
is_caught cross_unit = true
is_caught _ = false

abbrev pub selection : Crew → Option String → Option String → Assignment
selection crew reason granted_by = record {
  crew = some crew;
  user_sub = none;
  device_id = none;
  expected_version = none;
  reason = reason;
  granted_by = granted_by;
}

-- `missing not in found`
abbrev pub not_found : List WorkOrder → List ℕ → List ℕ
not_found orders ids = select (λ id. not (exists (λ (o : WorkOrder). o.id == id) orders)) ids

module _ (platform : Platform) where
  abbrev pub with_assigned : WorkOrder → Result Outcome → Result Outcome
  with_assigned order (ok out) = ok (record out { assigned = order ∷ out.assigned })
  with_assigned order (err e) = err e

  abbrev pub with_failure : ℕ → Failure → Result Outcome → Result Outcome
  with_failure id e (ok out) = ok (record out { failures = (id, refused e) ∷ out.failures })
  with_failure id e (err f) = err f

  -- What becomes of an order: `rest` are the later ones.
  abbrev pub after_one :
      WorkOrder → Result WorkOrder → Db → Result Outcome × Db → Result Outcome × Db
  after_one order (ok held) db rest = (with_assigned held rest.0, rest.1)
  after_one order (err e) db rest =
      if is_caught e then (with_failure order.id e rest.0, rest.1) else (err e, db)

  unfoldable pub assign_each : List WorkOrder → Assignment → Exec Outcome
  unfolding assign is_caught
  assign_each [] a db = (ok record { assigned = []; failures = [] }, db)
  assign_each (order ∷ orders) a db =
      let made = assign platform order a db in
      after_one order made.0 made.1 (assign_each orders a made.1)

  abbrev pub with_missing : List ℕ → Result Outcome × Db → Result Outcome × Db
  with_missing ids (ok out, db) =
      (ok (record out { failures = map (λ id. (id, missing)) ids ++ out.failures }), db)
  with_missing ids (err e, db) = (err e, db)

  abbrev pub selected : (WorkOrder → Bool) → ℕ → List ℕ → Db → List WorkOrder
  selected scope unit ids db =
      select
        (λ (o : WorkOrder).
          o.business_unit_id == unit && (exists (λ id. o.id == id) ids && scope o))
        db.orders

  -- `scope` is the condition of the person's part of the unit.
  unfoldable pub assign_many :
      (WorkOrder → Bool) → ℕ → List ℕ → Crew → Option String → Option String → Exec Outcome
  unfolding assign_each exists select
  assign_many scope unit ids crew reason granted_by db =
      let orders = selected scope unit ids db in
      if not (crew.business_unit_id == unit)
      then (err cross_unit, db)
      else with_missing (not_found orders ids)
          (assign_each orders (selection crew reason granted_by) db)
