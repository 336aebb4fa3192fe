-- ===== src/WorkOrders/Sound/Each.antt =====
-- An order that `assign_many` of backend/app/workorders/service.py came to: assigned, refused, or left
-- as it was.
use mathlib.Core.List.{Memᴰ, Forall₂}
use campo_sig.Common.{
  ℕ, ◌+◌, String, Option, ◌≡◌, ◌≢◌, refl, sym, ap, ◌∙◌, inl, inr, Bool, true, false, none, List, [],
  ◌∷◌,
}
use campo_sig.Common.Members.{mem-All, mem-append_left}
use campo_sig.Common.Keyed.{put_kept}
use campo_sig.WorkOrders.Store.{
  WorkOrder, DeviceCustody, Db, Platform, Failure, unknown_form, Result, ok, err,
}
use campo_sig.WorkOrders.State.{assigned}
use campo_sig.WorkOrders.Own.{OwnRows}
use campo_sig.WorkOrders.Custody.{Assignment, assign, crew_id_of}
use campo_sig.WorkOrders.Custody.Chain.{IsCustody}
use campo_sig.WorkOrders.Custody.Ending.{Earlier}
use campo_sig.WorkOrders.Custody.Outcome.{MayAssign, Handover, Ends, assign_cases, assign_writes}
use campo_sig.WorkOrders.Custody.Many.{Refusal, refused, Outcome, is_caught}

abbrev pub order_row : WorkOrder → ℕ
order_row order = order.id

-- A row of another order is still there behind the end of a custody.
earlier_kept :
    (order_id now : ℕ) (reason : Option String) (xs ys : List DeviceCustody) (row : DeviceCustody)
    → Earlier order_id now reason xs ys
    → Memᴰ row xs
    → row.work_order_id ≢ order_id
    → Memᴰ row ys
earlier_kept order_id now reason [] ys row e m other = elim m [ ]
earlier_kept order_id now reason (x ∷ xs) [] row e m other = elim e [ ]
earlier_kept order_id now reason (x ∷ xs) (y ∷ ys) row (Forall₂.cons s e) (Memᴰ.head h) other =
    let away : x.work_order_id ≢ order_id = rw h at other in Memᴰ.head (h ∙ sym (s.elsewhere away))
earlier_kept order_id now reason (x ∷ xs) (y ∷ ys) row (Forall₂.cons s e) (Memᴰ.tail m) other =
    Memᴰ.tail (earlier_kept order_id now reason xs ys row e m other)

-- An open custody of an order for the crew of the assignment.
pub record Opened (a : Assignment) (order_id : ℕ) (rows : List DeviceCustody) : Type 0 where
  pub row : DeviceCustody
  pub stored : Memᴰ row rows
  pub of_order : row.work_order_id ≡ order_id
  pub is_open : row.until ≡ none
  pub crew : row.crew_id ≡ crew_id_of a.crew
  pub granted_by : row.granted_by ≡ a.granted_by

-- An order that was assigned: its guards held, and it is stored as the answer shows it.
pub record Assigned (a : Assignment) (order held : WorkOrder) (after : Db) : Type 0 where
  pub may : MayAssign order a
  pub same_id : held.id ≡ order.id
  pub in_state : held.state ≡ assigned
  pub next_version : held.version ≡ order.version + 1
  pub crew : held.assigned_crew_id ≡ crew_id_of a.crew
  pub stored : Memᴰ held after.orders
  pub custody : Opened a order.id after.custody

-- An order that was refused: one of its guards did not hold, and it is stored as it was.
pub record Refused (a : Assignment) (order : WorkOrder) (after : Db) : Type 0 where
  pub may_not : ¬ MayAssign order a
  pub stored : Memᴰ order after.orders

pub record Each (orders : List WorkOrder) (a : Assignment) (db : Db) (out : Outcome) (after : Db)
    : Type 0 where
  pub assigned :
      (held : WorkOrder)
      → Memᴰ held out.assigned
      → (order : WorkOrder) × Memᴰ order orders × Assigned a order held after
  pub failures :
      (id : ℕ) (r : Refusal)
      → Memᴰ (id, r) out.failures
      → (order : WorkOrder) × Memᴰ order orders
        × (order.id ≡ id)
        × Refused a order after
        × ((e : Failure) × (r ≡ refused e))
  pub others :
      (o : WorkOrder)
      → Memᴰ o db.orders
      → ((x : WorkOrder) → Memᴰ x orders → o.id ≢ x.id)
      → Memᴰ o after.orders
  pub custodies :
      (row : DeviceCustody)
      → Memᴰ row db.custody
      → ((x : WorkOrder) → Memᴰ x orders → row.work_order_id ≢ x.id)
      → Memᴰ row after.custody

module _ (platform : Platform) where
  pub assign-other :
      (order : WorkOrder) (a : Assignment) (db : Db) (o : WorkOrder)
      → IsCustody db.custody db.next_id
      → Memᴰ o db.orders
      → o.id ≢ order.id
      → Memᴰ o (assign platform order a db).1.orders
  assign-other order a db o chain m other = elim (assign_cases platform order a db) [
    | inl (e, raised, _) ↦ rw raised m
    | inr (may, _) ↦
        let (held, opened, ends, left) = assign_writes platform order a db chain may in
        rw left.orders (
          put_kept (λ (x : WorkOrder). x.id) db.orders held o m
            (λ h. other (h ∙ left.handed.same_id)))
  ]

  pub assign-other_custody :
      (order held : WorkOrder) (a : Assignment) (db after : Db) (row : DeviceCustody)
      → Handover platform order a db held true after
      → Memᴰ row db.custody
      → row.work_order_id ≢ order.id
      → Memᴰ row after.custody
  assign-other_custody order held a db after row left m away =
      let (rows, e, earlier, _) = left.custody refl in
      rw e (
        mem-append_left rows _ row
          (earlier_kept order.id db.now a.reason db.custody rows row earlier m away))

  -- The later orders are still stored, as they were.
  pub still_stored :
      (order : WorkOrder) (orders : List WorkOrder) (a : Assignment) (db : Db)
      → OwnRows (order ∷ orders)
      → IsCustody db.custody db.next_id
      → ((o : WorkOrder) → Memᴰ o (order ∷ orders) → Memᴰ o db.orders)
      → (o : WorkOrder) → Memᴰ o orders
      → Memᴰ o (assign platform order a db).1.orders
  still_stored order orders a db own chain inside o m =
      assign-other order a db o chain (inside o (Memᴰ.tail m))
        (λ h. mem-All (λ (y : WorkOrder). order.id ≢ y.id) orders o own.0 m (sym h))

  pub returned-MayAssign :
      (order held : WorkOrder) (a : Assignment) (db : Db)
      → (assign platform order a db).0 ≡ ok held
      → MayAssign order a
  returned-MayAssign order held a db returned = elim (assign_cases platform order a db) [
    | inl (e, raised, _) ↦ cc (ap (λ (r : Result WorkOrder × Db). r.0) raised, returned)
    | inr (may, _) ↦ may
  ]

  -- An exception that the loop catches leaves the session as it was.
  pub caught_unchanged :
      (order : WorkOrder) (a : Assignment) (db : Db) (e : Failure)
      → IsCustody db.custody db.next_id
      → (assign platform order a db).0 ≡ err e
      → is_caught e ≡ true
      → (¬ MayAssign order a) × ((assign platform order a db).1 ≡ db)
  unfolding is_caught
  caught_unchanged order a db e chain raised caught = elim (assign_cases platform order a db) [
    | inl (e', r, may_not) ↦ (may_not, ap (λ (r : Result WorkOrder × Db). r.1) r)
    | inr (may, _) ↦ absurd (written (assign_writes platform order a db chain may))
  ]
    where
      written :
          (held : WorkOrder) × (opened : Bool) × Ends platform order a db
              (assign platform order a db).0
              held
              opened
            × Handover platform order a db held opened (assign platform order a db).1
          → ⊥
      written (held, true, ends, left) = cc (ends, raised)
      written (held, false, ends, left) =
          let same : e ≡ unknown_form order.form_code = cc (ends, raised) in cc (rw same at caught)
