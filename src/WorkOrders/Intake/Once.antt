-- ===== src/WorkOrders/Intake/Once.antt =====
-- What the import of an order promises: `import_external` of backend/app/workorders/service.py.
use campo_sig.Common.{ℕ, String, ◌≡◌, Bool, Option, some, first}
use campo_sig.WorkOrders.Store.{WorkOrder, Db, Platform, Failure, Result, ok, err}
use campo_sig.WorkOrders.Intake.{of_reference}

module _ (platform : Platform) (unit : ℕ) (external_ref : String) where
  abbrev found_in : Db → Option WorkOrder
  found_in db = first (of_reference unit external_ref) db.orders

  -- An import fails and writes nothing, or it returns the order that the reference finds from then on.
  data Outcome (db : Db) (r : Result (WorkOrder × Bool) × Db) : Type 0 where
    failed : (e : Failure) → r ≡ (err e, db) → Outcome db r
    returned :
        (order : WorkOrder) (fresh : Bool)
        → r.0 ≡ ok (order, fresh)
        → found_in r.1 ≡ some order
        → Outcome db r
