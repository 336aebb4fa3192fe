-- ===== src/Sync/Replays.antt =====
-- A push that is delivered again, however late: `push_operation` of backend/app/sync/service.py.
use campo_sig.Common.{
  ℕ, String, Bool, true, false, ◌≡◌, refl, ◌∙◌, ◌⊎◌, inl, inr, Option, some, Bool-cases,
  Option-cases, first, List, [], ◌∷◌, ◌++◌, arith,
}
use campo_sig.WorkOrders.Store.{
  Crew, Device, SyncOperationLog, Db, Platform, ok, succeeded, write_event,
}
use campo_sig.Sync.Devices.{
  Push, is_operation, already_processed, log_entry, write_entry, push_operation, put_device,
  find_device, Enrolment, enrol_device, enrol_over, block_device, assign_device_to_crew,
}
use campo_sig.Sync.Once.{Outcome, push_cases, returned_entry, replayed}

-- What may come between two deliveries: any pushes, enrolments, blocks and crews of any devices, and
-- time.
pub data Later (platform : Platform) (start : Db) : Db → Type 0 where
  at_once : Later platform start start
  pushes :
      {db : Db} (device : Device) (push : Push)
      → Later platform start db
      → Later platform start (push_operation platform device push db).1
  enrols :
      {db : Db} (unit : ℕ) (request : Enrolment)
      → Later platform start db
      → Later platform start (enrol_device unit request db).1
  blocks :
      {db : Db} (device : Device) (reason : String)
      → Later platform start db
      → Later platform start (block_device device reason db).1
  joins :
      {db : Db} (unit : ℕ) (device : Device) (crew : Option Crew) (actor : String)
      → Later platform start db
      → Later platform start (assign_device_to_crew platform unit device crew actor db).1
  ticks :
      {db : Db} (now : ℕ) → Later platform start db → Later platform start (record db { now = now })

first_kept :
    (p : SyncOperationLog → Bool) (xs : List SyncOperationLog) (x op : SyncOperationLog)
    → first p xs ≡ some op
    → first p (xs ++ x ∷ []) ≡ some op
unfolding first
first_kept p [] x op h = cc
first_kept p (y ∷ xs) x op h = elim (Bool-cases (p y)) [
  | inl t ↦ let e : some y ≡ some op = rw t at h in rw t e
  | inr f ↦ let e : first p xs ≡ some op = rw f at h in rw f (first_kept p xs x op e)
]

-- A push keeps the entries of the ledger: it leaves it, or puts one behind it.
pub push_operation_appends :
    (platform : Platform) (device : Device) (push : Push) (db : Db)
    → ((push_operation platform device push db).1.operations ≡ db.operations)
      ⊎ (entry : SyncOperationLog) × ((push_operation platform device push db).1.operations
          ≡ db.operations ++ entry ∷ [])
unfolding write_entry put_device
push_operation_appends platform device push db = elim (push_cases platform device push db) [
  | inl (op, seen, result) ↦ rw result (inl refl)
  | inr (unseen, outcome) ↦ elim outcome [
    | Outcome.raised result ↦ rw result (inl refl)
    | Outcome.wrote accepted why result ↦
        rw result (inr (log_entry platform device push accepted why db.next_id, refl))
  ]
]

module _ (device : Device) (id : String) (op : SyncOperationLog) where
  abbrev Found : Db → Type 0
  Found db = first (is_operation device id) db.operations ≡ some op

  same_ledger : (db after : Db) → after.operations ≡ db.operations → Found db → Found after
  same_ledger db after same found = rw same found

  enrol_operations :
      (unit : ℕ) (request : Enrolment) (db : Db)
      → (enrol_device unit request db).1.operations ≡ db.operations
  unfolding enrol_device enrol_over put_device
  enrol_operations unit request db = elim (Option-cases (find_device request.device_key db)) [
    | inl e ↦ rw e refl
    | inr (d, e) ↦ rw e refl
  ]

  joins_operations :
      (platform : Platform) (unit : ℕ) (d : Device) (crew : Option Crew) (actor : String) (db : Db)
      → (assign_device_to_crew platform unit d crew actor db).1.operations ≡ db.operations
  unfolding assign_device_to_crew put_device write_event
  joins_operations platform unit d crew actor db = ground arith

  still-Found :
      (platform : Platform) (start db : Db) → Later platform start db → Found start → Found db
  unfolding block_device put_device
  still-Found platform start db Later.at_once found = found
  still-Found platform start db (Later.pushes {db = before} d push later) found =
      let kept = still-Found platform start before later found in
      elim (push_operation_appends platform d push before) [
        | inl e ↦ rw e kept
        | inr (entry, e) ↦
            rw e (first_kept (is_operation device id) before.operations entry op kept)
      ]
  still-Found platform start db (Later.enrols {db = before} unit request later) found =
      rw (enrol_operations unit request before) (still-Found platform start before later found)
  still-Found platform start db (Later.blocks {db = before} d reason later) found =
      still-Found platform start before later found
  still-Found platform start db (Later.joins {db = before} unit d crew actor later) found =
      rw (joins_operations platform unit d crew actor before)
        (still-Found platform start before later found)
  still-Found platform start db (Later.ticks {db = before} now later) found =
      still-Found platform start before later found

same_lookup :
    (device device' : Device) (id id' : String) (db : Db)
    → device'.id ≡ device.id
    → id' ≡ id
    → already_processed device' id' db ≡ already_processed device id db
unfolding already_processed
same_lookup device device' id id' db d o = rw (d, o) refl

-- A push that returned is never applied again: however many pushes, enrolments, blocks and crew
-- assignments of any devices come in between, whatever the device sends under the same identifier is
-- answered with the entry of the first push, and changes nothing.
pub push_operation_once :
    (platform : Platform) (device device' : Device) (push push' : Push) (db later : Db)
    → Later platform (push_operation platform device push db).1 later
    → device'.id ≡ device.id
    → push'.operation_id ≡ push.operation_id
    → succeeded (push_operation platform device push db).0 ≡ true
    → (op : SyncOperationLog) × (fresh : Bool) × ((push_operation platform device push db).0
        ≡ ok (op, fresh))
      × (push_operation platform device' push' later ≡ (ok (op, false), later))
unfolding already_processed
push_operation_once platform device device' push push' db later between same_device same_id h =
    let (op, fresh, result, seen) = returned_entry platform device push db h in
    let found =
      still-Found device push.operation_id op platform (push_operation platform device push db).1
        later between seen in
    (
      op,
      fresh,
      result,
      replayed platform device' push' later op (
          same_lookup device device' push.operation_id push'.operation_id later same_device same_id
          ∙ found),
    )
