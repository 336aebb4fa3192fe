-- ===== src/Sync/Once.antt =====
-- What the ledger of the operations promises: `push_operation` of backend/app/sync/service.py.
use mathlib.Core.List.{Memᴰ}
use campo_sig.Common.{
  ℕ, String, Bool, true, false, ◌≡◌, refl, sym, ◌∙◌, false≢true, ◌↔◌, ◌⊎◌, inl, inr, Option, none,
  some, Bool-cases, Option-cases, first-append, eq_iff, arith, ==_iff, ◌==◌,
}
use campo_sig.Common.Members.{first-none-mem}
use campo_sig.Common.Keyed.{Single, add-Single}
use campo_sig.WorkOrders.Store.{
  WorkOrder, Device, SyncOperationLog, Db, Platform, cross_unit, Result, ok, err, succeeded,
}
use campo_sig.Sync.Devices.{
  Push, is_operation, already_processed, log_entry, write_entry, push_to, push_over, push_operation,
  named_order, put_device,
}

-- Two entries of the ledger for one operation of one device.
abbrev pub SameOperation : SyncOperationLog → SyncOperationLog → Type 0
SameOperation a b = (a.device_id ≡ b.device_id) × (a.operation_id ≡ b.operation_id)

abbrev pub entry_id : SyncOperationLog → ℕ
entry_id op = op.id

abbrev pub OneEntry : Db → Type 0
OneEntry db = Single entry_id SameOperation db.operations

is_operation_iff :
    (device : Device) (id : String) (op : SyncOperationLog)
    → (is_operation device id op ≡ true) ↔ ((op.device_id ≡ device.id) × (op.operation_id ≡ id))
is_operation_iff device id op =
    let number = ==_iff op.device_id device.id in
    let text = eq_iff op.operation_id id in ground arith

module _ (platform : Platform) (device : Device) (push : Push) (db : Db) where
  -- A push that was not seen before raises and writes nothing, or it writes one new entry.
  pub data Outcome (result : Result (SyncOperationLog × Bool) × Db) : Type 0 where
    raised : result ≡ (err cross_unit, db) → Outcome result
    wrote :
        (accepted : Bool) (why : Option String)
        → result ≡ write_entry platform device push accepted why db
        → Outcome result

  to_outcome : (order : Option (Option WorkOrder)) → Outcome (push_to platform device push order db)
  unfolding push_to
  to_outcome none = Outcome.wrote true none refl
  to_outcome (some none) = Outcome.wrote false (some "la OT no existe") refl
  to_outcome (some (some order)) =
      elim (Bool-cases (order.business_unit_id == device.business_unit_id)) [
        | inl t ↦ rw t (Outcome.wrote true none refl)
        | inr f ↦ rw f (Outcome.raised refl)
      ]

  pub push_cases :
      ((op : SyncOperationLog) × (already_processed device push.operation_id db ≡ some op)
        × (push_operation platform device push db ≡ (ok (op, false), db)))
      ⊎ (already_processed device push.operation_id db ≡ none)
        × Outcome (push_operation platform device push db)
  unfolding push_operation push_over
  push_cases = elim (Option-cases (already_processed device push.operation_id db)) [
    | inl unseen ↦ inr (unseen, rw unseen (to_outcome (named_order push.work_order_id db)))
    | inr (op, seen) ↦ inl (op, seen, rw seen refl)
  ]

  wrote_processed :
      (accepted : Bool) (why : Option String)
      → already_processed device push.operation_id db ≡ none
      → already_processed device push.operation_id
          (write_entry platform device push accepted why db).1
        ≡ some (log_entry platform device push accepted why db.next_id)
  unfolding already_processed write_entry put_device
  wrote_processed accepted why unseen =
      let entry = log_entry platform device push accepted why db.next_id in
      first-append (is_operation device push.operation_id) db.operations entry unseen
        ((is_operation_iff device push.operation_id entry).1 (refl, refl))

  -- What a push that returned leaves in the ledger: the entry that it returned.
  pub returned_entry :
      succeeded (push_operation platform device push db).0 ≡ true
      → (op : SyncOperationLog) × (fresh : Bool) × ((push_operation platform device push db).0
          ≡ ok (op, fresh))
        × (already_processed device push.operation_id (push_operation platform device push db).1
            ≡ some op)
  returned_entry h = elim push_cases [
    | inl (op, seen, result) ↦ rw result (op, false, refl, seen)
    | inr (unseen, outcome) ↦ elim outcome [
      | Outcome.raised result ↦ absurd (false≢true (rw result at h))
      | Outcome.wrote accepted why result ↦ rw result (
        log_entry platform device push accepted why db.next_id,
        true,
        unfold write_entry in refl,
        wrote_processed accepted why unseen,
      )
    ]
  ]

  write_entry-OneEntry :
      (accepted : Bool) (why : Option String)
      → already_processed device push.operation_id db ≡ none
      → OneEntry db
      → OneEntry (write_entry platform device push accepted why db).1
  unfolding write_entry put_device already_processed
  write_entry-OneEntry accepted why unseen single =
      let other =
        λ (x : SyncOperationLog) (m : Memᴰ x db.operations) (d : x.device_id ≡ device.id)
            (o : x.operation_id ≡ push.operation_id).
          false≢true (
            sym (first-none-mem (is_operation device push.operation_id) db.operations x unseen m)
            ∙ (is_operation_iff device push.operation_id x).1 (d, o)) in
      add-Single entry_id SameOperation db.operations
        (log_entry platform device push accepted why db.next_id) single (λ x m h. other x m h.0 h.1)
        (λ x m h. other x m (sym h.0) (sym h.1))

  -- One operation of one device has one entry, before a push and behind it.
  pub push_operation-OneEntry : OneEntry db → OneEntry (push_operation platform device push db).1
  push_operation-OneEntry single = elim push_cases [
    | inl (op, seen, result) ↦ rw result single
    | inr (unseen, outcome) ↦ elim outcome [
      | Outcome.raised result ↦ rw result single
      | Outcome.wrote accepted why result ↦
          rw result (write_entry-OneEntry accepted why unseen single)
    ]
  ]

  pub replayed :
      (op : SyncOperationLog)
      → already_processed device push.operation_id db ≡ some op
      → push_operation platform device push db ≡ (ok (op, false), db)
  unfolding push_operation push_over
  replayed op seen = rw seen refl
