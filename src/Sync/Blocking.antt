-- ===== src/Sync/Blocking.antt =====
-- Which devices may sync: `enrol_device`, `block_device` and `resolve_device` of
-- backend/app/sync/service.py.
use mathlib.Core.List.{Memᴰ}
use campo_sig.Common.{
  ℕ, str_eq, false≢true, String, ◌≡◌, refl, sym, ap, ◌∙◌, some, List, [], ◌∷◌, map, Bool-cases,
  first, first-some, ◌==◌, ==_iff, inl, inr,
}
use campo_sig.Common.Members.{first-mem}
use campo_sig.Common.Keyed.{IsKeyed, replace, put-IsKeyed}
use campo_sig.WorkOrders.Store.{Device, blocked, Db, device_blocked, err}
use campo_sig.Sync.Devices.{
  device_row, has_key, find_device, put_device, resolve_found, resolve_device, block_device,
  Enrolment, enrol_device, enrol_over, updated_device,
}

-- Where a row is the one of its identifier, and the change keeps its key, the first row with the key
-- is the changed one.
first_replaced :
    (name : String) (new old : Device) (devices : List Device)
    → ((x : Device) → Memᴰ x devices → x.id ≡ new.id → x ≡ old)
    → new.id ≡ old.id
    → new.device_key ≡ old.device_key
    → first (has_key name) devices ≡ some old
    → first (has_key name) (map (replace device_row new) devices) ≡ some new
unfolding first
first_replaced name new old [] only same_id same_key h = cc
first_replaced name new old (x ∷ devices) only same_id same_key h =
    elim (Bool-cases (x.id == new.id)) [
      | inl t ↦
          let named =
            ap (λ k. str_eq k name) same_key ∙ first-some (has_key name) (x ∷ devices) old h in
          rw (t, named) refl
      | inr f ↦ elim (Bool-cases (has_key name x)) [
        | inl here ↦
            let same : some x ≡ some old = rw here at h in
            let again : x ≡ old = cc in
            absurd (false≢true (sym f ∙ (==_iff x.id new.id).1 (ap device_row again ∙ sym same_id)))
        | inr other ↦
            rw (f, other)
              (first_replaced name new old devices (λ y m. only y (Memᴰ.tail m)) same_id same_key
                (rw other at h))
      ]
    ]

module _ (name : String) (device : Device) (db : Db)
    (table : IsKeyed device_row db.devices db.next_id)
    (found : find_device name db ≡ some device) where
  stored : Memᴰ device db.devices
  unfolding find_device
  stored = first-mem (has_key name) db.devices device found

  -- A change of the device that was found is what its key finds from then on.
  found_again :
      (new : Device)
      → new.id ≡ device.id
      → new.device_key ≡ device.device_key
      → find_device name (put_device new db) ≡ some new
  unfolding find_device put_device
  found_again new same_id same_key =
      first_replaced name new device db.devices
        (λ x m same. table.keyed x device m stored (same ∙ same_id)) same_id same_key found

  put_device-IsKeyed :
      (new : Device)
      → new.id ≡ device.id
      → IsKeyed device_row (put_device new db).devices (put_device new db).next_id
  unfolding put_device
  put_device-IsKeyed new same_id =
      put-IsKeyed device_row db.devices db.next_id device new table stored same_id

  enrol_found :
      (unit : ℕ) (request : Enrolment)
      → request.device_key ≡ name
      → device.status ≡ blocked
      → resolve_device name (enrol_device unit request db).1 ≡ err (device_blocked name)
  unfolding enrol_device enrol_over resolve_device resolve_found
  enrol_found unit request same is_blocked =
      rw (same, found, found_again (updated_device request device) refl refl, is_blocked) refl

-- In a table where each identifier has one row: once a device that was found by its key is blocked,
-- the key does not resolve any more, and enrolling the device again does not change that.
pub block_device_holds :
    (name reason : String) (device : Device) (db : Db) (unit : ℕ) (request : Enrolment)
    → IsKeyed device_row db.devices db.next_id
    → find_device name db ≡ some device
    → request.device_key ≡ name
    → (resolve_device name (block_device device reason db).1 ≡ err (device_blocked name))
      × (resolve_device name (enrol_device unit request (block_device device reason db).1).1
          ≡ err (device_blocked name))
unfolding resolve_device resolve_found block_device
block_device_holds name reason device db unit request table found same =
    let new = (block_device device reason db).0 in
    let again = found_again name device db table found new refl refl in
    (
      rw again refl,
      enrol_found name new (put_device new db)
          (put_device-IsKeyed name device db table found new refl) again unit request same refl,
    )
