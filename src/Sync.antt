-- ===== src/Sync.antt =====
-- backend/app/sync/: the devices of the field and the operations that they deliver. `Devices` has the
-- enrolment and the ledger of service.py, `Once` and `Replays` what the ledger promises, `Operations` the
-- transitions and corrections of operations.py, and `Field` what a device can do to an order. `Pull`
-- has the delta of service.py, and `Rounds` is about pulling it to its end.
pub mod Pull
pub mod Alike
pub mod Delta
pub mod Rounds
pub mod Devices
pub mod Operations
pub mod Field
pub mod Corrections
pub mod Blocking
pub mod Once
pub mod Replays
