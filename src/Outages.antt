-- ===== src/Outages.antt =====
-- backend/app/outages/service.py and models.py: the requests to de-energise equipment
-- («consignaciones»), their decisions and windows, and the work permit that they open. `Rows` has the
-- rows and the changes of one, `Calls` the functions that change the session, `Reading` those that
-- read it; `Lawful` has the invariant of the rows, `Decisions`, `Kept` and `Expiry` are about what a
-- call keeps of it, `Reach` about the histories, and `Permit` and `Window` about what is read.
pub mod Rows
pub mod Calls
pub mod Reading
pub mod Lawful
pub mod Decisions
pub mod Kept
pub mod Expiry
pub mod Reach
pub mod Permit
pub mod Window
