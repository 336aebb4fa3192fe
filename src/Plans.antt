-- ===== src/Plans.antt =====
-- backend/app/plans/: the plans of preventive maintenance. `Periods` has periods.py, `Months` the month
-- of each period in which a plan issues its orders.
pub mod Periods
pub mod Months
