-- ===== src/Inference.antt =====
-- backend/app/inference/: which model tasks run, when and in which order. `Registry` has registry.py,
-- `Admission` admission.py and `Scheduler` scheduler.py; `Placed` is about the admission, `Nights`
-- about the windows and `Queue` about the order of the tasks.
pub mod Registry
pub mod Admission
pub mod Scheduler
pub mod Nights
pub mod Placed
pub mod Queue
