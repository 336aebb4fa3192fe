-- ===== src/WorkOrders.antt =====
-- backend/app/workorders: the life of a work order, its fronts, its milestones and its custody.
pub mod State
pub mod Lifecycle
pub mod Store
pub mod Own
pub mod Fronts
pub mod Transition
pub mod Times
pub mod Custody
pub mod Sound
pub mod Intake
