-- ===== src/Samples.antt =====
-- Small sessions and rows, and what the services do on them.
pub mod Trail
pub mod Orders
mod Exchanges
mod Lasso
mod Phones
mod Times
mod Forms
mod Models
mod Pulls
mod Quarters
mod Outages
