-- ===== src/Integrations.antt =====
-- backend/app/integrations/ and backend/app/workers/integration_delivery.py: the outbox of the
-- exchanges with the corporate systems. `Ledger` has the rows and the operations of service.py,
-- `Delivery` the pass of the worker and the adapters' calls. `Backoff` and `Retries` are about the
-- schedule of the attempts, `Sound` about what every history of operations keeps, and `Pass` about
-- one pass of the worker.
pub mod Ledger
pub mod Backoff
pub mod Sound
pub mod Publishing
pub mod Delivery
pub mod Attempts
pub mod Pass
pub mod Reach
