-- ===== src/Lib.antt =====
-- Verification of the backend of SIGEC-Campo, a platform for the field work of an electric utility
-- (backend/app/). Work orders are raised or imported, split into fronts, assigned to crews and
-- their phones, executed in the field, reviewed and closed; what happens to them is written to a
-- hash chain, and what the corporate systems have to know leaves through an outbox.
--
-- The parts and their files:
--
-- * Audit (backend/app/audit/service.py, models.py): `append_event` is `record`, `verify` is
--   `verify` with the walk over the events of one unit, `canonical` and `digest` make what is
--   hashed. Audit/Chain is about chains that were recorded, Audit/Tamper about chains that were
--   changed.
-- * WorkOrders (backend/app/workorders/service.py, models.py, fronts.py): State has the states and
--   the tables, Store the rows of the tables that the services read and write, Transition the
--   function `transition`, Times the corrections of milestones and the transfers of ownership,
--   Custody `assign`, `assign_many` and the chain of custody, Fronts `attach`, `detach` and the
--   progress of a work, Intake the creation and the import of orders. Custody/Ending and its
--   siblings are about the rows that an assignment leaves, Sound and its children about every
--   history of these operations, Lifecycle about the table of the transitions.
-- * Integrations (backend/app/integrations/service.py, models.py, the `deliver` functions of the
--   adapters, and backend/app/workers/integration_delivery.py): Ledger has `publish`, `due_events`,
--   `mark_delivered`, `mark_failed`, `retry_now` and `abandon`, Delivery `deliver_one` and
--   `run_once`.
-- * Sync (backend/app/sync/service.py, models.py, operations.py): Devices has the enrolment of
--   phones and `push_operation`, Once and Replays are about its ledger, Operations has the
--   transitions and the corrections of times that a phone delivers, Pull `pull_work_orders` and its
--   cursor, with `record_delivery` of backend/app/dispatch/service.py. Rounds is about a phone that
--   pulls page after page; Delta and Alike hold its lemmas, about the query and about the deliveries
--   that a pull records.
-- * Forms (backend/app/forms/rules.py): Rules has `evaluate_condition`, Requirements
--   `missing_requirements`, over the JSON values of Values. Reads says what the answers of a form
--   say, Meaning when a condition of a rule holds for them, Missing is about the list of the fields.
-- * Outages (backend/app/outages/service.py, models.py): the requests to de-energise equipment,
--   their decisions, their return and expiry, the orders that are linked to them (`link`, `unlink`),
--   and the permit form that they open. Rows, Calls and Reading have the code, Lawful the invariant
--   of the rows; Kept and Expiry are about each call, Reach about the histories, Permit and Window
--   about what is read from them.
-- * Inference (backend/app/inference/registry.py, admission.py, scheduler.py): Registry has the
--   aliases, the profiles and `validate`, Admission `admit` and what it counts, Scheduler
--   `is_night`, `next_night_start`, `slot_for` and `order_queue`. Placed, Nights and Queue are about
--   each of them.
-- * Plans (backend/app/plans/periods.py): Periods has `period_of` and `is_due`, Months is about the
--   month of each period in which a plan is due.
-- * Common has the tests, lists, queries and payloads that the parts share, Samples small sessions
--   on which the theorems are applied.
--
-- How state and operations correspond. A table is the list of its rows in the order of insertion, a
-- session is a record of tables (`Db`, `Ledger` for the outbox, and `Desk` and `Shelf`, which are
-- `Db` with the requests of Outages and with the deliveries of orders to phones), and a service is
-- a function from the session to a result and the session it leaves. An exception is the result
-- `err`, `refused` in Outages and `none` in Forms and Inference, together with what was written
-- before it. Sync and the trail work on the same session as the work orders: a transition of a
-- phone goes through `transition`, which writes the order, the trail and the milestone.
-- `session.get`, `select ... where`, `.first()` and `order_by` are `get_order`, `select`, `first`
-- and `order_by`. Identifiers are numbers, `next_id` is the next one that `uuid4` gives, and times
-- are microseconds. Counters are natural numbers: the code adds to them or sets them to 0.
--
-- Parameters. The digest and the printing of JSON are `Hashing`, the collation and the printing of
-- a UUID are in `Platform`, the count of a date's days is `ordinal`, the answers of the corporate
-- systems are `Network`, the text of a pull's cursor is `Codec`, and Python's `str` of a value is
-- `print`. That two texts with one digest are equal, that time does not run backwards over a
-- request, and that a cursor reads back as it was written are hypotheses of the theorems that need
-- them.
--
-- Every loop of the code is a recursion over a list, so that no bound is chosen. The pulls of a
-- phone, which end with an empty page, are counted down from a number; one more than the rows it is
-- due is enough, since every page but the last one takes a row.
--
-- Not modelled: the map queries, which PostGIS answers; the packages of sync; the composition of
-- forms and their answers, evidence, the runs of the plans, the calls of the model gateway,
-- reports, and the other packages of backend/app; the scripts, the GIS agent and the machine
-- learning; logging, and the HTTP interface. Those read tables that are not in the model yet, or
-- are I/O.
pub mod Common
pub mod Audit
pub mod WorkOrders
pub mod Integrations
pub mod Sync
pub mod Forms
pub mod Outages
pub mod Inference
pub mod Plans
pub mod Samples
