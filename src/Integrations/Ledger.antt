-- ===== src/Integrations/Ledger.antt =====
-- The operations of backend/app/integrations/service.py, over the rows of the child. An operation
-- that reads the clock reads `now` of the ledger.
mod Rows
unfoldable pub use Rows.*
use Prim.Native.String.{◌++◌ as text_append}
use campo_sig.Common.{
  ℕ, suc, ◌+◌, ◌*◌, ◌^◌, min, String, Bool, true, false, not, ◌&&◌, ◌||◌, Option, none, some, List,
  [], ◌∷◌, ◌++◌, map, ◌==◌, ltb, leb, if◌then◌else◌, str_eq, select, first, order_by, take, truthy,
}
use campo_sig.Common.Keyed.{replace}
use campo_sig.Common.Strip.{prefix}
use campo_sig.Common.Json.{Fields, end}

abbrev pub max_attempts : ℕ
max_attempts = 5

abbrev pub backoff_base_seconds : ℕ
backoff_base_seconds = 30

abbrev pub backoff_max_seconds : ℕ
backoff_max_seconds = 600

-- `backoff_for` in seconds. A count of attempts is never negative.
unfoldable pub backoff_seconds : ℕ → ℕ
backoff_seconds attempts = min (backoff_base_seconds * 2 ^ min attempts 10) backoff_max_seconds

unfoldable pub backoff_for : ℕ → ℕ
unfolding backoff_seconds
backoff_for attempts = backoff_seconds attempts * 1000000

-- The arguments of `publish`.
pub record Publication : Type 0 where
  pub unit : ℕ
  pub connector : String
  pub direction : Direction
  pub kind : String
  pub idempotency_key : String
  pub payload : Option Fields
  pub order : Option ℕ
  pub external_ref : Option String

abbrev pub or_empty : Option Fields → Fields
or_empty none = end
or_empty (some fields) = fields

unfoldable pub has_identity : Publication → IntegrationEvent → Bool
has_identity p e =
    str_eq e.connector p.connector
    && is_direction e.direction p.direction
    && str_eq e.idempotency_key p.idempotency_key

abbrev pub new_event : Publication → Ledger → IntegrationEvent
new_event p db = record {
  id = db.next_id;
  business_unit_id = p.unit;
  connector = p.connector;
  direction = p.direction;
  kind = p.kind;
  status = pending;
  idempotency_key = p.idempotency_key;
  payload = or_empty p.payload;
  response = none;
  work_order_id = p.order;
  external_ref = p.external_ref;
  attempts = 0;
  last_error = none;
  next_attempt_at = some db.now;
  created_at = db.now;
  delivered_at = none;
}

abbrev pub requeued : Publication → ℕ → IntegrationEvent → IntegrationEvent
requeued p now e = record e {
  payload = or_empty p.payload;
  status = pending;
  next_attempt_at = some now;
}

-- `publish`, once it knows whether the exchange has a row.
unfoldable pub publish_over :
    Option IntegrationEvent → Publication → Ledger → IntegrationEvent × Ledger
unfolding put_event add_event
publish_over none p db = (new_event p db, add_event (new_event p db) db)
publish_over (some e) p db =
    if is_delivered e.status
    then (e, db)
    else (requeued p db.now e, put_event (requeued p db.now e) db)

unfoldable pub publish : Publication → Ledger → IntegrationEvent × Ledger
unfolding publish_over has_identity first
publish p db = publish_over (first (has_identity p) db.events) p db

-- An exception that a delivery met; one without `retryable` counts as retryable.
pub record DeliveryError : Type 0 where
  pub message : String
  pub retryable : Bool

abbrev pub as_delivered : Option Fields → ℕ → IntegrationEvent → IntegrationEvent
as_delivered body now e = record e {
  status = delivered;
  attempts = e.attempts + 1;
  delivered_at = some now;
  next_attempt_at = none;
  last_error = none;
  response = some (or_empty body);
}

unfoldable pub mark_delivered :
    IntegrationEvent → Option Fields → Ledger → IntegrationEvent × Ledger
unfolding put_event
mark_delivered e body db = (as_delivered body db.now e, put_event (as_delivered body db.now e) db)

-- Whether a failure is the last one before a person has to look.
abbrev pub is_final : DeliveryError → ℕ → Bool
is_final error attempts = not error.retryable || leb max_attempts attempts

unfoldable pub as_failed : DeliveryError → ℕ → IntegrationEvent → IntegrationEvent
unfolding backoff_for
as_failed error now e =
    let attempts = e.attempts + 1 in
    let final = is_final error attempts in
    record e {
      attempts = attempts;
      last_error = some (prefix 2000 error.message);
      status = if final then failed else pending;
      next_attempt_at = if final then none else some (now + backoff_for attempts);
    }

unfoldable pub mark_failed : IntegrationEvent → DeliveryError → Ledger → IntegrationEvent × Ledger
unfolding put_event as_failed
mark_failed e error db = (as_failed error db.now e, put_event (as_failed error db.now e) db)

abbrev retry_note : Option String → String
retry_note none = "reintento manual"
retry_note (some by) =
    if truthy (some by)
    then text_append "reintento manual solicitado por " by
    else "reintento manual"

abbrev pub as_retried : Option String → ℕ → IntegrationEvent → IntegrationEvent
as_retried by now e = record e {
  status = pending;
  attempts = 0;
  next_attempt_at = some now;
  last_error = some (retry_note by);
}

unfoldable pub retry_now : IntegrationEvent → Option String → Ledger → IntegrationEvent × Ledger
unfolding put_event
retry_now e by db =
    if is_delivered e.status
    then (e, db)
    else (as_retried by db.now e, put_event (as_retried by db.now e) db)

abbrev pub as_abandoned : String → String → IntegrationEvent → IntegrationEvent
as_abandoned reason by e = record e {
  status = abandoned;
  next_attempt_at = none;
  last_error =
      some (prefix 2000 (text_append "descartado por " (text_append by (text_append ": " reason))));
}

unfoldable pub abandon : IntegrationEvent → String → String → Ledger → IntegrationEvent × Ledger
unfolding put_event
abandon e reason by db = (as_abandoned reason by e, put_event (as_abandoned reason by e) db)

-- `column <= moment`: null is not due.
abbrev pub is_due_at : Option ℕ → ℕ → Bool
is_due_at none moment = false
is_due_at (some at) moment = leb at moment

abbrev pub is_unit : Option ℕ → ℕ → Bool
is_unit none id = true
is_unit (some unit) id = id == unit

abbrev pub is_connector : Option String → String → Bool
is_connector none connector = true
is_connector (some wanted) connector = str_eq connector wanted

unfoldable pub is_due : Option ℕ → Option String → ℕ → IntegrationEvent → Bool
is_due unit connector moment e =
    is_pending e.status
    && is_direction e.direction outbound
    && is_due_at e.next_attempt_at moment
    && is_unit unit e.business_unit_id
    && is_connector connector e.connector

abbrev due_before : Option ℕ → Option ℕ → Bool → Bool
due_before (some x) (some y) tie = if ltb x y then true else if x == y then tie else false
due_before none none tie = tie
due_before none (some y) tie = false
due_before (some x) none tie = true

-- The order of the attempts that are due, and of the creation among equal ones.
abbrev pub due_le : IntegrationEvent → IntegrationEvent → Bool
due_le a b = due_before a.next_attempt_at b.next_attempt_at (leb a.created_at b.created_at)

unfoldable pub due_events : Option ℕ → Option String → ℕ → ℕ → Ledger → List IntegrationEvent
unfolding select order_by is_due
due_events unit connector limit moment db =
    take limit (order_by due_le (select (is_due unit connector moment) db.events))
