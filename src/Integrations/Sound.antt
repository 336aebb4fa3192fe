-- ===== src/Integrations/Sound.antt =====
-- What every operation of the outbox in backend/app/integrations/service.py keeps.
use mathlib.Core.List.{Memᴰ}
use campo_sig.Common.{
  ℕ, String, ◌+◌, ◌<◌, ◌≡◌, ◌≢◌, sym, ◌∙◌, refl, arith, Option, none, Bool-cases, inl, inr,
}
use campo_sig.Common.Keyed.{
  IsKeyed, Single, put_row, add_row, put-Single, add-Single, put-IsKeyed, add-IsKeyed,
}
use campo_sig.Common.Json.{Fields}
use campo_sig.Integrations.Ledger.{
  IntegrationEvent, Ledger, pending, delivered, DeliveryError, event_id, is_delivered, put_event,
  add_event, as_delivered, as_failed, as_retried, as_abandoned, is_final, mark_delivered,
  mark_failed, retry_now, abandon,
}

-- The identity of an exchange.
pub record SameExchange (a b : IntegrationEvent) : Type 0 where
  pub connector : a.connector ≡ b.connector
  pub direction : a.direction ≡ b.direction
  pub key : a.idempotency_key ≡ b.idempotency_key

exchange_sym : {a b : IntegrationEvent} → SameExchange a b → SameExchange b a
exchange_sym h = record {
  connector = sym h.connector;
  direction = sym h.direction;
  key = sym h.key;
}

exchange_trans : {a b c : IntegrationEvent} → SameExchange a b → SameExchange b c → SameExchange a c
exchange_trans h k = record {
  connector = h.connector ∙ k.connector;
  direction = h.direction ∙ k.direction;
  key = h.key ∙ k.key;
}

-- An event has a next attempt exactly while it is pending, and a delivered one has been attempted.
pub record IsScheduled (e : IntegrationEvent) : Type 0 where
  pub waiting : e.status ≡ pending → e.next_attempt_at ≢ none
  pub settled : e.status ≢ pending → e.next_attempt_at ≡ none
  pub attempted : e.status ≡ delivered → (0 < e.attempts) × (e.delivered_at ≢ none)

-- Identifiers and exchanges have one row each, and the rows are scheduled as their status says.
pub record IsSound (db : Ledger) : Type 0 where
  pub table : IsKeyed event_id db.events db.next_id
  pub unique : Single event_id SameExchange db.events
  pub scheduled : (e : IntegrationEvent) → Memᴰ e db.events → IsScheduled e

-- A change of a row that leaves its identifier and its exchange as they are.
pub record Updates (old new : IntegrationEvent) : Type 0 where
  pub same_id : new.id ≡ old.id
  pub same_exchange : SameExchange new old

pub put_event-IsSound :
    (db : Ledger) (old new : IntegrationEvent)
    → IsSound db
    → Memᴰ old db.events
    → Updates old new
    → IsScheduled new
    → IsSound (put_event new db)
unfolding put_event
put_event-IsSound db old new sound stored update scheduled = record {
  table = put-IsKeyed event_id db.events db.next_id old new sound.table stored update.same_id;
  unique =
      put-Single event_id SameExchange db.events old new sound.unique stored (sym update.same_id)
        (λ x h. exchange_trans (exchange_sym update.same_exchange) h)
        (λ x h. exchange_trans h update.same_exchange);
  scheduled = λ e m. elim (put_row event_id db.events new e m) [
    | inl same ↦ rw same scheduled
    | inr (n, _) ↦ sound.scheduled e n
  ];
}

pub add_event-IsSound :
    (db : Ledger) (new : IntegrationEvent)
    → IsSound db
    → new.id ≡ db.next_id
    → ((e : IntegrationEvent) → Memᴰ e db.events → ¬ SameExchange e new)
    → IsScheduled new
    → IsSound (add_event new db)
unfolding add_event
add_event-IsSound db new sound numbered other scheduled = record {
  table = add-IsKeyed event_id db.events db.next_id new sound.table numbered;
  unique =
      add-Single event_id SameExchange db.events new sound.unique other
        (λ x m h. other x m (exchange_sym h));
  scheduled = λ e m. elim (add_row event_id db.events new e m) [
    | inl n ↦ sound.scheduled e n
    | inr same ↦ rw same scheduled
  ];
}

pub unchanged : {a b : IntegrationEvent} → a.id ≡ b.id → SameExchange a b → Updates b a
unchanged h k = record { same_id = h; same_exchange = k }

pub same_row :
    (a b : IntegrationEvent)
    → a.connector ≡ b.connector
    → a.direction ≡ b.direction
    → a.idempotency_key ≡ b.idempotency_key
    → a.id ≡ b.id
    → Updates b a
same_row a b c d k i = unchanged i record { connector = c; direction = d; key = k }

pub as_delivered-IsScheduled :
    (body : Option Fields) (now : ℕ) (e : IntegrationEvent) → IsScheduled (as_delivered body now e)
as_delivered-IsScheduled body now e = record {
  waiting = λ h. cc;
  settled = λ h. refl;
  attempted = λ h. (omega arith, λ k. cc);
}

pub mark_delivered-IsSound :
    (db : Ledger) (e : IntegrationEvent) (body : Option Fields)
    → IsSound db
    → Memᴰ e db.events
    → IsSound (mark_delivered e body db).1
unfolding mark_delivered
mark_delivered-IsSound db e body sound stored =
    put_event-IsSound db e (as_delivered body db.now e) sound stored
      (same_row (as_delivered body db.now e) e refl refl refl refl)
      (as_delivered-IsScheduled body db.now e)

pub as_failed-Updates :
    (error : DeliveryError) (now : ℕ) (e : IntegrationEvent) → Updates e (as_failed error now e)
unfolding as_failed
as_failed-Updates error now e = same_row (as_failed error now e) e refl refl refl refl

pub as_failed-IsScheduled :
    (error : DeliveryError) (now : ℕ) (e : IntegrationEvent) → IsScheduled (as_failed error now e)
unfolding as_failed
as_failed-IsScheduled error now e = elim (Bool-cases (is_final error (e.attempts + 1))) [
  | inl t ↦ record {
    waiting = rw t (λ h. cc);
    settled = rw t (λ h. refl);
    attempted = rw t (λ h. cc);
  }
  | inr f ↦ record {
    waiting = rw f (λ h k. cc);
    settled = rw f (λ h. absurd (h refl));
    attempted = rw f (λ h. cc);
  }
]

pub mark_failed-IsSound :
    (db : Ledger) (e : IntegrationEvent) (error : DeliveryError)
    → IsSound db
    → Memᴰ e db.events
    → IsSound (mark_failed e error db).1
unfolding mark_failed
mark_failed-IsSound db e error sound stored =
    put_event-IsSound db e (as_failed error db.now e) sound stored
      (as_failed-Updates error db.now e) (as_failed-IsScheduled error db.now e)

pub retry_now-IsSound :
    (db : Ledger) (e : IntegrationEvent) (by : Option String)
    → IsSound db
    → Memᴰ e db.events
    → IsSound (retry_now e by db).1
unfolding retry_now
retry_now-IsSound db e by sound stored = elim (Bool-cases (is_delivered e.status)) [
  | inl t ↦ rw t sound
  | inr f ↦ rw f (
      put_event-IsSound db e (as_retried by db.now e) sound stored
        (same_row (as_retried by db.now e) e refl refl refl refl)
        record { waiting = λ h k. cc; settled = λ h. absurd (h refl); attempted = λ h. cc })
]

pub abandon-IsSound :
    (db : Ledger) (e : IntegrationEvent) (reason by : String)
    → IsSound db
    → Memᴰ e db.events
    → IsSound (abandon e reason by db).1
unfolding abandon
abandon-IsSound db e reason by sound stored =
    put_event-IsSound db e (as_abandoned reason by e) sound stored
      (same_row (as_abandoned reason by e) e refl refl refl refl)
      record { waiting = λ h. cc; settled = λ h. refl; attempted = λ h. cc }
