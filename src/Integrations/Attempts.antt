-- ===== src/Integrations/Attempts.antt =====
-- What one attempt of the worker in backend/app/workers/integration_delivery.py does to the row of
-- its event, whatever the network answers.
use Prim.Native.String.{◌++◌ as text_append}
use campo_sig.Common.{
  ℕ, ◌+◌, ◌≤◌, ◌≡◌, refl, arith, Bool, true, false, Option, none, some, String, Bool-cases, inl,
  inr, str_eq, if◌then◌else◌,
}
use campo_sig.Common.Json.{Fields}
use campo_sig.Integrations.Ledger.{
  IntegrationEvent, Ledger, DeliveryError, put_event, as_delivered, as_failed, is_final,
  backoff_for, mark_delivered, mark_failed, is_due_at, connector_value, work_order_system,
  call_centre, erp, oms,
}
use campo_sig.Integrations.Backoff.{backoff_bounds}
use campo_sig.Integrations.Sound.{
  Updates, IsScheduled, same_row, as_delivered-IsScheduled, as_failed-IsScheduled,
  as_failed-Updates,
}
use campo_sig.Integrations.Delivery.{
  Network, Reply, answered, refused, raised, Attempt, settle, send, deliver, deliver_one, caught,
  attempt, work_order_path, call_centre_path, erp_path, oms_path, rstrip_slash, not_retryable,
  no_adapter,
}

-- An attempt writes one row: the event's, scheduled as its status says, and not due any more at
-- the time of the attempt or before it.
pub record Attempted (e : IntegrationEvent) (db : Ledger) (result : IntegrationEvent × Ledger)
    : Type 0 where
  pub later : db.now ≤ result.1.now
  pub written : result.1 ≡ put_event result.0 (record db { now = result.1.now })
  pub update : Updates e result.0
  pub scheduled : IsScheduled result.0
  pub rested : (t : ℕ) → t ≤ db.now → is_due_at result.0.next_attempt_at t ≡ false

-- Time does not run backwards over a request.
abbrev pub IsForward : Network → Type 0
IsForward network = (url : String) (body : Fields) (t : ℕ) → t ≤ (network.post url body t).1

module _ (e : IntegrationEvent) (db : Ledger) (at : ℕ) (forward : db.now ≤ at) where
  mark_delivered-Attempted :
      (body : Option Fields) → Attempted e db (mark_delivered e body (record db { now = at }))
  unfolding mark_delivered put_event
  mark_delivered-Attempted body = record {
    later = forward;
    written = refl;
    update = same_row (as_delivered body at e) e refl refl refl refl;
    scheduled = as_delivered-IsScheduled body at e;
    rested = λ t h. refl;
  }

  failed_rested :
      (error : DeliveryError) (t : ℕ)
      → t ≤ db.now
      → is_due_at (as_failed error at e).next_attempt_at t ≡ false
  unfolding as_failed backoff_for
  failed_rested error t h =
      let bounds = backoff_bounds (e.attempts + 1) 0 in
      elim (Bool-cases (is_final error (e.attempts + 1))) [
        | inl final ↦ rw final refl
        | inr again ↦ rw again (ground (arith, bounds.0))
      ]

  mark_failed-Attempted :
      (error : DeliveryError) → Attempted e db (mark_failed e error (record db { now = at }))
  unfolding mark_failed put_event
  mark_failed-Attempted error = record {
    later = forward;
    written = refl;
    update = as_failed-Updates error at e;
    scheduled = as_failed-IsScheduled error at e;
    rested = failed_rested error;
  }

  settle-Attempted :
      (reply : Reply) → Attempted e db (caught e (settle e reply (record db { now = at })))
  unfolding caught settle
  settle-Attempted (answered body) = mark_delivered-Attempted (some body)
  settle-Attempted (refused error) = mark_failed-Attempted error
  settle-Attempted (raised message) =
      mark_failed-Attempted record { message = message; retryable = true }

module _ (network : Network) (forward : IsForward network) (e : IntegrationEvent)
    (db : Ledger) where
  deliver-Attempted :
      (path : Option String) (message base : String)
      → Attempted e db (caught e (deliver network path message e base db))
  unfolding deliver send caught
  deliver-Attempted none message base =
      mark_failed-Attempted e db db.now (omega arith)
        (not_retryable (text_append message (text_append e.kind "'")))
  deliver-Attempted (some path) message base =
      settle-Attempted e db (network.post (text_append (rstrip_slash base) path) e.payload db.now).1
        (forward (text_append (rstrip_slash base) path) e.payload db.now)
        (network.post (text_append (rstrip_slash base) path) e.payload db.now).0

  either :
      (b : Bool) (x y : Attempt)
      → Attempted e db (caught e x)
      → Attempted e db (caught e y)
      → Attempted e db (caught e (if b then x else y))
  either true x y h k = h
  either false x y h k = k

  pub attempt-Attempted : (base : String) → Attempted e db (attempt network base e db)
  unfolding attempt deliver_one caught
  attempt-Attempted base =
      either (str_eq e.connector (connector_value work_order_system)) _ _
        (deliver-Attempted (work_order_path e.kind) _ base)
        (either (str_eq e.connector (connector_value call_centre)) _ _
          (deliver-Attempted (call_centre_path e.kind) _ base)
          (either (str_eq e.connector (connector_value erp)) _ _
            (deliver-Attempted (erp_path e.kind) _ base)
            (either (str_eq e.connector (connector_value oms)) _ _
              (deliver-Attempted (oms_path e.kind) _ base)
              (mark_failed-Attempted e db db.now (omega arith) (no_adapter e.connector)))))
