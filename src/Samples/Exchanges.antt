-- ===== src/Samples/Exchanges.antt =====
-- A ledger with one exchange that is due, and a network that answers every request.
use mathlib.Core.List.{Memᴰ}
use campo_sig.Common.{
  ℕ, suc, ◌+◌, ◌*◌, ◌≤◌, ◌<◌, ◌≡◌, ◌↔◌, ◌⊎◌, arith, true, false, none, some, List, [], ◌∷◌, length,
}
use campo_sig.Integrations.Ledger.{
  IntegrationEvent, Ledger, Publication, DeliveryError, outbound, pending, failed, publish,
  new_event, max_attempts, backoff_seconds, backoff_for, as_failed, is_due, due_events,
}
use campo_sig.Integrations.Backoff.{backoff_bounds, waited, fail_run, retries_stop}
use campo_sig.Integrations.Sound.{IsSound}
use campo_sig.Integrations.Publishing.{Published, publish-Published, publish-IsSound}
use campo_sig.Integrations.Delivery.{Network, Settings, answered, run_once}
use campo_sig.Integrations.Attempts.{IsForward}
use campo_sig.Integrations.Pass.{accounted}
use campo_sig.Integrations.Pass.Settles.{Cleared, run_once_settles}
use campo_sig.Integrations.Reach.{Step, Reach, Reach-IsSound}

abbrev quiet : Ledger
quiet = record { now = 100; next_id = 1; events = [] }

quiet-IsSound : IsSound quiet
quiet-IsSound = record {
  table = record { keyed = λ p q m. elim m [ ]; fresh = λ p m. elim m [ ] };
  unique = λ p q m. elim m [ ];
  scheduled = λ e m. elim m [ ];
}

abbrev status_report : Publication
status_report = record {
  unit = 7;
  connector = "sistema_ot";
  direction = outbound;
  kind = "estado_ot";
  idempotency_key = "OT-1:aprobada";
  payload = none;
  order = some 1;
  external_ref = none;
}

abbrev queued : Ledger
queued = (publish status_report quiet).1

queued-IsSound : IsSound queued
queued-IsSound = publish-IsSound status_report quiet quiet-IsSound

abbrev network : Network
network = record { post = λ url body t. (answered body, t + 1) }

network-IsForward : IsForward network
network-IsForward url body t = omega arith

abbrev settings : Settings
settings = record {
  work_order_system_url = "http://ot/";
  call_centre_url = "";
  erp_url = "";
  oms_url = "";
  integration_batch_size = 50;
}

abbrev timeout : DeliveryError
timeout = record { message = "la llamada expiro"; retryable = true }

abbrev one_failure : List (DeliveryError × ℕ)
one_failure = (timeout, 100) ∷ []

abbrev queued_event : IntegrationEvent
queued_event = new_event status_report quiet

publish-Published_example :
    Published status_report queued (publish status_report queued).0 (publish status_report queued).1
publish-Published_example = publish-Published status_report queued queued-IsSound

backoff_bounds_example :
    (30 ≤ backoff_seconds 2)
    × (backoff_seconds 2 ≤ 600)
    × (2 ≤ 4 → backoff_seconds 2 ≤ backoff_seconds 4)
    × (2 < 4 → backoff_seconds (suc 2) ≡ 2 * backoff_seconds 2)
    × (2 < 5 → waited 2 ≤ 900)
backoff_bounds_example = backoff_bounds 2 4

retries_stop_example :
    let n : ℕ = queued_event.attempts + length one_failure + 1 in
    let e' : IntegrationEvent = as_failed timeout 200 (fail_run one_failure queued_event) in
    (e'.attempts ≡ n)
    × ((e'.status ≡ failed) ↔ ((timeout.retryable ≡ false) ⊎ (max_attempts ≤ n)))
    × ((timeout.retryable ≡ true)
        → n < max_attempts
        → (e'.status ≡ pending) × (e'.next_attempt_at ≡ some (200 + backoff_for n)))
    × ((e'.status ≡ failed) → e'.next_attempt_at ≡ none)
retries_stop_example = retries_stop one_failure timeout 200 queued_event

run_once_settles_example :
    IsSound (run_once network settings none none queued).1
    × (accounted (run_once network settings none none queued).0
        ≡ length (due_events none none 50 100 queued))
    × ((e : IntegrationEvent)
        → Memᴰ e (due_events none none 50 100 queued)
        → Cleared network settings 100 e.id (run_once network settings none none queued).1)
    × ((x : IntegrationEvent)
        → Memᴰ x queued.events
        → is_due none none 100 x ≡ false
        → Memᴰ x (run_once network settings none none queued).1.events)
unfolding publish
run_once_settles_example =
    run_once_settles network settings network-IsForward none none queued queued-IsSound

Reach-IsSound_example : IsSound (run_once network settings none none queued).1
Reach-IsSound_example = Reach-IsSound quiet-IsSound (
    Reach.next (Reach.next Reach.here (Step.published status_report))
      (Step.passed network settings none none network-IsForward))
