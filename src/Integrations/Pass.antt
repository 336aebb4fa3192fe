-- ===== src/Integrations/Pass.antt =====
-- One pass of the worker, `run_once` of backend/app/workers/integration_delivery.py.
pub mod Settles
use mathlib.Core.List.{Memᴰ}
use campo_sig.Common.{
  ℕ, suc, ◌+◌, ◌≤◌, ◌<◌, ◌≡◌, ◌≢◌, sym, ap, ◌∙◌, refl, ◌↔◌, ◌⊎◌, arith, Bool, true, false, Option,
  none, some, String, List, [], ◌∷◌, Bool-cases, Option-cases, inl, inr, str_eq, eq_iff, first, leb,
  ==_iff, ◌==◌, first-some, length, take, select, order_by, map,
}
use campo_sig.Common.Members.{
  first-mem, first-none-mem, mem-select_inv, mem-order_by_inv, mem-take_inv,
}
use campo_sig.Common.Keyed.{put_row, put_here, put_kept}
use campo_sig.Integrations.Ledger.{
  IntegrationEvent, Ledger, event_id, put_event, is_due_at, is_due, is_delivered, due_le,
  due_events,
}
use campo_sig.Integrations.Sound.{IsSound, Updates, put_event-IsSound}
use campo_sig.Integrations.Attempts.{Attempted, IsForward, attempt-Attempted}
use campo_sig.Integrations.Delivery.{
  Network, Settings, attempt, url_of, DeliveryReport, report_skipped, report_attempt, get_event,
  pass_row, pass, run_once, batch, no_deliveries,
}

abbrev pub accounted : DeliveryReport → ℕ
accounted report = report.delivered + report.failed + report.skipped

module _ (network : Network) (settings : Settings) where
  -- What the pass does about the event with an identifier.
  pub data RowStep (id : ℕ) (s t : DeliveryReport × Ledger) : Type 0 where
    gone : ((x : IntegrationEvent) → Memᴰ x s.1.events → x.id ≢ id) → t ≡ s → RowStep id s t
    skipped :
        (e : IntegrationEvent)
        → Memᴰ e s.1.events
        → e.id ≡ id
        → url_of settings e.connector ≡ ""
        → accounted t.0 ≡ accounted s.0 + 1
        → t.1 ≡ s.1
        → RowStep id s t
    tried :
        (e e' : IntegrationEvent)
        → Memᴰ e s.1.events
        → e.id ≡ id
        → accounted t.0 ≡ accounted s.0 + 1
        → Attempted e s.1 (e', t.1)
        → RowStep id s t

  accounted-report_attempt :
      (e : IntegrationEvent) (report : DeliveryReport)
      → accounted (report_attempt e report) ≡ accounted report + 1
  unfolding report_attempt
  accounted-report_attempt e report = ground arith

  module _ (forward : IsForward network) where
    row_found :
        (id : ℕ) (s : DeliveryReport × Ledger) (e : IntegrationEvent)
        → Memᴰ e s.1.events
        → e.id ≡ id
        → RowStep id s (pass_row network settings (some e) s)
    unfolding pass_row
    row_found id s e m same = elim (Bool-cases (str_eq (url_of settings e.connector) "")) [
      | inl t ↦ rw t (
          RowStep.skipped e m same ((eq_iff (url_of settings e.connector) "").0 t) (omega arith)
            refl)
      | inr f ↦ rw f (
          RowStep.tried e (attempt network (url_of settings e.connector) e s.1).0 m same
            (accounted-report_attempt (attempt network (url_of settings e.connector) e s.1).0 s.0)
            (attempt-Attempted network forward e s.1 (url_of settings e.connector)))
    ]

    pub pass_row-RowStep :
        (id : ℕ) (s : DeliveryReport × Ledger)
        → RowStep id s (pass_row network settings (get_event id s.1) s)
    unfolding get_event
    pass_row-RowStep id s = elim (Option-cases (first (λ e. e.id == id) s.1.events)) [
      | inl none_found ↦ rw none_found (
          RowStep.gone
            (λ x m same.
              let other = first-none-mem (λ e. e.id == id) s.1.events x none_found m in
              absurd (ground (arith, ==_iff x.id id)))
            (unfold pass_row in refl))
      | inr (e, found) ↦ rw found (
          row_found id s e (first-mem (λ e. e.id == id) s.1.events e found)
            ((==_iff e.id id).0 (first-some (λ e. e.id == id) s.1.events e found)))
    ]

abbrev pub HasRow : ℕ → Ledger → Type 0
HasRow id db = (x : IntegrationEvent) × Memᴰ x db.events × (x.id ≡ id)

pub at_time-IsSound : (db : Ledger) (t : ℕ) → IsSound db → IsSound (record db { now = t })
at_time-IsSound db t sound = record {
  table = sound.table;
  unique = sound.unique;
  scheduled = sound.scheduled;
}

module _ (e : IntegrationEvent) (db : Ledger) (e' : IntegrationEvent) (db' : Ledger)
    (m : Memᴰ e db.events) (done : Attempted e db (e', db')) where
  pub attempted-IsSound : IsSound db → IsSound db'
  attempted-IsSound sound = rw done.written (
      put_event-IsSound (record db { now = db'.now }) e e' (at_time-IsSound db db'.now sound) m
        done.update done.scheduled)

  pub attempted_rows :
      (x : IntegrationEvent) → Memᴰ x db'.events → (x ≡ e') ⊎ Memᴰ x db.events × (x.id ≢ e.id)
  unfolding put_event
  attempted_rows x n =
      let events = ap (λ (d : Ledger). d.events) done.written in
      elim (put_row event_id db.events e' x (rw events at n)) [
        | inl h ↦ inl h
        | inr (k, other) ↦ inr (k, λ same. other (same ∙ sym done.update.same_id))
      ]

  pub attempted_kept : (x : IntegrationEvent) → Memᴰ x db.events → x.id ≢ e.id → Memᴰ x db'.events
  unfolding put_event
  attempted_kept x n other =
      let events = ap (λ (d : Ledger). d.events) done.written in
      rw events (put_kept event_id db.events e' x n (λ same. other (same ∙ done.update.same_id)))

  pub attempted-HasRow : (id : ℕ) → HasRow id db → HasRow id db'
  unfolding put_event
  attempted-HasRow id (x, n, h) =
      let events = ap (λ (d : Ledger). d.events) done.written in
      elim (Bool-cases (x.id == e.id)) [
        | inl t ↦
            let same = (==_iff x.id e.id).0 t in
            (
              e',
              rw events (put_here event_id db.events e e' m (sym done.update.same_id)),
              done.update.same_id ∙ sym same ∙ h,
            )
        | inr f ↦ (x, attempted_kept x n (λ same. ground (arith, ==_iff x.id e.id)), h)
      ]
