-- ===== src/Integrations/Pass/Settles.antt =====
-- What a whole pass of the worker leaves, `run_once` of
-- backend/app/workers/integration_delivery.py.
use mathlib.Core.List.{Memᴰ}
use campo_sig.Common.{
  ℕ, false≢true, ◌+◌, ◌≤◌, ◌≡◌, ◌≢◌, sym, ap, ◌∙◌, refl, arith, true, false, Option, none, List, [],
  ◌∷◌, inl, inr, length, select, order_by,
}
use campo_sig.Common.Members.{mem-select_inv, mem-order_by_inv, mem-take_inv}
use campo_sig.Integrations.Ledger.{IntegrationEvent, Ledger, is_due_at, is_due, due_le, due_events}
use campo_sig.Integrations.Sound.{IsSound}
use campo_sig.Integrations.Attempts.{IsForward}
use campo_sig.Integrations.Pass.{
  RowStep, gone, skipped, tried, HasRow, accounted, pass_row-RowStep, attempted-IsSound,
  attempted_rows, attempted_kept, attempted-HasRow,
}
use campo_sig.Integrations.Delivery.{
  Network, Settings, url_of, DeliveryReport, get_event, pass_row, pass, run_once, batch,
  no_deliveries,
}

module _ (network : Network) (settings : Settings) where
  -- No row with the identifier has a connector with a URL and an attempt due at a time.
  abbrev pub Cleared : ℕ → ℕ → Ledger → Type 0
  Cleared t id db =
      (x : IntegrationEvent)
      → Memᴰ x db.events
      → x.id ≡ id
      → url_of settings x.connector ≢ ""
      → is_due_at x.next_attempt_at t ≡ false

  module _ (id : ℕ) (s t : DeliveryReport × Ledger) (step : RowStep network settings id s t) where
    step-IsSound : IsSound s.1 → IsSound t.1
    step-IsSound sound = elim step [
      | gone _ h ↦ rw h sound
      | skipped _ _ _ _ _ h ↦ rw h sound
      | tried e e' m _ _ done ↦ attempted-IsSound e s.1 e' t.1 m done sound
    ]

    step-HasRow : (j : ℕ) → HasRow j s.1 → HasRow j t.1
    step-HasRow j row = elim step [
      | gone _ h ↦ rw h row
      | skipped _ _ _ _ _ h ↦ rw h row
      | tried e e' m _ _ done ↦ attempted-HasRow e s.1 e' t.1 m done j row
    ]

    step_accounted : HasRow id s.1 → accounted t.0 ≡ accounted s.0 + 1
    step_accounted (x, m, same) = elim step [
      | gone other _ ↦ absurd (other x m same)
      | skipped _ _ _ _ h _ ↦ h
      | tried _ _ _ _ h _ ↦ h
    ]

    step_later : s.1.now ≤ t.1.now
    step_later = elim step [
      | gone _ h ↦ rw h (omega arith)
      | skipped _ _ _ _ _ h ↦ rw h (omega arith)
      | tried e e' m _ _ done ↦ done.later
    ]

    step_kept : (x : IntegrationEvent) → Memᴰ x s.1.events → x.id ≢ id → Memᴰ x t.1.events
    step_kept x m other = elim step [
      | gone _ h ↦ rw h m
      | skipped _ _ _ _ _ h ↦ rw h m
      | tried e e' n same _ done ↦ attempted_kept e s.1 e' t.1 n done x m (rw same other)
    ]

    step_keeps-Cleared : (at j : ℕ) → at ≤ s.1.now → Cleared at j s.1 → Cleared at j t.1
    step_keeps-Cleared at j past clear = elim step [
      | gone _ h ↦ rw h clear
      | skipped _ _ _ _ _ h ↦ rw h clear
      | tried e e' n _ _ done ↦ λ x m same url. elim (attempted_rows e s.1 e' t.1 n done x m) [
        | inl new ↦ rw new (done.rested at past)
        | inr (k, _) ↦ clear x k same url
      ]
    ]

    step_clears : (at : ℕ) → IsSound s.1 → at ≤ s.1.now → Cleared at id t.1
    step_clears at sound past = elim step [
      | gone other h ↦ λ x m same url. absurd (other x (rw h at m) same)
      | skipped e n here no_url _ h ↦ λ x m same url.
          let k : Memᴰ x s.1.events = rw h at m in
          let row = sound.table.keyed x e k n (same ∙ sym here) in absurd (url (rw row no_url))
      | tried e e' n here _ done ↦ λ x m same url. elim (attempted_rows e s.1 e' t.1 n done x m) [
        | inl new ↦ rw new (done.rested at past)
        | inr (k, other) ↦ absurd (other (same ∙ sym here))
      ]
    ]

  record Done (at : ℕ) (events : List IntegrationEvent) (s t : DeliveryReport × Ledger)
      : Type 0 where
    pub sound : IsSound t.1
    pub counted : accounted t.0 ≡ accounted s.0 + length events
    pub cleared : (e : IntegrationEvent) → Memᴰ e events → Cleared at e.id t.1
    pub still_cleared : (j : ℕ) → Cleared at j s.1 → Cleared at j t.1
    pub kept :
        (x : IntegrationEvent)
        → Memᴰ x s.1.events
        → ((e : IntegrationEvent) → Memᴰ e events → x.id ≢ e.id)
        → Memᴰ x t.1.events

  step-Done :
      (at : ℕ) (e : IntegrationEvent) (events : List IntegrationEvent)
      (s t u : DeliveryReport × Ledger)
      → RowStep network settings e.id s t
      → IsSound s.1
      → HasRow e.id s.1
      → at ≤ s.1.now
      → Done at events t u
      → Done at (e ∷ events) s u
  step-Done at e events s t u step sound row past rest = record {
    sound = rest.sound;
    counted = omega (arith, rest.counted, step_accounted e.id s t step row);
    cleared = λ x m. elim m [
      | Memᴰ.head h ↦ rw h (rest.still_cleared e.id (step_clears e.id s t step at sound past))
      | Memᴰ.tail n ↦ rest.cleared x n
    ];
    still_cleared = λ j h. rest.still_cleared j (step_keeps-Cleared e.id s t step at j past h);
    kept = λ x m other.
        rest.kept x (step_kept e.id s t step x m (other e (Memᴰ.head refl)))
          (λ y n. other y (Memᴰ.tail n));
  }

  module _ (forward : IsForward network) where
    pass-Done :
        (at : ℕ) (events : List IntegrationEvent) (s : DeliveryReport × Ledger)
        → IsSound s.1
        → ((e : IntegrationEvent) → Memᴰ e events → HasRow e.id s.1)
        → at ≤ s.1.now
        → Done at events s (pass network settings events s)
    unfolding pass
    pass-Done at [] s sound rows past = record {
      sound = sound;
      counted = omega arith;
      cleared = λ e m. elim m [ ];
      still_cleared = λ j h. h;
      kept = λ x m _. m;
    }
    pass-Done at (e ∷ events) s sound rows past =
        let t = pass_row network settings (get_event e.id s.1) s in
        let step = pass_row-RowStep network settings forward e.id s in
        let later = step_later e.id s t step in
        step-Done at e events s t (pass network settings events t) step sound
          (rows e (Memᴰ.head refl)) past
          (pass-Done at events t (step-IsSound e.id s t step sound)
            (λ x m. step-HasRow e.id s t step x.id (rows x (Memᴰ.tail m))) (omega arith))

    module _ (unit limit : Option ℕ) (db : Ledger) where
      abbrev due : List IntegrationEvent
      due = due_events unit none (batch settings limit) db.now db

      due_mem :
          (e : IntegrationEvent)
          → Memᴰ e due
          → Memᴰ e db.events × (is_due unit none db.now e ≡ true)
      unfolding due_events
      due_mem e m =
          let wanted = is_due unit none db.now in
          mem-select_inv wanted db.events e (
            mem-order_by_inv due_le (select wanted db.events) e
              (mem-take_inv (batch settings limit) (order_by due_le (select wanted db.events)) e m))

      -- Over a network where time does not run backwards, a pass from a sound ledger leaves a sound
      -- one. Its report counts every due event of the batch once. Of those, none with a URL for its
      -- connector is due any more at the time of the start. A row that was not due stays as it was.
      pub run_once_settles :
          IsSound db
          → IsSound (run_once network settings unit limit db).1
            × (accounted (run_once network settings unit limit db).0 ≡ length due)
            × ((e : IntegrationEvent)
                → Memᴰ e due
                → Cleared db.now e.id (run_once network settings unit limit db).1)
            × ((x : IntegrationEvent)
                → Memᴰ x db.events
                → is_due unit none db.now x ≡ false
                → Memᴰ x (run_once network settings unit limit db).1.events)
      unfolding run_once
      run_once_settles sound =
          let done =
            pass-Done db.now due (no_deliveries, db) sound (λ e m. (e, (due_mem e m).0, refl))
              (omega arith) in
          (
            done.sound,
            omega (arith, done.counted),
            done.cleared,
            (λ x m resting. done.kept x m (λ e n same.
                let (k, h) = due_mem e n in
                let row = sound.table.keyed x e m k same in
                absurd (false≢true (sym resting ∙ ap (is_due unit none db.now) row ∙ h)))),
          )
