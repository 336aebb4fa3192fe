-- ===== src/Integrations/Publishing.antt =====
-- What `publish` of backend/app/integrations/service.py makes of the exchange with one identity.
use mathlib.Core.List.{Memᴰ}
use campo_sig.Common.{
  ◌≡◌, ◌≢◌, sym, ap, ◌∙◌, refl, ◌↔◌, arith, true, false, none, some, [], ◌∷◌, Bool-cases,
  Option-cases, inl, inr, eq_iff, first, first-some,
}
use campo_sig.Common.Members.{first-mem, first-none-mem, mem-append_left, mem-append_right}
use campo_sig.Common.Keyed.{put_row, put_here, put_kept, add_row}
use campo_sig.Integrations.Sound.{
  SameExchange, IsSound, unchanged, add_event-IsSound, put_event-IsSound,
}
use campo_sig.Integrations.Ledger.{
  IntegrationEvent, Ledger, Publication, Direction, inbound, outbound, EventStatus, pending,
  delivered, failed, abandoned, event_id, has_identity, is_direction, is_delivered, publish,
  publish_over, new_event, requeued, put_event, add_event, or_empty,
}

pub record Identifies (p : Publication) (e : IntegrationEvent) : Type 0 where
  pub connector : e.connector ≡ p.connector
  pub direction : e.direction ≡ p.direction
  pub key : e.idempotency_key ≡ p.idempotency_key

is_direction_iff : (a b : Direction) → (is_direction a b ≡ true) ↔ (a ≡ b)
is_direction_iff inbound inbound = ((λ h. refl), (λ h. refl))
is_direction_iff outbound outbound = ((λ h. refl), (λ h. refl))
is_direction_iff inbound outbound = ((λ h. cc), (λ h. cc))
is_direction_iff outbound inbound = ((λ h. cc), (λ h. cc))

pub has_identity_iff :
    (p : Publication) (e : IntegrationEvent) → (has_identity p e ≡ true) ↔ Identifies p e
unfolding has_identity
has_identity_iff p e =
    let text_iff = eq_iff e.connector p.connector in
    let key_iff = eq_iff e.idempotency_key p.idempotency_key in
    let dir_iff = is_direction_iff e.direction p.direction in ground arith

same_identity :
    {p : Publication} {a b : IntegrationEvent} → Identifies p a → Identifies p b → SameExchange a b
same_identity h k = record {
  connector = h.connector ∙ sym k.connector;
  direction = h.direction ∙ sym k.direction;
  key = h.key ∙ sym k.key;
}

-- The ledger behind a publication: the exchange has one row, the returned event. A row that was
-- delivered stays as it was, any other is due now with the new payload, and no other row changes.
pub record Published (p : Publication) (db : Ledger) (e : IntegrationEvent) (db' : Ledger)
    : Type 0 where
  pub identified : Identifies p e
  pub stored : Memᴰ e db'.events
  pub only : (x : IntegrationEvent) → Memᴰ x db'.events → Identifies p x → x ≡ e
  pub delivered_once :
      (x : IntegrationEvent)
      → Memᴰ x db.events
      → Identifies p x
      → x.status ≡ delivered
      → (e ≡ x) × (db' ≡ db)
  pub due_now :
      ((x : IntegrationEvent) → Memᴰ x db.events → Identifies p x → x.status ≢ delivered)
      → (e.status ≡ pending) × (e.payload ≡ or_empty p.payload) × (e.next_attempt_at ≡ some db.now)
  pub others : (x : IntegrationEvent) → ¬ Identifies p x → Memᴰ x db'.events ↔ Memᴰ x db.events

is_delivered_iff : (s : EventStatus) → (is_delivered s ≡ true) ↔ (s ≡ delivered)
is_delivered_iff delivered = ((λ h. refl), (λ h. refl))
is_delivered_iff pending = ((λ h. cc), (λ h. cc))
is_delivered_iff failed = ((λ h. cc), (λ h. cc))
is_delivered_iff abandoned = ((λ h. cc), (λ h. cc))

module _ (p : Publication) (db : Ledger) where
  missing :
      first (has_identity p) db.events ≡ none
      → (x : IntegrationEvent) → Memᴰ x db.events
      → ¬ Identifies p x
  missing none_found x m h =
      let unseen = first-none-mem (has_identity p) db.events x none_found m in
      let seen = (has_identity_iff p x).1 h in cc

  new_event-Identifies : Identifies p (new_event p db)
  new_event-Identifies = record { connector = refl; direction = refl; key = refl }

  new_event-Published :
      first (has_identity p) db.events ≡ none
      → Published p db (new_event p db) (add_event (new_event p db) db)
  unfolding add_event
  new_event-Published none_found = record {
    identified = new_event-Identifies;
    stored = mem-append_right db.events (new_event p db ∷ []) (new_event p db) (Memᴰ.head refl);
    only = λ x m h. elim (add_row event_id db.events (new_event p db) x m) [
      | inl n ↦ absurd (missing none_found x n h)
      | inr e ↦ e
    ];
    delivered_once = λ x m h _. absurd (missing none_found x m h);
    due_now = λ _. (refl, refl, refl);
    others = λ x h. (
      (λ m. elim (add_row event_id db.events (new_event p db) x m) [
        | inl n ↦ n
        | inr e ↦ absurd (h (rw e new_event-Identifies))
      ]),
      (λ m. mem-append_left db.events (new_event p db ∷ []) x m),
    );
  }

  module _ (sound : IsSound db) (e : IntegrationEvent)
      (found : first (has_identity p) db.events ≡ some e) where
    found_mem : Memᴰ e db.events
    found_mem = first-mem (has_identity p) db.events e found

    found_identity : Identifies p e
    found_identity = (has_identity_iff p e).0 (first-some (has_identity p) db.events e found)

    found_only : (x : IntegrationEvent) → Memᴰ x db.events → Identifies p x → x ≡ e
    found_only x m h = sound.unique x e m found_mem (same_identity h found_identity)

    delivered-Published : e.status ≡ delivered → Published p db e db
    delivered-Published done = record {
      identified = found_identity;
      stored = found_mem;
      only = found_only;
      delivered_once = λ x m h _. (sym (found_only x m h), refl);
      due_now = λ waiting. absurd (waiting e found_mem found_identity done);
      others = λ x h. ((λ m. m), (λ m. m));
    }

    abbrev new : IntegrationEvent
    new = requeued p db.now e

    new_identity : Identifies p new
    new_identity = record {
      connector = found_identity.connector;
      direction = found_identity.direction;
      key = found_identity.key;
    }

    requeued-Published : e.status ≢ delivered → Published p db new (put_event new db)
    unfolding put_event
    requeued-Published waiting = record {
      identified = new_identity;
      stored = put_here event_id db.events e new found_mem refl;
      only = λ x m h. elim (put_row event_id db.events new x m) [
        | inl here ↦ here
        | inr (n, other) ↦ absurd (other (ap event_id (found_only x n h)))
      ];
      delivered_once = λ x m h done. absurd (waiting (rw (found_only x m h) at done));
      due_now = λ _. (refl, refl, refl);
      others = λ x h. (
        (λ m. elim (put_row event_id db.events new x m) [
          | inl here ↦ absurd (h (rw here new_identity))
          | inr (n, _) ↦ n
        ]),
        (λ m.
            put_kept event_id db.events new x m
              (λ same. h (rw (sound.table.keyed x e m found_mem same) found_identity))),
      );
    }

  -- In a sound ledger, a publication leaves one row with its identity, the returned one. If there
  -- was a delivered row with that identity, nothing changes. If there was none, the row is pending
  -- and due at once, with the payload of this publication. Rows with another identity stay as they were.
  pub publish-Published : IsSound db → Published p db (publish p db).0 (publish p db).1
  unfolding publish publish_over
  publish-Published sound = elim (Option-cases (first (has_identity p) db.events)) [
    | inl none_found ↦ rw none_found (new_event-Published none_found)
    | inr (e, found) ↦ rw found (elim (Bool-cases (is_delivered e.status)) [
      | inl t ↦ rw t (delivered-Published sound e found ((is_delivered_iff e.status).0 t))
      | inr f ↦ rw f (
          requeued-Published sound e found
            (λ done. let g : is_delivered delivered ≡ false = rw done at f in cc))
    ])
  ]

  pub publish-IsSound : IsSound db → IsSound (publish p db).1
  unfolding publish publish_over
  publish-IsSound sound = elim (Option-cases (first (has_identity p) db.events)) [
    | inl none_found ↦ rw none_found (
        add_event-IsSound db (new_event p db) sound refl
          (λ x m h.
            missing none_found x m
              record { connector = h.connector; direction = h.direction; key = h.key })
          record { waiting = λ h k. cc; settled = λ h. absurd (h refl); attempted = λ h. cc })
    | inr (e, found) ↦ rw found (elim (Bool-cases (is_delivered e.status)) [
      | inl t ↦ rw t sound
      | inr f ↦ rw f (
          put_event-IsSound db e (requeued p db.now e) sound
            (first-mem (has_identity p) db.events e found)
            (unchanged refl record { connector = refl; direction = refl; key = refl })
            record { waiting = λ h k. cc; settled = λ h. absurd (h refl); attempted = λ h. cc })
    ])
  ]
