-- ===== src/Audit/Chain.antt =====
-- What `verify` of audit/service.py accepts, and that every trail that `record` wrote is accepted.
use campo_sig.Common.{
  ℕ, ◌+◌, String, ◌≡◌, refl, sym, ap, append-nil, ◌∙◌, subst, ◌↔◌, true, Option, none, some, List,
  [], ◌∷◌, ◌++◌, arith, length, select, select-append, order_by, if◌then◌else◌, leb, Bool-cases,
  inl, inr, eq_iff, ==_iff, ◌==◌,
}
use campo_sig.Audit.{
  AuditEvent, Hashing, Entry, recompute, genesis, sequence_of, hash_of, walk, intact, greatest,
  tail, of_unit, next_event, append_event, events_of, verify,
}

module _ (hashing : Hashing) where
  -- The events run on from a digest and a sequence number with no gap, and each holds its digest.
  abbrev pub Linked : String → ℕ → List AuditEvent → Type 0
  Linked prev_hash sequence [] = Unit
  Linked prev_hash sequence (e ∷ es) =
      (e.sequence ≡ sequence)
      × (e.prev_hash ≡ prev_hash)
      × (recompute hashing e ≡ e.hash)
      × Linked e.hash (sequence + 1) es

  -- The trail's events of one unit, in the order of their insertion, form a chain from the start.
  abbrev pub IsChain : List AuditEvent → ℕ → Type 0
  IsChain trail unit = Linked genesis 1 (select (of_unit unit) trail)

  pub walk-Linked :
      (total : ℕ) (prev_hash : String) (sequence : ℕ) (es : List AuditEvent)
      → intact (walk hashing total prev_hash sequence es) ≡ true
      → Linked prev_hash sequence es
  unfolding walk
  walk-Linked total p n [] h = tt
  walk-Linked total p n (e ∷ es) h = (
    ground arith,
    ground (arith, eq_iff e.prev_hash p),
    ground (arith, eq_iff (recompute hashing e) e.hash),
    walk-Linked total e.hash (n + 1) es (ground arith),
  )

  pub Linked-walk :
      (total : ℕ) (prev_hash : String) (sequence : ℕ) (es : List AuditEvent)
      → Linked prev_hash sequence es
      → walk hashing total prev_hash sequence es
        ≡ record { events = total; broken_at = none; problem = none }
  unfolding walk
  Linked-walk total p n [] h = refl
  Linked-walk total p n (e ∷ es) h = ground (
    arith,
    eq_iff e.prev_hash p,
    eq_iff (recompute hashing e) e.hash,
    Linked-walk total e.hash (n + 1) es h.3,
  )

  -- What is linked is in the order of the sequence already.
  order_by-Linked :
      (prev_hash : String) (sequence : ℕ) (es : List AuditEvent)
      → Linked prev_hash sequence es
      → order_by (λ a b. leb a.sequence b.sequence) es ≡ es
  unfolding order_by
  order_by-Linked p n [] h = refl
  order_by-Linked p n (e ∷ []) h = refl
  order_by-Linked p n (e ∷ f ∷ es) h =
      rw (order_by-Linked e.hash (n + 1) (f ∷ es) h.3) (ground arith)

  -- The digest that the next event has to follow.
  abbrev pub end_hash : String → List AuditEvent → String
  end_hash p [] = p
  end_hash p (e ∷ es) = end_hash e.hash es

  greatest-Linked :
      (prev_hash : String) (sequence : ℕ) (e : AuditEvent) (es : List AuditEvent)
      → Linked prev_hash sequence (e ∷ es)
      → (last : AuditEvent) × (greatest (e ∷ es) ≡ some last)
        × (last.sequence ≡ sequence + length es)
        × (last.hash ≡ end_hash prev_hash (e ∷ es))
  unfolding greatest
  greatest-Linked p n e [] h = (e, refl, ground arith, refl)
  greatest-Linked p n e (f ∷ es) h =
      let (last, found, numbered, hashed) = greatest-Linked e.hash (n + 1) f es h.3 in
      (last, ground arith, omega arith, hashed)

  Linked-append :
      (prev_hash : String) (sequence : ℕ) (es : List AuditEvent) (e : AuditEvent)
      → Linked prev_hash sequence es
      → e.sequence ≡ sequence + length es
      → e.prev_hash ≡ end_hash prev_hash es
      → recompute hashing e ≡ e.hash
      → Linked prev_hash sequence (es ++ e ∷ [])
  Linked-append p n [] e h s q r = (omega arith, q, r, tt)
  Linked-append p n (x ∷ es) e h s q r =
      (h.0, h.1, h.2, Linked-append x.hash (n + 1) es e h.3 (omega arith) q r)

  next_event_columns :
      (unit now : ℕ) (entry : Entry) (previous : Option AuditEvent)
      → ((next_event hashing unit now entry previous).sequence ≡ sequence_of previous + 1)
        × ((next_event hashing unit now entry previous).prev_hash ≡ hash_of previous)
        × (recompute hashing (next_event hashing unit now entry previous)
            ≡ (next_event hashing unit now entry previous).hash)
        × ((next_event hashing unit now entry previous).business_unit_id ≡ unit)
  unfolding next_event
  next_event_columns unit now entry previous = (refl, refl, refl, refl)

  next_event-Linked :
      (unit now : ℕ) (entry : Entry) (es : List AuditEvent)
      → Linked genesis 1 es
      → Linked genesis 1 (es ++ next_event hashing unit now entry (greatest es) ∷ [])
  unfolding greatest
  next_event-Linked unit now entry [] h =
      let c = next_event_columns unit now entry none in (omega (arith, c.0), c.1, c.2, tt)
  next_event-Linked unit now entry (e ∷ es) h =
      let c = next_event_columns unit now entry (greatest (e ∷ es)) in
      let (last, found, numbered, hashed) = greatest-Linked genesis 1 e es h in
      Linked-append genesis 1 (e ∷ es) (next_event hashing unit now entry (greatest (e ∷ es))) h
        (omega (arith, c.0, ap sequence_of found)) (c.1 ∙ (ap hash_of found ∙ hashed)) c.2

  select_one :
      (writer unit now : ℕ) (entry : Entry) (previous : Option AuditEvent)
      → select (of_unit unit) (next_event hashing writer now entry previous ∷ [])
        ≡ (if writer == unit then next_event hashing writer now entry previous ∷ [] else [])
  unfolding select
  select_one writer unit now entry previous =
      rw ((next_event_columns writer now entry previous).3) refl

  pub append_event-IsChain :
      (trail : List AuditEvent) (now : ℕ) (entry : Entry) (writer unit : ℕ)
      → IsChain trail unit
      → IsChain (append_event hashing writer now entry trail) unit
  unfolding append_event tail
  append_event-IsChain trail now entry writer unit h =
      let e = next_event hashing writer now entry (tail trail writer) in
      rw
        (
          select-append (of_unit unit) trail (e ∷ []),
          select_one writer unit now entry (tail trail writer),
        )
        (elim (Bool-cases (writer == unit)) [
          | inl same ↦ rw same (
              subst
                (λ (w : ℕ). Linked genesis 1 (
                  select (of_unit unit) trail
                  ++ next_event hashing w now entry (tail trail w) ∷ []))
                (sym ((==_iff writer unit).0 same))
                (next_event-Linked unit now entry (select (of_unit unit) trail) h))
          | inr other ↦ rw (other, append-nil) h
        ])

  -- The trails that the platform can hold: `record` is the only function that writes one.
  pub data Recorded : List AuditEvent → Type 0 where
    empty : Recorded []
    append :
        {trail : List AuditEvent} (writer now : ℕ) (entry : Entry)
        → Recorded trail
        → Recorded (append_event hashing writer now entry trail)

  Recorded-IsChain : {trail : List AuditEvent} (unit : ℕ) → Recorded trail → IsChain trail unit
  unfolding select
  Recorded-IsChain unit empty = tt
  Recorded-IsChain unit (append {trail} writer now entry r) =
      append_event-IsChain trail now entry writer unit (Recorded-IsChain unit r)

  -- `verify` finds no problem exactly when the unit's events, by their sequence, are linked: they
  -- are numbered from 1 with no gap, each names the digest before it, and each holds the digest of
  -- its own columns.
  pub verify-intact_iff :
      (trail : List AuditEvent) (unit : ℕ)
      → (intact (verify hashing trail unit) ≡ true) ↔ Linked genesis 1 (events_of trail unit)
  unfolding verify
  verify-intact_iff trail unit = (
    walk-Linked _ genesis 1 _,
    λ h. rw (Linked-walk (length (events_of trail unit)) genesis 1 _ h),
  )

  pub IsChain-verify :
      (trail : List AuditEvent) (unit : ℕ)
      → IsChain trail unit
      → verify hashing trail unit
        ≡ record { events = length (select (of_unit unit) trail); broken_at = none; problem = none }
  unfolding verify
  IsChain-verify trail unit h =
      rw (order_by-Linked genesis 1 _ h)
        (Linked-walk (length (select (of_unit unit) trail)) genesis 1 _ h)

  -- Whatever the units that wrote and in whatever order, `verify` finds no problem in any unit's
  -- chain, and counts every event of that unit.
  pub verify-Recorded :
      {trail : List AuditEvent} (unit : ℕ)
      → Recorded trail
      → verify hashing trail unit
        ≡ record { events = length (select (of_unit unit) trail); broken_at = none; problem = none }
  verify-Recorded {trail} unit r = IsChain-verify trail unit (Recorded-IsChain unit r)
