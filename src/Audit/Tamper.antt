-- ===== src/Audit/Tamper.antt =====
-- What a verified chain of audit/service.py shows of changes to its events, and what it does not.
use campo_sig.Common.{ℕ, ◌+◌, String, ◌≡◌, refl, sym, ◌∙◌, true, List, [], ◌∷◌, map, arith, length}
use campo_sig.Audit.{AuditEvent, Hashing, recompute, canonical, genesis, intact, events_of, verify}
use campo_sig.Audit.Chain.{Linked, end_hash, verify-intact_iff}

module _ (hashing : Hashing) where
  -- Where two events at the same place have one digest, they hold the same columns.
  abbrev pub NoCollision : List AuditEvent → List AuditEvent → Type 0
  NoCollision (x ∷ xs) (y ∷ ys) =
      (recompute hashing x ≡ recompute hashing y
        → (x.prev_hash ≡ y.prev_hash) × (canonical x ≡ canonical y))
      × NoCollision xs ys
  NoCollision _ _ = Unit

  Linked-injective :
      (p q : String) (n m : ℕ) (xs ys : List AuditEvent)
      → Linked hashing p n xs
      → Linked hashing q m ys
      → NoCollision xs ys
      → length xs ≡ length ys
      → end_hash hashing p xs ≡ end_hash hashing q ys
      → (p ≡ q) × (map canonical xs ≡ map canonical ys)
  Linked-injective p q n m [] [] h k apart sized ends = (ends, refl)
  Linked-injective p q n m [] (y ∷ ys) h k apart sized ends = absurd (omega arith)
  Linked-injective p q n m (x ∷ xs) [] h k apart sized ends = absurd (omega arith)
  Linked-injective p q n m (x ∷ xs) (y ∷ ys) h k apart sized ends =
      let rest =
        Linked-injective x.hash y.hash (n + 1) (m + 1) xs ys h.3 k.3 apart.1 (omega arith) ends in
      let same = apart.0 (h.2 ∙ (rest.0 ∙ sym k.2)) in
      (sym h.1 ∙ (same.0 ∙ k.1), cc (same.1, rest.1))

  -- Take two states of the trail that both verify for a unit, with as many events of it and the
  -- same digest at the end, where no two events at one place collide. Then the unit's events hold
  -- the same canonical columns throughout: nothing before the end can be rewritten unnoticed.
  pub verify_tamper_evident :
      (trail other : List AuditEvent) (unit : ℕ)
      → intact (verify hashing trail unit) ≡ true
      → intact (verify hashing other unit) ≡ true
      → length (events_of trail unit) ≡ length (events_of other unit)
      → end_hash hashing genesis (events_of trail unit)
        ≡ end_hash hashing genesis (events_of other unit)
      → NoCollision (events_of trail unit) (events_of other unit)
      → map canonical (events_of trail unit) ≡ map canonical (events_of other unit)
  verify_tamper_evident trail other unit h k sized ends apart =
      (Linked-injective genesis genesis 1 1 (events_of trail unit) (events_of other unit)
        ((verify-intact_iff hashing trail unit).0 h) ((verify-intact_iff hashing other unit).0 k)
        apart sized ends).1
