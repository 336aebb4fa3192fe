-- ===== src/WorkOrders/Sound/Answers.antt =====
-- What the answer of `assign_each`, the loop of `assign_many` of backend/app/workorders/service.py,
-- has for the first order and for those behind it.
use campo_sig.Common.{◌≡◌, refl, ◌⊎◌, inl, inr, true, ◌∷◌, Bool-cases}
use campo_sig.WorkOrders.Store.{WorkOrder, Db, Platform, Failure, Result, ok, err}
use campo_sig.WorkOrders.Custody.Many.{refused, Outcome, is_caught, after_one}

module _ (platform : Platform) where
  pub after_one-session :
      (order : WorkOrder) (r : Result WorkOrder) (db : Db) (rest : Result Outcome × Db)
      → ((after_one platform order r db rest).1 ≡ rest.1)
        ⊎ ((after_one platform order r db rest).1 ≡ db)
  after_one-session order (ok held) db rest = inl refl
  after_one-session order (err e) db rest = elim (Bool-cases (is_caught e)) [
    | inl t ↦ rw t (inl refl)
    | inr f ↦ rw f (inr refl)
  ]

  -- An answer for the first order, in front of those for the later ones.
  pub record Behind (order : WorkOrder) (r : Result WorkOrder) (db : Db)
      (rest : Result Outcome × Db) (out : Outcome) : Type 0 where
    pub later : Outcome
    pub returned : rest.0 ≡ ok later
    pub session : (after_one platform order r db rest).1 ≡ rest.1
    pub whole :
        ((held : WorkOrder) × (r ≡ ok held)
          × (out ≡ record later { assigned = held ∷ later.assigned }))
        ⊎ ((e : Failure) × (r ≡ err e)
            × (is_caught e ≡ true)
            × (out ≡ record later { failures = (order.id, refused e) ∷ later.failures }))

  pub after_one-Behind :
      (order : WorkOrder) (r : Result WorkOrder) (db : Db) (rest : Result Outcome × Db)
      (out : Outcome)
      → (after_one platform order r db rest).0 ≡ ok out
      → Behind order r db rest out
  after_one-Behind order (ok held) db (ok later, last) out h = record {
    later = later;
    returned = refl;
    session = refl;
    whole = inl (held, refl, cc);
  }
  after_one-Behind order (ok held) db (err e, last) out h = absurd (cc h)
  after_one-Behind order (err e) db (ok later, last) out h = elim (Bool-cases (is_caught e)) [
    | inl t ↦
        let k : ok (record later { failures = (order.id, refused e) ∷ later.failures }) ≡ ok out =
          rw t at h in
        record { later = later; returned = refl; session = rw t refl; whole = inr (e, refl, t, cc) }
    | inr f ↦ absurd (cc (rw f at h))
  ]
  after_one-Behind order (err e) db (err g, last) out h = elim (Bool-cases (is_caught e)) [
    | inl t ↦ absurd (cc (rw t at h))
    | inr f ↦ absurd (cc (rw f at h))
  ]
