-- ===== src/WorkOrders/Sound/Loop.antt =====
-- The sessions that `assign_each`, the loop of `assign_many` of backend/app/workorders/service.py, can
-- lead to, and what it answers for each order.
use mathlib.Core.List.{Memᴰ}
use campo_sig.Common.{ℕ, ◌≡◌, refl, ◌⊎◌, inl, inr, List, [], ◌∷◌}
use campo_sig.WorkOrders.Store.{WorkOrder, Db, Platform, Result, ok}
use campo_sig.WorkOrders.Own.{OwnRows}
use campo_sig.WorkOrders.Custody.{Assignment, assign}
use campo_sig.WorkOrders.Custody.Chain.{IsCustody}
use campo_sig.WorkOrders.Custody.Outcome.{assign-IsCustody, assign-Handover}
use campo_sig.WorkOrders.Custody.Many.{Refusal, refused, Outcome, assign_each}
use campo_sig.WorkOrders.Sound.Answers.{after_one-session, Behind, after_one-Behind}
use campo_sig.WorkOrders.Sound.Each.{still_stored}
use campo_sig.WorkOrders.Sound.Reach.{assigns, Reach, next}

-- What the answer says of an identifier.
abbrev pub Answered : Outcome → ℕ → Type 0
Answered out id =
    ((held : WorkOrder) × Memᴰ held out.assigned × (held.id ≡ id))
    ⊎ ((r : Refusal) × Memᴰ (id, r) out.failures)

module _ (platform : Platform) where
  pub assign_each-Reach :
      (orders : List WorkOrder) (a : Assignment) (start db : Db)
      → OwnRows orders
      → IsCustody db.custody db.next_id
      → ((o : WorkOrder) → Memᴰ o orders → Memᴰ o db.orders)
      → Reach platform start db
      → Reach platform start (assign_each platform orders a db).1
  unfolding assign_each
  assign_each-Reach [] a start db own chain inside run = run
  assign_each-Reach (order ∷ orders) a start db own chain inside run =
      let made = assign platform order a db in
      let once = next run (assigns order a (inside order (Memᴰ.head refl))) in
      elim (after_one-session platform order made.0 made.1 (assign_each platform orders a made.1)) [
        | inr e ↦ rw e once
        | inl e ↦ rw e (
            assign_each-Reach orders a start made.1 own.1
              (assign-IsCustody platform order a db chain)
              (still_stored platform order orders a db own chain inside) once)
      ]

  further :
      (order : WorkOrder) (r : Result WorkOrder) (db : Db) (rest : Result Outcome × Db)
      (out : Outcome) (id : ℕ)
      → (behind : Behind platform order r db rest out) → Answered behind.later id
      → Answered out id
  further order r db rest out id behind found = elim behind.whole [
    | inl (held, _, e) ↦
        rw e (elim found [ inl (h, m, k) ↦ inl (h, Memᴰ.tail m, k) | inr x ↦ inr x ])
    | inr (refusal, _, _, e) ↦
        rw e (elim found [ inl x ↦ inl x | inr (s, m) ↦ inr (s, Memᴰ.tail m) ])
  ]

  first_answer :
      (order : WorkOrder) (a : Assignment) (db : Db) (rest : Result Outcome × Db) (out : Outcome)
      → IsCustody db.custody db.next_id
      → Behind platform order (assign platform order a db).0 (assign platform order a db).1 rest out
      → Answered out order.id
  first_answer order a db rest out chain behind = elim behind.whole [
    | inl (held, done, e) ↦
        let left = assign-Handover platform order a db held chain done in
        rw e (inl (held, Memᴰ.head refl, left.handed.same_id))
    | inr (e, _, _, same) ↦ rw same (inr (refused e, Memᴰ.head refl))
  ]

  pub assign_each-Answered :
      (orders : List WorkOrder) (a : Assignment) (db : Db) (out : Outcome)
      → IsCustody db.custody db.next_id
      → (assign_each platform orders a db).0 ≡ ok out
      → (o : WorkOrder) → Memᴰ o orders
      → Answered out o.id
  unfolding assign_each
  assign_each-Answered [] a db out chain h o m = elim m [ ]
  assign_each-Answered (order ∷ orders) a db out chain h o (Memᴰ.head e) =
      let made = assign platform order a db in
      let behind =
        after_one-Behind platform order made.0 made.1 (assign_each platform orders a made.1) out
          h in
      rw e (first_answer order a db _ out chain behind)
  assign_each-Answered (order ∷ orders) a db out chain h o (Memᴰ.tail m) =
      let made = assign platform order a db in
      let behind =
        after_one-Behind platform order made.0 made.1 (assign_each platform orders a made.1) out
          h in
      further order made.0 made.1 _ out o.id behind (
        assign_each-Answered orders a made.1 behind.later
          (assign-IsCustody platform order a db chain) behind.returned o m)
