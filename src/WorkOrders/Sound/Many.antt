-- ===== src/WorkOrders/Sound/Many.antt =====
-- What `assign_many` of backend/app/workorders/service.py leaves in the session, and what it answers
-- for each identifier of the selection.
use mathlib.Core.List.{Memᴰ}
use campo_sig.Common.{
  ℕ, ◌≡◌, ◌≢◌, refl, sym, ◌∙◌, ◌⊎◌, inl, inr, Bool, true, false, Option, String, List, ◌++◌, map,
  arith, Bool-cases, ◌==◌, ==_iff, exists, false≢true,
}
use campo_sig.Common.Members.{
  exists-mem, exists-none-mem, mem-select, mem-select_inv, mem-map, mem-map_inv, mem-append_left,
  mem-append_right, mem-append_inv,
}
use campo_sig.WorkOrders.Store.{WorkOrder, Crew, Db, Platform, Failure, Result, ok, err}
use campo_sig.WorkOrders.Own.{OwnRows, OwnRows-select, OwnRows-keyed}
use campo_sig.WorkOrders.Custody.Chain.{IsCustody}
use campo_sig.WorkOrders.Custody.Many.{
  Refusal, missing, refused, Outcome, selection, not_found, with_missing, assign_each, assign_many,
  selected,
}
use campo_sig.WorkOrders.Sound.Reach.{Reach, here}
use campo_sig.WorkOrders.Sound.Each.{Assigned, Refused, Each}
use campo_sig.WorkOrders.Sound.Placed.{assign_each-Each}
use campo_sig.WorkOrders.Sound.Loop.{Answered, assign_each-Reach, assign_each-Answered}

mem-exists : (p : ℕ → Bool) (xs : List ℕ) (x : ℕ) → Memᴰ x xs → p x ≡ true → exists p xs ≡ true
mem-exists p xs x m h = elim (Bool-cases (exists p xs)) [
  | inl t ↦ t
  | inr f ↦ absurd (false≢true (sym (exists-none-mem p xs x f m) ∙ h))
]

module _ (platform : Platform) where
  with_missing-session :
      (ids : List ℕ) (made : Result Outcome × Db) → (with_missing platform ids made).1 ≡ made.1
  with_missing-session ids (ok out, db) = refl
  with_missing-session ids (err e, db) = refl

  -- The answer of the loop, inside that of the call.
  with_missing-inv :
      (ids : List ℕ) (made : Result Outcome × Db) (out : Outcome)
      → (with_missing platform ids made).0 ≡ ok out
      → (inner : Outcome) × (made.0 ≡ ok inner)
        × (out ≡ record inner { failures = map (λ (n : ℕ). (n, missing)) ids ++ inner.failures })
  with_missing-inv ids (ok inner, db) out h = (inner, refl, cc)
  with_missing-inv ids (err e, db) out h = absurd (cc h)

  module _ (scope : WorkOrder → Bool) (unit : ℕ) (ids : List ℕ) (crew : Crew)
      (reason granted_by : Option String) (db : Db) where
    abbrev after : Result Outcome × Db
    after = assign_many platform scope unit ids crew reason granted_by db

    -- An order that the selection names, in the unit and in the person's part of it.
    pub record Selected (order : WorkOrder) : Type 0 where
      pub stored : Memᴰ order db.orders
      pub in_unit : order.business_unit_id ≡ unit
      pub asked : Memᴰ order.id ids
      pub in_scope : scope order ≡ true

    -- What the call leaves and answers where it returns.
    pub record Answer (out : Outcome) (last : Db) : Type 0 where
      pub assigned :
          (held : WorkOrder)
          → Memᴰ held out.assigned
          → (order : WorkOrder) × Selected order
            × Assigned (selection crew reason granted_by) order held last
      pub failures :
          (id : ℕ) (r : Refusal)
          → Memᴰ (id, r) out.failures
          → ((r ≡ missing) × Memᴰ id ids × ((o : WorkOrder) → Selected o → o.id ≢ id))
            ⊎ (order : WorkOrder) × Selected order
              × (order.id ≡ id)
              × Refused (selection crew reason granted_by) order last
              × ((e : Failure) × (r ≡ refused e))
      pub others : (o : WorkOrder) → Memᴰ o db.orders → ¬ Selected o → Memᴰ o last.orders
      pub answered : (id : ℕ) → Memᴰ id ids → Answered out id

    pub record Done : Type 0 where
      pub reached : Reach platform db after.1
      pub answer : (out : Outcome) → after.0 ≡ ok out → Answer out after.1

    abbrev found : List WorkOrder
    found = selected platform scope unit ids db

    found-Selected : (o : WorkOrder) → Memᴰ o found → Selected o
    found-Selected o m =
        let (stored, all) = mem-select_inv _ db.orders o m in
        let unit_iff = ==_iff o.business_unit_id unit in
        let named : exists (λ (id : ℕ). o.id == id) ids ≡ true = ground arith in
        let (id, n, same) = exists-mem (λ (id : ℕ). o.id == id) ids named in
        record {
          stored = stored;
          in_unit = ground arith;
          asked = rw ((==_iff o.id id).0 same) n;
          in_scope = ground arith;
        }

    Selected-found : (o : WorkOrder) → Selected o → Memᴰ o found
    Selected-found o s =
        let named : exists (λ (id : ℕ). o.id == id) ids ≡ true =
          mem-exists _ ids o.id s.asked ((==_iff o.id o.id).1 refl) in
        let same_unit = (==_iff o.business_unit_id unit).1 s.in_unit in
        mem-select _ db.orders o s.stored (rw (same_unit, named, s.in_scope) refl)

    found_or_missing :
        (id : ℕ)
        → Memᴰ id ids
        → Memᴰ id (not_found found ids) ⊎ (o : WorkOrder) × Memᴰ o found × (o.id ≡ id)
    found_or_missing id m =
        let p : WorkOrder → Bool = λ o. o.id == id in
        elim (Bool-cases (exists p found)) [
          | inl t ↦ let (o, n, e) = exists-mem p found t in inr (o, n, (==_iff o.id id).0 e)
          | inr f ↦ inl (mem-select _ ids id m (rw f refl))
        ]

    missing_inv :
        (id : ℕ)
        → Memᴰ id (not_found found ids)
        → Memᴰ id ids × ((o : WorkOrder) → Selected o → o.id ≢ id)
    missing_inv id m =
        let p : WorkOrder → Bool = λ o. o.id == id in
        let (n, h) = mem-select_inv _ ids id m in
        let none_found : exists p found ≡ false = ground arith in
        (
          n,
          λ o s same. false≢true (
              sym (exists-none-mem p found o none_found (Selected-found o s))
              ∙ (==_iff o.id id).1 same),
        )

    -- The answer of the loop, with the identifiers that were not found in front.
    loop-Answer :
        (inner : Outcome) (last : Db)
        → OwnRows db.orders
        → Each found (selection crew reason granted_by) db inner last
        → ((o : WorkOrder) → Memᴰ o found → Answered inner o.id)
        → Answer
            (record inner {
              failures = map (λ (n : ℕ). (n, missing)) (not_found found ids) ++ inner.failures;
            })
            last
    loop-Answer inner last own each all_answered = record {
      assigned = λ held m. let (o, n, done) = each.assigned held m in (o, found-Selected o n, done);
      failures = λ id r m. elim (mem-append_inv _ inner.failures (id, r) m) [
        | inl n ↦
            let (k, in_missing, e) = mem-map_inv (λ (n : ℕ). (n, missing)) _ (id, r) n in
            let (asked, none_selected) = missing_inv k in_missing in
            inl (cc, rw (id_of id k r e) asked, rw (id_of id k r e) none_selected)
        | inr n ↦
            let (o, k, same, done, why) = each.failures id r n in
            inr (o, found-Selected o k, same, done, why)
      ];
      others = λ o m away. each.others o m (λ x n same.
          let s = found-Selected x n in
          away (rw (OwnRows-keyed db.orders o x own m s.stored same) s));
      answered = λ id m. elim (found_or_missing id m) [
        | inl n ↦
            inr (
              missing,
              mem-append_left _ inner.failures _ (mem-map (λ (n : ℕ). (n, missing)) _ id n),
            )
        | inr (o, n, e) ↦ elim (all_answered o n) [
          | inl (held, k, same) ↦ inl (held, k, same ∙ e)
          | inr (r, k) ↦ inr (r, mem-append_right _ inner.failures (id, r) (rw e at k))
        ]
      ];
    }
      where
        id_of : (id k : ℕ) (r : Refusal) → ◌≡◌ {A = ℕ × Refusal} (id, r) (k, missing) → id ≡ k
        id_of id k r e = cc

    -- For orders with one row and at most one open custody each: `assign_many` leaves a session that
    -- calls of the services on stored orders lead to, whether it returns or raises. Where it returns,
    -- every identifier of the selection is answered. An order that is listed as assigned was selected,
    -- its guards held, and it is stored so, `asignada`, one version on, with an open custody for the
    -- crew. A failure is an identifier of the selection that no selected order has, or a selected
    -- order whose guards did not hold and that is stored as it was. No other order changes.
    pub assign_many-Done : OwnRows db.orders → IsCustody db.custody db.next_id → Done
    unfolding assign_many
    assign_many-Done own chain =
        let a = selection crew reason granted_by in
        let own_found = OwnRows-select _ db.orders own in
        let stored = λ (o : WorkOrder) (m : Memᴰ o found). (found-Selected o m).stored in
        let loop = assign_each platform found a db in
        elim (Bool-cases (crew.business_unit_id == unit)) [
          | inr f ↦ record { reached = rw f here; answer = λ out h. absurd (cc (rw f at h)) }
          | inl t ↦ record {
            reached =
                rw (t, with_missing-session (not_found found ids) loop)
                  (assign_each-Reach platform found a db db own_found chain stored here);
            answer = λ out h.
                let (inner, returned, e) =
                  with_missing-inv (not_found found ids) loop out (rw t at h) in
                rw (t, with_missing-session (not_found found ids) loop, e)
                  (loop-Answer inner loop.1 own
                    (assign_each-Each platform found a db inner own_found chain stored returned)
                    (assign_each-Answered platform found a db inner chain returned));
          }
        ]
