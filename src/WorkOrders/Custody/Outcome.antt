-- ===== src/WorkOrders/Custody/Outcome.antt =====
-- What `assign` of workorders/service.py leaves: the order, one new custody, and the old ones.
use campo_sig.Common.{
  ◌+◌, ◌≤◌, String, ◌≡◌, refl, ap, subst, ◌⊎◌, inl, inr, Bool, true, false, Option, none, some,
  List, [], ◌∷◌, ◌++◌, map, arith, Bool-cases,
}
use campo_sig.WorkOrders.State.{is_assignable, assigned}
use campo_sig.WorkOrders.Store.{
  WorkOrder, DeviceCustody, Db, Platform, Failure, concurrent_edit, not_assignable, cross_unit,
  unknown_form, Result, ok, err, replace_order, put_order,
}
use campo_sig.WorkOrders.Custody.{
  Assignment, assign, pin, pin_new, open_custody, close_custody, current_custody, version_to_pin,
  new_custody, held_by, stale, crew_elsewhere, seen_version,
}
use campo_sig.WorkOrders.Custody.Chain.{IsCustody, NoneOpen, add-IsCustody}
use campo_sig.WorkOrders.Custody.Ending.{Earlier}
use campo_sig.WorkOrders.Custody.Closing.{Closed, close_custody-Closed}

-- The guards of `assign`.
pub record MayAssign (order : WorkOrder) (a : Assignment) : Type 0 where
  pub is_fresh : stale a.expected_version order.version ≡ false
  pub can_assign : is_assignable order.state ≡ true
  pub in_unit : crew_elsewhere a.crew order.business_unit_id ≡ false

module _ (platform : Platform) (order : WorkOrder) (a : Assignment) (db : Db) where
  abbrev ended : Db
  ended = close_custody (current_custody db order.id) order.id a.reason db

  -- `assign` raises and changes nothing, or its guards hold and it makes its writes.
  pub assign_cases :
      ((e : Failure) × (assign platform order a db ≡ (err e, db)) × ¬ MayAssign order a)
      ⊎ MayAssign order a
        × (assign platform order a db ≡ pin platform a order order.form_version ended)
  unfolding assign
  assign_cases = elim (Bool-cases (stale a.expected_version order.version)) [
    | inl old ↦ inl (
      concurrent_edit order.version (seen_version a.expected_version),
      rw old,
      λ m. cc (m.is_fresh),
    )
    | inr is_fresh ↦ elim (Bool-cases (is_assignable order.state)) [
      | inr stuck ↦ inl (not_assignable order.state, rw (is_fresh, stuck), λ m. cc (m.can_assign))
      | inl can_assign ↦ elim (Bool-cases (crew_elsewhere a.crew order.business_unit_id)) [
        | inl elsewhere ↦
            inl (cross_unit, rw (is_fresh, can_assign, elsewhere), λ m. cc (m.in_unit))
        | inr in_unit ↦ inr (
          record { is_fresh = is_fresh; can_assign = can_assign; in_unit = in_unit },
          rw (is_fresh, can_assign, in_unit),
        )
      ]
    ]
  ]

  -- The order that `assign` hands over: held by the assignment's crew and person, in `asignada`.
  pub record Handed (held : WorkOrder) : Type 0 where
    pub same_id : held.id ≡ order.id
    pub same_parent : held.parent_id ≡ order.parent_id
    pub in_state : held.state ≡ assigned
    pub next_version : held.version ≡ order.version + 1
    pub crew : held.assigned_crew_id ≡ (held_by a order).assigned_crew_id
    pub person : held.assigned_user_sub ≡ a.user_sub

  -- What is left in the session: `opened` is where the order got its custody.
  pub record Handover (held : WorkOrder) (opened : Bool) (after : Db) : Type 0 where
    pub handed : Handed held
    pub orders : after.orders ≡ map (replace_order held) db.orders
    pub next_id : db.next_id ≤ after.next_id
    pub chain : IsCustody after.custody after.next_id
    pub custody :
        opened ≡ true
        → (rows : List DeviceCustody) × (after.custody
            ≡ rows ++ new_custody a order.id db.next_id db.now ∷ [])
          × Earlier order.id db.now a.reason db.custody rows
          × NoneOpen rows order.id

  open_custody-Handover :
      (u : Db) (held : WorkOrder)
      → Closed db u order.id a.reason
      → Handed held
      → Handover held true (open_custody platform a order held u).1
  unfolding open_custody
  open_custody-Handover u held c handed = record {
    handed = handed;
    orders = ap (map (replace_order held)) c.orders;
    next_id = omega (arith, c.next_id);
    chain = add-IsCustody c.chain (new_custody a order.id u.next_id u.now) refl c.free;
    custody = λ _. (u.custody, rw (c.next_id, c.now) refl, c.earlier, c.free);
  }

  -- The two ends of the writes: the order returned, or the form version that nothing gives.
  abbrev pub Ends : Result WorkOrder → WorkOrder → Bool → Type 0
  Ends result held true = result ≡ ok held
  Ends result held false = result ≡ err (unknown_form order.form_code)

  pin_new-Handover :
      (u : Db) (v : Option String)
      → Closed db u order.id a.reason
      → (held : WorkOrder) × (opened : Bool) × Ends (pin_new platform a order v u).0 held opened
        × Handover held opened (pin_new platform a order v u).1
  unfolding put_order
  pin_new-Handover u none c = (
    held_by a order,
    false,
    refl,
    record {
      handed = record {
        same_id = refl;
        same_parent = refl;
        in_state = refl;
        next_version = refl;
        crew = refl;
        person = refl;
      };
      orders = ap (map (replace_order (held_by a order))) c.orders;
      next_id = omega (arith, c.next_id);
      chain = c.chain;
      custody = λ h. cc;
    },
  )
  pin_new-Handover u (some v) c =
      let held = record (held_by a order) { form_version = some v } in
      (
        held,
        true,
        (unfold open_custody in refl),
        open_custody-Handover u held c (record {
          same_id = refl;
          same_parent = refl;
          in_state = refl;
          next_version = refl;
          crew = refl;
          person = refl;
        }),
      )

  pin-Handover :
      (u : Db) (v : Option String)
      → Closed db u order.id a.reason
      → (held : WorkOrder) × (opened : Bool) × Ends (pin platform a order v u).0 held opened
        × Handover held opened (pin platform a order v u).1
  pin-Handover u none c = pin_new-Handover u (version_to_pin u order.form_code) c
  pin-Handover u (some v) c = (
    held_by a order,
    true,
    (unfold open_custody in refl),
    open_custody-Handover u (held_by a order) c (record {
      same_id = refl;
      same_parent = refl;
      in_state = refl;
      next_version = refl;
      crew = refl;
      person = refl;
    }),
  )

  pub assign_writes :
      IsCustody db.custody db.next_id
      → MayAssign order a
      → (held : WorkOrder) × (opened : Bool) × Ends (assign platform order a db).0 held opened
        × Handover held opened (assign platform order a db).1
  assign_writes chain may = elim assign_cases [
    | inl (e, raised, refused) ↦ absurd (refused may)
    | inr (_, done) ↦
        rw done
          (pin-Handover ended order.form_version (close_custody-Closed db order.id a.reason chain))
  ]

  -- Where every order has at most one open custody, it is so after `assign`, on every branch.
  pub assign-IsCustody :
      IsCustody db.custody db.next_id
      → IsCustody (assign platform order a db).1.custody (assign platform order a db).1.next_id
  assign-IsCustody chain = elim assign_cases [
    | inl (e, raised, refused) ↦ rw raised chain
    | inr (may, done) ↦ let (held, opened, ends, left) = assign_writes chain may in left.chain
  ]

  -- For rows of which at most one is open for an order. Where `assign` returns, the order is
  -- `asignada`, one version on and held by the assignment, and the new custody row stands behind the
  -- earlier rows. Those are the rows from before, one by one: the row of the order that was open ends
  -- now, with the reason of the assignment or its own where that has none; each keeps its identifier,
  -- its holder and its beginning, the rows that had ended keep their end, and the rows of other
  -- orders are untouched. None of them is open for the order.
  pub assign-Handover :
      (held : WorkOrder)
      → IsCustody db.custody db.next_id
      → (assign platform order a db).0 ≡ ok held
      → Handover held true (assign platform order a db).1
  assign-Handover held chain returned = elim assign_cases [
    | inl (e, raised, refused) ↦ cc (ap (λ (r : Result WorkOrder × Db). r.0) raised, returned)
    | inr (may, done) ↦ ended_so (assign_writes chain may)
  ]
    where
      ended_so :
          (held' : WorkOrder) × (opened : Bool) × Ends (assign platform order a db).0 held' opened
            × Handover held' opened (assign platform order a db).1
          → Handover held true (assign platform order a db).1
      ended_so (held', true, ends, left) =
          let same : held' ≡ held = cc (ends, returned) in
          subst (λ (h : WorkOrder). Handover h true (assign platform order a db).1) same left
      ended_so (held', false, ends, left) = cc (ends, returned)
