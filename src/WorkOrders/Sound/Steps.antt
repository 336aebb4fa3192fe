-- ===== src/WorkOrders/Sound/Steps.antt =====
-- Each service of workorders/ keeps the table of the work orders sound.
use mathlib.Core.List.{Memᴰ}
use campo_sig.Common.{
  ℕ, suc, ◌+◌, String, ◌≡◌, ◌≢◌, refl, sym, ap, ◌∙◌, ◌⊎◌, inl, inr, true, false, Option, some, List,
  [], ◌∷◌, ◌++◌, map, arith, Bool-cases, is_id, str_eq, is_text,
}
use campo_sig.Common.Members.{not-mem-select, map-eq-nil}
use campo_sig.WorkOrders.State.{WorkOrderState, draft, closed, cancelled, allowed, is_assignable}
use campo_sig.WorkOrders.Store.{WorkOrder, Db, Platform, replace_order}
use campo_sig.WorkOrders.Fronts.{is_open, is_child, children_of, open_fronts, blocking_fronts}
use campo_sig.WorkOrders.Transition.{transition}
use campo_sig.WorkOrders.Transition.Outcome.{moved, transition_cases, transition-Entered}
use campo_sig.WorkOrders.Custody.{Assignment, assign}
use campo_sig.WorkOrders.Custody.Chain.{IsCustody}
use campo_sig.WorkOrders.Custody.Outcome.{assign_cases, assign_writes}
use campo_sig.WorkOrders.Times.{transfer_ownership, hand_over}
use campo_sig.WorkOrders.Intake.{
  NewOrder, new_order, create_work_order, insert_order, has_definition, is_reference_taken,
}
use campo_sig.Common.Strip.{strip, is_blank}
use campo_sig.WorkOrders.Sound.{IsSound, put-IsSound, add-IsSound, weaken-IsSound}

abbrev pub Sound : Db → Type 0
Sound db = IsSound db.orders db.next_id

pub is_id_self : (c : WorkOrder) (n : ℕ) → c.parent_id ≡ some n → is_child n c ≡ true
unfolding is_id
is_id_self c n e = rw e (ground arith)

-- A settled order allows no move.
settled_stays : (s t : WorkOrderState) → is_open s ≡ false → allowed s t ≡ false
unfolding is_open allowed
settled_stays closed t h = refl
settled_stays cancelled t h = refl
settled_stays _ t h = cc

assignable_open : (s : WorkOrderState) → is_assignable s ≡ true → is_open s ≢ false
unfolding is_open is_assignable
assignable_open draft h = cc
assignable_open _ h = ground arith

-- An empty list of blocking fronts: no front of the order is open, if the order is to be settled.
free_fronts :
    (platform : Platform) (db : Db) (order c : WorkOrder) (target : WorkOrderState)
    → blocking_fronts platform db order target ≡ []
    → Memᴰ c db.orders
    → c.parent_id ≡ some order.id
    → is_open target ≡ false
    → is_open c.state ≡ false
unfolding blocking_fronts open_fronts children_of
free_fronts platform db order c target none_left m e settled =
    not-mem-select (is_child order.id) _ (λ (x : WorkOrder). is_open x.state) db.orders c
      (map-eq-nil _ _ (rw settled at none_left)) m (is_id_self c order.id e)

-- A write that leaves the parent as it is.
keep_parent-IsSound :
    {orders : List WorkOrder} {next_id : ℕ} (sound : IsSound orders next_id) (old new : WorkOrder)
    → Memᴰ old orders
    → new.id ≡ old.id
    → new.parent_id ≡ old.parent_id
    → (is_open new.state ≡ false
        → (c : WorkOrder) → Memᴰ c orders
        → c.parent_id ≡ some old.id
        → is_open c.state ≡ false)
    → (is_open old.state ≡ false → is_open new.state ≡ false)
    → IsSound (map (replace_order new) orders) next_id
keep_parent-IsSound sound old new stored same_id same_parent closing staying =
    put-IsSound sound old new stored same_id
      (λ c m e. (same_parent ∙ sound.flat old c stored m e, λ settled. closing settled c m e))
      (λ p m e.
        let e' = sym same_parent ∙ e in
        (
          λ same. cc (e', sound.flat old old stored stored (e' ∙ ap some same)),
          sound.flat p old m stored e',
          λ settled. staying (sound.settled p old m stored e' settled),
        ))
      (λ n e. sound.known old n stored (sym same_parent ∙ e))

-- The move of a stored order to another state keeps the table sound.
pub transition-Sound :
    (platform : Platform) (order : WorkOrder) (target : WorkOrderState)
    (reason actor : Option String) (at : Option ℕ) (db : Db)
    → Memᴰ order db.orders
    → Sound db
    → Sound (transition platform order target reason actor at db).1
transition-Sound platform order target reason actor at db stored sound =
    elim (transition_cases platform order target reason actor at db) [
      | inl (e, raised, _) ↦ rw raised sound
      | inr (may, _) ↦
          let done = transition-Entered platform order target reason actor at db may in
          rw (done.orders) (
            weaken-IsSound _ done.next_id (
              keep_parent-IsSound sound order (moved platform order target reason actor at db)
                stored refl refl
                (λ settled c m e. free_fronts platform db order c target may.is_free m e settled)
                (λ settled. cc (may.is_allowed, settled_stays order.state target settled))))
    ]

pub assign-Sound :
    (platform : Platform) (order : WorkOrder) (a : Assignment) (db : Db)
    → Memᴰ order db.orders
    → IsCustody db.custody db.next_id
    → Sound db
    → Sound (assign platform order a db).1
unfolding is_open is_assignable
assign-Sound platform order a db stored chain sound = elim (assign_cases platform order a db) [
  | inl (e, raised, _) ↦ rw raised sound
  | inr (may, _) ↦
      let (held, opened, ends, left) = assign_writes platform order a db chain may in
      rw left.orders (
        weaken-IsSound _ left.next_id (
          keep_parent-IsSound sound order held stored left.handed.same_id left.handed.same_parent
            (λ settled. cc (left.handed.in_state, settled))
            (λ settled. absurd (assignable_open order.state may.can_assign settled))))
]

transfer_cases :
    (platform : Platform) (order : WorkOrder) (to : String) (reason : Option String)
    (actor : String) (db : Db)
    → ((transfer_ownership platform order to reason actor db).1 ≡ db)
      ⊎ (new : WorkOrder) × ((transfer_ownership platform order to reason actor db).1.orders
          ≡ map (replace_order new) db.orders)
        × ((transfer_ownership platform order to reason actor db).1.next_id ≡ db.next_id)
        × (new.id ≡ order.id)
        × (new.parent_id ≡ order.parent_id)
        × (new.state ≡ order.state)
unfolding transfer_ownership hand_over
transfer_cases platform order to reason actor db = elim (Bool-cases (str_eq (strip to) "")) [
  | inl e ↦ rw e (inl refl)
  | inr e ↦ elim (Bool-cases (is_blank reason)) [
    | inl f ↦ rw (e, f) (inl refl)
    | inr f ↦ elim (Bool-cases (is_text order.planner_id (strip to))) [
      | inl g ↦ rw (e, f, g) (inl refl)
      | inr g ↦
          rw (e, f, g)
            (inr (
              record order { planner_id = some (strip to); version = order.version + 1 },
              refl,
              refl,
              refl,
              refl,
              refl,
            ))
    ]
  ]
]

pub transfer-Sound :
    (platform : Platform) (order : WorkOrder) (to : String) (reason : Option String)
    (actor : String) (db : Db)
    → Memᴰ order db.orders
    → Sound db
    → Sound (transfer_ownership platform order to reason actor db).1
transfer-Sound platform order to reason actor db stored sound =
    elim (transfer_cases platform order to reason actor db) [
      | inl same ↦ rw same sound
      | inr (new, rows, ids, same_id, same_parent, same_state) ↦
          rw (rows, ids)
            (keep_parent-IsSound sound order new stored same_id same_parent
              (λ settled c m e. sound.settled order c stored m e (rw same_state at settled))
              (λ settled. rw same_state settled))
    ]

create_cases :
    (platform : Platform) (unit : ℕ) (n : NewOrder) (db : Db)
    → ((create_work_order platform unit n db).1 ≡ db)
      ⊎ ((create_work_order platform unit n db).1.orders
          ≡ db.orders ++ new_order db.next_id unit db.now n ∷ [])
        × ((create_work_order platform unit n db).1.next_id ≡ suc db.next_id)
unfolding create_work_order insert_order
create_cases platform unit n db = elim (Bool-cases (has_definition db n.form_code)) [
  | inr e ↦ rw e (inl refl)
  | inl e ↦ elim (Bool-cases (is_reference_taken unit n.external_ref db)) [
    | inl t ↦ rw (e, t) (inl refl)
    | inr f ↦ rw (e, f) (inr (refl, refl))
  ]
]

pub create-Sound :
    (platform : Platform) (unit : ℕ) (n : NewOrder) (db : Db)
    → Sound db
    → Sound (create_work_order platform unit n db).1
create-Sound platform unit n db sound = elim (create_cases platform unit n db) [
  | inl same ↦ rw same sound
  | inr (rows, ids) ↦
      rw (rows, ids) (add-IsSound sound (new_order db.next_id unit db.now n) refl refl)
]
