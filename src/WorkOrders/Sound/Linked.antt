-- ===== src/WorkOrders/Sound/Linked.antt =====
-- `attach` and `detach` of backend/app/workorders/fronts.py keep the table of the work orders sound.
use mathlib.Core.List.{Memᴰ}
use campo_sig.Common.{
  ℕ, String, ◌≡◌, ◌≢◌, refl, sym, ap, ◌∙◌, ◌⊎◌, inl, inr, true, none, some, [], map, arith,
  Option-cases,
}
use campo_sig.Common.Members.{not-mem-order_by}
use campo_sig.WorkOrders.Store.{WorkOrder, Db, Platform, replace_order}
use campo_sig.WorkOrders.Fronts.{
  is_open, is_child, is_attachable, children_of, attach, link, detach,
}
use campo_sig.WorkOrders.Sound.{put-IsSound}
use campo_sig.WorkOrders.Sound.Steps.{Sound, is_id_self}

-- `attach` returns only past its guards.
pub attach_cases :
    (platform : Platform) (unit : ℕ) (parent child : WorkOrder) (actor : String) (db : Db)
    → ((attach platform unit parent child actor db).1 ≡ db)
      ⊎ (attach platform unit parent child actor db ≡ link platform unit parent child actor db)
        × (parent.id ≢ child.id)
        × (parent.parent_id ≡ none)
        × (children_of platform db child.id ≡ [])
        × (is_open parent.state ≡ true)
unfolding attach is_open is_attachable
attach_cases platform unit parent child actor db = ground arith

link-orders :
    (platform : Platform) (unit : ℕ) (parent child : WorkOrder) (actor : String) (db : Db)
    → ((link platform unit parent child actor db).1.orders
        ≡ map (replace_order (record child { parent_id = some parent.id })) db.orders)
      × ((link platform unit parent child actor db).1.next_id ≡ db.next_id)
unfolding link
link-orders platform unit parent child actor db = (refl, refl)

no_fronts :
    (platform : Platform) (db : Db) (order c : WorkOrder)
    → children_of platform db order.id ≡ []
    → Memᴰ c db.orders
    → c.parent_id ≢ some order.id
unfolding children_of
no_fronts platform db order c childless m e =
    not-mem-order_by (is_child order.id) _ db.orders c childless m (is_id_self c order.id e)

pub attach-Sound :
    (platform : Platform) (unit : ℕ) (parent child : WorkOrder) (actor : String) (db : Db)
    → Memᴰ parent db.orders
    → Memᴰ child db.orders
    → Sound db
    → Sound (attach platform unit parent child actor db).1
attach-Sound platform unit parent child actor db m n sound =
    elim (attach_cases platform unit parent child actor db) [
      | inl same ↦ rw same sound
      | inr (linked, other, top, childless, is_open_parent) ↦
          let effect = link-orders platform unit parent child actor db in
          rw (linked, effect.0, effect.1)
            (put-IsSound sound child (record child { parent_id = some parent.id }) n refl
              (λ c k e. absurd (no_fronts platform db child c childless k e))
              (λ p k e.
                let same_id : parent.id ≡ p.id = ground arith in
                let same = sound.keyed parent p m k same_id in
                (
                  λ h. other (same_id ∙ h),
                  sym (ap (λ (r : WorkOrder). r.parent_id) same) ∙ top,
                  λ settled.
                      cc (is_open_parent, ap (λ (r : WorkOrder). is_open r.state) same, settled),
                ))
              (λ k e.
                let same_id : parent.id ≡ k = ground arith in omega (arith, sound.fresh parent m)))
    ]

detach_cases :
    (platform : Platform) (unit : ℕ) (child : WorkOrder) (actor : String) (db : Db)
    → ((detach platform unit child actor db).1 ≡ db)
      ⊎ ((detach platform unit child actor db).1.orders
          ≡ map (replace_order (record child { parent_id = none })) db.orders)
        × ((detach platform unit child actor db).1.next_id ≡ db.next_id)
unfolding detach
detach_cases platform unit child actor db = elim (Option-cases child.parent_id) [
  | inl e ↦ rw e (inl refl)
  | inr (n, e) ↦ rw e (inr (refl, refl))
]

pub detach-Sound :
    (platform : Platform) (unit : ℕ) (child : WorkOrder) (actor : String) (db : Db)
    → Memᴰ child db.orders
    → Sound db
    → Sound (detach platform unit child actor db).1
detach-Sound platform unit child actor db n sound =
    elim (detach_cases platform unit child actor db) [
      | inl same ↦ rw same sound
      | inr (rows, ids) ↦
          rw (rows, ids)
            (put-IsSound sound child (record child { parent_id = none }) n refl
              (λ c k e. (refl, λ settled. sound.settled child c n k e settled)) (λ p k e. cc)
              (λ k e. cc))
    ]
