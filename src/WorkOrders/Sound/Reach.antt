-- ===== src/WorkOrders/Sound/Reach.antt =====
-- The sessions that the services of workorders/ can lead to, in any order of calls.
use mathlib.Core.List.{Memᴰ}
use native.Mathlib.Nat.{le_refl}
use campo_sig.Common.{ℕ, ◌≤◌, String, ◌≡◌, refl, Option, List, inl, inr, arith, Option-cases}
use campo_sig.WorkOrders.State.{WorkOrderState}
use campo_sig.WorkOrders.Store.{WorkOrder, DeviceCustody, Db, Platform}
use campo_sig.WorkOrders.Fronts.{attach, detach, link}
use campo_sig.WorkOrders.Transition.{transition}
use campo_sig.WorkOrders.Transition.Outcome.{transition_cases, transition-Entered}
use campo_sig.WorkOrders.Times.{transfer_ownership, hand_over}
use campo_sig.WorkOrders.Custody.{Assignment, assign}
use campo_sig.WorkOrders.Custody.Chain.{IsCustody}
use campo_sig.WorkOrders.Custody.Outcome.{assign-IsCustody}
use campo_sig.WorkOrders.Intake.{NewOrder, create_work_order, insert_order}
use campo_sig.WorkOrders.Sound.Steps.{
  Sound, transition-Sound, assign-Sound, transfer-Sound, create-Sound,
}
use campo_sig.WorkOrders.Sound.Linked.{attach_cases, attach-Sound, detach-Sound}

weaken-IsCustody :
    {rows : List DeviceCustody} {n : ℕ} (m : ℕ) → n ≤ m → IsCustody rows n → IsCustody rows m
weaken-IsCustody m le c = record {
  keyed = c.keyed;
  fresh = λ p h. omega (arith, c.fresh p h);
  single = c.single;
}

-- The custodies are as they were, and identifiers are only given out.
abbrev KeepsCustody : Db → Db → Type 0
KeepsCustody before after = (after.custody ≡ before.custody) × (before.next_id ≤ after.next_id)

kept :
    (before after : Db)
    → KeepsCustody before after
    → IsCustody before.custody before.next_id
    → IsCustody after.custody after.next_id
kept before after (same, le) c = rw same (weaken-IsCustody after.next_id le c)

module _ (platform : Platform) where
  transition_keeps :
      (order : WorkOrder) (target : WorkOrderState) (reason actor : Option String) (at : Option ℕ)
      (db : Db)
      → KeepsCustody db (transition platform order target reason actor at db).1
  transition_keeps order target reason actor at db =
      elim (transition_cases platform order target reason actor at db) [
        | inl (e, raised, _) ↦ rw raised (refl, le_refl db.next_id)
        | inr (may, _) ↦
            let done = transition-Entered platform order target reason actor at db may in
            (done.custody, done.next_id)
      ]

  link_keeps :
      (unit : ℕ) (parent child : WorkOrder) (actor : String) (db : Db)
      → KeepsCustody db (link platform unit parent child actor db).1
  unfolding link
  link_keeps unit parent child actor db = (refl, le_refl db.next_id)

  attach_keeps :
      (unit : ℕ) (parent child : WorkOrder) (actor : String) (db : Db)
      → KeepsCustody db (attach platform unit parent child actor db).1
  attach_keeps unit parent child actor db =
      elim (attach_cases platform unit parent child actor db) [
        | inl same ↦ rw same (refl, le_refl db.next_id)
        | inr (linked, _, _, _, _) ↦ rw linked (link_keeps unit parent child actor db)
      ]

  detach_keeps :
      (unit : ℕ) (child : WorkOrder) (actor : String) (db : Db)
      → KeepsCustody db (detach platform unit child actor db).1
  unfolding detach
  detach_keeps unit child actor db = elim (Option-cases child.parent_id) [
    | inl e ↦ rw e (refl, le_refl db.next_id)
    | inr (n, e) ↦ rw e (refl, le_refl db.next_id)
  ]

  transfer_keeps :
      (order : WorkOrder) (to : String) (reason : Option String) (actor : String) (db : Db)
      → KeepsCustody db (transfer_ownership platform order to reason actor db).1
  unfolding transfer_ownership hand_over
  transfer_keeps order to reason actor db = ground (arith, le_refl db.next_id)

  create_keeps :
      (unit : ℕ) (n : NewOrder) (db : Db) → KeepsCustody db (create_work_order platform unit n db).1
  unfolding create_work_order insert_order
  create_keeps unit n db = ground (arith, le_refl db.next_id)

  -- One call of a service on stored orders, or the passing of time.
  pub data Step (db : Db) : Db → Type 0 where
    moves :
        (order : WorkOrder) (target : WorkOrderState) (reason actor : Option String) (at : Option ℕ)
        → Memᴰ order db.orders
        → Step db (transition platform order target reason actor at db).1
    attaches :
        (unit : ℕ) (parent child : WorkOrder) (actor : String)
        → Memᴰ parent db.orders
        → Memᴰ child db.orders
        → Step db (attach platform unit parent child actor db).1
    detaches :
        (unit : ℕ) (child : WorkOrder) (actor : String)
        → Memᴰ child db.orders
        → Step db (detach platform unit child actor db).1
    assigns :
        (order : WorkOrder) (a : Assignment)
        → Memᴰ order db.orders
        → Step db (assign platform order a db).1
    transfers :
        (order : WorkOrder) (to : String) (reason : Option String) (actor : String)
        → Memᴰ order db.orders
        → Step db (transfer_ownership platform order to reason actor db).1
    creates : (unit : ℕ) (n : NewOrder) → Step db (create_work_order platform unit n db).1
    ticks : (now : ℕ) → Step db (record db { now = now })

  pub data Reach (start : Db) : Db → Type 0 where
    here : Reach start start
    next : {db after : Db} → Reach start db → Step db after → Reach start after

  pub record IsGood (db : Db) : Type 0 where
    pub sound : Sound db
    pub chain : IsCustody db.custody db.next_id

  pub Step-IsGood : {db after : Db} → Step db after → IsGood db → IsGood after
  Step-IsGood {db} {after} (moves order target reason actor at m) g = record {
    sound = transition-Sound platform order target reason actor at db m g.sound;
    chain = kept db after (transition_keeps order target reason actor at db) g.chain;
  }
  Step-IsGood {db} {after} (attaches unit parent child actor m n) g = record {
    sound = attach-Sound platform unit parent child actor db m n g.sound;
    chain = kept db after (attach_keeps unit parent child actor db) g.chain;
  }
  Step-IsGood {db} {after} (detaches unit child actor m) g = record {
    sound = detach-Sound platform unit child actor db m g.sound;
    chain = kept db after (detach_keeps unit child actor db) g.chain;
  }
  Step-IsGood {db} {after} (assigns order a m) g = record {
    sound = assign-Sound platform order a db m g.chain g.sound;
    chain = assign-IsCustody platform order a db g.chain;
  }
  Step-IsGood {db} {after} (transfers order to reason actor m) g = record {
    sound = transfer-Sound platform order to reason actor db m g.sound;
    chain = kept db after (transfer_keeps order to reason actor db) g.chain;
  }
  Step-IsGood {db} {after} (creates unit n) g = record {
    sound = create-Sound platform unit n db g.sound;
    chain = kept db after (create_keeps unit n db) g.chain;
  }
  Step-IsGood (ticks now) g = record { sound = g.sound; chain = g.chain }

  -- From a sound session, whatever the calls, raising or not, and in whatever order: identifiers of
  -- orders stay unique, no front has fronts of its own, a closed or cancelled work has no open
  -- front, and every order has at most one open custody.
  pub Reach-IsGood : {start db : Db} → Reach start db → IsGood start → IsGood db
  Reach-IsGood here g = g
  Reach-IsGood (next r s) g = Step-IsGood s (Reach-IsGood r g)
