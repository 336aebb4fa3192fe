-- ===== src/WorkOrders/Times/Marked.antt =====
-- The milestones that the transitions of backend/app/workorders/service.py record.
use mathlib.Core.List.{Memᴰ}
use campo_sig.Common.{
  ℕ, String, ◌≡◌, refl, sym, ◌∙◌, inl, inr, false≢true, Option, none, some, Bool-cases, exists,
}
use campo_sig.Common.Members.{mem-append_left, exists-mem, exists-none-mem, mem-append_right}
use campo_sig.Common.Keyed.{Single, add-Single}
use campo_sig.WorkOrders.State.{WorkOrderState, Milestone, milestone_of_state}
use campo_sig.WorkOrders.Store.{WorkOrder, WorkOrderMilestone, Db, Platform}
use campo_sig.WorkOrders.Transition.{
  of_milestone, record_milestone, record_milestone_of, transition,
}
use campo_sig.WorkOrders.Transition.Outcome.{MayEnter, moved, transition-Entered}
use campo_sig.WorkOrders.Times.Corrected.{of_milestone_iff}

abbrev pub milestone_row : WorkOrderMilestone → ℕ
milestone_row row = row.id

abbrev pub SameMark : WorkOrderMilestone → WorkOrderMilestone → Type 0
SameMark a b = (a.work_order_id ≡ b.work_order_id) × (a.milestone ≡ b.milestone)

-- An order has one row at most of each milestone.
abbrev pub OneMark : Db → Type 0
OneMark db = Single milestone_row SameMark db.milestones

-- The milestones behind a transition: one row at most of each, those from before as they were, and
-- one of the state that was entered, where that state marks a milestone.
pub record Marked (order : WorkOrder) (target : WorkOrderState) (db after : Db) : Type 0 where
  pub single : OneMark after
  pub kept : (row : WorkOrderMilestone) → Memᴰ row db.milestones → Memᴰ row after.milestones
  pub reached :
      (m : Milestone)
      → milestone_of_state target ≡ some m
      → (row : WorkOrderMilestone) × Memᴰ row after.milestones
        × (row.work_order_id ≡ order.id)
        × (row.milestone ≡ m)

module _ (order : WorkOrder) (at : Option ℕ) (actor : Option String) (db : Db)
    (single : OneMark db) where
  record_milestone-OneMark : (m : Milestone) → OneMark (record_milestone order m at actor db)
  unfolding record_milestone
  record_milestone-OneMark m = elim (Bool-cases (exists (of_milestone order.id m) db.milestones)) [
    | inl here ↦ rw here single
    | inr missing ↦
        let other =
          λ (x : WorkOrderMilestone) (n : Memᴰ x db.milestones) (o : x.work_order_id ≡ order.id)
              (k : x.milestone ≡ m).
            false≢true (
              sym (exists-none-mem (of_milestone order.id m) db.milestones x missing n)
              ∙ (of_milestone_iff order.id m x).1 (o, k)) in
        rw missing (
          add-Single milestone_row SameMark db.milestones _ single (λ x n h. other x n h.0 h.1)
            (λ x n h. other x n (sym h.0) (sym h.1)))
  ]

  record_milestone_kept :
      (m : Milestone) (row : WorkOrderMilestone)
      → Memᴰ row db.milestones
      → Memᴰ row (record_milestone order m at actor db).milestones
  unfolding record_milestone
  record_milestone_kept m row n =
      elim (Bool-cases (exists (of_milestone order.id m) db.milestones)) [
        | inl here ↦ rw here n
        | inr missing ↦ rw missing (mem-append_left db.milestones _ row n)
      ]

  record_milestone_reached :
      (m : Milestone)
      → (row : WorkOrderMilestone) × Memᴰ row (record_milestone order m at actor db).milestones
        × (row.work_order_id ≡ order.id)
        × (row.milestone ≡ m)
  unfolding record_milestone
  record_milestone_reached m = elim (Bool-cases (exists (of_milestone order.id m) db.milestones)) [
    | inl here ↦
        let (row, n, h) = exists-mem (of_milestone order.id m) db.milestones here in
        let (o, k) = (of_milestone_iff order.id m row).0 h in rw here (row, n, o, k)
    | inr missing ↦ rw missing (_, mem-append_right db.milestones _ _ (Memᴰ.head refl), refl, refl)
  ]

  record_milestone_of-Marked :
      (target : WorkOrderState) (found : Option Milestone)
      → milestone_of_state target ≡ found
      → Marked order target db (record_milestone_of order found at actor db)
  unfolding record_milestone_of
  record_milestone_of-Marked target none h = record {
    single = single;
    kept = λ row n. n;
    reached = λ m k. cc;
  }
  record_milestone_of-Marked target (some m) h = record {
    single = record_milestone-OneMark m;
    kept = record_milestone_kept m;
    reached = λ m' k.
        let same : some m ≡ some m' = sym h ∙ k in
        let (row, n, o, e) = record_milestone_reached m in (row, n, o, cc);
  }

carry :
    (order : WorkOrder) (target : WorkOrderState) (db u v : Db)
    → v.milestones ≡ u.milestones
    → Marked order target db u
    → Marked order target db v
carry order target db u v same marked = record {
  single = rw same marked.single;
  kept = rw same marked.kept;
  reached = rw same marked.reached;
}

-- Where an order has one row at most of each milestone, this is so behind a transition whose guards
-- hold. The rows from before stay as they are, so the first time of a milestone is kept, and where the
-- state that is entered marks a milestone, the order has a row of it.
pub transition-Marked :
    (platform : Platform) (order : WorkOrder) (target : WorkOrderState)
    (reason actor : Option String) (at : Option ℕ) (db : Db)
    → OneMark db
    → MayEnter platform order target reason db
    → Marked order target db (transition platform order target reason actor at db).1
transition-Marked platform order target reason actor at db single may =
    let order' = moved platform order target reason actor at db in
    let entered = transition-Entered platform order target reason actor at db may in
    let marked =
      record_milestone_of-Marked order' at actor db single target (milestone_of_state target)
        refl in
    carry order target db (record_milestone_of order' (milestone_of_state target) at actor db)
      (transition platform order target reason actor at db).1 entered.milestones
      record { single = marked.single; kept = marked.kept; reached = marked.reached }
