-- ===== src/WorkOrders/Times/Corrected.antt =====
-- What a correction of a milestone leaves: `correct_milestone` of backend/app/workorders/service.py.
use mathlib.Core.List.{Memᴰ}
use campo_sig.Common.{
  ℕ, if◌then◌else◌, ◌+◌, ◌≤◌, String, ◌≡◌, ◌≢◌, refl, ap, ◌⊎◌, inl, inr, ◌↔◌, Bool, true, Option,
  none, some, arith, Bool-cases, ltb, ==_iff, first, first-some, str_eq, eq_iff,
}
use campo_sig.Common.Members.{first-mem}
use campo_sig.Common.Keyed.{put_row, put_here, put_kept}
use campo_sig.Common.Strip.{prefix, strip_of, is_blank}
use campo_sig.WorkOrders.State.{Milestone, started, finished, milestone_value, milestone_eq_iff}
use campo_sig.WorkOrders.Store.{
  WorkOrder, WorkOrderMilestone, Db, Platform, Failure, correction_without_reason,
  correction_without_zone, correction_in_future, unknown_milestone, milestone_not_reached, Result,
  ok, err, effective_time, write_event,
}
use campo_sig.WorkOrders.Transition.{of_milestone}
use campo_sig.WorkOrders.Times.{
  parse_milestone, is_milestone_error, future_slack, put_milestone, corrected, correct_row,
  correct_known, correct_milestone,
}

-- The row of the order's milestone with its time corrected beside the times that were recorded.
pub record Corrected (order : WorkOrder) (name : String) (at : ℕ) (reason : Option String)
    (actor : String) (db : Db) (row' : WorkOrderMilestone) (after : Db) : Type 0 where
  pub row : WorkOrderMilestone
  pub stored : Memᴰ row db.milestones
  pub of_order : row.work_order_id ≡ order.id
  pub named : milestone_value row.milestone ≡ name
  pub not_future : at ≤ db.now + future_slack
  pub same_row : row'.id ≡ row.id
  pub same_order : row'.work_order_id ≡ row.work_order_id
  pub same_unit : row'.business_unit_id ≡ row.business_unit_id
  pub same_milestone : row'.milestone ≡ row.milestone
  pub recorder : row'.recorded_by ≡ row.recorded_by
  pub device_time : row'.device_time ≡ row.device_time
  pub recorded_at : row'.recorded_at ≡ row.recorded_at
  pub effective : effective_time row' ≡ at
  pub why : row'.correction_reason ≡ some (prefix 500 (strip_of reason))
  pub by_whom : row'.corrected_by ≡ some actor
  pub when : row'.corrected_at ≡ some db.now
  pub written : Memᴰ row' after.milestones
  pub others :
      (x : WorkOrderMilestone) → x.id ≢ row.id → Memᴰ x after.milestones ↔ Memᴰ x db.milestones
  pub no_new :
      (x : WorkOrderMilestone)
      → Memᴰ x after.milestones
      → (x ≡ row') ⊎ Memᴰ x db.milestones × (x.id ≢ row.id)
  pub orders : after.orders ≡ db.orders

abbrev milestone_id : WorkOrderMilestone → ℕ
milestone_id row = row.id

named_first :
    (name : String) (a m : Milestone) (rest : Option Milestone)
    → (rest ≡ some m → milestone_value m ≡ name)
    → (if str_eq name (milestone_value a) then some a else rest) ≡ some m
    → milestone_value m ≡ name
named_first name a m rest others h = elim (Bool-cases (str_eq name (milestone_value a))) [
  | inl t ↦
      let here : some a ≡ some m = rw t at h in
      let spelled = (eq_iff name (milestone_value a)).0 t in cc
  | inr f ↦ others (rw f at h)
]

milestone_value-parse_milestone :
    (name : String) (m : Milestone) → parse_milestone name ≡ some m → milestone_value m ≡ name
unfolding parse_milestone
milestone_value-parse_milestone name m h =
    named_first name Milestone.en_route m _
      (named_first name Milestone.on_site m _
        (named_first name started m _ (named_first name finished m _ (λ none_left. cc))))
      h

pub of_milestone_iff :
    (id : ℕ) (m : Milestone) (row : WorkOrderMilestone)
    → (of_milestone id m row ≡ true) ↔ ((row.work_order_id ≡ id) × (row.milestone ≡ m))
of_milestone_iff id m row =
    let number = ==_iff row.work_order_id id in
    let kind = milestone_eq_iff row.milestone m in ground arith

module _ (platform : Platform) (order : WorkOrder) (name : String) (aware : Bool) (at : ℕ)
    (reason : Option String) (actor : String) (db : Db) where
  abbrev Outcome : Result WorkOrderMilestone × Db → Type 0
  Outcome r =
      ((e : Failure) × (is_milestone_error e ≡ true) × (r ≡ (err e, db)))
      ⊎ (row : WorkOrderMilestone) × (r.0 ≡ ok row)
        × Corrected order name at reason actor db row r.1

  correct_row-Outcome :
      (m : Milestone) (row : Option WorkOrderMilestone)
      → milestone_value m ≡ name
      → first (of_milestone order.id m) db.milestones ≡ row
      → at ≤ db.now + future_slack
      → Outcome (correct_row platform order m at reason actor row db)
  unfolding put_milestone write_event effective_time is_milestone_error
  correct_row-Outcome m none spelled found past = inl (milestone_not_reached m, refl, refl)
  correct_row-Outcome m (some row) spelled found past =
      let (same_order, same_milestone) =
        (of_milestone_iff order.id m row).0
          (first-some (of_milestone order.id m) db.milestones row found) in
      let stored = first-mem (of_milestone order.id m) db.milestones row found in
      let new = corrected row at reason actor db.now in
      inr (
        new,
        refl,
        record {
          row = row;
          stored = stored;
          of_order = same_order;
          named = rw same_milestone spelled;
          not_future = past;
          same_row = refl;
          same_order = refl;
          same_unit = refl;
          same_milestone = refl;
          recorder = refl;
          device_time = refl;
          recorded_at = refl;
          effective = refl;
          why = refl;
          by_whom = refl;
          when = refl;
          written = put_here milestone_id db.milestones row new stored refl;
          others = λ x other. (
            (λ n. elim (put_row milestone_id db.milestones new x n) [
              | inl e ↦ absurd (other (ap milestone_id e))
              | inr (m, _) ↦ m
            ]),
            (λ m. put_kept milestone_id db.milestones new x m other),
          );
          no_new = put_row milestone_id db.milestones new;
          orders = refl;
        },
      )

  correct_known-Outcome :
      (m : Option Milestone)
      → parse_milestone name ≡ m
      → Outcome (correct_known platform order m name aware at reason actor db)
  unfolding is_milestone_error
  correct_known-Outcome none unknown = inl (unknown_milestone name, refl, refl)
  correct_known-Outcome (some m) known = elim (Bool-cases aware) [
    | inr naive ↦ inl (correction_without_zone, refl, rw naive refl)
    | inl zoned ↦ elim (Bool-cases (ltb (db.now + future_slack) at)) [
      | inl future ↦ inl (correction_in_future, refl, rw (zoned, future) refl)
      | inr past ↦
          rw (zoned, past)
            (correct_row-Outcome m (first (of_milestone order.id m) db.milestones)
              (milestone_value-parse_milestone name m known) refl (ground arith))
    ]
  ]

  -- A correction raises one of its own errors and writes nothing, or it finds the order's row of the
  -- named milestone and writes that row: its identity, its order, its milestone, its recorder and the
  -- times that were recorded stay, and the corrected time, at most five minutes ahead of the clock,
  -- becomes the effective one, with its author, its moment and its reason. The rows with another
  -- identifier stay and none is added.
  pub correct_milestone_corrects :
      Outcome (correct_milestone platform order name aware at reason actor db)
  unfolding correct_milestone is_milestone_error
  correct_milestone_corrects = elim (Bool-cases (is_blank reason)) [
    | inl blank ↦ inl (correction_without_reason, refl, rw blank refl)
    | inr given ↦ rw given (correct_known-Outcome (parse_milestone name) refl)
  ]
