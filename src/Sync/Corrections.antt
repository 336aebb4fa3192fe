-- ===== src/Sync/Corrections.antt =====
-- The corrections of times that a device delivers, `_apply_time_correction` of
-- backend/app/sync/operations.py.
use campo_sig.Common.{
  ℕ, String, Bool, true, false, ◌≡◌, ◌≢◌, refl, ◌⊎◌, inl, inr, Option, none, some,
}
use campo_sig.WorkOrders.Store.{WorkOrder, WorkOrderMilestone, Device, Db, Platform}
use campo_sig.WorkOrders.Times.Corrected.{Corrected, correct_milestone_corrects}
use campo_sig.Sync.Operations.{
  Rejection, Applied, RawReason, not_given, given, not_text, CorrectionRequest, readable, actor_of,
  after_correction, correct_for, apply_time, apply_time_correction,
}

readable-none : (reason : RawReason) → readable reason ≡ none → reason ≡ not_text true
readable-none not_given h = cc
readable-none (given s) h = cc
readable-none (not_text false) h = cc
readable-none (not_text true) h = refl

module _ (platform : Platform) (device : Device) (order : WorkOrder) (request : CorrectionRequest)
    (db : Db) where
  -- The row of the milestone is corrected for the text that the reason is.
  pub record Made (r : Applied WorkOrderMilestone × Db) : Type 0 where
    pub at : ℕ
    pub aware : Bool
    pub row : WorkOrderMilestone
    pub text : Option String
    pub timed : request.corrected_time ≡ some (at, aware)
    pub reasoned : readable request.reason ≡ some text
    pub answer : r.0 ≡ Applied.applied row
    pub corrects : Corrected order request.milestone at text (actor_of device) db row r.1

  abbrev Outcome : Applied WorkOrderMilestone × Db → Type 0
  Outcome r =
      ((why : Rejection) × (r ≡ (Applied.rejected why, db)))
      ⊎ Made r
      ⊎ (request.reason ≡ not_text true)
        × (request.corrected_time ≢ none)
        × (r ≡ (Applied.no_attribute, db))

  correct_for-Outcome :
      (time : ℕ × Bool) (reason : Option (Option String))
      → request.corrected_time ≡ some time
      → readable request.reason ≡ reason
      → Outcome (correct_for platform device order request.milestone time reason db)
  unfolding correct_for after_correction
  correct_for-Outcome time none h k = inr (inr (readable-none request.reason k, (λ e. cc), refl))
  correct_for-Outcome (at, aware) (some reason) h k =
      elim (correct_milestone_corrects platform order request.milestone aware at reason
        (actor_of device) db) [
          | inl (e, caught, raised) ↦ inl (Rejection.refused e, rw (raised, caught) refl)
          | inr (row, returned, done) ↦ inr (
              inl record {
                at = at;
                aware = aware;
                row = row;
                text = reason;
                timed = h;
                reasoned = k;
                answer = rw returned refl;
                corrects = done;
              })
        ]

  apply_time-Outcome :
      (time : Option (ℕ × Bool))
      → request.corrected_time ≡ time
      → Outcome (apply_time platform device order request time db)
  unfolding apply_time
  apply_time-Outcome none h = inl (Rejection.no_time, refl)
  apply_time-Outcome (some time) h = correct_for-Outcome time (readable request.reason) h refl

  -- A device's correction is parked, with the session as it was, or it corrects the time of a
  -- milestone that the order has reached, in the name of the device's person, or of the device where
  -- it has none. The one exception that leaves it is the `AttributeError` of a reason that is no text
  -- and counts as true, beside a time that could be read; it leaves the session as it was.
  pub apply_time_correction_corrects :
      Outcome (apply_time_correction platform device order request db)
  unfolding apply_time_correction
  apply_time_correction_corrects = apply_time-Outcome request.corrected_time refl
