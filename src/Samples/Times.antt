-- ===== src/Samples/Times.antt =====
-- An order whose crew arrives, and the correction of that time.
use campo_sig.Common.{◌≡◌, ◌≢◌, refl, sym, ◌∙◌, ◌⊎◌, true, none, some, [], ◌∷◌}
use campo_sig.Common.Members.{mem_one}
use campo_sig.WorkOrders.State.{en_route, on_site, Milestone, allowed, reason_required}
use campo_sig.WorkOrders.Store.{WorkOrder, WorkOrderMilestone, Db, Failure, err, ok}
use campo_sig.WorkOrders.Fronts.{blocking_fronts}
use campo_sig.WorkOrders.Transition.{transition}
use campo_sig.WorkOrders.Transition.Outcome.{MayEnter}
use campo_sig.WorkOrders.Times.{correct_milestone, is_milestone_error}
use campo_sig.WorkOrders.Times.Corrected.{Corrected, correct_milestone_corrects}
use campo_sig.WorkOrders.Times.Marked.{OneMark, Marked, transition-Marked}
use campo_sig.Samples.Phones.{phone}
use campo_sig.Sync.Operations.{
  Rejection, Applied, given, not_text, CorrectionRequest, apply_time_correction,
}
use campo_sig.Sync.Corrections.{Made, apply_time_correction_corrects}
use campo_sig.Samples.Orders.{platform, order_at, session}

abbrev order : WorkOrder
order = order_at 1 none en_route

abbrev arrival : WorkOrderMilestone
arrival = record {
  id = 4;
  business_unit_id = 7;
  work_order_id = 1;
  milestone = Milestone.en_route;
  device_time = some 80;
  recorded_at = 90;
  recorded_by = some "luis";
  corrected_time = none;
  correction_reason = none;
  corrected_by = none;
  corrected_at = none;
}

abbrev road : Db
road = record (session (order ∷ [])) { milestones = arrival ∷ [] }

one-OneMark : OneMark road
one-OneMark p q m n h = mem_one arrival p m ∙ sym (mem_one arrival q n)

may_arrive : MayEnter platform order on_site none road
unfolding allowed reason_required blocking_fronts
may_arrive = record { is_allowed = refl; has_reason = refl; is_free = refl }

transition-Marked_example :
    Marked order on_site road
      (transition platform order on_site none (some "luis") (some 95) road).1
transition-Marked_example =
    transition-Marked platform order on_site none (some "luis") (some 95) road one-OneMark
      may_arrive

correct_milestone_corrects_example :
    ((e : Failure) × (is_milestone_error e ≡ true)
      × (correct_milestone platform order "en_camino" true 70 (some "tarde") "ana" road
          ≡ (err e, road)))
    ⊎ (row : WorkOrderMilestone) × ((correct_milestone platform order "en_camino" true 70
          (some "tarde")
          "ana"
          road).0
        ≡ ok row)
      × Corrected order "en_camino" 70
          (some "tarde")
          "ana"
          road
          row
          (correct_milestone platform order "en_camino" true 70 (some "tarde") "ana" road).1
correct_milestone_corrects_example =
    correct_milestone_corrects platform order "en_camino" true 70 (some "tarde") "ana" road

abbrev late : CorrectionRequest
late = record { milestone = "en_camino"; corrected_time = some (70, true); reason = given "tarde" }

apply_time_correction_corrects_example :
    ((why : Rejection) × (apply_time_correction platform phone order late road
        ≡ (Applied.rejected why, road)))
    ⊎ Made platform phone order late road (apply_time_correction platform phone order late road)
    ⊎ (late.reason ≡ not_text true)
      × (late.corrected_time ≢ none)
      × (apply_time_correction platform phone order late road ≡ (Applied.no_attribute, road))
apply_time_correction_corrects_example =
    apply_time_correction_corrects platform phone order late road

-- A number for a reason.
abbrev odd : CorrectionRequest
odd = record late { reason = not_text true }

odd_reason_escapes :
    apply_time_correction platform phone order odd road ≡ (Applied.no_attribute, road)
unfolding apply_time_correction
odd_reason_escapes = refl
