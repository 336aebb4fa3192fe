-- ===== src/Samples/Orders.antt =====
-- A work with one front, in a small session.
use mathlib.Core.List.{Memᴰ}
use campo_sig.Common.{
  ℕ, ◌+◌, ◌≢◌, length, ◌≡◌, ◌↔◌, refl, sym, ◌∙◌, true, Option, none, some, List, [], ◌∷◌, select,
  order_by, exists, arith, is_id, truthy,
}
use campo_sig.Common.Json.{end}
use campo_sig.Common.Members.{mem_one}
use campo_sig.Samples.Trail.{hashing}
use campo_sig.WorkOrders.State.{
  WorkOrderState, planned, assigned, downloaded, en_route, on_site, in_execution, closed_field,
  synced, in_review, approved, closed, cancelled, mem_state, allowed, reason_required,
  is_assignable,
}
use campo_sig.WorkOrders.Lifecycle.{closed_path_visits}
use campo_sig.WorkOrders.Store.{
  WorkOrder, DeviceCustody, Db, Platform, Failure, err, succeeded, manual, medium, open_fronts,
}
use campo_sig.WorkOrders.Fronts
use campo_sig.WorkOrders.Fronts.Totals.{unsettled, progress_of_sums, is_complete_iff}
use campo_sig.WorkOrders.Fronts.{
  progress_of, done, is_complete, children_of, blocking_fronts, is_open,
}
use campo_sig.WorkOrders.Transition.{transition}
use campo_sig.WorkOrders.Transition.Outcome.{MayEnter, transition_atomic}
use campo_sig.WorkOrders.Custody.{Assignment, assign, open_custody, held_by}
use campo_sig.WorkOrders.Custody.Chain.{IsCustody}
use campo_sig.WorkOrders.Custody.Outcome.{Handover, assign-Handover}
use campo_sig.Common.{false}
use campo_sig.WorkOrders.Intake.{
  NewOrder, new_order, create_work_order, insert_order, is_reference_taken,
}
use campo_sig.WorkOrders.Sound.Reach.{assigns, creates, here, next, IsGood, Reach-IsGood}

abbrev pub platform : Platform
platform = record { hashing = hashing; text_le = λ a b. true; uuid_text = λ n. "id" }

abbrev pub order_at : ℕ → Option ℕ → WorkOrderState → WorkOrder
order_at id parent state = record {
  id = id;
  business_unit_id = 7;
  code = some "OT-1";
  source = manual;
  external_ref = none;
  work_type = "luminaria";
  form_code = "F1";
  form_version = some "1";
  state = state;
  priority = medium;
  description = none;
  asset_type_key = none;
  asset_code = none;
  location = none;
  feeder_code = none;
  zone = none;
  agency = none;
  sla_due_at = none;
  planner_id = none;
  assigned_crew_id = none;
  assigned_user_sub = none;
  parent_id = parent;
  version = 1;
  outage_request_id = none;
  created_at = 5;
}

abbrev pub session : List WorkOrder → Db
session orders = record {
  now = 100;
  next_id = 10;
  orders = orders;
  crews = [];
  custody = [];
  milestones = [];
  devices = [];
  operations = [];
  definitions = ("F1", "1") ∷ [];
  published = [];
  trail = [];
}

abbrev pub work : WorkOrder
work = order_at 1 none planned

abbrev pub front : WorkOrder
front = order_at 2 (some 1) planned

abbrev pub site : Db
site = session (work ∷ front ∷ [])

closed_path_visits_example :
    let ts : List WorkOrderState =
      planned ∷ assigned ∷ downloaded ∷ en_route ∷ on_site ∷ in_execution ∷ closed_field ∷ synced
      ∷ in_review ∷ approved ∷ closed ∷ [] in
    (mem_state in_execution ts ≡ true)
    × (mem_state closed_field ts ≡ true)
    × (mem_state synced ts ≡ true)
    × (mem_state in_review ts ≡ true)
    × (mem_state approved ts ≡ true)
unfolding mem_state allowed
closed_path_visits_example =
    closed_path_visits
      (planned ∷ assigned ∷ downloaded ∷ en_route ∷ on_site ∷ in_execution ∷ closed_field ∷ synced
        ∷ in_review ∷ approved ∷ closed ∷ [])
      (ground arith) refl

-- The front may be assigned, and the work may not be cancelled over it.
front_may : MayEnter platform front assigned none site
unfolding allowed reason_required blocking_fronts
front_may = record { is_allowed = refl; has_reason = refl; is_free = refl }

transition_atomic_example :
    ((succeeded (transition platform work cancelled (some "x") none none site).0 ≡ true)
      ↔ MayEnter platform work cancelled (some "x") site)
    × ((e : Failure)
        → (transition platform work cancelled (some "x") none none site).0 ≡ err e
        → (transition platform work cancelled (some "x") none none site).1 ≡ site)
transition_atomic_example = transition_atomic platform work cancelled (some "x") none none site

work_is_blocked :
    (transition platform work cancelled (some "x") none none site).0
    ≡ err (open_fronts ("OT-1" ∷ []))
unfolding transition allowed reason_required truthy blocking_fronts Fronts.open_fronts children_of
    select order_by is_id
work_is_blocked = refl

abbrev hand_over : Assignment
hand_over = record {
  crew = none;
  user_sub = some "luis";
  device_id = none;
  expected_version = some 1;
  reason = none;
  granted_by = none;
}

pub nil-IsCustody : IsCustody [] 10
nil-IsCustody = record {
  keyed = λ p q m. elim m [ ];
  fresh = λ p m. elim m [ ];
  single = λ p q m. elim m [ ];
}

-- The custody of the person that had the front before.
abbrev before : DeviceCustody
before = record {
  id = 4;
  work_order_id = front.id;
  device_id = some "tel-1";
  user_sub = some "eva";
  crew_id = none;
  since = 50;
  until = none;
  reason = none;
  had_unsynced_data = false;
  granted_by = none;
  context = end;
}

abbrev held_site : Db
held_site = record site { custody = before ∷ [] }

held-IsCustody : IsCustody held_site.custody held_site.next_id
held-IsCustody = record {
  keyed = λ p q m n h. mem_one before p m ∙ sym (mem_one before q n);
  fresh = λ p m. rw (mem_one before p m) (omega arith);
  single = λ p q m n h u v. mem_one before p m ∙ sym (mem_one before q n);
}

assign-Handover_example :
    Handover platform front hand_over held_site
      (held_by hand_over front)
      true
      (assign platform front hand_over held_site).1
unfolding assign is_assignable
assign-Handover_example =
    assign-Handover platform front hand_over held_site (held_by hand_over front) held-IsCustody
      (unfold open_custody in refl)

abbrev request : NewOrder
request = record {
  work_type = "luminaria";
  form_code = "F1";
  priority = medium;
  source = manual;
  external_ref = none;
  description = none;
  asset_type_key = none;
  asset_code = some "P-100";
  longitude = none;
  latitude = none;
  feeder_code = none;
  zone = none;
  sla_due_at = none;
  planner_id = some "ana";
}

abbrev made : WorkOrder
unfolding truthy
made = new_order 10 7 100 request

empty-IsGood : IsGood platform (session [])
empty-IsGood = record {
  sound = record {
    keyed = λ p q m. elim m [ ];
    fresh = λ p m. elim m [ ];
    flat = λ p c m. elim m [ ];
    settled = λ p c m. elim m [ ];
    known = λ c n m. elim m [ ];
  };
  chain = nil-IsCustody;
}

made_stored : Memᴰ made (create_work_order platform 7 request (session [])).1.orders
unfolding create_work_order insert_order exists made is_reference_taken
made_stored = Memᴰ.head refl

-- An order that a planner raises and assigns.
Reach-IsGood_example :
    IsGood platform
      (assign platform made hand_over (create_work_order platform 7 request (session [])).1).1
Reach-IsGood_example =
    Reach-IsGood platform
      (next (next here (creates 7 request)) (assigns made hand_over made_stored)) empty-IsGood

progress_of_sums_example :
    ((progress_of platform site 1).total ≡ length (children_of platform site 1))
    × (done (progress_of platform site 1) + length (Fronts.open_fronts platform site 1)
        ≡ (progress_of platform site 1).total)
    × (unsettled (progress_of platform site 1) ≡ length (Fronts.open_fronts platform site 1))
progress_of_sums_example = progress_of_sums platform site 1

is_complete_iff_example :
    (is_complete (progress_of platform site 1) ≡ true)
    ↔ ((children_of platform site 1 ≢ []) × (Fronts.open_fronts platform site 1 ≡ []))
is_complete_iff_example = is_complete_iff platform site 1
