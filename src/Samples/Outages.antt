-- ===== src/Samples/Outages.antt =====
-- A request that was granted, the order that works under it, and another request that waits.
use mathlib.Core.List.{Memᴰ}
use campo_sig.Common.{
  ◌≡◌, ◌↔◌, refl, sym, ◌∙◌, none, some, [], ◌∷◌, true, arith, truthy, ◌≤◌, ◌-◌, ◌/◌,
}
use campo_sig.Common.Members.{mem_one}
use campo_sig.WorkOrders.State.{on_site}
use campo_sig.WorkOrders.Store.{WorkOrder}
use campo_sig.Outages.Rows.{OutageRequest, approved, Desk, Asked}
use campo_sig.Outages.Calls.{request_outage, hand_back}
use campo_sig.Outages.Reading.{permit_blocker, permit_form, window_check}
use campo_sig.Outages.Lawful.{IsLawful, IsRequest}
use campo_sig.Outages.Decisions.{Goes}
use campo_sig.Outages.Reach.{Step, here, next, Reach-Goes}
use campo_sig.Outages.Permit.{Permit, permit_blocker_iff}
use campo_sig.Outages.Window.{window_check_lem}
use campo_sig.Samples.Orders.{platform, order_at, session}

abbrev granted : OutageRequest
granted = record {
  id = 4;
  business_unit_id = 7;
  number = some "C-12";
  state = approved;
  equipment = "Alimentador sur";
  feeder_code = some "S-2";
  substation_code = none;
  window_start = 60000000;
  window_end = 600000000;
  requested_by = "ana";
  decided_by = some "centro";
  decided_at = some 30;
  note = none;
  returned_at = none;
  returned_by = none;
}

abbrev order : WorkOrder
order = record (order_at 1 none on_site) { outage_request_id = some 4 }

abbrev desk : Desk
desk = record { db = session (order ∷ []); requests = granted ∷ [] }

granted-IsRequest : IsRequest granted
unfolding truthy
granted-IsRequest = record {
  window = omega arith;
  named = refl;
  standing = (refl, ("centro", refl, λ h. cc));
}

desk-IsLawful : IsLawful desk
desk-IsLawful = record {
  table = record {
    keyed = λ p q m n h. mem_one granted p m ∙ sym (mem_one granted q n);
    fresh = λ p m. rw (mem_one granted p m) (omega arith);
  };
  unique = λ p q m n h. mem_one granted p m ∙ sym (mem_one granted q n);
  rows = λ r m. rw (mem_one granted r m) granted-IsRequest;
  linked = λ o m id h. let e = mem_one order o m in (granted, Memᴰ.head refl, cc, rw e refl);
}

abbrev asked : Asked
asked = record {
  equipment = "Tramo 7";
  window_start = 5;
  window_end = 9;
  requested_by = "ana";
  feeder_code = none;
  substation_code = none;
  note = none;
}

kept : Memᴰ granted (request_outage platform 7 asked desk).1.requests
unfolding request_outage truthy
kept = Memᴰ.head refl

-- Another request, and the return of the first.
Reach-Goes_example :
    Goes desk (hand_back platform 7 granted "luis" none (request_outage platform 7 asked desk).1).1
Reach-Goes_example =
    Reach-Goes platform desk-IsLawful
      (next (next here (Step.asks 7 asked)) (Step.hands_back 7 granted "luis" none kept))

permit_blocker_iff_example : permit_blocker order permit_form desk ≡ none ↔ Permit order desk
permit_blocker_iff_example = permit_blocker_iff order desk desk.db.next_id desk-IsLawful.table

permit_opens : permit_blocker order permit_form desk ≡ none
unfolding permit_blocker truthy
permit_opens = refl

window_check_lem_example :
    ((window_check granted 700000000).inside ≡ true
      ↔ (60000000 ≤ 700000000) × (700000000 ≤ 600000000))
    × ((window_check granted 700000000).minutes_early ≡ (60000000 - 700000000) / 60000000)
    × ((window_check granted 700000000).minutes_late ≡ (700000000 - 600000000) / 60000000)
window_check_lem_example = window_check_lem granted 700000000 (omega arith)
