-- ===== src/Outages/Reach.antt =====
-- The histories of the requests: the operations of backend/app/outages/service.py in any order.
use mathlib.Core.List.{Memᴰ}
use campo_sig.Common.{ℕ, String, refl, Option}
use campo_sig.WorkOrders.Store.{WorkOrder, Platform}
use campo_sig.Outages.Rows.{OutageRequest, Desk, Asked}
use campo_sig.Outages.Calls.{request_outage, approve, reject, hand_back, expire_due, link, unlink}
use campo_sig.Outages.Lawful.{IsLawful}
use campo_sig.Outages.Decisions.{Goes, stay, go_on, same_rows}
use campo_sig.Outages.Kept.{
  approve-Ends, reject-Ends, hand_back-Ends, link-Ends, unlink-Ends, request_outage-Ends,
}
use campo_sig.Outages.Expiry.{expire_due-Goes}

-- One call. Those on a request are given a row that the table holds.
pub data Step (platform : Platform) (desk : Desk) : Desk → Type 0 where
  asks : (unit : ℕ) (asked : Asked) → Step platform desk (request_outage platform unit asked desk).1
  approves :
      (unit : ℕ) (r : OutageRequest) (number by : String) (note : Option String)
      → Memᴰ r desk.requests
      → Step platform desk (approve platform unit r number by note desk).1
  rejects :
      (unit : ℕ) (r : OutageRequest) (by note : String)
      → Memᴰ r desk.requests
      → Step platform desk (reject platform unit r by note desk).1
  hands_back :
      (unit : ℕ) (r : OutageRequest) (by : String) (at : Option ℕ)
      → Memᴰ r desk.requests
      → Step platform desk (hand_back platform unit r by at desk).1
  expires : (unit : ℕ) (now : Option ℕ) → Step platform desk (expire_due platform unit now desk).1
  links :
      (unit : ℕ) (order : WorkOrder) (r : OutageRequest) (actor : String)
      → Memᴰ r desk.requests
      → Step platform desk (link platform unit order r actor desk).1
  unlinks :
      (unit : ℕ) (order : WorkOrder) (actor : String)
      → Step platform desk (unlink platform unit order actor desk).1
  waits : (t : ℕ) → Step platform desk (record desk { db = record desk.db { now = t } })

pub data Reach (platform : Platform) (desk : Desk) : Desk → Type 0 where
  here : Reach platform desk desk
  next :
      {desk' desk'' : Desk}
      → Reach platform desk desk'
      → Step platform desk' desk''
      → Reach platform desk desk''

waits-IsLawful :
    (desk : Desk) (t : ℕ)
    → IsLawful desk
    → IsLawful (record desk { db = record desk.db { now = t } })
waits-IsLawful desk t lawful = record {
  table = lawful.table;
  unique = lawful.unique;
  rows = lawful.rows;
  linked = lawful.linked;
}

module _ (platform : Platform) where
  step-Goes : {desk desk' : Desk} → IsLawful desk → Step platform desk desk' → Goes desk desk'
  step-Goes {desk} lawful (Step.asks unit asked) =
      (request_outage-Ends platform unit asked desk lawful).goes
  step-Goes {desk} lawful (Step.approves unit r number by note m) =
      (approve-Ends platform unit r number by note desk lawful m).goes
  step-Goes {desk} lawful (Step.rejects unit r by note m) =
      (reject-Ends platform unit r by note desk lawful m).goes
  step-Goes {desk} lawful (Step.hands_back unit r by at m) =
      (hand_back-Ends platform unit r by at desk lawful m).goes
  step-Goes {desk} lawful (Step.expires unit now) = expire_due-Goes platform unit now desk lawful
  step-Goes {desk} lawful (Step.links unit order r actor m) =
      (link-Ends platform unit order r actor desk lawful m).goes
  step-Goes {desk} lawful (Step.unlinks unit order actor) =
      (unlink-Ends platform unit order actor desk lawful).goes
  step-Goes {desk} lawful (Step.waits t) = same_rows desk _ refl (waits-IsLawful desk t lawful)

  -- Whatever the calls, from a session that is lawful: the session stays lawful, and a request that
  -- was decided stays decided, with the same number and by the same person. Lawful is that rows have
  -- identifiers, that two of a unit never share a number, that windows end after they start, that a
  -- request that was approved, and any that was handed back or expired, has a number and was decided
  -- by another than who asked, and that an order is linked to a request of its unit.
  pub Reach-Goes : {desk desk' : Desk} → IsLawful desk → Reach platform desk desk' → Goes desk desk'
  Reach-Goes {desk} lawful Reach.here = stay desk lawful
  Reach-Goes lawful (Reach.next run step) =
      let before = Reach-Goes lawful run in go_on before (step-Goes before.lawful step)
