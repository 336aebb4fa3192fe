-- ===== src/Outages/Lawful.antt =====
-- What holds of every row that backend/app/outages/service.py leaves behind, and how a changed row
-- keeps it.
use mathlib.Core.List.{Memᴰ}
use campo_sig.Common.{
  ℕ, String, ◌<◌, ◌≡◌, ◌≢◌, sym, ◌∙◌, ap, none, some, List, true, ◌⊎◌, inl, inr, truthy, Bool-cases,
  ==_iff, ◌==◌,
}
use campo_sig.Common.Keyed.{IsKeyed, Single, put_row, put_here, put_kept, put-IsKeyed}
use campo_sig.Audit.{Entry}
use campo_sig.WorkOrders.Store.{WorkOrder, Platform, write_event, put_order}
use campo_sig.Outages.Rows.{
  OutageRequest, OutageState, requested, rejected, Desk, request_id, put_request,
}
use campo_sig.Outages.Calls.{write, set_order}

-- Somebody decided it who is not the one that asked for it.
abbrev pub DecidedByOther : OutageRequest → Type 0
DecidedByOther r = (d : String) × (r.decided_by ≡ some d) × (d ≢ r.requested_by)

abbrev pub Granted : OutageRequest → Type 0
Granted r = (truthy r.number ≡ true) × DecidedByOther r

-- What the state of a request says of its number and of its decision.
abbrev pub Standing : OutageState → OutageRequest → Type 0
Standing s r = elim s [
  | requested ↦ (r.number ≡ none) × (r.decided_by ≡ none)
  | rejected ↦ (r.number ≡ none) × DecidedByOther r
  | _ ↦ Granted r
]

pub record IsRequest (r : OutageRequest) : Type 0 where
  pub window : r.window_start < r.window_end
  pub named : truthy (some r.equipment) ≡ true
  pub standing : Standing r.state r

pub record SameNumber (a b : OutageRequest) : Type 0 where
  pub unit : a.business_unit_id ≡ b.business_unit_id
  pub number : a.number ≡ b.number
  pub numbered : truthy a.number ≡ true

-- The request that an order is linked to, of the unit of the order.
abbrev pub Under : List OutageRequest → WorkOrder → ℕ → Type 0
Under requests order id =
    (r : OutageRequest) × Memᴰ r requests
    × (r.id ≡ id)
    × (r.business_unit_id ≡ order.business_unit_id)

pub record IsLawful (desk : Desk) : Type 0 where
  pub table : IsKeyed request_id desk.requests desk.db.next_id
  pub unique : Single request_id SameNumber desk.requests
  pub rows : (r : OutageRequest) → Memᴰ r desk.requests → IsRequest r
  pub linked :
      (o : WorkOrder)
      → Memᴰ o desk.db.orders
      → (id : ℕ) → o.outage_request_id ≡ some id
      → Under desk.requests o id

-- A later version of the same row: what was decided stays decided, as it was.
pub record Follows (old new : OutageRequest) : Type 0 where
  pub same_id : new.id ≡ old.id
  pub same_unit : new.business_unit_id ≡ old.business_unit_id
  pub kept :
      old.state ≢ requested
      → (new.state ≢ requested) × (new.number ≡ old.number) × (new.decided_by ≡ old.decided_by)

-- No other row has the number of the new one.
abbrev pub IsFree : OutageRequest → Desk → Type 0
IsFree new desk = (x : OutageRequest) → Memᴰ x desk.requests → x.id ≢ new.id → ¬ SameNumber new x

SameNumber-sym : {a b : OutageRequest} → SameNumber a b → SameNumber b a
SameNumber-sym h = record {
  unit = sym h.unit;
  number = sym h.number;
  numbered = rw (sym h.number) h.numbered;
}

pub kept-IsFree :
    (desk : Desk) (old new : OutageRequest)
    → IsLawful desk
    → Memᴰ old desk.requests
    → Follows old new
    → new.number ≡ old.number
    → IsFree new desk
kept-IsFree desk old new lawful stored follows same x m other h =
    let held : SameNumber old x = record {
      unit = sym follows.same_unit ∙ h.unit;
      number = sym same ∙ h.number;
      numbered = rw (sym same) h.numbered;
    } in
    other (ap request_id (sym (lawful.unique old x stored m held)) ∙ sym follows.same_id)

put-Unique :
    (desk : Desk) (new : OutageRequest)
    → IsLawful desk
    → IsFree new desk
    → Single request_id SameNumber (put_request new desk).requests
unfolding put_request
put-Unique desk new lawful free p q m n h = elim (put_row request_id desk.requests new p m) [
  | inl e ↦ elim (put_row request_id desk.requests new q n) [
    | inl f ↦ e ∙ sym f
    | inr (k, other) ↦ absurd (free q k other (rw e at h))
  ]
  | inr (j, other) ↦ elim (put_row request_id desk.requests new q n) [
    | inl f ↦ absurd (free p j other (SameNumber-sym (rw f at h)))
    | inr (k, _) ↦ lawful.unique p q j k h
  ]
]

same_or_other : (a b : ℕ) → (a ≡ b) ⊎ (a ≢ b)
same_or_other a b = elim (Bool-cases (a == b)) [
  | inl t ↦ inl ((==_iff a b).0 t)
  | inr f ↦ inr (λ h. cc (f, (==_iff a b).1 h))
]

put-Under :
    (desk : Desk) (old new : OutageRequest)
    → IsLawful desk
    → Memᴰ old desk.requests
    → Follows old new
    → (o : WorkOrder) (id : ℕ) → Under desk.requests o id
    → Under (put_request new desk).requests o id
unfolding put_request
put-Under desk old new lawful stored follows o id (r, m, e, u) = elim (same_or_other r.id new.id) [
  | inl same ↦
      let found : r ≡ old = lawful.table.keyed r old m stored (same ∙ follows.same_id) in
      (
        new,
        put_here request_id desk.requests old new stored (sym follows.same_id),
        sym same ∙ e,
        follows.same_unit ∙ (sym (ap (λ x. OutageRequest.business_unit_id x) found) ∙ u),
      )
  | inr other ↦ (r, put_kept request_id desk.requests new r m other, e, u)
]

pub put-IsLawful :
    (desk : Desk) (old new : OutageRequest)
    → IsLawful desk
    → Memᴰ old desk.requests
    → Follows old new
    → IsRequest new
    → IsFree new desk
    → IsLawful (put_request new desk)
unfolding put_request
put-IsLawful desk old new lawful stored follows good free = record {
  table =
      put-IsKeyed request_id desk.requests desk.db.next_id old new lawful.table stored
        follows.same_id;
  unique = put-Unique desk new lawful free;
  rows = λ r m. elim (put_row request_id desk.requests new r m) [
    | inl e ↦ rw e good
    | inr (n, _) ↦ lawful.rows r n
  ];
  linked = λ o m id h. put-Under desk old new lawful stored follows o id (lawful.linked o m id h);
}

pub write-IsLawful :
    (platform : Platform) (unit : ℕ) (entry : Entry) (desk : Desk)
    → IsLawful desk
    → IsLawful (write platform unit entry desk)
unfolding write write_event
write-IsLawful platform unit entry desk lawful = record {
  table = lawful.table;
  unique = lawful.unique;
  rows = lawful.rows;
  linked = lawful.linked;
}

pub set_order-IsLawful :
    (platform : Platform) (new : WorkOrder) (desk : Desk)
    → ((id : ℕ) → new.outage_request_id ≡ some id → Under desk.requests new id)
    → IsLawful desk
    → IsLawful (set_order platform new desk)
unfolding set_order put_order
set_order-IsLawful platform new desk under lawful = record {
  table = lawful.table;
  unique = lawful.unique;
  rows = lawful.rows;
  linked = λ o m id h. elim (put_row (λ (x : WorkOrder). x.id) desk.db.orders new o m) [
    | inl e ↦ let found = under id (rw e at h) in rw e found
    | inr (n, _) ↦ lawful.linked o n id h
  ];
}
