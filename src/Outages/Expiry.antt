-- ===== src/Outages/Expiry.antt =====
-- The rows and the decisions behind `expire_due` of backend/app/outages/service.py.
use mathlib.Core.List.{Memᴰ}
use campo_sig.Common.{
  ℕ, ◌≡◌, sym, ◌∙◌, ap, refl, arith, Option, List, [], ◌∷◌, inl, inr, Bool-cases, ◌==◌, ==_iff,
  select,
}
use campo_sig.Common.Members.{mem-select_inv}
use campo_sig.Common.Keyed.{put_here, put_kept}
use campo_sig.Audit.{Entry}
use campo_sig.WorkOrders.Store.{Platform}
use campo_sig.Outages.Rows.{
  OutageRequest, approved, Desk, request_id, put_request, is_overdue, as_expired, moment_or,
}
use campo_sig.Outages.Calls.{write, expire_rows, expire_due}
use campo_sig.Outages.Lawful.{IsLawful, IsRequest, Standing, Follows, kept-IsFree}
use campo_sig.Outages.Decisions.{Goes, stay, go_on, write-Goes, put-Goes}
use campo_sig.Outages.Kept.{approved-inv}

-- A row that `expire_due` read, and the row that the table has for it by now.
record IsDue (desk : Desk) (r : OutageRequest) : Type 0 where
  is_granted : r.state ≡ approved
  good : IsRequest r
  row : OutageRequest
  stored : Memᴰ row desk.requests
  same_id : r.id ≡ row.id
  same_unit : r.business_unit_id ≡ row.business_unit_id
  same_number : r.number ≡ row.number
  same_decision : r.decided_by ≡ row.decided_by

expired-Follows :
    (desk : Desk) (r : OutageRequest) (due : IsDue desk r) → Follows due.row (as_expired r)
expired-Follows desk r due = record {
  same_id = due.same_id;
  same_unit = due.same_unit;
  kept = λ h. (λ k. cc, due.same_number, due.same_decision);
}

expired-IsRequest : (desk : Desk) (r : OutageRequest) → IsDue desk r → IsRequest (as_expired r)
expired-IsRequest desk r due =
    let standing : Standing approved r = rw due.is_granted at due.good.standing in
    record { window = due.good.window; named = due.good.named; standing = standing }

module _ (platform : Platform) where
  expire_row-Goes :
      (desk : Desk) (r : OutageRequest)
      → IsLawful desk
      → IsDue desk r
      → Goes desk (put_request (as_expired r) desk)
  expire_row-Goes desk r lawful due =
      let follows = expired-Follows desk r due in
      put-Goes platform desk due.row (as_expired r) lawful due.stored follows
        (expired-IsRequest desk r due)
        (kept-IsFree desk due.row (as_expired r) lawful due.stored follows due.same_number)

  still-IsDue :
      (desk : Desk) (r s : OutageRequest)
      → IsLawful desk
      → IsDue desk r
      → IsDue desk s
      → IsDue (put_request (as_expired r) desk) s
  unfolding put_request
  still-IsDue desk r s lawful due other = elim (Bool-cases (other.row.id == r.id)) [
    | inl t ↦
        let same = (==_iff other.row.id r.id).0 t in
        let e : other.row ≡ due.row =
          lawful.table.keyed other.row due.row other.stored due.stored (same ∙ due.same_id) in
        record {
          is_granted = other.is_granted;
          good = other.good;
          row = as_expired r;
          stored =
              put_here request_id desk.requests due.row (as_expired r) due.stored (sym due.same_id);
          same_id = other.same_id ∙ same;
          same_unit =
              other.same_unit ∙ (ap (λ x. OutageRequest.business_unit_id x) e ∙ sym due.same_unit);
          same_number =
              other.same_number ∙ (ap (λ x. OutageRequest.number x) e ∙ sym due.same_number);
          same_decision =
              other.same_decision
              ∙ (ap (λ x. OutageRequest.decided_by x) e ∙ sym due.same_decision);
        }
    | inr f ↦ record {
      is_granted = other.is_granted;
      good = other.good;
      row = other.row;
      stored =
          put_kept request_id desk.requests (as_expired r) other.row other.stored
            (λ e. cc (f, (==_iff other.row.id r.id).1 e));
      same_id = other.same_id;
      same_unit = other.same_unit;
      same_number = other.same_number;
      same_decision = other.same_decision;
    }
  ]

  write-IsDue :
      (unit : ℕ) (entry : Entry) (desk : Desk) (s : OutageRequest)
      → IsDue desk s
      → IsDue (write platform unit entry desk) s
  unfolding write
  write-IsDue unit entry desk s due = record {
    is_granted = due.is_granted;
    good = due.good;
    row = due.row;
    stored = due.stored;
    same_id = due.same_id;
    same_unit = due.same_unit;
    same_number = due.same_number;
    same_decision = due.same_decision;
  }

  expire_rows-Goes :
      (unit : ℕ) (rows : List OutageRequest) (desk : Desk)
      → IsLawful desk
      → ((r : OutageRequest) → Memᴰ r rows → IsDue desk r)
      → Goes desk (expire_rows platform unit rows desk)
  unfolding expire_rows
  expire_rows-Goes unit [] desk lawful due = stay desk lawful
  expire_rows-Goes unit (r ∷ rows) desk lawful due =
      let here = due r (Memᴰ.head refl) in
      let put = expire_row-Goes desk r lawful here in
      let told = write-Goes platform unit _ (put_request (as_expired r) desk) put.lawful in
      go_on (go_on put told) (
        expire_rows-Goes unit rows _ told.lawful (λ s m.
          write-IsDue unit _ (put_request (as_expired r) desk) s
            (still-IsDue desk r s lawful here (due s (Memᴰ.tail m)))))

  pub expire_due-Goes :
      (unit : ℕ) (now : Option ℕ) (desk : Desk)
      → IsLawful desk
      → Goes desk (expire_due platform unit now desk).1
  unfolding expire_due
  expire_due-Goes unit now desk lawful =
      let overdue = is_overdue unit (moment_or now desk.db.now) in
      expire_rows-Goes unit (select overdue desk.requests) desk lawful (λ r m.
        let (n, h) = mem-select_inv overdue desk.requests r m in
        record {
          is_granted = approved-inv r.state (ground arith);
          good = lawful.rows r n;
          row = r;
          stored = n;
          same_id = refl;
          same_unit = refl;
          same_number = refl;
          same_decision = refl;
        })
