-- ===== src/Outages/Decisions.antt =====
-- What a call of backend/app/outages/service.py does to the decisions that were taken before it.
use mathlib.Core.List.{Memᴰ}
use campo_sig.Common.{ℕ, ◌≡◌, ◌≢◌, sym, ◌∙◌, refl, inl, inr, Bool-cases, ◌==◌, ==_iff}
use campo_sig.Common.Keyed.{put_here, put_kept}
use campo_sig.Audit.{Entry}
use campo_sig.WorkOrders.Store.{Platform}
use campo_sig.Outages.Rows.{OutageRequest, requested, Desk, request_id, put_request}
use campo_sig.Outages.Calls.{write, write_row}
use campo_sig.Outages.Lawful.{IsLawful, IsRequest, Follows, IsFree, put-IsLawful, write-IsLawful}

-- The decision on a request, as a later row of it has it.
pub record Decision (old new : OutageRequest) : Type 0 where
  pub same_id : new.id ≡ old.id
  pub stands : new.state ≢ requested
  pub number : new.number ≡ old.number
  pub decided_by : new.decided_by ≡ old.decided_by

pub record Goes (desk desk' : Desk) : Type 0 where
  pub lawful : IsLawful desk'
  pub decisions :
      (r : OutageRequest)
      → Memᴰ r desk.requests
      → r.state ≢ requested
      → (r' : OutageRequest) × Memᴰ r' desk'.requests × Decision r r'

pub still : (r : OutageRequest) → r.state ≢ requested → Decision r r
still r h = record { same_id = refl; stands = h; number = refl; decided_by = refl }

pub stay : (desk : Desk) → IsLawful desk → Goes desk desk
stay desk lawful = record { lawful = lawful; decisions = λ r m h. (r, m, still r h) }

pub go_on : {a b c : Desk} → Goes a b → Goes b c → Goes a c
go_on before behind = record {
  lawful = behind.lawful;
  decisions = λ r m h.
      let (r', m', d) = before.decisions r m h in
      let (r'', m'', e) = behind.decisions r' m' d.stands in
      (
        r'',
        m'',
        record {
          same_id = e.same_id ∙ d.same_id;
          stands = e.stands;
          number = e.number ∙ d.number;
          decided_by = e.decided_by ∙ d.decided_by;
        },
      );
}

-- Nothing changes but the trail and the orders.
pub same_rows :
    (desk desk' : Desk) → desk'.requests ≡ desk.requests → IsLawful desk' → Goes desk desk'
same_rows desk desk' same lawful = record {
  lawful = lawful;
  decisions = λ r m h. (r, rw same m, still r h);
}

module _ (platform : Platform) where
  pub write-Goes :
      (unit : ℕ) (entry : Entry) (desk : Desk)
      → IsLawful desk
      → Goes desk (write platform unit entry desk)
  unfolding write
  write-Goes unit entry desk lawful =
      same_rows desk _ refl (write-IsLawful platform unit entry desk lawful)

  pub put-Goes :
      (desk : Desk) (old new : OutageRequest)
      → IsLawful desk
      → Memᴰ old desk.requests
      → Follows old new
      → IsRequest new
      → IsFree new desk
      → Goes desk (put_request new desk)
  unfolding put_request
  put-Goes desk old new lawful stored follows good free = record {
    lawful = put-IsLawful desk old new lawful stored follows good free;
    decisions = λ r m h. elim (Bool-cases (r.id == new.id)) [
      | inl t ↦
          let same = (==_iff r.id new.id).0 t in
          let found : r ≡ old = lawful.table.keyed r old m stored (same ∙ follows.same_id) in
          let (s, n, d) = follows.kept (rw found at h) in
          (
            new,
            put_here request_id desk.requests old new stored (sym follows.same_id),
            record { same_id = sym same; stands = s; number = rw found n; decided_by = rw found d },
          )
      | inr f ↦ (
        r,
        put_kept request_id desk.requests new r m (λ e. cc (f, (==_iff r.id new.id).1 e)),
        still r h,
      )
    ];
  }

  pub write_row-Goes :
      (unit : ℕ) (entry : Entry) (desk : Desk) (old new : OutageRequest)
      → IsLawful desk
      → Memᴰ old desk.requests
      → Follows old new
      → IsRequest new
      → IsFree new desk
      → Goes desk (write_row platform unit new entry desk).1
  unfolding write_row
  write_row-Goes unit entry desk old new lawful stored follows good free =
      let put = put-Goes desk old new lawful stored follows good free in
      go_on put (write-Goes unit entry (put_request new desk) put.lawful)
