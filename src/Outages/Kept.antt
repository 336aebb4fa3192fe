-- ===== src/Outages/Kept.antt =====
-- The rows and the decisions behind each call of backend/app/outages/service.py but `expire_due`.
use mathlib.Core.List.{Memᴰ}
use campo_sig.Common.{
  ℕ, suc, String, Bool, ◌≡◌, ◌≢◌, sym, ◌∙◌, refl, arith, Option, none, some, [], ◌∷◌, ◌++◌, true,
  false, not, ◌||◌, inl, inr, truthy, Option-cases, ltb, str_eq, eq_iff, is_text, ◌==◌, ==_iff, leb,
  if◌then◌else◌,
}
use campo_sig.Common.Members.{exists-none-mem, mem-append_left}
use campo_sig.Common.Strip.{strip}
use campo_sig.Common.Keyed.{add-IsKeyed, add-Single, add_row}
use campo_sig.Audit.{Entry}
use campo_sig.WorkOrders.Store.{WorkOrder, Platform}
use campo_sig.Outages.Rows.{
  OutageRequest, OutageState, requested, approved, rejected, expired, returned, Desk, OutageError,
  window_reversed, without_equipment, without_number, without_reason, self_approval,
  already_decided, not_granted, number_taken, other_unit, Outcome, refused, request_id, Asked,
  new_request, is_taken, is_requested, is_approved, as_approved, as_rejected,
}
use campo_sig.Outages.Calls.{
  set_order, write_row, request_outage, add_request, approve, reject, hand_back, link, unlink,
}
use campo_sig.Outages.Lawful.{
  IsLawful, IsRequest, SameNumber, Standing, Follows, IsFree, kept-IsFree, set_order-IsLawful,
}
use campo_sig.Outages.Decisions.{Goes, still, stay, go_on, same_rows, write_row-Goes, write-Goes}

-- What is known of a row in the state that a guard found.
requested-inv : (s : OutageState) → not (is_requested s) ≡ false → s ≡ requested
requested-inv requested h = refl
requested-inv approved h = cc
requested-inv rejected h = cc
requested-inv expired h = cc
requested-inv returned h = cc

pub approved-inv : (s : OutageState) → is_approved s ≡ true → s ≡ approved
approved-inv approved h = refl
approved-inv requested h = cc
approved-inv rejected h = cc
approved-inv expired h = cc
approved-inv returned h = cc

other_person : (a b : String) → str_eq a b ≡ false → a ≢ b
other_person a b f h = cc (f, (eq_iff a b).1 h)

pub decide-Follows :
    (old new : OutageRequest)
    → old.state ≡ requested
    → new.id ≡ old.id
    → new.business_unit_id ≡ old.business_unit_id
    → Follows old new
decide-Follows old new waits same_id same_unit = record {
  same_id = same_id;
  same_unit = same_unit;
  kept = λ h. absurd (h waits);
}

IsFree-number :
    (request new : OutageRequest) (number : String) (desk : Desk)
    → is_taken request number desk ≡ false
    → new.id ≡ request.id
    → new.business_unit_id ≡ request.business_unit_id
    → new.number ≡ some number
    → IsFree new desk
unfolding is_taken is_text
IsFree-number request new number desk free same_id same_unit named x m other h =
    let found = exists-none-mem _ desk.requests x free m in
    let unit = (==_iff x.business_unit_id request.business_unit_id).1 (sym h.unit ∙ same_unit) in
    let apart : (x.id == request.id) ≡ false = ground (arith, other, same_id) in
    let has : x.number ≡ some number = sym h.number ∙ named in
    cc (rw (apart, unit, has, (eq_iff number number).1 refl) at found)

unnumbered : (a b : OutageRequest) → SameNumber a b → ¬ (b.number ≡ none)
unfolding truthy
unnumbered a b h e = cc (rw (h.number ∙ e) at h.numbered)

-- Where a call ends.
pub record Ends {A : Type 0} (desk : Desk) (out : Outcome A × Desk) : Type 0 where
  pub goes : Goes desk out.1

-- A refusal leaves the session as it is.
unless :
    {A : Type 0} (desk : Desk)
    → IsLawful desk
    → (b : Bool) (e : OutageError) (rest : Outcome A × Desk) → (b ≡ false → Ends desk rest)
    → Ends desk (if b then (refused e, desk) else rest)
unless desk lawful true e rest go = record { goes = stay desk lawful }
unless desk lawful false e rest go = go refl

only_if :
    {A : Type 0} (desk : Desk)
    → IsLawful desk
    → (b : Bool) (e : OutageError) (rest : Outcome A × Desk) → (b ≡ true → Ends desk rest)
    → Ends desk (if b then rest else (refused e, desk))
only_if desk lawful true e rest go = go refl
only_if desk lawful false e rest go = record { goes = stay desk lawful }

module _ (platform : Platform) where
  written :
      (unit : ℕ) (entry : Entry) (desk : Desk) (old new : OutageRequest)
      → IsLawful desk
      → Memᴰ old desk.requests
      → Follows old new
      → IsRequest new
      → IsFree new desk
      → Ends desk (write_row platform unit new entry desk)
  written unit entry desk old new lawful stored follows good free = record {
    goes = write_row-Goes platform unit entry desk old new lawful stored follows good free;
  }

  pub approve-Ends :
      (unit : ℕ) (request : OutageRequest) (number decided_by : String) (note : Option String)
      (desk : Desk)
      → IsLawful desk
      → Memᴰ request desk.requests
      → Ends desk (approve platform unit request number decided_by note desk)
  unfolding approve
  approve-Ends unit request number decided_by note desk lawful stored =
      let granted = as_approved number decided_by note desk.db.now request in
      let row = lawful.rows request stored in
      unless desk lawful (not (is_requested request.state)) (already_decided request.state) _
        (λ waits.
          unless desk lawful (not (truthy (some (strip number)))) without_number _ (λ numbered.
            unless desk lawful (str_eq decided_by request.requested_by) self_approval _ (λ other.
              unless desk lawful (is_taken request (strip number) desk) number_taken _ (λ free.
                written unit _ desk request granted lawful stored
                  (decide-Follows request granted (requested-inv request.state waits) refl refl)
                  record {
                    window = row.window;
                    named = row.named;
                    standing = (ground arith, (decided_by, refl, other_person decided_by _ other));
                  }
                  (IsFree-number request granted (strip number) desk free refl refl refl)))))

  pub reject-Ends :
      (unit : ℕ) (request : OutageRequest) (decided_by note : String) (desk : Desk)
      → IsLawful desk
      → Memᴰ request desk.requests
      → Ends desk (reject platform unit request decided_by note desk)
  unfolding reject
  reject-Ends unit request decided_by note desk lawful stored =
      let denied = as_rejected decided_by note desk.db.now request in
      let row = lawful.rows request stored in
      unless desk lawful (not (is_requested request.state)) (already_decided request.state) _
        (λ waits.
          unless desk lawful (not (truthy (some (strip note)))) without_reason _ (λ reasoned.
            unless desk lawful (str_eq decided_by request.requested_by) self_approval _ (λ other.
              let state = requested-inv request.state waits in
              let follows = decide-Follows request denied state refl refl in
              let standing : Standing requested request = rw state at row.standing in
              written unit _ desk request denied lawful stored follows
                record {
                  window = row.window;
                  named = row.named;
                  standing = (standing.0, (decided_by, refl, other_person decided_by _ other));
                }
                (kept-IsFree desk request denied lawful stored follows refl))))

  pub hand_back-Ends :
      (unit : ℕ) (request : OutageRequest) (returned_by : String) (at : Option ℕ) (desk : Desk)
      → IsLawful desk
      → Memᴰ request desk.requests
      → Ends desk (hand_back platform unit request returned_by at desk)
  unfolding hand_back
  hand_back-Ends unit request returned_by at desk lawful stored =
      let row = lawful.rows request stored in
      only_if desk lawful (is_approved request.state) (not_granted request.state) _ (λ granted.
        let standing : Standing approved request =
          rw (approved-inv request.state granted) at row.standing in
        let follows : Follows request _ = record {
          same_id = refl;
          same_unit = refl;
          kept = λ h. (λ k. cc, refl, refl);
        } in
        written unit _ desk request _ lawful stored follows
          record { window = row.window; named = row.named; standing = standing }
          (kept-IsFree desk request _ lawful stored follows refl))

  pub link-Ends :
      (unit : ℕ) (order : WorkOrder) (request : OutageRequest) (actor : String) (desk : Desk)
      → IsLawful desk
      → Memᴰ request desk.requests
      → Ends desk (link platform unit order request actor desk)
  unfolding link set_order
  link-Ends unit order request actor desk lawful stored =
      let order' = record order { outage_request_id = some request.id } in
      unless desk lawful
        (not (order.business_unit_id == unit) || not (request.business_unit_id == unit)) other_unit
        _
        (λ both.
          let mine = (==_iff order.business_unit_id unit).0 (ground arith) in
          let its = (==_iff request.business_unit_id unit).0 (ground arith) in
          let linked : IsLawful (set_order platform order' desk) =
            set_order-IsLawful platform order' desk (λ id h. (request, stored, cc, its ∙ sym mine))
              lawful in
          record {
            goes =
                go_on (same_rows desk _ refl linked)
                  (write-Goes platform unit _ (set_order platform order' desk) linked);
          })

  pub unlink-Ends :
      (unit : ℕ) (order : WorkOrder) (actor : String) (desk : Desk)
      → IsLawful desk
      → Ends desk (unlink platform unit order actor desk)
  unfolding unlink set_order
  unlink-Ends unit order actor desk lawful = elim (Option-cases order.outage_request_id) [
    | inl e ↦ rw e record { goes = stay desk lawful }
    | inr (previous, e) ↦
        let order' = record order { outage_request_id = none } in
        let free = set_order-IsLawful platform order' desk (λ id h. cc) lawful in
        rw e record {
          goes =
              go_on (same_rows desk _ refl free)
                (write-Goes platform unit _ (set_order platform order' desk) free);
        }
  ]

  add-IsLawful :
      (unit : ℕ) (asked : Asked) (desk : Desk)
      → IsLawful desk
      → ltb asked.window_start asked.window_end ≡ true
      → truthy (some (strip asked.equipment)) ≡ true
      → IsLawful record desk {
        db = record desk.db { next_id = suc desk.db.next_id };
        requests = desk.requests ++ new_request desk.db.next_id unit asked ∷ [];
      }
  add-IsLawful unit asked desk lawful window named =
      let new = new_request desk.db.next_id unit asked in
      record {
        table = add-IsKeyed request_id desk.requests desk.db.next_id new lawful.table refl;
        unique =
            add-Single request_id SameNumber desk.requests new lawful.unique
              (λ x m h. unnumbered x new h refl) (λ x m h. unnumbered new x h (sym h.number));
        rows = λ r m. elim (add_row request_id desk.requests new r m) [
          | inl n ↦ lawful.rows r n
          | inr e ↦ rw e record { window = ground arith; named = named; standing = (refl, refl) }
        ];
        linked = λ o m id h.
            let (r, n, e, u) = lawful.linked o m id h in
            (r, mem-append_left desk.requests (new ∷ []) r n, e, u);
      }

  pub request_outage-Ends :
      (unit : ℕ) (asked : Asked) (desk : Desk)
      → IsLawful desk
      → Ends desk (request_outage platform unit asked desk)
  unfolding request_outage add_request
  request_outage-Ends unit asked desk lawful =
      unless desk lawful (leb asked.window_end asked.window_start) window_reversed _ (λ ordered.
        unless desk lawful (not (truthy (some (strip asked.equipment)))) without_equipment _
          (λ named.
            let added = add-IsLawful unit asked desk lawful (ground arith) (ground arith) in
            record {
              goes =
                  go_on
                    record {
                      lawful = added;
                      decisions = λ r m h. (r, mem-append_left desk.requests _ r m, still r h);
                    }
                    (write-Goes platform unit _ _ added);
            }))
