-- ===== src/WorkOrders/Custody/Closing.antt =====
-- The end of the previous custody in `assign` of workorders/service.py.
use mathlib.Core.List.{Memᴰ}
use campo_sig.Common.{
  ℕ, String, ◌≡◌, refl, sym, ap, ◌∙◌, inl, inr, true, Option, none, some, List, [], ◌∷◌, arith,
  Bool-cases, Option-cases, ◌&&◌, ==_iff, ==_refl, first, first-some, truthy, ltb,
}
use campo_sig.Common.Members.{first-mem, first-none-mem, mem-select_inv}
use campo_sig.WorkOrders.Store.{DeviceCustody, Db}
use campo_sig.WorkOrders.Custody.{
  replace_custody, is_current, current_custody, put_custody, newest, flag_row, flag_device,
  mark_pending_handover, owes_undelivered_data, closed_row, close_custody,
}
use campo_sig.WorkOrders.Custody.Chain.{IsCustody, NoneOpen, put-IsCustody, custody_row, replaced}
use campo_sig.Common.Pairwise.{each-map, map-right}
use campo_sig.WorkOrders.Custody.Ending.{
  Earlier, stays-Succeeds, closed_row-Succeeds, flagged-Succeeds, unchanged,
}

is_current_inv :
    (order_id : ℕ) (row : DeviceCustody)
    → is_current order_id row ≡ true
    → (row.work_order_id ≡ order_id) × (row.until ≡ none)
is_current_inv order_id row h = ground (arith, ==_iff row.work_order_id order_id)

is_current_intro :
    (order_id : ℕ) (row : DeviceCustody)
    → row.work_order_id ≡ order_id
    → row.until ≡ none
    → is_current order_id row ≡ true
is_current_intro order_id row h u = rw (h, u) (ground (arith, ==_refl order_id))

newest-mem :
    (rows : List DeviceCustody) (row : DeviceCustody) → newest rows ≡ some row → Memᴰ row rows
unfolding newest
newest-mem [] row h = cc
newest-mem (x ∷ xs) row h = elim (Option-cases (newest xs)) [
  | inl none_left ↦ let e : some x ≡ some row = rw none_left at h in Memᴰ.head (cc)
  | inr (y, found) ↦ elim (Bool-cases (ltb x.since y.since)) [
    | inl later ↦
        let e : some y ≡ some row = rw (found, later) at h in
        let same : y ≡ row = ground arith in Memᴰ.tail (newest-mem xs row (rw (sym same) found))
    | inr other ↦ let e : some x ≡ some row = rw (found, other) at h in Memᴰ.head (cc)
  ]
]

-- What `assign` relies on while it ends a custody: the rows are those from before, and the rest of
-- the session stays as it is.
pub record Closed (db after : Db) (order_id : ℕ) (reason : Option String) : Type 0 where
  pub chain : IsCustody after.custody after.next_id
  pub earlier : Earlier order_id db.now reason db.custody after.custody
  pub free : NoneOpen after.custody order_id
  pub orders : after.orders ≡ db.orders
  pub next_id : after.next_id ≡ db.next_id
  pub now : after.now ≡ db.now
  pub trail : after.trail ≡ db.trail

module _ (db : Db) (order_id : ℕ) (reason : Option String) where
  flag_row-Closed :
      (u : Db) (found : Option DeviceCustody)
      → ((row : DeviceCustody)
          → found ≡ some row
          → Memᴰ row u.custody × (row.work_order_id ≡ order_id))
      → Closed db u order_id reason
      → Closed db (flag_row found u) order_id reason
  unfolding put_custody
  flag_row-Closed u none stored c = c
  flag_row-Closed u (some row) stored c =
      let (m, of_order) = stored row refl in
      let flagged = record row { had_unsynced_data = true } in
      record {
        chain = put-IsCustody c.chain row flagged m refl refl (λ h. h);
        earlier = map-right (replace_custody flagged) db.custody u.custody c.earlier (λ x y n s.
            elim (replaced flagged y) [
              | inl (same, e) ↦
                  let here : y ≡ row = c.chain.keyed y row n m same in
                  rw (e, sym here)
                    (flagged-Succeeds order_id db.now reason x y (rw here of_order) s)
              | inr (other, e) ↦ rw e s
            ]);
        free = λ p n same open_row.
            elim (custody_row c.chain row flagged m refl refl (λ h. h) p n) [
              | inl e ↦
                  c.free row m (sym (ap (λ (r : DeviceCustody). r.work_order_id) e) ∙ same)
                    (sym (ap (λ (r : DeviceCustody). r.until) e) ∙ open_row)
              | inr (k, _) ↦ c.free p k same open_row
            ];
        orders = c.orders;
        next_id = c.next_id;
        now = c.now;
        trail = c.trail;
      }

  flag_device-Closed :
      (u : Db) (device_id : Option String)
      → Closed db u order_id reason
      → Closed db (flag_device device_id order_id u) order_id reason
  unfolding mark_pending_handover
  flag_device-Closed u none c = c
  flag_device-Closed u (some key) c =
      elim (Bool-cases (truthy (some key) && owes_undelivered_data u key order_id)) [
        | inr settled ↦ rw settled c
        | inl owing ↦ rw owing (
            flag_row-Closed u _
              (λ row found.
                let (m, of_both) = mem-select_inv _ u.custody row (newest-mem _ row found) in
                (m, ground (arith, ==_iff row.work_order_id order_id)))
              c)
      ]

  -- After the end of the order's custody, none of its rows is open, and the rest is as it was.
  pub close_custody-Closed :
      IsCustody db.custody db.next_id
      → Closed db (close_custody (current_custody db order_id) order_id reason db) order_id reason
  unfolding close_custody current_custody
  close_custody-Closed chain = elim (Option-cases (first (is_current order_id) db.custody)) [
    | inl nobody ↦
        let free : NoneOpen db.custody order_id = λ p m same open_row.
          cc (first-none-mem _ db.custody p nobody m, is_current_intro order_id p same open_row) in
        rw nobody (record {
          chain = chain;
          earlier = unchanged order_id db.now reason db.custody free;
          free = free;
          orders = refl;
          next_id = refl;
          now = refl;
          trail = refl;
        })
    | inr (row, found) ↦
        let m = first-mem _ db.custody row found in
        let (of_order, open_before) =
          is_current_inv order_id row (first-some _ db.custody row found) in
        let new = closed_row reason db.now row in
        rw found (
          flag_device-Closed _ row.device_id (record {
            chain = put-IsCustody chain row new m refl refl (λ h. cc);
            earlier = each-map (replace_custody new) db.custody (λ x n. elim (replaced new x) [
              | inl (same, e) ↦
                  let here : x ≡ row = chain.keyed x row n m same in
                  rw (e, here) (closed_row-Succeeds order_id db.now reason row of_order open_before)
              | inr (other, e) ↦ rw e (
                  stays-Succeeds order_id db.now reason x (λ same_order open_row. other (
                    ap (λ (r : DeviceCustody). r.id)
                      (chain.single x row n m (same_order ∙ sym of_order) open_row open_before))))
            ]);
            free = λ p n same open_row. elim (custody_row chain row new m refl refl (λ h. cc) p n) [
              | inl e ↦ cc (ap (λ (r : DeviceCustody). r.until) e, open_row)
              | inr (k, other) ↦ other (
                  ap (λ (r : DeviceCustody). r.id)
                    (chain.single p row k m (same ∙ sym of_order) open_row open_before))
            ];
            orders = refl;
            next_id = refl;
            now = refl;
            trail = refl;
          }))
  ]
