-- ===== src/WorkOrders/Sound/Placed.antt =====
-- What `assign_each`, the loop of `assign_many` of backend/app/workorders/service.py, leaves where it
-- returns: the orders that were assigned, those that were refused, and the others.
use mathlib.Core.List.{Memᴰ}
use campo_sig.Common.{ℕ, ◌≡◌, ◌≢◌, refl, sym, ap, subst, ◌∙◌, inl, inr, true, List, [], ◌∷◌}
use campo_sig.Common.Members.{mem-All, mem-append_right}
use campo_sig.Common.Keyed.{put_here, put_kept}
use campo_sig.WorkOrders.Store.{WorkOrder, Db, Platform, Failure, ok}
use campo_sig.WorkOrders.Own.{OwnRows}
use campo_sig.WorkOrders.Custody.{Assignment, assign, new_custody}
use campo_sig.WorkOrders.Custody.Chain.{IsCustody}
use campo_sig.WorkOrders.Custody.Outcome.{MayAssign, Handover, assign-IsCustody, assign-Handover}
use campo_sig.WorkOrders.Custody.Many.{Refusal, refused, Outcome, assign_each}
use campo_sig.WorkOrders.Sound.Answers.{after_one-Behind}
use campo_sig.WorkOrders.Sound.Each.{
  order_row, Each, assign-other_custody, still_stored, returned-MayAssign, caught_unchanged,
}

module _ (platform : Platform) where
  behind_other :
      (order : WorkOrder) (orders : List WorkOrder)
      → OwnRows (order ∷ orders)
      → (x : WorkOrder) → Memᴰ x orders
      → order.id ≢ x.id
  behind_other order orders own x m = mem-All (λ (y : WorkOrder). order.id ≢ y.id) orders x own.0 m

  -- The first order was assigned.
  held-Each :
      (order held : WorkOrder) (orders : List WorkOrder) (a : Assignment) (db mid after : Db)
      (later : Outcome)
      → OwnRows (order ∷ orders)
      → Memᴰ order db.orders
      → MayAssign order a
      → Handover platform order a db held true mid
      → Each orders a mid later after
      → Each (order ∷ orders) a db (record later { assigned = held ∷ later.assigned }) after
  held-Each order held orders a db mid after later own inside may left rest =
      let apart = behind_other order orders own in
      let (rows, custody, earlier, free) = left.custody refl in
      let new = new_custody a order.id db.next_id db.now in
      let in_mid : Memᴰ new mid.custody =
        rw custody (mem-append_right rows (new ∷ []) new (Memᴰ.head refl)) in
      let held_mid : Memᴰ held mid.orders =
        rw left.orders (put_here order_row db.orders order held inside (sym left.handed.same_id)) in
      record {
        assigned = λ h m. elim m [
          | Memᴰ.head e ↦ (
            order,
            Memᴰ.head refl,
            rw e (record {
              may = may;
              same_id = left.handed.same_id;
              in_state = left.handed.in_state;
              next_version = left.handed.next_version;
              crew = left.handed.crew;
              stored =
                  rest.others held held_mid
                    (λ x n same. apart x n (sym left.handed.same_id ∙ same));
              custody = record {
                row = new;
                stored = rest.custodies new in_mid apart;
                of_order = refl;
                is_open = refl;
                crew = refl;
                granted_by = refl;
              };
            }),
          )
          | Memᴰ.tail n ↦ let (o, k, done) = rest.assigned h n in (o, Memᴰ.tail k, done)
        ];
        failures = λ id r m.
            let (o, k, same, done, why) = rest.failures id r m in (o, Memᴰ.tail k, same, done, why);
        others = λ o m away.
            let kept : Memᴰ o mid.orders = rw left.orders (
              put_kept order_row db.orders held o m
                (λ h. away order (Memᴰ.head refl) (h ∙ left.handed.same_id))) in
            rest.others o kept (λ x n. away x (Memᴰ.tail n));
        custodies = λ row m away.
            rest.custodies row
              (assign-other_custody platform order held a db mid row left m
                (away order (Memᴰ.head refl)))
              (λ x n. away x (Memᴰ.tail n));
      }

  -- The first order was refused.
  refused-Each :
      (order : WorkOrder) (orders : List WorkOrder) (a : Assignment) (db mid after : Db)
      (later : Outcome) (e : Failure)
      → OwnRows (order ∷ orders)
      → Memᴰ order db.orders
      → ¬ MayAssign order a
      → mid ≡ db
      → Each orders a mid later after
      → Each
          (order ∷ orders)
          a
          db
          (record later { failures = (order.id, refused e) ∷ later.failures })
          after
  refused-Each order orders a db mid after later e own inside may_not unmoved made =
      let rest = subst (λ (d : Db). Each orders a d later after) unmoved made in
      record {
        assigned = λ h m. let (o, k, done) = rest.assigned h m in (o, Memᴰ.tail k, done);
        failures = λ id r m. elim m [
          | Memᴰ.head same ↦ (
            order,
            Memᴰ.head refl,
            sym (ap (λ (p : ℕ × Refusal). p.0) same),
            record {
              may_not = may_not;
              stored = rest.others order inside (behind_other order orders own);
            },
            (e, ap (λ (p : ℕ × Refusal). p.1) same),
          )
          | Memᴰ.tail n ↦
              let (o, k, same', done, why) = rest.failures id r n in
              (o, Memᴰ.tail k, same', done, why)
        ];
        others = λ o m away. rest.others o m (λ x n. away x (Memᴰ.tail n));
        custodies = λ row m away. rest.custodies row m (λ x n. away x (Memᴰ.tail n));
      }

  pub assign_each-Each :
      (orders : List WorkOrder) (a : Assignment) (db : Db) (out : Outcome)
      → OwnRows orders
      → IsCustody db.custody db.next_id
      → ((o : WorkOrder) → Memᴰ o orders → Memᴰ o db.orders)
      → (assign_each platform orders a db).0 ≡ ok out
      → Each orders a db out (assign_each platform orders a db).1
  unfolding assign_each
  assign_each-Each [] a db out own chain inside h =
      let none_left : record { assigned = []; failures = [] } ≡ out = cc in
      rw⁻¹ none_left (record {
        assigned = λ held m. elim m [ ];
        failures = λ id r m. elim m [ ];
        others = λ o m away. m;
        custodies = λ row m away. m;
      })
  assign_each-Each (order ∷ orders) a db out own chain inside h =
      let made = assign platform order a db in
      let behind =
        after_one-Behind platform order made.0 made.1 (assign_each platform orders a made.1) out
          h in
      let stored = inside order (Memᴰ.head refl) in
      let rest =
        assign_each-Each orders a made.1 behind.later own.1
          (assign-IsCustody platform order a db chain)
          (still_stored platform order orders a db own chain inside) behind.returned in
      elim behind.whole [
        | inl (held, done, e) ↦
            rw (behind.session, e)
              (held-Each order held orders a db made.1 _ behind.later own stored
                (returned-MayAssign platform order held a db done)
                (assign-Handover platform order a db held chain done) rest)
        | inr (e, raised, caught, same) ↦
            let (may_not, unmoved) = caught_unchanged platform order a db e chain raised caught in
            rw (behind.session, same)
              (refused-Each order orders a db made.1 _ behind.later e own stored may_not unmoved
                rest)
      ]
