-- ===== src/WorkOrders/Fronts/Totals.antt =====
-- What the numbers of `progress_of` in workorders/fronts.py add up to.
use campo_sig.Common.{
  ℕ, ◌+◌, ◌<◌, ◌≡◌, ◌≢◌, ap, ◌↔◌, Bool, true, List, [], ◌∷◌, arith, length, nil_of_length,
  length_pos, select,
}
use campo_sig.WorkOrders.Store.{WorkOrder, Db, Platform}
use campo_sig.WorkOrders.Fronts.{
  Progress, no_progress, done, is_complete, is_open, count_front, tally, children_of, progress_of,
  open_fronts,
}

-- The fronts that are neither closed nor cancelled, by the place where they are counted.
abbrev pub unsettled : Progress → ℕ
unsettled p = p.in_field + p.in_review_count + p.pending

abbrev is_open_front : WorkOrder → Bool
is_open_front c = is_open c.state

-- One front adds to the total, and to one side of it.
count_front_one :
    (p : Progress) (c : WorkOrder)
    → ((count_front p c).total ≡ p.total + 1)
      × (done (count_front p c) + length (select is_open_front (c ∷ [])) ≡ done p + 1)
      × (unsettled (count_front p c) ≡ unsettled p + length (select is_open_front (c ∷ [])))
unfolding count_front done select
count_front_one p c = ground arith

length-select-cons :
    (c : WorkOrder) (cs : List WorkOrder)
    → length (select is_open_front (c ∷ cs))
      ≡ length (select is_open_front (c ∷ [])) + length (select is_open_front cs)
unfolding select
length-select-cons c cs = ground arith

tally_sums :
    (p : Progress) (cs : List WorkOrder)
    → ((tally p cs).total ≡ p.total + length cs)
      × (done (tally p cs) + length (select is_open_front cs) ≡ done p + length cs)
      × (unsettled (tally p cs) ≡ unsettled p + length (select is_open_front cs))
unfolding tally
tally_sums p [] = (unfold select in (omega arith, omega arith, omega arith))
tally_sums p (c ∷ cs) =
    let one = count_front_one p c in
    let rest = tally_sums (count_front p c) cs in
    let split = length-select-cons c cs in (omega arith, omega arith, omega arith)

module _ (platform : Platform) (db : Db) (parent_id : ℕ) where
  -- The total counts every front of the work once. What is not closed or cancelled is in the field,
  -- in review or pending, and there is as much of it as there are open fronts.
  pub progress_of_sums :
      ((progress_of platform db parent_id).total ≡ length (children_of platform db parent_id))
      × (done (progress_of platform db parent_id) + length (open_fronts platform db parent_id)
          ≡ (progress_of platform db parent_id).total)
      × (unsettled (progress_of platform db parent_id) ≡ length (open_fronts platform db parent_id))
  unfolding progress_of open_fronts done
  progress_of_sums =
      let sums = tally_sums no_progress (children_of platform db parent_id) in
      (omega arith, omega arith, omega arith)

  -- A work is complete exactly when it has fronts and none of them is open.
  pub is_complete_iff :
      (is_complete (progress_of platform db parent_id) ≡ true)
      ↔ ((children_of platform db parent_id ≢ []) × (open_fronts platform db parent_id ≡ []))
  unfolding is_complete
  is_complete_iff =
      let sums = progress_of_sums in
      let cs = children_of platform db parent_id in
      let left = open_fronts platform db parent_id in
      (
        (λ h.
            let some_front : 0 < length cs = ground arith in
            let none_open : length left ≡ 0 = ground arith in
            ((λ e. absurd (omega (arith, ap length e))), nil_of_length left none_open)),
        (λ (some_front, none_open). ground (arith, length_pos cs some_front, ap length none_open)),
      )
