-- ===== src/WorkOrders/Fronts.antt =====
-- backend/app/workorders/fronts.py: a work and its fronts, one level deep.
pub mod Totals
use campo_sig.Common.{
  ℕ, ◌+◌, String, Bool, true, false, not, Option, none, some, List, [], ◌∷◌, ◌++◌, map, ◌==◌, ltb,
  leb, if◌then◌else◌, ◌&&◌, ◌||◌, select, order_by, is_id, is_none, is_some, is_empty, truthy,
}
use campo_sig.Common.Json.{Fields, str, null, uuid, opt_text, opt_uuid, field, end}
use campo_sig.Audit.{Entry, row_id, field_changed, person}
use campo_sig.WorkOrders.State.{
  WorkOrderState, draft, planned, downloaded, en_route, on_site, in_execution, suspended,
  closed_field, synced, in_review, returned, approved, closed, cancelled,
}
use campo_sig.WorkOrders.Store.{
  WorkOrder, Db, Platform, own_front, not_same_unit, parent_is_front, front_of_other,
  front_has_fronts, parent_under_way, not_a_front, ok, err, Exec, put_order, write_event,
}

-- `state in OPEN_FRONT_STATES`
unfoldable pub is_open : WorkOrderState → Bool
is_open closed = false
is_open cancelled = false
is_open _ = true

-- `state in ATTACHABLE_PARENT_STATES`
unfoldable pub is_attachable : WorkOrderState → Bool
is_attachable draft = true
is_attachable planned = true
is_attachable _ = false

pub record Progress : Type 0 where
  pub total : ℕ
  pub closed_count : ℕ
  pub cancelled_count : ℕ
  pub in_field : ℕ
  pub in_review_count : ℕ
  pub pending : ℕ
  pub open_codes : List String

abbrev pub no_progress : Progress
no_progress = record {
  total = 0;
  closed_count = 0;
  cancelled_count = 0;
  in_field = 0;
  in_review_count = 0;
  pending = 0;
  open_codes = [];
}

-- `Progress.done`
unfoldable pub done : Progress → ℕ
done p = p.closed_count + p.cancelled_count

-- `Progress.is_complete`
unfoldable pub is_complete : Progress → Bool
unfolding done
is_complete p = ltb 0 p.total && done p == p.total

-- The order of the rows by code, null last, then by the time and the identifier.
abbrev by_age : WorkOrder → WorkOrder → Bool
by_age a b = ltb a.created_at b.created_at || (a.created_at == b.created_at && leb a.id b.id)

abbrev by_code : (String → String → Bool) → Option String → Option String → Bool → Bool
by_code text_le none none tie = tie
by_code text_le none (some d) tie = false
by_code text_le (some c) none tie = true
by_code text_le (some c) (some d) tie = text_le c d && (not (text_le d c) || tie)

abbrev pub front_le : Platform → WorkOrder → WorkOrder → Bool
front_le platform a b = by_code platform.text_le a.code b.code (by_age a b)

abbrev pub is_child : ℕ → WorkOrder → Bool
is_child parent_id o = is_id o.parent_id parent_id

-- The `if` chain of `progress_of` over the state of one front.
unfoldable pub count_state : WorkOrderState → Progress → Progress
count_state closed p = record p { closed_count = p.closed_count + 1 }
count_state cancelled p = record p { cancelled_count = p.cancelled_count + 1 }
count_state synced p = record p { in_review_count = p.in_review_count + 1 }
count_state in_review p = record p { in_review_count = p.in_review_count + 1 }
count_state approved p = record p { in_review_count = p.in_review_count + 1 }
count_state returned p = record p { in_review_count = p.in_review_count + 1 }
count_state downloaded p = record p { in_field = p.in_field + 1 }
count_state en_route p = record p { in_field = p.in_field + 1 }
count_state on_site p = record p { in_field = p.in_field + 1 }
count_state in_execution p = record p { in_field = p.in_field + 1 }
count_state suspended p = record p { in_field = p.in_field + 1 }
count_state closed_field p = record p { in_field = p.in_field + 1 }
count_state _ p = record p { pending = p.pending + 1 }

abbrev open_code : Option String → List String
open_code none = []
open_code (some c) = if truthy (some c) then c ∷ [] else []

unfoldable pub count_front : Progress → WorkOrder → Progress
unfolding count_state is_open
count_front p child =
    let counted = count_state child.state (record p { total = p.total + 1 }) in
    if is_open child.state
    then record counted { open_codes = counted.open_codes ++ open_code child.code }
    else counted

-- The loop of `progress_of`.
unfoldable pub tally : Progress → List WorkOrder → Progress
unfolding count_front
tally p [] = p
tally p (child ∷ rest) = tally (count_front p child) rest

abbrev label_of : Platform → ℕ → Option String → String
label_of platform id none = platform.uuid_text id
label_of platform id (some c) = if truthy (some c) then c else platform.uuid_text id

module _ (platform : Platform) where
  unfoldable pub children_of : Db → ℕ → List WorkOrder
  children_of db parent_id = order_by (front_le platform) (select (is_child parent_id) db.orders)

  unfoldable pub progress_of : Db → ℕ → Progress
  unfolding tally
  progress_of db parent_id = tally no_progress (children_of db parent_id)

  unfoldable pub open_fronts : Db → ℕ → List WorkOrder
  unfolding is_open
  open_fronts db parent_id = select (λ child. is_open child.state) (children_of db parent_id)

  unfoldable pub blocking_fronts : Db → WorkOrder → WorkOrderState → List String
  unfolding is_open
  blocking_fronts db order target =
      if is_open target
      then []
      else map (λ child. label_of platform child.id child.code) (open_fronts db order.id)

  abbrev link_event : WorkOrder → String → Fields → Entry
  link_event child actor payload = record {
    kind = field_changed;
    subject_type = "orden_trabajo";
    subject_id = row_id child.id;
    actor = actor;
    actor_kind = person;
    work_order_id = some child.id;
    asset_code = child.asset_code;
    device_key = none;
    payload = payload;
    reason = none;
  }

  -- The writes of `attach`, behind its guards.
  unfoldable pub link : ℕ → WorkOrder → WorkOrder → String → Exec WorkOrder
  unfolding put_order write_event
  link unit parent child actor db =
      let child' = record child { parent_id = some parent.id } in
      let payload =
        field "field" (str "parent_id")
          (field "to" (uuid parent.id) (field "parent_code" (opt_text parent.code) end)) in
      (
        ok child',
        write_event platform.hashing unit (link_event child' actor payload) (put_order child' db),
      )

  unfoldable pub attach : ℕ → WorkOrder → WorkOrder → String → Exec WorkOrder
  attach unit parent child actor db =
      if parent.id == child.id
      then (err own_front, db)
      else if not (parent.business_unit_id == unit) || not (child.business_unit_id == unit)
      then (err not_same_unit, db)
      else if is_some parent.parent_id
      then (err parent_is_front, db)
      else if is_some child.parent_id && not (is_id child.parent_id parent.id)
      then (err front_of_other, db)
      else if not (is_empty (children_of db child.id))
      then (err front_has_fronts, db)
      else if is_attachable parent.state
      then link unit parent child actor db
      else (err (parent_under_way parent.state), db)

  unfoldable pub detach : ℕ → WorkOrder → String → Exec WorkOrder
  unfolding put_order write_event
  detach unit child actor db =
      let child' = record child { parent_id = none } in
      let payload =
        field "field" (str "parent_id")
          (field "from" (opt_uuid child.parent_id) (field "to" null end)) in
      if is_none child.parent_id then (err not_a_front, db) else (
        ok child',
        write_event platform.hashing unit (link_event child' actor payload) (put_order child' db),
      )
