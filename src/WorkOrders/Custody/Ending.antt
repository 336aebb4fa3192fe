-- ===== src/WorkOrders/Custody/Ending.antt =====
-- What the rows of the custodies are behind the end of an order's custody in `assign` of
-- workorders/service.py.
use mathlib.Core.List.{Memᴰ, Forall₂}
use campo_sig.Common.{
  ℕ, String, ◌≡◌, ◌≢◌, ◌⊎◌, if◌then◌else◌, refl, sym, ◌∙◌, inl, inr, true, Option, none, some, List,
  [], ◌∷◌, truthy,
}
use campo_sig.WorkOrders.Store.{DeviceCustody}
use campo_sig.WorkOrders.Custody.{closed_row}
use campo_sig.WorkOrders.Custody.Chain.{NoneOpen}

-- What a row of the table is behind the end of the order's custody. A row keeps who held which order
-- since when. The order's open row ends now, with the reason if there is one, and every other row
-- keeps its end. Only rows of the order may be marked with data that was not delivered.
pub record Succeeds (order_id now : ℕ) (reason : Option String) (old new : DeviceCustody)
    : Type 0 where
  pub same_id : new.id ≡ old.id
  pub same_order : new.work_order_id ≡ old.work_order_id
  pub device : new.device_id ≡ old.device_id
  pub user : new.user_sub ≡ old.user_sub
  pub crew : new.crew_id ≡ old.crew_id
  pub since : new.since ≡ old.since
  pub granted_by : new.granted_by ≡ old.granted_by
  pub context : new.context ≡ old.context
  pub ended :
      old.work_order_id ≡ order_id
      → old.until ≡ none
      → (new.until ≡ some now) × (new.reason ≡ (if truthy reason then reason else old.reason))
  pub settled : old.until ≢ none → (new.until ≡ old.until) × (new.reason ≡ old.reason)
  pub elsewhere : old.work_order_id ≢ order_id → new ≡ old
  pub flag : (new.had_unsynced_data ≡ true) ⊎ (new.had_unsynced_data ≡ old.had_unsynced_data)

module _ (order_id now : ℕ) (reason : Option String) where
  pub stays-Succeeds :
      (row : DeviceCustody)
      → (row.work_order_id ≡ order_id → row.until ≢ none)
      → Succeeds order_id now reason row row
  stays-Succeeds row ended = record {
    same_id = refl;
    same_order = refl;
    device = refl;
    user = refl;
    crew = refl;
    since = refl;
    granted_by = refl;
    context = refl;
    ended = λ of_order open_row. absurd (ended of_order open_row);
    settled = λ h. (refl, refl);
    elsewhere = λ h. refl;
    flag = inr refl;
  }

  pub closed_row-Succeeds :
      (row : DeviceCustody)
      → row.work_order_id ≡ order_id
      → row.until ≡ none
      → Succeeds order_id now reason row (closed_row reason now row)
  closed_row-Succeeds row of_order open_row = record {
    same_id = refl;
    same_order = refl;
    device = refl;
    user = refl;
    crew = refl;
    since = refl;
    granted_by = refl;
    context = refl;
    ended = λ h k. (refl, refl);
    settled = λ h. absurd (h open_row);
    elsewhere = λ h. absurd (h of_order);
    flag = inr refl;
  }

  pub flagged-Succeeds :
      (old new : DeviceCustody)
      → new.work_order_id ≡ order_id
      → Succeeds order_id now reason old new
      → Succeeds order_id now reason old (record new { had_unsynced_data = true })
  flagged-Succeeds old new of_order s = record {
    same_id = s.same_id;
    same_order = s.same_order;
    device = s.device;
    user = s.user;
    crew = s.crew;
    since = s.since;
    granted_by = s.granted_by;
    context = s.context;
    ended = s.ended;
    settled = s.settled;
    elsewhere = λ h. absurd (h (sym s.same_order ∙ of_order));
    flag = inl refl;
  }

-- The rows one by one, in their order.
abbrev pub Earlier : ℕ → ℕ → Option String → List DeviceCustody → List DeviceCustody → Type 0
Earlier order_id now reason = Forall₂ (Succeeds order_id now reason)

-- The rows where none of the order is open.
pub unchanged :
    (order_id now : ℕ) (reason : Option String) (rows : List DeviceCustody)
    → NoneOpen rows order_id
    → Earlier order_id now reason rows rows
unchanged order_id now reason [] free = Forall₂.nil
unchanged order_id now reason (x ∷ xs) free =
    Forall₂.cons (stays-Succeeds order_id now reason x (free x (Memᴰ.head refl)))
      (unchanged order_id now reason xs (λ p m. free p (Memᴰ.tail m)))
