-- ===== src/Sync/Rounds.antt =====
-- A phone that pulls until nothing is left, by `pull_work_orders` of backend/app/sync/service.py.
use mathlib.Core.List.{Memᴰ}
use campo_sig.Common.{
  ℕ, zero, suc, ◌<◌, ◌≡◌, refl, sym, ap, ◌∙◌, arith, String, true, not, Option, none, some, List,
  [], ◌∷◌, ◌++◌, append_assoc, All, All-intro, select, select-append, take, length,
}
use campo_sig.Common.Members.{mem-select_inv, mem-order_by_inv, mem-take_inv}
use campo_sig.Common.Sorted.{
  le, last, last-append, Page, take-Page, Sorted, select-All, select-behind,
}
use campo_sig.WorkOrders.Store.{WorkOrder, Device}
use campo_sig.Sync.Pull.{
  Shelf, Codec, PullPage, encode_cursor, decode_cursor, reaches, before, is_behind, delta, page_of,
  pull_work_orders,
}
use campo_sig.Sync.Alike.{Alike, alike, Alike-trans, record_delivery-Alike}
use campo_sig.WorkOrders.Own.{OwnRows}
use campo_sig.Sync.Delta.{
  IsCodec, decode_cursor-encode_cursor, before-IsStrict, due, due-Sorted, delta-due,
}

module _ (codec : Codec) (device : Device) (limit : ℕ) where
  -- What later pages add: none after a page without a cursor.
  abbrev joined :
      PullPage → Option (List WorkOrder × List WorkOrder) → Option (List WorkOrder × List WorkOrder)
  joined page later = elim page.next_cursor [
    | none ↦ some (page.orders, page.withdrawn)
    | some cursor ↦ elim later [
      | none ↦ none
      | some rest ↦ some (page.orders ++ rest.0, page.withdrawn ++ rest.1)
    ]
  ]

  -- Pulls, each with the cursor of the one before, until one has no cursor: `none` where that
  -- takes more than the given number of pulls.
  unfoldable pub pull_rounds : ℕ → Option String → Shelf → Option (List WorkOrder × List WorkOrder)
  unfolding pull_work_orders
  pull_rounds zero cursor shelf = none
  pull_rounds (suc n) cursor shelf =
      let pulled = pull_work_orders codec device cursor limit shelf in
      joined pulled.0 (pull_rounds n pulled.0.next_cursor pulled.1)

-- The orders that reach the device, and those to be let go.
abbrev pub parted : Device → Shelf → List WorkOrder → List WorkOrder × List WorkOrder
parted device shelf rows =
    (select (reaches device shelf.db) rows, select (λ o. not (reaches device shelf.db o)) rows)

All-true : (xs : List WorkOrder) → All (λ o. true ≡ true) xs
All-true xs = All-intro (λ o. true ≡ true) xs (λ o. refl)

delta-mem :
    (device : Device) (shelf : Shelf) (at : Option (ℕ × ℕ)) (limit : ℕ) (o : WorkOrder)
    → Memᴰ o (delta device shelf at limit)
    → Memᴰ o shelf.db.orders
unfolding delta
delta-mem device shelf at limit o m =
    (mem-select_inv _ shelf.db.orders o
      (mem-order_by_inv (le (before shelf)) _ o (mem-take_inv limit _ o m))).0

page_of-Alike :
    (codec : Codec) (device : Device) (shelf : Shelf) (rows : List WorkOrder)
    (end : Option WorkOrder)
    → OwnRows shelf.db.orders
    → ((o : WorkOrder) → Memᴰ o rows → Memᴰ o shelf.db.orders)
    → Alike device shelf (page_of codec device shelf rows end).1
unfolding page_of
page_of-Alike codec device shelf rows none own inside = alike device shelf
page_of-Alike codec device shelf rows (some end) own inside =
    record_delivery-Alike device (select (reaches device shelf.db) rows) shelf own
      (λ o m. let (n, h) = mem-select_inv (reaches device shelf.db) rows o m in (inside o n, h))

parted-Alike :
    (device : Device) (first shelf : Shelf) (rows : List WorkOrder)
    → Alike device first shelf
    → parted device shelf rows ≡ parted device first rows
unfolding reaches
parted-Alike device first shelf rows same = rw same.custody refl

module _ (codec : Codec) (good : IsCodec codec) (device : Device) (limit : ℕ) (first : Shelf)
    (own : OwnRows first.db.orders) where
  -- What is left to pull, and the cursor that stands before it.
  record Left (cursor : Option String) (shelf : Shelf) (rest : List WorkOrder) : Type 0 where
    same : Alike device first shelf
    front : List WorkOrder
    split : due device first ≡ front ++ rest
    behind : select (is_behind first (decode_cursor codec cursor)) (due device first) ≡ rest

  page_rows :
      (cursor : Option String) (shelf : Shelf) (rest : List WorkOrder) (n : ℕ)
      → Left cursor shelf rest
      → delta device shelf (decode_cursor codec cursor) n ≡ take n rest
  page_rows cursor shelf rest n left =
      delta-due device first shelf (decode_cursor codec cursor) n own left.same
      ∙ ap (take n) left.behind

  next-Left :
      (cursor : Option String) (shelf : Shelf) (rest : List WorkOrder)
      (page : Page (suc limit) rest)
      → Left cursor shelf rest
      → Left
          (some (encode_cursor codec (first.updated_at page.end.id) page.end.id))
          (pull_work_orders codec device cursor (suc limit) shelf).1
          page.rest
  unfolding pull_work_orders
  next-Left cursor shelf rest page left =
      let at = decode_cursor codec cursor in
      let rows = delta device shelf at (suc limit) in
      let split : due device first ≡ (left.front ++ page.front) ++ page.end ∷ page.rest =
        left.split
        ∙ (ap (λ xs. left.front ++ xs) page.split
            ∙ sym (append_assoc left.front page.front (page.end ∷ page.rest))) in
      let sorted : Sorted (before first) ((left.front ++ page.front) ++ page.end ∷ page.rest) =
        rw split at (due-Sorted device first own) in
      record {
        same = Alike-trans device first shelf _ left.same (
            page_of-Alike codec device shelf rows (last rows) (rw left.same.orders own)
              (delta-mem device shelf at (suc limit)));
        front = (left.front ++ page.front) ++ page.end ∷ [];
        split = split ∙ sym (append_assoc (left.front ++ page.front) (page.end ∷ []) page.rest);
        behind =
            rw
              (
                decode_cursor-encode_cursor codec (first.updated_at page.end.id) page.end.id good,
                split,
              )
              (select-behind (before first) (before-IsStrict first) (left.front ++ page.front)
                page.end page.rest sorted);
      }

  -- A page that ends with a row.
  full_page :
      (cursor : Option String) (shelf : Shelf) (front : List WorkOrder) (end : WorkOrder)
      → Alike device first shelf
      → delta device shelf (decode_cursor codec cursor) (suc limit) ≡ front ++ end ∷ []
      → (pull_work_orders codec device cursor (suc limit) shelf).0 ≡ record {
        orders = (parted device first (front ++ end ∷ [])).0;
        next_cursor = some (encode_cursor codec (first.updated_at end.id) end.id);
        withdrawn = (parted device first (front ++ end ∷ [])).1;
      }
  unfolding pull_work_orders page_of reaches
  full_page cursor shelf front end same e =
      rw (e, last-append front end, same.custody, same.times) refl

  empty_page :
      (cursor : Option String) (shelf : Shelf)
      → delta device shelf (decode_cursor codec cursor) (suc limit) ≡ []
      → (pull_work_orders codec device cursor (suc limit) shelf).0
        ≡ record { orders = []; next_cursor = none; withdrawn = [] }
  unfolding pull_work_orders page_of
  empty_page cursor shelf e = rw e refl

  parted-append :
      (xs ys : List WorkOrder)
      → (
        (parted device first xs).0 ++ (parted device first ys).0,
        (parted device first xs).1 ++ (parted device first ys).1,
      )
        ≡ parted device first (xs ++ ys)
  parted-append xs ys =
      rw
        (
          select-append (reaches device first.db) xs ys,
          select-append (λ o. not (reaches device first.db o)) xs ys,
        )
        refl

  rounds_step :
      (n : ℕ) (cursor : Option String) (shelf : Shelf) (page : PullPage)
      → (pull_work_orders codec device cursor (suc limit) shelf).0 ≡ page
      → pull_rounds codec device (suc limit) (suc n) cursor shelf
        ≡ joined codec device (suc limit) page (
            pull_rounds codec device
              (suc limit)
              n
              page.next_cursor
              (pull_work_orders codec device cursor (suc limit) shelf).1)
  unfolding pull_rounds
  rounds_step n cursor shelf page e =
      ap
        (λ (p : PullPage). joined codec device (suc limit) p (
          pull_rounds codec device (suc limit) n p.next_cursor
            (pull_work_orders codec device cursor (suc limit) shelf).1))
        e

  rounds-Left :
      (fuel : ℕ) (cursor : Option String) (shelf : Shelf) (rest : List WorkOrder)
      → Left cursor shelf rest
      → length rest < fuel
      → pull_rounds codec device (suc limit) fuel cursor shelf ≡ some (parted device first rest)
  unfolding select
  rounds-Left zero cursor shelf rest left h = absurd (omega arith)
  rounds-Left (suc n) cursor shelf [] left h =
      rounds_step n cursor shelf _
        (empty_page cursor shelf (page_rows cursor shelf [] (suc limit) left))
  rounds-Left (suc n) cursor shelf (x ∷ xs) left h =
      let page = take-Page limit x xs in
      let rows = page_rows cursor shelf (x ∷ xs) (suc limit) left ∙ page.page in
      let later =
        rounds-Left n (some (encode_cursor codec (first.updated_at page.end.id) page.end.id)) _
          page.rest (next-Left cursor shelf (x ∷ xs) page left) (omega (arith, page.shorter, h)) in
      let whole : (page.front ++ page.end ∷ []) ++ page.rest ≡ x ∷ xs =
        append_assoc page.front (page.end ∷ []) page.rest ∙ sym page.split in
      let step =
        rounds_step n cursor shelf _ (full_page cursor shelf page.front page.end left.same rows) in
      step
      ∙ (rw later (ap some (parted-append (page.front ++ page.end ∷ []) page.rest))
          ∙ ap (λ zs. some (parted device first zs)) whole)

  -- For orders with one row each, a page of one row at least and a codec that reads what it wrote: a
  -- phone that starts without a cursor and pulls with the cursor of the page before comes to an
  -- empty page within one pull more than it is due rows. The pages together hold each order that
  -- reaches the device and each that was delivered and reaches it no more, once, in the order of
  -- the cursor, whatever deliveries the pulls record.
  pub pull_rounds_whole :
      (fuel : ℕ)
      → length (due device first) < fuel
      → pull_rounds codec device (suc limit) fuel none first
        ≡ some (parted device first (due device first))
  unfolding decode_cursor
  pull_rounds_whole fuel h =
      rounds-Left fuel none first (due device first)
        record {
          same = alike device first;
          front = [];
          split = refl;
          behind = select-All (λ o. true) (due device first) (All-true (due device first));
        }
        h
