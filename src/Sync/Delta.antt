-- ===== src/Sync/Delta.antt =====
-- The query of `pull_work_orders` of backend/app/sync/service.py: the rows behind the cursor, in its
-- order.
use mathlib.Core.List.{Memᴰ}
use campo_sig.Common.{
  ℕ, ◌≡◌, ◌≢◌, refl, ap, ◌∙◌, arith, Bool, true, ◌&&◌, ◌⊎◌, inl, inr, Option, some, List, [], ◌∷◌,
  All, All-map, Bool-cases, str_eq, eq_iff, select, order_by, take,
}
use campo_sig.Common.Sorted.{
  le, IsStrict, Sorted, Apart, select-both, All-select, order_by-Sorted, order_by-select,
}
use campo_sig.WorkOrders.Store.{WorkOrder, Device}
use campo_sig.Sync.Pull.{
  Shelf, Codec, encode_cursor, decode_cursor, concerns, before, is_behind, delta,
}
use campo_sig.Sync.Alike.{Alike}
use campo_sig.WorkOrders.Own.{OwnRows}

-- What the codec is relied on for: a cursor is not empty and reads back as it was written.
pub record IsCodec (codec : Codec) : Type 0 where
  pub reads : (at : ℕ × ℕ) → codec.read (codec.write at) ≡ some at
  pub written : (at : ℕ × ℕ) → codec.write at ≢ ""

-- A cursor that a pull returns is decoded, at the next pull, to the position that it was made of.
pub decode_cursor-encode_cursor :
    (codec : Codec) (updated_at last_id : ℕ)
    → IsCodec codec
    → decode_cursor codec (some (encode_cursor codec updated_at last_id))
      ≡ some (updated_at, last_id)
unfolding decode_cursor encode_cursor
decode_cursor-encode_cursor codec updated_at last_id good =
    elim (Bool-cases (str_eq (codec.write (updated_at, last_id)) "")) [
      | inl t ↦
          absurd (
            good.written (updated_at, last_id)
              ((eq_iff (codec.write (updated_at, last_id)) "").0 t))
      | inr f ↦ rw f (good.reads (updated_at, last_id))
    ]

pub before-IsStrict : (shelf : Shelf) → IsStrict (before shelf)
before-IsStrict shelf = record { trans = λ a b c h k. ground arith; asym = λ a b h. ground arith }

apart_one :
    (shelf : Shelf) (x : WorkOrder) (xs : List WorkOrder)
    → All (λ (y : WorkOrder). x.id ≢ y.id) xs
    → All (λ y. (before shelf x y ≡ true) ⊎ (before shelf y x ≡ true)) xs
apart_one shelf x xs h =
    All-map (λ (y : WorkOrder). x.id ≢ y.id)
      (λ y. (before shelf x y ≡ true) ⊎ (before shelf y x ≡ true)) xs (λ y other. ground arith) h

OwnRows-Apart : (shelf : Shelf) (xs : List WorkOrder) → OwnRows xs → Apart (before shelf) xs
OwnRows-Apart shelf [] own = tt
OwnRows-Apart shelf (x ∷ xs) own = (apart_one shelf x xs own.0, OwnRows-Apart shelf xs own.1)

Apart-select :
    (shelf : Shelf) (p : WorkOrder → Bool) (xs : List WorkOrder)
    → Apart (before shelf) xs
    → Apart (before shelf) (select p xs)
unfolding select
Apart-select shelf p [] h = tt
Apart-select shelf p (x ∷ xs) h = elim (Bool-cases (p x)) [
  | inl t ↦ rw t (
    All-select (λ y. (before shelf x y ≡ true) ⊎ (before shelf y x ≡ true)) p xs h.0,
    Apart-select shelf p xs h.1,
  )
  | inr f ↦ rw f (Apart-select shelf p xs h.1)
]

-- All that a device is due, in the order of the cursor.
abbrev pub due : Device → Shelf → List WorkOrder
due device shelf = order_by (le (before shelf)) (select (concerns device shelf) shelf.db.orders)

pub due-Sorted :
    (device : Device) (shelf : Shelf)
    → OwnRows shelf.db.orders
    → Sorted (before shelf) (due device shelf)
due-Sorted device shelf own = order_by-Sorted (before shelf) (before-IsStrict shelf) _ (
    Apart-select shelf (concerns device shelf) shelf.db.orders
      (OwnRows-Apart shelf shelf.db.orders own))

select_same :
    (p q : WorkOrder → Bool) (xs : List WorkOrder)
    → ((o : WorkOrder) → Memᴰ o xs → p o ≡ q o)
    → select p xs ≡ select q xs
unfolding select
select_same p q [] h = refl
select_same p q (x ∷ xs) h =
    rw (h x (Memᴰ.head refl), select_same p q xs (λ o m. h o (Memᴰ.tail m))) refl

-- The page of a session that is like the first one: the rows of the first behind the cursor.
pub delta-due :
    (device : Device) (first shelf : Shelf) (at : Option (ℕ × ℕ)) (limit : ℕ)
    → OwnRows first.db.orders
    → Alike device first shelf
    → delta device shelf at limit ≡ take limit (select (is_behind first at) (due device first))
unfolding delta
delta-due device first shelf at limit own same =
    let p : WorkOrder → Bool = λ o. concerns device first o && is_behind first at o in
    let e : select (λ o. concerns device shelf o && is_behind first at o) first.db.orders
        ≡ select p first.db.orders =
      select_same _ p first.db.orders (λ o m. rw (same.same o m) refl) in
    let f : order_by (le (before first)) (select p first.db.orders)
        ≡ select (is_behind first at) (due device first) =
      ap (order_by (le (before first)))
        (select-both (concerns device first) (is_behind first at) first.db.orders)
      ∙ order_by-select (before first) (before-IsStrict first) (is_behind first at)
          (select (concerns device first) first.db.orders)
          (Apart-select first (concerns device first) first.db.orders
            (OwnRows-Apart first first.db.orders own)) in
    rw (same.orders, same.times)
      (ap (λ xs. take limit (order_by (le (before first)) xs)) e ∙ ap (take limit) f)
