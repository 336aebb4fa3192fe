-- ===== src/Common/Members.antt =====
-- The rows that a table holds, and what the queries and updates keep of them.
use native.Mathlib.Omega.{arith}
use Prim.Native.Nat.{ℕ, zero, suc}
use campo_sig.Common.Lists.{take, All}
use mathlib.Core.List.{Memᴰ}
use campo_sig.Common.Tests.{Bool-cases}
use campo_sig.Common.Rows.{select, exists, first, insert_row, order_by}
use mathlib.Core.Path.{◌≡◌, refl, ap}
use mathlib.Core.Logic.{◌≢◌, ◌⊎◌, inl, inr}
use mathlib.Core.Bool.{Bool, true, false}
use mathlib.Core.Option.{none, some}
use mathlib.Core.List.{List, [], ◌∷◌, ◌++◌, map}

module _ {ℓ} {A : Type ℓ} where
  pub mem-select :
      (p : A → Bool) (xs : List A) (a : A) → Memᴰ a xs → p a ≡ true → Memᴰ a (select p xs)
  unfolding select
  mem-select p [] a m h = elim m [ ]
  mem-select p (x ∷ xs) a (Memᴰ.head e) h = elim (Bool-cases (p x)) [
    | inl t ↦ rw t (Memᴰ.head e)
    | inr f ↦ cc
  ]
  mem-select p (x ∷ xs) a (Memᴰ.tail m) h = elim (Bool-cases (p x)) [
    | inl t ↦ rw t (Memᴰ.tail (mem-select p xs a m h))
    | inr f ↦ rw f (mem-select p xs a m h)
  ]

  mem-insert_head : (le : A → A → Bool) (a : A) (xs : List A) → Memᴰ a (insert_row le a xs)
  unfolding insert_row
  mem-insert_head le a [] = Memᴰ.head refl
  mem-insert_head le a (x ∷ xs) = elim (Bool-cases (le a x)) [
    | inl t ↦ rw t (Memᴰ.head refl)
    | inr f ↦ rw f (Memᴰ.tail (mem-insert_head le a xs))
  ]

  mem-insert_tail :
      (le : A → A → Bool) (b a : A) (xs : List A) → Memᴰ a xs → Memᴰ a (insert_row le b xs)
  unfolding insert_row
  mem-insert_tail le b a [] m = elim m [ ]
  mem-insert_tail le b a (x ∷ xs) (Memᴰ.head e) = elim (Bool-cases (le b x)) [
    | inl t ↦ rw t (Memᴰ.tail (Memᴰ.head e))
    | inr f ↦ rw f (Memᴰ.head e)
  ]
  mem-insert_tail le b a (x ∷ xs) (Memᴰ.tail m) = elim (Bool-cases (le b x)) [
    | inl t ↦ rw t (Memᴰ.tail (Memᴰ.tail m))
    | inr f ↦ rw f (Memᴰ.tail (mem-insert_tail le b a xs m))
  ]

  pub mem-order_by : (le : A → A → Bool) (xs : List A) (a : A) → Memᴰ a xs → Memᴰ a (order_by le xs)
  unfolding order_by
  mem-order_by le [] a m = elim m [ ]
  mem-order_by le (x ∷ xs) a (Memᴰ.head e) = rw e (mem-insert_head le x (order_by le xs))
  mem-order_by le (x ∷ xs) a (Memᴰ.tail m) =
      mem-insert_tail le x a (order_by le xs) (mem-order_by le xs a m)

  not-mem-nil : (a : A) → Memᴰ a [] → ⊥
  not-mem-nil a n = elim n [ ]

  -- A query that returns nothing: no row meets its condition.
  pub not-mem-select :
      (p : A → Bool) (le : A → A → Bool) (q : A → Bool) (xs : List A) (a : A)
      → select q (order_by le (select p xs)) ≡ []
      → Memᴰ a xs
      → p a ≡ true
      → q a ≡ false
  not-mem-select p le q xs a none_left m h = elim (Bool-cases (q a)) [
    | inr f ↦ f
    | inl t ↦
        let found = mem-select q _ a (mem-order_by le _ a (mem-select p xs a m h)) t in
        absurd (not-mem-nil a (rw none_left at found))
  ]

  pub not-mem-order_by :
      (p : A → Bool) (le : A → A → Bool) (xs : List A) (a : A)
      → order_by le (select p xs) ≡ []
      → Memᴰ a xs
      → p a ≢ true
  not-mem-order_by p le xs a none_left m h =
      not-mem-nil a (rw none_left at (mem-order_by le _ a (mem-select p xs a m h)))

  pub mem-All {κ} : (P : A → Type κ) (xs : List A) (a : A) → All P xs → Memᴰ a xs → P a
  mem-All P [] a h m = elim m [ ]
  mem-All P (x ∷ xs) a h (Memᴰ.head e) = rw e h.0
  mem-All P (x ∷ xs) a h (Memᴰ.tail m) = mem-All P xs a h.1 m

  pub mem-append_left : (xs ys : List A) (a : A) → Memᴰ a xs → Memᴰ a (xs ++ ys)
  mem-append_left [] ys a m = elim m [ ]
  mem-append_left (x ∷ xs) ys a (Memᴰ.head e) = Memᴰ.head e
  mem-append_left (x ∷ xs) ys a (Memᴰ.tail m) = Memᴰ.tail (mem-append_left xs ys a m)

  pub mem-append_right : (xs ys : List A) (a : A) → Memᴰ a ys → Memᴰ a (xs ++ ys)
  mem-append_right [] ys a m = m
  mem-append_right (x ∷ xs) ys a m = Memᴰ.tail (mem-append_right xs ys a m)

  pub mem-append_inv : (xs ys : List A) (a : A) → Memᴰ a (xs ++ ys) → Memᴰ a xs ⊎ Memᴰ a ys
  mem-append_inv [] ys a m = inr m
  mem-append_inv (x ∷ xs) ys a (Memᴰ.head e) = inl (Memᴰ.head e)
  mem-append_inv (x ∷ xs) ys a (Memᴰ.tail m) = elim (mem-append_inv xs ys a m) [
    | inl n ↦ inl (Memᴰ.tail n)
    | inr n ↦ inr n
  ]

  pub mem_one : (x a : A) → Memᴰ a (x ∷ []) → a ≡ x
  mem_one x a (Memᴰ.head e) = e
  mem_one x a (Memᴰ.tail m) = elim m [ ]

  pub first-mem : (p : A → Bool) (xs : List A) (a : A) → first p xs ≡ some a → Memᴰ a xs
  unfolding first
  first-mem p [] a h = cc
  first-mem p (x ∷ xs) a h = elim (Bool-cases (p x)) [
    | inl t ↦ let e : some x ≡ some a = rw t at h in Memᴰ.head (cc)
    | inr f ↦ Memᴰ.tail (first-mem p xs a (rw f at h))
  ]

  pub first-none-mem :
      (p : A → Bool) (xs : List A) (a : A) → first p xs ≡ none → Memᴰ a xs → p a ≡ false
  unfolding first
  first-none-mem p [] a h m = elim m [ ]
  first-none-mem p (x ∷ xs) a h (Memᴰ.head e) = rw e (ground arith)
  first-none-mem p (x ∷ xs) a h (Memᴰ.tail m) = first-none-mem p xs a (ground arith) m

  pub exists-mem :
      (p : A → Bool) (xs : List A) → exists p xs ≡ true → (a : A) × Memᴰ a xs × (p a ≡ true)
  unfolding exists
  exists-mem p [] h = cc
  exists-mem p (x ∷ xs) h = elim (Bool-cases (p x)) [
    | inl t ↦ (x, Memᴰ.head refl, t)
    | inr f ↦ let (a, n, k) = exists-mem p xs (rw f at h) in (a, Memᴰ.tail n, k)
  ]

  pub exists-none-mem :
      (p : A → Bool) (xs : List A) (a : A) → exists p xs ≡ false → Memᴰ a xs → p a ≡ false
  unfolding exists
  exists-none-mem p [] a h m = elim m [ ]
  exists-none-mem p (x ∷ xs) a h (Memᴰ.head e) = rw e (ground arith)
  exists-none-mem p (x ∷ xs) a h (Memᴰ.tail m) = exists-none-mem p xs a (ground arith) m

  mem-select_head :
      (p : A → Bool) (x : A) (rest xs : List A) (a : A)
      → Memᴰ a (x ∷ rest)
      → p x ≡ true
      → (Memᴰ a rest → Memᴰ a xs × (p a ≡ true))
      → Memᴰ a (x ∷ xs) × (p a ≡ true)
  mem-select_head p x rest xs a (Memᴰ.head e) t inner = (Memᴰ.head e, rw e t)
  mem-select_head p x rest xs a (Memᴰ.tail m) t inner = let (n, h) = inner m in (Memᴰ.tail n, h)

  pub mem-select_inv :
      (p : A → Bool) (xs : List A) (a : A) → Memᴰ a (select p xs) → Memᴰ a xs × (p a ≡ true)
  unfolding select
  mem-select_inv p [] a m = elim m [ ]
  mem-select_inv p (x ∷ xs) a m = elim (Bool-cases (p x)) [
    | inr f ↦ let (n, h) = mem-select_inv p xs a (rw f at m) in (Memᴰ.tail n, h)
    | inl t ↦ mem-select_head p x (select p xs) xs a (rw t at m) t (mem-select_inv p xs a)
  ]

  deeper :
      (b x a : A) (xs ys : List A)
      → Memᴰ a (x ∷ ys)
      → (Memᴰ a ys → Memᴰ a (b ∷ xs))
      → Memᴰ a (b ∷ x ∷ xs)
  deeper b x a xs ys (Memᴰ.head e) inner = Memᴰ.tail (Memᴰ.head e)
  deeper b x a xs ys (Memᴰ.tail m) inner = elim (inner m) [
    | Memᴰ.head e ↦ Memᴰ.head e
    | Memᴰ.tail n ↦ Memᴰ.tail (Memᴰ.tail n)
  ]

  mem-insert_row_inv :
      (le : A → A → Bool) (b a : A) (xs : List A) → Memᴰ a (insert_row le b xs) → Memᴰ a (b ∷ xs)
  unfolding insert_row
  mem-insert_row_inv le b a [] m = m
  mem-insert_row_inv le b a (x ∷ xs) m = elim (Bool-cases (le b x)) [
    | inl t ↦ rw t at m
    | inr f ↦ deeper b x a xs (insert_row le b xs) (rw f at m) (mem-insert_row_inv le b a xs)
  ]

  pub mem-order_by_inv :
      (le : A → A → Bool) (xs : List A) (a : A) → Memᴰ a (order_by le xs) → Memᴰ a xs
  unfolding order_by
  mem-order_by_inv le [] a m = m
  mem-order_by_inv le (x ∷ xs) a m = elim (mem-insert_row_inv le x a (order_by le xs) m) [
    | Memᴰ.head e ↦ Memᴰ.head e
    | Memᴰ.tail n ↦ Memᴰ.tail (mem-order_by_inv le xs a n)
  ]

  pub mem-take_inv : (n : ℕ) (xs : List A) (a : A) → Memᴰ a (take n xs) → Memᴰ a xs
  mem-take_inv zero xs a m = elim m [ ]
  mem-take_inv (suc n) [] a m = m
  mem-take_inv (suc n) (x ∷ xs) a (Memᴰ.head e) = Memᴰ.head e
  mem-take_inv (suc n) (x ∷ xs) a (Memᴰ.tail m) = Memᴰ.tail (mem-take_inv n xs a m)

module _ {ℓ κ} {A : Type ℓ} {B : Type κ} where
  pub mem-map_inv :
      (f : A → B) (xs : List A) (b : B) → Memᴰ b (map f xs) → (a : A) × Memᴰ a xs × (b ≡ f a)
  mem-map_inv f [] b m = elim m [ ]
  mem-map_inv f (x ∷ xs) b (Memᴰ.head e) = (x, Memᴰ.head refl, e)
  mem-map_inv f (x ∷ xs) b (Memᴰ.tail m) =
      let (a, n, e) = mem-map_inv f xs b m in (a, Memᴰ.tail n, e)

  pub mem-map : (f : A → B) (xs : List A) (a : A) → Memᴰ a xs → Memᴰ (f a) (map f xs)
  mem-map f [] a m = elim m [ ]
  mem-map f (x ∷ xs) a (Memᴰ.head e) = Memᴰ.head (ap f e)
  mem-map f (x ∷ xs) a (Memᴰ.tail m) = Memᴰ.tail (mem-map f xs a m)

  pub map-eq-nil : (f : A → B) (xs : List A) → map f xs ≡ [] → xs ≡ []
  map-eq-nil f [] h = refl
  map-eq-nil f (x ∷ xs) h = cc
