-- ===== src/Common/Rows.antt =====
-- A table of the database is the list of its rows in the order of their insertion. These are the
-- queries and the updates that the services make of it.
use Prim.Native.Nat.{ℕ, suc}
use mathlib.Core.Path.{◌≡◌, refl}
use mathlib.Core.Bool.{Bool, true, false, ◌||◌}
use mathlib.Core.List.{List, [], ◌∷◌, ◌++◌}
use mathlib.Core.Option.{Option, none, some}
use native.Mathlib.Omega.{arith}
use campo_sig.Common.Tests.{if◌then◌else◌}
use campo_sig.Common.Lists.{All}

module _ {ℓ} {A : Type ℓ} where
  -- `select(...).where(p)`
  unfoldable pub select : (A → Bool) → List A → List A
  select p [] = []
  select p (x ∷ xs) = let rest = select p xs in if p x then x ∷ rest else rest

  -- `select(...).where(p)` with `.first()`
  unfoldable pub first : (A → Bool) → List A → Option A
  first p [] = none
  first p (x ∷ xs) = if p x then some x else first p xs

  unfoldable pub exists : (A → Bool) → List A → Bool
  exists p [] = false
  exists p (x ∷ xs) = p x || exists p xs

  unfoldable pub count : (A → Bool) → List A → ℕ
  count p [] = 0
  count p (x ∷ xs) = if p x then suc (count p xs) else count p xs

  -- Stable insertion sort: `order_by` over a comparison.
  unfoldable pub insert_row : (A → A → Bool) → A → List A → List A
  insert_row le a [] = a ∷ []
  insert_row le a (x ∷ xs) = if le a x then a ∷ x ∷ xs else x ∷ insert_row le a xs

  unfoldable pub order_by : (A → A → Bool) → List A → List A
  unfolding insert_row
  order_by le [] = []
  order_by le (x ∷ xs) = insert_row le x (order_by le xs)

  pub select-append :
      (p : A → Bool) (xs ys : List A) → select p (xs ++ ys) ≡ select p xs ++ select p ys
  unfolding select
  select-append p [] ys = refl
  select-append p (x ∷ xs) ys = ground (arith, select-append p xs ys)

  pub first-none : (p : A → Bool) (xs : List A) → first p xs ≡ none → All (λ x. p x ≡ false) xs
  unfolding first
  first-none p [] h = tt
  first-none p (x ∷ xs) h = (ground arith, first-none p xs (ground arith))

  pub first-some : (p : A → Bool) (xs : List A) (a : A) → first p xs ≡ some a → p a ≡ true
  unfolding first
  first-some p [] a h = cc
  first-some p (x ∷ xs) a h = ground (arith, first-some p xs a)

  pub first-append :
      (p : A → Bool) (xs : List A) (a : A)
      → first p xs ≡ none
      → p a ≡ true
      → first p (xs ++ a ∷ []) ≡ some a
  unfolding first
  first-append p [] a h t = rw t refl
  first-append p (x ∷ xs) a h t = ground (arith, first-append p xs a)
