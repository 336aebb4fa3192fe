-- ===== src/Common/Sorted.antt =====
-- Lists sorted by a strict order of their elements: what a query that orders its rows returns, and
-- its pages.
use Prim.Native.Nat.{ℕ, zero, suc, ◌<◌}
use mathlib.Core.Path.{◌≡◌, refl, ap, sym, ◌∙◌}
use mathlib.Core.Logic.{◌⊎◌, inl, inr}
use mathlib.Core.Bool.{Bool, true, false, not, ◌&&◌}
use mathlib.Core.List.{List, [], ◌∷◌, ◌++◌}
use mathlib.Core.Option.{Option, none, some}
use native.Mathlib.Omega.{arith}
use campo_sig.Common.Tests.{Bool-cases, if◌then◌else◌}
use campo_sig.Common.Lists.{All, All-map, take, length}
use campo_sig.Common.Rows.{select, insert_row, order_by}

module _ {ℓ} {A : Type ℓ} where
  pub select-ext :
      (p q : A → Bool) (xs : List A) → ((a : A) → p a ≡ q a) → select p xs ≡ select q xs
  unfolding select
  select-ext p q [] h = refl
  select-ext p q (x ∷ xs) h = rw (h x, select-ext p q xs h) refl

  pub select-both :
      (p q : A → Bool) (xs : List A) → select (λ x. p x && q x) xs ≡ select q (select p xs)
  unfolding select
  select-both p q [] = refl
  select-both p q (x ∷ xs) = ground (arith, select-both p q xs)

  pub select-All : (p : A → Bool) (xs : List A) → All (λ x. p x ≡ true) xs → select p xs ≡ xs
  unfolding select
  select-All p [] h = refl
  select-All p (x ∷ xs) h = rw (h.0, select-All p xs h.1) refl

  pub All-select {κ} :
      (P : A → Type κ) (p : A → Bool) (xs : List A) → All P xs → All P (select p xs)
  unfolding select
  All-select P p [] h = tt
  All-select P p (x ∷ xs) h = elim (Bool-cases (p x)) [
    | inl t ↦ rw t (h.0, All-select P p xs h.1)
    | inr f ↦ rw f (All-select P p xs h.1)
  ]

  All-insert_row {κ} :
      (P : A → Type κ) (le : A → A → Bool) (a : A) (xs : List A)
      → P a
      → All P xs
      → All P (insert_row le a xs)
  unfolding insert_row
  All-insert_row P le a [] h hs = (h, tt)
  All-insert_row P le a (x ∷ xs) h hs = elim (Bool-cases (le a x)) [
    | inl t ↦ rw t (h, hs)
    | inr f ↦ rw f (hs.0, All-insert_row P le a xs h hs.1)
  ]

  pub All-order_by {κ} :
      (P : A → Type κ) (le : A → A → Bool) (xs : List A) → All P xs → All P (order_by le xs)
  unfolding order_by
  All-order_by P le [] h = tt
  All-order_by P le (x ∷ xs) h =
      All-insert_row P le x (order_by le xs) h.0 (All-order_by P le xs h.1)

  All-at {κ} : (P : A → Type κ) (xs : List A) (x : A) (ys : List A) → All P (xs ++ x ∷ ys) → P x
  All-at P [] x ys h = h.0
  All-at P (a ∷ xs) x ys h = All-at P xs x ys h.1

  -- `rows[-1]`
  abbrev pub last : List A → Option A
  last [] = none
  last (x ∷ []) = some x
  last (x ∷ y ∷ xs) = last (y ∷ xs)

  pub last-append : (xs : List A) (x : A) → last (xs ++ x ∷ []) ≡ some x
  last-append [] x = refl
  last-append (y ∷ []) x = refl
  last-append (y ∷ z ∷ xs) x = last-append (z ∷ xs) x

  -- A page that is not empty ends with a row, where the rest begins.
  pub record Page (n : ℕ) (rows : List A) : Type ℓ where
    pub front : List A
    pub end : A
    pub rest : List A
    pub split : rows ≡ front ++ end ∷ rest
    pub page : take n rows ≡ front ++ end ∷ []
    pub shorter : length rest < length rows

  pub take-Page : (n : ℕ) (x : A) (xs : List A) → Page (suc n) (x ∷ xs)
  take-Page zero x xs = record {
    front = [];
    end = x;
    rest = xs;
    split = refl;
    page = refl;
    shorter = omega arith;
  }
  take-Page (suc n) x [] = record {
    front = [];
    end = x;
    rest = [];
    split = refl;
    page = refl;
    shorter = omega arith;
  }
  take-Page (suc n) x (y ∷ xs) =
      let inner = take-Page n y xs in
      record {
        front = x ∷ inner.front;
        end = inner.end;
        rest = inner.rest;
        split = ap (λ zs. x ∷ zs) inner.split;
        page = ap (λ zs. x ∷ zs) inner.page;
        shorter = omega (arith, inner.shorter);
      }

-- The laws of a strict order.
pub record IsStrict {ℓ} {A : Type ℓ} (before : A → A → Bool) : Type ℓ where
  pub trans : (a b c : A) → before a b ≡ true → before b c ≡ true → before a c ≡ true
  pub asym : (a b : A) → before a b ≡ true → before b a ≡ false

module _ {ℓ} {A : Type ℓ} (before : A → A → Bool) where
  abbrev pub le : A → A → Bool
  le a b = not (before b a)

  abbrev pub Sorted : List A → Type 0
  Sorted [] = Unit
  Sorted (x ∷ xs) = All (λ z. before x z ≡ true) xs × Sorted xs

  -- No two elements are the same to the order.
  abbrev pub Apart : List A → Type 0
  Apart [] = Unit
  Apart (x ∷ xs) = All (λ z. (before x z ≡ true) ⊎ (before z x ≡ true)) xs × Apart xs

  module _ (order : IsStrict before) where
    behind-All :
        (a b : A) (xs : List A)
        → before a b ≡ true
        → All (λ z. before b z ≡ true) xs
        → All (λ z. before a z ≡ true) xs
    behind-All a b xs h hs =
        All-map (λ z. before b z ≡ true) (λ z. before a z ≡ true) xs (λ z k. order.trans a b z h k)
          hs

    insert_row-Sorted :
        (a : A) (xs : List A)
        → Sorted xs
        → All (λ z. (before a z ≡ true) ⊎ (before z a ≡ true)) xs
        → Sorted (insert_row le a xs)
    unfolding insert_row
    insert_row-Sorted a [] h apart = (tt, tt)
    insert_row-Sorted a (x ∷ xs) h apart = elim apart.0 [
      | inl t ↦ let f = order.asym a x t in rw f ((t, behind-All a x xs t h.0), h)
      | inr t ↦ rw t (
        All-insert_row (λ z. before x z ≡ true) le a xs t h.0,
        insert_row-Sorted a xs h.1 apart.1,
      )
    ]

    pub order_by-Sorted : (xs : List A) → Apart xs → Sorted (order_by le xs)
    unfolding order_by
    order_by-Sorted [] h = tt
    order_by-Sorted (x ∷ xs) h =
        insert_row-Sorted x (order_by le xs) (order_by-Sorted xs h.1)
          (All-order_by (λ z. (before x z ≡ true) ⊎ (before z x ≡ true)) le xs h.0)

    insert_front :
        (a : A) (xs : List A) → All (λ z. before a z ≡ true) xs → insert_row le a xs ≡ a ∷ xs
    unfolding insert_row
    insert_front a [] h = refl
    insert_front a (x ∷ xs) h = rw (order.asym a x h.0) refl

    select-insert_row :
        (p : A → Bool) (a : A) (xs : List A)
        → Sorted xs
        → All (λ z. (before a z ≡ true) ⊎ (before z a ≡ true)) xs
        → select p (insert_row le a xs)
          ≡ (if p a then insert_row le a (select p xs) else select p xs)
    unfolding select insert_row
    select-insert_row p a [] h apart = ground arith
    select-insert_row p a (x ∷ xs) h apart = elim apart.0 [
      | inl t ↦
          let here : All (λ z. before a z ≡ true) (select p (x ∷ xs)) =
            All-select (λ z. before a z ≡ true) p (x ∷ xs) (t, behind-All a x xs t h.0) in
          rw (order.asym a x t) (elim (Bool-cases (p a)) [
            | inl k ↦ rw k (sym (insert_front a (select p (x ∷ xs)) here))
            | inr k ↦ rw k refl
          ])
      | inr t ↦
          let inner = select-insert_row p a xs h.1 apart.1 in
          elim (Bool-cases (p a)) [
            | inl k ↦ elim (Bool-cases (p x)) [
              | inl j ↦ rw (t, j, inner, k, t) refl
              | inr j ↦ rw (t, j, inner, k) refl
            ]
            | inr k ↦ elim (Bool-cases (p x)) [
              | inl j ↦ rw (t, j, inner, k) refl
              | inr j ↦ rw (t, j, inner, k) refl
            ]
          ]
    ]

    -- To sort what a query selects is to select from what is sorted.
    pub order_by-select :
        (p : A → Bool) (xs : List A)
        → Apart xs
        → order_by le (select p xs) ≡ select p (order_by le xs)
    unfolding order_by select
    order_by-select p [] h = refl
    order_by-select p (x ∷ xs) h =
        let inner = order_by-select p xs h.1 in
        let here =
          select-insert_row p x (order_by le xs) (order_by-Sorted xs h.1)
            (All-order_by (λ z. (before x z ≡ true) ⊎ (before z x ≡ true)) le xs h.0) in
        elim (Bool-cases (p x)) [
          | inl t ↦ rw (here, t, sym inner) refl
          | inr f ↦ rw (here, f) inner
        ]

    irreflexive : (a : A) → before a a ≡ false
    irreflexive a = elim (Bool-cases (before a a)) [ inl t ↦ order.asym a a t | inr f ↦ f ]

    Sorted-split :
        (xs : List A) (x : A) (ys : List A)
        → Sorted (xs ++ x ∷ ys)
        → All (λ z. before z x ≡ true) xs × All (λ z. before x z ≡ true) ys
    Sorted-split [] x ys h = (tt, h.0)
    Sorted-split (a ∷ xs) x ys h =
        let inner = Sorted-split xs x ys h.1 in
        ((All-at (λ z. before a z ≡ true) xs x ys h.0, inner.0), inner.1)

    -- What stands behind a row of a sorted list is what comes after it in the order.
    pub select-behind :
        (xs : List A) (x : A) (ys : List A)
        → Sorted (xs ++ x ∷ ys)
        → select (before x) (xs ++ x ∷ ys) ≡ ys
    unfolding select
    select-behind [] x ys h = rw (irreflexive x) (select-All (before x) ys h.0)
    select-behind (a ∷ xs) x ys h =
        let split = Sorted-split (a ∷ xs) x ys h in
        rw (order.asym a x split.0.0) (select-behind xs x ys h.1)

    -- A sorted list stays as it is.
    pub order_by_self : (xs : List A) → Sorted xs → order_by le xs ≡ xs
    unfolding order_by
    order_by_self [] h = refl
    order_by_self (x ∷ xs) h = ap (insert_row le x) (order_by_self xs h.1) ∙ insert_front x xs h.0
