-- ===== src/WorkOrders/Own.antt =====
-- Orders with one row each, as the primary key of backend/app/workorders/models.py has them.
use mathlib.Core.List.{Memᴰ}
use campo_sig.Common.{
  Bool, ◌≡◌, ◌≢◌, sym, ap, ◌∙◌, List, [], ◌∷◌, All, Bool-cases, inl, inr, select,
}
use campo_sig.Common.Members.{mem-All}
use campo_sig.Common.Sorted.{All-select}
use campo_sig.WorkOrders.Store.{WorkOrder}

-- Orders have one row each.
abbrev pub OwnRows : List WorkOrder → Type 0
OwnRows [] = Unit
OwnRows (x ∷ xs) = All (λ (y : WorkOrder). x.id ≢ y.id) xs × OwnRows xs

pub OwnRows-keyed :
    (xs : List WorkOrder) (a b : WorkOrder)
    → OwnRows xs
    → Memᴰ a xs
    → Memᴰ b xs
    → a.id ≡ b.id
    → a ≡ b
OwnRows-keyed [] a b own m n h = elim m [ ]
OwnRows-keyed (x ∷ xs) a b own (Memᴰ.head e) (Memᴰ.head f) h = e ∙ sym f
OwnRows-keyed (x ∷ xs) a b own (Memᴰ.head e) (Memᴰ.tail n) h =
    absurd
      (mem-All (λ (y : WorkOrder). x.id ≢ y.id) xs b own.0 n (ap (λ y. WorkOrder.id y) (sym e) ∙ h))
OwnRows-keyed (x ∷ xs) a b own (Memᴰ.tail m) (Memᴰ.head f) h = absurd (
    mem-All (λ (y : WorkOrder). x.id ≢ y.id) xs a own.0 m
      (ap (λ y. WorkOrder.id y) (sym f) ∙ sym h))
OwnRows-keyed (x ∷ xs) a b own (Memᴰ.tail m) (Memᴰ.tail n) h = OwnRows-keyed xs a b own.1 m n h

pub OwnRows-select :
    (p : WorkOrder → Bool) (xs : List WorkOrder) → OwnRows xs → OwnRows (select p xs)
unfolding select
OwnRows-select p [] own = tt
OwnRows-select p (x ∷ xs) own = elim (Bool-cases (p x)) [
  | inl t ↦ rw t (All-select (λ (y : WorkOrder). x.id ≢ y.id) p xs own.0, OwnRows-select p xs own.1)
  | inr f ↦ rw f (OwnRows-select p xs own.1)
]
