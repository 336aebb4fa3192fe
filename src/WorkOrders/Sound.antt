-- ===== src/WorkOrders/Sound.antt =====
-- What the table of the work orders keeps through every service of workorders/: identifiers are
-- unique, fronts are one level deep, and a settled work has no open front.
pub mod Steps
pub mod Linked
pub mod Reach
pub mod Answers
pub mod Each
pub mod Placed
pub mod Loop
pub mod Many
use mathlib.Core.List.{Memᴰ}
use campo_sig.Common.{
  ℕ, suc, ◌+◌, ◌<◌, ◌≤◌, ◌≡◌, ◌≢◌, refl, sym, ap, ◌∙◌, ◌⊎◌, inl, inr, Bool, true, false, Option,
  none, some, List, [], ◌∷◌, ◌++◌, map, arith, Bool-cases, ◌==◌, ==_iff,
}
use campo_sig.Common.Members.{mem-map_inv, mem-append_inv, mem_one}
use campo_sig.WorkOrders.Store.{WorkOrder, replace_order}
use campo_sig.WorkOrders.Fronts.{is_open}

pub record IsSound (orders : List WorkOrder) (next_id : ℕ) : Type 0 where
  pub keyed : (p q : WorkOrder) → Memᴰ p orders → Memᴰ q orders → p.id ≡ q.id → p ≡ q
  pub fresh : (p : WorkOrder) → Memᴰ p orders → p.id < next_id
  -- A front has no fronts.
  pub flat :
      (p c : WorkOrder)
      → Memᴰ p orders
      → Memᴰ c orders
      → c.parent_id ≡ some p.id
      → p.parent_id ≡ none
  -- A closed or cancelled work has closed or cancelled fronts only.
  pub settled :
      (p c : WorkOrder)
      → Memᴰ p orders
      → Memᴰ c orders
      → c.parent_id ≡ some p.id
      → is_open p.state ≡ false
      → is_open c.state ≡ false
  -- The work that a front belongs to has an identifier that was given out.
  pub known : (c : WorkOrder) (n : ℕ) → Memᴰ c orders → c.parent_id ≡ some n → n < next_id

-- A row after the flush of `new`: `new` itself, or another row as it was.
replaced :
    (new old : WorkOrder)
    → (old.id ≡ new.id) × (replace_order new old ≡ new)
      ⊎ (old.id ≢ new.id) × (replace_order new old ≡ old)
replaced new old = elim (Bool-cases (old.id == new.id)) [
  | inl same ↦ inl ((==_iff old.id new.id).0 same, rw same refl)
  | inr other ↦ inr (ground arith, rw other refl)
]

-- Writing `new` for the row `old` keeps the table sound, where `new` keeps the identifier and fits
-- what it says of its fronts and of its work.
module _ {orders : List WorkOrder} {next_id : ℕ} (sound : IsSound orders next_id)
    (old new : WorkOrder) (stored : Memᴰ old orders) (same_id : new.id ≡ old.id)
    (fronts : (c : WorkOrder)
      → Memᴰ c orders
      → c.parent_id ≡ some old.id
      → (new.parent_id ≡ none) × (is_open new.state ≡ false → is_open c.state ≡ false))
    (work : (p : WorkOrder)
      → Memᴰ p orders
      → new.parent_id ≡ some p.id
      → (p.id ≢ old.id)
        × (p.parent_id ≡ none)
        × (is_open p.state ≡ false → is_open new.state ≡ false))
    (given : (n : ℕ) → new.parent_id ≡ some n → n < next_id) where
  row :
      (x : WorkOrder)
      → Memᴰ x (map (replace_order new) orders)
      → (x ≡ new) ⊎ Memᴰ x orders × (x.id ≢ old.id)
  row x m =
      let (y, n, e) = mem-map_inv (replace_order new) orders x m in
      elim (replaced new y) [
        | inl (same, f) ↦ inl (e ∙ f)
        | inr (other, f) ↦ inr (rw (e ∙ f) n, rw (e ∙ f) (λ h. other (h ∙ sym same_id)))
      ]

  put_keyed :
      (p q : WorkOrder)
      → (p ≡ new) ⊎ Memᴰ p orders × (p.id ≢ old.id)
      → (q ≡ new) ⊎ Memᴰ q orders × (q.id ≢ old.id)
      → p.id ≡ q.id
      → p ≡ q
  put_keyed p q (inl e) (inl f) h = e ∙ sym f
  put_keyed p q (inl e) (inr (n, other)) h =
      absurd (other (sym h ∙ (ap (λ (r : WorkOrder). r.id) e ∙ same_id)))
  put_keyed p q (inr (m, other)) (inl f) h =
      absurd (other (h ∙ (ap (λ (r : WorkOrder). r.id) f ∙ same_id)))
  put_keyed p q (inr (m, _)) (inr (n, _)) h = sound.keyed p q m n h

  put_flat :
      (p c : WorkOrder)
      → (p ≡ new) ⊎ Memᴰ p orders × (p.id ≢ old.id)
      → (c ≡ new) ⊎ Memᴰ c orders × (c.id ≢ old.id)
      → c.parent_id ≡ some p.id
      → (p.parent_id ≡ none) × (is_open p.state ≡ false → is_open c.state ≡ false)
  put_flat p c (inl e) (inl f) h =
      rw (e, f)
        (absurd (
          (work old stored (
              sym (ap (λ (r : WorkOrder). r.parent_id) f)
              ∙ (h ∙ ap some (ap (λ (r : WorkOrder). r.id) e ∙ same_id)))).0
            refl))
  put_flat p c (inl e) (inr (n, other)) h =
      let facts = fronts c n (h ∙ ap some (ap (λ (r : WorkOrder). r.id) e ∙ same_id)) in rw e facts
  put_flat p c (inr (m, other)) (inl f) h =
      let facts = work p m (sym (ap (λ (r : WorkOrder). r.parent_id) f) ∙ h) in
      (facts.1, λ closed. rw f (facts.2 closed))
  put_flat p c (inr (m, _)) (inr (n, _)) h = (sound.flat p c m n h, sound.settled p c m n h)

  pub put-IsSound : IsSound (map (replace_order new) orders) next_id
  put-IsSound = record {
    keyed = λ p q m n. put_keyed p q (row p m) (row q n);
    fresh = λ p m. elim (row p m) [
      | inl e ↦ rw (e, same_id) (sound.fresh old stored)
      | inr (n, _) ↦ sound.fresh p n
    ];
    flat = λ p c m n h. (put_flat p c (row p m) (row c n) h).0;
    settled = λ p c m n h. (put_flat p c (row p m) (row c n) h).1;
    known = λ c k n h. elim (row c n) [
      | inl e ↦ given k (sym (ap (λ (r : WorkOrder). r.parent_id) e) ∙ h)
      | inr (m, _) ↦ sound.known c k m h
    ];
  }

-- A new row without a work and with the next identifier keeps the table sound.
module _ {orders : List WorkOrder} {next_id : ℕ} (sound : IsSound orders next_id) (new : WorkOrder)
    (numbered : new.id ≡ next_id) (apart : new.parent_id ≡ none) where
  added : (x : WorkOrder) → Memᴰ x (orders ++ new ∷ []) → Memᴰ x orders ⊎ (x ≡ new)
  added x m = elim (mem-append_inv orders (new ∷ []) x m) [
    | inl n ↦ inl n
    | inr n ↦ inr (mem_one new x n)
  ]

  add_keyed :
      (p q : WorkOrder)
      → Memᴰ p orders ⊎ (p ≡ new)
      → Memᴰ q orders ⊎ (q ≡ new)
      → p.id ≡ q.id
      → p ≡ q
  add_keyed p q (inl m) (inl n) h = sound.keyed p q m n h
  add_keyed p q (inl m) (inr f) h =
      absurd (omega (arith, sound.fresh p m, h, ap (λ (r : WorkOrder). r.id) f, numbered))
  add_keyed p q (inr e) (inl n) h =
      absurd (omega (arith, sound.fresh q n, h, ap (λ (r : WorkOrder). r.id) e, numbered))
  add_keyed p q (inr e) (inr f) h = e ∙ sym f

  add_family :
      (p c : WorkOrder)
      → Memᴰ p orders ⊎ (p ≡ new)
      → Memᴰ c orders ⊎ (c ≡ new)
      → c.parent_id ≡ some p.id
      → Memᴰ p orders × Memᴰ c orders
  add_family p c (inl m) (inl n) h = (m, n)
  add_family p c (inr e) (inl n) h =
      absurd (omega (arith, sound.known c p.id n h, ap (λ (r : WorkOrder). r.id) e, numbered))
  add_family p c _ (inr f) h = cc (apart, ap (λ (r : WorkOrder). r.parent_id) f, h)

  pub add-IsSound : IsSound (orders ++ new ∷ []) (suc next_id)
  add-IsSound = record {
    keyed = λ p q m n. add_keyed p q (added p m) (added q n);
    fresh = λ p m. elim (added p m) [
      | inl n ↦ omega (arith, sound.fresh p n)
      | inr e ↦ rw (e, numbered) (omega arith)
    ];
    flat = λ p c m n h.
        let (m', n') = add_family p c (added p m) (added c n) h in sound.flat p c m' n' h;
    settled = λ p c m n h.
        let (m', n') = add_family p c (added p m) (added c n) h in sound.settled p c m' n' h;
    known = λ c k n h. elim (added c n) [
      | inl n' ↦ omega (arith, sound.known c k n' h)
      | inr f ↦ cc (apart, ap (λ (r : WorkOrder). r.parent_id) f, h)
    ];
  }

-- Identifiers may be given out to rows of other tables.
pub weaken-IsSound :
    {orders : List WorkOrder} {n : ℕ} (m : ℕ) → n ≤ m → IsSound orders n → IsSound orders m
weaken-IsSound m le s = record {
  keyed = s.keyed;
  fresh = λ p h. omega (arith, s.fresh p h);
  flat = s.flat;
  settled = s.settled;
  known = λ c k h e. omega (arith, s.known c k h e);
}
