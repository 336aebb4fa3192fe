-- ===== src/WorkOrders/Custody/Chain.antt =====
-- The table of the custodies: one open row for an order at most, kept through every write that
-- `assign` of workorders/service.py makes, and no row ever lost.
use mathlib.Core.List.{Memᴰ}
use campo_sig.Common.{
  ℕ, suc, ◌<◌, ◌≡◌, ◌≢◌, refl, sym, ap, ◌∙◌, ◌⊎◌, inl, inr, none, List, [], ◌∷◌, ◌++◌, map, arith,
  Bool-cases, ◌==◌, ==_iff,
}
use campo_sig.Common.Members.{mem-map_inv, mem-append_inv, mem_one}
use campo_sig.WorkOrders.Store.{DeviceCustody}
use campo_sig.WorkOrders.Custody.{replace_custody}

pub record IsCustody (rows : List DeviceCustody) (next_id : ℕ) : Type 0 where
  pub keyed : (p q : DeviceCustody) → Memᴰ p rows → Memᴰ q rows → p.id ≡ q.id → p ≡ q
  pub fresh : (p : DeviceCustody) → Memᴰ p rows → p.id < next_id
  pub single :
      (p q : DeviceCustody)
      → Memᴰ p rows
      → Memᴰ q rows
      → p.work_order_id ≡ q.work_order_id
      → p.until ≡ none
      → q.until ≡ none
      → p ≡ q

pub replaced :
    (new old : DeviceCustody)
    → (old.id ≡ new.id) × (replace_custody new old ≡ new)
      ⊎ (old.id ≢ new.id) × (replace_custody new old ≡ old)
replaced new old = elim (Bool-cases (old.id == new.id)) [
  | inl same ↦ inl ((==_iff old.id new.id).0 same, rw same refl)
  | inr other ↦ inr (ground arith, rw other refl)
]

-- Writing `new` for the row `old`, where it keeps the identifier and the order and does not open
-- the row again.
module _ {rows : List DeviceCustody} {next_id : ℕ} (chain : IsCustody rows next_id)
    (old new : DeviceCustody) (stored : Memᴰ old rows) (same_id : new.id ≡ old.id)
    (same_order : new.work_order_id ≡ old.work_order_id)
    (closing : new.until ≡ none → old.until ≡ none) where
  pub custody_row :
      (x : DeviceCustody)
      → Memᴰ x (map (replace_custody new) rows)
      → (x ≡ new) ⊎ Memᴰ x rows × (x.id ≢ old.id)
  custody_row x m =
      let (y, n, e) = mem-map_inv (replace_custody new) rows x m in
      elim (replaced new y) [
        | inl (same, f) ↦ inl (e ∙ f)
        | inr (other, f) ↦ inr (rw (e ∙ f) n, rw (e ∙ f) (λ h. other (h ∙ sym same_id)))
      ]

  put_keyed :
      (p q : DeviceCustody)
      → (p ≡ new) ⊎ Memᴰ p rows × (p.id ≢ old.id)
      → (q ≡ new) ⊎ Memᴰ q rows × (q.id ≢ old.id)
      → p.id ≡ q.id
      → p ≡ q
  put_keyed p q (inl e) (inl f) h = e ∙ sym f
  put_keyed p q (inl e) (inr (n, other)) h =
      absurd (other (sym h ∙ (ap (λ (r : DeviceCustody). r.id) e ∙ same_id)))
  put_keyed p q (inr (m, other)) (inl f) h =
      absurd (other (h ∙ (ap (λ (r : DeviceCustody). r.id) f ∙ same_id)))
  put_keyed p q (inr (m, _)) (inr (n, _)) h = chain.keyed p q m n h

  put_single :
      (p q : DeviceCustody)
      → (p ≡ new) ⊎ Memᴰ p rows × (p.id ≢ old.id)
      → (q ≡ new) ⊎ Memᴰ q rows × (q.id ≢ old.id)
      → p.work_order_id ≡ q.work_order_id
      → p.until ≡ none
      → q.until ≡ none
      → p ≡ q
  put_single p q (inl e) (inl f) h u v = e ∙ sym f
  put_single p q (inl e) (inr (n, other)) h u v =
      let same =
        chain.single q old n stored
          (sym h ∙ (ap (λ (r : DeviceCustody). r.work_order_id) e ∙ same_order)) v
          (closing (sym (ap (λ (r : DeviceCustody). r.until) e) ∙ u)) in
      absurd (other (ap (λ (r : DeviceCustody). r.id) same))
  put_single p q (inr (m, other)) (inl f) h u v =
      let same =
        chain.single p old m stored
          (h ∙ (ap (λ (r : DeviceCustody). r.work_order_id) f ∙ same_order)) u
          (closing (sym (ap (λ (r : DeviceCustody). r.until) f) ∙ v)) in
      absurd (other (ap (λ (r : DeviceCustody). r.id) same))
  put_single p q (inr (m, _)) (inr (n, _)) h u v = chain.single p q m n h u v

  pub put-IsCustody : IsCustody (map (replace_custody new) rows) next_id
  put-IsCustody = record {
    keyed = λ p q m n. put_keyed p q (custody_row p m) (custody_row q n);
    fresh = λ p m. elim (custody_row p m) [
      | inl e ↦ rw (e, same_id) (chain.fresh old stored)
      | inr (n, _) ↦ chain.fresh p n
    ];
    single = λ p q m n. put_single p q (custody_row p m) (custody_row q n);
  }

-- No row of the order is open.
abbrev pub NoneOpen : List DeviceCustody → ℕ → Type 0
NoneOpen rows order_id =
    (p : DeviceCustody) → Memᴰ p rows → p.work_order_id ≡ order_id → p.until ≢ none

-- A new open row for an order with none.
module _ {rows : List DeviceCustody} {next_id : ℕ} (chain : IsCustody rows next_id)
    (new : DeviceCustody) (numbered : new.id ≡ next_id)
    (free : NoneOpen rows new.work_order_id) where
  added : (x : DeviceCustody) → Memᴰ x (rows ++ new ∷ []) → Memᴰ x rows ⊎ (x ≡ new)
  added x m = elim (mem-append_inv rows (new ∷ []) x m) [
    | inl n ↦ inl n
    | inr n ↦ inr (mem_one new x n)
  ]

  add_keyed :
      (p q : DeviceCustody)
      → Memᴰ p rows ⊎ (p ≡ new)
      → Memᴰ q rows ⊎ (q ≡ new)
      → p.id ≡ q.id
      → p ≡ q
  add_keyed p q (inl m) (inl n) h = chain.keyed p q m n h
  add_keyed p q (inl m) (inr f) h =
      absurd (omega (arith, chain.fresh p m, h, ap (λ (r : DeviceCustody). r.id) f, numbered))
  add_keyed p q (inr e) (inl n) h =
      absurd (omega (arith, chain.fresh q n, h, ap (λ (r : DeviceCustody). r.id) e, numbered))
  add_keyed p q (inr e) (inr f) h = e ∙ sym f

  add_single :
      (p q : DeviceCustody)
      → Memᴰ p rows ⊎ (p ≡ new)
      → Memᴰ q rows ⊎ (q ≡ new)
      → p.work_order_id ≡ q.work_order_id
      → p.until ≡ none
      → q.until ≡ none
      → p ≡ q
  add_single p q (inl m) (inl n) h u v = chain.single p q m n h u v
  add_single p q (inl m) (inr f) h u v =
      absurd (free p m (h ∙ ap (λ (r : DeviceCustody). r.work_order_id) f) u)
  add_single p q (inr e) (inl n) h u v =
      absurd (free q n (sym h ∙ ap (λ (r : DeviceCustody). r.work_order_id) e) v)
  add_single p q (inr e) (inr f) h u v = e ∙ sym f

  pub add-IsCustody : IsCustody (rows ++ new ∷ []) (suc next_id)
  add-IsCustody = record {
    keyed = λ p q m n. add_keyed p q (added p m) (added q n);
    fresh = λ p m. elim (added p m) [
      | inl n ↦ omega (arith, chain.fresh p n)
      | inr e ↦ rw (e, numbered) (omega arith)
    ];
    single = λ p q m n. add_single p q (added p m) (added q n);
  }
