-- ===== src/Common/Keyed.antt =====
-- Tables whose rows have identifiers, and classes of rows of which a table holds one at most:
-- what an update in place and a new row keep of them.
use mathlib.Core.List.{Memᴰ}
use mathlib.Core.List.{List, [], ◌∷◌, ◌++◌, map}
use mathlib.Core.Path.{◌≡◌, refl, sym, ap, ◌∙◌}
use mathlib.Core.Logic.{◌≢◌, ◌⊎◌, inl, inr}
use native.Mathlib.Omega.{arith}
use Prim.Native.Nat.{ℕ, suc, ◌<◌, ◌≤◌}
use campo_sig.Common.Tests.{◌==◌, ==_iff, if◌then◌else◌, Bool-cases}
use campo_sig.Common.Members.{mem-map, mem-map_inv, mem-append_inv, mem_one}

module _ {ℓ} {A : Type ℓ} (key : A → ℕ) where
  -- The row that the flush of `new` leaves in the place of `old`.
  abbrev pub replace : A → A → A
  replace new old = if key old == key new then new else old

  pub record IsKeyed (rows : List A) (next_id : ℕ) : Type ℓ where
    pub keyed : (p q : A) → Memᴰ p rows → Memᴰ q rows → key p ≡ key q → p ≡ q
    pub fresh : (p : A) → Memᴰ p rows → key p < next_id

  replaced :
      (new old : A)
      → (key old ≡ key new) × (replace new old ≡ new)
        ⊎ (key old ≢ key new) × (replace new old ≡ old)
  replaced new old = elim (Bool-cases (key old == key new)) [
    | inl same ↦ inl ((==_iff (key old) (key new)).0 same, rw same refl)
    | inr other ↦ inr (ground arith, rw other refl)
  ]

  pub put_row :
      (rows : List A) (new x : A)
      → Memᴰ x (map (replace new) rows)
      → (x ≡ new) ⊎ Memᴰ x rows × (key x ≢ key new)
  put_row rows new x m =
      let (y, n, e) = mem-map_inv (replace new) rows x m in
      elim (replaced new y) [
        | inl (same, f) ↦ inl (e ∙ f)
        | inr (other, f) ↦ inr (rw (e ∙ f) n, rw (e ∙ f) other)
      ]

  pub put_here :
      (rows : List A) (old new : A)
      → Memᴰ old rows
      → key old ≡ key new
      → Memᴰ new (map (replace new) rows)
  put_here rows old new m same = elim (replaced new old) [
    | inl (_, f) ↦
        let n : Memᴰ (replace new old) (map (replace new) rows) =
          mem-map (replace new) rows old m in
        rw f at n
    | inr (other, _) ↦ absurd (other same)
  ]

  pub put_kept :
      (rows : List A) (new x : A) → Memᴰ x rows → key x ≢ key new → Memᴰ x (map (replace new) rows)
  put_kept rows new x m other = elim (replaced new x) [
    | inl (same, _) ↦ absurd (other same)
    | inr (_, f) ↦
        let n : Memᴰ (replace new x) (map (replace new) rows) = mem-map (replace new) rows x m in
        rw f at n
  ]

  pub add_row : (rows : List A) (new x : A) → Memᴰ x (rows ++ new ∷ []) → Memᴰ x rows ⊎ (x ≡ new)
  add_row rows new x m = elim (mem-append_inv rows (new ∷ []) x m) [
    | inl n ↦ inl n
    | inr n ↦ inr (mem_one new x n)
  ]

  -- Of each class of `same` there is one row at most.
  abbrev pub Single {κ} : (A → A → Type κ) → List A → Type (ℓ ⊔ κ)
  Single same rows = (p q : A) → Memᴰ p rows → Memᴰ q rows → same p q → p ≡ q

  pub put-Single {κ} :
      (same : A → A → Type κ) (rows : List A) (old new : A)
      → Single same rows
      → Memᴰ old rows
      → key old ≡ key new
      → ((x : A) → same new x → same old x)
      → ((x : A) → same x new → same x old)
      → Single same (map (replace new) rows)
  put-Single same rows old new single stored same_key left right p q m n h =
      elim (put_row rows new p m) [
        | inl e ↦ elim (put_row rows new q n) [
          | inl f ↦ e ∙ sym f
          | inr (k, other) ↦
              absurd
                (other (sym (ap key (single old q stored k (left q (rw (sym e) h)))) ∙ same_key))
        ]
        | inr (k, other) ↦ elim (put_row rows new q n) [
          | inl f ↦
              absurd (other (ap key (single p old k stored (right p (rw (sym f) h))) ∙ same_key))
          | inr (k', _) ↦ single p q k k' h
        ]
      ]

  pub add-Single {κ} :
      (same : A → A → Type κ) (rows : List A) (new : A)
      → Single same rows
      → ((x : A) → Memᴰ x rows → ¬ same x new)
      → ((x : A) → Memᴰ x rows → ¬ same new x)
      → Single same (rows ++ new ∷ [])
  add-Single same rows new single before behind p q m n h = elim (add_row rows new p m) [
    | inl k ↦ elim (add_row rows new q n) [
      | inl k' ↦ single p q k k' h
      | inr f ↦ absurd (before p k (rw (sym f) h))
    ]
    | inr e ↦ elim (add_row rows new q n) [
      | inl k ↦ absurd (behind q k (rw (sym e) h))
      | inr f ↦ e ∙ sym f
    ]
  ]

  pub put-IsKeyed :
      (rows : List A) (next_id : ℕ) (old new : A)
      → IsKeyed rows next_id
      → Memᴰ old rows
      → key new ≡ key old
      → IsKeyed (map (replace new) rows) next_id
  put-IsKeyed rows next_id old new table stored same_key = record {
    keyed =
        put-Single (λ p q. key p ≡ key q) rows old new table.keyed stored (sym same_key)
          (λ x h. sym same_key ∙ h) (λ x h. h ∙ same_key);
    fresh = λ p m. elim (put_row rows new p m) [
      | inl e ↦ rw (e, same_key) (table.fresh old stored)
      | inr (n, _) ↦ table.fresh p n
    ];
  }

  pub add-IsKeyed :
      (rows : List A) (next_id : ℕ) (new : A)
      → IsKeyed rows next_id
      → key new ≡ next_id
      → IsKeyed (rows ++ new ∷ []) (suc next_id)
  add-IsKeyed rows next_id new table numbered = record {
    keyed =
        add-Single (λ p q. key p ≡ key q) rows new table.keyed
          (λ x m h. absurd (omega (arith, table.fresh x m, numbered, h)))
          (λ x m h. absurd (omega (arith, table.fresh x m, numbered, h)));
    fresh = λ p m. elim (add_row rows new p m) [
      | inl n ↦ omega (arith, table.fresh p n)
      | inr e ↦ rw (e, numbered) (omega arith)
    ];
  }

  pub weaken-IsKeyed : (rows : List A) (n m : ℕ) → n ≤ m → IsKeyed rows n → IsKeyed rows m
  weaken-IsKeyed rows n m le table = record {
    keyed = table.keyed;
    fresh = λ p h. omega (arith, table.fresh p h);
  }
