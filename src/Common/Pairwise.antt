-- ===== src/Common/Pairwise.antt =====
-- Lists whose elements are related one by one, and what an update of every row keeps of that.
use mathlib.Core.List.{Memᴰ, Forall₂}
use mathlib.Core.List.{List, [], ◌∷◌, map}
use mathlib.Core.Path.{refl}

module _ {ℓ κ} {A : Type ℓ} {R : A → A → Type κ} where
  pub each-map :
      (f : A → A) (xs : List A) → ((x : A) → Memᴰ x xs → R x (f x)) → Forall₂ R xs (map f xs)
  each-map f [] h = Forall₂.nil
  each-map f (x ∷ xs) h =
      Forall₂.cons (h x (Memᴰ.head refl)) (each-map f xs (λ y m. h y (Memᴰ.tail m)))

  pub map-right :
      (g : A → A) (xs ys : List A)
      → Forall₂ R xs ys
      → ((x y : A) → Memᴰ y ys → R x y → R x (g y))
      → Forall₂ R xs (map g ys)
  map-right g [] [] Forall₂.nil h = Forall₂.nil
  map-right g [] (y ∷ ys) related h = elim related [ ]
  map-right g (x ∷ xs) [] related h = elim related [ ]
  map-right g (x ∷ xs) (y ∷ ys) (Forall₂.cons r rest) h =
      Forall₂.cons (h x y (Memᴰ.head refl) r)
        (map-right g xs ys rest (λ a b m. h a b (Memᴰ.tail m)))
