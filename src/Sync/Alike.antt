-- ===== src/Sync/Alike.antt =====
-- What `record_delivery` of backend/app/dispatch/service.py changes for the query of
-- `pull_work_orders`.
use mathlib.Core.List.{Memᴰ}
use campo_sig.Common.{
  ℕ, ◌≡◌, refl, ◌∙◌, Bool, true, false, ◌⊎◌, inl, inr, List, [], ◌∷◌, ◌++◌, map, Bool-cases, ◌==◌,
  ==_iff, ==_refl, exists,
}
use campo_sig.WorkOrders.Own.{OwnRows, OwnRows-keyed}
use campo_sig.WorkOrders.Store.{WorkOrder, Device}
use campo_sig.Sync.Pull.{
  WorkOrderDelivery, Shelf, reaches, delivered_here, concerns, is_delivery, new_delivery,
  redelivered, record_one, record_each, record_delivery,
}

-- What a pull leaves behind is the same to the next one.
pub record Alike (device : Device) (a b : Shelf) : Type 0 where
  pub orders : b.db.orders ≡ a.db.orders
  pub custody : b.db.custody ≡ a.db.custody
  pub times : b.updated_at ≡ a.updated_at
  pub same : (o : WorkOrder) → Memᴰ o a.db.orders → concerns device b o ≡ concerns device a o

pub alike : (device : Device) (a : Shelf) → Alike device a a
alike device a = record { orders = refl; custody = refl; times = refl; same = λ o m. refl }

pub Alike-trans :
    (device : Device) (a b c : Shelf) → Alike device a b → Alike device b c → Alike device a c
Alike-trans device a b c h k = record {
  orders = k.orders ∙ h.orders;
  custody = k.custody ∙ h.custody;
  times = k.times ∙ h.times;
  same = λ o m. k.same o (rw h.orders m) ∙ h.same o m;
}

exists-append {ℓ} :
    {A : Type ℓ} (p : A → Bool) (xs : List A) (x : A)
    → p x ≡ false
    → exists p (xs ++ x ∷ []) ≡ exists p xs
unfolding exists
exists-append p [] x h = rw h refl
exists-append p (y ∷ xs) x h = rw (exists-append p xs x h) refl

exists-map {ℓ} :
    {A : Type ℓ} (p : A → Bool) (f : A → A) (xs : List A)
    → ((a : A) → p (f a) ≡ p a)
    → exists p (map f xs) ≡ exists p xs
unfolding exists
exists-map p f [] h = refl
exists-map p f (y ∷ xs) h = rw (h y, exists-map p f xs h) refl

redelivered-kept :
    (device : Device) (order o : WorkOrder) (now : ℕ) (row : WorkOrderDelivery)
    → is_delivery device o (redelivered device order now row) ≡ is_delivery device o row
redelivered-kept device order o now row = elim (Bool-cases (is_delivery device order row)) [
  | inl t ↦ rw t refl
  | inr f ↦ rw f refl
]

module _ (device : Device) where
  -- Two sessions differ in the deliveries of orders that reach the device.
  concerns-same :
      (a b : Shelf) (o : WorkOrder)
      → b.db.custody ≡ a.db.custody
      → (reaches device a.db o ≡ true)
        ⊎ (delivered_here device b.deliveries o ≡ delivered_here device a.deliveries o)
      → concerns device b o ≡ concerns device a o
  unfolding concerns reaches
  concerns-same a b o custody (inl t) = rw (custody, t) refl
  concerns-same a b o custody (inr e) = rw (custody, e) refl

  record_one-Alike :
      (existing : List WorkOrderDelivery) (order : WorkOrder) (shelf : Shelf)
      → OwnRows shelf.db.orders
      → Memᴰ order shelf.db.orders
      → reaches device shelf.db order ≡ true
      → Alike device shelf (record_one device existing order shelf)
  unfolding record_one delivered_here
  record_one-Alike existing order shelf own m reached =
      elim (Bool-cases (delivered_here device existing order)) [
        | inl t ↦ rw t record {
          orders = refl;
          custody = refl;
          times = refl;
          same = λ o n. concerns-same shelf _ o refl (
              inr (
                exists-map (is_delivery device o) (redelivered device order shelf.db.now)
                  shelf.deliveries (redelivered-kept device order o shelf.db.now)));
        }
        | inr f ↦ rw f record {
          orders = refl;
          custody = refl;
          times = refl;
          same = λ o n. elim (Bool-cases (order.id == o.id)) [
            | inl t ↦
                let e : order ≡ o =
                  OwnRows-keyed shelf.db.orders order o own m n ((==_iff order.id o.id).0 t) in
                concerns-same shelf _ o refl (inl (rw e at reached))
            | inr g ↦ concerns-same shelf _ o refl (
                inr (
                  exists-append (is_delivery device o) shelf.deliveries
                    (new_delivery device order shelf.db) (rw (==_refl device.id, g) refl)))
          ];
        }
      ]

  still_reaches :
      (a b : Shelf) (o : WorkOrder)
      → b.db.custody ≡ a.db.custody
      → reaches device a.db o ≡ true
      → reaches device b.db o ≡ true
  unfolding reaches
  still_reaches a b o custody h = rw custody h

  record_each-Alike :
      (existing : List WorkOrderDelivery) (orders : List WorkOrder) (shelf : Shelf)
      → OwnRows shelf.db.orders
      → ((o : WorkOrder)
          → Memᴰ o orders
          → Memᴰ o shelf.db.orders × (reaches device shelf.db o ≡ true))
      → Alike device shelf (record_each device existing orders shelf)
  unfolding record_each
  record_each-Alike existing [] shelf own good = alike device shelf
  record_each-Alike existing (order ∷ orders) shelf own good =
      let (m, h) = good order (Memᴰ.head refl) in
      let next = record_one device existing order shelf in
      let one = record_one-Alike existing order shelf own m h in
      Alike-trans device shelf next _ one (
        record_each-Alike existing orders next (rw one.orders own) (λ o n.
          let (k, r) = good o (Memᴰ.tail n) in
          (rw one.orders k, still_reaches shelf next o one.custody r)))

  pub record_delivery-Alike :
      (orders : List WorkOrder) (shelf : Shelf)
      → OwnRows shelf.db.orders
      → ((o : WorkOrder)
          → Memᴰ o orders
          → Memᴰ o shelf.db.orders × (reaches device shelf.db o ≡ true))
      → Alike device shelf (record_delivery device orders shelf)
  unfolding record_delivery
  record_delivery-Alike orders shelf own good =
      record_each-Alike shelf.deliveries orders shelf own good
