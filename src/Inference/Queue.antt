-- ===== src/Inference/Queue.antt =====
-- The order in which backend/app/inference/scheduler.py serves the tasks.
use campo_sig.Common.{
  ℕ, suc, ◌<◌, ◌≤◌, ◌≡◌, ◌≢◌, refl, sym, ap, ◌∙◌, arith, String, Bool, true, false, ◌⊎◌, inl, inr,
  Option, none, some, List, [], ◌∷◌, map, All, All-map, Bool-cases, Option-cases, ◌==◌,
  if◌then◌else◌, select, order_by,
}
use campo_sig.Common.Sorted.{
  le, IsStrict, Sorted, Apart, order_by-Sorted, order_by-select, order_by_self,
}
use campo_sig.Inference.Registry.{Priority, InferenceRegistry, rank}
use campo_sig.Inference.Scheduler.{Ranked, ranked, goes_before, order_queue}

-- What `enumerate` and the ranks make of the first task.
record Head (registry : InferenceRegistry) (n : ℕ) (id : String) (p : Priority)
    (tasks : List (String × Priority)) (es : List Ranked) : Type 0 where
  number : ℕ
  rest : List Ranked
  has_rank : rank registry p ≡ some number
  others : ranked registry (suc n) tasks ≡ some rest
  whole : es ≡ record { rank = number; position = n; task_id = id } ∷ rest

ranked-Head :
    (registry : InferenceRegistry) (n : ℕ) (id : String) (p : Priority)
    (tasks : List (String × Priority)) (es : List Ranked)
    → ranked registry n ((id, p) ∷ tasks) ≡ some es
    → Head registry n id p tasks es
unfolding ranked
ranked-Head registry n id p tasks es h = elim (Option-cases (rank registry p)) [
  | inl e ↦ absurd (cc (rw e at h))
  | inr (number, e) ↦ elim (Option-cases (ranked registry (suc n) tasks)) [
    | inl f ↦ absurd (cc (rw (e, f) at h))
    | inr (rest, f) ↦
        let k : some (record { rank = number; position = n; task_id = id } ∷ rest) ≡ some es =
          rw (e, f) at h in
        record { number = number; rest = rest; has_rank = e; others = f; whole = cc }
  ]
]

abbrev Ascending : List Ranked → Type 0
Ascending [] = Unit
Ascending (x ∷ xs) = All (λ (z : Ranked). x.position < z.position) xs × Ascending xs

ranked-Ascending :
    (registry : InferenceRegistry) (n : ℕ) (tasks : List (String × Priority)) (es : List Ranked)
    → ranked registry n tasks ≡ some es
    → All (λ (z : Ranked). n ≤ z.position) es × Ascending es
unfolding ranked
ranked-Ascending registry n [] es h = let e : [] ≡ es = cc in rw⁻¹ e (tt, tt)
ranked-Ascending registry n ((id, p) ∷ tasks) es h =
    let head = ranked-Head registry n id p tasks es h in
    let (above, inner) = ranked-Ascending registry (suc n) tasks head.rest head.others in
    rw head.whole (
      (
        omega arith,
        All-map (λ (z : Ranked). suc n ≤ z.position) (λ (z : Ranked). n ≤ z.position) head.rest
            (λ z k. omega arith) above,
      ),
      (
        All-map (λ (z : Ranked). suc n ≤ z.position) (λ (z : Ranked). n < z.position) head.rest
            (λ z k. omega arith) above,
        inner,
      ),
    )

goes_before-IsStrict : IsStrict goes_before
goes_before-IsStrict = record { trans = λ a b c h k. ground arith; asym = λ a b h. ground arith }

Ascending-Apart : (es : List Ranked) → Ascending es → Apart goes_before es
Ascending-Apart [] h = tt
Ascending-Apart (x ∷ xs) h = (
  All-map (λ (z : Ranked). x.position < z.position)
      (λ z. (goes_before x z ≡ true) ⊎ (goes_before z x ≡ true)) xs (λ z k. ground arith) h.0,
  Ascending-Apart xs h.1,
)

abbrev pub has_rank : ℕ → Ranked → Bool
has_rank r e = e.rank == r

-- Behind a task of a class, the tasks of the class that came later.
class_behind :
    (r : ℕ) (x : Ranked) (xs : List Ranked)
    → has_rank r x ≡ true
    → All (λ (z : Ranked). x.position < z.position) xs
    → All (λ z. goes_before x z ≡ true) (select (has_rank r) xs)
unfolding select
class_behind r x [] same h = tt
class_behind r x (y ∷ xs) same h = elim (Bool-cases (has_rank r y)) [
  | inl t ↦ let late = h.0 in rw t (ground (arith, late, t, same), class_behind r x xs same h.1)
  | inr f ↦ rw f (class_behind r x xs same h.1)
]

class-Sorted :
    (r : ℕ) (es : List Ranked) → Ascending es → Sorted goes_before (select (has_rank r) es)
unfolding select
class-Sorted r [] h = tt
class-Sorted r (x ∷ xs) h = elim (Bool-cases (has_rank r x)) [
  | inl t ↦ rw t (class_behind r x xs t h.0, class-Sorted r xs h.1)
  | inr f ↦ rw f (class-Sorted r xs h.1)
]

-- A class keeps the order in which its tasks came.
class_kept :
    (r : ℕ) (es : List Ranked)
    → Ascending es
    → select (has_rank r) (order_by (le goes_before) es) ≡ select (has_rank r) es
class_kept r es h =
    sym (order_by-select goes_before goes_before-IsStrict (has_rank r) es (Ascending-Apart es h))
    ∙ order_by_self goes_before goes_before-IsStrict (select (has_rank r) es) (class-Sorted r es h)

abbrev pub is_rank : ℕ → Option ℕ → Bool
is_rank r none = false
is_rank r (some s) = s == r

abbrev pub ids : List Ranked → List String
ids es = map (λ (e : Ranked). e.task_id) es

-- The identifiers of the tasks of a class, as they came.
unfoldable pub class_of : InferenceRegistry → ℕ → List (String × Priority) → List String
class_of registry r [] = []
class_of registry r ((id, p) ∷ tasks) =
    let rest = class_of registry r tasks in if is_rank r (rank registry p) then id ∷ rest else rest

class_of-ranked :
    (registry : InferenceRegistry) (r n : ℕ) (tasks : List (String × Priority)) (es : List Ranked)
    → ranked registry n tasks ≡ some es
    → ids (select (has_rank r) es) ≡ class_of registry r tasks
unfolding ranked select class_of
class_of-ranked registry r n [] es h = let e : [] ≡ es = cc in rw⁻¹ e refl
class_of-ranked registry r n ((id, p) ∷ tasks) es h =
    let head = ranked-Head registry n id p tasks es h in
    let inner = class_of-ranked registry r (suc n) tasks head.rest head.others in
    rw (head.whole, head.has_rank)
      (elim (Bool-cases (head.number == r)) [
        | inl t ↦ rw t (ap (λ xs. id ∷ xs) inner)
        | inr f ↦ rw f inner
      ])

-- Every task has a priority of the registry.
abbrev pub AllListed : InferenceRegistry → List (String × Priority) → Type 0
AllListed registry [] = Unit
AllListed registry ((id, p) ∷ tasks) = (rank registry p ≢ none) × AllListed registry tasks

ranked-AllListed :
    (registry : InferenceRegistry) (n : ℕ) (tasks : List (String × Priority))
    → AllListed registry tasks
    → (es : List Ranked) × (ranked registry n tasks ≡ some es)
unfolding ranked
ranked-AllListed registry n [] listed = ([], refl)
ranked-AllListed registry n ((id, p) ∷ tasks) listed = elim (Option-cases (rank registry p)) [
  | inl e ↦ absurd (listed.0 e)
  | inr (r, e) ↦
      let (rest, f) = ranked-AllListed registry (suc n) tasks listed.1 in
      (record { rank = r; position = n; task_id = id } ∷ rest, rw (e, f) refl)
]

abbrev pub ByRank : List Ranked → Type 0
ByRank [] = Unit
ByRank (x ∷ xs) = All (λ (z : Ranked). x.rank ≤ z.rank) xs × ByRank xs

Sorted-ByRank : (es : List Ranked) → Sorted goes_before es → ByRank es
Sorted-ByRank [] h = tt
Sorted-ByRank (x ∷ xs) h = (
  All-map (λ z. goes_before x z ≡ true) (λ (z : Ranked). x.rank ≤ z.rank) xs (λ z k. ground arith)
      h.0,
  Sorted-ByRank xs h.1,
)

-- The tasks as they are served.
pub record Serves (registry : InferenceRegistry) (tasks : List (String × Priority)) : Type 0 where
  pub queue : List Ranked
  pub result : order_queue registry tasks ≡ some (ids queue)
  pub by_rank : ByRank queue
  pub classes : (r : ℕ) → ids (select (has_rank r) queue) ≡ class_of registry r tasks

-- If every task has a priority of the registry, no task is refused a place: the queue is sorted by
-- the rank of the priorities, and within each rank it holds the tasks of that rank as they came.
pub order_queue-Serves :
    (registry : InferenceRegistry) (tasks : List (String × Priority))
    → AllListed registry tasks
    → Serves registry tasks
unfolding order_queue
order_queue-Serves registry tasks listed =
    let (es, e) = ranked-AllListed registry 0 tasks listed in
    let rising = (ranked-Ascending registry 0 tasks es e).1 in
    record {
      queue = order_by (le goes_before) es;
      result = rw e refl;
      by_rank =
          Sorted-ByRank (order_by (le goes_before) es)
            (order_by-Sorted goes_before goes_before-IsStrict es (Ascending-Apart es rising));
      classes = λ r. ap ids (class_kept r es rising) ∙ class_of-ranked registry r 0 tasks es e;
    }
