-- ===== src/WorkOrders/Lifecycle.antt =====
-- The paths of a work order through `TRANSITIONS` of workorders/service.py.
use campo_sig.Common.{◌≡◌, refl, sym, ◌≢◌, inl, inr, true, false, List, [], ◌∷◌, arith, Bool-cases}
use campo_sig.WorkOrders.State.{
  WorkOrderState, draft, planned, assigned, downloaded, en_route, on_site, suspended, returned,
  in_execution, closed_field, synced, in_review, approved, closed, cancelled, state_eq,
  state_eq_iff, mem_state, allowed,
}

-- The states that an order enters one after the other, each by an allowed move.
abbrev pub IsPath : WorkOrderState → List WorkOrderState → Type 0
IsPath s [] = Unit
IsPath s (t ∷ ts) = (allowed s t ≡ true) × IsPath t ts

-- A state with one predecessor is entered through it.
through :
    (gate target : WorkOrderState)
    → ((s : WorkOrderState) → allowed s target ≡ true → s ≡ gate)
    → (s : WorkOrderState) (ts : List WorkOrderState) → IsPath s ts
    → mem_state target ts ≡ true
    → mem_state gate (s ∷ ts) ≡ true
unfolding mem_state
through gate target only s [] h m = cc
through gate target only s (t ∷ ts) h m = elim (Bool-cases (state_eq target t)) [
  | inl here ↦
      let entered : allowed s target ≡ true = rw ((state_eq_iff target t).0 here) h.0 in
      rw ((state_eq_iff gate s).1 (sym (only s entered)))
  | inr there ↦
      let seen = through gate target only t ts h.1 (rw there at m) in rw seen (ground arith)
]

before_closed : (s : WorkOrderState) → allowed s closed ≡ true → s ≡ approved
unfolding allowed
before_closed draft h = cc
before_closed _ h = ground arith

before_approved : (s : WorkOrderState) → allowed s approved ≡ true → s ≡ in_review
unfolding allowed
before_approved draft h = cc
before_approved _ h = ground arith

before_in_review : (s : WorkOrderState) → allowed s in_review ≡ true → s ≡ synced
unfolding allowed
before_in_review draft h = cc
before_in_review _ h = ground arith

before_synced : (s : WorkOrderState) → allowed s synced ≡ true → s ≡ closed_field
unfolding allowed
before_synced draft h = cc
before_synced _ h = ground arith

before_closed_field : (s : WorkOrderState) → allowed s closed_field ≡ true → s ≡ in_execution
unfolding allowed
before_closed_field draft h = cc
before_closed_field _ h = ground arith

-- On any allowed path from the draft state that enters `cerrada`, the order was in execution,
-- closed in the field, synchronised, in review and approved.
pub closed_path_visits :
    (ts : List WorkOrderState)
    → IsPath draft ts
    → mem_state closed ts ≡ true
    → (mem_state in_execution ts ≡ true)
      × (mem_state closed_field ts ≡ true)
      × (mem_state synced ts ≡ true)
      × (mem_state in_review ts ≡ true)
      × (mem_state approved ts ≡ true)
unfolding mem_state
closed_path_visits ts h m =
    let a = through approved closed before_closed draft ts h m in
    let r = through in_review approved before_approved draft ts h a in
    let y = through synced in_review before_in_review draft ts h r in
    let f = through closed_field synced before_synced draft ts h y in
    let x = through in_execution closed_field before_closed_field draft ts h f in (x, f, y, r, a)

abbrev pub last : WorkOrderState → List WorkOrderState → WorkOrderState
last s [] = s
last s (t ∷ ts) = last t ts

-- A way to `cerrada` from each state that has one.
abbrev office : List WorkOrderState
office = synced ∷ in_review ∷ approved ∷ closed ∷ []

abbrev field : List WorkOrderState
field = closed_field ∷ office

abbrev route : WorkOrderState → List WorkOrderState
route draft = planned ∷ assigned ∷ downloaded ∷ en_route ∷ on_site ∷ in_execution ∷ field
route planned = assigned ∷ downloaded ∷ en_route ∷ on_site ∷ in_execution ∷ field
route assigned = downloaded ∷ en_route ∷ on_site ∷ in_execution ∷ field
route downloaded = en_route ∷ on_site ∷ in_execution ∷ field
route en_route = on_site ∷ in_execution ∷ field
route on_site = in_execution ∷ field
route in_execution = field
route suspended = in_execution ∷ field
route closed_field = office
route synced = in_review ∷ approved ∷ closed ∷ []
route in_review = approved ∷ closed ∷ []
route returned = in_execution ∷ field
route approved = closed ∷ []
route closed = []
route cancelled = []

route-IsPath : (s : WorkOrderState) → IsPath s (route s)
unfolding allowed
route-IsPath cancelled = tt
route-IsPath _ = ground arith

route-last : (s : WorkOrderState) → s ≢ cancelled → last s (route s) ≡ closed
route-last draft live = refl
route-last cancelled live = absurd (live refl)
route-last _ live = refl

-- No state is a dead end but `cerrada` and `anulada`: from every state other than `anulada` an
-- allowed path leads to `cerrada`, and from those two no move is allowed.
pub closed_reachable :
    ((s : WorkOrderState)
      → s ≢ cancelled
      → (ts : List WorkOrderState) × IsPath s ts × (last s ts ≡ closed))
    × ((t : WorkOrderState) → (allowed closed t ≡ false) × (allowed cancelled t ≡ false))
unfolding allowed
closed_reachable = (λ s live. (route s, route-IsPath s, route-last s live), λ t. (refl, refl))
