-- ===== src/WorkOrders/State.antt =====
-- backend/app/workorders/models.py and the tables of service.py: the states of a work order, which
-- moves between them are allowed, and which milestones they mark.
use campo_sig.Common.{
  arith, ℕ, suc, String, ◌≡◌, refl, ap, sym, ◌∙◌, ◌↔◌, Bool, true, false, Option, none, some, List,
  [], ◌∷◌, ◌==◌, ==_iff, exists,
}

pub data WorkOrderState : Type 0 where
  draft planned assigned downloaded en_route on_site in_execution suspended : WorkOrderState
  closed_field synced in_review returned approved closed cancelled : WorkOrderState

-- The members of the enumeration in their order.
abbrev pub states : List WorkOrderState
states =
    draft ∷ planned ∷ assigned ∷ downloaded ∷ en_route ∷ on_site ∷ in_execution ∷ suspended
    ∷ closed_field ∷ synced ∷ in_review ∷ returned ∷ approved ∷ closed ∷ cancelled ∷ []

-- The value of a member, which is what the column and the requests hold.
unfoldable pub value : WorkOrderState → String
value draft = "borrador"
value planned = "planificada"
value assigned = "asignada"
value downloaded = "descargada"
value en_route = "en_camino"
value on_site = "en_sitio"
value in_execution = "en_ejecucion"
value suspended = "suspendida"
value closed_field = "cerrada_campo"
value synced = "sincronizada"
value in_review = "en_revision"
value returned = "devuelta"
value approved = "aprobada"
value closed = "cerrada"
value cancelled = "anulada"

abbrev rank : WorkOrderState → ℕ
rank draft = 0
rank planned = 1
rank assigned = 2
rank downloaded = 3
rank en_route = 4
rank on_site = 5
rank in_execution = 6
rank suspended = 7
rank closed_field = 8
rank synced = 9
rank in_review = 10
rank returned = 11
rank approved = 12
rank closed = 13
rank cancelled = 14

abbrev at_rank : List WorkOrderState → ℕ → WorkOrderState
at_rank [] n = draft
at_rank (s ∷ ss) ℕ.zero = s
at_rank (s ∷ ss) (suc n) = at_rank ss n

at_rank-rank : (s : WorkOrderState) → at_rank states (rank s) ≡ s
at_rank-rank draft = refl
at_rank-rank _ = refl

unfoldable pub state_eq : WorkOrderState → WorkOrderState → Bool
state_eq a b = rank a == rank b

pub state_eq_iff : (a b : WorkOrderState) → (state_eq a b ≡ true) ↔ (a ≡ b)
unfolding state_eq
state_eq_iff a b = (
  λ h.
      sym (at_rank-rank a)
      ∙ (ap (at_rank states) ((==_iff (rank a) (rank b)).0 h) ∙ at_rank-rank b),
  λ e. (==_iff (rank a) (rank b)).1 (ap rank e),
)

-- `target in allowed`
unfoldable pub mem_state : WorkOrderState → List WorkOrderState → Bool
unfolding exists state_eq
mem_state s ss = exists (state_eq s) ss

-- `TRANSITIONS`
unfoldable pub transitions : WorkOrderState → List WorkOrderState
transitions draft = planned ∷ cancelled ∷ []
transitions planned = assigned ∷ cancelled ∷ []
transitions assigned = downloaded ∷ planned ∷ cancelled ∷ []
transitions downloaded = en_route ∷ assigned ∷ []
transitions en_route = on_site ∷ suspended ∷ []
transitions on_site = in_execution ∷ suspended ∷ []
transitions in_execution = suspended ∷ closed_field ∷ []
transitions suspended = in_execution ∷ cancelled ∷ []
transitions closed_field = synced ∷ []
transitions synced = in_review ∷ []
transitions in_review = approved ∷ returned ∷ cancelled ∷ []
transitions returned = in_execution ∷ []
transitions approved = closed ∷ []
transitions closed = []
transitions cancelled = []

unfoldable pub allowed : WorkOrderState → WorkOrderState → Bool
unfolding mem_state transitions
allowed source target = mem_state target (transitions source)

-- `REASON_REQUIRED`
unfoldable pub reason_required : WorkOrderState → Bool
reason_required suspended = true
reason_required returned = true
reason_required cancelled = true
reason_required _ = false

-- `PENDING_FIELD_STATES`
unfoldable pub is_pending_field : WorkOrderState → Bool
unfolding mem_state
is_pending_field s = mem_state s (
    draft ∷ planned ∷ assigned ∷ downloaded ∷ en_route ∷ on_site ∷ in_execution ∷ suspended
    ∷ returned ∷ [])

-- `WorkOrder.is_assignable`
unfoldable pub is_assignable : WorkOrderState → Bool
is_assignable planned = true
is_assignable assigned = true
is_assignable _ = false

pub data Milestone : Type 0 where
  en_route on_site started finished : Milestone

-- `MILESTONE_OF_STATE`
unfoldable pub milestone_of_state : WorkOrderState → Option Milestone
milestone_of_state WorkOrderState.en_route = some Milestone.en_route
milestone_of_state WorkOrderState.on_site = some Milestone.on_site
milestone_of_state in_execution = some Milestone.started
milestone_of_state closed_field = some Milestone.finished
milestone_of_state _ = none

-- The place of a milestone in its enumeration.
unfoldable pub milestone_rank : Milestone → ℕ
milestone_rank Milestone.en_route = 0
milestone_rank Milestone.on_site = 1
milestone_rank Milestone.started = 2
milestone_rank Milestone.finished = 3

unfoldable pub milestone_value : Milestone → String
milestone_value Milestone.en_route = "en_camino"
milestone_value Milestone.on_site = "en_sitio"
milestone_value Milestone.started = "inicio"
milestone_value Milestone.finished = "fin"

unfoldable pub milestone_eq : Milestone → Milestone → Bool
unfolding milestone_rank
milestone_eq a b = milestone_rank a == milestone_rank b

pub milestone_eq_iff : (a b : Milestone) → (milestone_eq a b ≡ true) ↔ (a ≡ b)
unfolding milestone_eq
milestone_eq_iff a b = ground arith
