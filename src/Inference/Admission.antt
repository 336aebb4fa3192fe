-- ===== src/Inference/Admission.antt =====
-- backend/app/inference/admission.py. `none` is the `KeyError` of a name that the registry does not
-- have. A reason is kept as what it says, without its sentence.
use campo_sig.Common.{
  ℕ, ◌+◌, String, Bool, true, false, not, ◌&&◌, Option, none, some, List, [], ◌∷◌, ltb, leb,
  if◌then◌else◌, str_eq, exists, ◌>>=◌,
}
use campo_sig.Inference.Registry.{
  Degradation, ModelAlias, ServerProfile, has_gpu, usable_vram, InferenceRegistry, alias, profile,
}

pub data Placement : Type 0 where
  interactive night_batch unavailable : Placement

pub data Reason : Type 0 where
  without_gpu gateway_down not_interactive in_profile : Reason
  without_room : (needed usable used : ℕ) → Reason

pub record Admission : Type 0 where
  pub alias : String
  pub placement : Placement
  pub reason : Reason

abbrev pub placement_of : Degradation → Placement
placement_of behaviour = elim behaviour [
  | Degradation.night_batch ↦ Placement.night_batch
  | Degradation.skip ↦ unavailable
]

unfoldable pub degraded : ModelAlias → Reason → Bool → Admission
degraded a reason supported = record {
  alias = a.name;
  placement = placement_of (if supported then a.when_busy else a.when_unsupported);
  reason = reason;
}

abbrev pub plus : Option ModelAlias → Option ℕ → Option ℕ
plus (some a) (some n) = some (a.vram + n)
plus _ _ = none

unfoldable pub used_vram : List String → InferenceRegistry → Option ℕ
unfolding alias
used_vram [] registry = some 0
used_vram (name ∷ names) registry = plus (alias registry name) (used_vram names registry)

abbrev pub admitted : ModelAlias → Admission
admitted a = record { alias = a.name; placement = interactive; reason = in_profile }

-- The headroom of the code is the usable memory without the used one, below zero too: what is
-- compared is the same with the used memory on the other side.
unfoldable pub with_room : ModelAlias → ServerProfile → Bool → Option ℕ → Option Admission
unfolding degraded
with_room a p is_resident none = none
with_room a p is_resident (some used) =
    if not is_resident && ltb (usable_vram p) (a.vram + used)
    then some (degraded a (without_room a.vram (usable_vram p) used) true)
    else some (admitted a)

unfoldable pub admit_known :
    InferenceRegistry → ModelAlias → ServerProfile → String → Bool → List String → Option Admission
unfolding degraded with_room used_vram exists
admit_known registry a p name reachable resident =
    if not (has_gpu p) && not a.runs_on_cpu
    then some (degraded a without_gpu false)
    else if not reachable
    then some (degraded a gateway_down true)
    else if not (exists (str_eq name) p.interactive_aliases)
    then some (degraded a not_interactive true)
    else if has_gpu p
    then with_room a p (exists (str_eq name) resident) (used_vram resident registry)
    else some (admitted a)

unfoldable pub admit : InferenceRegistry → String → String → Bool → List String → Option Admission
unfolding admit_known alias profile
admit registry name profile_name reachable resident = alias registry name >>= λ a.
    profile registry profile_name >>= λ p. admit_known registry a p name reachable resident

abbrev at_most : Option ℕ → ℕ → Option Bool
at_most none n = none
at_most (some m) n = some (leb m n)

-- `frozenset({first, second})`
abbrev pub both_of : String → String → List String
both_of a b = if str_eq a b then a ∷ [] else a ∷ b ∷ []

unfoldable pub may_coexist : InferenceRegistry → String → String → String → Option Bool
unfolding used_vram profile
may_coexist registry a b profile_name = profile registry profile_name >>= λ p.
    if not (has_gpu p)
    then some false
    else at_most (used_vram (both_of a b) registry) (usable_vram p)

unfoldable pub fits_alone : InferenceRegistry → String → String → Option Bool
unfolding alias profile
fits_alone registry name profile_name = profile registry profile_name >>= λ p.
    alias registry name >>= λ a.
    if not (has_gpu p) then some a.runs_on_cpu else some (leb a.vram (usable_vram p))
