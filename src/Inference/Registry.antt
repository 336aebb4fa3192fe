-- ===== src/Inference/Registry.antt =====
-- backend/app/inference/registry.py: the aliases, the profiles of servers, and the check of both at
-- load. Memory is counted in a unit of which every size of the registry is a whole number. The
-- dictionaries are keyed by the names of their values, as `load_registry` writes them.
use campo_sig.Common.{
  ℕ, suc, ◌-◌, String, Bool, not, ◌&&◌, Option, none, some, List, [], ◌∷◌, ◌++◌, ◌==◌, ltb,
  if◌then◌else◌, str_eq, first, exists,
}

pub data Priority : Type 0 where
  interactive pre_review retranscription pre_labelling training : Priority

abbrev pub priority_number : Priority → ℕ
priority_number p = elim p [
  | interactive ↦ 0
  | pre_review ↦ 1
  | retranscription ↦ 2
  | pre_labelling ↦ 3
  | training ↦ 4
]

abbrev pub same_priority : Priority → Priority → Bool
same_priority p q = priority_number p == priority_number q

pub data Degradation : Type 0 where
  night_batch skip : Degradation

pub record ModelAlias : Type 0 where
  pub name : String
  pub purpose : String
  pub model : String
  pub runtime : String
  pub priority : Priority
  pub vram : ℕ
  pub runs_on_cpu : Bool
  pub supports_grammar : Bool
  pub when_unsupported : Degradation
  pub when_busy : Degradation

pub record ServerProfile : Type 0 where
  pub name : String
  pub label : String
  pub vram : ℕ
  pub vram_headroom : ℕ
  pub interactive_aliases : List String

abbrev pub has_gpu : ServerProfile → Bool
has_gpu profile = ltb 0 profile.vram

-- `max(self.vram_gb - self.vram_headroom_gb, 0.0)`
abbrev pub usable_vram : ServerProfile → ℕ
usable_vram profile = profile.vram - profile.vram_headroom

-- The times are microseconds of the day.
pub record Windows : Type 0 where
  pub day_starts_at : ℕ
  pub day_ends_at : ℕ
  pub weekend_is_night : Bool

-- `day_must_have_length`
abbrev pub has_length : Windows → Bool
has_length windows = ltb windows.day_starts_at windows.day_ends_at

pub record InferenceRegistry : Type 0 where
  pub windows : Windows
  pub priorities : List Priority
  pub aliases : List ModelAlias
  pub profiles : List ServerProfile

-- `none` is the `KeyError`.
unfoldable pub alias : InferenceRegistry → String → Option ModelAlias
unfolding first
alias registry name = first (λ (a : ModelAlias). str_eq a.name name) registry.aliases

unfoldable pub profile : InferenceRegistry → String → Option ServerProfile
unfolding first
profile registry name = first (λ (p : ServerProfile). str_eq p.name name) registry.profiles

abbrev further : Option ℕ → Option ℕ
further none = none
further (some n) = some (suc n)

-- `list.index`; `none` is the `ValueError`.
unfoldable pub rank_in : List Priority → Priority → Option ℕ
rank_in [] p = none
rank_in (q ∷ qs) p = let rest = rank_in qs p in if same_priority q p then some 0 else further rest

unfoldable pub rank : InferenceRegistry → Priority → Option ℕ
unfolding rank_in
rank registry priority = rank_in registry.priorities priority

pub data Problem : Type 0 where
  unlisted_priority : String → Problem
  unknown_alias needs_gpu too_large : (profile alias : String) → Problem

abbrev pub when : Bool → Problem → List Problem
when b problem = if b then problem ∷ [] else []

unfoldable pub alias_problems : List Priority → List ModelAlias → List Problem
unfolding exists
alias_problems priorities [] = []
alias_problems priorities (a ∷ rest) =
    when (not (exists (same_priority a.priority) priorities)) (unlisted_priority a.name)
    ++ alias_problems priorities rest

unfoldable pub declared_problems : ServerProfile → String → Option ModelAlias → List Problem
declared_problems p name none = unknown_alias p.name name ∷ []
declared_problems p name (some declared) =
    when (not (has_gpu p) && not declared.runs_on_cpu) (needs_gpu p.name name)
    ++ when (has_gpu p && ltb (usable_vram p) declared.vram) (too_large p.name name)

unfoldable pub interactive_problems : InferenceRegistry → ServerProfile → List String → List Problem
unfolding declared_problems alias
interactive_problems registry p [] = []
interactive_problems registry p (name ∷ names) =
    declared_problems p name (alias registry name) ++ interactive_problems registry p names

unfoldable pub profile_problems : InferenceRegistry → List ServerProfile → List Problem
unfolding interactive_problems
profile_problems registry [] = []
profile_problems registry (p ∷ rest) =
    interactive_problems registry p p.interactive_aliases ++ profile_problems registry rest

-- `_validate`, which raises what it finds.
unfoldable pub validate : InferenceRegistry → List Problem
unfolding alias_problems profile_problems
validate registry =
    alias_problems registry.priorities registry.aliases
    ++ profile_problems registry registry.profiles
