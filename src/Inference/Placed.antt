-- ===== src/Inference/Placed.antt =====
-- What backend/app/inference/admission.py admits, under a registry that registry.py accepts.
use mathlib.Core.List.{Memᴰ}
use campo_sig.Common.{
  ℕ, ◌+◌, ◌≤◌, ◌≡◌, ◌≢◌, refl, sym, ap, ◌∙◌, arith, String, Bool, true, false, not, ◌&&◌, Option,
  none, some, List, [], ◌∷◌, ◌++◌, Bool-cases, inl, inr, str_eq, eq_iff, exists, ltb, if◌then◌else◌,
}
use campo_sig.Common.Members.{first-mem}
use campo_sig.Inference.Registry.{
  Degradation, ModelAlias, ServerProfile, has_gpu, usable_vram, InferenceRegistry, alias, profile,
  alias_problems, declared_problems, interactive_problems, profile_problems, validate,
}
use campo_sig.Inference.Admission.{
  Reason, interactive, Admission, placement_of, admitted, degraded, used_vram, with_room,
  admit_known, admit,
}

append-eq-nil {ℓ} : {A : Type ℓ} (xs ys : List A) → xs ++ ys ≡ [] → (xs ≡ []) × (ys ≡ [])
append-eq-nil [] ys h = (refl, h)
append-eq-nil (x ∷ xs) ys h = absurd (cc h)

exists-here :
    (name : String) (names : List String) → Memᴰ name names → exists (str_eq name) names ≡ true
unfolding exists
exists-here name [] m = elim m [ ]
exists-here name (x ∷ xs) (Memᴰ.head e) = rw ((eq_iff name x).1 e) refl
exists-here name (x ∷ xs) (Memᴰ.tail m) = elim (Bool-cases (str_eq name x)) [
  | inl t ↦ rw t refl
  | inr f ↦ rw f (exists-here name xs m)
]

-- What the check at load leaves of an interactive alias of a profile.
record IsServed (p : ServerProfile) (a : ModelAlias) : Type 0 where
  runs : (not (has_gpu p) && not a.runs_on_cpu) ≡ false
  fits : (has_gpu p && ltb (usable_vram p) a.vram) ≡ false

declared_IsServed :
    (p : ServerProfile) (name : String) (found : Option ModelAlias)
    → declared_problems p name found ≡ []
    → (a : ModelAlias) × (found ≡ some a) × IsServed p a
unfolding declared_problems
declared_IsServed p name none h = absurd (cc h)
declared_IsServed p name (some a) h = (a, refl, record { runs = ground arith; fits = ground arith })

interactive_IsServed :
    (registry : InferenceRegistry) (p : ServerProfile) (names : List String) (name : String)
    → interactive_problems registry p names ≡ []
    → Memᴰ name names
    → declared_problems p name (alias registry name) ≡ []
unfolding interactive_problems
interactive_IsServed registry p [] name h m = elim m [ ]
interactive_IsServed registry p (x ∷ xs) name h (Memᴰ.head e) =
    rw e (append-eq-nil (declared_problems p x (alias registry x)) _ h).0
interactive_IsServed registry p (x ∷ xs) name h (Memᴰ.tail m) =
    interactive_IsServed registry p xs name
      (append-eq-nil (declared_problems p x (alias registry x)) _ h).1 m

profile_IsServed :
    (registry : InferenceRegistry) (ps : List ServerProfile) (p : ServerProfile)
    → profile_problems registry ps ≡ []
    → Memᴰ p ps
    → interactive_problems registry p p.interactive_aliases ≡ []
unfolding profile_problems
profile_IsServed registry [] p h m = elim m [ ]
profile_IsServed registry (x ∷ xs) p h (Memᴰ.head e) =
    rw e (append-eq-nil (interactive_problems registry x x.interactive_aliases) _ h).0
profile_IsServed registry (x ∷ xs) p h (Memᴰ.tail m) =
    profile_IsServed registry xs p
      (append-eq-nil (interactive_problems registry x x.interactive_aliases) _ h).1 m

profile-stored :
    (registry : InferenceRegistry) (name : String) (p : ServerProfile)
    → profile registry name ≡ some p
    → Memᴰ p registry.profiles
unfolding profile
profile-stored registry name p h =
    first-mem (λ (x : ServerProfile). str_eq x.name name) registry.profiles p h

validate-IsServed :
    (registry : InferenceRegistry) (p : ServerProfile) (name : String)
    → validate registry ≡ []
    → Memᴰ p registry.profiles
    → Memᴰ name p.interactive_aliases
    → (a : ModelAlias) × (alias registry name ≡ some a) × IsServed p a
unfolding validate
validate-IsServed registry p name valid stored listed =
    let all = (append-eq-nil (alias_problems registry.priorities registry.aliases) _ valid).1 in
    declared_IsServed p name (alias registry name) (
      interactive_IsServed registry p p.interactive_aliases name
        (profile_IsServed registry registry.profiles p all stored) listed)

admit_known-served :
    (registry : InferenceRegistry) (a : ModelAlias) (p : ServerProfile) (name : String)
    → IsServed p a
    → exists (str_eq name) p.interactive_aliases ≡ true
    → admit_known registry a p name true [] ≡ some (admitted a)
unfolding admit_known
admit_known-served registry a p name served listed =
    rw (served.runs, listed)
      (elim (Bool-cases (has_gpu p)) [
        | inr f ↦ rw f refl
        | inl t ↦
            let room : ltb (usable_vram p) (a.vram + 0) ≡ false = ground (arith, served.fits, t) in
            rw (t, room) refl
      ])

admit-known :
    (registry : InferenceRegistry) (a : ModelAlias) (p : ServerProfile) (name profile_name : String)
    (reachable : Bool) (resident : List String)
    → alias registry name ≡ some a
    → profile registry profile_name ≡ some p
    → admit registry name profile_name reachable resident
      ≡ admit_known registry a p name reachable resident
unfolding admit
admit-known registry a p name profile_name reachable resident e f = rw (e, f) refl

-- Under a registry that passes its check at load, on a profile that it has, with the gateway up and
-- nothing on the GPU: every interactive alias of the profile is one of the registry and is
-- admitted to run at once.
pub admit-validated :
    (registry : InferenceRegistry) (p : ServerProfile) (name profile_name : String)
    → validate registry ≡ []
    → profile registry profile_name ≡ some p
    → Memᴰ name p.interactive_aliases
    → (a : ModelAlias) × (alias registry name ≡ some a)
      × (admit registry name profile_name true [] ≡ some (admitted a))
admit-validated registry p name profile_name valid known listed =
    let (a, found, served) =
      validate-IsServed registry p name valid (profile-stored registry profile_name p known)
        listed in
    (
      a,
      found,
      admit-known registry a p name profile_name true [] found known
          ∙ admit_known-served registry a p name served
              (exists-here name p.interactive_aliases listed),
    )

placement_of-later : (d : Degradation) → placement_of d ≢ interactive
placement_of-later Degradation.night_batch h = cc
placement_of-later Degradation.skip h = cc

degraded-later :
    (a : ModelAlias) (reason : Reason) (supported : Bool) (out : Admission)
    → some (degraded a reason supported) ≡ some out
    → out.placement ≢ interactive
unfolding degraded
degraded-later a reason supported out h k =
    let e : degraded a reason supported ≡ out = cc in
    placement_of-later (if supported then a.when_busy else a.when_unsupported)
      (ap (λ x. Admission.placement x) e ∙ k)

with_room-inv :
    (a : ModelAlias) (p : ServerProfile) (is_resident : Bool) (used : ℕ) (out : Admission)
    → with_room a p is_resident (some used) ≡ some out
    → out.placement ≡ interactive
    → (not is_resident && ltb (usable_vram p) (a.vram + used)) ≡ false
unfolding with_room
with_room-inv a p is_resident used out h k =
    elim (Bool-cases (not is_resident && ltb (usable_vram p) (a.vram + used))) [
      | inl t ↦ absurd (degraded-later a _ true out (rw t at h) k)
      | inr f ↦ f
    ]

admit_known-inv :
    (registry : InferenceRegistry) (a : ModelAlias) (p : ServerProfile) (name : String)
    (reachable : Bool) (resident : List String) (used : ℕ) (out : Admission)
    → has_gpu p ≡ true
    → used_vram resident registry ≡ some used
    → admit_known registry a p name reachable resident ≡ some out
    → out.placement ≡ interactive
    → (not (exists (str_eq name) resident) && ltb (usable_vram p) (a.vram + used)) ≡ false
unfolding admit_known
admit_known-inv registry a p name reachable resident used out gpu u h k =
    elim (Bool-cases (not reachable)) [
      | inl t ↦ absurd (degraded-later a _ true out (rw (gpu, t) at h) k)
      | inr f ↦ elim (Bool-cases (not (exists (str_eq name) p.interactive_aliases))) [
        | inl t ↦ absurd (degraded-later a _ true out (rw (gpu, f, t) at h) k)
        | inr g ↦
            with_room-inv a p (exists (str_eq name) resident) used out (rw (gpu, f, g, u) at h) k
      ]
    ]

-- The aliases on the GPU, once one more is loaded.
abbrev pub load : String → List String → List String
load name resident = if exists (str_eq name) resident then resident else name ∷ resident

-- On a profile with a GPU whose aliases fit: whenever an alias is admitted to run at once, all those
-- on the GPU still fit after it is loaded, within the memory that the profile does not reserve.
pub admit_fits :
    (registry : InferenceRegistry) (a : ModelAlias) (p : ServerProfile) (name profile_name : String)
    (reachable : Bool) (resident : List String) (used : ℕ) (out : Admission)
    → alias registry name ≡ some a
    → profile registry profile_name ≡ some p
    → has_gpu p ≡ true
    → used_vram resident registry ≡ some used
    → used ≤ usable_vram p
    → admit registry name profile_name reachable resident ≡ some out
    → out.placement ≡ interactive
    → (w : ℕ) × (used_vram (load name resident) registry ≡ some w) × (w ≤ usable_vram p)
unfolding used_vram
admit_fits registry a p name profile_name reachable resident used out e f gpu u fits h k =
    let known = sym (admit-known registry a p name profile_name reachable resident e f) ∙ h in
    let room = admit_known-inv registry a p name reachable resident used out gpu u known k in
    elim (Bool-cases (exists (str_eq name) resident)) [
      | inl t ↦ (used, rw t u, fits)
      | inr g ↦ (a.vram + used, rw (g, e, u) refl, ground (arith, room, g))
    ]
