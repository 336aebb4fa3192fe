-- ===== src/Common/Ink.antt =====
-- A text that is more than white space, and `str.strip()` of it.
use Prim.Native.Char.{Char, code}
use Prim.Native.String.{String}
use mathlib.Core.Bool.{true, false, false≢true}
use mathlib.Core.Logic.{◌⊎◌, inl, inr, ◌↔◌}
use mathlib.Core.Path.{◌≡◌, refl, sym, ◌∙◌}
use mathlib.Core.Option.{some}
use campo_sig.Common.Tests.{Bool-cases, truthy}
use text.Mathlib.Text.{◌==◌ as str_eq}
use text.Mathlib.TextEquality.{eq_iff}
use campo_sig.Common.Strip.{is_space, keep_left, lstrip, rstrip, strip}

-- Some character of the text is no white space.
abbrev pub HasInk : String → Type 0
HasInk String.[] = ⊥
HasInk (String.◌∷◌ c s) = (is_space (code c) ≡ false) ⊎ HasInk s

kept_ink :
    (c : Char) (t : String) → HasInk (keep_left c t) ↔ ((is_space (code c) ≡ false) ⊎ HasInk t)
kept_ink c String.[] = elim (Bool-cases (is_space (code c))) [
  | inl t ↦ ((λ h. absurd (rw t at h)), λ h. absurd (blank t h))
  | inr f ↦ ((λ h. inl f), λ h. rw f (inl f))
]
  where
    blank : is_space (code c) ≡ true → (is_space (code c) ≡ false) ⊎ ⊥ → ⊥
    blank t (inl f) = false≢true (sym f ∙ t)
    blank t (inr e) = e
kept_ink c (String.◌∷◌ d s) = ((λ h. h), λ h. h)

rstrip_ink : (s : String) → HasInk (rstrip s) ↔ HasInk s
unfolding rstrip
rstrip_ink String.[] = ((λ h. h), λ h. h)
rstrip_ink (String.◌∷◌ c s) =
    let (down, up) = kept_ink c (rstrip s) in
    let (left, right) = rstrip_ink s in
    (
      (λ h. elim (down h) [ inl f ↦ inl f | inr k ↦ inr (left k) ]),
      λ h. up (elim h [ inl f ↦ inl f | inr k ↦ inr (right k) ]),
    )

not_empty : (c : Char) (s : String) → str_eq (String.◌∷◌ c s) "" ≡ false
not_empty c s = elim (Bool-cases (str_eq (String.◌∷◌ c s) "")) [
  | inl t ↦ let e : String.◌∷◌ c s ≡ "" = (eq_iff (String.◌∷◌ c s) "").0 t in absurd (cc)
  | inr f ↦ f
]

lstrip_ink : (s : String) → (truthy (some (lstrip s)) ≡ true) ↔ HasInk s
unfolding lstrip truthy
lstrip_ink String.[] = ((λ h. cc), λ h. absurd h)
lstrip_ink (String.◌∷◌ c s) =
    let (left, right) = lstrip_ink s in
    elim (Bool-cases (is_space (code c))) [
      | inl t ↦ rw t ((λ h. inr (left h)), λ h. elim h [ inl f ↦ absurd (cc) | inr k ↦ right k ])
      | inr f ↦ rw (f, not_empty c s) ((λ h. inl refl), λ h. refl)
    ]

pub strip_ink : (s : String) → (truthy (some (strip s)) ≡ true) ↔ HasInk s
unfolding strip
strip_ink s =
    let (left, right) = lstrip_ink (rstrip s) in
    let (down, up) = rstrip_ink s in ((λ h. down (left h)), λ h. right (up h))
