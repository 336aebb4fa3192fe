-- ===== src/Forms/Distinct.antt =====
-- The keys that a pass over demands collects: each once, where it is demanded first and not answered.
use campo_sig.Common.{
  String, Bool, true, not, ◌||◌, ◌≡◌, refl, sym, ap, ◌∙◌, arith, Bool-cases, inl, inr, List, [],
  ◌∷◌, ◌++◌, append_assoc, append-nil, if◌then◌else◌, str_eq, eq_iff, exists, select,
}
use campo_sig.Forms.Values.{Value, Members}
use campo_sig.Forms.Rules.{is_answered, answer_of}
use campo_sig.Forms.Requirements.{unanswered}

-- The first occurrence of each text.
unfoldable pub distinct : List String → List String
unfolding select
distinct [] = []
distinct (k ∷ ks) = k ∷ select (λ j. not (str_eq j k)) (distinct ks)

abbrev pub unseen : List String → String → Bool
unseen seen k = not (exists (str_eq k) seen)

abbrev pub other_than : String → String → Bool
other_than k j = not (str_eq j k)

exists-append_one :
    (j k : String) (seen : List String)
    → exists (str_eq j) (seen ++ k ∷ []) ≡ (exists (str_eq j) seen || str_eq j k)
unfolding exists
exists-append_one j k [] = ground arith
exists-append_one j k (s ∷ seen) = ground (arith, exists-append_one j k seen)

-- What is not in the longer list is in neither part of it.
select-unseen :
    (k : String) (seen xs : List String)
    → select (unseen (seen ++ k ∷ [])) xs ≡ select (unseen seen) (select (other_than k) xs)
unfolding select
select-unseen k seen [] = refl
select-unseen k seen (x ∷ xs) = ground (arith, exists-append_one x k seen, select-unseen k seen xs)

exists-found :
    (k j : String) (seen : List String)
    → str_eq j k ≡ true
    → exists (str_eq k) seen ≡ true
    → exists (str_eq j) seen ≡ true
exists-found k j seen same h = let e = (eq_iff j k).0 same in rw e h

select-seen :
    (k : String) (seen xs : List String)
    → exists (str_eq k) seen ≡ true
    → select (unseen seen) (select (other_than k) xs) ≡ select (unseen seen) xs
unfolding select
select-seen k seen [] h = refl
select-seen k seen (x ∷ xs) h = ground (arith, exists-found k x seen, select-seen k seen xs h)

module _ (print : Value → String) (answers : Members) where
  unfoldable pub grow : List String → String → List String
  unfolding is_answered answer_of exists
  grow seen k =
      if exists (str_eq k) seen || is_answered (answer_of answers k) then seen else seen ++ k ∷ []

  unfoldable pub gather : List String → List String → List String
  unfolding grow
  gather seen [] = seen
  gather seen (k ∷ ks) = gather (grow seen k) ks

  pub gather-append :
      (seen ks js : List String) → gather seen (ks ++ js) ≡ gather (gather seen ks) js
  unfolding gather
  gather-append seen [] js = refl
  gather-append seen (k ∷ ks) js = gather-append (grow seen k) ks js

  pub gather-distinct :
      (seen ks : List String)
      → gather seen ks
        ≡ seen ++ select (unseen seen) (distinct (select (unanswered print answers) ks))
  unfolding gather select distinct grow
  gather-distinct seen [] = sym (append-nil seen)
  gather-distinct seen (k ∷ ks) =
      let later = distinct (select (unanswered print answers) ks) in
      elim (Bool-cases (exists (str_eq k) seen)) [
        | inl known ↦ elim (Bool-cases (is_answered (answer_of answers k))) [
          | inl answered ↦ rw (known, answered) (gather-distinct seen ks)
          | inr blank ↦
              rw (known, blank, known, select-seen k seen later known) (gather-distinct seen ks)
        ]
        | inr new ↦ elim (Bool-cases (is_answered (answer_of answers k))) [
          | inl answered ↦ rw (new, answered) (gather-distinct seen ks)
          | inr blank ↦
              rw (new, blank, new)
                (gather-distinct (seen ++ k ∷ []) ks
                  ∙ (ap (λ xs. (seen ++ k ∷ []) ++ xs) (select-unseen k seen later)
                      ∙ append_assoc seen (k ∷ [])
                          (select (unseen seen) (select (other_than k) later))))
        ]
      ]
