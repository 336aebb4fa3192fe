-- ===== src/Forms/Meaning.antt =====
-- What a condition means, as a language of its own, and its JSON for backend/app/forms/rules.py.
use campo_sig.Common.{String, Bool, true, false, not, some, Option, ◌≡◌, refl, ◌⊎◌, inl, inr}
use campo_sig.Forms.Values.{
  Value, null, flag, number, str, list, obj, Values, nil, cons, Members, empty, member,
}
use campo_sig.Forms.Rules.{
  is_answered, any_same, contains, resolve, evaluate_condition, all_of, any_of, all_from, any_from,
}
use campo_sig.Forms.Reads.{
  Reflects, read, answer_of-read, Given, is_answered-Given, Scalar, yes_no, amount, word, Is, Has,
  scalar_value, same-Is, contains-Has,
}

pub data Scalars : Type 0 where
  none_of : Scalars
  or_scalar : Scalar → Scalars → Scalars

-- Conditions on the answers of a form, which have names.
mutual
  pub data Condition : Type 0 where
    equals unequal : String → Scalar → Condition
    one_of : String → Scalars → Condition
    has : Scalar → String → Condition
    given missing : String → Condition
    all any : Condition → Conditions → Condition

  pub data Conditions : Type 0 where
    last : Conditions
    also : Condition → Conditions → Conditions

abbrev pub OneOf : Scalars → Value → Type 0
OneOf none_of v = ⊥
OneOf (or_scalar s rest) v = Is s v ⊎ OneOf rest v

-- When a condition holds for the answers.
unfoldable mutual
  unfolding read

  pub Holds : Condition → Members → Type 0
  Holds (equals key s) answers = Is s (read answers key)
  Holds (unequal key s) answers = ¬ Is s (read answers key)
  Holds (one_of key options) answers = OneOf options (read answers key)
  Holds (has s key) answers = Has s (read answers key)
  Holds (given key) answers = Given (read answers key)
  Holds (missing key) answers = ¬ Given (read answers key)
  Holds (all c cs) answers = Holds c answers × AllHold cs answers
  Holds (any c cs) answers = Holds c answers ⊎ AnyHolds cs answers

  pub AllHold : Conditions → Members → Type 0
  AllHold last answers = Unit
  AllHold (also c cs) answers = Holds c answers × AllHold cs answers

  pub AnyHolds : Conditions → Members → Type 0
  AnyHolds last answers = ⊥
  AnyHolds (also c cs) answers = Holds c answers ⊎ AnyHolds cs answers

abbrev pub scalar_values : Scalars → Values
scalar_values none_of = nil
scalar_values (or_scalar s rest) = cons (scalar_value s) (scalar_values rest)

abbrev pub var : String → Value
var key = obj (member "var" (str key) empty)

abbrev pub operator : String → Value → Value
operator name v = obj (member name v empty)

abbrev pub two : Value → Value → Value
two a b = list (cons a (cons b nil))

-- The JSON of a condition, as the blocks of the forms write it.
unfoldable mutual
  pub encode : Condition → Value
  encode (equals key s) = operator "==" (two (var key) (scalar_value s))
  encode (unequal key s) = operator "!=" (two (var key) (scalar_value s))
  encode (one_of key options) = operator "in" (two (var key) (list (scalar_values options)))
  encode (has s key) = operator "in" (two (scalar_value s) (var key))
  encode (given key) = operator "!!" (var key)
  encode (missing key) = operator "!" (var key)
  encode (all c cs) = operator "and" (list (cons (encode c) (encode_all cs)))
  encode (any c cs) = operator "or" (list (cons (encode c) (encode_all cs)))

  pub encode_all : Conditions → Values
  encode_all last = nil
  encode_all (also c cs) = cons (encode c) (encode_all cs)

-- The evaluator answers yes, and the condition holds, or it answers no, and it does not hold.
abbrev pub Settles : Option Bool → Type 0 → Type 0
Settles answer P = ((answer ≡ some true) × P) ⊎ ((answer ≡ some false) × ¬ P)

settled : (b : Bool) (P : Type 0) → Reflects b P → Settles (some b) P
settled b P (inl (t, p)) = inl (rw t refl, p)
settled b P (inr (f, p)) = inr (rw f refl, p)

settled_not : (b : Bool) (P : Type 0) → Reflects b P → Settles (some (not b)) (¬ P)
settled_not b P (inl (t, p)) = inr (rw t refl, λ away. away p)
settled_not b P (inr (f, p)) = inl (rw f refl, p)

settled_both :
    (a b : Option Bool) (P Q : Type 0) → Settles a P → Settles b Q → Settles (all_from a b) (P × Q)
settled_both a b P Q (inl (t, p)) (inl (u, q)) = inl (rw (t, u) refl, (p, q))
settled_both a b P Q (inl (t, p)) (inr (g, q)) = inr (rw (t, g) refl, λ h. q h.1)
settled_both a b P Q (inr (f, p)) _ = inr (rw f refl, λ h. p h.0)

settled_either :
    (a b : Option Bool) (P Q : Type 0) → Settles a P → Settles b Q → Settles (any_from a b) (P ⊎ Q)
settled_either a b P Q (inl (t, p)) _ = inl (rw t refl, inl p)
settled_either a b P Q (inr (f, p)) (inl (u, q)) = inl (rw (f, u) refl, inr q)
settled_either a b P Q (inr (f, p)) (inr (g, q)) =
    inr (rw (f, g) refl, λ h. elim h [ inl x ↦ p x | inr y ↦ q y ])

contains_list : (v : Value) (vs : Values) → contains v (list vs) ≡ any_same v vs
unfolding contains
contains_list null vs = refl
contains_list (flag b) vs = refl
contains_list (number n) vs = refl
contains_list (str s) vs = refl
contains_list (list ws) vs = refl
contains_list (obj ms) vs = refl

any_same-OneOf :
    (options : Scalars) (v : Value)
    → Reflects (any_same v (scalar_values options)) (OneOf options v)
unfolding any_same
any_same-OneOf none_of v = inr (refl, λ h. h)
any_same-OneOf (or_scalar s rest) v = elim (same-Is s v) [
  | inl (t, is) ↦ inl (rw t refl, inl is)
  | inr (f, is_not) ↦ elim (any_same-OneOf rest v) [
    | inl (t, one) ↦ inl (rw (f, t) refl, inr one)
    | inr (g, away) ↦ inr (rw (f, g) refl, λ h. elim h [ inl is ↦ is_not is | inr k ↦ away k ])
  ]
]

options-OneOf :
    (options : Scalars) (v : Value)
    → Reflects (contains v (list (scalar_values options))) (OneOf options v)
options-OneOf options v = rw (contains_list v (scalar_values options)) (any_same-OneOf options v)

module _ (answers : Members) where
  resolve_scalar : (s : Scalar) → resolve (scalar_value s) answers ≡ some (scalar_value s)
  unfolding resolve
  resolve_scalar (yes_no b) = refl
  resolve_scalar (amount n) = refl
  resolve_scalar (word s) = refl

  mutual
    unfolding evaluate_condition encode Holds resolve is_answered

    encoded : (c : Condition) → Settles (evaluate_condition (encode c) answers) (Holds c answers)
    encoded (equals key s) =
        rw (resolve_scalar s, answer_of-read answers key)
          (settled _ _ (same-Is s (read answers key)))
    encoded (unequal key s) =
        rw (resolve_scalar s, answer_of-read answers key)
          (settled_not _ _ (same-Is s (read answers key)))
    encoded (one_of key options) =
        rw (answer_of-read answers key) (settled _ _ (options-OneOf options (read answers key)))
    encoded (has s key) =
        rw (resolve_scalar s, answer_of-read answers key)
          (settled _ _ (contains-Has s (read answers key)))
    encoded (given key) =
        rw (answer_of-read answers key) (settled _ _ (is_answered-Given (read answers key)))
    encoded (missing key) =
        rw (answer_of-read answers key) (settled_not _ _ (is_answered-Given (read answers key)))
    encoded (all c cs) = settled_both _ _ _ _ (encoded c) (all_encoded cs)
    encoded (any c cs) = settled_either _ _ _ _ (encoded c) (any_encoded cs)

    all_encoded : (cs : Conditions) → Settles (all_of (encode_all cs) answers) (AllHold cs answers)
    all_encoded last = inl (refl, tt)
    all_encoded (also c cs) = settled_both _ _ _ _ (encoded c) (all_encoded cs)

    any_encoded : (cs : Conditions) → Settles (any_of (encode_all cs) answers) (AnyHolds cs answers)
    any_encoded last = inr (refl, λ h. h)
    any_encoded (also c cs) = settled_either _ _ _ _ (encoded c) (any_encoded cs)

  -- A condition on answers, of comparisons with constants, `in`, tests for an answer, «and» and «or»
  -- at any depth: the evaluator returns true for its JSON exactly if the condition holds and false if
  -- it does not, and raises nothing.
  pub evaluate_condition-encode :
      (c : Condition) → Settles (evaluate_condition (encode c) answers) (Holds c answers)
  evaluate_condition-encode c = encoded c
