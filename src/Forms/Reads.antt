-- ===== src/Forms/Reads.antt =====
-- What the answers of a form say, apart from the evaluator of backend/app/forms/rules.py: which answer
-- a name has, when it is one, and when it is a constant or has it among its parts. Then the
-- evaluator's own tests against that.
use Prim.Native.String.{String}
use text.Mathlib.Text.{find?}
use campo_sig.Common.{
  ◌*◌, ◌^◌, Bool, true, false, is_some, ◌≡◌, ◌⊎◌, inl, inr, ◌↔◌, refl, sym, ap, ◌∙◌, if◌then◌else◌,
  str_eq, eq_iff, arith, Bool-cases, ==_iff,
}
use campo_sig.Common.Ink.{HasInk, strip_ink}
use campo_sig.Forms.Values.{
  Value, null, flag, number, str, list, obj, Values, nil, cons, Members, empty, member, Decimal,
  get, same_sign, same_number, occurs_in,
}
use campo_sig.Forms.Rules.{is_answered, answer_of, same, any_same, contains}

-- A test that decides what it is about.
abbrev pub Reflects : Bool → Type 0 → Type 0
Reflects b P = ((b ≡ true) × P) ⊎ ((b ≡ false) × ¬ P)

pub reflects_iff : (b : Bool) (P : Type 0) → (b ≡ true) ↔ P → Reflects b P
reflects_iff true P (down, up) = inl (refl, down refl)
reflects_iff false P (down, up) = inr (refl, λ p. cc (up p))

-- The answer of a name: null where there is none.
unfoldable pub read : Members → String → Value
read empty key = null
read (member k v rest) key = let later = read rest key in if str_eq k key then v else later

pub answer_of-read : (answers : Members) (key : String) → answer_of answers key ≡ read answers key
unfolding answer_of get read
answer_of-read empty key = refl
answer_of-read (member k v rest) key = elim (Bool-cases (str_eq k key)) [
  | inl t ↦ rw t refl
  | inr f ↦ rw f (answer_of-read rest key)
]

-- An answer was given: a yes or a no, any number, a text that is more than white space, a list or a
-- mapping with something in it.
abbrev pub Given : Value → Type 0
Given null = ⊥
Given (flag b) = Unit
Given (number n) = Unit
Given (str s) = HasInk s
Given (list nil) = ⊥
Given (list (cons v vs)) = Unit
Given (obj empty) = ⊥
Given (obj (member k v rest)) = Unit

pub is_answered-Given : (v : Value) → Reflects (is_answered v) (Given v)
unfolding is_answered
is_answered-Given null = inr (refl, λ h. h)
is_answered-Given (flag b) = inl (refl, tt)
is_answered-Given (number n) = inl (refl, tt)
is_answered-Given (str s) = reflects_iff _ (HasInk s) (strip_ink s)
is_answered-Given (list nil) = inr (refl, λ h. h)
is_answered-Given (list (cons v vs)) = inl (refl, tt)
is_answered-Given (obj empty) = inr (refl, λ h. h)
is_answered-Given (obj (member k v rest)) = inl (refl, tt)

-- The constants that rules compare with.
pub data Scalar : Type 0 where
  yes_no : Bool → Scalar
  amount : Decimal → Scalar
  word : String → Scalar

-- Two decimals stand for one number: the same digits over the same power of ten, and the same sign
-- unless there are no digits but zeros.
abbrev pub SameAmount : Decimal → Decimal → Type 0
SameAmount a b =
    (a.digits * 10 ^ b.scale ≡ b.digits * 10 ^ a.scale)
    × ((a.digits * 10 ^ b.scale ≡ 0) ⊎ (a.negative ≡ b.negative))

-- A value is a constant, of the constant's own kind: a yes is no 1 and a text is no number.
abbrev pub Is : Scalar → Value → Type 0
Is (yes_no b) v = v ≡ flag b
Is (amount n) v = (m : Decimal) × (v ≡ number m) × SameAmount m n
Is (word s) v = v ≡ str s

-- One of the elements is the constant.
abbrev pub Among : Scalar → Values → Type 0
Among s nil = ⊥
Among s (cons v vs) = Is s v ⊎ Among s vs

-- A list has the constant among its elements; a text has the word somewhere in it.
abbrev pub Has : Scalar → Value → Type 0
Has s (list vs) = Among s vs
Has (word needle) (str text) = is_some (find? text needle) ≡ true
Has _ _ = ⊥

abbrev pub scalar_value : Scalar → Value
scalar_value (yes_no b) = flag b
scalar_value (amount n) = number n
scalar_value (word s) = str s

bools_agree : (a b : Bool) → (a ≡ true → b ≡ true) → (b ≡ true → a ≡ true) → a ≡ b
bools_agree true b down up = sym (down refl)
bools_agree false true down up = up refl
bools_agree false false down up = refl

same_sign_iff : (a b : Bool) → (same_sign a b ≡ true) ↔ (a ≡ b)
same_sign_iff true true = ((λ h. refl), λ e. refl)
same_sign_iff false false = ((λ h. refl), λ e. refl)
same_sign_iff true false = ((λ h. cc), λ e. cc)
same_sign_iff false true = ((λ h. cc), λ e. cc)

SameAmount-sym : (a b : Decimal) → SameAmount a b → SameAmount b a
SameAmount-sym a b (e, inl zero_digits) = (sym e, inl (sym e ∙ zero_digits))
SameAmount-sym a b (e, inr sign) = (sym e, inr (sym sign))

same_number_iff : (a b : Decimal) → (same_number a b ≡ true) ↔ SameAmount a b
unfolding same_number
same_number_iff a b =
    let whole = ==_iff (a.digits * 10 ^ b.scale) (b.digits * 10 ^ a.scale) in
    let zero_left = ==_iff (a.digits * 10 ^ b.scale) 0 in
    let sign = same_sign_iff a.negative b.negative in ((λ h. ground arith), λ h. ground arith)

-- The evaluator's comparison of an answer with a constant.
pub same-Is : (s : Scalar) (v : Value) → Reflects (same v (scalar_value s)) (Is s v)
unfolding same
same-Is (yes_no b) null = inr (refl, λ e. cc)
same-Is (yes_no true) (flag true) = inl (refl, refl)
same-Is (yes_no false) (flag false) = inl (refl, refl)
same-Is (yes_no true) (flag false) = inr (refl, λ e. cc)
same-Is (yes_no false) (flag true) = inr (refl, λ e. cc)
same-Is (yes_no b) (number n) = inr (refl, λ e. cc)
same-Is (yes_no b) (str t) = inr (refl, λ e. cc)
same-Is (yes_no b) (list vs) = inr (refl, λ e. cc)
same-Is (yes_no b) (obj ms) = inr (refl, λ e. cc)
same-Is (amount n) null = inr (refl, λ (m, e, _). cc)
same-Is (amount n) (flag b) = inr (refl, λ (m, e, _). cc)
same-Is (amount n) (number m) =
    reflects_iff _ ((k : Decimal) × (number m ≡ number k) × SameAmount k n) (
      (λ h. (m, refl, (same_number_iff m n).0 h)),
      λ (k, e, same_amount).
          let same_decimal : k ≡ m = cc in (same_number_iff m n).1 (rw same_decimal at same_amount),
    )
same-Is (amount n) (str t) = inr (refl, λ (m, e, _). cc)
same-Is (amount n) (list vs) = inr (refl, λ (m, e, _). cc)
same-Is (amount n) (obj ms) = inr (refl, λ (m, e, _). cc)
same-Is (word s) null = inr (refl, λ e. cc)
same-Is (word s) (flag b) = inr (refl, λ e. cc)
same-Is (word s) (number n) = inr (refl, λ e. cc)
same-Is (word s) (str t) =
    reflects_iff _ (str t ≡ str s)
      ((λ h. ap str ((eq_iff t s).0 h)), λ e. let k : t ≡ s = cc in (eq_iff t s).1 k)
same-Is (word s) (list vs) = inr (refl, λ e. cc)
same-Is (word s) (obj ms) = inr (refl, λ e. cc)

same_sym : (s : Scalar) (v : Value) → same (scalar_value s) v ≡ same v (scalar_value s)
unfolding same
same_sym (yes_no b) null = refl
same_sym (yes_no true) (flag true) = refl
same_sym (yes_no false) (flag false) = refl
same_sym (yes_no true) (flag false) = refl
same_sym (yes_no false) (flag true) = refl
same_sym (yes_no b) (number n) = refl
same_sym (yes_no b) (str t) = refl
same_sym (yes_no b) (list vs) = refl
same_sym (yes_no b) (obj ms) = refl
same_sym (amount n) null = refl
same_sym (amount n) (flag b) = refl
same_sym (amount n) (number m) =
    bools_agree _ _ (λ h. (same_number_iff m n).1 (SameAmount-sym n m ((same_number_iff n m).0 h)))
      (λ h. (same_number_iff n m).1 (SameAmount-sym m n ((same_number_iff m n).0 h)))
same_sym (amount n) (str t) = refl
same_sym (amount n) (list vs) = refl
same_sym (amount n) (obj ms) = refl
same_sym (word s) null = refl
same_sym (word s) (flag b) = refl
same_sym (word s) (number n) = refl
same_sym (word s) (str t) =
    bools_agree _ _ (λ h. (eq_iff t s).1 (sym ((eq_iff s t).0 h)))
      (λ h. (eq_iff s t).1 (sym ((eq_iff t s).0 h)))
same_sym (word s) (list vs) = refl
same_sym (word s) (obj ms) = refl

any_same-Among : (s : Scalar) (vs : Values) → Reflects (any_same (scalar_value s) vs) (Among s vs)
unfolding any_same
any_same-Among s nil = inr (refl, λ h. h)
any_same-Among s (cons v vs) = elim (same-Is s v) [
  | inl (t, is) ↦ inl (rw (same_sym s v, t) refl, inl is)
  | inr (f, is_not) ↦ elim (any_same-Among s vs) [
    | inl (t, among) ↦ inl (rw (same_sym s v, f, t) refl, inr among)
    | inr (g, away) ↦
        inr (rw (same_sym s v, f, g) refl, λ h. elim h [ inl is ↦ is_not is | inr k ↦ away k ])
  ]
]

-- The evaluator's `in` for a constant.
pub contains-Has : (s : Scalar) (v : Value) → Reflects (contains (scalar_value s) v) (Has s v)
unfolding contains occurs_in
contains-Has (yes_no b) null = inr (refl, λ h. h)
contains-Has (yes_no b) (flag c) = inr (refl, λ h. h)
contains-Has (yes_no b) (number n) = inr (refl, λ h. h)
contains-Has (yes_no b) (str t) = inr (refl, λ h. h)
contains-Has (yes_no b) (list vs) = any_same-Among (yes_no b) vs
contains-Has (yes_no b) (obj ms) = inr (refl, λ h. h)
contains-Has (amount n) null = inr (refl, λ h. h)
contains-Has (amount n) (flag c) = inr (refl, λ h. h)
contains-Has (amount n) (number m) = inr (refl, λ h. h)
contains-Has (amount n) (str t) = inr (refl, λ h. h)
contains-Has (amount n) (list vs) = any_same-Among (amount n) vs
contains-Has (amount n) (obj ms) = inr (refl, λ h. h)
contains-Has (word s) null = inr (refl, λ h. h)
contains-Has (word s) (flag c) = inr (refl, λ h. h)
contains-Has (word s) (number m) = inr (refl, λ h. h)
contains-Has (word s) (str t) = reflects_iff _ _ ((λ h. h), λ h. h)
contains-Has (word s) (list vs) = any_same-Among (word s) vs
contains-Has (word s) (obj ms) = inr (refl, λ h. h)
