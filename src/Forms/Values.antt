-- ===== src/Forms/Values.antt =====
-- The JSON values that a rule of backend/app/forms/rules.py and the answers of a form are made of,
-- with the comparisons of Python that the evaluator makes.
use campo_sig.Common.{
  ℕ, ◌+◌, ◌*◌, ◌^◌, String, Bool, true, false, ◌&&◌, ◌||◌, Option, none, some, is_some, ◌==◌,
  if◌then◌else◌, str_eq,
}
use text.Mathlib.Text.{find?}

-- A number as the text of the JSON writes it: its digits, and how many stand behind the point.
pub record Decimal : Type 0 where
  pub negative : Bool
  pub digits : ℕ
  pub scale : ℕ

mutual
  pub data Value : Type 0 where
    null : Value
    flag : Bool → Value
    number : Decimal → Value
    str : String → Value
    list : Values → Value
    obj : Members → Value

  pub data Values : Type 0 where
    nil : Values
    cons : Value → Values → Values

  pub data Members : Type 0 where
    empty : Members
    member : String → Value → Members → Members

-- `mapping.get(key)`, with none where the key is missing.
unfoldable pub get : String → Members → Option Value
get key empty = none
get key (member k v rest) = if str_eq k key then some v else get key rest

abbrev pub value_or_null : Option Value → Value
value_or_null none = null
value_or_null (some v) = v

unfoldable pub size : Members → ℕ
size empty = 0
size (member k v rest) = size rest + 1

abbrev pub same_sign : Bool → Bool → Bool
same_sign true true = true
same_sign false false = true
same_sign true false = false
same_sign false true = false

unfoldable pub same_number : Decimal → Decimal → Bool
same_number a b =
    let left = a.digits * 10 ^ b.scale in
    let right = b.digits * 10 ^ a.scale in
    left == right && (left == 0 || same_sign a.negative b.negative)

-- Python counts a Boolean as 0 or 1.
abbrev pub as_number : Bool → Decimal
as_number b = record { negative = false; digits = if b then 1 else 0; scale = 0 }

-- Python's `==` on the values that JSON decodes to. The keys of a mapping are different.
unfoldable mutual
  unfolding get size same_number

  pub py_eq : Value → Value → Bool
  py_eq null null = true
  py_eq (flag a) (flag b) = same_sign a b
  py_eq (flag a) (number n) = same_number (as_number a) n
  py_eq (number n) (flag b) = same_number n (as_number b)
  py_eq (number n) (number m) = same_number n m
  py_eq (str s) (str t) = str_eq s t
  py_eq (list xs) (list ys) = all_eq xs ys
  py_eq (obj xs) (obj ys) = size xs == size ys && members_eq xs ys
  py_eq _ _ = false

  pub all_eq : Values → Values → Bool
  all_eq nil nil = true
  all_eq (cons x xs) (cons y ys) = py_eq x y && all_eq xs ys
  all_eq _ _ = false

  pub members_eq : Members → Members → Bool
  members_eq empty ys = true
  members_eq (member k v rest) ys =
      is_some (get k ys) && py_eq v (value_or_null (get k ys)) && members_eq rest ys

-- `needle in text`
unfoldable pub occurs_in : String → String → Bool
occurs_in needle s = is_some (find? s needle)
