-- ===== src/Forms/Rules.antt =====
-- The evaluator of backend/app/forms/rules.py. `none` is the `TypeError` that Python raises where a
-- mapping is asked for a key that is a list or a mapping.
use campo_sig.Common.{
  String, Bool, true, false, not, ◌||◌, Option, none, some, if◌then◌else◌, str_eq, truthy, is_some,
}
use campo_sig.Common.Strip.{strip}
use campo_sig.Forms.Values.{
  Value, null, flag, number, str, list, obj, Values, nil, cons, Members, empty, member, get,
  value_or_null, py_eq, occurs_in,
}

unfoldable pub is_answered : Value → Bool
unfolding strip
is_answered null = false
is_answered (flag b) = true
is_answered (number n) = true
is_answered (str s) = truthy (some (strip s))
is_answered (list nil) = false
is_answered (list (cons v vs)) = true
is_answered (obj empty) = false
is_answered (obj (member k v rest)) = true

-- `answers.get(key)`
unfoldable pub answer_of : Members → String → Value
unfolding get
answer_of answers key = value_or_null (get key answers)

-- `answers.get(key)` at any key: the keys of the answers are texts.
unfoldable pub answer_at : Members → Value → Option Value
unfolding answer_of
answer_at answers (str key) = some (answer_of answers key)
answer_at answers (list vs) = none
answer_at answers (obj ms) = none
answer_at answers _ = some null

unfoldable pub resolve_as : Members → Value → Option Value → Option Value
unfolding answer_at
resolve_as answers token none = some token
resolve_as answers token (some key) = answer_at answers key

unfoldable pub resolve : Value → Members → Option Value
unfolding get resolve_as
resolve (obj ms) answers = resolve_as answers (obj ms) (get "var" ms)
resolve token answers = some token

-- `_same`
unfoldable pub same : Value → Value → Bool
unfolding py_eq
same (flag a) (flag b) = py_eq (flag a) (flag b)
same (flag a) _ = false
same _ (flag b) = false
same a b = py_eq a b

abbrev pub both : (Value → Value → Bool) → Option Value → Option Value → Option Bool
both test (some a) (some b) = some (test a b)
both test _ _ = none

-- A sequence of two operands: a list of two, or a text of two characters.
unfoldable pub operands : Value → Option (Value × Value)
operands (list (cons a (cons b nil))) = some (a, b)
operands (str (String.◌∷◌ c (String.◌∷◌ d String.[]))) =
    some (str (String.◌∷◌ c String.[]), str (String.◌∷◌ d String.[]))
operands _ = none

unfoldable pub any_same : Value → Values → Bool
unfolding same
any_same needle nil = false
any_same needle (cons v vs) = same needle v || any_same needle vs

-- The test of `in`.
unfoldable pub contains : Value → Value → Bool
unfolding any_same occurs_in
contains (str needle) (str s) = occurs_in needle s
contains needle (list vs) = any_same needle vs
contains _ _ = false

unfoldable pub compare : (Value → Value → Bool) → Members → Option (Value × Value) → Option Bool
unfolding resolve
compare test answers none = some false
compare test answers (some (a, b)) = both test (resolve a answers) (resolve b answers)

unfoldable pub negated : Option Bool → Option Bool
negated none = none
negated (some b) = some (not b)

unfoldable pub answered : Option Value → Option Bool
unfolding is_answered
answered none = none
answered (some v) = some (is_answered v)

abbrev pub differs : Value → Value → Bool
differs a b = not (same a b)

-- `all` and `any` stop at the first part that decides.
abbrev pub all_from : Option Bool → Option Bool → Option Bool
all_from none rest = none
all_from (some true) rest = rest
all_from (some false) rest = some false

abbrev pub any_from : Option Bool → Option Bool → Option Bool
any_from none rest = none
any_from (some true) rest = some true
any_from (some false) rest = rest

unfoldable pub under : String → Members → Value
unfolding get
under key ms = value_or_null (get key ms)

abbrev pub has : String → Members → Bool
has key ms = is_some (get key ms)

-- The first operator that the condition has, in the order of the code. A condition is evaluated
-- where it stands below its key: `all_under` and `any_under` look for the key. A text as the parts
-- of `and` and `or` has characters for parts, none of which is a condition that holds.
unfoldable mutual
  unfolding get under operands compare contains negated answered resolve same

  pub evaluate_condition : Value → Members → Option Bool
  evaluate_condition (obj ms) answers =
      let all = all_under ms answers in
      let any = any_under ms answers in
      if has "==" ms
      then compare same answers (operands (under "==" ms))
      else if has "!=" ms
      then compare differs answers (operands (under "!=" ms))
      else if has "in" ms
      then compare contains answers (operands (under "in" ms))
      else if has "!!" ms
      then answered (resolve (under "!!" ms) answers)
      else if has "!" ms
      then negated (answered (resolve (under "!" ms) answers))
      else if has "and" ms
      then all
      else if has "or" ms
      then any
      else some false
  evaluate_condition _ answers = some false

  pub all_under : Members → Members → Option Bool
  all_under empty answers = some false
  all_under (member k v rest) answers =
      let found = all_parts v answers in
      let later = all_under rest answers in if str_eq k "and" then found else later

  pub any_under : Members → Members → Option Bool
  any_under empty answers = some false
  any_under (member k v rest) answers =
      let found = any_parts v answers in
      let later = any_under rest answers in if str_eq k "or" then found else later

  pub all_parts : Value → Members → Option Bool
  all_parts (list nil) answers = some false
  all_parts (list (cons v vs)) answers = all_of (cons v vs) answers
  all_parts _ answers = some false

  pub any_parts : Value → Members → Option Bool
  any_parts (list vs) answers = any_of vs answers
  any_parts _ answers = some false

  pub all_of : Values → Members → Option Bool
  all_of nil answers = some true
  all_of (cons v vs) answers = all_from (evaluate_condition v answers) (all_of vs answers)

  pub any_of : Values → Members → Option Bool
  any_of nil answers = some false
  any_of (cons v vs) answers = any_from (evaluate_condition v answers) (any_of vs answers)
