-- ===== src/Forms/Requirements.antt =====
-- `missing_requirements` of backend/app/forms/rules.py. `print` is Python's `str` on the values that
-- are not texts.
use campo_sig.Common.{
  String, Bool, true, false, not, ◌||◌, Option, none, some, List, [], ◌∷◌, ◌++◌, ◌==◌,
  if◌then◌else◌, str_eq, exists, ◌>>=◌,
}
use campo_sig.Forms.Values.{
  Value, null, flag, number, str, list, obj, Values, nil, cons, Members, empty, member,
}
use campo_sig.Forms.Rules.{is_answered, answer_of, evaluate_condition, under}

pub record MissingRequirement : Type 0 where
  pub field : String
  pub message : Option String

-- Python's truth of a value.
unfoldable pub is_true : Value → Bool
is_true null = false
is_true (flag b) = b
is_true (number n) = not (n.digits == 0)
is_true (str s) = not (str_eq s "")
is_true (list nil) = false
is_true (list (cons v vs)) = true
is_true (obj empty) = false
is_true (obj (member k v rest)) = true

-- The fields that a rule demands: anything but a list that is not empty demands none.
unfoldable pub required : Value → Values
required (list vs) = vs
required _ = nil

-- The fields that were seen, and what was found of them.
pub record Findings : Type 0 where
  pub seen : List String
  pub found : List MissingRequirement

module _ (print : Value → String) where
  unfoldable pub text_of : Value → String
  text_of (str s) = s
  text_of v = print v

  unfoldable pub message_of : Value → Option String
  unfolding text_of is_true
  message_of v = if is_true v then some (text_of v) else none

  module _ (answers : Members) where
    abbrev pub unanswered : String → Bool
    unanswered key = not (is_answered (answer_of answers key))

    unfoldable pub demand_one : Option String → String → Findings → Findings
    unfolding is_answered answer_of exists
    demand_one message key state =
        if exists (str_eq key) state.seen || is_answered (answer_of answers key)
        then state
        else record {
          seen = state.seen ++ key ∷ [];
          found = state.found ++ record { field = key; message = message } ∷ [];
        }

    unfoldable pub demand : Option String → Values → Findings → Findings
    unfolding demand_one text_of
    demand message nil state = state
    demand message (cons v vs) state = demand message vs (demand_one message (text_of v) state)

    unfoldable pub apply_holding : Members → Option Bool → Findings → Option Findings
    unfolding demand required message_of under
    apply_holding rule none state = none
    apply_holding rule (some false) state = some state
    apply_holding rule (some true) state =
        some (demand (message_of (under "message" rule)) (required (under "require" rule)) state)

    -- A rule that demands nothing is passed by before its condition is looked at.
    unfoldable pub apply_required : Members → Values → Findings → Option Findings
    unfolding apply_holding under evaluate_condition
    apply_required rule nil state = some state
    apply_required rule (cons v vs) state =
        apply_holding rule (evaluate_condition (under "when" rule) answers) state

    unfoldable pub apply_rule : Value → Findings → Option Findings
    unfolding apply_required required under
    apply_rule (obj rule) state = apply_required rule (required (under "require" rule)) state
    apply_rule _ state = some state

    unfoldable pub apply_rules : List Value → Findings → Option Findings
    unfolding apply_rule
    apply_rules [] state = some state
    apply_rules (rule ∷ rules) state = do next ← apply_rule rule state; apply_rules rules next

    abbrev pub found_of : Option Findings → Option (List MissingRequirement)
    found_of none = none
    found_of (some state) = some state.found

    unfoldable pub missing_requirements : List Value → Option (List MissingRequirement)
    unfolding apply_rules
    missing_requirements rules = found_of (apply_rules rules record { seen = []; found = [] })
