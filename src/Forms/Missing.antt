-- ===== src/Forms/Missing.antt =====
-- Which fields `missing_requirements` of backend/app/forms/rules.py lists, and in which order.
use campo_sig.Common.{
  String, Bool, true, false, ◌||◌, ◌≡◌, refl, sym, ap, ◌∙◌, Bool-cases, inl, inr, Option, none,
  some, List, [], ◌∷◌, ◌++◌, map, ◌>>=◌, str_eq, exists, select,
}
use campo_sig.Forms.Values.{Value, null, flag, number, str, list, obj, Values, nil, cons, Members}
use campo_sig.Forms.Rules.{is_answered, answer_of, evaluate_condition, under}
use campo_sig.Forms.Distinct.{distinct, unseen, grow, gather, gather-append, gather-distinct}
use campo_sig.Forms.Requirements.{
  MissingRequirement, required, Findings, text_of, message_of, unanswered, demand_one, demand,
  apply_holding, apply_required, apply_rule, apply_rules, found_of, missing_requirements,
}

module _ (print : Value → String) where
  abbrev pub keys_of : Values → List String
  unfolding text_of
  keys_of nil = []
  keys_of (cons v vs) = text_of print v ∷ keys_of vs

  module _ (answers : Members) where
    abbrev pub if_holds : Members → Option Bool → Option (List String)
    unfolding required under keys_of
    if_holds rule none = none
    if_holds rule (some false) = some []
    if_holds rule (some true) = some (keys_of (required (under "require" rule)))

    abbrev pub if_required : Members → Values → Option (List String)
    if_required rule nil = some []
    if_required rule (cons v vs) = if_holds rule (evaluate_condition (under "when" rule) answers)

    abbrev pub demanded_by : Value → Option (List String)
    demanded_by (obj rule) = if_required rule (required (under "require" rule))
    demanded_by _ = some []

    -- What the rules demand, one after the other, whether answered or not.
    unfoldable pub demanded : List Value → Option (List String)
    demanded [] = some []
    demanded (rule ∷ rules) = do ks ← demanded_by rule; rest ← demanded rules; some (ks ++ rest)

module _ (print : Value → String) (answers : Members) where
  abbrev field_of : MissingRequirement → String
  field_of m = m.field

  -- What was found is what was seen.
  abbrev Consistent : Findings → Type 0
  Consistent state = map field_of state.found ≡ state.seen

  map-append_one :
      (ms : List MissingRequirement) (m : MissingRequirement)
      → map field_of (ms ++ m ∷ []) ≡ map field_of ms ++ m.field ∷ []
  map-append_one [] m = refl
  map-append_one (x ∷ ms) m = ap (λ ks. x.field ∷ ks) (map-append_one ms m)

  demand_one-grow :
      (message : Option String) (k : String) (state : Findings)
      → Consistent state
      → ((demand_one print answers message k state).seen ≡ grow print answers state.seen k)
        × Consistent (demand_one print answers message k state)
  unfolding demand_one grow
  demand_one-grow message k state h =
      elim (Bool-cases (exists (str_eq k) state.seen || is_answered (answer_of answers k))) [
        | inl passed ↦ rw passed (refl, h)
        | inr new ↦ rw new (refl, map-append_one state.found _ ∙ ap (λ ks. ks ++ k ∷ []) h)
      ]

  demand-gather :
      (message : Option String) (vs : Values) (state : Findings)
      → Consistent state
      → ((demand print answers message vs state).seen
          ≡ gather print answers state.seen (keys_of print vs))
        × Consistent (demand print answers message vs state)
  unfolding demand keys_of gather
  demand-gather message nil state h = (refl, h)
  demand-gather message (cons v vs) state h =
      let next = demand_one print answers message (text_of print v) state in
      let (grown, good) = demand_one-grow message (text_of print v) state h in
      let (rest, still) = demand-gather message vs next good in
      (rest ∙ ap (λ seen. gather print answers seen (keys_of print vs)) grown, still)

  -- The code and the demands agree: both raise, or the fields seen are those gathered.
  data Agrees (seen : List String) : Option (List String) → Option Findings → Type 0 where
    raised : Agrees seen none none
    gathered :
        {ks : List String} {state : Findings}
        → state.seen ≡ gather print answers seen ks
        → Consistent state
        → Agrees seen (some ks) (some state)

  apply_holding-Agrees :
      (rule : Members) (holds : Option Bool) (state : Findings)
      → Consistent state
      → Agrees state.seen
          (if_holds print answers rule holds)
          (apply_holding print answers rule holds state)
  unfolding apply_holding if_holds gather
  apply_holding-Agrees rule none state h = Agrees.raised
  apply_holding-Agrees rule (some false) state h = Agrees.gathered refl h
  apply_holding-Agrees rule (some true) state h =
      let (seen, good) =
        demand-gather (message_of print (under "message" rule)) (required (under "require" rule))
          state h in
      Agrees.gathered seen good

  apply_required-Agrees :
      (rule : Members) (vs : Values) (state : Findings)
      → Consistent state
      → Agrees state.seen
          (if_required print answers rule vs)
          (apply_required print answers rule vs state)
  unfolding apply_required gather
  apply_required-Agrees rule nil state h = Agrees.gathered refl h
  apply_required-Agrees rule (cons v vs) state h =
      apply_holding-Agrees rule (evaluate_condition (under "when" rule) answers) state h

  apply_rule-Agrees :
      (rule : Value) (state : Findings)
      → Consistent state
      → Agrees state.seen (demanded_by print answers rule) (apply_rule print answers rule state)
  unfolding apply_rule gather
  apply_rule-Agrees (obj rule) state h =
      apply_required-Agrees rule (required (under "require" rule)) state h
  apply_rule-Agrees null state h = Agrees.gathered refl h
  apply_rule-Agrees (flag b) state h = Agrees.gathered refl h
  apply_rule-Agrees (number n) state h = Agrees.gathered refl h
  apply_rule-Agrees (str s) state h = Agrees.gathered refl h
  apply_rule-Agrees (list vs) state h = Agrees.gathered refl h

  Agrees-append :
      (seen middle ks : List String) (rest : Option (List String)) (out : Option Findings)
      → middle ≡ gather print answers seen ks
      → Agrees middle rest out
      → Agrees seen (rest >>= λ js. some (ks ++ js)) out
  Agrees-append seen middle ks rest out e Agrees.raised = Agrees.raised
  Agrees-append seen middle ks rest out e (Agrees.gathered {ks = js} h good) =
      Agrees.gathered
        (h ∙ (ap (λ m. gather print answers m js) e ∙ sym (gather-append print answers seen ks js)))
        good

  Agrees-bind :
      (seen : List String) (ks rest : Option (List String)) (out : Option Findings)
      (go : Findings → Option Findings)
      → Agrees seen ks out
      → ((state : Findings) → Consistent state → Agrees state.seen rest (go state))
      → Agrees seen (ks >>= λ k. rest >>= λ js. some (k ++ js)) (out >>= go)
  Agrees-bind seen ks rest out go Agrees.raised later = Agrees.raised
  Agrees-bind seen ks rest out go (Agrees.gathered {ks = first} {state = state} e good) later =
      Agrees-append seen state.seen first rest (go state) e (later state good)

  apply_rules-Agrees :
      (rules : List Value) (state : Findings)
      → Consistent state
      → Agrees state.seen (demanded print answers rules) (apply_rules print answers rules state)
  unfolding apply_rules demanded gather
  apply_rules-Agrees [] state h = Agrees.gathered refl h
  apply_rules-Agrees (rule ∷ rules) state h =
      Agrees-bind state.seen (demanded_by print answers rule) (demanded print answers rules)
        (apply_rule print answers rule state) (apply_rules print answers rules)
        (apply_rule-Agrees rule state h) (apply_rules-Agrees rules)

  select_all : (xs : List String) → select (unseen []) xs ≡ xs
  unfolding select exists
  select_all [] = refl
  select_all (x ∷ xs) = ap (λ ys. x ∷ ys) (select_all xs)

  Agrees-fields :
      (ks : Option (List String)) (out : Option Findings)
      → Agrees [] ks out
      → (found_of print answers out >>= λ found. some (map field_of found))
        ≡ (ks >>= λ k. some (distinct (select (unanswered print answers) k)))
  Agrees-fields ks out Agrees.raised = refl
  Agrees-fields ks out (Agrees.gathered {ks = js} e good) = ap some (
      good
      ∙ (e
          ∙ (gather-distinct print answers [] js
              ∙ select_all (distinct (select (unanswered print answers) js)))))

  -- The fields that are listed are what the rules demand, in the order of the rules, without those
  -- that are answered and without repetition. The list raises exactly if one of the conditions that
  -- are looked at does.
  pub missing_requirements-distinct :
      (rules : List Value)
      → (missing_requirements print answers rules >>= λ found.
          some (map (λ (m : MissingRequirement). m.field) found))
        ≡ (demanded print answers rules >>= λ ks.
            some (distinct (select (unanswered print answers) ks)))
  unfolding missing_requirements
  missing_requirements-distinct rules =
      Agrees-fields (demanded print answers rules)
        (apply_rules print answers rules record { seen = []; found = [] })
        (apply_rules-Agrees rules record { seen = []; found = [] } refl)
