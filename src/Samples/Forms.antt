-- ===== src/Samples/Forms.antt =====
-- A rule of the permit form, an answer that sets it off, and what is missing then.
use campo_sig.Common.{String, true, some, [], ◌∷◌, map, select, ◌≡◌, refl, ◌>>=◌}
use campo_sig.Forms.Values.{Value, str, list, obj, nil, cons, Members, empty, member}
use campo_sig.Forms.Rules.{evaluate_condition}
use campo_sig.Forms.Reads.{Scalar}
use campo_sig.Forms.Meaning.{
  Condition, Conditions, Holds, encode, Settles, evaluate_condition-encode,
}
use campo_sig.Forms.Requirements.{MissingRequirement, unanswered, missing_requirements}
use campo_sig.Forms.Distinct.{distinct}
use campo_sig.Forms.Missing.{demanded, missing_requirements-distinct}

abbrev print : Value → String
print v = "?"

abbrev answers : Members
answers = member "riesgo" (str "alto") (member "equipo" (str " ") empty)

-- «riesgo» is «alto» and there is no «firma».
abbrev risky : Condition
risky =
    Condition.all (Condition.equals "riesgo" (Scalar.word "alto"))
      (Conditions.also (Condition.missing "firma") Conditions.last)

evaluate_condition-encode_example :
    Settles (evaluate_condition (encode risky) answers) (Holds risky answers)
evaluate_condition-encode_example = evaluate_condition-encode answers risky

risky_holds : evaluate_condition (encode risky) answers ≡ some true
unfolding evaluate_condition encode
risky_holds = refl

abbrev rule : Value
rule = obj (
    member "when" (encode risky) (
      member "require" (list (cons (str "equipo") (cons (str "riesgo") (cons (str "equipo") nil))))
        empty))

missing_requirements-distinct_example :
    (missing_requirements print answers (rule ∷ rule ∷ []) >>= λ found.
    some (map (λ (m : MissingRequirement). m.field) found))
    ≡ (demanded print answers (rule ∷ rule ∷ []) >>= λ ks.
        some (distinct (select (unanswered print answers) ks)))
missing_requirements-distinct_example =
    missing_requirements-distinct print answers (rule ∷ rule ∷ [])
