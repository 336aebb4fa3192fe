-- ===== src/Forms.antt =====
-- backend/app/forms/rules.py: the conditional requirements of the forms. `Values` has the JSON values
-- that rules and answers are made of, `Rules` the evaluator, `Reads` what the answers say, `Meaning` when a
-- condition holds for them, `Requirements` the loop over the rules, `Missing` what the list of missing fields holds.
pub mod Values
pub mod Rules
pub mod Reads
pub mod Meaning
pub mod Requirements
pub mod Distinct
pub mod Missing
