-- ===== src/Contracts/Criteria.antt =====
-- `criterion_errors` of ge_runtime/contracts.py, and the evaluation of admitted criteria.
use hermes_graph_engineering.Base.{
  ℕ, String, ◌≡◌, ◌≢◌, refl, Bool, true, false, not, Option, none, some, List, [], ◌∷◌, ◌++◌, arith,
  lookup, keys, keep, contains, sorted, Bool-cases, inl, inr, ◌==◌, string_eq, if◌then◌else◌,
}
use hermes_graph_engineering.Base.Int.{pos, leb_ℤ}
use hermes_graph_engineering.Values.{Value, null, int, str, arr, obj}
use hermes_graph_engineering.Contracts.{
  entries, missing, Outputs, Regex, value_type_of, is_number, compile_pattern, Check, non_empty,
  is_true, is_false, equals, not_equals, matches, min_length, max_length, min_value, max_value,
  type_check, in_list, unknown, Criterion, Detail, raised, Verdict, expected, at_least, at_most,
  value_le, iterate, try_check, judge, evaluate_criterion,
}

pub data CriterionError : Type 0 where
  unknown_fields : List String → CriterionError
  undeclared_output : Value → CriterionError
  unknown_check : Value → CriterionError
  missing_value takes_no_value bad_pattern bad_length not_number bad_type not_list not_mapping :
      CriterionError

abbrev error_if : Bool → CriterionError → List CriterionError
error_if true e = e ∷ []
error_if false e = []

-- CRITERION_CHECKS: the check's name, and whether it needs a value.
abbrev pub check_of : String → Option Check
check_of name =
    if name == "non_empty"
    then some non_empty
    else if name == "true"
    then some is_true
    else if name == "false"
    then some is_false
    else if name == "equals"
    then some equals
    else if name == "not_equals"
    then some not_equals
    else if name == "matches"
    then some matches
    else if name == "min_length"
    then some min_length
    else if name == "max_length"
    then some max_length
    else if name == "min"
    then some min_value
    else if name == "max"
    then some max_value
    else if name == "type"
    then some type_check
    else if name == "in"
    then some in_list
    else none

abbrev needs_value : Check → Bool
needs_value non_empty = false
needs_value is_true = false
needs_value is_false = false
needs_value c = true

length_errors : Value → List CriterionError
length_errors (int n) = error_if (not (leb_ℤ (pos 0) n)) bad_length
length_errors v = bad_length ∷ []

type_errors : Value → List CriterionError
type_errors (str s) = elim (value_type_of s) [ none ↦ bad_type ∷ [] | some t ↦ [] ]
type_errors v = bad_type ∷ []

list_errors : Value → List CriterionError
list_errors (arr vs) = []
list_errors v = not_list ∷ []

append-nil : (xs ys : List CriterionError) → xs ++ ys ≡ [] → ys ≡ []
append-nil [] ys h = h
append-nil (x ∷ xs) ys h = cc

module _ (re : Regex) where
  operand_errors : Check → Value → List CriterionError
  unfolding length_errors type_errors list_errors is_number compile_pattern
  operand_errors matches v = elim (compile_pattern re v) [
    | none ↦ bad_pattern ∷ []
    | some full ↦ []
  ]
  operand_errors min_length v = length_errors v
  operand_errors max_length v = length_errors v
  operand_errors min_value v = error_if (not (is_number v)) not_number
  operand_errors max_value v = error_if (not (is_number v)) not_number
  operand_errors type_check v = type_errors v
  operand_errors in_list v = list_errors v
  operand_errors c v = []

  -- From `needs_value = …` on.
  unfoldable pub value_errors : Check → Option Value → List CriterionError
  unfolding operand_errors
  value_errors c none = if needs_value c then missing_value ∷ [] else operand_errors c null
  value_errors c (some v) = error_if (not (needs_value c)) takes_no_value ++ operand_errors c v

  -- `output not in set(declared_outputs)` raises TypeError at a list or an object, which have no
  -- hash; so does `check not in CRITERION_CHECKS`.
  output_errors : List String → Value → Option (List CriterionError)
  output_errors declared (str s) =
      some (error_if (not (contains declared s)) (undeclared_output (str s)))
  output_errors declared (arr vs) = none
  output_errors declared (obj fs) = none
  output_errors declared v = some (undeclared_output v ∷ [])

  named_errors : Option Check → Value → Option Value → List CriterionError
  unfolding value_errors
  named_errors none name v = unknown_check name ∷ []
  named_errors (some c) name v = value_errors c v

  check_errors : Value → Option Value → Option (List CriterionError)
  unfolding named_errors
  check_errors (str s) v = some (named_errors (check_of s) (str s) v)
  check_errors (arr vs) v = none
  check_errors (obj fs) v = none
  check_errors w v = some (unknown_check w ∷ [])

  abbrev or_null : Option Value → Value
  or_null none = null
  or_null (some v) = v

  abbrev field_errors : List String → List CriterionError
  field_errors [] = []
  field_errors (name ∷ names) = unknown_fields (name ∷ names) ∷ []

  abbrev known_fields : List String
  known_fields = "output" ∷ "check" ∷ "value" ∷ "description" ∷ []

  -- Each list is reported after the one before it; an exception leaves none.
  abbrev also :
      Option (List CriterionError) → Option (List CriterionError) → Option (List CriterionError)
  also none q = none
  also (some es) none = none
  also (some es) (some fs) = some (es ++ fs)

  -- `criterion_errors`; `none` where it raises.
  unfoldable pub criterion_errors : Value → List String → Option (List CriterionError)
  unfolding output_errors check_errors
  criterion_errors (obj fs) declared =
      let criterion = entries fs in
      also
        (some (
          field_errors (sorted (keep (λ name. not (contains known_fields name)) (keys criterion)))))
        (also (output_errors declared (or_null (lookup criterion "output")))
          (check_errors (or_null (lookup criterion "check")) (lookup criterion "value")))
  criterion_errors v declared = some (not_mapping ∷ [])

  at_least-some : (n : ℕ) (w : Value) → length_errors w ≡ [] → at_least n w ≡ none → ⊥
  unfolding length_errors at_least
  at_least-some n w h e = ground arith

  at_most-some : (n : ℕ) (w : Value) → length_errors w ≡ [] → at_most n w ≡ none → ⊥
  unfolding length_errors at_most
  at_most-some n w h e = ground arith

  value_le-some : (v w : Value) → is_number v ≡ true → is_number w ≡ true → value_le v w ≡ none → ⊥
  unfolding is_number value_le
  value_le-some v w h k e = ground arith

  matches-some : (v w : Value) → operand_errors matches w ≡ [] → try_check re matches v w ≡ none → ⊥
  unfolding operand_errors try_check
  matches-some v w h e = ground arith

  type_check-some : (v w : Value) → try_check re type_check v w ≡ none → ⊥
  unfolding try_check
  type_check-some v w e = ground arith

  in_list-some : (v w : Value) → operand_errors in_list w ≡ [] → try_check re in_list v w ≡ none → ⊥
  unfolding operand_errors list_errors try_check iterate
  in_list-some v w h e = ground arith

  size-some :
      (test : ℕ → Value → Verdict) (w : Value) (o : Option ℕ)
      → ((n : ℕ) → test n w ≡ none → ⊥)
      → (elim o as (λ x. Verdict) [ none ↦ some false | some n ↦ test n w ]) ≡ none
      → ⊥
  size-some test w none h e = cc
  size-some test w (some n) h e = h n e

  number-operand : (w : Value) → error_if (not (is_number w)) not_number ≡ [] → is_number w ≡ true
  number-operand w h = ground arith

  number-some :
      (b : Bool) (r : Verdict)
      → (b ≡ true → r ≡ none → ⊥)
      → (if b then r else some false) ≡ none
      → ⊥
  number-some true r h e = h refl e
  number-some false r h e = cc

  -- A test whose operand is well formed does not raise.
  try_check-some :
      (c : Check) (v w : Value) → operand_errors c w ≡ [] → try_check re c v w ≡ none → ⊥
  unfolding try_check operand_errors
  try_check-some non_empty v w h e = ground arith
  try_check-some is_true v w h e = ground arith
  try_check-some is_false v w h e = ground arith
  try_check-some equals v w h e = cc
  try_check-some not_equals v w h e = cc
  try_check-some matches v w h e = matches-some v w h e
  try_check-some min_length v w h e = size-some at_least w _ (λ n. at_least-some n w h) e
  try_check-some max_length v w h e = size-some at_most w _ (λ n. at_most-some n w h) e
  try_check-some min_value v w h e =
      number-some (is_number v) _ (λ k. value_le-some w v (number-operand w h) k) e
  try_check-some max_value v w h e =
      number-some (is_number v) _ (λ k. value_le-some v w k (number-operand w h)) e
  try_check-some type_check v w h e = type_check-some v w e
  try_check-some in_list v w h e = in_list-some v w h e
  try_check-some (unknown s) v w h e = cc

  operand-nil :
      (c : Check) (v : Option Value)
      → value_errors c v ≡ []
      → operand_errors c (elim v [ none ↦ null | some w ↦ w ]) ≡ []
  unfolding value_errors
  operand-nil c none h = elim (Bool-cases (needs_value c)) [
    | inl needed ↦ let h' : missing_value ∷ [] ≡ [] = rw needed at h in cc
    | inr free ↦ rw free at h
  ]
  operand-nil c (some w) h = append-nil (error_if (not (needs_value c)) takes_no_value) _ h

  judge-passed : (c : Check) (r : Verdict) → (r ≡ none → ⊥) → (judge re c r).1 ≡ raised → ⊥
  unfolding judge
  judge-passed (unknown s) r h e = cc
  judge-passed c none h e = h refl
  judge-passed c (some true) h e = ground arith
  judge-passed c (some false) h e = ground arith

-- The evaluation of a criterion whose value was admitted raises no exception, on any outputs.
pub evaluate_criterion-not_raised :
    (re : Regex) (c : Criterion) (outputs : Outputs)
    → value_errors re c.check c.value ≡ []
    → (evaluate_criterion re c outputs).1 ≢ raised
unfolding evaluate_criterion
evaluate_criterion-not_raised re c outputs h = at_output (lookup outputs c.output)
  where
    at_output :
        (o : Option Value)
        → (elim o as (λ x. Bool × Detail) [
          | none ↦ (false, missing)
          | some actual ↦ judge re c.check (try_check re c.check actual (expected c))
        ]).1
          ≢ raised
    at_output none e = cc
    at_output (some actual) e =
        judge-passed re c.check _
          (try_check-some re c.check actual (expected c) (operand-nil re c.check c.value h)) e
