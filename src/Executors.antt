-- ===== src/Executors.antt =====
-- BuiltinExecutor of ge_runtime/executors.py: the deterministic operations. The details of a failure
-- are kept as data.
pub mod Strings
pub mod Admission
pub mod Run
pub mod Typed
pub mod Require
pub mod Examples
use Prim.Native.String.{count}
use hermes_graph_engineering.Base.{
  ℕ, String, Bool, true, false, ◌&&◌, ◌||◌, not, Option, none, some, List, [], ◌∷◌, ◌++◌, Table,
  lookup, has, keys, keep, all, contains, leb, length, sorted, ◌==◌, string_eq, if◌then◌else◌,
}
use hermes_graph_engineering.Base.Int.{ℤ, pos, leb_ℤ, eqb_ℤ}
use hermes_graph_engineering.Values.{
  Float, Value, null, bool, int, float, str, arr, obj, Items, Fields, items, entries, ValueType,
  finite, eq_float, has_text, sized, strict_eq,
}
use hermes_graph_engineering.Contracts.{
  Outputs, Regex, compile_pattern, is_named_type, value_type_of, at_least, at_most, iterate,
  OutputSpec, Verdict,
}
use hermes_graph_engineering.Executors.Strings.{CaseMapping, strip, split, collapse, reverse}

abbrev max_text_chars : ℕ
max_text_chars = 100000

pub data Op : Type 0 where
  identity require text_transform compare measure : Op

pub data Problem : Type 0 where
  wrong_type is_empty too_short too_long no_match : Problem

pub data OperationError : Type 0 where
  no_mapping args_not_mapping bad_type bad_non_empty bad_pattern bad_steps : OperationError
  unknown_fields extra_args : List String → OperationError
  unknown_operation : Value → OperationError
  bad_length : String → OperationError

pub data FailDetail : Type 0 where
  invalid_operation : List OperationError → FailDetail
  input_rejected : List Problem → FailDetail
  no_value no_expected not_text not_sized raised : FailDetail

-- `_fail` is NON_RETRYABLE_FAILURE and `_ok` is SUCCESS.
pub data BuiltinResult : Type 0 where
  fail : FailDetail → BuiltinResult
  ok : Outputs → BuiltinResult

abbrev pub Args : Type 0
Args = Table String Value

-- `not value` of a value that is a list or an object, or None, or a text of spaces.
pub is_empty_value : Value → Bool
is_empty_value null = true
is_empty_value (str s) = not (has_text s)
is_empty_value (arr Items.nil) = true
is_empty_value (obj Fields.end) = true
is_empty_value v = false

-- `bool(v)`
pub truthy : Value → Bool
truthy null = false
truthy (bool b) = b
truthy (int n) = not (eqb_ℤ n (pos 0))
truthy (float f) = not (eq_float f (finite (pos 0) 0))
truthy (str s) = not (s == "")
truthy (arr Items.nil) = false
truthy (obj Fields.end) = false
truthy v = true

abbrev problem_if : Bool → Problem → List Problem
problem_if true p = p ∷ []
problem_if false p = []

-- The problem of a test that should have passed; `none` where the test raises.
abbrev unless : Verdict → Problem → Option (List Problem)
unless none p = none
unless (some passed) p = some (problem_if (not passed) p)

abbrev join : Option (List Problem) → Option (List Problem) → Option (List Problem)
join none q = none
join (some ps) none = none
join (some ps) (some qs) = some (ps ++ qs)

abbrev is_null : Value → Bool
is_null null = true
is_null v = false

-- `type_name is not None and not is_type(value, type_name)`
type_problem : Value → Option Value → List Problem
unfolding is_named_type
type_problem v none = []
type_problem v (some t) = problem_if (not (is_null t) && not (is_named_type v t)) wrong_type

empty_problem : Value → Option Value → List Problem
unfolding truthy is_empty_value
empty_problem v none = []
empty_problem v (some flag) = problem_if (truthy flag && is_empty_value v) is_empty

length_problem : (ℕ → Value → Verdict) → Problem → Option ℕ → Option Value → Option (List Problem)
length_problem test p size none = some []
length_problem test p none (some bound) = some (p ∷ [])
length_problem test p (some n) (some bound) = unless (test n bound) p

abbrev pub is_text : Value → Option String
is_text (str s) = some s
is_text v = none

module _ (re : Regex) where
  pattern_problem : Option String → Option Value → Option (List Problem)
  unfolding compile_pattern
  pattern_problem text none = some []
  pattern_problem none (some p) = some (no_match ∷ [])
  pattern_problem (some s) (some p) =
      if leb (count s) max_text_chars
      then elim (compile_pattern re p) [ none ↦ none | some full ↦ unless (some (full s)) no_match ]
      else some (no_match ∷ [])

  require_problems : Value → Args → Option (List Problem)
  unfolding type_problem empty_problem length_problem pattern_problem at_least at_most
  require_problems v args =
      join (some (type_problem v (lookup args "type") ++ empty_problem v (lookup args "non_empty")))
        (join (length_problem at_least too_short (sized v) (lookup args "min_length")) (
          join (length_problem at_most too_long (sized v) (lookup args "max_length"))
            (pattern_problem (is_text v) (lookup args "pattern"))))

  -- `none` where the handler raises, here and below.
  abbrev require_result : Value → Option (List Problem) → Option BuiltinResult
  require_result v none = none
  require_result v (some (p ∷ ps)) = some (fail (input_rejected (p ∷ ps)))
  require_result v (some []) = some (ok (("value", v) ∷ ("valid", bool true) ∷ []))

  -- `_op_require`
  pub op_require : Value → Args → Option BuiltinResult
  unfolding require_problems
  op_require v args = require_result v (require_problems v args)

module _ (cases : CaseMapping) where
  step : Value → String → String
  unfolding strip collapse reverse
  step (str name) s =
      if name == "strip"
      then strip s
      else if name == "lower"
      then cases.lower s
      else if name == "upper"
      then cases.upper s
      else if name == "title"
      then cases.title s
      else if name == "collapse_whitespace"
      then collapse s
      else if name == "reverse"
      then reverse s
      else s
  step v s = s

  steps_from : List Value → String → String
  unfolding step
  steps_from [] s = s
  steps_from (v ∷ vs) s = steps_from vs (step v s)

  abbrev transformed : String → Option (List Value) → Option BuiltinResult
  transformed s none = none
  transformed s (some steps) = some (ok (("value", str (steps_from steps s)) ∷ []))

  -- `_op_text_transform`
  op_text_transform : Option String → Args → Option BuiltinResult
  unfolding steps_from iterate
  op_text_transform none args = some (fail not_text)
  op_text_transform (some s) args =
      if leb (count s) max_text_chars
      then transformed s (elim (lookup args "steps") [ none ↦ none | some v ↦ iterate v ])
      else some (fail not_text)

-- `inputs["expected"] if "expected" in inputs else args["expected"]`
abbrev expected_value : Option Value → Option Value → Option Value
expected_value none arg = arg
expected_value (some v) arg = some v

abbrev compared : Value → Option Value → Option BuiltinResult
compared v none = none
compared v (some w) =
    some (ok (("matches", bool (strict_eq v w)) ∷ ("value", v) ∷ ("expected", w) ∷ []))

-- `_op_compare`
op_compare : Value → Args → Outputs → Option BuiltinResult
op_compare v args inputs =
    compared v (expected_value (lookup inputs "expected") (lookup args "expected"))

abbrev words_in : Value → ℕ
words_in (str s) = length (split s)
words_in v = 0

abbrev measured : Value → Option ℕ → BuiltinResult
measured v none = fail not_sized
measured v (some n) = ok (("length", int (pos n)) ∷ ("words", int (pos (words_in v))) ∷ [])

-- `_op_measure`
op_measure : Value → BuiltinResult
unfolding split
op_measure v = measured v (sized v)

-- BUILTIN_OPERATIONS: the handler, the accepted arguments and the outputs.
abbrev pub op_of : String → Option Op
op_of name =
    if name == "identity"
    then some identity
    else if name == "require"
    then some require
    else if name == "text_transform"
    then some text_transform
    else if name == "compare"
    then some compare
    else if name == "measure"
    then some measure
    else none

abbrev accepted_args : Op → List String
accepted_args require = "type" ∷ "non_empty" ∷ "min_length" ∷ "max_length" ∷ "pattern" ∷ []
accepted_args text_transform = "steps" ∷ []
accepted_args compare = "expected" ∷ []
accepted_args op = []

abbrev produced : ValueType → OutputSpec
produced t = record { type = t; required = true; description = none }

abbrev pub op_outputs : Op → Table String OutputSpec
op_outputs identity = ("value", produced ValueType.any) ∷ []
op_outputs require = ("value", produced ValueType.any) ∷ ("valid", produced ValueType.boolean) ∷ []
op_outputs text_transform = ("value", produced ValueType.string) ∷ []
op_outputs compare =
    ("matches", produced ValueType.boolean)
    ∷ ("value", produced ValueType.any)
    ∷ ("expected", produced ValueType.any)
    ∷ []
op_outputs measure =
    ("length", produced ValueType.integer) ∷ ("words", produced ValueType.integer) ∷ []

module _ (re : Regex) (cases : CaseMapping) where
  unfoldable pub handle : Op → Value → Args → Outputs → Option BuiltinResult
  unfolding op_require op_text_transform op_compare op_measure
  handle identity v args inputs = some (ok (("value", v) ∷ []))
  handle require v args inputs = op_require re v args
  handle text_transform v args inputs = op_text_transform cases (is_text v) args
  handle compare v args inputs = op_compare v args inputs
  handle measure v args inputs = some (op_measure v)
