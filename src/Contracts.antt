-- ===== src/Contracts.antt =====
-- ge_runtime/contracts.py
pub mod Conformance
pub mod Criteria
pub mod Examples
use Prim.Native.String.{count}
use hermes_graph_engineering.Base.{
  ℕ, String, Bool, true, false, ◌&&◌, ◌||◌, not, Option, none, some, List, [], ◌∷◌, ◌++◌, Table,
  keys, lookup, has, keep, any, leb, ◌==◌, string_eq, if◌then◌else◌, sorted, suc, map, length,
  nat_beq,
}
use hermes_graph_engineering.Values.{
  Value, null, bool, int, float, str, arr, obj, ValueType, string, number, integer, boolean, object,
  array, items, entries, has_text, characters, sized, order_operand, le_float, finite, strict_eq,
}
use hermes_graph_engineering.Base.Int.{pos}

abbrev pub Outputs : Type 0
Outputs = Table String Value

unfoldable pub is_type : Value → ValueType → Bool
is_type v ValueType.any = true
is_type (str s) string = true
is_type (bool b) boolean = true
is_type (int n) integer = true
is_type (int n) number = true
is_type (float f) number = true
is_type (obj fs) object = true
is_type (arr vs) array = true
is_type v t = false

abbrev pub value_type_of : String → Option ValueType
value_type_of s =
    if s == "string"
    then some string
    else if s == "number"
    then some number
    else if s == "integer"
    then some integer
    else if s == "boolean"
    then some boolean
    else if s == "object"
    then some object
    else if s == "array"
    then some array
    else if s == "any"
    then some ValueType.any
    else none

-- `is_type(value, type_name)` at a `type_name` that is any value: an unknown name is no type.
unfoldable pub is_named_type : Value → Value → Bool
unfolding is_type
is_named_type v (str s) = elim (value_type_of s) [ none ↦ false | some t ↦ is_type v t ]
is_named_type v w = false

unfoldable pub is_number : Value → Bool
is_number (int n) = true
is_number (float f) = true
is_number v = false

abbrev max_pattern_length : ℕ
max_pattern_length = 200

abbrev max_match_input_chars : ℕ
max_match_input_chars = 100000

-- The `re` module: `none` where `re.compile` raises, else `fullmatch(...) is not None`.
abbrev pub Regex : Type 0
Regex = String → Option (String → Bool)

-- `none` where ValueError is raised.
unfoldable pub compile_pattern : Regex → Value → Option (String → Bool)
compile_pattern re (str p) =
    if p == "" || not (leb (count p) max_pattern_length) then none else re p
compile_pattern re v = none

pub data Check : Type 0 where
  non_empty is_true is_false equals not_equals matches min_length max_length : Check
  min_value max_value type_check in_list : Check
  unknown : String → Check

pub record Criterion : Type 0 where
  pub output : String
  pub check : Check
  pub value : Option Value
  pub description : Option Value

-- How the text beside the verdict begins or ends: "missing", "unknown check", "raised", "passed".
pub data Detail : Type 0 where
  missing unknown_check raised passed failed : Detail

pub record CriterionResult : Type 0 where
  pub index : ℕ
  pub output : String
  pub check : Check
  pub passed : Bool
  pub detail : Detail

-- The value of a test, or `none` where it raises.
abbrev pub Verdict : Type 0
Verdict = Option Bool

-- `criterion.get("value")`
abbrev pub expected : Criterion → Value
expected c = elim c.value [ none ↦ null | some v ↦ v ]

-- `actual >= expected` at a length.
unfoldable pub at_least : ℕ → Value → Verdict
at_least n v = elim (order_operand v) [
  | none ↦ none
  | some f ↦ some (le_float f (finite (pos n) 0))
]

unfoldable pub at_most : ℕ → Value → Verdict
at_most n v = elim (order_operand v) [ none ↦ none | some f ↦ some (le_float (finite (pos n) 0) f) ]

-- `actual >= expected` between values; an operand that is no number raises TypeError.
value_le : Value → Value → Verdict
value_le v w = elim (order_operand v) [
  | none ↦ none
  | some f ↦ elim (order_operand w) [ none ↦ none | some g ↦ some (le_float f g) ]
]

-- What a `for` loop goes through; `none` where the value is not iterable.
unfoldable pub iterate : Value → Option (List Value)
iterate (arr vs) = some (items vs)
iterate (obj fs) = some (map str (keys (entries fs)))
iterate (str s) = some (map str (characters s))
iterate v = none

-- The body of the `try` block: the value of `ok`. `none` where an exception is caught.
module _ (re : Regex) where
  try_check : Check → Value → Value → Verdict
  unfolding is_named_type is_number compile_pattern at_least at_most value_le iterate strict_eq
  try_check non_empty (str s) w = some (has_text s)
  try_check non_empty null w = some false
  try_check non_empty (arr vs) w = some (not (nat_beq (length (items vs)) 0))
  try_check non_empty (obj fs) w = some (not (nat_beq (length (entries fs)) 0))
  try_check non_empty v w = some true
  try_check is_true (bool b) w = some b
  try_check is_true v w = some false
  try_check is_false (bool b) w = some (not b)
  try_check is_false v w = some false
  try_check equals v w = some (strict_eq v w)
  try_check not_equals v w = some (not (strict_eq v w))
  try_check matches (str s) w =
      if leb (count s) max_match_input_chars
      then elim (compile_pattern re w) [ none ↦ none | some full ↦ some (full s) ]
      else some false
  try_check matches v w = some false
  try_check min_length v w = elim (sized v) [ none ↦ some false | some n ↦ at_least n w ]
  try_check max_length v w = elim (sized v) [ none ↦ some false | some n ↦ at_most n w ]
  try_check min_value v w = if is_number v then value_le w v else some false
  try_check max_value v w = if is_number v then value_le v w else some false
  try_check type_check v w = some (is_named_type v w)
  try_check in_list v w = elim (iterate w) [
    | none ↦ none
    | some vs ↦ some (any (λ item. strict_eq v item) vs)
  ]
  try_check (unknown s) v w = some false

  judge : Check → Verdict → Bool × Detail
  judge (unknown s) r = (false, unknown_check)
  judge c none = (false, raised)
  judge c (some true) = (true, passed)
  judge c (some false) = (false, failed)

  unfoldable pub evaluate_criterion : Criterion → Outputs → Bool × Detail
  unfolding try_check judge
  evaluate_criterion c outputs = elim (lookup outputs c.output) [
    | none ↦ (false, missing)
    | some actual ↦ judge c.check (try_check c.check actual (expected c))
  ]

  pub evaluate_from : ℕ → List Criterion → Outputs → List CriterionResult
  evaluate_from index [] outputs = []
  evaluate_from index (c ∷ cs) outputs =
      let (verdict, text) = evaluate_criterion c outputs in
      record { index = index; output = c.output; check = c.check; passed = verdict; detail = text }
      ∷ evaluate_from (suc index) cs outputs

  unfoldable pub evaluate_criteria : List Criterion → Outputs → List CriterionResult
  unfolding evaluate_from
  evaluate_criteria = evaluate_from 0

pub record OutputSpec : Type 0 where
  pub type : ValueType
  pub required : Bool
  pub description : Option String

pub data ContractError : Type 0 where
  undeclared missing_output : String → ContractError
  wrong_type : String → ValueType → ContractError

-- The error, if any, of one declared output.
declared_error : Outputs → String → OutputSpec → List ContractError
declared_error outputs name spec = elim (lookup outputs name) [
  | none ↦ if spec.required then missing_output name ∷ [] else []
  | some v ↦ if is_type v spec.type then [] else wrong_type name spec.type ∷ []
]

pub declared_errors : Outputs → Table String OutputSpec → List ContractError
unfolding declared_error
declared_errors outputs [] = []
declared_errors outputs ((name, spec) ∷ declared) =
    declared_error outputs name spec ++ declared_errors outputs declared

-- `sorted(set(outputs) - set(declared))`
abbrev pub undeclared_names : Table String OutputSpec → Outputs → List String
undeclared_names declared outputs = sorted (keep (λ name. not (has declared name)) (keys outputs))

unfoldable pub output_contract_errors : Table String OutputSpec → Outputs → List ContractError
unfolding declared_errors
output_contract_errors declared outputs =
    map undeclared (undeclared_names declared outputs) ++ declared_errors outputs declared
