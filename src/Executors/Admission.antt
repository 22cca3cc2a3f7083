-- ===== src/Executors/Admission.antt =====
-- `operation_errors` of ge_runtime/executors.py.

use hermes_graph_engineering.Executors.{
  Op, require, text_transform, OperationError, no_mapping, args_not_mapping, bad_type,
  bad_non_empty, bad_pattern, bad_steps, unknown_fields, extra_args, unknown_operation, bad_length,
  Args, op_of, accepted_args,
}
use hermes_graph_engineering.Base.{
  String, Bool, true, false, not, Option, none, some, List, [], ◌∷◌, ◌++◌, lookup, keys, keep, all,
  contains, sorted, string_eq,
}
use hermes_graph_engineering.Base.Int.{pos, leb_ℤ}
use hermes_graph_engineering.Values.{Value, null, bool, int, str, arr, obj, Items, items, entries}
use hermes_graph_engineering.Contracts.{Regex, compile_pattern, value_type_of}

abbrev names_error : (List String → OperationError) → List String → List OperationError
names_error error [] = []
names_error error (name ∷ names) = error (name ∷ names) ∷ []

abbrev error_if : Bool → OperationError → List OperationError
error_if true e = e ∷ []
error_if false e = []

-- `args["type"] not in VALUE_TYPES`, where there is one
type_errors : Option Value → List OperationError
type_errors none = []
type_errors (some (str s)) = elim (value_type_of s) [ none ↦ bad_type ∷ [] | some t ↦ [] ]
type_errors (some v) = bad_type ∷ []

length_errors : String → Option Value → List OperationError
length_errors name none = []
length_errors name (some (int n)) = error_if (not (leb_ℤ (pos 0) n)) (bad_length name)
length_errors name (some v) = bad_length name ∷ []

non_empty_errors : Option Value → List OperationError
non_empty_errors none = []
non_empty_errors (some (bool b)) = []
non_empty_errors (some v) = bad_non_empty ∷ []

abbrev text_steps : List String
text_steps = "strip" ∷ "lower" ∷ "upper" ∷ "title" ∷ "collapse_whitespace" ∷ "reverse" ∷ []

abbrev is_step : Value → Bool
is_step (str s) = contains text_steps s
is_step v = false

step_errors : Option Value → List OperationError
step_errors (some (arr (Items.cons v vs))) =
    error_if (not (all is_step (items (Items.cons v vs)))) bad_steps
step_errors v = bad_steps ∷ []

abbrev pub as_mapping : Value → Option Args
as_mapping (obj fs) = some (entries fs)
as_mapping v = none

module _ (re : Regex) where
  pattern_errors : Option Value → List OperationError
  unfolding compile_pattern
  pattern_errors none = []
  pattern_errors (some p) = elim (compile_pattern re p) [ none ↦ bad_pattern ∷ [] | some full ↦ [] ]

  require_errors : Args → List OperationError
  unfolding type_errors length_errors non_empty_errors pattern_errors
  require_errors args =
      type_errors (lookup args "type")
      ++ (length_errors "min_length" (lookup args "min_length")
          ++ (length_errors "max_length" (lookup args "max_length")
              ++ (non_empty_errors (lookup args "non_empty")
                  ++ pattern_errors (lookup args "pattern"))))

  op_args_errors : Op → Args → List OperationError
  unfolding require_errors step_errors
  op_args_errors require args = require_errors args
  op_args_errors text_transform args = step_errors (lookup args "steps")
  op_args_errors op args = []

  args_errors : Op → Option Args → List OperationError
  unfolding op_args_errors
  args_errors op none = args_not_mapping ∷ []
  args_errors op (some args) =
      names_error extra_args
        (sorted (keep (λ name. not (contains (accepted_args op) name)) (keys args)))
      ++ op_args_errors op args

  -- `operation.get("args", {})`
  abbrev args_of : Args → Option Args
  args_of operation = elim (lookup operation "args") [ none ↦ some [] | some v ↦ as_mapping v ]

  named_errors : Option Op → Value → Option Args → List OperationError
  unfolding args_errors
  named_errors none name args = unknown_operation name ∷ []
  named_errors (some op) name args = args_errors op args

  -- A list or an object has no hash: `op not in BUILTIN_OPERATIONS` raises TypeError.
  op_errors : Option Value → Option Args → Option (List OperationError)
  unfolding named_errors
  op_errors none args = some (unknown_operation null ∷ [])
  op_errors (some (str s)) args = some (named_errors (op_of s) (str s) args)
  op_errors (some (arr vs)) args = none
  op_errors (some (obj fs)) args = none
  op_errors (some v) args = some (unknown_operation v ∷ [])

  abbrev field_errors : Args → List OperationError
  field_errors operation =
      names_error unknown_fields
        (sorted (keep (λ name. not (contains ("op" ∷ "args" ∷ []) name)) (keys operation)))

  -- `operation_errors`; `none` where it raises.
  unfoldable pub operation_errors : Option Args → Option (List OperationError)
  unfolding op_errors
  operation_errors none = some (no_mapping ∷ [])
  operation_errors (some operation) = elim (op_errors (lookup operation "op") (args_of operation)) [
    | none ↦ none
    | some errors ↦ some (field_errors operation ++ errors)
  ]
