-- ===== src/Executors/Run.antt =====
-- `execute` of BuiltinExecutor.

use hermes_graph_engineering.Executors.{
  Op, compare, OperationError, invalid_operation, no_value, no_expected, raised, BuiltinResult,
  fail, ok, Args, op_of, handle,
}
use hermes_graph_engineering.Executors.Admission.{as_mapping, operation_errors}
use hermes_graph_engineering.Base.{
  String, Bool, true, false, ◌&&◌, not, Option, none, some, List, [], ◌∷◌, Table, lookup, has, keep,
  string_eq, if◌then◌else◌,
}
use hermes_graph_engineering.Values.{Value, str}
use hermes_graph_engineering.Contracts.{Outputs, Regex, OutputSpec}
use hermes_graph_engineering.Executors.Strings.{CaseMapping}

-- The operation that a mapping names, and its arguments.
abbrev pub op_named : Option Value → Option Op
op_named (some (str s)) = op_of s
op_named v = none

abbrev pub args_or_empty : Option Value → Args
args_or_empty none = []
args_or_empty (some v) = elim (as_mapping v) [ none ↦ [] | some args ↦ args ]

abbrev pub is_compare : Op → Bool
is_compare compare = true
is_compare op = false

-- Only declared outputs leave the executor.
abbrev pub declared_only : Table String OutputSpec → Outputs → Outputs
declared_only declared outputs = keep (λ entry. has declared entry.0) outputs

-- The result of a handler; an exception in it fails the attempt.
unfoldable pub leave : Table String OutputSpec → Option BuiltinResult → BuiltinResult
leave declared none = fail raised
leave declared (some (fail d)) = fail d
leave declared (some (ok outputs)) = ok (declared_only declared outputs)

module _ (re : Regex) (cases : CaseMapping) where
  -- From the input `value` on.
  unfoldable pub run_op :
      Op → Args → Outputs → Table String OutputSpec → Option Value → BuiltinResult
  unfolding leave handle
  run_op op args inputs declared none = fail no_value
  run_op op args inputs declared (some v) =
      if is_compare op && (not (has inputs "expected") && not (has args "expected"))
      then fail no_expected
      else leave declared (handle re cases op v args inputs)

  unfoldable pub run_named :
      Option Op → Args → Outputs → Table String OutputSpec → Option BuiltinResult
  unfolding run_op
  run_named none args inputs declared = none
  run_named (some op) args inputs declared =
      some (run_op op args inputs declared (lookup inputs "value"))

  unfoldable pub run_checked :
      Option (List OperationError) → Args → Outputs → Table String OutputSpec → Option BuiltinResult
  unfolding run_named
  run_checked none operation inputs declared = none
  run_checked (some (e ∷ es)) operation inputs declared = some (fail (invalid_operation (e ∷ es)))
  run_checked (some []) operation inputs declared =
      run_named (op_named (lookup operation "op")) (args_or_empty (lookup operation "args")) inputs
        declared

  -- `BuiltinExecutor.execute`; `none` where it raises.
  unfoldable pub execute_builtin :
      Option Args → Outputs → Table String OutputSpec → Option BuiltinResult
  unfolding run_checked
  execute_builtin none inputs declared = run_checked (operation_errors re none) [] inputs declared
  execute_builtin (some operation) inputs declared =
      run_checked (operation_errors re (some operation)) operation inputs declared
