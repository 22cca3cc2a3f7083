-- ===== src/Admission/Nodes.antt =====
-- `_normalize_node` of ge_runtime/spec.py. A node of a wrong type is in the same way as in Fields
-- a node with some value of the right type.
pub mod Governance
use hermes_graph_engineering.Base.{
  ℕ, zero, suc, String, Bool, true, false, ◌&&◌, ◌||◌, not, Option, none, some, List, [], ◌∷◌, ◌++◌,
  Table, lookup, keys, keep, has, all, any, map, contains, leb, ltb, sorted, ◌==◌, string_eq,
  if◌then◌else◌,
}
use hermes_graph_engineering.Base.Int.{pos}
use hermes_graph_engineering.Values.{Value, null, int, str, obj, arr, items, entries, has_text}
use hermes_graph_engineering.Contracts.{Check, unknown, Criterion, Regex, OutputSpec}
use hermes_graph_engineering.Contracts.Criteria.{CriterionError, check_of, criterion_errors}
use hermes_graph_engineering.Executors.{Op, op_of, op_outputs, OperationError}
use hermes_graph_engineering.Executors.Admission.{as_mapping, operation_errors}
use hermes_graph_engineering.Spec.{
  Gate, GateType, approval, review, FailurePolicy, stop, continue, InputSpec, Node,
}
use hermes_graph_engineering.Admission.Patterns.{is_name}
use hermes_graph_engineering.Admission.Errors.{
  NodeError, not_mapping, bad_id, unknown_fields, no_executor, no_purpose, bad_node_name,
  bad_depends_on, repeated_depends_on, bad_requires, unknown_capability, criteria_not_list,
  bad_criterion, bad_on_failure, bad_retry, bad_max_attempts, bad_side_effects, bad_idempotent,
  bad_owner, bad_rollback_boundary, bad_instructions, bad_operation, not_produced, no_value_input,
  builtin_side_effects, operation_not_allowed, unsafe_retries, no_approval_gate,
  no_rollback_boundary, Checked, valid, invalid, error_unless, concat,
}
use hermes_graph_engineering.Admission.Fields.{
  Raw, has_only, or_else, is_some, text_of, flag_or, id_text, name_or, normalize_outputs,
  normalize_inputs, normalize_gates,
}

abbrev pub node_fields : List String
node_fields =
    "id" ∷ "name" ∷ "purpose" ∷ "depends_on" ∷ "executor" ∷ "requires" ∷ "operation"
    ∷ "instructions" ∷ "inputs" ∷ "outputs" ∷ "success_criteria" ∷ "on_failure" ∷ "retry"
    ∷ "idempotent" ∷ "side_effects" ∷ "gates" ∷ "owner" ∷ "rollback_boundary" ∷ []

abbrev pub max_attempts_limit : ℕ
max_attempts_limit = 5

-- CAPABILITIES
abbrev pub capabilities : List String
capabilities =
    "compute.pure" ∷ "agent.reasoning" ∷ "agent.generation" ∷ "agent.tools" ∷ "agent.code"
    ∷ "agent.research" ∷ "agent.review" ∷ []

-- `_DEFAULT_REQUIRES.get(executor, [])`
abbrev pub default_requires : String → List String
default_requires executor =
    if executor == "builtin"
    then "compute.pure" ∷ []
    else if executor == "agent"
    then "agent.reasoning" ∷ []
    else []

abbrev pub non_empty_text : Option Value → Option String
non_empty_text (some (str s)) = if s == "" then none else some s
non_empty_text v = none

abbrev pub text_with_words : Option Value → Option String
text_with_words (some (str s)) = if has_text s then some s else none
text_with_words v = none

-- `raw.get(k, default)`
abbrev pub get_or : Value → Option Value → Value
get_or d none = d
get_or d (some v) = v

abbrev pub texts_of : List Value → Option (List String)
texts_of [] = some []
texts_of (v ∷ vs) = elim (text_of (some v)) [
  | none ↦ none
  | some s ↦ elim (texts_of vs) [ none ↦ none | some ss ↦ some (s ∷ ss) ]
]

-- `_string_list`, and the list it accepts
abbrev pub string_list : Value → Option (List String)
string_list (arr vs) = texts_of (items vs)
string_list v = none

abbrev pub has_repeats : List String → Bool
has_repeats [] = false
has_repeats (s ∷ ss) = contains ss s || has_repeats ss

-- `raw.get("executor")`, or "" with an error
abbrev executor_name : Raw → Option String
executor_name raw = non_empty_text (lookup raw "executor")

abbrev node_executor : Raw → String
node_executor raw = or_else "" (executor_name raw)

abbrev depends_on_of : Raw → Option (List String)
depends_on_of raw = elim (lookup raw "depends_on") [ none ↦ some [] | some v ↦ string_list v ]

-- An error of the list, or one for duplicates.
abbrev depends_on_errors : Option (List String) → List NodeError
depends_on_errors none = bad_depends_on ∷ []
depends_on_errors (some ids) = error_unless (not (has_repeats ids)) repeated_depends_on

abbrev requires_of : String → Raw → Option (List String)
requires_of executor raw = elim (lookup raw "requires") [
  | none ↦ some (default_requires executor)
  | some v ↦ string_list v
]

abbrev capability_errors : List String → List NodeError
capability_errors [] = []
capability_errors (c ∷ cs) =
    error_unless (contains capabilities c) (unknown_capability c) ++ capability_errors cs

abbrev requires_errors : Option (List String) → List NodeError
requires_errors none = bad_requires ∷ []
requires_errors (some cs) = capability_errors cs

-- `raw.get("success_criteria", [])`, if it is a list
abbrev criteria_list : Option Value → Option (List Value)
criteria_list none = some []
criteria_list (some (arr vs)) = some (items vs)
criteria_list (some v) = none

-- `dict(c)` for a mapping; a check or an output that is not a text was reported.
abbrev check_named : Option Value → Check
check_named v = elim (text_of v) [
  | none ↦ unknown ""
  | some s ↦ elim (check_of s) [ none ↦ unknown s | some c ↦ c ]
]

criteria_records : List Value → List Criterion
criteria_records [] = []
criteria_records (obj fs ∷ vs) =
    record {
      output = or_else "" (text_of (lookup (entries fs) "output"));
      check = check_named (lookup (entries fs) "check");
      value = lookup (entries fs) "value";
      description = lookup (entries fs) "description";
    }
    ∷ criteria_records vs
criteria_records (v ∷ vs) = criteria_records vs

-- FAILURE_POLICIES
abbrev policy_of : Option Value → Option FailurePolicy
policy_of none = some stop
policy_of (some (str s)) =
    if s == "stop" then some stop else if s == "continue" then some continue else none
policy_of (some v) = none

abbrev attempts_of : Option Value → Checked ℕ
attempts_of none = valid 1
attempts_of (some (int (pos n))) =
    if leb 1 n && leb n max_attempts_limit then valid n else invalid bad_max_attempts 1
attempts_of (some v) = invalid bad_max_attempts 1

-- `retry`, of which `max_attempts` is kept
retry_of : Option Value → Checked ℕ
retry_of none = valid 1
retry_of (some (obj fs)) =
    if has_only ("max_attempts" ∷ []) (entries fs)
    then attempts_of (lookup (entries fs) "max_attempts")
    else invalid bad_retry 1
retry_of (some v) = invalid bad_retry 1

abbrev boundary_of : Option Value → Checked (Option String)
boundary_of none = valid none
boundary_of (some null) = valid none
boundary_of (some (str s)) =
    if is_name s then valid (some s) else invalid bad_rollback_boundary (some s)
boundary_of (some v) = invalid bad_rollback_boundary (some "")

abbrev is_set : Option Value → Bool
is_set none = false
is_set (some null) = false
is_set (some v) = true

abbrev operation_of : Option Value → Option Raw
operation_of none = none
operation_of (some v) = as_mapping v

-- Outputs that the operation does not produce; an unknown operation is reported elsewhere.
abbrev not_produced_errors : Option Op → Table String OutputSpec → List NodeError
not_produced_errors none outputs = []
not_produced_errors (some op) outputs =
    map not_produced (keep (λ name. not (has (op_outputs op) name)) (keys outputs))

abbrev named_op : Option Value → Option Op
named_op (some (str s)) = op_of s
named_op v = none

abbrev op_in : Option Raw → Option Op
op_in none = none
op_in (some operation) = named_op (lookup operation "op")

abbrev field_errors : List String → List NodeError
field_errors [] = []
field_errors (k ∷ ks) = unknown_fields (k ∷ ks) ∷ []

abbrev is_approval : GateType → Bool
is_approval approval = true
is_approval review = false

abbrev pub has_approval_gate : List Gate → Bool
has_approval_gate gates = any (λ g. is_approval g.type) gates

-- `raw.get("owner", …)`
abbrev default_owner : String → String
default_owner executor = if executor == "builtin" then "runtime" else "agent"

-- The governance invariants.
abbrev pub retry_errors : Node → List NodeError
retry_errors n =
    error_unless (not (ltb 1 n.max_attempts && (not n.idempotent || n.side_effects))) unsafe_retries

abbrev pub side_effect_errors : Node → List NodeError
side_effect_errors n =
    error_unless (not n.side_effects || has_approval_gate n.gates) no_approval_gate
    ++ error_unless (not n.side_effects || is_some n.rollback_boundary) no_rollback_boundary

-- The dictionary that `_normalize_node` returns.
unfoldable pub node_value : String → Raw → Node
unfolding retry_of criteria_records
node_value id raw =
    let executor = node_executor raw in
    record {
      id = id;
      name = or_else id (text_of (lookup raw "name"));
      purpose = or_else "" (text_of (lookup raw "purpose"));
      depends_on = or_else [] (depends_on_of raw);
      executor = executor;
      requires = or_else [] (requires_of executor raw);
      operation = operation_of (lookup raw "operation");
      instructions = or_else "" (text_of (lookup raw "instructions"));
      inputs = (normalize_inputs (lookup raw "inputs")).value;
      outputs = (normalize_outputs (lookup raw "outputs")).value;
      success_criteria =
          criteria_records (or_else [] (criteria_list (lookup raw "success_criteria")));
      on_failure = or_else stop (policy_of (lookup raw "on_failure"));
      max_attempts = (retry_of (lookup raw "retry")).value;
      idempotent = or_else false (flag_or (executor == "builtin") (lookup raw "idempotent"));
      side_effects = or_else false (flag_or false (lookup raw "side_effects"));
      gates = (normalize_gates (lookup raw "gates")).value;
      owner = or_else "" (name_or (default_owner executor) (lookup raw "owner"));
      rollback_boundary = (boundary_of (lookup raw "rollback_boundary")).value;
    }

module _ (re : Regex) where
  -- `none` where `criterion_errors` raises TypeError
  criteria_errors : ℕ → List String → List Value → Option (List NodeError)
  criteria_errors index declared [] = some []
  criteria_errors index declared (v ∷ vs) = elim (criterion_errors re v declared) [
    | none ↦ none
    | some errors ↦ elim (criteria_errors (suc index) declared vs) [
      | none ↦ none
      | some rest ↦ some (map (bad_criterion index) errors ++ rest)
    ]
  ]

  -- `none` where `operation_errors` raises TypeError
  execution_errors : Node → Option Value → Option (List NodeError)
  execution_errors n operation =
      if n.executor == "builtin"
      then elim (operation_errors re n.operation) [
        | none ↦ none
        | some errors ↦ some (
            concat (
              map bad_operation errors
              ∷ not_produced_errors (op_in n.operation) n.outputs
              ∷ error_unless (has n.inputs "value") no_value_input
              ∷ error_unless (not n.side_effects) builtin_side_effects
              ∷ []))
      ]
      else some (error_unless (not (is_set operation)) operation_not_allowed)

  -- The errors of the parts that raise nothing, up to the criteria.
  abbrev first_errors : Node → Raw → List NodeError
  first_errors n raw = concat (
      field_errors (sorted (keep (λ k. not (contains node_fields k)) (keys raw)))
      ∷ error_unless (is_some (executor_name raw)) no_executor
      ∷ error_unless (is_some (text_with_words (lookup raw "purpose"))) no_purpose
      ∷ error_unless (is_some (text_with_words (some (get_or (str n.id) (lookup raw "name")))))
          bad_node_name
      ∷ depends_on_errors (depends_on_of raw)
      ∷ requires_errors (requires_of n.executor raw)
      ∷ (normalize_outputs (lookup raw "outputs")).errors
      ∷ (normalize_inputs (lookup raw "inputs")).errors
      ∷ error_unless (is_some (criteria_list (lookup raw "success_criteria"))) criteria_not_list
      ∷ [])

  -- From the criteria to the operation.
  abbrev later_errors : Node → Raw → List NodeError
  later_errors n raw = concat (
      error_unless (is_some (policy_of (lookup raw "on_failure"))) bad_on_failure
      ∷ (retry_of (lookup raw "retry")).errors
      ∷ error_unless (is_some (flag_or false (lookup raw "side_effects"))) bad_side_effects
      ∷ error_unless (is_some (flag_or (n.executor == "builtin") (lookup raw "idempotent")))
          bad_idempotent
      ∷ (normalize_gates (lookup raw "gates")).errors
      ∷ error_unless (is_some (name_or (default_owner n.executor) (lookup raw "owner"))) bad_owner
      ∷ (boundary_of (lookup raw "rollback_boundary")).errors
      ∷ error_unless (is_some (text_of (some (get_or (str "") (lookup raw "instructions")))))
          bad_instructions
      ∷ [])

  -- All errors, in the order in which they are appended.
  unfoldable pub node_errors : Node → Raw → Option (List NodeError)
  unfolding criteria_errors execution_errors retry_of
  node_errors n raw =
      let criteria = or_else [] (criteria_list (lookup raw "success_criteria")) in
      elim (criteria_errors 0 (keys n.outputs) criteria) [
        | none ↦ none
        | some criteria ↦ elim (execution_errors n (lookup raw "operation")) [
          | none ↦ none
          | some execution ↦ some (
              concat (
                first_errors n raw
                ∷ criteria
                ∷ later_errors n raw
                ∷ execution
                ∷ retry_errors n
                ∷ side_effect_errors n
                ∷ []))
        ]
      ]

  -- What a node with a valid id gives.
  abbrev with_errors : Node → Option (List NodeError) → Option (Checked (Option Node))
  with_errors n none = none
  with_errors n (some errors) = some (record { errors = errors; value = some n })

  normalize_fields : Raw → Option String → Option (Checked (Option Node))
  unfolding node_errors node_value
  normalize_fields raw none = some (invalid bad_id none)
  normalize_fields raw (some id) =
      with_errors (node_value id raw) (node_errors (node_value id raw) raw)

  -- `_normalize_node`; `none` where TypeError is raised.
  unfoldable pub normalize_node : Value → Option (Checked (Option Node))
  unfolding normalize_fields
  normalize_node (obj fs) = normalize_fields (entries fs) (id_text (lookup (entries fs) "id"))
  normalize_node v = some (invalid not_mapping none)
