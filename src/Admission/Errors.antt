-- ===== src/Admission/Errors.antt =====
-- The problems that the admission of a spec reports (ge_runtime/spec.py), as data: a constructor for
-- each format of a message, with the values that are put in.
use hermes_graph_engineering.Base.{ℕ, String, Bool, true, false, List, [], ◌∷◌, ◌++◌}
use hermes_graph_engineering.Contracts.Criteria.{CriterionError}
use hermes_graph_engineering.Executors.{OperationError}

-- What is wrong with a node. The number says which gate or criterion it is.
pub data NodeError : Type 0 where
  not_mapping bad_id : NodeError
  unknown_fields : List String → NodeError
  no_executor no_purpose bad_node_name : NodeError
  bad_depends_on repeated_depends_on bad_requires : NodeError
  unknown_capability : String → NodeError
  outputs_not_mapping inputs_not_mapping gates_not_list criteria_not_list : NodeError
  bad_output_name bad_output unknown_output_type bad_output_required : String → NodeError
  bad_input_name bad_input bad_source unknown_input_type bad_input_required : String → NodeError
  bad_gate bad_gate_id bad_gate_type bad_gate_owner : ℕ → NodeError
  repeated_gate_id : ℕ → String → NodeError
  bad_criterion : ℕ → CriterionError → NodeError
  bad_on_failure bad_retry bad_max_attempts bad_side_effects bad_idempotent : NodeError
  bad_owner bad_rollback_boundary bad_instructions : NodeError
  bad_operation : OperationError → NodeError
  not_produced : String → NodeError
  no_value_input builtin_side_effects operation_not_allowed : NodeError
  unsafe_retries no_approval_gate no_rollback_boundary : NodeError

pub data SpecError : Type 0 where
  not_a_mapping empty_text text_too_long unreadable_text : SpecError
  unknown_top_level : List String → SpecError
  bad_schema_version bad_graph_id bad_title bad_description : SpecError
  bad_inputs inputs_not_json no_nodes too_many_nodes : SpecError
  in_node : ℕ → NodeError → SpecError
  repeated_ids : List String → SpecError
  unknown_dependency : String → String → SpecError
  dependency_cycle : List String → SpecError
  missing_graph_input unknown_source not_upstream undeclared_source :
      String → String → String → SpecError
  executor_missing : String → String → SpecError
  lacks_capability : String → List String → SpecError

-- A value, and the errors that were appended on the way to it.
pub record Checked {ℓ} (A : Type ℓ) : Type ℓ where
  pub errors : List NodeError
  pub value : A

abbrev pub valid {ℓ} : {A : Type ℓ} → A → Checked A
valid a = record { errors = []; value = a }

abbrev pub invalid {ℓ} : {A : Type ℓ} → NodeError → A → Checked A
invalid e a = record { errors = e ∷ []; value = a }

-- `if not passed: errors.append(e)`
abbrev pub error_unless {ℓ} : {E : Type ℓ} → Bool → E → List E
error_unless true e = []
error_unless false e = e ∷ []

-- The lists, one after the other.
abbrev pub concat {ℓ} : {E : Type ℓ} → List (List E) → List E
concat [] = []
concat (es ∷ ess) = es ++ concat ess
