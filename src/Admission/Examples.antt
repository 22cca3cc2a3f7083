-- ===== src/Admission/Examples.antt =====
-- A spec of two nodes, at which the theorems on admission are applied.
use hermes_graph_engineering.Admission.Cycles.Correct.{find_cycle_total, Layered}
use hermes_graph_engineering.Admission.Cycles.Paths.{IsCycle}
use hermes_graph_engineering.Admission.Admit.Capable.{admit-Capable, Capable}
use hermes_graph_engineering.Admission.Admit.Wiring.{admit-InputsFed, InputsFed}
use hermes_graph_engineering.Admission.Admit.Shape.{admit-WellShaped, WellShaped}
use hermes_graph_engineering.Admission.Admit.Outcome.{admit-Decided, Decided}
use hermes_graph_engineering.Admission.Json.{
  canonical, is_json_value, canonical_fields, are_json_fields,
}
use hermes_graph_engineering.Contracts.Criteria.{criterion_errors}
use hermes_graph_engineering.Executors.Admission.{operation_errors}
use hermes_graph_engineering.Engine.Gates.{catalog_get}
use hermes_graph_engineering.Spec.Ancestors.{ancestors}
use hermes_graph_engineering.Spec.Topology.{dependencies, topological_order}
use hermes_graph_engineering.Admission.Cycles.{searched, Colors, found, find_cycle}
use hermes_graph_engineering.Admission.Patterns.{is_graph_id, is_name, is_node_id}
use hermes_graph_engineering.Admission.Fields.{normalize_gates, normalize_inputs, normalize_outputs}
use hermes_graph_engineering.Base.{
  sorted, ℕ, String, ◌≡◌, refl, true, false, none, some, List, [], ◌∷◌, ◌⊎◌, All,
}
use hermes_graph_engineering.Base.Int.{pos}
use hermes_graph_engineering.Values.{
  has_text, py_eq, Value, bool, int, str, obj, arr, end, field, nil, cons, ValueType,
}
use hermes_graph_engineering.Spec.{source_of, Node, FailurePolicy, GraphSpec, GateType}
use hermes_graph_engineering.Engine.State.{Env, Executor}
use hermes_graph_engineering.Admission.Nodes.{node_value, node_errors, normalize_node}
use hermes_graph_engineering.Admission.Admit.{
  type_error, admit_value, Formats, admitted, type_error, admit,
}

abbrev pub agent_node : Value
agent_node = obj (
    field "id" (str "write") (
      field "executor" (str "agent") (
        field "purpose" (str "Write it.") (
          field "outputs" (obj (field "text" (str "string") end)) (
            field "side_effects" (bool true) (
              field "rollback_boundary" (str "disk") (
                field "gates"
                  (arr (cons (obj (field "id" (str "ok") (field "type" (str "approval") end))) nil))
                  end)))))))

abbrev pub builtin_node : Value
builtin_node = obj (
    field "id" (str "check") (
      field "executor" (str "builtin") (
        field "purpose" (str "Check it.") (
          field "depends_on" (arr (cons (str "write") nil)) (
            field "inputs" (obj (field "value" (str "write.text") end)) (
              field "operation" (obj (field "op" (str "identity") end))
                (field "retry" (obj (field "max_attempts" (int (pos 2)) end)) end)))))))

abbrev pub two_nodes : Value
two_nodes = obj (
    field "schema_version" (int (pos 1)) (
      field "graph_id" (str "demo")
        (field "nodes" (arr (cons builtin_node (cons agent_node nil))) end)))

abbrev pub executor_named : String → List String → Executor
executor_named name capabilities = record {
  name = name;
  deferred = false;
  capabilities = capabilities;
  execute = λ r. none;
}

abbrev pub env : Env
env = record {
  now = "";
  re = λ p. none;
  action_digest = λ a. "";
  binding_digest = λ b. "";
  outputs_digest = λ o. "";
  encoded_size = λ v. none;
  executors =
      executor_named "builtin" ("compute.pure" ∷ [])
      ∷ executor_named "agent" ("agent.reasoning" ∷ [])
      ∷ [];
  disabled = [];
  require_plan_approval = true;
  max_steps = 500;
}

abbrev pub formats : Formats
formats = record { json = λ s. none; yaml = λ s. none; digest_of = λ d. d.graph_id }

abbrev pub check_node : Node
check_node = record {
  id = "check";
  name = "check";
  purpose = "Check it.";
  depends_on = "write" ∷ [];
  executor = "builtin";
  requires = "compute.pure" ∷ [];
  operation = some (("op", str "identity") ∷ []);
  instructions = "";
  inputs =
      (
        "value",
        record { from = "write.text"; type = ValueType.any; required = true; description = none },
      )
      ∷ [];
  outputs = [];
  success_criteria = [];
  on_failure = FailurePolicy.stop;
  max_attempts = 2;
  idempotent = true;
  side_effects = false;
  gates = [];
  owner = "runtime";
  rollback_boundary = none;
}

abbrev pub write_node : Node
write_node = record {
  id = "write";
  name = "write";
  purpose = "Write it.";
  depends_on = [];
  executor = "agent";
  requires = "agent.reasoning" ∷ [];
  operation = none;
  instructions = "";
  inputs = [];
  outputs = ("text", record { type = ValueType.string; required = true; description = none }) ∷ [];
  success_criteria = [];
  on_failure = FailurePolicy.stop;
  max_attempts = 1;
  idempotent = false;
  side_effects = true;
  gates = record { id = "ok"; type = GateType.approval; owner = "operator"; description = "" } ∷ [];
  owner = "agent";
  rollback_boundary = some "disk";
}

abbrev pub spec : GraphSpec
spec = record {
  graph_id = "demo";
  title = "demo";
  description = "";
  inputs = [];
  nodes = check_node ∷ write_node ∷ [];
  order = "write" ∷ "check" ∷ [];
  digest = "demo";
}

pub admit-two_nodes : admit env formats two_nodes ≡ admitted spec
unfolding admit admit_value normalize_node node_value node_errors normalize_outputs normalize_inputs
    normalize_gates is_node_id is_name is_graph_id find_cycle topological_order dependencies
    ancestors catalog_get operation_errors criterion_errors source_of py_eq sorted are_json_fields
    canonical_fields is_json_value canonical has_text
admit-two_nodes = refl

admit-Decided_example : Decided (admit env formats two_nodes)
admit-Decided_example = admit-Decided env formats two_nodes

admit-WellShaped_example : WellShaped spec
admit-WellShaped_example = admit-WellShaped env formats two_nodes spec admit-two_nodes

admit-InputsFed_example : All (InputsFed spec.inputs spec.nodes) spec.nodes
admit-InputsFed_example = admit-InputsFed env formats two_nodes spec admit-two_nodes

admit-Capable_example : All (Capable env) spec.nodes
admit-Capable_example = admit-Capable env formats two_nodes spec admit-two_nodes

find_cycle_total_example :
    ((ks : List String) × (find_cycle spec.nodes ≡ found ks) × IsCycle (dependencies spec.nodes) ks)
    ⊎ ((c : Colors) × (find_cycle spec.nodes ≡ searched c)
        × ((rank : String → ℕ) × Layered rank (dependencies spec.nodes)))
find_cycle_total_example = find_cycle_total spec.nodes

-- A list as an output of a criterion has no hash.
abbrev list_criterion : Value
list_criterion = obj (field "output" (arr nil) (field "check" (str "non_empty") end))

abbrev unhashable_spec : Value
unhashable_spec = obj (
    field "schema_version" (int (pos 1)) (
      field "graph_id" (str "demo") (
        field "nodes"
          (arr (
            cons
              (obj (
                field "id" (str "write") (
                  field "executor" (str "agent") (
                    field "purpose" (str "Write it.")
                      (field "success_criteria" (arr (cons list_criterion nil)) end)))))
              nil))
          end)))

admit-unhashable : admit env formats unhashable_spec ≡ type_error
unfolding admit admit_value normalize_node node_value node_errors normalize_outputs normalize_inputs
    normalize_gates is_node_id is_name is_graph_id criterion_errors sorted has_text
admit-unhashable = refl
