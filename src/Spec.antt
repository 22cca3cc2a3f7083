-- ===== src/Spec.antt =====
-- ge_runtime/spec.py: an admitted graph spec.
pub mod Topology
pub mod Ancestors
use text.Mathlib.Text.{starts_with, find?}
use Prim.Native.String.{slice, len}
use hermes_graph_engineering.Base.{
  ℕ, ◌+◌, String, Bool, Option, none, some, List, [], ◌∷◌, Table, ◌==◌, string_eq, contains, find,
  keep, if◌then◌else◌, ◌≡◌, refl,
}
use hermes_graph_engineering.Values.{Value, ValueType}
use hermes_graph_engineering.Contracts.{Outputs, OutputSpec, Criterion}

pub data GateType : Type 0 where
  approval review : GateType

pub data FailurePolicy : Type 0 where
  stop continue : FailurePolicy

pub record Gate : Type 0 where
  pub id : String
  pub type : GateType
  pub owner : String
  pub description : String

pub record InputSpec : Type 0 where
  pub from : String
  pub type : ValueType
  pub required : Bool
  pub description : Option String

-- A normalized node. `max_attempts` is the one field of `retry`.
pub record Node : Type 0 where
  pub id : String
  pub name : String
  pub purpose : String
  pub depends_on : List String
  pub executor : String
  pub requires : List String
  pub operation : Option (Table String Value)
  pub instructions : String
  pub inputs : Table String InputSpec
  pub outputs : Table String OutputSpec
  pub success_criteria : List Criterion
  pub on_failure : FailurePolicy
  pub max_attempts : ℕ
  pub idempotent : Bool
  pub side_effects : Bool
  pub gates : List Gate
  pub owner : String
  pub rollback_boundary : Option String

pub record GraphSpec : Type 0 where
  pub graph_id : String
  pub title : String
  pub description : String
  pub inputs : Outputs
  pub nodes : List Node
  pub order : List String
  pub digest : String

-- `spec.node(node_id)`: `none` where INVALID_ARGUMENT is raised.
abbrev pub node : GraphSpec → String → Option Node
node spec node_id = find (λ n. n.id == node_id) spec.nodes

abbrev pub node_ids : List Node → List String
node_ids [] = []
node_ids (n ∷ ns) = n.id ∷ node_ids ns

unfoldable pub dependents : GraphSpec → String → List String
dependents spec node_id = node_ids (keep (λ n. contains n.depends_on node_id) spec.nodes)

-- Where an input comes from: "graph.inputs.<key>" or "<node>.<output>".
pub data Source : Type 0 where
  graph_input : String → Source
  node_output : String → String → Source

abbrev graph_inputs_prefix : String
graph_inputs_prefix = "graph.inputs."

-- `source.startswith("graph.inputs.")`, else `source.partition(".")`.
unfoldable pub source_of : String → Source
source_of from =
    if starts_with from graph_inputs_prefix
    then graph_input (slice from (len graph_inputs_prefix) (len from))
    else elim (find? from ".") [
      | none ↦ node_output from ""
      | some i ↦ node_output (slice from 0 i) (slice from (i + 1) (len from))
    ]

source_of_graph : source_of "graph.inputs.task" ≡ graph_input "task"
unfolding source_of
source_of_graph = refl

source_of_node : source_of "plan.result.x" ≡ node_output "plan" "result.x"
unfolding source_of
source_of_node = refl
