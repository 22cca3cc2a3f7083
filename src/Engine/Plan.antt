-- ===== src/Engine/Plan.antt =====
-- `plan_view` and `explain_view` of ge_runtime/engine.py: the execution plan of a spec.
pub mod Layers
pub mod Layered
use Prim.Native.String.{slice}
use hermes_graph_engineering.Base.{
  ℕ, zero, suc, Eq, String, string_eq, nat_eq, Bool, true, false, Option, none, some, List, [], ◌∷◌,
  ◌++◌, Table, lookup, has, keys, insert, modify, map, leb, ltb, ◌==◌, if◌then◌else◌,
}
use hermes_graph_engineering.Values.{Value}
use hermes_graph_engineering.Contracts.{OutputSpec, Criterion}
use hermes_graph_engineering.Spec.{
  GateType, approval, review, FailurePolicy, stop, continue, Gate, InputSpec, Node, GraphSpec, node,
  Source, graph_input, node_output, source_of,
}
use hermes_graph_engineering.Engine.State.{Target, plan, gate}

-- `1 + max((depth[d] for d in deps), default=-1)`; `none` where KeyError is raised.
abbrev pub or_deeper : ℕ → Option ℕ → Option ℕ
or_deeper d none = none
or_deeper d (some m) = some (if leb (suc d) m then m else suc d)

pub deepest : Table String ℕ → List String → Option ℕ
deepest depth [] = some 0
deepest depth (d ∷ ds) = elim (lookup depth d) [
  | none ↦ none
  | some x ↦ or_deeper x (deepest depth ds)
]

-- The loop over `spec.order`; `none` where an id is unknown or comes before a dependency.
abbrev pub depth_at : Table String ℕ → Option Node → Option ℕ
depth_at depth none = none
depth_at depth (some n) = deepest depth n.depends_on

pub depths_from : GraphSpec → Table String ℕ → List String → Option (Table String ℕ)
unfolding deepest
depths_from spec depth [] = some depth
depths_from spec depth (k ∷ ks) = elim (depth_at depth (node spec k)) [
  | none ↦ none
  | some d ↦ depths_from spec (insert depth k d) ks
]

unfoldable pub depths : GraphSpec → Option (Table String ℕ)
unfolding depths_from
depths spec = depths_from spec [] spec.order

-- `t.setdefault(key, []).append(item)`
abbrev append_to {ℓ} : {K V : Type ℓ} ⦃e : Eq K⦄ → Table K (List V) → K → V → Table K (List V)
append_to t k v = if has t k then modify k (λ vs. vs ++ v ∷ []) t else insert t k (v ∷ [])

layers_by : Table String ℕ → Table ℕ (List String) → List String → Table ℕ (List String)
layers_by depth layers [] = layers
layers_by depth layers (k ∷ ks) =
    layers_by depth (elim (lookup depth k) [ none ↦ layers | some d ↦ append_to layers d k ]) ks

insert_level : ℕ → List ℕ → List ℕ
insert_level d [] = d ∷ []
insert_level d (e ∷ es) = let rest = insert_level d es in if leb d e then d ∷ e ∷ es else e ∷ rest

sorted_levels : List ℕ → List ℕ
unfolding insert_level
sorted_levels [] = []
sorted_levels (d ∷ ds) = insert_level d (sorted_levels ds)

abbrev or_empty : Option (List String) → List String
or_empty none = []
or_empty (some ks) = ks

-- `[layers[level] for level in sorted(layers)]`
layers_of : Table String ℕ → List String → List (List String)
unfolding layers_by sorted_levels
layers_of depth order =
    let layers = layers_by depth [] order in
    map (λ level. or_empty (lookup layers level)) (sorted_levels (keys layers))

boundaries_from : Table String (List String) → List Node → Table String (List String)
boundaries_from t [] = t
boundaries_from t (n ∷ ns) =
    boundaries_from
      (elim n.rollback_boundary [ none ↦ t | some b ↦ if b == "" then t else append_to t b n.id ])
      ns

pub record PlanGate : Type 0 where
  pub target : Target
  pub type : GateType
  pub owner : String

abbrev gate_of_node : Node → Gate → PlanGate
gate_of_node n g = record { target = gate n.id g.id; type = g.type; owner = g.owner }

gates_of_nodes : List Node → List PlanGate
gates_of_nodes [] = []
gates_of_nodes (n ∷ ns) = map (gate_of_node n) n.gates ++ gates_of_nodes ns

-- `(spec.node(node_id) for node_id in spec.order)`
nodes_in_order : GraphSpec → List String → List Node
nodes_in_order spec [] = []
nodes_in_order spec (k ∷ ks) =
    elim (node spec k) [ none ↦ [] | some n ↦ n ∷ [] ] ++ nodes_in_order spec ks

-- The row of a node has all of its fields but the operation and the instructions.
pub record PlanView : Type 0 where
  pub graph_id : String
  pub title : String
  pub spec_version : String
  pub execution_order : List String
  pub layers : List (List String)
  pub nodes : List Node
  pub gates : List PlanGate
  pub rollback_boundaries : Table String (List String)

plan_of : GraphSpec → Table String ℕ → PlanView
unfolding layers_of boundaries_from gates_of_nodes nodes_in_order
plan_of spec depth = record {
  graph_id = spec.graph_id;
  title = spec.title;
  spec_version = spec.digest;
  execution_order = spec.order;
  layers = layers_of depth spec.order;
  nodes = nodes_in_order spec spec.order;
  gates =
      record { target = plan; type = approval; owner = "operator" }
      ∷ gates_of_nodes (nodes_in_order spec spec.order);
  rollback_boundaries = boundaries_from [] spec.nodes;
}

plan_at : GraphSpec → Option (Table String ℕ) → Option PlanView
unfolding plan_of
plan_at spec none = none
plan_at spec (some depth) = some (plan_of spec depth)

-- `plan_view`; `none` where it raises.
unfoldable pub plan_view : GraphSpec → Option PlanView
unfolding plan_at
plan_view spec = plan_at spec (depths spec)

-- Why a dependency is there: the inputs that read it, with their sources, or the order alone.
pub data Reason : Type 0 where
  consumes : List (String × String) → Reason
  ordering : Reason

consumed_from :
    Table String (List (String × String))
    → Table String InputSpec
    → Table String (List (String × String))
consumed_from t [] = t
consumed_from t ((name, input) ∷ inputs) =
    consumed_from
      (elim (source_of input.from) [
        | graph_input key ↦ t
        | node_output src output ↦ append_to t src (name, input.from)
      ])
      inputs

abbrev reason_of : Option (List (String × String)) → Reason
reason_of none = ordering
reason_of (some uses) = consumes uses

-- Why a gate is there; its description is added where it has one.
pub data GateReason : Type 0 where
  side_effects_approval declared_checkpoint outputs_reviewed : GateReason

abbrev gate_reason : Node → GateType → GateReason
gate_reason n approval = if n.side_effects then side_effects_approval else declared_checkpoint
gate_reason n review = outputs_reviewed

-- "deterministic builtin operation …", or host agent work.
pub data Execution : Type 0 where
  builtin_operation : Option Value → Execution
  host_work : Execution

abbrev operation_name : Option (Table String Value) → Option Value
operation_name none = none
operation_name (some operation) = lookup operation "op"

pub record Explanation : Type 0 where
  pub id : String
  pub name : String
  pub why : String
  pub execution : Execution
  pub requires : List String
  pub dependencies : List (String × Reason)
  pub gates : List (Gate × GateReason)
  pub success_criteria : List Criterion
  pub on_failure : FailurePolicy
  pub retry : ℕ
  pub rollback_boundary : Option String

explain_node : Node → Explanation
unfolding consumed_from
explain_node n =
    let consumed = consumed_from [] n.inputs in
    record {
      id = n.id;
      name = n.name;
      why = n.purpose;
      execution =
          if n.executor == "builtin"
          then builtin_operation (operation_name n.operation)
          else host_work;
      requires = n.requires;
      dependencies = map (λ d. (d, reason_of (lookup consumed d))) n.depends_on;
      gates = map (λ g. (g, gate_reason n g.type)) n.gates;
      success_criteria = n.success_criteria;
      on_failure = n.on_failure;
      retry = n.max_attempts;
      rollback_boundary = n.rollback_boundary;
    }

-- `explain_view`: the nodes, explained in order.
unfoldable pub explain_view : GraphSpec → List Explanation
unfolding explain_node nodes_in_order
explain_view spec = map explain_node (nodes_in_order spec spec.order)
