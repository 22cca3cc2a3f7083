-- ===== src/Engine/Readiness.antt =====
-- `_refresh_readiness`, `_skip_open_nodes` and `_resolve_inputs` of ge_runtime/engine.py.
pub mod Dependencies
pub mod Remaining
-- A key that is missing from the node table would raise KeyError. `load` refuses such a state, and
-- no operation removes a key, so the model lets such a node be.
use hermes_graph_engineering.Base.{
  String, ◌≡◌, Bool, true, false, ◌&&◌, ◌||◌, not, Option, none, some, List, [], ◌∷◌, ◌++◌, Table,
  lookup, has, all, any, keep, map_values, ◌==◌, string_eq, if◌then◌else◌, arith,
}
use hermes_graph_engineering.Values.{Value, ValueType}
use hermes_graph_engineering.Contracts.{Outputs, is_type}
use hermes_graph_engineering.States.{NodeStatus, node_terminal, node_status_eq}
use hermes_graph_engineering.Spec.{
  Node, InputSpec, GraphSpec, node, Source, source_of, graph_input, node_output,
}
use hermes_graph_engineering.Engine.State.{
  NodeState, ErrorRecord, Message, run_stopped, blocked_by, RunState, update_node, InputError,
  missing_input, wrong_input_type,
}

abbrev pub note : Message → Option ErrorRecord
note m = some (record { code = none; message = m })

-- `_skip_open_nodes`
abbrev pub skip_open : Message → NodeState → NodeState
skip_open reason ns = if node_terminal ns.status then ns else record ns {
  status = NodeStatus.skipped;
  wait = none;
  last_error = elim ns.last_error [ none ↦ note reason | some e ↦ some e ];
}

abbrev pub skip_open_nodes : Message → RunState → RunState
skip_open_nodes reason s = record s { nodes = map_values (skip_open reason) s.nodes }

-- The status of a node, by its id.
abbrev pub found_is : (NodeStatus → Bool) → Table String NodeState → String → Bool
found_is p nodes node_id = elim (lookup nodes node_id) [ none ↦ false | some ns ↦ p ns.status ]

abbrev pub status_is : (NodeStatus → Bool) → RunState → String → Bool
status_is p s node_id = found_is p s.nodes node_id

abbrev pub is_bad : NodeStatus → Bool
is_bad st =
    node_status_eq st NodeStatus.failed
    || node_status_eq st NodeStatus.blocked
    || node_status_eq st NodeStatus.skipped

abbrev pub is_succeeded : NodeStatus → Bool
is_succeeded st = node_status_eq st NodeStatus.succeeded

-- The new state of a node that is PENDING or READY, from the run's flag and its dependencies.
pub refreshed : Bool → List String → Bool → NodeState → NodeState
refreshed true bad ready ns = record ns {
  status = NodeStatus.skipped;
  wait = none;
  last_error = note run_stopped;
}
refreshed false (b ∷ bs) ready ns = record ns {
  status = NodeStatus.blocked;
  wait = none;
  last_error = note (blocked_by (b ∷ bs));
}
refreshed false [] ready ns =
    if node_status_eq ns.status NodeStatus.pending && ready
    then record ns { status = NodeStatus.ready }
    else ns

abbrev pub is_open : NodeStatus → Bool
is_open st = node_status_eq st NodeStatus.pending || node_status_eq st NodeStatus.ready

-- One round of the loop of `_refresh_readiness`.
refresh_node : GraphSpec → RunState → String → RunState
unfolding refreshed
refresh_node spec s node_id = elim (node spec node_id) [
  | none ↦ s
  | some n ↦
      if status_is is_open s node_id
      then update_node node_id
          (refreshed s.stopped (keep (status_is is_bad s) n.depends_on)
            (all (status_is is_succeeded s) n.depends_on))
          s
      else s
]

refresh_from : GraphSpec → List String → RunState → RunState
unfolding refresh_node
refresh_from spec [] s = s
refresh_from spec (node_id ∷ order) s = refresh_from spec order (refresh_node spec s node_id)

-- `_refresh_readiness`
unfoldable pub refresh_readiness : GraphSpec → RunState → RunState
unfolding refresh_from
refresh_readiness spec s = refresh_from spec s.order s

-- The value of an input, or `none` where it is not present.
abbrev source_value : RunState → GraphSpec → Source → Option Value
source_value s spec (graph_input key) = lookup spec.inputs key
source_value s spec (node_output src key) = elim (lookup s.nodes src) [
  | none ↦ none
  | some ns ↦ elim ns.outputs [ none ↦ none | some outputs ↦ lookup outputs key ]
]

abbrev resolve_one : Option Value → String → InputSpec → Outputs × List InputError
resolve_one none name input =
    if input.required then ([], missing_input name input.from ∷ []) else ([], [])
resolve_one (some v) name input =
    if is_type v input.type
    then ((name, v) ∷ [], [])
    else ([], wrong_input_type name input.from input.type ∷ [])

-- `_resolve_inputs`
unfoldable pub resolve_inputs :
    RunState → GraphSpec → Table String InputSpec → Outputs × List InputError
unfolding source_of is_type
resolve_inputs s spec [] = ([], [])
resolve_inputs s spec ((name, input) ∷ inputs) =
    let (values, errors) = resolve_one (source_value s spec (source_of input.from)) name input in
    let (more_values, more_errors) = resolve_inputs s spec inputs in
    (values ++ more_values, errors ++ more_errors)
