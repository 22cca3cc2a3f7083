-- ===== src/Engine/Attempt/Examples.antt =====
-- The end of an attempt, at a concrete run.
use hermes_graph_engineering.Base.{refl, some, string_eq, [], ◌∷◌}
use hermes_graph_engineering.States.{NodeStatus, timeout, node_failed}
use hermes_graph_engineering.Engine.State.{ExecutorResult, empty_text, NodeState, World, on_state}
use hermes_graph_engineering.Engine.Operations.{initial_node}
use hermes_graph_engineering.Engine.Lifecycle.{loaded}
use hermes_graph_engineering.Engine.Examples.{build, settings, graph, fresh}
use hermes_graph_engineering.Engine.Attempt.Outcome.{Ends, complete_attempt-Ends}
use hermes_graph_engineering.Engine.Attempt.{complete_attempt, complete, reject, retry_allowed}

abbrev running_build : NodeState
running_build = record initial_node { status = NodeStatus.running; attempts = 1 }

abbrev running_world : World
running_world = on_state (λ s. record s { nodes = ("build", running_build) ∷ [] }) (loaded fresh)

abbrev timed_out : ExecutorResult
timed_out = record { outcome = timeout; outputs = []; detail = empty_text }

abbrev retried_build : NodeState
retried_build = record running_build {
  status = NodeStatus.ready;
  last_error = some (record { code = some node_failed; message = empty_text });
  history = record { attempt = 1; outcome = some timeout; detail = empty_text; at = "t" } ∷ [];
}

complete_attempt-Ends_example :
    Ends settings graph build 1 timed_out running_world.state NodeStatus.ready
unfolding complete_attempt complete reject retry_allowed
complete_attempt-Ends_example =
    complete_attempt-Ends settings graph build timed_out running_world running_build refl refl
      retried_build refl
