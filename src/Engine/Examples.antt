-- ===== src/Engine/Examples.antt =====
-- Runs of the engine on a graph of two nodes, and the theorems of the engine at these runs.
use hermes_graph_engineering.Base.{
  ◌==◌, All, ◌↔◌, ◌≤◌, if◌then◌else◌, ◌≡◌, refl, true, false, none, some, [], ◌∷◌, string_eq,
}
use hermes_graph_engineering.Base.Int.{pos}
use hermes_graph_engineering.Values.{int, ValueType}
use hermes_graph_engineering.Contracts.{Regex, OutputSpec, output_contract_errors}
use hermes_graph_engineering.Contracts.Conformance.{Conforms, output_contract_errors_iff}
use hermes_graph_engineering.States.{NodeStatus, RunStatus, success}
use hermes_graph_engineering.Spec.{Node, Gate, GateType, GraphSpec, FailurePolicy}
use hermes_graph_engineering.Engine.State.{
  gate_action, gate, RunState, Env, Executor, ExecutorResult, empty_text,
}
use hermes_graph_engineering.Engine.Operations.{create, initial_node}
use hermes_graph_engineering.Engine.Gates.{approved_now}
use hermes_graph_engineering.Engine.Readiness.Dependencies.{Consistent}
use hermes_graph_engineering.Engine.Trail.{Trail}
use hermes_graph_engineering.Engine.Advance.{Loop, advance}
use hermes_graph_engineering.Engine.Advance.Termination.{advance_total}
use hermes_graph_engineering.Engine.Settle.{settle}
use hermes_graph_engineering.Engine.Settle.Final.{Settled, settle-Settled}
use hermes_graph_engineering.Engine.Recovery.{cancel, cancelled_state, recover}
use hermes_graph_engineering.Engine.Recovery.Interrupted.{RecoveredIn, recover-Recovered}
use hermes_graph_engineering.Engine.Recovery.Cancelled.{Cancelled, cancel-Cancelled}
use hermes_graph_engineering.Engine.Decisions.{recorded}
use hermes_graph_engineering.Engine.Decisions.Binding.{SameBinding, approved_now-recorded}
use hermes_graph_engineering.Engine.Lifecycle.Reach.{Reachable-Consistent, perform-Trail}
use hermes_graph_engineering.Engine.Lifecycle.Finished.{Refused, finished-Refused}
use hermes_graph_engineering.Engine.Lifecycle.{
  retry, Operation, execute_run, cancel_run, perform, loaded, here, Reachable, created, performed,
}

abbrev no_regex : Regex
no_regex p = none

abbrev number_output : OutputSpec
number_output = record { type = ValueType.integer; required = true; description = none }

abbrev pub build : Node
build = record {
  id = "build";
  name = "Build";
  purpose = "build";
  depends_on = [];
  executor = "local";
  requires = [];
  operation = none;
  instructions = "";
  inputs = [];
  outputs = ("count", number_output) ∷ [];
  success_criteria = [];
  on_failure = FailurePolicy.stop;
  max_attempts = 2;
  idempotent = true;
  side_effects = false;
  gates = [];
  owner = "dev";
  rollback_boundary = none;
}

abbrev release_gate : Gate
release_gate = record {
  id = "sign";
  type = GateType.approval;
  owner = "lead";
  description = "sign the release";
}

abbrev release : Node
release = record build {
  id = "release";
  depends_on = "build" ∷ [];
  outputs = [];
  side_effects = true;
  gates = release_gate ∷ [];
}

abbrev pub graph : GraphSpec
graph = record {
  graph_id = "g";
  title = "G";
  description = "";
  inputs = [];
  nodes = build ∷ release ∷ [];
  order = "build" ∷ "release" ∷ [];
  digest = "d";
}

abbrev pub built : ExecutorResult
built = record { outcome = success; outputs = ("count", int (pos 3)) ∷ []; detail = empty_text }

abbrev runner : Executor
runner = record {
  name = "local";
  deferred = false;
  capabilities = [];
  execute =
      λ req. some (record built { outputs = if req.node_id == "build" then built.outputs else [] });
}

abbrev pub settings : Env
settings = record {
  now = "t";
  re = no_regex;
  action_digest = λ a. "a";
  binding_digest = λ b. b.spec_version;
  outputs_digest = λ o. "o";
  encoded_size = λ v. some 1;
  executors = runner ∷ [];
  disabled = [];
  require_plan_approval = false;
  max_steps = 10;
}

abbrev pub fresh : RunState
fresh = (create settings graph "r" "me").state

abbrev run : Operation
run = execute_run none

-- The run of two nodes after an operator has cancelled it.
abbrev cancelled_run : RunState
cancelled_run = record (cancelled_state settings fresh) { updated_at = settings.now }

cancelled_run-Reachable : Reachable graph cancelled_run
unfolding perform cancel create
cancelled_run-Reachable = performed (created settings "r" "me") settings (cancel_run "me") here

Reachable-Consistent_example : Consistent graph cancelled_run
Reachable-Consistent_example = Reachable-Consistent graph cancelled_run cancelled_run-Reachable

perform-Trail_example : Trail settings graph (perform settings graph run fresh).effects
perform-Trail_example =
    perform-Trail settings graph run fresh
      (Reachable-Consistent graph fresh (created settings "r" "me"))

finished-Refused_example :
    Refused cancelled_run (perform settings graph (retry "build" "me") cancelled_run)
finished-Refused_example =
    finished-Refused settings graph (retry "build" "me") cancelled_run cancelled_run-Reachable refl

advance_total_example :
    (l : Loop) × (advance settings graph 10 (loaded fresh) ≡ some l) × (l.steps ≤ 10)
advance_total_example = advance_total settings graph 10 (loaded fresh)

output_contract_errors_iff_example :
    (output_contract_errors build.outputs built.outputs ≡ []) ↔ Conforms build.outputs built.outputs
output_contract_errors_iff_example = output_contract_errors_iff build.outputs built.outputs

settle-Settled_example : Settled (settle settings graph (loaded fresh)).state false
unfolding create
settle-Settled_example = settle-Settled settings graph (loaded fresh) refl

cancel-Cancelled_example : Cancelled "me" (loaded fresh) (cancel settings "me" (loaded fresh))
unfolding create
cancel-Cancelled_example = cancel-Cancelled settings "me" (loaded fresh) refl

-- Both nodes were running when the process died.
abbrev interrupted_run : RunState
interrupted_run = record fresh {
  status = RunStatus.running;
  nodes =
      ("build", record initial_node { status = NodeStatus.running; attempts = 1 })
      ∷ ("release", record initial_node { status = NodeStatus.running; attempts = 1 })
      ∷ [];
}

recover-Recovered_example :
    All
      (RecoveredIn settings interrupted_run (recover settings graph.nodes interrupted_run))
      graph.nodes
recover-Recovered_example = recover-Recovered settings graph.nodes interrupted_run refl

abbrev later_graph : GraphSpec
later_graph = record graph { digest = "e" }

abbrev signed : RunState
signed =
    (recorded settings graph true "me" (gate "release" "sign") (gate_action release release_gate)
      (loaded fresh)).state

approved_now-recorded_example :
    (approved_now settings later_graph signed release release_gate ≡ true) ↔ (
      (true ≡ true)
      × SameBinding graph fresh release release_gate later_graph signed release release_gate)
unfolding create recorded
approved_now-recorded_example =
    approved_now-recorded settings graph later_graph true "me" (loaded fresh) release release_gate
      signed release release_gate refl refl (λ e. cc (e)) (λ e. refl) refl
