-- ===== src/Hermes/Dispatch/Examples.antt =====
-- A dispatcher at work on a run with one node for an agent.
use hermes_graph_engineering.Base.{
  sorted, ◌⊎◌, ◌⊎◌, Among, All, has, string_eq, ◌≤◌, ◌≡◌, refl, true, false, none, some, [], ◌∷◌,
  arith,
}
use hermes_graph_engineering.States.{success}
use hermes_graph_engineering.Spec.{Node, GraphSpec, node}
use hermes_graph_engineering.Engine.State.{Env, Executor}
use hermes_graph_engineering.Engine.Operations.{
  advance_settle, execute, preflight_executors, submit, create,
}
use hermes_graph_engineering.Engine.Lifecycle.{perform, execute_run}
use hermes_graph_engineering.Engine.Examples.{build, graph, settings}
use hermes_graph_engineering.Hermes.Guard.{Process, WorkerScope}
use hermes_graph_engineering.Contracts.{output_contract_errors, evaluate_criteria}
use hermes_graph_engineering.Engine.Advance.{advance}
use hermes_graph_engineering.Engine.Attempt.{complete_attempt}
use hermes_graph_engineering.Engine.Gates.{catalog_get, denied_gate, pending_gate}
use hermes_graph_engineering.Engine.Readiness.{refresh_readiness, resolve_inputs}
use hermes_graph_engineering.Engine.Settle.{settle}
use hermes_graph_engineering.Hermes.Reply.{Parsing}
use hermes_graph_engineering.Hermes.WorkerContext.{Dumps}
use hermes_graph_engineering.Hermes.Host.{call, Step, Host}
use hermes_graph_engineering.Hermes.Delivery.{worker_context, Dispatcher, replied}
use hermes_graph_engineering.Hermes.Dispatch.{stop, drive}
use hermes_graph_engineering.Hermes.Dispatch.Once.{AtMostOnce, drive-AtMostOnce}
use hermes_graph_engineering.Hermes.Dispatch.Reached.{drive-Submits, Submits}
use hermes_graph_engineering.Hermes.Dispatch.Bounded.{Ends, works, drive_total}
use hermes_graph_engineering.Hermes.Dispatch.Exclusive.{Confines, drive-Guarded, drive-Confined}
use hermes_graph_engineering.Hermes.Dispatch.Stops.{Explained, drive-Explained}

abbrev agent : Executor
agent = record { name = "agent"; deferred = true; capabilities = []; execute = λ req. none }

abbrev with_agent : Env
with_agent = record settings { executors = agent ∷ [] }

abbrev writer : Node
writer = record build { id = "write"; executor = "agent"; outputs = []; idempotent = false }

abbrev one_node : GraphSpec
one_node = record graph { nodes = writer ∷ []; order = "write" ∷ [] }

abbrev no_json : Parsing
no_json = record { loads = λ s. none; raw_decode = λ s. none; fenced = λ s. [] }

abbrev plain_dumps : Dumps
plain_dumps = record { criteria = λ cs. "[]"; inputs = λ o. "{}" }

abbrev worker : Dispatcher
worker = record {
  parsing = no_json;
  dumps = plain_dumps;
  execute_agent_work =
      λ p order context. replied (record { outcome = success; outputs = []; detail = "" });
  state_key = "/state";
  max_dispatches = 3;
  node_timeout_seconds = 60;
  call_budget_seconds = none;
  elapsed = λ n. n;
}

abbrev idle : Process
idle = record { worker = none; leases = [] }

-- A new run, which someone executes before the dispatcher loads it.
abbrev started : Host
started = record {
  process = idle;
  state = (create with_agent one_node "r" "me").state;
  log = [];
  others = (execute_run none ∷ []) ∷ [];
}

found_writer : node one_node "write" ≡ some writer
found_writer = refl

drive-AtMostOnce_example : AtMostOnce "write" 1 (drive with_agent one_node worker started).host.log
drive-AtMostOnce_example =
    drive-AtMostOnce with_agent one_node worker "write" 1 writer found_writer refl started
      (omega arith, omega arith)

drive_total_example :
    Ends (drive with_agent one_node worker started).ending
    × (works (drive with_agent one_node worker started).host.log ≤ 3)
drive_total_example = drive_total with_agent one_node worker started

drive-Submits_example :
    Submits with_agent one_node
      ((execute_run none ∷ []) ∷ [])
      started.state
      (drive with_agent one_node worker started).host.state
drive-Submits_example = drive-Submits with_agent one_node worker started

drive-Guarded_example :
    ((drive with_agent one_node worker started).host.process ≡ idle)
    × ((scope : WorkerScope)
        → idle.worker ≡ some scope
        → drive with_agent one_node worker started ≡ stop [] worker_context started)
    × (has idle.leases "/state" ≡ true → (drive with_agent one_node worker started).host ≡ started)
drive-Guarded_example = drive-Guarded with_agent one_node worker started

drive-Confined_example :
    All
      (λ (step : Step). Among [] step ⊎ Confines with_agent one_node worker "r" step)
      (drive with_agent one_node worker started).host.log
unfolding create
drive-Confined_example = drive-Confined with_agent one_node worker started

drive-Explained_example :
    Explained with_agent one_node worker idle
      (drive with_agent one_node worker started).host
      (drive with_agent one_node worker started).ending
drive-Explained_example = drive-Explained with_agent one_node worker started

-- The host works once.
started-works : works (drive with_agent one_node worker started).host.log ≡ 1
unfolding drive create sorted output_contract_errors evaluate_criteria advance complete_attempt
    catalog_get denied_gate pending_gate perform advance_settle execute preflight_executors submit
    refresh_readiness resolve_inputs settle call
started-works = refl
