-- ===== src/Engine/Advance.antt =====
-- `_advance` of ge_runtime/engine.py: the loop that starts every node that may run.
pub mod Forward
pub mod WriteAhead
pub mod Rule
pub mod Termination
use hermes_graph_engineering.Base.{
  ℕ, zero, suc, ◌+◌, String, ◌≡◌, Bool, true, false, ◌&&◌, ◌||◌, not, Option, none, some, List, [],
  ◌∷◌, lookup, leb, length, ◌==◌, string_eq, if◌then◌else◌, arith,
}
use hermes_graph_engineering.Contracts.{Outputs}
use hermes_graph_engineering.States.{
  NodeStatus, node_status_eq, ErrorCode, node_failed, gate_failed, executor_unavailable,
  invalid_argument, non_retryable_failure,
}
use hermes_graph_engineering.Spec.{GateType, approval, Node, GraphSpec, node}
use hermes_graph_engineering.Engine.State.{
  Wait, wait_is_attention, NodeState, InputError, inputs_violated, gate_denied, executor_raised,
  RunState, World, Env, ExecutionRequest, Executor, ExecutorResult, gate_requested, node_started,
  awaiting_submission, executed, append_trace, emit, save, update_node, on_state,
}
use hermes_graph_engineering.Engine.Gates.{pending_gate, denied_gate, catalog_get}
use hermes_graph_engineering.Engine.Readiness.{refresh_readiness, resolve_inputs}
use hermes_graph_engineering.Engine.Attempt.{record_failure, complete_attempt}

-- Whether the `for` loop goes on, has returned, or an exception has left it.
pub data Control : Type 0 where
  going returned : Control
  raised : ErrorCode → Control

abbrev pub is_going : Control → Bool
is_going going = true
is_going returned = false
is_going (raised code) = false

-- The variables of the loops.
pub record Loop : Type 0 where
  pub world : World
  pub steps : ℕ
  pub progress : Bool
  pub control : Control

abbrev pub wait_is_approval : Option Wait → Bool
wait_is_approval (some Wait.approval) = true
wait_is_approval w = false

module _ (env : Env) (spec : GraphSpec) where
  -- What the executor is handed.
  abbrev pub request : RunState → Node → Outputs → ℕ → ExecutionRequest
  request s n inputs attempt = record {
    run_id = s.run_id;
    node_id = n.id;
    attempt = attempt;
    node_type = n.executor;
    identity = n.owner;
    operation = n.operation;
    outputs = n.outputs;
    inputs = inputs;
  }

  -- An exception of an executor fails the attempt.
  abbrev pub result_of : Option ExecutorResult → ExecutorResult
  result_of none = record {
    outcome = non_retryable_failure;
    outputs = [];
    detail = executor_raised;
  }
  result_of (some r) = r

  abbrev pub starting : Outputs → NodeState → NodeState
  starting inputs ns = record ns {
    status = NodeStatus.running;
    attempts = suc ns.attempts;
    inputs = some inputs;
    started_at = some env.now;
  }

  -- The write-ahead part: the attempt is on disk before any executor runs.
  pub begin : Node → NodeState → Outputs → World → World
  begin n ns inputs w = save env (
      append_trace (node_started n.id (suc ns.attempts) n.executor)
        (on_state (update_node n.id (starting inputs)) w))

  pub run_node : Node → NodeState → Outputs → Executor → World → World
  run_node n ns inputs ex w =
      let w' = begin n ns inputs w in
      if ex.deferred
      then append_trace (awaiting_submission n.id (suc ns.attempts))
          (on_state (update_node n.id (λ m. record m { wait = some Wait.submission })) w')
      else let req = request w'.state n inputs (suc ns.attempts) in
        complete_attempt env spec n (result_of (ex.execute req)) (emit (executed req) w')

  abbrev fails_inputs : NodeState → NodeState
  fails_inputs m = record m { status = NodeStatus.failed; criteria = [] }

  abbrev fails : NodeState → NodeState
  fails m = record m { status = NodeStatus.failed }

  abbrev waits_approval : NodeState → NodeState
  waits_approval m = record m { wait = some Wait.approval }

  abbrev waits_no_more : NodeState → NodeState
  waits_no_more m = record m { wait = none }

  -- From `self.catalog.get` on; `none` is its exception.
  launch : Node → NodeState → Outputs → Option Executor → Loop → Loop
  launch n ns inputs none l = record l { control = raised executor_unavailable }
  launch n ns inputs (some ex) l = record l {
    world = run_node n ns inputs ex l.world;
    steps = suc l.steps;
    progress = true;
  }

  -- From the input contract on.
  start : Node → NodeState → Outputs × List InputError → Loop → Loop
  start n ns (inputs, e ∷ es) l = record l {
    world =
        record_failure env n node_failed (inputs_violated (e ∷ es))
          (on_state (update_node n.id fails_inputs) l.world);
    progress = true;
  }
  start n ns (inputs, []) l = launch n ns inputs (catalog_get env n.executor) l

  -- From the pending approval gate on.
  pass_approval : Node → NodeState → Option String → Loop → Loop
  pass_approval n ns (some g) l = if wait_is_approval ns.wait then l else record l {
    world =
        append_trace (gate_requested n.id g) (on_state (update_node n.id waits_approval) l.world);
  }
  pass_approval n ns none l =
      let w = on_state (update_node n.id waits_no_more) l.world in
      start n ns (resolve_inputs w.state spec n.inputs) (record l { world = w })

  -- From the denied gate on.
  pass_denied : Node → NodeState → Option String → Loop → Loop
  pass_denied n ns (some g) l = record l {
    world =
        record_failure env n gate_failed (gate_denied g)
          (on_state (update_node n.id fails) l.world);
    progress = true;
  }
  pass_denied n ns none l = pass_approval n ns (pending_gate env spec l.world.state n approval) l

  -- From `spec.node(node_id)` on; `none` is its exception.
  visit_node : NodeState → Option Node → Loop → Loop
  visit_node ns none l = record l { control = raised invalid_argument }
  visit_node ns (some n) l = pass_denied n ns (denied_gate l.world.state n) l

  abbrev pub is_due : NodeState → Bool
  is_due ns = node_status_eq ns.status NodeStatus.ready && not (wait_is_attention ns.wait)

  visit_state : ℕ → String → Option NodeState → Loop → Loop
  visit_state budget node_id none l = l
  visit_state budget node_id (some ns) l =
      if not (is_due ns)
      then l
      else if leb budget l.steps
      then record l {
        world = on_state (λ s. record s { budget_exhausted = true }) l.world;
        control = returned;
      }
      else visit_node ns (node spec node_id) l

  -- One round of the `for` loop.
  pub visit : ℕ → Loop → String → Loop
  visit budget l node_id = visit_state budget node_id (lookup l.world.state.nodes node_id) l

  -- The `for` loop over what is left of the order.
  pub visit_all : ℕ → List String → Loop → Loop
  visit_all budget [] l = l
  visit_all budget (node_id ∷ order) l =
      let rest = visit_all budget order (visit budget l node_id) in
      if is_going l.control then rest else l

  -- One round of the `while` loop.
  pub round : ℕ → Loop → Loop
  round budget l =
      let world = on_state (refresh_readiness spec) l.world in
      visit_all budget world.state.order (record l { world = world; progress = false })

  abbrev pub continues : Loop → Bool
  continues l = is_going l.control && l.progress

  -- The `while` loop, on fuel; `none` where the fuel runs out.
  pub rounds : ℕ → ℕ → Loop → Option Loop
  rounds budget zero l = none
  rounds budget (suc fuel) l =
      let l' = round budget l in
      let rest = rounds budget fuel l' in if continues l' then rest else some l'

  abbrev pub loop_start : World → Loop
  loop_start w = record {
    world = on_state (λ s. record s { budget_exhausted = false }) w;
    steps = 0;
    progress = true;
    control = going;
  }

  -- Each round but the last starts an attempt or fails a node, so these are rounds enough.
  abbrev pub enough : ℕ → World → ℕ
  enough budget w = suc (budget + length w.state.nodes)

  -- `_advance`
  unfoldable pub advance : ℕ → World → Option Loop
  unfolding rounds round visit_all visit visit_state visit_node pass_denied pass_approval start
      launch run_node begin
  advance budget w = rounds budget (enough budget w) (loop_start w)
