-- ===== src/Engine/Operations.antt =====
-- `create`, `execute`, `submit` and `_preflight_executors` of ge_runtime/engine.py, on a run that
-- `load` has returned, and what all operations share.
use hermes_graph_engineering.Base.{
  ℕ, String, Bool, true, false, ◌&&◌, not, Option, none, some, List, [], ◌∷◌, ◌++◌, Table, lookup,
  keep, contains, leb, sorted, ◌==◌, string_eq, if◌then◌else◌,
}
use hermes_graph_engineering.Values.{Value, obj, entries}
use hermes_graph_engineering.States.{
  NodeStatus, node_terminal, node_status_eq, RunStatus, run_terminal, success, retryable_failure,
  non_retryable_failure, ErrorCode, executor_unavailable, gate_failed, invalid_transition,
  invalid_argument,
}
use hermes_graph_engineering.Spec.{Node, GraphSpec, node}
use hermes_graph_engineering.Engine.State.{
  Wait, NodeState, text, reported_failed, outputs_not_object, empty_text, Decision, plan, RunState,
  World, Env, Effect, run_created, run_started, node_submitted, ExecutorResult, append_trace, save,
  update_node, on_state,
}
use hermes_graph_engineering.Engine.Gates.{catalog_get}
use hermes_graph_engineering.Engine.Attempt.{complete_attempt}
use hermes_graph_engineering.Engine.Advance.{Control, going, returned, raised, Loop, advance}
use hermes_graph_engineering.Engine.Settle.{settle}

-- What an operation returns or raises. `out_of_fuel` is the model's own.
pub data Result : Type 0 where
  done : RunState → Result
  raises : ErrorCode → Result
  out_of_fuel : Result

-- The result, and all that reached the disk and the executors, the newest first.
pub record Outcome : Type 0 where
  pub result : Result
  pub effects : List Effect

abbrev pub raise : ErrorCode → World → Outcome
raise code w = record { result = raises code; effects = w.effects }

abbrev pub return : World → Outcome
return w = record { result = done w.state; effects = w.effects }

abbrev pub max_submission_bytes : ℕ
max_submission_bytes = 1000000

pub data Submission : Type 0 where
  outputs : Value → Submission
  failed : String → Submission

pub data PreflightProblem : Type 0 where
  unavailable : String → PreflightProblem
  missing_capability : String → List String → PreflightProblem

abbrev pub initial_node : NodeState
initial_node = record {
  status = NodeStatus.pending;
  attempts = 0;
  wait = none;
  inputs = none;
  outputs = none;
  criteria = [];
  last_error = none;
  started_at = none;
  finished_at = none;
  history = [];
}

abbrev pub initial_nodes : List Node → Table String NodeState
initial_nodes [] = []
initial_nodes (n ∷ ns) = (n.id, initial_node) ∷ initial_nodes ns

module _ (env : Env) where
  abbrev initial_state : GraphSpec → String → String → RunState
  initial_state spec run_id created_by = record {
    run_id = run_id;
    graph_id = spec.graph_id;
    title = spec.title;
    spec_digest = spec.digest;
    order = spec.order;
    status = if env.require_plan_approval then RunStatus.draft else RunStatus.approved;
    holds = [];
    stopped = false;
    failure = none;
    approvals =
        if env.require_plan_approval
        then []
        else (
          plan,
          record {
            status = Decision.not_required;
            binding = none;
            binding_digest = none;
            decided_by = "configuration";
            decided_at = env.now;
          },
        )
          ∷ [];
    nodes = initial_nodes spec.nodes;
    created_by = created_by;
    created_at = env.now;
    updated_at = env.now;
    finished_at = none;
    budget_exhausted = false;
    verification = none;
  }

  -- `create`, at an admitted spec and a fresh run id. It saves without `_save`.
  unfoldable pub create : GraphSpec → String → String → World
  create spec run_id created_by =
      let s = initial_state spec run_id created_by in
      append_trace (run_created spec.digest created_by)
        (record { state = s; effects = Effect.saved s ∷ [] })

abbrev pub awaits_submission : NodeState → Bool
awaits_submission ns =
    node_status_eq ns.status NodeStatus.running
    && elim ns.wait [ none ↦ false | some wait ↦ elim wait [ Wait.submission ↦ true | _ ↦ false ] ]

module _ (env : Env) (spec : GraphSpec) where
  -- What follows `_advance`: its exception, or `_settle`, `_save` and the `return`.
  unfoldable pub after_loop : Control → World → Outcome
  after_loop (raised code) w = raise code w
  after_loop going w = return (save env (settle env spec w))
  after_loop returned w = return (save env (settle env spec w))

  unfoldable pub after_advance : World → Option Loop → Outcome
  after_advance w none = record { result = out_of_fuel; effects = w.effects }
  after_advance w (some l) = after_loop l.control l.world

  -- `_advance`, `_settle`, `_save` and the `return`.
  unfoldable pub advance_settle : ℕ → World → Outcome
  unfolding after_advance after_loop
  advance_settle budget w = after_advance w (advance env spec budget w)

  abbrev is_finished : RunState → Node → Bool
  is_finished s n = elim (lookup s.nodes n.id) [ none ↦ true | some ns ↦ node_terminal ns.status ]

  abbrev missing_problem : String → List String → List PreflightProblem
  missing_problem node_id [] = []
  missing_problem node_id (c ∷ cs) = missing_capability node_id (c ∷ cs) ∷ []

  preflight_node : RunState → Node → List PreflightProblem
  preflight_node s n = if is_finished s n then [] else elim (catalog_get env n.executor) [
    | none ↦ unavailable n.id ∷ []
    | some ex ↦
        missing_problem n.id (sorted (keep (λ c. not (contains ex.capabilities c)) n.requires))
  ]

  preflight_nodes : RunState → List Node → List PreflightProblem
  unfolding preflight_node
  preflight_nodes s [] = []
  preflight_nodes s (n ∷ ns) = preflight_node s n ++ preflight_nodes s ns

  -- `_preflight_executors`: EXECUTOR_UNAVAILABLE is raised if this is not empty.
  unfoldable pub preflight_executors : RunState → List PreflightProblem
  unfolding preflight_nodes
  preflight_executors s = preflight_nodes s spec.nodes

  abbrev pub set_status : RunStatus → World → World
  set_status status w = on_state (λ s. record s { status = status }) w

  -- The part that `execute`, `resume` and `retry_node` share after `_preflight_executors`.
  unfoldable pub if_available : List PreflightProblem → World → Outcome → Outcome
  if_available [] w o = o
  if_available (p ∷ ps) w o = raise executor_unavailable w

  abbrev pub budget_of : Option ℕ → ℕ
  budget_of none = env.max_steps
  budget_of (some n) = n

  abbrev pub trace_start : RunStatus → World → World
  trace_start RunStatus.approved w = append_trace run_started w
  trace_start status w = w

  unfoldable pub execute_at : RunStatus → Option ℕ → World → Outcome
  execute_at RunStatus.draft max_steps w = raise gate_failed w
  execute_at status max_steps w =
      if run_terminal status
      then raise invalid_transition w
      else if_available (preflight_executors w.state) w (
          advance_settle (budget_of max_steps)
            (set_status RunStatus.running (trace_start status w)))

  unfoldable pub execute : Option ℕ → World → Outcome
  unfolding execute_at if_available
  execute max_steps w = execute_at w.state.status max_steps w

  abbrev pub submitted_result : Submission → ExecutorResult
  submitted_result (failed detail) = record {
    outcome = retryable_failure;
    outputs = [];
    detail = if detail == "" then reported_failed else text detail;
  }
  submitted_result (outputs (obj fs)) = record {
    outcome = success;
    outputs = entries fs;
    detail = empty_text;
  }
  submitted_result (outputs v) = record {
    outcome = non_retryable_failure;
    outputs = [];
    detail = outputs_not_object;
  }

  abbrev pub is_failed : Submission → Bool
  is_failed (failed detail) = true
  is_failed (outputs v) = false

  -- The checks before the lock: the outputs are JSON, and not too large.
  abbrev pub acceptable : Submission → Bool
  acceptable (failed detail) = true
  acceptable (outputs v) = elim (env.encoded_size v) [
    | none ↦ false
    | some size ↦ leb size max_submission_bytes
  ]

  -- From the node's state on, and from its spec on.
  unfoldable pub submit_to :
      String → Submission → String → NodeState → Option Node → World → Outcome
  submit_to node_id submission submitted_by ns none w = raise invalid_argument w
  submit_to node_id submission submitted_by ns (some n) w = advance_settle env.max_steps (
      complete_attempt env spec n (submitted_result submission) (
        on_state (update_node node_id (λ m. record m { wait = none })) (
          append_trace (node_submitted node_id ns.attempts (is_failed submission) submitted_by) w)))

  unfoldable pub submit_at : String → Submission → String → Option NodeState → World → Outcome
  submit_at node_id submission submitted_by none w = raise invalid_argument w
  submit_at node_id submission submitted_by (some ns) w =
      if run_terminal w.state.status
      then raise invalid_transition w
      else if not (awaits_submission ns)
      then raise invalid_transition w
      else submit_to node_id submission submitted_by ns (node spec node_id) w

  unfoldable pub submit : String → Submission → String → World → Outcome
  unfolding submit_at submit_to
  submit node_id submission submitted_by w =
      if not (acceptable submission)
      then raise invalid_argument w
      else submit_at node_id submission submitted_by (lookup w.state.nodes node_id) w
