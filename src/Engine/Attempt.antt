-- ===== src/Engine/Attempt.antt =====
-- `_complete_attempt` and `_record_failure` of ge_runtime/engine.py: the end of one attempt.
pub mod Forward
pub mod Events
pub mod Outcome
pub mod Examples
use hermes_graph_engineering.Base.{
  ℕ, suc, String, ◌≡◌, Bool, true, false, ◌&&◌, ◌||◌, not, Option, none, some, List, [], ◌∷◌, ◌++◌,
  lookup, all, keep, ltb, map_values, ◌==◌, string_eq, if◌then◌else◌, arith,
}
use hermes_graph_engineering.Contracts.{
  Outputs, ContractError, CriterionResult, evaluate_criteria, output_contract_errors,
}
use hermes_graph_engineering.States.{
  NodeStatus, node_status_eq, ExecutorOutcome, success, retryable_failure, timeout, ErrorCode,
  node_failed, executor_unavailable,
}
use hermes_graph_engineering.Spec.{GateType, review, Node, GraphSpec, FailurePolicy, stop, continue}
use hermes_graph_engineering.Engine.State.{
  Wait, NodeState, ErrorRecord, HistoryEntry, Message, contract_violated, criteria_failed,
  outcome_name, stopped_after, empty_text, RunState, World, Env, ExecutorResult, Event,
  gate_requested, node_succeeded, attempt_failed, append_trace, update_node, on_state,
}
use hermes_graph_engineering.Engine.Gates.{pending_gate}
use hermes_graph_engineering.Engine.Readiness.{note}

-- `outcome in _RETRYABLE`
abbrev pub retryable : ExecutorOutcome → Bool
retryable retryable_failure = true
retryable timeout = true
retryable o = false

abbrev pub stops : FailurePolicy → Bool
stops stop = true
stops continue = false

-- A node that waits for someone else is skipped when the run stops.
abbrev pub waits_outside : Option Wait → Bool
waits_outside (some Wait.submission) = true
waits_outside (some Wait.attention) = true
waits_outside (some Wait.review) = true
waits_outside w = false

abbrev pub stop_other : String → NodeState → NodeState
stop_other node_id ns =
    if node_status_eq ns.status NodeStatus.running && waits_outside ns.wait
    then record ns {
      status = NodeStatus.skipped;
      wait = none;
      last_error = note (stopped_after node_id);
    }
    else ns

abbrev pub fail_node : String → ErrorCode → Message → NodeState → NodeState
fail_node now code message ns = record ns {
  wait = none;
  last_error = some (record { code = some code; message = message });
  finished_at = elim ns.finished_at [ none ↦ some now | some t ↦ some t ];
}

abbrev pub first_failure : ErrorCode → String → Message → RunState → RunState
first_failure code node_id message s = elim s.failure [
  | none ↦ record s {
    failure = some (record { code = code; node = some node_id; message = message });
  }
  | some f ↦ s
]

abbrev pub stop_run : Node → RunState → RunState
stop_run n s =
    if stops n.on_failure
    then record s { stopped = true; nodes = map_values (stop_other n.id) s.nodes }
    else s

-- `_record_failure`
unfoldable pub record_failure : Env → Node → ErrorCode → Message → World → World
record_failure env n code message w = on_state (stop_run n) (
    append_trace (Event.node_failed n.id code message) (
      on_state
        (λ s. first_failure code n.id message (update_node n.id (fail_node env.now code message) s))
        w))

module _ (env : Env) (spec : GraphSpec) (n : Node) (attempt : ℕ) where
  abbrev add_history : ExecutorOutcome → Message → NodeState → NodeState
  add_history outcome detail ns = record ns {
    history =
        ns.history
        ++ record { attempt = attempt; outcome = some outcome; detail = detail; at = env.now } ∷ [];
  }

  -- The end of an accepted attempt: a pending review gate, or success.
  review_or_succeed : Option String → Outputs → World → World
  review_or_succeed (some gate) outputs w =
      append_trace (gate_requested n.id gate)
        (on_state (update_node n.id (λ ns. record ns { wait = some Wait.review })) w)
  review_or_succeed none outputs w =
      append_trace (node_succeeded n.id attempt (some (env.outputs_digest outputs))) (
        on_state
          (update_node n.id
            (λ ns. record ns { status = NodeStatus.succeeded; finished_at = some env.now }))
          w)

  abbrev store_outputs : Outputs → NodeState → NodeState
  store_outputs outputs ns =
      add_history success empty_text (record ns { outputs = some outputs; last_error = none })

  -- From `node_state["outputs"] = outputs` to the `return`s.
  accept : Outputs → World → World
  accept outputs w =
      let w' = on_state (update_node n.id (store_outputs outputs)) w in
      review_or_succeed (pending_gate env spec w'.state n review) outputs w'

  unfoldable pub retry_allowed : ExecutorOutcome → Bool
  retry_allowed outcome =
      retryable outcome && ltb attempt n.max_attempts && n.idempotent && not n.side_effects

  failure_code : ExecutorOutcome → ErrorCode
  failure_code ExecutorOutcome.executor_unavailable = executor_unavailable
  failure_code o = node_failed

  -- `detail or outcome.value`
  abbrev or_outcome : Message → ExecutorOutcome → Message
  or_outcome empty_text outcome = outcome_name outcome
  or_outcome m outcome = m

  abbrev retry_later : Message → NodeState → NodeState
  retry_later detail ns = record ns {
    status = NodeStatus.ready;
    last_error = some (record { code = some node_failed; message = detail });
  }

  abbrev give_up : NodeState → NodeState
  give_up ns = record ns { status = NodeStatus.failed; finished_at = some env.now }

  -- From the entry in the history to the end.
  reject : ExecutorOutcome → Message → World → World
  reject outcome detail w =
      let w' =
        append_trace (attempt_failed n.id attempt outcome detail (retry_allowed outcome))
          (on_state (update_node n.id (add_history outcome detail)) w) in
      if retry_allowed outcome
      then on_state (update_node n.id (retry_later detail)) w'
      else record_failure env n (failure_code outcome) (or_outcome detail outcome)
          (on_state (update_node n.id give_up) w')

  -- The checks of a result that an executor reports as a success.
  check_success : Outputs → List ContractError → List CriterionResult → World → World
  check_success outputs (e ∷ es) criteria w =
      reject retryable_failure (contract_violated (e ∷ es)) w
  check_success outputs [] criteria w =
      if all (λ c. c.passed) criteria
      then accept outputs w
      else reject retryable_failure (criteria_failed (keep (λ c. not c.passed) criteria)) w

  -- `criteria` of the source: nothing is evaluated on outputs that break the contract.
  abbrev criteria_of : Outputs → List ContractError → List CriterionResult
  criteria_of outputs [] = evaluate_criteria env.re n.success_criteria outputs
  criteria_of outputs (e ∷ es) = []

  complete : ExecutorOutcome → Outputs → Message → World → World
  complete success outputs detail w =
      let errors = output_contract_errors n.outputs outputs in
      let criteria = criteria_of outputs errors in
      check_success outputs errors criteria
        (on_state (update_node n.id (λ ns. record ns { criteria = criteria })) w)
  complete outcome outputs detail w = reject outcome detail w

-- `_complete_attempt`
unfoldable pub complete_attempt : Env → GraphSpec → Node → ExecutorResult → World → World
unfolding complete check_success accept review_or_succeed reject retry_allowed failure_code
    record_failure
complete_attempt env spec n result w = elim (lookup w.state.nodes n.id) [
  | none ↦ w
  | some ns ↦ complete env spec n ns.attempts result.outcome result.outputs result.detail w
]
