-- ===== src/Hermes/Delivery.antt =====
-- `_execute_and_submit` and `_submit` of ge_hermes/dispatch.py.
pub mod Kept
pub mod Ends
use text.Mathlib.Text.{starts_with}
use Prim.Native.String.{◌++◌}
use hermes_graph_engineering.Base.{
  ℕ, String, Bool, true, false, Option, none, some, List, [], ◌∷◌, ◌==◌, string_eq, if◌then◌else◌,
}
use hermes_graph_engineering.Values.{Value, obj, fields_of}
use hermes_graph_engineering.Contracts.{Outputs}
use hermes_graph_engineering.States.{
  RunStatus, ExecutorOutcome, success, retryable_failure, non_retryable_failure, cancelled,
  governance_blocked, executor_unavailable, ErrorCode, invalid_transition, invalid_argument,
  host_result_invalid, host_execution_failed,
}
use hermes_graph_engineering.Spec.{GraphSpec}
use hermes_graph_engineering.Engine.State.{RunState, Env, Hold}
use hermes_graph_engineering.Engine.Operations.{
  Result, done, raises, out_of_fuel, Outcome, Submission, outputs, failed,
}
use hermes_graph_engineering.Engine.Lifecycle.{Operation, submit_node}
use hermes_graph_engineering.Engine.Views.{WorkOrder}
use hermes_graph_engineering.Hermes.Reply.{
  Parsing, Extracted, extracted, not_found, extract_outputs, clip, max_detail_chars,
}
use hermes_graph_engineering.Hermes.Guard.{WorkerScope, Process, worker_scope, reset_worker}
use hermes_graph_engineering.Hermes.WorkerContext.{WorkerContext, Dumps, build_worker_context}
use hermes_graph_engineering.Hermes.Host.{
  Step, worked, Host, note, outcome_of, call, interlude, release_claim,
}

-- ExecutorResult as a host returns it.
pub record HostResult : Type 0 where
  pub outcome : ExecutorOutcome
  pub outputs : Outputs
  pub detail : String

-- What `execute_agent_work` returns or raises: another value, a GraphEngineeringError with its
-- message, or another exception with the name of its type.
pub data HostReply : Type 0 where
  replied : HostResult → HostReply
  unrecognized : HostReply
  reported : String → HostReply
  crashed : String → HostReply

-- What a dispatcher is made with. `elapsed` is the time, in whole seconds, since the call of `drive`
-- before a dispatch, by the number of dispatches made.
pub record Dispatcher : Type 0 where
  pub parsing : Parsing
  pub dumps : Dumps
  pub execute_agent_work : Process → WorkOrder → WorkerContext → HostReply
  pub state_key : String
  pub max_dispatches : ℕ
  pub node_timeout_seconds : ℕ
  pub call_budget_seconds : Option ℕ
  pub elapsed : ℕ → ℕ

-- Why `drive` stops.
pub data Stop : Type 0 where
  run_finished : RunStatus → Stop
  no_pending_work : List Hold → Stop
  interrupted_dispatch : String → Stop
  host_unavailable host_declined : String → Stop
  state_changed : Option ErrorCode → Stop
  plan_not_approved budget_exhausted time_budget_exhausted dispatch_in_progress worker_context :
      Stop

-- An entry of `report["dispatched"]`.
pub record Entry : Type 0 where
  pub node : String
  pub attempt : ℕ
  pub outcome : ExecutorOutcome
  pub submitted : Bool
  pub failed : Option String
  pub error : Option ErrorCode

abbrev pub failure_of : String → HostResult
failure_of detail = record { outcome = retryable_failure; outputs = []; detail = detail }

abbrev pub refusal_of : String → HostResult
refusal_of detail = record { outcome = non_retryable_failure; outputs = []; detail = detail }

abbrev pub result_of : HostReply → HostResult
result_of (replied r) = r
result_of unrecognized = failure_of "host returned an unrecognized result"
result_of (reported message) = refusal_of message
result_of (crashed type) = failure_of ("host execution failed (" ++ (type ++ ")"))

abbrev pub clip_or : String → String → String
clip_or text default =
    let clipped = clip max_detail_chars text in if clipped == "" then default else clipped

abbrev pub invalid_result : String → String
invalid_result why = "host returned invalid result: " ++ clip max_detail_chars why

abbrev pub is_success : ExecutorOutcome → Bool
is_success success = true
is_success outcome = false

abbrev pub is_invalid_argument : ErrorCode → Bool
is_invalid_argument invalid_argument = true
is_invalid_argument code = false

abbrev pub is_invalid_transition : ErrorCode → Bool
is_invalid_transition invalid_transition = true
is_invalid_transition code = false

abbrev pub entry_of : WorkOrder → HostResult → Bool → Entry
entry_of order r submitted = record {
  node = order.node;
  attempt = order.attempt;
  outcome = r.outcome;
  submitted = submitted;
  failed = none;
  error = none;
}

abbrev pub failed_entry : WorkOrder → HostResult → String → Entry
failed_entry order r detail = record (entry_of order r true) {
  failed = some detail;
  error = some (
      if starts_with detail "host returned invalid result"
      then host_result_invalid
      else host_execution_failed);
}

-- The host's turn with one node: the entry, and the reason to stop, if any; or the error that leaves
-- `drive`. `stuck` is the model's own.
pub data Turn : Type 0 where
  went_on : Entry → Turn
  stopped_at : Entry → Stop → Turn
  raised_in : ErrorCode → Turn
  stuck : Turn

-- `except GraphEngineeringError` around `_submit`
abbrev pub after_raise : WorkOrder → HostResult → ErrorCode → Turn
after_raise order r code =
    if is_invalid_transition code
    then stopped_at (entry_of order r false) (state_changed (some code))
    else raised_in code

abbrev pub submitter : String
submitter = "agent:host-autonomous"

-- The message of INVALID_ARGUMENT, which `submit` raises for outputs of a node of the run only where
-- they cannot be written or are too large.
abbrev pub refusal : Env → Outputs → String
refusal env o = elim (env.encoded_size (obj (fields_of o))) [
  | none ↦ "outputs must be JSON-serializable"
  | some size ↦ "outputs exceed 1000000 bytes"
]

abbrev pub declined : WorkOrder → HostResult → Host → Turn × Host
declined order r h = (
  stopped_at (entry_of order r false) (
      host_declined (clip_or r.detail "host stopped before finishing the node; node left waiting")),
  h,
)

module _ (env : Env) (spec : GraphSpec) (d : Dispatcher) where
  abbrev pub failure_call : WorkOrder → String → Operation
  failure_call order detail = submit_node order.node (failed detail) submitter

  abbrev pub outputs_call : WorkOrder → Outputs → Operation
  outputs_call order o = submit_node order.node (outputs (obj (fields_of o))) submitter

  after_failure : WorkOrder → HostResult → String → Result → Host → Turn × Host
  after_failure order r detail (done s) h = (went_on (failed_entry order r detail), h)
  after_failure order r detail (raises code) h = (after_raise order r code, h)
  after_failure order r detail out_of_fuel h = (stuck, h)

  -- The last part of `_submit`.
  submit_failure : WorkOrder → HostResult → String → Host → Turn × Host
  unfolding after_failure
  submit_failure order r detail h =
      after_failure order r detail (outcome_of env spec (failure_call order detail) h).result
        (call env spec (failure_call order detail) h)

  after_outputs : WorkOrder → HostResult → Outputs → Result → Host → Turn × Host
  unfolding submit_failure
  after_outputs order r o (done s) h = (went_on (entry_of order r true), h)
  after_outputs order r o (raises code) h = elim (is_invalid_argument code) [
    | true ↦ submit_failure order r (invalid_result (refusal env o)) (interlude env spec h)
    | false ↦ (after_raise order r code, h)
  ]
  after_outputs order r o out_of_fuel h = (stuck, h)

  submit_extracted : WorkOrder → HostResult → Extracted → Host → Turn × Host
  unfolding after_outputs submit_failure
  submit_extracted order r (extracted o) h =
      after_outputs order r o (outcome_of env spec (outputs_call order o) h).result
        (call env spec (outputs_call order o) h)
  submit_extracted order r (not_found why) h = submit_failure order r (invalid_result why) h

  -- `_submit`
  unfoldable pub submit_result : WorkOrder → HostResult → Host → Turn × Host
  unfolding submit_extracted submit_failure extract_outputs clip
  submit_result order r h = elim (is_success r.outcome) [
    | true ↦
        submit_extracted order r
          (extract_outputs d.parsing (obj (fields_of r.outputs)) order.outputs) h
    | false ↦ submit_failure order r (clip_or r.detail "host execution failed") h
  ]

  -- What follows the execution, by its outcome.
  after_outcome : WorkOrder → ℕ → HostResult → ExecutorOutcome → Host → Turn × Host
  unfolding submit_result clip
  after_outcome order dispatch r executor_unavailable h = (
    stopped_at (entry_of order r false)
        (host_unavailable (clip_or r.detail "host agent execution unavailable")),
    release_claim order dispatch "host unavailable" h,
  )
  after_outcome order dispatch r cancelled h = declined order r h
  after_outcome order dispatch r governance_blocked h = declined order r h
  after_outcome order dispatch r outcome h = submit_result order r h

  unfoldable pub after_work : WorkOrder → ℕ → HostResult → Host → Turn × Host
  unfolding after_outcome
  after_work order dispatch r h = after_outcome order dispatch r r.outcome h

  -- `with worker_scope(WorkerScope(run_id, node_id))`: in its body, a host calls the tool in the
  -- process that `execute_agent_work` is given.
  unfoldable pub in_scope :
      WorkOrder → WorkerContext → Option WorkerScope × Process → Host → HostReply × Host
  unfolding reset_worker
  in_scope order context (token, p) h = (
    d.execute_agent_work p order context,
    record (note (worked p order context) h) { process = reset_worker token p },
  )

  abbrev pub scope_of : WorkOrder → WorkerScope
  scope_of order = record { run_id = order.run_id; node_id = order.node }

  -- The work itself, at the context that was built, if it was.
  unfoldable pub work : WorkOrder → Option WorkerContext → Host → HostResult × Host
  unfolding in_scope worker_scope
  work order none h =
      (refusal_of ("node " ++ (order.node ++ " work order is too large to hand to the host")), h)
  work order (some context) h =
      let (reply, h') = in_scope order context (worker_scope (scope_of order) h.process) h in
      (result_of reply, h')

  -- `_execute_and_submit`. While the host works, the lock is free.
  unfoldable pub execute_and_submit : RunState → WorkOrder → ℕ → Host → Turn × Host
  unfolding work after_work build_worker_context
  execute_and_submit s order dispatch h =
      let (r, h') =
        work order (build_worker_context d.dumps s.graph_id order dispatch d.node_timeout_seconds)
          h in
      after_work order dispatch r (interlude env spec h')
