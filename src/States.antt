-- ===== src/States.antt =====
-- ge_runtime/states.py, and the outcomes of ge_runtime/adapters/types.py and the codes of
-- ge_runtime/errors.py that the engine uses.
use hermes_graph_engineering.Base.{Bool, true, false}

pub data TerminalOutcome : Type 0 where
  succeeded failed cancelled budget_exhausted hard_stopped deadlocked : TerminalOutcome

pub data HoldState : Type 0 where
  waiting_for_approval waiting_for_submission waiting_for_review needs_attention : HoldState

pub data NodeStatus : Type 0 where
  pending ready running succeeded failed blocked skipped : NodeStatus

pub data RunStatus : Type 0 where
  draft approved running waiting succeeded failed cancelled : RunStatus

-- `status in NODE_TERMINAL`
abbrev pub node_terminal : NodeStatus → Bool
node_terminal NodeStatus.succeeded = true
node_terminal NodeStatus.failed = true
node_terminal NodeStatus.blocked = true
node_terminal NodeStatus.skipped = true
node_terminal NodeStatus.pending = false
node_terminal NodeStatus.ready = false
node_terminal NodeStatus.running = false

-- `status in RUN_TERMINAL`
abbrev pub run_terminal : RunStatus → Bool
run_terminal RunStatus.succeeded = true
run_terminal RunStatus.failed = true
run_terminal RunStatus.cancelled = true
run_terminal RunStatus.draft = false
run_terminal RunStatus.approved = false
run_terminal RunStatus.running = false
run_terminal RunStatus.waiting = false

pub data ExecutorOutcome : Type 0 where
  success retryable_failure non_retryable_failure timeout cancelled : ExecutorOutcome
  governance_blocked executor_unavailable : ExecutorOutcome

-- The codes that the engine raises or records.
pub data ErrorCode : Type 0 where
  graph_invalid dependency_cycle executor_unavailable node_failed gate_failed : ErrorCode
  state_corrupt plugin_configuration_invalid run_not_found run_locked : ErrorCode
  invalid_transition invalid_argument trace_write_failed state_write_failed : ErrorCode
  host_execution_unavailable host_execution_failed host_result_invalid : ErrorCode
  worker_context_restricted dispatch_in_progress dispatch_interrupted : ErrorCode

-- `a is b` on node statuses and on run statuses.
abbrev pub node_status_eq : NodeStatus → NodeStatus → Bool
node_status_eq NodeStatus.pending NodeStatus.pending = true
node_status_eq NodeStatus.ready NodeStatus.ready = true
node_status_eq NodeStatus.running NodeStatus.running = true
node_status_eq NodeStatus.succeeded NodeStatus.succeeded = true
node_status_eq NodeStatus.failed NodeStatus.failed = true
node_status_eq NodeStatus.blocked NodeStatus.blocked = true
node_status_eq NodeStatus.skipped NodeStatus.skipped = true
node_status_eq a b = false
