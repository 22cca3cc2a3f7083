-- ===== src/Engine/Views.antt =====
-- `status_summary` and `pending_work` of ge_runtime/engine.py. The state of every node is in the
-- table, as `load` checks.
pub mod Pending
use hermes_graph_engineering.Base.{
  ℕ, String, string_eq, Bool, true, false, ◌&&◌, ◌||◌, not, Option, none, some, List, [], ◌∷◌, ◌++◌,
  Table, lookup, keep, length, map, if◌then◌else◌,
}
use hermes_graph_engineering.Contracts.{Outputs, OutputSpec, Criterion}
use hermes_graph_engineering.States.{NodeStatus, node_status_eq, RunStatus}
use hermes_graph_engineering.Spec.{GateType, Gate, Node, GraphSpec, node}
use hermes_graph_engineering.Engine.State.{
  Wait, Message, ErrorRecord, Failure, NodeState, Target, plan, gate, target_eq, ApprovalRecord,
  Decision, Hold, Verification, RunState,
}
use hermes_graph_engineering.Engine.Readiness.{status_is}

-- The status of a gate in a summary.
pub data GateStatus : Type 0 where
  decided : Decision → GateStatus
  pending not_reached : GateStatus

pub record GateRow : Type 0 where
  pub target : Target
  pub type : Option GateType
  pub status : GateStatus

pub record NodeRow : Type 0 where
  pub status : NodeStatus
  pub attempts : ℕ
  pub wait : Option Wait

pub record Summary : Type 0 where
  pub run_id : String
  pub graph_id : String
  pub title : String
  pub status : RunStatus
  pub current_nodes : List String
  pub completed_nodes : List String
  pub blocked_nodes : List (String × Option Message)
  pub failed_nodes : List (String × Option ErrorRecord)
  pub skipped_nodes : List String
  pub nodes : List (String × NodeRow)
  pub holds : List Hold
  pub gates : List GateRow
  pub failure : Option Failure
  pub verification : Option Verification
  pub updated_at : String

-- `with_status[status]`
abbrev pub with_status : RunState → NodeStatus → List String
with_status s status = keep (status_is (λ st. node_status_eq st status) s) s.order

abbrev or_ready : RunState → List String → List String
or_ready s [] = with_status s NodeStatus.ready
or_ready s (k ∷ ks) = k ∷ ks

abbrev last_error_of : RunState → String → Option ErrorRecord
last_error_of s node_id = elim (lookup s.nodes node_id) [ none ↦ none | some ns ↦ ns.last_error ]

abbrev message_of : Option ErrorRecord → Option Message
message_of none = none
message_of (some e) = some e.message

abbrev decision_of : Option ApprovalRecord → GateStatus
decision_of none = pending
decision_of (some r) = decided r.status

abbrev waits_at_gate : Option NodeState → Bool
waits_at_gate none = false
waits_at_gate (some ns) = elim ns.wait [
  | none ↦ false
  | some wait ↦ elim wait [ Wait.approval ↦ true | Wait.review ↦ true | _ ↦ false ]
]

abbrev gate_status : RunState → String → Option ApprovalRecord → GateStatus
gate_status s node_id (some r) = decided r.status
gate_status s node_id none = if waits_at_gate (lookup s.nodes node_id) then pending else not_reached

gate_rows : RunState → String → List Gate → List GateRow
gate_rows s node_id [] = []
gate_rows s node_id (g ∷ gs) =
    record {
      target = gate node_id g.id;
      type = some g.type;
      status = gate_status s node_id (lookup s.approvals (gate node_id g.id));
    }
    ∷ gate_rows s node_id gs

abbrev gates_of : Option Node → List Gate
gates_of none = []
gates_of (some n) = n.gates

all_gate_rows : GraphSpec → RunState → List String → List GateRow
unfolding gate_rows
all_gate_rows spec s [] = []
all_gate_rows spec s (k ∷ ks) = gate_rows s k (gates_of (node spec k)) ++ all_gate_rows spec s ks

abbrev row_of : NodeState → NodeRow
row_of ns = record { status = ns.status; attempts = ns.attempts; wait = ns.wait }

node_rows : RunState → List String → List (String × NodeRow)
node_rows s [] = []
node_rows s (k ∷ ks) =
    elim (lookup s.nodes k) [ none ↦ [] | some ns ↦ (k, row_of ns) ∷ [] ] ++ node_rows s ks

unfoldable pub status_summary : RunState → GraphSpec → Summary
unfolding all_gate_rows node_rows
status_summary s spec = record {
  run_id = s.run_id;
  graph_id = s.graph_id;
  title = s.title;
  status = s.status;
  current_nodes = or_ready s (with_status s NodeStatus.running);
  completed_nodes = with_status s NodeStatus.succeeded;
  blocked_nodes = map (λ k. (k, message_of (last_error_of s k))) (with_status s NodeStatus.blocked);
  failed_nodes = map (λ k. (k, last_error_of s k)) (with_status s NodeStatus.failed);
  skipped_nodes = with_status s NodeStatus.skipped;
  nodes = node_rows s s.order;
  holds = s.holds;
  gates =
      record { target = plan; type = none; status = decision_of (lookup s.approvals plan) }
      ∷ all_gate_rows spec s s.order;
  failure = s.failure;
  verification = s.verification;
  updated_at = s.updated_at;
}

-- A work order for an agent.
pub record WorkOrder : Type 0 where
  pub run_id : String
  pub node : String
  pub name : String
  pub purpose : String
  pub instructions : String
  pub requires : List String
  pub inputs : Option Outputs
  pub outputs : Table String OutputSpec
  pub success_criteria : List Criterion
  pub attempt : ℕ
  pub max_attempts : ℕ

abbrev pub work_order : RunState → String → NodeState → Node → WorkOrder
work_order s node_id ns n = record {
  run_id = s.run_id;
  node = node_id;
  name = n.name;
  purpose = n.purpose;
  instructions = n.instructions;
  requires = n.requires;
  inputs = ns.inputs;
  outputs = n.outputs;
  success_criteria = n.success_criteria;
  attempt = ns.attempts;
  max_attempts = n.max_attempts;
}

-- `ns["status"] == NodeStatus.RUNNING.value and ns["wait"] == "submission"`
abbrev pub is_submission : Option Wait → Bool
is_submission (some Wait.submission) = true
is_submission w = false

abbrev pub has_work : NodeState → Bool
has_work ns = node_status_eq ns.status NodeStatus.running && is_submission ns.wait

orders_at : RunState → String → Option NodeState → Option Node → List WorkOrder
orders_at s node_id none n = []
orders_at s node_id (some ns) none = []
orders_at s node_id (some ns) (some n) = if has_work ns then work_order s node_id ns n ∷ [] else []

pub pending_from : RunState → GraphSpec → List String → List WorkOrder
unfolding orders_at
pending_from s spec [] = []
pending_from s spec (k ∷ ks) =
    orders_at s k (lookup s.nodes k) (node spec k) ++ pending_from s spec ks

unfoldable pub pending_work : RunState → GraphSpec → List WorkOrder
unfolding pending_from orders_at
pending_work s spec = pending_from s spec s.order
