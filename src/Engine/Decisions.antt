-- ===== src/Engine/Decisions.antt =====
-- `decide` of ge_runtime/engine.py: an operator's decision on the plan or on a gate.
pub mod Trails
pub mod Binding
use hermes_graph_engineering.Base.{
  String, ◌≡◌, Bool, true, false, ◌&&◌, ◌||◌, not, Option, none, some, List, [], ◌∷◌, lookup,
  insert, ◌==◌, string_eq, if◌then◌else◌,
}
use hermes_graph_engineering.Values.{has_text}
use hermes_graph_engineering.States.{
  NodeStatus, RunStatus, run_terminal, ErrorCode, gate_failed, invalid_transition, invalid_argument,
}
use hermes_graph_engineering.Spec.{Gate, GateType, approval, review, Node, GraphSpec, node}
use hermes_graph_engineering.Engine.State.{
  Wait, NodeState, Message, gate_denied_by, plan_denied, Target, plan, gate, no_gate, target_eq,
  Action, plan_action, ApprovalBinding, ApprovalRecord, Decision, approved, denied, RunState, World,
  Env, approval_decided, node_succeeded, append_trace, save, update_node, on_state,
}
use hermes_graph_engineering.Engine.Gates.{bind, gate_of, gate_action_of, pending_gate}
use hermes_graph_engineering.Engine.Readiness.{skip_open_nodes}
use hermes_graph_engineering.Engine.Attempt.{record_failure}
use hermes_graph_engineering.Engine.Operations.{
  Outcome, Result, done, raise, return, advance_settle,
}
use hermes_graph_engineering.Engine.Settle.{settle}

-- Does the node wait for a gate of this type?
abbrev pub awaits : GateType → Option Wait → Bool
awaits approval (some Wait.approval) = true
awaits review (some Wait.review) = true
awaits type w = false

abbrev pub is_gate : String → Option String → Bool
is_gate gate_id none = false
is_gate gate_id (some g) = g == gate_id

abbrev pub in_progress : RunStatus → Bool
in_progress RunStatus.running = true
in_progress RunStatus.waiting = true
in_progress st = false

module _ (env : Env) (spec : GraphSpec) (approve : Bool) (decided_by : String) where
  -- The record of the decision and its event.
  unfoldable pub recorded : Target → Action → World → World
  recorded target action w =
      let binding = bind env spec w.state.run_id target action in
      let digest = env.binding_digest binding in
      append_trace (approval_decided target approve decided_by digest) (
        on_state
          (λ s. record s {
            approvals = insert s.approvals target (record {
              status = if approve then approved else denied;
              binding = some binding;
              binding_digest = some digest;
              decided_by = decided_by;
              decided_at = env.now;
            });
          })
          w)

  abbrev pub deny_plan : RunState → RunState
  deny_plan s = record (skip_open_nodes plan_denied s) {
    status = RunStatus.cancelled;
    failure = some (record { code = gate_failed; node = none; message = plan_denied });
    finished_at = some env.now;
  }

  unfoldable pub decide_plan : RunStatus → World → Outcome
  unfolding recorded
  decide_plan RunStatus.draft w =
      let w' = recorded plan (plan_action w.state.order spec.digest) w in
      return (
        save env (
          on_state (λ s. if approve then record s { status = RunStatus.approved } else deny_plan s)
            w'))
  decide_plan status w = raise invalid_transition w

  abbrev reviewed : NodeState → NodeState
  reviewed m = record m { wait = none; status = NodeStatus.succeeded; finished_at = some env.now }

  -- What an approved gate changes in its node, once no gate of the type is pending.
  pass_gate : Node → NodeState → GateType → Option String → World → World
  pass_gate n ns type (some g) w = w
  pass_gate n ns approval none w = on_state (update_node n.id (λ m. record m { wait = none })) w
  pass_gate n ns review none w =
      append_trace (node_succeeded n.id ns.attempts none) (on_state (update_node n.id reviewed) w)

  -- A denied gate fails its node.
  deny_gate : Node → String → World → World
  deny_gate n gate_id w = record_failure env n gate_failed (gate_denied_by gate_id decided_by) (
      on_state
        (update_node n.id
          (λ m. record m { status = NodeStatus.failed; wait = none; finished_at = some env.now }))
        w)

  -- `_advance` only if the run is in progress; `_settle` and `_save` always.
  conclude : World → Outcome
  unfolding advance_settle
  conclude w =
      if in_progress w.state.status
      then advance_settle env spec env.max_steps w
      else return (save env (settle env spec w))

  abbrev pub awaits_gate : Node → NodeState → Gate → RunState → Bool
  awaits_gate n ns g s = awaits g.type ns.wait && is_gate g.id (pending_gate env spec s n g.type)

  -- The node's wait is the one for the gate's type, so the gate's type says which branch is taken.
  gate_passed : Node → NodeState → Gate → World → World
  gate_passed n ns g w =
      if approve
      then pass_gate n ns g.type (pending_gate env spec w.state n g.type) w
      else deny_gate n g.id w

  unfoldable pub decide_gate : Node → NodeState → Option Gate → World → Outcome
  unfolding recorded gate_passed pass_gate deny_gate conclude
  decide_gate n ns none w = raise invalid_argument w
  decide_gate n ns (some g) w =
      if awaits_gate n ns g w.state
      then conclude (gate_passed n ns g (recorded (gate n.id g.id) (gate_action_of w.state n g) w))
      else raise invalid_transition w

  unfoldable pub decide_at : String → Option NodeState → Option Node → World → Outcome
  decide_at gate_id none n w = raise invalid_argument w
  decide_at gate_id (some ns) none w = raise invalid_argument w
  decide_at gate_id (some ns) (some n) w = decide_gate n ns (gate_of n gate_id) w

  -- A target with a colon, one without, or the plan.
  unfoldable pub decide_checked : Target → World → Outcome
  decide_checked plan w = decide_plan w.state.status w
  decide_checked (no_gate s) w = raise invalid_argument w
  decide_checked (gate node_id gate_id) w =
      decide_at gate_id (lookup w.state.nodes node_id) (node spec node_id) w

  -- `decide`: a decider with a name, a run that is not over, and then the target.
  unfoldable pub decide : Target → World → Outcome
  unfolding decide_checked decide_at decide_plan decide_gate
  decide target w =
      if not (has_text decided_by)
      then raise invalid_argument w
      else if run_terminal w.state.status
      then raise invalid_transition w
      else decide_checked target w
