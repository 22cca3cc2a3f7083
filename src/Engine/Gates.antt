-- ===== src/Engine/Gates.antt =====
-- Approval gates and review gates: `_binding`, `_pending_gate` and `_denied_gate` of
-- ge_runtime/engine.py, and `get` of the catalog of ge_runtime/executors.py.
pub mod Stable
use hermes_graph_engineering.Base.{
  String, ◌≡◌, Bool, true, false, ◌&&◌, ◌||◌, not, Option, none, some, List, [], ◌∷◌, Table, lookup,
  find, contains, ◌==◌, string_eq, if◌then◌else◌, arith,
}
use hermes_graph_engineering.Values.{Value}
use hermes_graph_engineering.Spec.{Gate, GateType, approval, review, Node, GraphSpec}
use hermes_graph_engineering.Engine.State.{
  Target, gate, plan, target_eq, Action, plan_action, gate_action, review_action, ApprovalBinding,
  ApprovalRecord, Decision, approved, denied, RunState, NodeState, Env, Executor,
}

abbrev pub gate_type_eq : GateType → GateType → Bool
gate_type_eq approval approval = true
gate_type_eq review review = true
gate_type_eq a b = false

-- `next((g for g in node["gates"] if g["id"] == gate_id), None)`
abbrev pub gate_of : Node → String → Option Gate
gate_of n gate_id = find (λ g. g.id == gate_id) n.gates

-- `state["nodes"][node_id].get("outputs")`
abbrev pub node_outputs : RunState → String → Option (Table String Value)
node_outputs s node_id = elim (lookup s.nodes node_id) [ none ↦ none | some ns ↦ ns.outputs ]

abbrev pub gate_action_of : RunState → Node → Gate → Action
gate_action_of s n g = elim g.type [
  | approval ↦ gate_action n g
  | review ↦ review_action n g (node_outputs s n.id)
]

abbrev pub decision_eq : Decision → Decision → Bool
decision_eq approved approved = true
decision_eq denied denied = true
decision_eq Decision.not_required Decision.not_required = true
decision_eq a b = false

module _ (env : Env) (spec : GraphSpec) where
  -- The binding of a target of a run, whose action is known.
  abbrev pub bind : String → Target → Action → ApprovalBinding
  bind run_id target action = record {
    graph_id = spec.graph_id;
    spec_version = spec.digest;
    run_id = run_id;
    node_or_transition = target;
    action_digest = env.action_digest action;
  }

  -- `_binding(...).digest()` of a gate and of the plan.
  unfoldable pub gate_digest : RunState → Node → Gate → String
  gate_digest s n g = env.binding_digest (bind s.run_id (gate n.id g.id) (gate_action_of s n g))

  unfoldable pub plan_digest : RunState → String
  plan_digest s = env.binding_digest (bind s.run_id plan (plan_action s.order spec.digest))

-- `record and record.status == "APPROVED" and record.binding_digest == digest`
abbrev pub counts : Option ApprovalRecord → String → Bool
counts none digest = false
counts (some r) digest =
    decision_eq r.status approved && elim r.binding_digest [ none ↦ false | some d ↦ d == digest ]

module _ (env : Env) (spec : GraphSpec) where
  -- An approval counts for the binding that the gate has now.
  unfoldable pub approved_now : RunState → Node → Gate → Bool
  approved_now s n g = counts (lookup s.approvals (gate n.id g.id)) (gate_digest env spec s n g)

  unfoldable pub pending_among : RunState → Node → GateType → List Gate → Option String
  pending_among s n type [] = none
  pending_among s n type (g ∷ gs) =
      let rest = pending_among s n type gs in
      if not (gate_type_eq g.type type)
      then rest
      else if approved_now s n g
      then rest
      else some g.id

  -- `_pending_gate`
  unfoldable pub pending_gate : RunState → Node → GateType → Option String
  unfolding pending_among
  pending_gate s n type = pending_among s n type n.gates

abbrev is_denied : Option ApprovalRecord → Bool
is_denied none = false
is_denied (some r) = decision_eq r.status denied

denied_among : Table Target ApprovalRecord → Node → List Gate → Option String
denied_among approvals n [] = none
denied_among approvals n (g ∷ gs) =
    let rest = denied_among approvals n gs in
    if is_denied (lookup approvals (gate n.id g.id)) then some g.id else rest

-- `_denied_gate`
unfoldable pub denied_gate : RunState → Node → Option String
unfolding denied_among
denied_gate s n = denied_among s.approvals n n.gates

-- `self.catalog.get(name)`: `none` where EXECUTOR_UNAVAILABLE is raised. The executors of a catalog
-- have different names, as they are the keys of its dictionary.
unfoldable pub catalog_get : Env → String → Option Executor
catalog_get env name = elim (find (λ ex. ex.name == name) env.executors) [
  | none ↦ none
  | some ex ↦ if contains env.disabled name then none else some ex
]
