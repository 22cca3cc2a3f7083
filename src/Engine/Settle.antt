-- ===== src/Engine/Settle.antt =====
-- `_settle` of ge_runtime/engine.py: how an operation leaves the run.
pub mod Final
use hermes_graph_engineering.Base.{
  String, ◌≡◌, Bool, true, false, Option, none, some, List, [], ◌∷◌, ◌++◌, lookup, all, values,
  ◌==◌, string_eq, if◌then◌else◌, arith,
}
use hermes_graph_engineering.States.{
  NodeStatus, node_terminal, RunStatus, run_terminal, HoldState, waiting_for_approval,
  waiting_for_submission, waiting_for_review, needs_attention,
}
use hermes_graph_engineering.Spec.{GateType, Node, GraphSpec, node}
use hermes_graph_engineering.Engine.State.{
  Wait, NodeState, Hold, HoldDetail, step_budget, deadlocked, RunState, World, Env, run_finished,
  append_trace, on_state,
}
use hermes_graph_engineering.Engine.Gates.{pending_gate}
use hermes_graph_engineering.Engine.Readiness.{refresh_readiness, is_succeeded}

abbrev pub all_terminal : RunState → Bool
all_terminal s = all (λ ns. node_terminal ns.status) (values s.nodes)

abbrev pub all_succeeded : RunState → Bool
all_succeeded s = all (λ ns. is_succeeded ns.status) (values s.nodes)

module _ (env : Env) (spec : GraphSpec) where
  abbrev gate_waited : RunState → String → GateType → Option String
  gate_waited s node_id type = elim (node spec node_id) [
    | none ↦ none
    | some n ↦ pending_gate env spec s n type
  ]

  -- The hold of a node that waits.
  hold_of : RunState → String → Option Wait → List Hold
  hold_of s node_id (some Wait.approval) =
      record {
        kind = waiting_for_approval;
        node = some node_id;
        gate = gate_waited s node_id GateType.approval;
        detail = none;
      }
      ∷ []
  hold_of s node_id (some Wait.review) =
      record {
        kind = waiting_for_review;
        node = some node_id;
        gate = gate_waited s node_id GateType.review;
        detail = none;
      }
      ∷ []
  hold_of s node_id (some Wait.submission) =
      record { kind = waiting_for_submission; node = some node_id; gate = none; detail = none } ∷ []
  hold_of s node_id (some Wait.attention) =
      record { kind = needs_attention; node = some node_id; gate = none; detail = none } ∷ []
  hold_of s node_id none = []

  node_holds : RunState → List String → List Hold
  node_holds s [] = []
  node_holds s (node_id ∷ order) =
      elim (lookup s.nodes node_id) [ none ↦ [] | some ns ↦ hold_of s node_id ns.wait ]
      ++ node_holds s order

  abbrev pub plain_hold : HoldDetail → Hold
  plain_hold d = record { kind = needs_attention; node = none; gate = none; detail = some d }

  abbrev budget_holds : Bool → List Hold
  budget_holds true = plain_hold step_budget ∷ []
  budget_holds false = []

  abbrev or_deadlocked : List Hold → List Hold
  or_deadlocked [] = plain_hold deadlocked ∷ []
  or_deadlocked (h ∷ hs) = h ∷ hs

  holds_of : RunState → List Hold
  holds_of s = or_deadlocked (node_holds s s.order ++ budget_holds s.budget_exhausted)

  final_status : RunState → RunStatus
  final_status s = if all_succeeded s then RunStatus.succeeded else RunStatus.failed

  -- The run's fields after the refresh, and the event if the run ends here.
  settled : World → World
  settled w =
      if run_terminal w.state.status
      then on_state (λ s. record s { holds = [] }) w
      else if all_terminal w.state
      then append_trace (run_finished (final_status w.state)) (
          on_state
            (λ s. record s { status = final_status s; holds = []; finished_at = some env.now }) w)
      else on_state
          (λ s. record s {
            holds = holds_of s;
            status = RunStatus.waiting;
            budget_exhausted = false;
          })
          w

  -- `_settle`
  unfoldable pub settle : World → World
  unfolding settled holds_of final_status node_holds hold_of
  settle w = settled (on_state (refresh_readiness spec) w)
