-- ===== src/Engine/Recovery.antt =====
-- `resume`, `retry_node` and `cancel` of ge_runtime/engine.py.
pub mod Interrupted
pub mod Cancelled
use hermes_graph_engineering.Base.{
  ℕ, String, ◌≡◌, Bool, true, false, ◌&&◌, not, Option, none, some, List, [], ◌∷◌, ◌++◌, lookup,
  ◌==◌, string_eq, if◌then◌else◌,
}
use hermes_graph_engineering.States.{
  NodeStatus, node_status_eq, RunStatus, run_terminal, invalid_transition, invalid_argument,
}
use hermes_graph_engineering.Spec.{Node, GraphSpec}
use hermes_graph_engineering.Engine.State.{
  Wait, wait_is_attention, NodeState, HistoryEntry, Message, requeued, not_replayed, run_cancelled,
  RunState, World, Env, run_resumed, retry_authorized, Event, append_trace, save, update_node,
  on_state,
}
use hermes_graph_engineering.Engine.Readiness.{skip_open_nodes}
use hermes_graph_engineering.Engine.Operations.{
  Outcome, raise, return, advance_settle, preflight_executors, if_available, set_status,
}

abbrev pub no_wait : Option Wait → Bool
no_wait none = true
no_wait (some w) = false

-- A node that was running when the process died.
abbrev pub is_interrupted : NodeState → Bool
is_interrupted ns = node_status_eq ns.status NodeStatus.running && no_wait ns.wait

abbrev pub replay_safe : Node → Bool
replay_safe n = n.idempotent && not n.side_effects

module _ (env : Env) where
  abbrev interrupted_entry : Message → NodeState → NodeState
  interrupted_entry detail ns = record ns {
    history =
        ns.history
        ++ record { attempt = ns.attempts; outcome = none; detail = detail; at = env.now } ∷ [];
  }

  abbrev pub requeue : NodeState → NodeState
  requeue ns = interrupted_entry requeued (record ns { status = NodeStatus.ready })

  abbrev pub hold : NodeState → NodeState
  hold ns = interrupted_entry not_replayed (record ns { wait = some Wait.attention })

  -- One round of the loop of `resume`.
  unfoldable pub recover_node : Node → RunState → RunState
  recover_node n s = elim (lookup s.nodes n.id) [
    | none ↦ s
    | some ns ↦
        if is_interrupted ns
        then (if replay_safe n then update_node n.id requeue s else update_node n.id hold s)
        else s
  ]

  -- The entry of a node in `recovered`, and whether it was queued again.
  abbrev recovered_entry : Node → RunState → List (String × Bool)
  recovered_entry n s = elim (lookup s.nodes n.id) [
    | none ↦ []
    | some ns ↦ if is_interrupted ns then (n.id, replay_safe n) ∷ [] else []
  ]

  unfoldable pub recover : List Node → RunState → RunState
  unfolding recover_node
  recover [] s = s
  recover (n ∷ ns) s = recover ns (recover_node n s)

  unfoldable pub recovered : List Node → RunState → List (String × Bool)
  unfolding recover_node
  recovered [] s = []
  recovered (n ∷ ns) s = recovered_entry n s ++ recovered ns (recover_node n s)

  module _ (spec : GraphSpec) where
    -- After the recovery: `resume` goes on unless the plan is still a draft.
    unfoldable pub resume_at : RunStatus → World → Outcome
    resume_at RunStatus.draft w = return (save env w)
    resume_at status w =
        if_available env spec (preflight_executors env spec w.state) w
          (advance_settle env spec env.max_steps (set_status env spec RunStatus.running w))

    unfoldable pub resume : World → Outcome
    unfolding resume_at if_available
    resume w =
        if run_terminal w.state.status
        then raise invalid_transition w
        else resume_at w.state.status (
            append_trace (run_resumed (recovered spec.nodes w.state))
              (on_state (recover spec.nodes) w))

    abbrev pub retried : NodeState → NodeState
    retried m = record m { wait = none; status = NodeStatus.ready }

    abbrev pub retry_world : String → String → World → World
    retry_world node_id decided_by w = set_status env spec RunStatus.running (
        append_trace (retry_authorized node_id decided_by)
          (on_state (update_node node_id retried) w))

    unfoldable pub retry_at : String → String → Option NodeState → World → Outcome
    retry_at node_id decided_by none w = raise invalid_argument w
    retry_at node_id decided_by (some ns) w =
        if not (wait_is_attention ns.wait)
        then raise invalid_transition w
        else let w' = retry_world node_id decided_by w in
          if_available env spec (preflight_executors env spec w'.state) w'
            (advance_settle env spec env.max_steps w')

    unfoldable pub retry_node : String → String → World → Outcome
    unfolding retry_at if_available
    retry_node node_id decided_by w = retry_at node_id decided_by (lookup w.state.nodes node_id) w

  abbrev pub cancelled_state : RunState → RunState
  cancelled_state s = record (skip_open_nodes Message.run_cancelled s) {
    status = RunStatus.cancelled;
    holds = [];
    finished_at = some env.now;
  }

  unfoldable pub cancel : String → World → Outcome
  cancel decided_by w =
      if run_terminal w.state.status
      then raise invalid_transition w
      else return
          (save env (append_trace (Event.run_cancelled decided_by) (on_state cancelled_state w)))
