-- ===== src/Engine/Safety/Recovery.antt =====
-- The trail of `resume`, `retry_node` and `cancel` of ge_runtime/engine.py.
use hermes_graph_engineering.Base.{
  map_values, Table, ◌≤◌, String, ◌≡◌, refl, true, not, Option, none, some, List, [], ◌∷◌, arith,
  lookup, if_cases, if_ind, if◌then◌else◌, string_eq,
}
use hermes_graph_engineering.States.{node_terminal, NodeStatus, RunStatus, run_terminal}
use hermes_graph_engineering.Spec.{Node, GraphSpec}
use hermes_graph_engineering.Engine.State.{
  wait_is_attention, Message, NodeState, RunState, World, Env, Event, retry_authorized,
  append_trace, update_node, on_state, run_resumed,
}
use hermes_graph_engineering.Engine.Progress.{
  open_nodes, is_fitting, Progresses, Frame, Frame-refl, Frame-trans, Frame-update,
  Frame-map_values, Frame-if,
}
use hermes_graph_engineering.Engine.Readiness.{skip_open, skip_open_nodes}
use hermes_graph_engineering.Engine.Trail.{Trail, WorldOk, same, more}
use hermes_graph_engineering.Engine.Operations.{
  preflight_executors, advance_settle, set_status, if_available,
}
use hermes_graph_engineering.Engine.Recovery.{
  cancelled_state, is_interrupted, replay_safe, requeue, hold, recover_node, recover, recovered,
  resume_at, resume, retried, retry_world, retry_at, retry_node, cancel,
}
use hermes_graph_engineering.Engine.Safety.{advance_settle-Trail, save-Trail, WorldOk-same}
use hermes_graph_engineering.Engine.Safety.Operations.{OutcomeOk, if_available-Trail, WorldOk-Frame}

interrupted-Frame :
    (s : RunState) (k : String) (f : NodeState → NodeState) (ns : NodeState)
    → lookup s.nodes k ≡ some ns
    → is_interrupted ns ≡ true
    → ((v : NodeState) → (f v).attempts ≡ v.attempts)
    → is_fitting (f ns) ≡ true
    → Frame s (update_node k f s)
interrupted-Frame s k f ns e i keeps fits =
    let r : ns.status ≡ NodeStatus.running = ground arith in
    Frame-update s k f (λ v found.
      let eq : ns ≡ v = cc (e) in
      let run : v.status ≡ NodeStatus.running = rw (← eq) r in
      record {
        final = λ h. cc (run);
        attempts = rw (keeps v) (omega arith);
        opened = λ h. rw run;
        fitting = λ h. rw (← eq) fits;
      })

recover_node-Frame : (env : Env) (n : Node) (s : RunState) → Frame s (recover_node env n s)
unfolding recover_node
recover_node-Frame env n s = at_node (lookup s.nodes n.id) refl
  where
    at_node :
        (o : Option NodeState)
        → lookup s.nodes n.id ≡ o
        → Frame s (elim o as (λ x. RunState) [
          | none ↦ s
          | some ns ↦
              if is_interrupted ns
              then (if replay_safe n
                  then update_node n.id (requeue env) s
                  else update_node n.id (hold env) s)
              else s
        ])
    at_node none e = Frame-refl s
    at_node (some ns) e =
        if_cases (λ t. Frame s t) (is_interrupted ns)
          (λ i.
            Frame-if (replay_safe n) s _ _
              (interrupted-Frame s n.id (requeue env) ns e i (λ v. refl) (ground arith))
              (interrupted-Frame s n.id (hold env) ns e i (λ v. refl) (ground arith)))
          (λ _. Frame-refl s)

pub recover-Frame : (env : Env) (ns : List Node) (s : RunState) → Frame s (recover env ns s)
unfolding recover
recover-Frame env [] s = Frame-refl s
recover-Frame env (n ∷ ns) s =
    Frame-trans s (recover_node env n s) _ (recover_node-Frame env n s)
      (recover-Frame env ns (recover_node env n s))

pub skip_open-Progresses : (reason : Message) (v : NodeState) → Progresses v (skip_open reason v)
skip_open-Progresses reason v = record {
  final = λ h. rw h ((refl, refl));
  attempts =
      if_ind (λ (m : NodeState). v.attempts ≤ m.attempts) (node_terminal v.status) (omega arith)
        (omega arith);
  opened = λ h. ground arith;
  fitting = λ h. ground arith;
}

-- The nodes that are skipped are not open.
pub skip_open_nodes-closed :
    (reason : Message) (t : Table String NodeState)
    → open_nodes (map_values (skip_open reason) t) ≡ 0
skip_open_nodes-closed reason [] = refl
skip_open_nodes-closed reason ((k, v) ∷ t) =
    let rest = skip_open_nodes-closed reason t in ground arith

module _ (env : Env) (spec : GraphSpec) where
  resume_live-Trail :
      (w : World)
      → WorldOk env spec w
      → Trail env spec
          (if_available env spec (preflight_executors env spec w.state) w (
            advance_settle env spec env.max_steps
              (set_status env spec RunStatus.running w))).effects
  resume_live-Trail w ok =
      if_available-Trail env spec (preflight_executors env spec w.state) w _ ok.trail (
        advance_settle-Trail env spec env.max_steps _
          (WorldOk-same env spec w _ refl (λ h. cc (h)) same ok))

  resume_at-Trail :
      (status : RunStatus) (w : World)
      → WorldOk env spec w
      → Trail env spec (resume_at env spec status w).effects
  unfolding resume_at
  resume_at-Trail RunStatus.draft w ok = save-Trail env spec w ok
  resume_at-Trail RunStatus.approved w ok = resume_live-Trail w ok
  resume_at-Trail RunStatus.running w ok = resume_live-Trail w ok
  resume_at-Trail RunStatus.waiting w ok = resume_live-Trail w ok
  resume_at-Trail RunStatus.succeeded w ok = resume_live-Trail w ok
  resume_at-Trail RunStatus.failed w ok = resume_live-Trail w ok
  resume_at-Trail RunStatus.cancelled w ok = resume_live-Trail w ok

  pub resume-Trail : (w : World) → WorldOk env spec w → Trail env spec (resume env spec w).effects
  unfolding resume
  resume-Trail w ok = if_ind (OutcomeOk env spec) (run_terminal w.state.status) ok.trail (
      resume_at-Trail w.state.status _ (
        WorldOk-Frame env spec w
          (append_trace (run_resumed (recovered env spec.nodes w.state))
            (on_state (recover env spec.nodes) w))
          (recover-Frame env spec.nodes w.state) (more same _) ok))

  retried-Progresses :
      (ns : NodeState)
      → wait_is_attention ns.wait ≡ true
      → is_fitting ns ≡ true
      → Progresses ns (retried env spec ns)
  retried-Progresses ns held fits =
      let run : ns.status ≡ NodeStatus.running = ground arith in
      record {
        final = λ h. cc (run);
        attempts = omega arith;
        opened = λ h. rw run;
        fitting = λ h. refl;
      }

  retry_at-Trail :
      (id by : String) (o : Option NodeState) (w : World)
      → lookup w.state.nodes id ≡ o
      → WorldOk env spec w
      → Trail env spec (retry_at env spec id by o w).effects
  unfolding retry_at
  retry_at-Trail id by none w e ok = ok.trail
  retry_at-Trail id by (some ns) w e ok =
      if_cases (OutcomeOk env spec) (not (wait_is_attention ns.wait)) (λ _. ok.trail)
        (λ held. resume_live-Trail (retry_world env spec id by w) (
          WorldOk-same env spec (on_state (update_node id (retried env spec)) w) _ refl
            (λ h. cc (h)) (more same (retry_authorized id by))
            (WorldOk-Frame env spec w _
              (Frame-update w.state id (retried env spec) (λ v f.
                let eq : ns ≡ v = cc (e) in
                rw (← eq) (retried-Progresses ns (ground arith) (ok.deps.fitting id ns e))))
              same ok)))

  pub cancel-Trail :
      (by : String) (w : World) → WorldOk env spec w → Trail env spec (cancel env by w).effects
  unfolding cancel
  cancel-Trail by w ok = if_ind (OutcomeOk env spec) (run_terminal w.state.status) ok.trail (
      save-Trail env spec (append_trace (Event.run_cancelled by) (on_state (cancelled_state env) w))
        (WorldOk-same env spec (on_state (λ s. skip_open_nodes Message.run_cancelled s) w) _ refl
          (λ _. skip_open_nodes-closed Message.run_cancelled w.state.nodes)
          (more same (Event.run_cancelled by))
          (WorldOk-Frame env spec w _
            (Frame-map_values w.state (skip_open Message.run_cancelled)
              (skip_open-Progresses Message.run_cancelled))
            same ok)))

  pub retry_node-Trail :
      (id by : String) (w : World)
      → WorldOk env spec w
      → Trail env spec (retry_node env spec id by w).effects
  unfolding retry_node
  retry_node-Trail id by w ok = retry_at-Trail id by (lookup w.state.nodes id) w refl ok
