-- ===== src/Engine/Decisions/Trails.antt =====
-- The trail of `decide` of ge_runtime/engine.py.
use mathlib.Core.Path.{subst}
use hermes_graph_engineering.Base.{
  sym, String, ◌≡◌, refl, ◌&&◌, ◌||◌, Bool, true, false, not, Option, none, some, arith, lookup,
  if_cases, if_ind, if◌then◌else◌, string_eq,
}
use hermes_graph_engineering.Values.{has_text}
use hermes_graph_engineering.States.{
  node_terminal, NodeStatus, RunStatus, run_terminal, gate_failed,
}
use hermes_graph_engineering.Spec.{Node, Gate, GateType, approval, review, GraphSpec, node}
use hermes_graph_engineering.Engine.State.{
  plan, gate, no_gate, Target, Action, gate_denied_by, plan_denied, node_succeeded, NodeState,
  World, Env, on_state, plan_action,
}
use hermes_graph_engineering.Engine.Gates.{gate_of, pending_gate, gate_action_of}
use hermes_graph_engineering.Engine.Progress.{
  is_started, wait_fits, has_started, is_fitting, Progresses, Frame-update, Frame-map_values,
}
use hermes_graph_engineering.Engine.Readiness.{skip_open}
use hermes_graph_engineering.Engine.Attempt.Forward.{changed-Frame}
use hermes_graph_engineering.Engine.Attempt.Events.{record_failure-Quiet}
use hermes_graph_engineering.Engine.Trail.{Trail, WorldOk, same, more}
use hermes_graph_engineering.Engine.Advance.Forward.{node_id-eq}
use hermes_graph_engineering.Engine.Safety.{
  WorldOk-if, settle-WorldOk, advance_settle-Trail, save-Trail, WorldOk-same,
}
use hermes_graph_engineering.Engine.Safety.Operations.{OutcomeOk, WorldOk-Frame}
use hermes_graph_engineering.Engine.Safety.Recovery.{skip_open-Progresses, skip_open_nodes-closed}
use hermes_graph_engineering.Engine.State.{wait_is_attention}
use hermes_graph_engineering.Engine.Decisions.{
  Wait, settle, skip_open_nodes, awaits, in_progress, awaits_gate, recorded, deny_plan, decide_plan,
  reviewed, pass_gate, deny_gate, conclude, gate_passed, decide_gate, decide_at, decide_checked,
  decide,
}

-- READY, RUNNING or SUCCEEDED, and not terminal.
record Halted (v : NodeState) : Type 0 where
  open_still : node_terminal v.status ≡ false
  begun : has_started v ≡ true

and-left : (a b : Bool) → (a && b) ≡ true → a ≡ true
and-left true b h = refl
and-left false b h = h

awaited-open :
    (t : GateType) (w : Option Wait) (st : NodeStatus)
    → awaits t w ≡ true
    → wait_fits w st ≡ true
    → node_terminal st ≡ false
awaited-open t w st a f = ground arith

awaited-begun :
    (t : GateType) (w : Option Wait) (st : NodeStatus)
    → awaits t w ≡ true
    → wait_fits w st ≡ true
    → (is_started st || wait_is_attention w) ≡ true
awaited-begun t w st a f = ground arith

module _ (env : Env) (spec : GraphSpec) (approve : Bool) (by : String) where
  recorded-WorldOk :
      (t : Target) (a : Action) (w : World)
      → WorldOk env spec w
      → WorldOk env spec (recorded env spec approve by t a w)
  unfolding recorded
  recorded-WorldOk t a w ok = WorldOk-same env spec w _ refl ok.deps.closed (more same _) ok

  deny_plan-WorldOk :
      (w : World)
      → WorldOk env spec w
      → WorldOk env spec (on_state (deny_plan env spec approve by) w)
  deny_plan-WorldOk w ok =
      WorldOk-same env spec (on_state (λ s. skip_open_nodes plan_denied s) w) _ refl
        (λ _. skip_open_nodes-closed plan_denied w.state.nodes) same
        (WorldOk-Frame env spec w _
          (Frame-map_values w.state (skip_open plan_denied) (skip_open-Progresses plan_denied)) same
          ok)

  plan_decided-WorldOk :
      (b : Bool) (w : World)
      → WorldOk env spec w
      → WorldOk env spec (
          on_state
            (λ s.
              if b
              then record s { status = RunStatus.approved }
              else deny_plan env spec approve by s)
            w)
  plan_decided-WorldOk true w ok = WorldOk-same env spec w _ refl (λ h. cc (h)) same ok
  plan_decided-WorldOk false w ok = deny_plan-WorldOk w ok

  decide_plan-Trail :
      (status : RunStatus) (w : World)
      → WorldOk env spec w
      → Trail env spec (decide_plan env spec approve by status w).effects
  unfolding decide_plan
  decide_plan-Trail RunStatus.draft w ok = save-Trail env spec _ (
      plan_decided-WorldOk approve
        (recorded env spec approve by plan (plan_action w.state.order spec.digest) w)
        (recorded-WorldOk plan (plan_action w.state.order spec.digest) w ok))
  decide_plan-Trail RunStatus.approved w ok = ok.trail
  decide_plan-Trail RunStatus.running w ok = ok.trail
  decide_plan-Trail RunStatus.waiting w ok = ok.trail
  decide_plan-Trail RunStatus.succeeded w ok = ok.trail
  decide_plan-Trail RunStatus.failed w ok = ok.trail
  decide_plan-Trail RunStatus.cancelled w ok = ok.trail

  conclude-Trail :
      (w : World) → WorldOk env spec w → Trail env spec (conclude env spec approve by w).effects
  unfolding conclude
  conclude-Trail w ok =
      if_ind (OutcomeOk env spec) (in_progress w.state.status)
        (advance_settle-Trail env spec env.max_steps w ok)
        (save-Trail env spec (settle env spec w) (settle-WorldOk env spec w ok))

  -- A node that waits for a gate has begun and is not terminal.
  awaits-Halted :
      (t : GateType) (v : NodeState) → awaits t v.wait ≡ true → is_fitting v ≡ true → Halted v
  awaits-Halted t v a f = record {
    open_still = awaited-open t v.wait v.status a f;
    begun = awaited-begun t v.wait v.status a f;
  }

  Halted-Progresses :
      (v w : NodeState) → Halted v → w.attempts ≡ v.attempts → w.wait ≡ none → Progresses v w
  Halted-Progresses v w h a free = record {
    final = λ done. cc (done, h.open_still);
    attempts = omega arith;
    opened = λ _. h.begun;
    fitting = λ _. rw free refl;
  }

  pass_gate-WorldOk :
      (n : Node) (ns : NodeState) (t : GateType) (g : Option String) (w : World)
      → ((v : NodeState) → lookup w.state.nodes n.id ≡ some v → Halted v)
      → WorldOk env spec w
      → WorldOk env spec (pass_gate env spec approve by n ns t g w)
  unfolding pass_gate
  pass_gate-WorldOk n ns t (some g) w h ok = ok
  pass_gate-WorldOk n ns approval none w h ok =
      WorldOk-Frame env spec w _
        (Frame-update w.state n.id (λ (m : NodeState). record m { wait = none })
          (λ v e. Halted-Progresses v _ (h v e) refl refl))
        same ok
  pass_gate-WorldOk n ns review none w h ok =
      WorldOk-Frame env spec w _
        (Frame-update w.state n.id (reviewed env spec approve by)
          (λ v e. Halted-Progresses v _ (h v e) refl refl))
        (more same (node_succeeded n.id ns.attempts none)) ok

  deny_gate-WorldOk :
      (n : Node) (g : String) (w : World)
      → ((v : NodeState) → lookup w.state.nodes n.id ≡ some v → Halted v)
      → WorldOk env spec w
      → WorldOk env spec (deny_gate env spec approve by n g w)
  unfolding deny_gate
  deny_gate-WorldOk n g w h ok =
      WorldOk-Frame env spec w _
        (changed-Frame env n gate_failed (gate_denied_by g by) _ w
          (λ v e. Halted-Progresses v _ (h v e) refl refl))
        (record_failure-Quiet env n _ _ _) ok

  gate_passed-WorldOk :
      (n : Node) (ns : NodeState) (g : Gate) (w : World)
      → ((v : NodeState) → lookup w.state.nodes n.id ≡ some v → Halted v)
      → WorldOk env spec w
      → WorldOk env spec (gate_passed env spec approve by n ns g w)
  unfolding gate_passed
  gate_passed-WorldOk n ns g w h ok =
      WorldOk-if env spec approve _ _
        (pass_gate-WorldOk n ns g.type (pending_gate env spec w.state n g.type) w h ok)
        (deny_gate-WorldOk n g.id w h ok)

  recorded-nodes :
      (t : Target) (a : Action) (w : World)
      → (recorded env spec approve by t a w).state.nodes ≡ w.state.nodes
  unfolding recorded
  recorded-nodes t a w = refl

  decide_gate-Trail :
      (n : Node) (ns : NodeState) (g : Option Gate) (w : World)
      → lookup w.state.nodes n.id ≡ some ns
      → WorldOk env spec w
      → Trail env spec (decide_gate env spec approve by n ns g w).effects
  unfolding decide_gate
  decide_gate-Trail n ns none w e ok = ok.trail
  decide_gate-Trail n ns (some g) w e ok =
      if_cases (OutcomeOk env spec) (awaits_gate env spec approve by n ns g w.state)
        (λ a.
          let target = gate n.id g.id in
          let action = gate_action_of w.state n g in
          let w1 = recorded env spec approve by target action w in
          conclude-Trail (gate_passed env spec approve by n ns g w1) (
            gate_passed-WorldOk n ns g w1
              (λ v f.
                let f' : lookup w.state.nodes n.id ≡ some v =
                  rw (recorded-nodes target action w) at f in
                let eq : ns ≡ v = cc (e, f') in
                rw (← eq) (awaits-Halted g.type ns (and-left _ _ a) (ok.deps.fitting n.id ns e)))
              (recorded-WorldOk target action w ok)))
        (λ _. ok.trail)

  decide_at-Trail :
      (id gate_id : String) (o : Option NodeState) (n : Option Node) (w : World)
      → lookup w.state.nodes id ≡ o
      → node spec id ≡ n
      → WorldOk env spec w
      → Trail env spec (decide_at env spec approve by gate_id o n w).effects
  unfolding decide_at
  decide_at-Trail id gate_id none n w e f ok = ok.trail
  decide_at-Trail id gate_id (some ns) none w e f ok = ok.trail
  decide_at-Trail id gate_id (some ns) (some n) w e f ok =
      decide_gate-Trail n ns (gate_of n gate_id) w
        (subst (λ (j : String). lookup w.state.nodes j ≡ some ns) (sym (node_id-eq spec id n f)) e)
        ok

  decide_checked-Trail :
      (t : Target) (w : World)
      → WorldOk env spec w
      → Trail env spec (decide_checked env spec approve by t w).effects
  unfolding decide_checked
  decide_checked-Trail plan w ok = decide_plan-Trail w.state.status w ok
  decide_checked-Trail (no_gate s) w ok = ok.trail
  decide_checked-Trail (gate id g) w ok =
      decide_at-Trail id g (lookup w.state.nodes id) (node spec id) w refl refl ok

  pub decide-Trail :
      (t : Target) (w : World)
      → WorldOk env spec w
      → Trail env spec (decide env spec approve by t w).effects
  unfolding decide
  decide-Trail t w ok = if_ind (OutcomeOk env spec) (not (has_text by)) ok.trail (
      if_ind (OutcomeOk env spec) (run_terminal w.state.status) ok.trail
        (decide_checked-Trail t w ok))
